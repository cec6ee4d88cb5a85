-- ===== src/Config/Restart.antt =====
-- config.py: a bridge that starts again with the file that it created loads the same configuration.
use mochad_mqtt_bridge.Prelude.{
  ◌≡◌, refl, ap, ◌∙◌, subst, Bool, true, false, Option, none, some, Result, ok, ◌>>=◌, >>=-eq-ok,
  ok_injective,
}
use mochad_mqtt_bridge.Text.{Text, text, text_eq}
use mochad_mqtt_bridge.Dict.{Dict, values, lookup}
use mochad_mqtt_bridge.Models.Config.{DeviceConfig}
use mochad_mqtt_bridge.Models.Runtime.{Json, obj, Fields, end}
use mochad_mqtt_bridge.Models.Payloads.{JsonFile, missing, held, get_field}
use mochad_mqtt_bridge.Config.Values.{str_of}
use mochad_mqtt_bridge.Config.Environment.{
  Environment, Floats, get_env, env_or, bool_or, get_secret, load_mqtt_tls_config, secret_from,
}
use mochad_mqtt_bridge.Config.File.{
  Config, file_bool, bool_of_json, config_file_payload, create_at, create_config_file_if_missing,
  config_of_file, sort_devices,
}
use mochad_mqtt_bridge.Config.Load.{
  Before, After, devices_of, devices_from_sources, load_with, settings_before, settings_after,
  config_with, config_path, load_config,
}
use mochad_mqtt_bridge.Config.Loaded.{IsLoaded, parse_devices-Loads, parse_device_config-IsLoaded}
use mochad_mqtt_bridge.Config.Sorted.{keyed}
use mochad_mqtt_bridge.Config.Reread.{parse_device_config-items, lookup-keyed}

-- The configuration with its devices in the order of their addresses.
abbrev pub by_address : {Float : Type 0} → Config Float → Config Float
by_address config = record config { devices = keyed (sort_devices (values config.devices)) }

module _ (repr : Json → Text) (floats : Floats) (env : Environment) where
  devices_of-IsLoaded :
      (friendly : Bool) (o o' : Option Json) (ds : Dict DeviceConfig)
      → devices_of repr floats env friendly o o' ≡ ok ds
      → IsLoaded friendly ds
  unfolding devices_of
  devices_of-IsLoaded friendly none none =
      parse_devices-Loads friendly (get_env env (text "X10_DEVICES"))
  devices_of-IsLoaded friendly none (some raw) =
      parse_devices-Loads friendly (some (str_of repr raw))
  devices_of-IsLoaded friendly (some raw) none = parse_device_config-IsLoaded repr friendly raw
  devices_of-IsLoaded friendly (some raw) (some raw') = λ ds h. absurd (cc h)

  file_bool-payload :
      (config : Config floats.Float) (default : Bool)
      → file_bool (config_file_payload config) (text "use_friendly_names") default
        ≡ ok config.use_friendly_names
  unfolding file_bool bool_of_json config_file_payload get_field text_eq
  file_bool-payload config default = refl

  devices-payload :
      (config : Config floats.Float)
      → IsLoaded config.use_friendly_names config.devices
      → devices_from_sources repr floats env (config_file_payload config) config.use_friendly_names
        ≡ ok (keyed (sort_devices (values config.devices)))
  unfolding devices_from_sources devices_of config_file_payload get_field text_eq
  devices-payload config l =
      parse_device_config-items repr config.use_friendly_names config.devices l

  -- What the file does not say is loaded from the environment, as before.
  load_with-again :
      (path : Text) (default friendly : Bool) (before : Before floats.Float)
      (devices : Dict DeviceConfig) (after : After)
      → bool_or true (get_env env (text "X10_USE_FRIENDLY_NAMES")) ≡ ok default
      → settings_before floats env ≡ ok before
      → settings_after env ≡ ok after
      → IsLoaded friendly devices
      → load_with repr floats env path
          (config_file_payload (config_with floats env path friendly before devices after))
        ≡ ok (by_address (config_with floats env path friendly before devices after))
  unfolding load_with config_with
  load_with-again path default friendly before devices after e e2 e4 loaded =
      let config = config_with floats env path friendly before devices after in
      rw (e, file_bool-payload config default, e2, devices-payload config loaded, e4) refl

  load_with-payload :
      (path : Text) (fields : Fields) (config : Config floats.Float)
      → load_with repr floats env path fields ≡ ok config
      → (config.config_file ≡ some path)
        × IsLoaded config.use_friendly_names config.devices
        × (load_with repr floats env path (config_file_payload config) ≡ ok (by_address config))
  unfolding load_with config_with
  load_with-payload path fields config h =
      let (default, e, h) =
        >>=-eq-ok (bool_or true (get_env env (text "X10_USE_FRIENDLY_NAMES"))) _ h in
      let (friendly, e1, h) =
        >>=-eq-ok (file_bool fields (text "use_friendly_names") default) _ h in
      let (before, e2, h) = >>=-eq-ok (settings_before floats env) _ h in
      let (devices, e3, h) = >>=-eq-ok (devices_from_sources repr floats env fields friendly) _ h in
      let (after, e4, h) = >>=-eq-ok (settings_after env) _ h in
      let built = ok_injective _ _ h in
      let loaded =
        devices_of-IsLoaded friendly (get_field (text "devices") fields)
          (get_field (text "x10_devices") fields) devices (unfold devices_from_sources in e3) in
      subst
        (λ (c : Config floats.Float).
          (c.config_file ≡ some path)
          × IsLoaded c.use_friendly_names c.devices
          × (load_with repr floats env path (config_file_payload c) ≡ ok (by_address c)))
        built
        (refl, loaded, load_with-again path default friendly before devices after e e2 e4 loaded)

-- With one JSON file for every path, a load reads that file.
load_config-file :
    (repr : Json → Text) (floats : Floats) (env : Environment) (file : JsonFile)
    → load_config repr floats (record env { read_json = λ path. file })
      ≡ (config_of_file file >>= load_with repr floats env (config_path env))
unfolding load_config config_path load_with settings_before settings_after config_with get_env
    env_or get_secret load_mqtt_tls_config devices_from_sources devices_of secret_from
load_config-file repr floats env file = refl

created_file :
    {Float : Type 0} (config : Config Float) (path : Text)
    → config.config_file ≡ some path
    → (create_config_file_if_missing true config missing).0
      ≡ held (some (obj (config_file_payload config)))
unfolding create_config_file_if_missing create_at
created_file config path e = at config.config_file e
  where
    at :
        (o : Option Text)
        → o ≡ some path
        → (elim o as (λ x. JsonFile × Result Bool) [
          | none ↦ (missing, ok false)
          | some p ↦ create_at true config missing
        ]).0
          ≡ held (some (obj (config_file_payload config)))
    at none e = absurd (cc e)
    at (some p) e = refl

-- A bridge that found no file, and created one that could be written, loads the same configuration
-- from that file and the same environment: all settings are the same, and the devices are the same
-- under each address, now in the order of their addresses.
pub load_config-created :
    (repr : Json → Text) (floats : Floats) (env : Environment) (config : Config floats.Float)
    → env.read_json (config_path env) ≡ missing
    → load_config repr floats env ≡ ok config
    → (load_config repr floats
          (record env { read_json = λ path. (create_config_file_if_missing true config missing).0 })
        ≡ ok (by_address config))
      × ((k : Text) → lookup k (by_address config).devices ≡ lookup k config.devices)
unfolding load_config config_of_file
load_config-created repr floats env config absent h =
    let (at_path, loaded, again) =
      load_with-payload repr floats env (config_path env) end config (rw absent at h) in
    (
      load_config-file repr floats env _
          ∙ ap (λ file. config_of_file file >>= load_with repr floats env (config_path env))
              (created_file config (config_path env) at_path)
          ∙ again,
      λ k. lookup-keyed config.use_friendly_names k config.devices loaded,
    )
