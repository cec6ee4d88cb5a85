-- ===== src/Config/Load.antt =====
-- config.py: the configuration, loaded from the environment and the file. What each source says of the
-- devices is in Devices and Objects.
use mochad_mqtt_bridge.Prelude.{
  Bool, true, false, Option, none, some, config_error, Result, ok, raise, ◌>>=◌,
}
use mochad_mqtt_bridge.Text.{Text, text}
use mochad_mqtt_bridge.Dict.{Dict}
use mochad_mqtt_bridge.Models.Config.{DeviceConfig}
use mochad_mqtt_bridge.Models.Runtime.{Json, Fields}
use mochad_mqtt_bridge.Models.Payloads.{get_field}
use mochad_mqtt_bridge.Config.Values.{ℤ, pos, str_of}
use mochad_mqtt_bridge.Config.Devices.{parse_devices}
use mochad_mqtt_bridge.Config.Objects.{parse_device_config}
use mochad_mqtt_bridge.Config.Housecodes.{parse_housecodes}
use mochad_mqtt_bridge.Config.Environment.{
  Environment, Floats, get_env, env_or, int_or, bool_or, float_or, get_secret, MqttTlsConfig,
  load_mqtt_tls_config,
}
use mochad_mqtt_bridge.Config.File.{Config, config_of_file, file_bool}

-- What is read before the devices, and after them.
pub record Before (Float : Type 0) : Type 0 where
  pub mochad_port : ℤ
  pub mqtt_port : ℤ
  pub mqtt_password : Option Text
  pub mqtt_tls : MqttTlsConfig
  pub interval : Float

pub record After : Type 0 where
  pub cleanup : Bool
  pub buttons : Bool
  pub housecodes : Option Text
  pub debug_wire : Bool

module _ (env : Environment) where
  -- the path of the file
  unfoldable pub config_path : Text
  unfolding env_or
  config_path = env_or env (text "BRIDGE_CONFIG_FILE") (text "/config/bridge.json")

  -- the settings that `load_config` reads after the devices
  unfoldable pub settings_after : Result After
  unfolding bool_or get_env parse_housecodes
  settings_after = do
    cleanup ← bool_or false (get_env env (text "DISCOVERY_CLEANUP"))
    buttons ← bool_or false (get_env env (text "ENABLE_MAINTENANCE_BUTTONS"))
    housecodes ← parse_housecodes (get_env env (text "X10_HOUSECODES"))
    debug_wire ← bool_or false (get_env env (text "BRIDGE_DEBUG_WIRE"))
    ok (record {
      cleanup = cleanup;
      buttons = buttons;
      housecodes = housecodes;
      debug_wire = debug_wire;
    })

module _ (floats : Floats) (env : Environment) where
  -- the settings that `load_config` reads before the devices
  unfoldable pub settings_before : Result (Before floats.Float)
  unfolding int_or get_env get_secret load_mqtt_tls_config float_or
  settings_before = do
    mochad_port ← int_or (pos 1099) (get_env env (text "MOCHAD_PORT"))
    mqtt_port ← int_or (pos 1883) (get_env env (text "MQTT_PORT"))
    mqtt_password ← get_secret env (text "MQTT_PASSWORD") (text "MQTT_PASSWORD_FILE")
    mqtt_tls ← load_mqtt_tls_config env
    interval ←
        float_or floats floats.five (get_env env (text "BRIDGE_CONFIG_RELOAD_INTERVAL_SECONDS"))
    ok (record {
      mochad_port = mochad_port;
      mqtt_port = mqtt_port;
      mqtt_password = mqtt_password;
      mqtt_tls = mqtt_tls;
      interval = interval;
    })

  -- the configuration of what was read
  unfoldable pub config_with :
      Text → Bool → Before floats.Float → Dict DeviceConfig → After → Config floats.Float
  unfolding get_env env_or
  config_with path friendly before devices after = record {
    mochad_host = env_or env (text "MOCHAD_HOST") (text "mochad");
    mochad_port = before.mochad_port;
    mqtt_host = env_or env (text "MQTT_HOST") (text "mosquitto");
    mqtt_port = before.mqtt_port;
    mqtt_username = get_env env (text "MQTT_USERNAME");
    mqtt_password = before.mqtt_password;
    mqtt_tls = before.mqtt_tls;
    mqtt_base_topic = env_or env (text "MQTT_BASE_TOPIC") (text "x10");
    mqtt_discovery_prefix = env_or env (text "MQTT_DISCOVERY_PREFIX") (text "homeassistant");
    log_level = env_or env (text "LOG_LEVEL") (text "INFO");
    config_file = some path;
    config_reload_interval_seconds = before.interval;
    use_friendly_names = friendly;
    devices = devices;
    discovery_cleanup = after.cleanup;
    discovery_registry_path =
        env_or env (text "DISCOVERY_REGISTRY_PATH") (text "/config/discovery_registry.json");
    enable_maintenance_buttons = after.buttons;
    x10_housecodes = after.housecodes;
    debug_wire = after.debug_wire;
  }

-- As for the devices; then the floats and the environment.
module _ (repr : Json → Text) (floats : Floats) (env : Environment) where
  -- the three sources of the devices
  unfoldable pub devices_of : Bool → Option Json → Option Json → Result (Dict DeviceConfig)
  unfolding parse_device_config parse_devices str_of get_env
  devices_of friendly none none = parse_devices (get_env env (text "X10_DEVICES")) friendly
  devices_of friendly none (some raw) = parse_devices (some (str_of repr raw)) friendly
  devices_of friendly (some raw) none = parse_device_config repr friendly raw
  devices_of friendly (some raw) (some raw') = raise config_error

  -- `_devices_from_sources`
  unfoldable pub devices_from_sources : Fields → Bool → Result (Dict DeviceConfig)
  unfolding devices_of get_field
  devices_from_sources fields friendly =
      devices_of friendly (get_field (text "devices") fields)
        (get_field (text "x10_devices") fields)

  -- `load_config`, once the file is read
  unfoldable pub load_with : Text → Fields → Result (Config floats.Float)
  unfolding bool_or get_env file_bool settings_before devices_from_sources settings_after
      config_with
  load_with path fields = do
    default ← bool_or true (get_env env (text "X10_USE_FRIENDLY_NAMES"))
    friendly ← file_bool fields (text "use_friendly_names") default
    before ← settings_before floats env
    devices ← devices_from_sources fields friendly
    after ← settings_after env
    ok (config_with floats env path friendly before devices after)

  unfoldable pub load_config : Result (Config floats.Float)
  unfolding load_with config_of_file config_path
  load_config = config_of_file (env.read_json (config_path env)) >>= load_with (config_path env)
