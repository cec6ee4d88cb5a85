-- ===== src/Bridge/Reload.antt =====
-- bridge.py: the configuration file is watched, and a new configuration replaces the devices while the
-- bridge runs. The clock and the file's time and size are arguments.
use mochad_mqtt_bridge.Prelude.{
  ℕ, Bool, true, false, not, ◌&&◌, Option, none, some, [], ◌∷◌, ◌==◌, if◌then◌else◌, length,
  config_error, Result, ok, raise, ◌>>=◌,
}
use mochad_mqtt_bridge.Dict.{Dict, lookup}
use mochad_mqtt_bridge.Models.Config.{DeviceConfig}
use mochad_mqtt_bridge.Models.Equal.{DeviceConfig-discrete}
use mochad_mqtt_bridge.Models.Payloads.{document}
use mochad_mqtt_bridge.Topics.{status_topic}
use mochad_mqtt_bridge.Discovery.Blocks.{DiscoveryManager}
use mochad_mqtt_bridge.Config.Environment.{Floats}
use mochad_mqtt_bridge.Config.File.{Config}
use mochad_mqtt_bridge.Bridge.{Bridge, Effect, bridge_status_payload, publish}
use mochad_mqtt_bridge.Bridge.Actions.{publish_messages}
use mochad_mqtt_bridge.Bridge.Cleanup.{Both, current_messages, run_discovery_cleanup}
use mochad_mqtt_bridge.Bridge.Maintenance.{Outcome, keep_registry}
use mochad_mqtt_bridge.Bridge.Diagnostics.{then_do}
use mochad_mqtt_bridge.Bridge.Start.{allowed_devices}

-- The fields of the bridge that a reload uses; `watched` is `_config_file_path is not None`. A
-- signature is a time and a size.
pub record Watch (Float : Type 0) : Type 0 where
  pub config : Config Float
  pub watched : Bool
  pub next_check : Float
  pub signature : Option (ℕ × ℕ)

abbrev pub same_flag : Bool → Bool → Bool
same_flag true b = b
same_flag false b = not b

abbrev pub same_signature : Option (ℕ × ℕ) → Option (ℕ × ℕ) → Bool
same_signature none none = true
same_signature (some (t, n)) (some (u, k)) = (t == u) && n == k
same_signature _ _ = false

-- a key of one dict, in another
unfoldable pub same_device : DeviceConfig → Option DeviceConfig → Bool
same_device d none = false
same_device d (some e) = elim (DeviceConfig-discrete d e) [ yes _ ↦ true | no _ ↦ false ]

unfoldable pub agrees : Dict DeviceConfig → Dict DeviceConfig → Bool
unfolding same_device lookup
agrees [] other = true
agrees ((a, d) ∷ devices) other = same_device d (lookup a other) && agrees devices other

-- `==` on dicts
unfoldable pub same_devices : Dict DeviceConfig → Dict DeviceConfig → Bool
unfolding agrees
same_devices devices other = (length devices == length other) && agrees devices other

-- `self.clients.mqtt.publish_status(self._bridge_status_payload(), retain=True)`
unfoldable pub publish_status : Bridge → Effect
unfolding publish bridge_status_payload
publish_status b =
    let (refreshed, payload) = bridge_status_payload none none none b in
    publish (status_topic b.mqtt.base_topic) (document payload) true refreshed

-- The discovery manager and `discovery_cleanup`.
module _ (m : DiscoveryManager) (cleanup : Bool) where
  unfoldable pub clean : Both → Outcome
  unfolding run_discovery_cleanup
  clean both =
      let (both, result) = run_discovery_cleanup m cleanup false both in
      (both, result >>= λ _. ok tt)

  -- what is published when the devices have changed
  unfoldable pub publish_reload : Both → Outcome
  unfolding then_do publish_messages current_messages clean publish_status
  publish_reload (b, r) =
      then_do (then_do (keep_registry r (publish_messages (current_messages m cleanup b) b)) clean)
        (λ (b, r). keep_registry r (publish_status b))

module _ (floats : Floats) (m : DiscoveryManager) where
  -- what a reload does: the bridge and its registry, the watch, and the result
  abbrev pub Reloaded : Type 0
  Reloaded = Both × Watch floats.Float × Result (Unit {0})

  unfoldable pub after_reload : Watch floats.Float → Outcome → Reloaded
  after_reload w (both, done) = (both, w, done)

  -- `_apply_runtime_config`
  unfoldable pub apply_runtime_config : Config floats.Float → Both → Watch floats.Float → Reloaded
  unfolding allowed_devices same_devices publish_reload after_reload
  apply_runtime_config new (b, r) w =
      let devices = allowed_devices w.config.x10_housecodes new.devices in
      let config = record w.config {
        devices = new.devices;
        use_friendly_names = new.use_friendly_names;
      } in
      let changed = record b { devices = devices } in
      if same_devices devices b.devices
        && same_flag new.use_friendly_names w.config.use_friendly_names
      then ((b, r), w, ok tt)
      else if b.mqtt.connected
      then after_reload (record w { config = config })
          (publish_reload m w.config.discovery_cleanup (changed, r))
      else ((changed, r), record w { config = config }, ok tt)

  -- the signature is stored, unless an exception was raised
  unfoldable pub signed : Option (ℕ × ℕ) → Reloaded → Reloaded
  signed signature (both, w, ok done) = (both, record w { signature = signature }, ok done)
  signed signature (both, w, raise e) = (both, w, raise e)

  -- what `load_config` returned; a `ConfigError` is caught
  unfoldable pub reload_with :
      Option (ℕ × ℕ) → Result (Config floats.Float) → Both → Watch floats.Float → Reloaded
  unfolding signed apply_runtime_config
  reload_with signature (ok new) both w = signed signature (apply_runtime_config new both w)
  reload_with signature (raise config_error) both w = (both, w, ok tt)
  reload_with signature (raise e) both w = (both, w, raise e)

  -- `_check_config_file_reload`, at a time, with the file's signature and the result of a load
  unfoldable pub check_config_file_reload :
      Bool
      → floats.Float
      → Option (ℕ × ℕ)
      → Result (Config floats.Float)
      → Both
      → Watch floats.Float
      → Reloaded
  unfolding reload_with
  check_config_file_reload force now signature loaded both w =
      let due = record w { next_check = floats.plus now w.config.config_reload_interval_seconds } in
      if not w.watched
      then (both, w, ok tt)
      else if not force && floats.below now w.next_check
      then (both, w, ok tt)
      else if not force && same_signature signature w.signature
      then (both, due, ok tt)
      else reload_with signature loaded both due
