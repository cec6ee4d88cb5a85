-- ===== src/Bridge/Reloaded.antt =====
-- bridge.py: a reload changes the devices of the bridge, and not the configurations of the manager.
use mochad_mqtt_bridge.Prelude.{
  config_error, ℕ, ◌≡◌, refl, ◌∙◌, Bool, false, not, ◌&&◌, Option, [], if◌then◌else◌, Result, ok,
  raise,
}
use mochad_mqtt_bridge.Text.{Text}
use mochad_mqtt_bridge.Models.Enums.{Command, contains_command}
use mochad_mqtt_bridge.Models.Runtime.{Json, Time}
use mochad_mqtt_bridge.State.{device_config}
use mochad_mqtt_bridge.State.WellFormed.{IsWellFormed}
use mochad_mqtt_bridge.State.Unsupported.{optimistic_update-unsupported}
use mochad_mqtt_bridge.State.Connections.{optimistic_update}
use mochad_mqtt_bridge.Discovery.Blocks.{DiscoveryManager}
use mochad_mqtt_bridge.DiscoveryRegistry.{DiscoveryRegistry}
use mochad_mqtt_bridge.Config.Environment.{Floats}
use mochad_mqtt_bridge.Config.File.{Config}
use mochad_mqtt_bridge.Bridge.{Bridge}
use mochad_mqtt_bridge.Bridge.Outbound.{bridge_device_config}
use mochad_mqtt_bridge.Bridge.Actions.{execute_actions}
use mochad_mqtt_bridge.Bridge.Commands.{MqttCommandMessage}
use mochad_mqtt_bridge.Bridge.Commands.Accepted.{IsAccepted}
use mochad_mqtt_bridge.Bridge.Inbound.{on_mqtt_command, on_mqtt_command-accepted}
use mochad_mqtt_bridge.Bridge.Start.{allowed_devices}
use mochad_mqtt_bridge.Bridge.Reload.{
  same_signature, signed, reload_with, check_config_file_reload, publish_reload, Watch,
  after_reload, Reloaded, apply_runtime_config,
}
use mochad_mqtt_bridge.Bridge.Commands.Refused.{bridge_device_config-Untouched}
use mochad_mqtt_bridge.Bridge.Kept.{
  SameManager, publish_reload-SameManager, after_reload-SameManager, if-SameManager,
}

-- Whatever the new configuration, the manager keeps the configurations of its devices.
apply_runtime_config-SameManager :
    (floats : Floats) (m : DiscoveryManager) (new : Config floats.Float) (b : Bridge)
    (r : DiscoveryRegistry) (w : Watch floats.Float)
    → SameManager b (apply_runtime_config floats m new (b, r) w).0.0
unfolding apply_runtime_config
apply_runtime_config-SameManager floats m new b r w =
    let devices = allowed_devices w.config.x10_housecodes new.devices in
    let changed = record b { devices = devices } in
    let config = record w.config {
      devices = new.devices;
      use_friendly_names = new.use_friendly_names;
    } in
    let watch = record w { config = config } in
    let sent = publish_reload m w.config.discovery_cleanup (changed, r) in
    let quiet : Reloaded floats m = ((changed, r), watch, ok tt) in
    let loud = after_reload floats m watch sent in
    if-SameManager floats m b _ ((b, r), w, ok tt) (if b.mqtt.connected then loud else quiet) refl
      (if-SameManager floats m b b.mqtt.connected loud quiet
        (after_reload-SameManager floats m b watch sent
          (publish_reload-SameManager m w.config.discovery_cleanup changed r))
        refl)

module _ (floats : Floats) (m : DiscoveryManager) (b : Bridge) where
  signed-SameManager :
      (signature : Option (ℕ × ℕ)) (x : Reloaded floats m)
      → SameManager b x.0.0
      → SameManager b (signed floats m signature x).0.0
  unfolding signed
  signed-SameManager signature (both, w, ok done) h = h
  signed-SameManager signature (both, w, raise e) h = h

  reload_with-SameManager :
      (signature : Option (ℕ × ℕ)) (loaded : Result (Config floats.Float)) (r : DiscoveryRegistry)
      (w : Watch floats.Float)
      → SameManager b (reload_with floats m signature loaded (b, r) w).0.0
  unfolding reload_with
  reload_with-SameManager signature (ok new) r w =
      signed-SameManager signature (apply_runtime_config floats m new (b, r) w)
        (apply_runtime_config-SameManager floats m new b r w)
  reload_with-SameManager signature (raise e) r w =
      elim e as (λ k. SameManager b (reload_with floats m signature (raise k) (b, r) w).0.0) [
        | config_error ↦ refl
        | _ ↦ refl
      ]

-- Whatever the file says, the manager keeps the configurations of its devices.
check_config_file_reload-SameManager :
    (floats : Floats) (m : DiscoveryManager) (force : Bool) (now : floats.Float)
    (signature : Option (ℕ × ℕ)) (loaded : Result (Config floats.Float)) (b : Bridge)
    (r : DiscoveryRegistry) (w : Watch floats.Float)
    → SameManager b (check_config_file_reload floats m force now signature loaded (b, r) w).0.0
unfolding check_config_file_reload
check_config_file_reload-SameManager floats m force now signature loaded b r w =
    let due = record w { next_check = floats.plus now w.config.config_reload_interval_seconds } in
    let idle : Reloaded floats m = ((b, r), w, ok tt) in
    let unchanged : Reloaded floats m = ((b, r), due, ok tt) in
    let read = reload_with floats m signature loaded (b, r) due in
    let known = not force && same_signature signature w.signature in
    let reached = if known then unchanged else read in
    let waits = not force && floats.below now w.next_check in
    if-SameManager floats m b (not w.watched) idle (if waits then idle else reached) refl (
      if-SameManager floats m b waits idle reached refl (
        if-SameManager floats m b known unchanged read refl
          (reload_with-SameManager floats m b signature loaded r due)))

-- The manager does not learn the devices of a reload. Let a check of the configuration file leave a
-- bridge that accepts a command from MQTT for an address. If the configuration that the manager had
-- of the address before that does not support the command, then nothing comes of it: nothing is sent to mochad or to the
-- broker, and nothing is queued.
pub reloaded_command_dropped :
    (socket : ℕ → Bool) (floats : Floats) (m : DiscoveryManager) (isoformat : Time → Text)
    (time : Json) (now : Time) (force : Bool) (checked : floats.Float) (signature : Option (ℕ × ℕ))
    (loaded : Result (Config floats.Float)) (b : Bridge) (r : DiscoveryRegistry)
    (w : Watch floats.Float) (message : MqttCommandMessage) (a : Text) (c : Command)
    → IsWellFormed b.state
    → IsAccepted message
        (check_config_file_reload floats m force checked signature loaded (b, r) w).0.0
        a
        c
    → contains_command c (device_config b.state a).supported_commands ≡ false
    → (let reloaded =
          (check_config_file_reload floats m force checked signature loaded (b, r) w).0.0 in
        let (after, done) = on_mqtt_command socket m isoformat time now message reloaded in
        (after.mochad ≡ reloaded.mochad)
        × (after.mqtt ≡ reloaded.mqtt)
        × (after.queued_device_commands ≡ reloaded.queued_device_commands)
        × (done ≡ ok tt))
unfolding execute_actions
reloaded_command_dropped socket floats m isoformat time now force checked signature loaded b r w
      message a c well accepted unsupported =
    let reloaded =
      (check_config_file_reload floats m force checked signature loaded (b, r) w).0.0 in
    let known = (bridge_device_config a reloaded).0 in
    let (state, mochad, mqtt, queue) = bridge_device_config-Untouched a reloaded in
    let same =
      state ∙ check_config_file_reload-SameManager floats m force checked signature loaded b r w in
    let none_left : (optimistic_update a c now known.state).1 ≡ [] = rw same (
      optimistic_update-unsupported a c now
        (record b.state { available = reloaded.state.available })
        (record { distinct = well.distinct; entries = well.entries })
        (unfold device_config in unsupported)) in
    rw
      (
        on_mqtt_command-accepted socket m isoformat time now message reloaded a c accepted,
        none_left,
      )
      (mochad, mqtt, queue, refl)
