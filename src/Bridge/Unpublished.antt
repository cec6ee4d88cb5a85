-- ===== src/Bridge/Unpublished.antt =====
-- bridge.py: a reload with a device for which discovery has no message.
use mochad_mqtt_bridge.Prelude.{
  ℕ, ◌≡◌, refl, sym, ap, ◌∙◌, Bool, true, false, not, ◌&&◌, Option, some, List, [], ◌∷◌, arith,
  Bool-cases, ◌⊎◌, inl, inr, discovery_error, ok, raise, false≢true,
}
use mochad_mqtt_bridge.Text.{Text, strip, Free}
use mochad_mqtt_bridge.Dict.{Dict, values}
use mochad_mqtt_bridge.Dict.Keys.{Entries}
use mochad_mqtt_bridge.Models.Config.{DeviceConfig}
use mochad_mqtt_bridge.Models.Payloads.{MochadDiagnostics}
use mochad_mqtt_bridge.Topics.{clean_segment, topic_address, match_topic_address, unique_id}
use mochad_mqtt_bridge.Discovery.Blocks.{DiscoveryManager}
use mochad_mqtt_bridge.Discovery.Messages.{
  given, discovery_messages, validate_device, require, as_discovery_error,
}
use mochad_mqtt_bridge.Discovery.Valid.{accepted}
use mochad_mqtt_bridge.Discovery.Published.{published_devices}
use mochad_mqtt_bridge.DiscoveryRegistry.{DiscoveryRegistry}
use mochad_mqtt_bridge.Config.Environment.{Floats}
use mochad_mqtt_bridge.Config.File.{Config}
use mochad_mqtt_bridge.Config.Devices.{matches_device, or_address, display_name}
use mochad_mqtt_bridge.Config.Accepted.{IsNormal, Shown, IsEntry, strip-address}
use mochad_mqtt_bridge.Config.Loaded.{IsLoaded}
use mochad_mqtt_bridge.Bridge.{Bridge}
use mochad_mqtt_bridge.Bridge.Actions.{publish_messages}
use mochad_mqtt_bridge.Bridge.Cleanup.{device_messages, current_messages}
use mochad_mqtt_bridge.Bridge.Diagnostics.{then_do}
use mochad_mqtt_bridge.Bridge.Start.{address_allowed_by_config, allowed_devices}
use mochad_mqtt_bridge.Bridge.Reload.{
  Watch, same_flag, same_signature, same_devices, publish_reload, after_reload,
  apply_runtime_config, signed, reload_with, check_config_file_reload,
}

IsNormal-given : (a : Text) → IsNormal a → given a ≡ true
unfolding matches_device given
IsNormal-given [] h = absurd (false≢true h.0)
IsNormal-given (c ∷ a) h = refl

-- The address of a device is accepted in a topic, or the device has no message.
IsNormal-topic :
    (m : DiscoveryManager) (d : Option MochadDiagnostics) (device : DeviceConfig) (a : Text)
    → IsNormal a
    → device.address ≡ a
    → given (strip device.name) ≡ true
    → (topic_address device.address ≡ ok a)
      ⊎ (discovery_messages m device d ≡ raise discovery_error)
unfolding topic_address discovery_messages validate_device require unique_id as_discovery_error
IsNormal-topic m d device a h at named = elim (Bool-cases (match_topic_address a)) [
  | inl e ↦ inl (rw (at, h.1, e) refl)
  | inr e ↦ inr (rw (named, at, h.1, e) refl)
]

or_address-given : (a n s : Text) → IsNormal a → strip n ≡ s → or_address a s ≡ n → given s ≡ true
unfolding given
or_address-given a n [] h e shown =
    let empty : a ≡ [] = sym (strip-address a h) ∙ ap strip shown ∙ e in
    sym (ap given empty) ∙ IsNormal-given a h
or_address-given a n (c ∷ s) h e shown = refl

-- A name that is shown is not blank.
Shown-given :
    (friendly : Bool) (a n : Text) → IsNormal a → Shown friendly a n → given (strip n) ≡ true
unfolding display_name
Shown-given false a n h shown = rw (← shown, strip-address a h) (IsNormal-given a h)
Shown-given true a n h shown = or_address-given a n (strip n) h refl shown

abbrev pub all_published : List DeviceConfig → Bool
all_published [] = true
all_published (d ∷ ds) = accepted d.entity_type d.stateful && all_published ds

allowed-Entries :
    (P : Text → DeviceConfig → Type 0) (codes : Option Text) (ds : Dict DeviceConfig)
    → Entries P ds
    → Entries P (allowed_devices codes ds)
unfolding allowed_devices
allowed-Entries P codes [] h = tt
allowed-Entries P codes ((a, d) ∷ ds) h = elim (Bool-cases (address_allowed_by_config codes a)) [
  | inl kept ↦ rw kept (h.0, allowed-Entries P codes ds h.1)
  | inr dropped ↦ rw dropped (allowed-Entries P codes ds h.1)
]

module _ (m : DiscoveryManager) (base prefix : Text) where
  -- the base topic and the discovery prefix are accepted
  abbrev pub Clean : Type 0
  Clean =
      (clean_segment m.base_topic ≡ ok base)
      × (clean_segment m.discovery_prefix ≡ ok prefix)
      × Free b'/' prefix

  device_messages-raise :
      (cleanup friendly : Bool) (ds : Dict DeviceConfig) (d : MochadDiagnostics)
      → Clean
      → Entries (IsEntry friendly) ds
      → all_published (values ds) ≡ false
      → device_messages m cleanup (values ds) d ≡ raise discovery_error
  unfolding device_messages values
  device_messages-raise cleanup friendly [] d c h none_left = absurd (false≢true (sym none_left))
  device_messages-raise cleanup friendly ((a, device) ∷ ds) d c (entry, h) refused =
      let named = Shown-given friendly a device.name entry.normal_address entry.shown in
      elim (IsNormal-topic m (some d) device a entry.normal_address entry.built.at_address named) [
        | inl read ↦
            let (payload, made, sent) =
              published_devices m device (some d) a base prefix named read c.0 c.1 c.2 in
            elim (Bool-cases (accepted device.entity_type device.stateful)) [
              | inl kept ↦
                  rw (sent, kept, device_messages-raise cleanup friendly ds d c h (ground arith))
                    refl
              | inr dropped ↦ rw (sent, dropped) refl
            ]
        | inr raised ↦ rw raised refl
      ]

-- Let a bridge that is connected to the broker find that its configuration file has changed, and load
-- it, with other devices or another setting of friendly names. If one of the devices with an allowed
-- house code is no chime and has no state, then the reload raises a `DiscoveryError`: the devices
-- and the configuration are replaced, nothing is published, and the signature is not stored.
pub reload_raises :
    (floats : Floats) (m : DiscoveryManager) (base prefix : Text) (force friendly : Bool)
    (now : floats.Float) (signature : Option (ℕ × ℕ)) (new : Config floats.Float) (b : Bridge)
    (r : DiscoveryRegistry) (w : Watch floats.Float)
    → Clean m base prefix
    → w.watched ≡ true
    → (not force && floats.below now w.next_check) ≡ false
    → (not force && same_signature signature w.signature) ≡ false
    → IsLoaded friendly new.devices
    → b.mqtt.connected ≡ true
    → (let devices = allowed_devices w.config.x10_housecodes new.devices in
        ((same_devices devices b.devices
            && same_flag new.use_friendly_names w.config.use_friendly_names)
          ≡ false)
        → all_published (values devices) ≡ false
        → check_config_file_reload floats m force now signature (ok new) (b, r) w ≡ (
          (record b { devices = devices }, r),
          record w {
            next_check = floats.plus now w.config.config_reload_interval_seconds;
            config = record w.config {
              devices = new.devices;
              use_friendly_names = new.use_friendly_names;
            };
          },
          raise discovery_error,
        ))
unfolding check_config_file_reload reload_with apply_runtime_config publish_reload publish_messages
    current_messages then_do after_reload signed
reload_raises floats m base prefix force friendly now signature new b r w clean watched due changed
      loaded connected different refused =
    let devices = allowed_devices w.config.x10_housecodes new.devices in
    let entries =
      allowed-Entries (IsEntry friendly) w.config.x10_housecodes new.devices loaded.entries in
    rw
      (
        watched,
        due,
        changed,
        different,
        connected,
        device_messages-raise m base prefix w.config.discovery_cleanup friendly devices
            b.mochad_diagnostics clean entries refused,
      )
      refl
