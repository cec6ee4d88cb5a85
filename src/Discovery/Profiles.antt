-- ===== src/Discovery/Profiles.antt =====
-- discovery.py and device_registry.py: the discovery of a device that has a profile.
use mochad_mqtt_bridge.Prelude.{
  ◌≡◌, refl, sym, ap, ◌∙◌, subst, Bool, true, false, not, false≢true, Option, some, List, [], ◌∷◌,
  if◌then◌else◌, discovery_error, ok, raise,
}
use mochad_mqtt_bridge.Text.{Text, text, text_eq, contains_text, lower, strip, Free}
use mochad_mqtt_bridge.Models.Config.{DeviceConfig}
use mochad_mqtt_bridge.Models.Runtime.{Fields}
use mochad_mqtt_bridge.Models.Payloads.{MochadDiagnostics}
use mochad_mqtt_bridge.Topics.{clean_segment, topic_address}
use mochad_mqtt_bridge.Discovery.Blocks.{same, DiscoveryManager}
use mochad_mqtt_bridge.Discovery.Messages.{device_payload, message, discovery_messages, given}
use mochad_mqtt_bridge.Discovery.Valid.{accepted}
use mochad_mqtt_bridge.Dict.{lookup}
use mochad_mqtt_bridge.Dict.Keys.{all_entries, Entries-of_test, lookup-Entries}
use mochad_mqtt_bridge.DeviceRegistry.Profiles.{DeviceProfile}
use mochad_mqtt_bridge.DeviceRegistry.Products.{device_profiles}
use mochad_mqtt_bridge.DeviceRegistry.{apply_profile}
use mochad_mqtt_bridge.DeviceRegistry.Applied.{apply_profile_iff}
use mochad_mqtt_bridge.Discovery.Published.{config_topic, published_devices}

-- the profiles that are neither a chime nor have a state
abbrev pub without_message : List Text
without_message = text "um506_momentary" ∷ text "powerflash_mode_2" ∷ []

same_bool : Bool → Bool → Bool
same_bool true b = b
same_bool false b = not b

same_bool-eq : (a b : Bool) → same_bool a b ≡ true → a ≡ b
unfolding same_bool
same_bool-eq true b h = sym h
same_bool-eq false true h = absurd (false≢true h)
same_bool-eq false false h = refl

is_told_apart : Text → DeviceProfile → Bool
unfolding same_bool accepted
is_told_apart key p =
    same_bool (accepted p.entity_type p.stateful) (not (contains_text key without_message))

profiles_are_told_apart : all_entries is_told_apart device_profiles ≡ true
unfolding is_told_apart contains_text text_eq
profiles_are_told_apart = refl

accepted-profile :
    (key : Text) (p : DeviceProfile)
    → lookup key device_profiles ≡ some p
    → accepted p.entity_type p.stateful ≡ not (contains_text key without_message)
unfolding is_told_apart
accepted-profile key p h = same_bool-eq _ _ (
    lookup-Entries (λ k p. is_told_apart k p ≡ true) key p device_profiles
      (Entries-of_test is_told_apart device_profiles profiles_are_told_apart) h)

-- A device to which a registered profile has been applied gets one message, under the conditions of a
-- name, an address, a base topic and a discovery prefix that are accepted and no slash inside the
-- prefix; only the momentary UM506 and the second mode of Powerflash get a `DiscoveryError`.
pub published_profiles :
    (m : DiscoveryManager) (device profiled : DeviceConfig) (id : Text)
    (d : Option MochadDiagnostics) (address base prefix : Text)
    → apply_profile device id ≡ ok profiled
    → given (strip profiled.name) ≡ true
    → topic_address profiled.address ≡ ok address
    → clean_segment m.base_topic ≡ ok base
    → clean_segment m.discovery_prefix ≡ ok prefix
    → Free b'/' prefix
    → (payload : Fields) × (device_payload m profiled d ≡ ok payload)
      × (discovery_messages m profiled d ≡ (
          if not (contains_text (lower (strip id)) without_message)
          then ok (message (config_topic prefix profiled address) payload ∷ [])
          else raise discovery_error))
published_profiles m device profiled id d a b p applied named read based prefixed free =
    let (profile, found, key, same) = (apply_profile_iff device profiled id).0 applied in
    let kind : accepted profiled.entity_type profiled.stateful
        ≡ not (contains_text (lower (strip id)) without_message) =
      ap (λ x. accepted x.entity_type x.stateful) same
      ∙ accepted-profile (lower (strip id)) profile found in
    subst
      (λ sent.
        (payload : Fields) × (device_payload m profiled d ≡ ok payload)
        × (discovery_messages m profiled d ≡ (
            if sent
            then ok (message (config_topic p profiled a) payload ∷ [])
            else raise discovery_error)))
      kind (published_devices m profiled d a b p named read based prefixed free)
