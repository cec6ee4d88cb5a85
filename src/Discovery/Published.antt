-- ===== src/Discovery/Published.antt =====
-- discovery.py: what `discovery_messages` gives for a device.
use mochad_mqtt_bridge.Prelude.{
  ◌≡◌, refl, ap, ◌∙◌, inl, inr, true, not, ◌||◌, Option, [], ◌∷◌, ◌++◌, if◌then◌else◌, Bool-cases,
  discovery_error, ok, raise,
}
use mochad_mqtt_bridge.Text.{Text, text, strip, split_at, join, Free}
use mochad_mqtt_bridge.Models.Config.{DeviceConfig}
use mochad_mqtt_bridge.Models.Runtime.{Fields}
use mochad_mqtt_bridge.Models.Payloads.{MochadDiagnostics}
use mochad_mqtt_bridge.Topics.{
  clean_segment, topic_address, unique_id, entity_type, state_topic, command_topic, device_topic,
  bridge_topic, availability_topic, discovery_topic,
}
use mochad_mqtt_bridge.Topics.Segments.{StartsClean, clean_segment-StartsClean}
use mochad_mqtt_bridge.Discovery.Blocks.{DiscoveryManager}
use mochad_mqtt_bridge.Discovery.Messages.{
  is_chime, button_fields, state_fields, button_payload, state_payload, device_payload,
  as_discovery_error, validate_device, message, discovery_messages, require, component_of, given,
  validate_message,
}
use mochad_mqtt_bridge.Discovery.Valid.{
  clean_state, clean_command, clean_availability, required, component_of-topic,
  validate_message-button, validate_message-state, given-append, Free-entity_type, accepted,
  component_accepts-button, component_accepts-state,
}

-- the topic of a device's discovery
abbrev pub config_topic : Text → DeviceConfig → Text → Text
config_topic prefix device address =
    join (text "/")
      (prefix ∷ entity_type device.entity_type ∷ (text "x10_" ++ address) ∷ text "config" ∷ [])

module _ (m : DiscoveryManager) (device : DeviceConfig) (d : Option MochadDiagnostics) where
  -- the topics of a device that its payload names
  abbrev device_at : Text → Text → Text → Text
  device_at base address suffix = join (text "/") (base ∷ address ∷ suffix ∷ [])

  -- the payload of a device with these topics
  fields_of : Text → Text → Fields
  fields_of base address =
      let id = text "x10_" ++ address in
      let command = device_at base address (text "command") in
      let availability = join (text "/") (base ∷ text "bridge" ∷ text "availability" ∷ []) in
      if is_chime device.entity_type || not device.stateful
      then button_fields m d device.name id command availability
      else state_fields m d device.name (entity_type device.entity_type) id
          (device_at base address (text "state")) command availability

  device_payload-fields_of :
      (base address : Text)
      → topic_address device.address ≡ ok address
      → clean_segment m.base_topic ≡ ok base
      → device_payload m device d ≡ ok (fields_of base address)
  unfolding unique_id device_payload button_payload state_payload device_topic bridge_topic
      state_topic command_topic availability_topic fields_of join
  device_payload-fields_of b a read based =
      rw (read, based, clean_state, clean_command, clean_availability)
        (elim (Bool-cases (is_chime device.entity_type || not device.stateful)) [
          | inl e ↦ rw e refl
          | inr e ↦ rw e refl
        ])

  validate_message-fields_of :
      (topic base address : Text)
      → component_of (split_at b'/' topic) ≡ ok (entity_type device.entity_type)
      → given topic ≡ true
      → StartsClean base
      → validate_message topic (fields_of base address)
        ≡ require (accepted device.entity_type device.stateful)
  unfolding fields_of given join
  validate_message-fields_of topic b a at topic_given starts =
      let filled : (s : Text) → given (b ++ s) ≡ true = λ s. given-append b s starts in
      elim (Bool-cases (is_chime device.entity_type || not device.stateful)) [
        | inl e ↦ rw e (
            validate_message-button m d topic _ device.name _ _ _ at topic_given refl (filled _)
              (filled _)
            ∙ ap require (component_accepts-button device.entity_type device.stateful e))
        | inr e ↦ rw e (
            validate_message-state m d topic _ device.name _ _ _ at topic_given refl (filled _)
              (filled _) (entity_type device.entity_type) _ (filled _)
            ∙ ap require (component_accepts-state device.entity_type device.stateful e))
      ]

-- A device that has a name and an address, with a base topic and a discovery prefix that are accepted and
-- no slash inside the prefix, gets exactly one message, retained, on the topic of its type and its address and with the payload
-- of its kind, if it is a chime or has a state. Any other device gets a `DiscoveryError`.
pub published_devices :
    (m : DiscoveryManager) (device : DeviceConfig) (d : Option MochadDiagnostics)
    (address base prefix : Text)
    → given (strip device.name) ≡ true
    → topic_address device.address ≡ ok address
    → clean_segment m.base_topic ≡ ok base
    → clean_segment m.discovery_prefix ≡ ok prefix
    → Free b'/' prefix
    → (payload : Fields) × (device_payload m device d ≡ ok payload)
      × (discovery_messages m device d ≡ (
          if accepted device.entity_type device.stateful
          then ok (message (config_topic prefix device address) payload ∷ [])
          else raise discovery_error))
unfolding discovery_messages validate_device unique_id discovery_topic join require
    as_discovery_error
published_devices m device d a b p named read based prefixed free =
    let at =
      component_of-topic p (entity_type device.entity_type) (text "x10_" ++ (a ++ text "/config"))
        free (Free-entity_type device.entity_type) in
    let topic_given = given-append p _ (clean_segment-StartsClean _ p prefixed) in
    (
      fields_of m device d b a,
      device_payload-fields_of m device d b a read based,
      rw
          (
            named,
            device_payload-fields_of m device d b a read based,
            read,
            prefixed,
            validate_message-fields_of m device d (config_topic p device a) b a at topic_given
                (clean_segment-StartsClean _ b based),
          )
          (required (accepted device.entity_type device.stateful) _),
    )
