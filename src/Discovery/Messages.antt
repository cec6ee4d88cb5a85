-- ===== src/Discovery/Messages.antt =====
-- discovery.py: the message of a device, and the validation of messages.
use mochad_mqtt_bridge.Prelude.{
  Bool, true, false, not, ◌&&◌, ◌||◌, Option, none, some, List, [], ◌∷◌, if◌then◌else◌, index_error,
  discovery_error, Result, ok, raise, ◌>>=◌,
}
use mochad_mqtt_bridge.Text.{Text, text, text_eq, strip, split_at}
use mochad_mqtt_bridge.Models.Enums.{DeviceType, chime}
use mochad_mqtt_bridge.Models.Config.{DeviceConfig}
use mochad_mqtt_bridge.Models.Runtime.{Json, str, obj, Fields}
use mochad_mqtt_bridge.Models.Payloads.{
  Publication, document, MochadDiagnostics, object, has_field, get_field, truthy,
}
use mochad_mqtt_bridge.Topics.{
  unique_id, entity_type, state_topic, command_topic, availability_topic, discovery_topic,
}
use mochad_mqtt_bridge.Discovery.Blocks.{
  DiscoveryManager, device_block, origin_block, default_entity_id,
}

abbrev pub is_chime : DeviceType → Bool
is_chime chime = true
is_chime _ = false

-- the payload of a button, from its name, its identifier and the topics
abbrev pub button_fields :
    DiscoveryManager → Option MochadDiagnostics → Text → Text → Text → Text → Fields
button_fields m d name id command availability = object (
    (text "name", str name)
    ∷ (text "unique_id", str id)
    ∷ (text "default_entity_id", str (default_entity_id (text "button") id))
    ∷ (text "command_topic", str command)
    ∷ (text "payload_press", str (text "ON"))
    ∷ (text "availability_topic", str availability)
    ∷ (text "device", obj (device_block m d))
    ∷ (text "origin", obj (origin_block m d))
    ∷ [])

-- `_button_payload`
unfoldable pub button_payload :
    DiscoveryManager → DeviceConfig → Option MochadDiagnostics → Result Fields
unfolding unique_id command_topic availability_topic
button_payload m device d = do
  id ← unique_id device
  command ← command_topic device.address m.base_topic
  availability ← availability_topic m.base_topic
  ok (button_fields m d device.name id command availability)

-- the payload of a device with a state, from its name, its component, its identifier and the topics
abbrev pub state_fields :
    DiscoveryManager → Option MochadDiagnostics → Text → Text → Text → Text → Text → Text → Fields
state_fields m d name component id state command availability = object (
    (text "name", str name)
    ∷ (text "unique_id", str id)
    ∷ (text "default_entity_id", str (default_entity_id component id))
    ∷ (text "state_topic", str state)
    ∷ (text "command_topic", str command)
    ∷ (text "availability_topic", str availability)
    ∷ (text "payload_on", str (text "ON"))
    ∷ (text "payload_off", str (text "OFF"))
    ∷ (text "device", obj (device_block m d))
    ∷ (text "origin", obj (origin_block m d))
    ∷ [])

-- `_payload` for a device with a state
unfoldable pub state_payload :
    DiscoveryManager → DeviceConfig → Option MochadDiagnostics → Result Fields
unfolding unique_id entity_type state_topic command_topic availability_topic
state_payload m device d = do
  id ← unique_id device
  state ← state_topic device.address m.base_topic
  command ← command_topic device.address m.base_topic
  availability ← availability_topic m.base_topic
  ok (state_fields m d device.name (entity_type device.entity_type) id state command availability)

-- `_payload`
unfoldable pub device_payload :
    DiscoveryManager → DeviceConfig → Option MochadDiagnostics → Result Fields
unfolding button_payload state_payload
device_payload m device d =
    if is_chime device.entity_type || not device.stateful
    then button_payload m device d
    else state_payload m device d

-- `if not test: raise DiscoveryError`
unfoldable pub require : Bool → Result (Unit {0})
require true = ok tt
require false = raise discovery_error

-- `raise DiscoveryError(…) from exc`
unfoldable pub as_discovery_error : Result Text → Result (Unit {0})
as_discovery_error (ok a) = ok tt
as_discovery_error (raise e) = raise discovery_error

unfoldable pub given : Text → Bool
given [] = false
given (c ∷ s) = true

-- `_validate_device`; the enum has no other types. `unique_id` raises nothing but `TopicError`.
unfoldable pub validate_device : DeviceConfig → Result (Unit {0})
unfolding require unique_id given as_discovery_error
validate_device device = do
  _ ← require (given (strip device.name))
  as_discovery_error (unique_id device)

-- `keys <= set(payload)`
unfoldable pub has_fields : List Text → Fields → Bool
unfolding has_field
has_fields [] payload = true
has_fields (key ∷ keys) payload = has_field key payload && has_fields keys payload

-- `topic.split("/")[1]`
unfoldable pub component_of : List Text → Result Text
component_of (prefix ∷ component ∷ rest) = ok component
component_of _ = raise index_error

-- `required_payload_fields`, for the component of a topic
unfoldable pub required_fields : Text → List Text
required_fields component =
    text "name"
    ∷ text "unique_id"
    ∷ text "command_topic"
    ∷ text "availability_topic"
    ∷ text "device"
    ∷ text "origin"
    ∷ (if text_eq component (text "button")
        then text "payload_press" ∷ []
        else text "state_topic" ∷ text "payload_on" ∷ text "payload_off" ∷ [])

-- `bool(payload[key])`, where a missing key has been refused before
unfoldable pub field_given : Option Json → Bool
unfolding truthy
field_given none = false
field_given (some value) = truthy value

-- `"state_topic" in payload and not payload["state_topic"]`, the other way round
unfoldable pub absent_or_given : Option Json → Bool
unfolding truthy
absent_or_given none = true
absent_or_given (some value) = truthy value

-- `key not in device_block`, for the value of the field "device"
unfoldable pub block_has : List Text → Option Json → Bool
unfolding has_fields
block_has keys (some (obj block)) = has_fields keys block
block_has keys _ = false

-- `required_device_fields`
abbrev pub block_keys : List Text
block_keys =
    text "identifiers" ∷ text "name" ∷ text "manufacturer" ∷ text "model" ∷ text "sw_version" ∷ []

-- `_validate_message`
unfoldable pub validate_message : Text → Fields → Result (Unit {0})
unfolding component_of required_fields require has_fields field_given absent_or_given block_has
    given get_field
validate_message topic payload = do
  component ← component_of (split_at b'/' topic)
  _ ← require (has_fields (required_fields component) payload)
  _ ← require (given topic)
  _ ← require (field_given (get_field (text "unique_id") payload))
  _ ← require (absent_or_given (get_field (text "state_topic") payload))
  _ ← require (field_given (get_field (text "command_topic") payload))
  _ ← require (field_given (get_field (text "availability_topic") payload))
  require (block_has block_keys (get_field (text "device") payload))

-- `DiscoveryMessage`
abbrev pub message : Text → Fields → Publication
message topic payload = record { topic = topic; payload = document payload; retain = true }

-- `discovery_messages`
unfoldable pub discovery_messages :
    DiscoveryManager → DeviceConfig → Option MochadDiagnostics → Result (List Publication)
unfolding validate_device device_payload discovery_topic validate_message
discovery_messages m device d = do
  _ ← validate_device device
  payload ← device_payload m device d
  topic ← discovery_topic device m.discovery_prefix
  _ ← validate_message topic payload
  ok (message topic payload ∷ [])
