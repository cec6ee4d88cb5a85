-- ===== src/Discovery/Bridge.antt =====
-- discovery.py: the messages of the bridge's own sensors and buttons.
use mochad_mqtt_bridge.Prelude.{
  Option, List, [], ◌∷◌, ◌++◌, ◌||◌, if◌then◌else◌, discovery_error, Result, ok, raise, ◌>>=◌,
}
use mochad_mqtt_bridge.Text.{Text, text}
use mochad_mqtt_bridge.Models.Enums.{
  BridgeCommand, sync, rediscover, prune_discovery, reset_discovery, bridge_command_name,
}
use mochad_mqtt_bridge.Models.Runtime.{Json, str, obj}
use mochad_mqtt_bridge.Models.Payloads.{
  Publication, MochadDiagnostics, Payload, raw, document, object, has_field,
}
use mochad_mqtt_bridge.Topics.{
  status_topic, bridge_command_topic, availability_topic, bridge_discovery_topic,
}
use mochad_mqtt_bridge.Discovery.Blocks.{
  DiscoveryManager, device_block, origin_block, default_entity_id,
}
use mochad_mqtt_bridge.Discovery.Messages.{message, require, given, has_fields}

-- the messages in order, each raising what it raises
unfoldable pub all_of : List (Result Publication) → Result (List Publication)
all_of [] = ok []
all_of (r ∷ rs) = do p ← r; ps ← all_of rs; ok (p ∷ ps)

-- the keys that `_validate_bridge_message` asks for
abbrev pub bridge_keys : List Text
bridge_keys =
    text "name" ∷ text "unique_id" ∷ text "availability_topic" ∷ text "device" ∷ text "origin" ∷ []

unfoldable pub validate_bridge_payload : Payload → Result (Unit {0})
unfolding require has_fields has_field
validate_bridge_payload (document payload) = do
  _ ← require (has_fields bridge_keys payload)
  require (has_field (text "state_topic") payload || has_field (text "command_topic") payload)
validate_bridge_payload (raw s) = raise discovery_error

-- `_validate_bridge_message`
unfoldable pub validate_bridge_message : Publication → Result (Unit {0})
unfolding require given validate_bridge_payload
validate_bridge_message p = do _ ← require (given p.topic); validate_bridge_payload p.payload

-- the loop over the messages
unfoldable pub validate_all : List Publication → Result (Unit {0})
unfolding validate_bridge_message
validate_all [] = ok tt
validate_all (p ∷ ps) = do _ ← validate_bridge_message p; validate_all ps

unfoldable pub validated : List Publication → Result (List Publication)
unfolding validate_all
validated ps = do _ ← validate_all ps; ok ps

module _ (m : DiscoveryManager) (d : Option MochadDiagnostics) where
  -- the end of each payload: "device" and "origin"
  abbrev blocks : List (Text × Json)
  blocks = (text "device", obj (device_block m d)) ∷ (text "origin", obj (origin_block m d)) ∷ []

  -- `_bridge_status_sensor_message`
  unfoldable pub bridge_status_sensor_message : Result Publication
  bridge_status_sensor_message = do
    topic ←
        bridge_discovery_topic (text "sensor") (text "mqtt_mochad_bridge_status") m.discovery_prefix
    status ← status_topic m.base_topic
    availability ← availability_topic m.base_topic
    ok (
        message topic (
          object (
            (text "name", str (text "Bridge Status"))
            ∷ (text "unique_id", str (text "mqtt_mochad_bridge_status"))
            ∷ (
              text "default_entity_id",
              str (default_entity_id (text "sensor") (text "mqtt_mochad_bridge_status")),
            )
            ∷ (text "state_topic", str status)
            ∷ (text "value_template", str (text "{{ value_json.status }}"))
            ∷ (text "availability_topic", str availability)
            ∷ (text "entity_category", str (text "diagnostic"))
            ∷ blocks)))

  -- the payload that the two connectivity sensors share, for a template
  unfoldable pub connectivity_message : Text → Text → Text → Result Publication
  connectivity_message object_id name template = do
    topic ← bridge_discovery_topic (text "binary_sensor") object_id m.discovery_prefix
    status ← status_topic m.base_topic
    availability ← availability_topic m.base_topic
    ok (
        message topic (
          object (
            (text "name", str name)
            ∷ (text "unique_id", str object_id)
            ∷ (text "default_entity_id", str (default_entity_id (text "binary_sensor") object_id))
            ∷ (text "state_topic", str status)
            ∷ (text "value_template", str template)
            ∷ (text "payload_on", str (text "ON"))
            ∷ (text "payload_off", str (text "OFF"))
            ∷ (text "device_class", str (text "connectivity"))
            ∷ (text "availability_topic", str availability)
            ∷ (text "entity_category", str (text "diagnostic"))
            ∷ blocks)))

  -- `_bridge_connectivity_sensor_message`
  unfoldable pub bridge_connectivity_sensor_message : Text → Text → Text → Result Publication
  unfolding connectivity_message
  bridge_connectivity_sensor_message object_id name value_key =
      connectivity_message object_id name
        (text "{{ 'ON' if value_json." ++ (value_key ++ text " else 'OFF' }}"))

  -- `_bridge_usb_sensor_message`
  unfoldable pub bridge_usb_sensor_message : Result Publication
  unfolding connectivity_message
  bridge_usb_sensor_message =
      connectivity_message (text "mqtt_mochad_bridge_usb_connected") (text "USB Connected")
        (text "{{ 'ON' if value_json.mochad.health.usb_connected else 'OFF' }}")

  -- `_bridge_value_sensor_message`
  unfoldable pub bridge_value_sensor_message : Text → Text → Text → Result Publication
  bridge_value_sensor_message object_id name value_template = do
    topic ← bridge_discovery_topic (text "sensor") object_id m.discovery_prefix
    status ← status_topic m.base_topic
    availability ← availability_topic m.base_topic
    ok (
        message topic (
          object (
            (text "name", str name)
            ∷ (text "unique_id", str object_id)
            ∷ (text "default_entity_id", str (default_entity_id (text "sensor") object_id))
            ∷ (text "state_topic", str status)
            ∷ (text "value_template", str value_template)
            ∷ (text "availability_topic", str availability)
            ∷ (text "entity_category", str (text "diagnostic"))
            ∷ blocks)))

  -- `_bridge_command_button_message`
  unfoldable pub bridge_command_button_message : BridgeCommand → Text → Text → Result Publication
  bridge_command_button_message command object_id name = do
    topic ← bridge_discovery_topic (text "button") object_id m.discovery_prefix
    target ← bridge_command_topic m.base_topic
    availability ← availability_topic m.base_topic
    ok (
        message topic (
          object (
            (text "name", str name)
            ∷ (text "unique_id", str object_id)
            ∷ (text "default_entity_id", str (default_entity_id (text "button") object_id))
            ∷ (text "command_topic", str target)
            ∷ (text "payload_press", str (bridge_command_name command))
            ∷ (text "availability_topic", str availability)
            ∷ (text "entity_category", str (text "diagnostic"))
            ∷ blocks)))

  unfoldable pub maintenance_buttons : List (Result Publication)
  unfolding bridge_command_button_message
  maintenance_buttons =
      bridge_command_button_message prune_discovery (text "mqtt_mochad_bridge_prune_discovery")
        (text "Prune Discovery")
      ∷ bridge_command_button_message reset_discovery (text "mqtt_mochad_bridge_reset_discovery")
          (text "Reset Discovery")
      ∷ []

  -- `bridge_diagnostic_messages`: every message is built, then each is validated
  unfoldable pub bridge_diagnostic_messages : Result (List Publication)
  unfolding bridge_status_sensor_message bridge_connectivity_sensor_message
      bridge_usb_sensor_message bridge_value_sensor_message bridge_command_button_message all_of
      maintenance_buttons validated
  bridge_diagnostic_messages =
      all_of (
        bridge_status_sensor_message
        ∷ bridge_connectivity_sensor_message (text "mqtt_mochad_bridge_mochad_connected")
            (text "Mochad Connected") (text "mochad_connected")
        ∷ bridge_usb_sensor_message
        ∷ bridge_value_sensor_message (text "mqtt_mochad_bridge_controller")
            (text "Controller Type")
            (text "{{ value_json.mochad.health.controller | default('unknown') }}")
        ∷ bridge_value_sensor_message (text "mqtt_mochad_bridge_mochad_version")
            (text "Mochad Version") (text "{{ value_json.mochad.version | default('unknown') }}")
        ∷ bridge_command_button_message sync (text "mqtt_mochad_bridge_sync")
            (text "Sync X10 Status")
        ∷ bridge_command_button_message rediscover (text "mqtt_mochad_bridge_rediscover")
            (text "Rediscover X10 Entities")
        ∷ (if m.enable_maintenance_buttons then maintenance_buttons else []))
      >>= validated
