-- ===== src/Bridge/Actions.antt =====
-- bridge.py: the execution of the manager's actions; mqtt_client.py: the methods that publish.
use mochad_mqtt_bridge.Prelude.{
  ℕ, ◌+◌, Bool, true, false, not, ◌&&◌, Option, none, some, List, [], ◌∷◌, if◌then◌else◌, Result,
  ok, raise,
}
use mochad_mqtt_bridge.Text.{Text, text}
use mochad_mqtt_bridge.Models.Enums.{
  Command, command_name, Direction, rx, tx, direction_name, transport_name, BridgeCommand,
  bridge_command_name,
}
use mochad_mqtt_bridge.Models.Runtime.{
  Json, null, bool, str, Fields, end, field, Time, DeviceEvent, BridgeAction, publish_state,
  publish_event, publish_command_event, publish_attributes, publish_discovery, publish_availability,
  publish_status, publish_bridge_response, send_mochad_command, send_device_command, request_status,
  log_unknown_event,
}
use mochad_mqtt_bridge.Models.Payloads.{raw, document, Publication, object, put_field}
use mochad_mqtt_bridge.Topics.{
  state_topic, event_topic, attributes_topic, availability_topic, status_topic,
  bridge_response_topic,
}
use mochad_mqtt_bridge.Mochad
use mochad_mqtt_bridge.Mochad.{MochadClient, send_line}
use mochad_mqtt_bridge.Discovery.Blocks.{DiscoveryManager}
use mochad_mqtt_bridge.Discovery.Messages.{discovery_messages}
use mochad_mqtt_bridge.Bridge.{Bridge, Effect, publish, bridge_status_payload}
use mochad_mqtt_bridge.Bridge.Outbound.{
  bridge_device_config, device_command_queue_reason, queue_device_command, send_device_command_now,
  is_transport_error,
}

-- Which actions publish to MQTT.
unfoldable pub is_mqtt_publish : BridgeAction → Bool
is_mqtt_publish (send_mochad_command line) = false
is_mqtt_publish (send_device_command address command) = false
is_mqtt_publish request_status = false
is_mqtt_publish (log_unknown_event event) = false
is_mqtt_publish _ = true

-- `_drop_mqtt_publish_if_disconnected`: whether the action is dropped
unfoldable pub is_dropped : BridgeAction → Bridge → Bool
unfolding is_mqtt_publish
is_dropped action b = is_mqtt_publish action && not b.mqtt.connected

-- `payload.update(other)`
unfoldable pub update_fields : Fields → Fields → Fields
unfolding put_field
update_fields payload end = payload
update_fields payload (field key value rest) = update_fields (put_field key value payload) rest

command_json : Option BridgeCommand → Json
command_json none = null
command_json (some command) = str (bridge_command_name command)

-- the payload of a response, at the time of the call
unfoldable pub response_payload : Json → Option BridgeCommand → Bool → Text → Fields → Fields
unfolding command_json update_fields
response_payload time command success text' payload =
    update_fields
      (object (
        (text "command", command_json command)
        ∷ (text "success", bool success)
        ∷ (text "message", str text')
        ∷ (text "timestamp", time)
        ∷ []))
      payload

is_tx : Direction → Bool
is_tx tx = true
is_tx rx = false

-- the payload of an event; `isoformat` writes its time
unfoldable pub event_payload : (Time → Text) → DeviceEvent → Fields
unfolding is_tx direction_name transport_name
event_payload isoformat e = object (
    (text "timestamp", str (isoformat e.timestamp))
    ∷ (text "direction", str (direction_name e.direction))
    ∷ (text "transport", str (transport_name e.transport))
    ∷ (text "device", str e.address)
    ∷ (text "command", str (command_name e.command))
    ∷ (text "confirmed", bool (not (is_tx e.direction)))
    ∷ [])

-- the loop over the messages of a device's discovery
unfoldable pub publish_all : List Publication → Bridge → Effect
unfolding publish
publish_all [] b = (b, ok tt)
publish_all (m ∷ ms) b =
    let (b, sent) = publish (ok m.topic) m.payload m.retain b in publish_all ms b

-- the branch of `PublishDiscoveryAction`, for the device's messages
unfoldable pub publish_messages : Result (List Publication) → Bridge → Effect
unfolding publish_all
publish_messages (raise e) b = (b, raise e)
publish_messages (ok ms) b = publish_all ms b

-- a call of mochad's client
unfoldable pub with_mochad : Bridge → MochadClient × Result (Unit {0}) → Effect
with_mochad b (mochad, sent) = (record b { mochad = mochad }, sent)

-- the branch of `SendDeviceCommandAction`
unfoldable pub send_or_queue : (ℕ → Bool) → Text × Command → Option Text → Bridge → Effect
unfolding queue_device_command send_device_command_now
send_or_queue socket action none b = send_device_command_now socket action b
send_or_queue socket action (some reason) b = queue_device_command action b

-- the actions after which a lost connection ends the loop of `execute_actions`
unfoldable pub is_sending : BridgeAction → Bool
is_sending request_status = true
is_sending (send_device_command address command) = true
is_sending (send_mochad_command line) = true
is_sending _ = false

-- The socket, the discovery manager, `datetime.isoformat` and the value of `time.time()`.
module _ (socket : ℕ → Bool) (m : DiscoveryManager) (isoformat : Time → Text) (time : Json) where
  -- the branches of `execute_action`
  unfoldable pub perform : BridgeAction → Bridge → Effect
  unfolding publish event_payload response_payload publish_messages with_mochad send_or_queue
      bridge_device_config bridge_status_payload discovery_messages device_command_queue_reason
  perform (publish_state address state retain) b =
      publish (state_topic address b.mqtt.base_topic) (raw (command_name state)) retain b
  perform (publish_event e) b =
      publish (event_topic e.address b.mqtt.base_topic) (document (event_payload isoformat e)) false
        b
  perform (publish_command_event address payload retain) b =
      publish (event_topic address b.mqtt.base_topic) (document payload) retain b
  perform (publish_attributes address payload retain) b =
      publish (attributes_topic address b.mqtt.base_topic) (document payload) retain b
  perform (publish_discovery address) b =
      let (b, device) = bridge_device_config address b in
      publish_messages (discovery_messages m device (some b.mochad_diagnostics)) b
  perform (publish_availability online) b =
      publish (availability_topic b.mqtt.base_topic)
        (raw (if online then text "online" else text "offline")) true b
  perform (publish_status status mqtt_connected mochad_connected retain) b =
      let (b, payload) =
        bridge_status_payload (some status) (some mqtt_connected) (some mochad_connected) b in
      publish (status_topic b.mqtt.base_topic) (document payload) retain b
  perform (publish_bridge_response command success text' payload retain) b =
      publish (bridge_response_topic b.mqtt.base_topic)
        (document (response_payload time command success text' payload)) retain b
  perform (send_mochad_command line) b = with_mochad b (send_line socket line b.mochad)
  perform (send_device_command address command) b =
      send_or_queue socket (address, command) (device_command_queue_reason b) b
  perform request_status b = with_mochad b (Mochad.request_status socket b.mochad)
  perform (log_unknown_event event) b = (b, ok tt)

  -- `execute_action`
  unfoldable pub execute_action : BridgeAction → Bridge → Effect
  unfolding is_dropped perform
  execute_action action b =
      if is_dropped action b
      then (record b { dropped_mqtt_publishes = b.dropped_mqtt_publishes + 1 }, ok tt)
      else perform action b

  -- after an action: what `execute_actions` does with an exception
  unfoldable pub after_action : BridgeAction → (Bridge → Effect) → Effect → Effect
  unfolding is_transport_error is_sending
  after_action action rest (b, ok done) = rest b
  after_action action rest (b, raise e) =
      if is_transport_error e
      then (if is_sending action then (b, ok tt) else rest b)
      else (b, raise e)

  -- `execute_actions`
  unfoldable pub execute_actions : List BridgeAction → Bridge → Effect
  unfolding execute_action after_action
  execute_actions [] b = (b, ok tt)
  execute_actions (action ∷ actions) b =
      after_action action (execute_actions actions) (execute_action action b)
