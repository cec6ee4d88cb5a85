-- ===== src/State/Connections.antt =====
-- state.py: outbound commands, and the notifications of the two connections.
use mochad_mqtt_bridge.Prelude.{
  ◌+◌, Bool, true, false, not, ◌&&◌, Option, none, some, List, [], ◌∷◌, ◌++◌, if◌then◌else◌,
}
use mochad_mqtt_bridge.Text.{Text, text}
use mochad_mqtt_bridge.Text.Normal.{normal}
use mochad_mqtt_bridge.Models.Enums.{Command, contains_command, command_name}
use mochad_mqtt_bridge.Models.Config.{DeviceConfig}
use mochad_mqtt_bridge.Models.Runtime.{
  bool, str, Fields, end, field, num, Time, DeviceState, BridgeStatistics, BridgeAction,
  publish_state, publish_command_event, publish_attributes, publish_discovery, publish_availability,
  publish_status, send_device_command, request_status,
}
use mochad_mqtt_bridge.State.{
  StateManager, Touched, Outcome, set_device_state, discovery_actions, ensure_device, device_config,
  address_allowed, put_device, walk,
}
use mochad_mqtt_bridge.State.Methods.{Event, apply}

unfoldable pub command_event_payload : Text → Command → Time → Fields
command_event_payload address command now = field (text "timestamp") (num now) (
    field (text "device") (str address) (
      field (text "command") (str (command_name command)) (
        field (text "stateful") (bool false) (
          field (text "transmission") (str (text "unconfirmed")) (
            field (text "confirmed") (bool false) (
              field (text "message")
                (str (text "Command sent to mochad; physical device state is unconfirmed."))
                end))))))

unfoldable pub attributes_payload : Command → Bool → Fields
attributes_payload command optimistic =
    field (text "last_command_sent") (str (command_name command))
      (field (text "optimistic") (bool optimistic) end)

-- the end of `optimistic_update`, once the command is accepted
unfoldable pub record_command :
    StateManager → DeviceConfig → Text → DeviceState → Command → Time → Outcome
unfolding command_event_payload attributes_payload
record_command m device key state command now =
    let state = record state { pending_command = some command } in
    let statistics = record m.statistics { commands_sent = m.statistics.commands_sent + 1 } in
    let (state, statistics, actions) = discovery_actions m.mqtt_connected state statistics in
    let actions = actions ++ send_device_command state.address command ∷ [] in
    let published =
      actions
      ++ publish_attributes state.address (attributes_payload command m.optimistic_updates) true
        ∷ [] in
    let (updated, statistics', more) = set_device_state state statistics command now true false in
    if not device.stateful
    then (
      put_device m key state statistics,
      actions
          ++ publish_command_event state.address (command_event_payload state.address command now)
              false
            ∷ [],
    )
    else if m.optimistic_updates
    then (put_device m key updated statistics', published ++ more)
    else (put_device m key state statistics, published)

-- `optimistic_update`, once the device object is at hand
unfoldable pub request_command : Text → Command → Time → StateManager → DeviceState → Outcome
unfolding record_command
request_command address command now m state =
    let device = device_config m state.address in
    if contains_command command device.supported_commands
    then record_command m device (normal address) state command now
    else (m, [])

-- `optimistic_update`
unfoldable pub optimistic_update : Text → Command → Time → StateManager → Outcome
unfolding request_command
optimistic_update address command now m =
    let (ensured, state) = ensure_device m address in
    if address_allowed m address then request_command address command now ensured state else (m, [])

-- `_bridge_status_actions`, which also refreshes `_available`
unfoldable pub bridge_status_actions : StateManager → Outcome
bridge_status_actions m =
    let online = m.mqtt_connected && m.mochad_connected in
    (
      record m { available = online },
      publish_availability online
          ∷ publish_status (if online then text "online" else text "offline") m.mqtt_connected
              m.mochad_connected true
          ∷ [],
    )

-- `PublishStateAction` for a device whose state is known
unfoldable pub announce : Text → Option Command → List BridgeAction
announce address none = []
announce address (some command) = publish_state address command true ∷ []

-- the body of the loop of `mqtt_connected`
unfoldable pub rediscover_body : Text → DeviceState → BridgeStatistics → Touched
unfolding announce
rediscover_body key state statistics = (
  record state { discovered = true },
  record statistics { discovery_messages = statistics.discovery_messages + 1 },
  publish_discovery state.address ∷ announce state.address state.current_state,
)

unfoldable pub count_connection : Bool → Bool → BridgeStatistics → BridgeStatistics
count_connection has_connected was_connected statistics = record statistics {
  mqtt_reconnects =
      if has_connected && not was_connected
      then statistics.mqtt_reconnects + 1
      else statistics.mqtt_reconnects;
  mqtt_connections = statistics.mqtt_connections + 1;
}

-- `mqtt_connected`
unfoldable pub on_mqtt_connected : StateManager → Outcome
unfolding count_connection bridge_status_actions rediscover_body
on_mqtt_connected m =
    let statistics = count_connection m.mqtt_has_connected m.mqtt_connected m.statistics in
    let (m, actions) = bridge_status_actions (record m {
      mqtt_connected = true;
      mqtt_generation = m.mqtt_generation + 1;
      mqtt_has_connected = true;
      statistics = statistics;
    }) in
    let (devices, statistics, more) = walk rediscover_body m.devices m.statistics in
    (record m { devices = devices; statistics = statistics }, actions ++ more)

unfoldable pub count_disconnection : Bool → BridgeStatistics → BridgeStatistics
count_disconnection was_connected statistics = record statistics {
  mqtt_disconnects =
      if was_connected then statistics.mqtt_disconnects + 1 else statistics.mqtt_disconnects;
}

-- `mqtt_disconnected`
unfoldable pub on_mqtt_disconnected : StateManager → Outcome
unfolding bridge_status_actions count_disconnection
on_mqtt_disconnected m = bridge_status_actions (record m {
  mqtt_connected = false;
  statistics = count_disconnection m.mqtt_connected m.statistics;
})

-- `mochad_connected`
unfoldable pub on_mochad_connected : StateManager → Outcome
unfolding bridge_status_actions
on_mochad_connected m =
    let (m, actions) = bridge_status_actions (record m {
      mochad_connected = true;
      statistics = record m.statistics { mochad_reconnects = m.statistics.mochad_reconnects + 1 };
    }) in
    (m, actions ++ request_status ∷ [])

unfoldable pub lost_body : Text → DeviceState → BridgeStatistics → Touched
lost_body key state statistics = (record state { available = false }, statistics, [])

-- `mochad_disconnected`
unfoldable pub on_mochad_disconnected : StateManager → Outcome
unfolding bridge_status_actions lost_body
on_mochad_disconnected m =
    let (devices, statistics, actions) = walk lost_body m.devices m.statistics in
    bridge_status_actions (record m { mochad_connected = false; devices = devices })

-- The property `available`: reading it refreshes `_available`.
unfoldable pub read_available : StateManager → StateManager × Bool
read_available m =
    let online = m.mqtt_connected && m.mochad_connected in (record m { available = online }, online)

-- What may happen to a manager.
pub data Input : Type 0 where
  event_arrives : Time → Option Event → Input
  command_requested : Text → Command → Time → Input
  mqtt_up mqtt_down mochad_up mochad_down availability_read : Input

abbrev pub step : Input → StateManager → Outcome
step (event_arrives now e) m = apply now e m
step (command_requested address command now) m = optimistic_update address command now m
step mqtt_up m = on_mqtt_connected m
step mqtt_down m = on_mqtt_disconnected m
step mochad_up m = on_mochad_connected m
step mochad_down m = on_mochad_disconnected m
step availability_read m = ((read_available m).0, [])

-- A history: the manager that it leaves, and all actions in order.
unfoldable pub run : List Input → StateManager → Outcome
run [] m = (m, [])
run (i ∷ is) m = let (m, actions) = step i m in let (m, more) = run is m in (m, actions ++ more)
