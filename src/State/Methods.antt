-- ===== src/State/Methods.antt =====
-- state.py: the public methods of `StateManager`, and the handlers behind `apply`.
use mochad_mqtt_bridge.Prelude.{
  ◌+◌, Bool, true, false, not, ◌&&◌, ◌||◌, Option, none, some, List, [], ◌∷◌, ◌++◌, if◌then◌else◌,
}
use mochad_mqtt_bridge.Text.{Text, starts_with, strip}
use mochad_mqtt_bridge.Text.Normal.{normal}
use mochad_mqtt_bridge.Dict.{Dict, insert}
use mochad_mqtt_bridge.Models.Enums.{
  Command, on, off, all_lights_on, all_lights_off, all_units_off, contains_command,
}
use mochad_mqtt_bridge.Models.Config.{DeviceConfig}
use mochad_mqtt_bridge.Models.Runtime.{
  Time, DeviceState, DeviceEvent, HouseEvent, UnknownEvent, StatusSnapshot, BridgeStatistics,
  zero_statistics, publish_event, log_unknown_event,
}
use mochad_mqtt_bridge.State.{
  StateManager, Touched, Outcome, state_commands, set_device_state, discovery_actions,
  ensure_device, device_config, house_allowed, address_allowed, put_device, walk,
}

-- `_normalize_housecodes`; the set may be a list with repetitions, since only `in` reads it
normalize_codes : List Text → List Text
normalize_codes [] = []
normalize_codes (code ∷ codes) =
    let rest = normalize_codes codes in elim (strip code) [ [] ↦ rest | _ ↦ normal code ∷ rest ]

unless_empty : List Text → Option (List Text)
unless_empty [] = none
unless_empty (code ∷ codes) = some (code ∷ codes)

unfoldable pub normalize_housecodes : Option (List Text) → Option (List Text)
unfolding normalize_codes unless_empty
normalize_housecodes none = none
normalize_housecodes (some codes) = unless_empty (normalize_codes codes)

-- the loop of `__init__` over the configured devices
unfoldable pub add_devices : List DeviceConfig → StateManager → StateManager
add_devices [] m = m
add_devices (device ∷ devices) m =
    let configured = record m {
      device_configs = insert (normal device.address) device m.device_configs;
    } in
    let m' =
      if address_allowed m device.address then (ensure_device configured device.address).0 else m in
    add_devices devices m'

-- `StateManager.__init__`
unfoldable pub new_state_manager : List DeviceConfig → Bool → Option (List Text) → StateManager
unfolding add_devices
new_state_manager devices optimistic_updates allowed_housecodes = add_devices devices (record {
  devices = [];
  device_configs = [];
  statistics = zero_statistics;
  mqtt_connected = false;
  mqtt_has_connected = false;
  mochad_connected = false;
  available = false;
  mqtt_generation = 0;
  optimistic_updates = optimistic_updates;
  allowed_housecodes = normalize_housecodes allowed_housecodes;
})

-- `_apply_device_event`, once the device object is at hand
unfoldable pub receive_device_event : DeviceEvent → StateManager → DeviceState → Outcome
receive_device_event event m state =
    let device = device_config m state.address in
    let state = record state { available = true; last_seen = some event.timestamp } in
    let (state, statistics, actions) = discovery_actions m.mqtt_connected state m.statistics in
    let actions = actions ++ publish_event event ∷ [] in
    let (updated, statistics', more) =
      set_device_state state statistics event.command event.timestamp true true in
    if not device.stateful || not (contains_command event.command state_commands)
    then (put_device m (normal event.address) state statistics, actions)
    else (put_device m (normal event.address) updated statistics', actions ++ more)

unfoldable pub apply_device_event : DeviceEvent → StateManager → Outcome
unfolding receive_device_event
apply_device_event event m =
    let counted = record m {
      statistics = record m.statistics { events_received = m.statistics.events_received + 1 };
    } in
    let (ensured, state) = ensure_device counted event.address in
    if address_allowed m event.address then receive_device_event event ensured state else (m, [])

-- `_device_responds_to_house_command`
unfoldable pub device_responds : DeviceConfig → Command → Bool
device_responds device all_units_off = device.all_units_off_response
device_responds device all_lights_off = device.all_lights_off_response
device_responds device all_lights_on = device.all_lights_on_response
device_responds device _ = false

-- the body of the loop of `_apply_house_event`, with the filter of `_devices_for_house`
unfoldable pub house_body :
    StateManager → HouseEvent → Text → DeviceState → BridgeStatistics → Touched
unfolding device_responds
house_body m event key state statistics =
    let device = device_config m state.address in
    let command =
      if contains_command event.command (all_units_off ∷ all_lights_off ∷ []) then off else on in
    if starts_with key (normal event.house)
      && (device.stateful && device_responds device event.command)
    then set_device_state (record state { available = true; last_seen = some event.timestamp })
        statistics command event.timestamp true true
    else (state, statistics, [])

unfoldable pub apply_house_event : HouseEvent → StateManager → Outcome
unfolding house_body
apply_house_event event m =
    if house_allowed m event.house
    then (let counted = record m.statistics {
      events_received = m.statistics.events_received + 1;
    } in
        let (devices, statistics, actions) = walk (house_body m event) m.devices counted in
        if contains_command event.command (all_units_off ∷ all_lights_off ∷ all_lights_on ∷ [])
        then (record m { devices = devices; statistics = statistics }, actions)
        else (record m { statistics = counted }, []))
    else (m, [])

-- `_apply_status_snapshot` for one address, once the device object is at hand
unfoldable pub receive_status : Time → Text → Command → StateManager → DeviceState → Outcome
receive_status now address command m state =
    let device = device_config m state.address in
    let (updated, statistics, actions) =
      set_device_state (record state { available = true; last_seen = some now }) m.statistics
        command now true true in
    if device.stateful then (put_device m (normal address) updated statistics, actions) else (m, [])

-- one round of the loop of `_apply_status_snapshot`
unfoldable pub snapshot_entry : Time → Text → Command → StateManager → Outcome
unfolding receive_status
snapshot_entry now address command m =
    let (ensured, state) = ensure_device m address in
    if address_allowed m address then receive_status now address command ensured state else (m, [])

unfoldable pub snapshot_entries : Time → Dict Command → StateManager → Outcome
unfolding snapshot_entry
snapshot_entries now [] m = (m, [])
snapshot_entries now ((address, command) ∷ rest) m =
    let (m, actions) = snapshot_entry now address command m in
    let (m, more) = snapshot_entries now rest m in (m, actions ++ more)

unfoldable pub apply_status_snapshot : Time → StatusSnapshot → StateManager → Outcome
unfolding snapshot_entries
apply_status_snapshot now snapshot m =
    snapshot_entries now snapshot.devices (record m {
      statistics = record m.statistics { status_syncs = m.statistics.status_syncs + 1 };
    })

-- The events that `apply` tells apart; `TypeError` is for what is none of them.
pub data Event : Type 0 where
  device_event : DeviceEvent → Event
  house_event : HouseEvent → Event
  status_snapshot : StatusSnapshot → Event
  unknown_event : UnknownEvent → Event

unfoldable pub apply_unknown_event : UnknownEvent → StateManager → Outcome
apply_unknown_event event m = (
  record m {
    statistics = record m.statistics { unknown_packets = m.statistics.unknown_packets + 1 };
  },
  log_unknown_event event ∷ [],
)

unfoldable pub apply : Time → Option Event → StateManager → Outcome
apply now none m = (m, [])
apply now (some (device_event e)) m = apply_device_event e m
apply now (some (house_event e)) m = apply_house_event e m
apply now (some (status_snapshot e)) m = apply_status_snapshot now e m
apply now (some (unknown_event e)) m = apply_unknown_event e m
