-- ===== src/State.antt =====
-- state.py: `StateManager`. A method takes the manager and returns it with the actions that it emits.
-- A `DeviceState` object is the entry under its key, and a method that mutates it writes it back.
-- `_now()` is an argument: no call reads the clock twice. The lock is not modelled: a method runs
-- whole.
pub mod Methods
pub mod Connections
pub mod WellFormed
pub mod Unsupported
pub mod Steps
pub mod Mirror
pub mod Mirroring
pub mod Published
pub mod Counters
pub mod Effects
mod Tests
use mochad_mqtt_bridge.Prelude.{
  ℕ, zero, suc, ◌+◌, ◌-◌, ◌*◌, ◌/◌, ◌%◌, ◌≤◌, ◌<◌, String, ◌≡◌, refl, sym, ap, ◌∙◌, subst, fun_ext,
  ◌≢◌, ◌↔◌, ◌⊎◌, inl, inr, Bool, true, false, not, ◌&&◌, ◌||◌, false≢true, Option, none, some, List,
  [], ◌∷◌, ◌++◌, map, reverse, append-nil, append_assoc, arith, ltb, leb, ◌==◌, between,
  if◌then◌else◌, ==_iff, ltb→lt, lt→ltb, leb→le, Bool-cases, tests_below, tests_below_lem,
  Option-cases, length, replicate, length-append, All, All-append, Exception, value_error,
  topic_error, config_error, connection_error, os_error, type_error, key_error, Result, ok, raise,
  ◌>>=◌, >>=-eq-ok,
}
use mochad_mqtt_bridge.Text.{
  Text, text, text_eq, text_eq_sound, text_eq_refl, text_eq_iff, contains_text, starts_with,
  is_space, upper_char, lower_char, upper, lower, lstrip_by, rstrip_by, strip_by, strip, strip_char,
  HeadKept, LastKept, strip_by-HeadKept, strip_by-LastKept, strip_by_kept, strip_by_idem,
  HeadKept-All, LastKept-All, split_at, join, words_from, words, Free, split_at-join,
}
use mochad_mqtt_bridge.Text.Normal.{normal}
use mochad_mqtt_bridge.Dict.{Dict, lookup, insert, values}
use mochad_mqtt_bridge.Models.Enums.{
  Command, on, off, dim, bright, all_lights_on, all_lights_off, all_units_off, status_on,
  status_off, command_eq, contains_command, command_name,
}
use mochad_mqtt_bridge.Models.Config.{DeviceConfig, new_device_config}
use mochad_mqtt_bridge.Models.Runtime.{
  Json, bool, str, Fields, end, field, num, Time, DeviceState, new_device_state, DeviceEvent,
  HouseEvent, UnknownEvent, StatusSnapshot, BridgeStatistics, zero_statistics, BridgeAction,
  publish_state, publish_event, publish_command_event, publish_attributes, publish_discovery,
  publish_availability, publish_status, send_device_command, request_status, log_unknown_event,
}

abbrev pub state_commands : List Command
state_commands = on ∷ off ∷ dim ∷ bright ∷ status_on ∷ status_off ∷ []

abbrev pub on_commands : List Command
on_commands = on ∷ bright ∷ status_on ∷ []

abbrev pub off_commands : List Command
off_commands = off ∷ status_off ∷ []

pub record StateManager : Type 0 where
  pub devices : Dict DeviceState
  pub device_configs : Dict DeviceConfig
  pub statistics : BridgeStatistics
  pub mqtt_connected : Bool
  pub mqtt_has_connected : Bool
  pub mochad_connected : Bool
  pub available : Bool
  pub mqtt_generation : ℕ
  pub optimistic_updates : Bool
  pub allowed_housecodes : Option (List Text)

-- What mutates one device returns it, the statistics and the actions.
abbrev pub Touched : Type 0
Touched = DeviceState × BridgeStatistics × List BridgeAction

-- What mutates the manager returns it and the actions.
abbrev pub Outcome : Type 0
Outcome = StateManager × List BridgeAction

unfoldable pub authoritative_state : Command → Command
authoritative_state command =
    if contains_command command on_commands
    then on
    else if contains_command command off_commands
    then off
    else command

-- `state.current_state == command`, where the field may be None
unfoldable pub is_command : Option Command → Command → Bool
is_command none command = false
is_command (some current) command = command_eq current command

unfoldable pub clear_confirmed_pending : DeviceState → Command → DeviceState
unfolding is_command
clear_confirmed_pending state command =
    if is_command state.pending_command command
    then record state { pending_command = none }
    else state

unfoldable pub set_device_state :
    DeviceState → BridgeStatistics → Command → Time → Bool → Bool → Touched
unfolding clear_confirmed_pending is_command
set_device_state state statistics command now retain clear_pending =
    let command = authoritative_state command in
    let seen = record state { last_seen = some now } in
    let changed = record state {
      previous_state = state.current_state;
      current_state = some command;
      last_seen = some now;
      last_changed = some now;
    } in
    if is_command state.current_state command
    then (
      if clear_pending then clear_confirmed_pending seen command else seen,
      record statistics { duplicates = statistics.duplicates + 1 },
      [],
    )
    else (
      if clear_pending then clear_confirmed_pending changed command else changed,
      record statistics { state_changes = statistics.state_changes + 1 },
      publish_state state.address command retain ∷ [],
    )

unfoldable pub discovery_actions : Bool → DeviceState → BridgeStatistics → Touched
discovery_actions mqtt_connected state statistics =
    if not mqtt_connected || state.discovered then (state, statistics, []) else (
      record state { discovered = true },
      record statistics { discovery_messages = statistics.discovery_messages + 1 },
      publish_discovery state.address ∷ [],
    )

found_or_new : StateManager → Text → Option DeviceState → StateManager × DeviceState
found_or_new m key (some state) = (m, state)
found_or_new m key none =
    (record m { devices = insert key (new_device_state key) m.devices }, new_device_state key)

unfoldable pub ensure_device : StateManager → Text → StateManager × DeviceState
unfolding found_or_new
ensure_device m address = found_or_new m (normal address) (lookup (normal address) m.devices)

config_or_default : Text → Option DeviceConfig → DeviceConfig
config_or_default key (some device) = device
config_or_default key none = new_device_config key key

unfoldable pub device_config : StateManager → Text → DeviceConfig
unfolding config_or_default
device_config m address =
    config_or_default (normal address) (lookup (normal address) m.device_configs)

allowed_in : Option (List Text) → Text → Bool
allowed_in none house = true
allowed_in (some codes) house = contains_text (normal house) codes

unfoldable pub house_allowed : StateManager → Text → Bool
unfolding allowed_in
house_allowed m house = allowed_in m.allowed_housecodes house

-- `_house_allowed(address[0])`, for an address that is not empty
unfoldable pub key_allowed : Option (List Text) → Text → Bool
unfolding allowed_in
key_allowed codes [] = false
key_allowed codes (c ∷ s) = allowed_in codes (c ∷ [])

unfoldable pub address_allowed : StateManager → Text → Bool
address_allowed m address = key_allowed m.allowed_housecodes (normal address)

-- A write to the object that is the entry under `key`.
abbrev pub put_device : StateManager → Text → DeviceState → BridgeStatistics → StateManager
put_device m key state statistics = record m {
  devices = insert key state m.devices;
  statistics = statistics;
}

-- `for state in self._devices.values()`, with a body that mutates the object
unfoldable pub walk :
    (Text → DeviceState → BridgeStatistics → Touched)
    → Dict DeviceState
    → BridgeStatistics
    → Dict DeviceState × BridgeStatistics × List BridgeAction
walk body [] statistics = ([], statistics, [])
walk body ((key, state) ∷ rest) statistics =
    let (state', statistics', actions) = body key state statistics in
    let (rest', statistics'', actions') = walk body rest statistics' in
    ((key, state') ∷ rest', statistics'', actions ++ actions')
