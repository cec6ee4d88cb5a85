-- ===== src/Models/Runtime.antt =====
-- models.py: JSON documents, and what the manager and the parser exchange with the bridge.
use mochad_mqtt_bridge.Prelude.{ℕ, Bool, false, Option, none}
use mochad_mqtt_bridge.Text.{Text}
use mochad_mqtt_bridge.Dict.{Dict}
use mochad_mqtt_bridge.Models.Enums.{Direction, Transport, Command, BridgeCommand}

-- The JSON documents that the source builds as dicts and lists. Keys are literals there.
mutual
  pub data Json : Type 0 where
    null : Json
    bool : Bool → Json
    num : ℕ → Json
    str : Text → Json
    arr : Items → Json
    obj : Fields → Json

  pub data Items : Type 0 where
    nil : Items
    cons : Json → Items → Items

  pub data Fields : Type 0 where
    end : Fields
    field : Text → Json → Fields → Fields

-- A `datetime` is a number of clock ticks; the code only stores and copies it.
abbrev pub Time : Type 0
Time = ℕ

pub record DeviceState : Type 0 where
  pub address : Text
  pub current_state : Option Command
  pub previous_state : Option Command
  pub last_seen : Option Time
  pub last_changed : Option Time
  pub pending_command : Option Command
  pub discovered : Bool
  pub available : Bool

-- `DeviceState(address=address)`
abbrev pub new_device_state : Text → DeviceState
new_device_state address = record {
  address = address;
  current_state = none;
  previous_state = none;
  last_seen = none;
  last_changed = none;
  pending_command = none;
  discovered = false;
  available = false;
}

pub record DeviceEvent : Type 0 where
  pub timestamp : Time
  pub direction : Direction
  pub transport : Transport
  pub command : Command
  pub address : Text

pub record HouseEvent : Type 0 where
  pub timestamp : Time
  pub direction : Direction
  pub transport : Transport
  pub command : Command
  pub house : Text

pub record UnknownEvent : Type 0 where
  pub timestamp : Time
  pub raw : Text

pub record StatusSnapshot : Type 0 where
  pub devices : Dict Command
  pub completed : Bool

pub record BridgeStatistics : Type 0 where
  pub events_received : ℕ
  pub commands_sent : ℕ
  pub duplicates : ℕ
  pub state_changes : ℕ
  pub mqtt_connections : ℕ
  pub mqtt_disconnects : ℕ
  pub mqtt_reconnects : ℕ
  pub mochad_reconnects : ℕ
  pub discovery_messages : ℕ
  pub status_syncs : ℕ
  pub unknown_packets : ℕ

abbrev pub zero_statistics : BridgeStatistics
zero_statistics = record {
  events_received = 0;
  commands_sent = 0;
  duplicates = 0;
  state_changes = 0;
  mqtt_connections = 0;
  mqtt_disconnects = 0;
  mqtt_reconnects = 0;
  mochad_reconnects = 0;
  discovery_messages = 0;
  status_syncs = 0;
  unknown_packets = 0;
}

-- the subclasses of `BridgeAction`, with their fields in order
pub data BridgeAction : Type 0 where
  publish_state : (address : Text) (state : Command) (retain : Bool) → BridgeAction
  publish_event : (event : DeviceEvent) → BridgeAction
  publish_command_event : (address : Text) (payload : Fields) (retain : Bool) → BridgeAction
  publish_attributes : (address : Text) (payload : Fields) (retain : Bool) → BridgeAction
  publish_discovery : (address : Text) → BridgeAction
  publish_availability : (online : Bool) → BridgeAction
  publish_status : (status : Text) (mqtt_connected mochad_connected retain : Bool) → BridgeAction
  publish_bridge_response :
      (command : Option BridgeCommand) (success : Bool) (message : Text) (payload : Fields)
      (retain : Bool)
      → BridgeAction
  send_mochad_command : (command : Text) → BridgeAction
  send_device_command : (address : Text) (command : Command) → BridgeAction
  request_status : BridgeAction
  log_unknown_event : (event : UnknownEvent) → BridgeAction
