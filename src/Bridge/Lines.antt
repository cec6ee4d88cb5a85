-- ===== src/Bridge/Lines.antt =====
-- bridge.py: a line that mochad sends, from the socket to the actions.
use mochad_mqtt_bridge.Prelude.{
  ℕ, Bool, true, false, ◌||◌, Option, none, some, ◌==◌, Result, ok, raise,
}
use mochad_mqtt_bridge.Text.{Text, strip_by}
use mochad_mqtt_bridge.Models.Runtime.{Json, Time}
use mochad_mqtt_bridge.Protocol.Parser.{
  Parsed, device_event, house_event, status_snapshot, unknown_event, ProtocolParser, Step,
  parse_line,
}
use mochad_mqtt_bridge.State.Methods.{Event, apply}
use mochad_mqtt_bridge.Discovery.Blocks.{DiscoveryManager}
use mochad_mqtt_bridge.Bridge.Actions.{execute_actions}
use mochad_mqtt_bridge.Bridge.Cleanup.{Both}
use mochad_mqtt_bridge.Bridge.Maintenance.{Outcome, keep_registry}
use mochad_mqtt_bridge.Bridge.Diagnostics.{handle_mochad_diagnostic_line}

-- What the parser returns is what the manager takes.
abbrev pub event_of : Parsed → Event
event_of (device_event e) = Event.device_event e
event_of (house_event e) = Event.house_event e
event_of (status_snapshot e) = Event.status_snapshot e
event_of (unknown_event e) = Event.unknown_event e

abbrev pub event_or_none : Option Parsed → Option Event
event_or_none none = none
event_or_none (some e) = some (event_of e)

-- `"\r\n"`, as a set of characters
abbrev pub is_line_end : ℕ → Bool
is_line_end c = (c == 13) || (c == 10)

-- As for the reports of mochad.
module _ (socket : ℕ → Bool) (m : DiscoveryManager) (isoformat : Time → Text) (time : Json)
    (cleanup : Bool) (str : Json → Text) (loads : Text → Option Json) where
  -- the event of a line, applied at a time
  unfoldable pub apply_parsed :
      Time → Both → ProtocolParser → Result Step → Outcome × ProtocolParser
  unfolding apply execute_actions
  apply_parsed now both q (raise e) = ((both, raise e), q)
  apply_parsed now (b, r) q (ok (event, p)) =
      let (state, actions) = apply now (event_or_none event) b.state in
      (
        keep_registry r
            (execute_actions socket m isoformat time actions (record b { state = state })),
        p,
      )

  unfoldable pub after_report :
      Time → Text → Both → ProtocolParser → Outcome × Bool → Outcome × ProtocolParser
  unfolding apply_parsed parse_line
  after_report now line both p ((both', raise e), report) = ((both', raise e), p)
  after_report now line both p ((both', ok done), true) = ((both', ok done), p)
  after_report now line both p ((both', ok done), false) =
      apply_parsed now both' p (parse_line now line p)

  -- `_on_mochad_line`
  unfoldable pub on_mochad_line : Time → Text → Both → ProtocolParser → Outcome × ProtocolParser
  unfolding after_report handle_mochad_diagnostic_line strip_by
  on_mochad_line now line both p =
      let line = strip_by is_line_end line in
      after_report now line both p
        (handle_mochad_diagnostic_line socket m time cleanup str loads line both)
