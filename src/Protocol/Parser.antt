-- ===== src/Protocol/Parser.antt =====
-- protocol/parser.py and the tables of protocol/mappings.py that it reads.
pub mod Captured
pub mod Entries
pub mod Events
pub mod Houses
pub mod Lines
pub mod Returns
pub mod Total
pub mod Words
mod Tests
use mochad_mqtt_bridge.Prelude.{
  ℕ, zero, suc, ◌+◌, ◌-◌, ◌*◌, ◌/◌, ◌%◌, ◌≤◌, ◌<◌, String, ◌≡◌, refl, sym, ap, ◌∙◌, subst, fun_ext,
  ◌≢◌, ◌↔◌, ◌⊎◌, inl, inr, Bool, true, false, not, ◌&&◌, ◌||◌, false≢true, Option, none, some, List,
  [], ◌∷◌, ◌++◌, map, reverse, append-nil, append_assoc, arith, ltb, leb, ◌==◌, between,
  if◌then◌else◌, ==_iff, ltb→lt, lt→ltb, leb→le, Bool-cases, tests_below, tests_below_lem,
  Option-cases, length, replicate, length-append, All, All-append, Exception, value_error,
  topic_error, config_error, connection_error, os_error, type_error, key_error, index_error,
  discovery_error, registry_error, Result, ok, raise, ◌>>=◌, >>=-eq-ok, ok_injective,
}
use mochad_mqtt_bridge.Text.{
  Text, text, text_eq, text_eq_sound, text_eq_refl, text_eq_iff, contains_text, starts_with,
  is_space, upper_char, lower_char, upper, lower, lstrip_by, rstrip_by, strip_by, strip, strip_char,
  HeadKept, LastKept, strip_by-HeadKept, strip_by-LastKept, strip_by_kept, strip_by_idem,
  HeadKept-All, LastKept-All, split_at, split_at-piece, cons_head, join, words_from, words, Free,
  split_at-join,
}
use mochad_mqtt_bridge.Models.Enums.{
  Command, on, off, dim, bright, all_lights_on, all_lights_off, all_units_off, status_request,
  status_on, status_off, unknown, Direction, rx, tx, Transport,
}
use mochad_mqtt_bridge.Models.Runtime.{Time, DeviceEvent, HouseEvent, UnknownEvent, StatusSnapshot}
use mochad_mqtt_bridge.Protocol.Validation.{normalize_address, normalize_house, normalize_token}
use mochad_mqtt_bridge.Protocol.Regex.Search.{Regex, Groups, match, group_of}
use mochad_mqtt_bridge.Protocol.Regex.Patterns.{device_event_re, house_event_re}
use mochad_mqtt_bridge.Protocol.Status.{StatusParser, reset, is_status_line, feed}

-- `ProtocolCapabilities`
pub record ProtocolCapabilities : Type 0 where
  pub rf : Bool
  pub pl : Bool
  pub rf_security : Bool
  pub cameras : Bool
  pub status : Bool

-- `ProtocolParser`
pub record ProtocolParser : Type 0 where
  pub capabilities : ProtocolCapabilities
  pub status : StatusParser

-- `ProtocolParser()`
abbrev pub new_parser : ProtocolParser
new_parser = record {
  capabilities = record {
    rf = false;
    pl = false;
    rf_security = false;
    cameras = false;
    status = false;
  };
  status = reset;
}

-- what `parse_line` returns, but for `None`
pub data Parsed : Type 0 where
  device_event : DeviceEvent → Parsed
  house_event : HouseEvent → Parsed
  status_snapshot : StatusSnapshot → Parsed
  unknown_event : UnknownEvent → Parsed

-- DIRECTION_MAP
unfoldable pub direction_map : Text → Result Direction
direction_map token =
    if text_eq token (text "TX")
    then ok tx
    else if text_eq token (text "RX")
    then ok rx
    else raise key_error

-- TRANSPORT_MAP
unfoldable pub transport_map : Text → Result Transport
transport_map token =
    if text_eq token (text "RF")
    then ok Transport.rf
    else if text_eq token (text "PL")
    then ok Transport.pl
    else if text_eq token (text "RFSEC")
    then ok Transport.rfsec
    else if text_eq token (text "RFCAM")
    then ok Transport.rfcam
    else raise key_error

-- `COMMAND_MAP.get(token, COMMAND_MAP["UNKNOWN"])`
unfoldable pub command_map : Text → Command
command_map token =
    if text_eq token (text "ON")
    then on
    else if text_eq token (text "OFF")
    then off
    else if text_eq token (text "DIM")
    then dim
    else if text_eq token (text "BRIGHT")
    then bright
    else if text_eq token (text "ALL LIGHTS ON")
    then all_lights_on
    else if text_eq token (text "ALL LIGHTS OFF")
    then all_lights_off
    else if text_eq token (text "ALL UNITS OFF")
    then all_units_off
    else if text_eq token (text "STATUS ON")
    then status_on
    else if text_eq token (text "STATUS OFF")
    then status_off
    else if text_eq token (text "STATUS REQUEST")
    then status_request
    else unknown

-- `_record_transport`
unfoldable pub record_transport : Transport → ProtocolCapabilities → ProtocolCapabilities
record_transport Transport.rf c = record c { rf = true }
record_transport Transport.pl c = record c { pl = true }
record_transport _ c = c

-- a value and the parser after it
abbrev pub Step : Type 0
Step = Option Parsed × ProtocolParser

-- the branch of DEVICE_EVENT_RE
unfoldable pub parse_device : Time → Groups → ProtocolParser → Result Step
unfolding direction_map transport_map command_map record_transport group_of
parse_device now g p = do
  transport ← transport_map (normalize_token (group_of (text "transport") g))
  direction ← direction_map (normalize_token (group_of (text "direction") g))
  address ← normalize_address (group_of (text "address") g)
  ok (
    some (
        device_event (record {
          timestamp = now;
          direction = direction;
          transport = transport;
          command = command_map (normalize_token (group_of (text "command") g));
          address = address;
        })),
    record p { capabilities = record_transport transport p.capabilities },
  )

-- the branch of HOUSE_EVENT_RE
unfoldable pub parse_house : Time → Groups → ProtocolParser → Result Step
unfolding direction_map transport_map command_map record_transport group_of
parse_house now g p = do
  transport ← transport_map (normalize_token (group_of (text "transport") g))
  direction ← direction_map (normalize_token (group_of (text "direction") g))
  house ← normalize_house (group_of (text "house") g)
  ok (
    some (
        house_event (record {
          timestamp = now;
          direction = direction;
          transport = transport;
          command = command_map (normalize_token (group_of (text "command") g));
          house = house;
        })),
    record p { capabilities = record_transport transport p.capabilities },
  )

-- what becomes of what `feed` returns
unfoldable pub fed : Option StatusSnapshot → ProtocolParser → Step
fed none p = (none, p)
fed (some snapshot) p = (
  some (status_snapshot snapshot),
  record p { capabilities = record p.capabilities { status = true } },
)

-- the branch of a status line
unfoldable pub parse_status : Text → ProtocolParser → Result Step
unfolding feed fed
parse_status line p = do
  (snapshot, status) ← feed line p.status
  ok (fed snapshot (record p { status = status }))

-- the event of a line that is no status line
unfoldable pub parse_event :
    Time → Text → ProtocolParser → Option Groups → Option Groups → Result Step
unfolding parse_device parse_house
parse_event now line p (some g) house = parse_device now g p
parse_event now line p none (some g) = parse_house now g p
parse_event now line p none none =
    ok (some (unknown_event (record { timestamp = now; raw = line })), p)

-- `parse_line` on a stripped line that is not empty
unfoldable pub parse_stripped : Time → Text → ProtocolParser → Result Step
unfolding parse_status parse_event is_status_line match
parse_stripped now [] p = ok (none, p)
parse_stripped now (c ∷ s) p =
    if is_status_line (c ∷ s)
    then parse_status (c ∷ s) p
    else parse_event now (c ∷ s) p (match device_event_re (c ∷ s)) (match house_event_re (c ∷ s))

-- `parse_line`; `now` is the time of the call
unfoldable pub parse_line : Time → Text → ProtocolParser → Result Step
unfolding parse_stripped
parse_line now line p = parse_stripped now (strip line) p
