-- ===== src/Topics.antt =====
-- topics.py: the names of the MQTT topics. A device is given by its address: a method that takes a
-- `DeviceConfig` reads nothing else, but for `entity_type`.
pub mod Segments
pub mod Commands
pub mod Addresses
mod Tests
use mochad_mqtt_bridge.Prelude.{
  ℕ, zero, suc, ◌+◌, ◌-◌, ◌*◌, ◌/◌, ◌%◌, ◌≤◌, ◌<◌, String, ◌≡◌, refl, sym, ap, ◌∙◌, subst, fun_ext,
  ◌≢◌, ◌↔◌, ◌⊎◌, inl, inr, Bool, true, false, not, ◌&&◌, ◌||◌, false≢true, Option, none, some, List,
  [], ◌∷◌, ◌++◌, map, reverse, append-nil, append_assoc, arith, ltb, leb, ◌==◌, between,
  if◌then◌else◌, ==_iff, ltb→lt, lt→ltb, leb→le, Bool-cases, tests_below, tests_below_lem,
  Option-cases, length, replicate, length-append, All, All-append, Exception, value_error,
  topic_error, config_error, connection_error, os_error, type_error, key_error, Result, ok, raise,
  ◌>>=◌, >>=-eq-ok,
}
use mochad_mqtt_bridge.Text.{
  Text, text, text_eq, text_eq_sound, text_eq_refl, text_eq_iff, contains_text, starts_with,
  is_space, upper_char, lower_char, upper, lower, lstrip_by, rstrip_by, strip_by, strip, strip_char,
  HeadKept, LastKept, strip_by-HeadKept, strip_by-LastKept, strip_by_kept, strip_by_idem,
  HeadKept-All, LastKept-All, split_at, join, words_from, words, Free, split_at-join,
}
use mochad_mqtt_bridge.Text.Normal.{normal}
use mochad_mqtt_bridge.Models.Enums.{DeviceType, switch, light, chime}
use mochad_mqtt_bridge.Models.Config.{DeviceConfig}
use mochad_mqtt_bridge.Protocol.Validation.{match_unit}

-- `c in s`, for one character
unfoldable pub has_char : ℕ → Text → Bool
has_char c [] = false
has_char c (d ∷ s) = (d == c) || has_char c s

-- the checks of `_clean_segment` on the stripped text
checked_segment : Text → Result Text
unfolding has_char
checked_segment [] = raise topic_error
checked_segment (c ∷ s) =
    if has_char b'#' (c ∷ s) || has_char b'+' (c ∷ s) then raise topic_error else ok (c ∷ s)

unfoldable pub clean_segment : Text → Result Text
unfolding checked_segment
clean_segment value = checked_segment (strip_char b'/' (strip value))

-- `re.fullmatch(r"[A-P](?:[1-9]|1[0-6])", address)`
unfoldable pub match_topic_address : Text → Bool
match_topic_address [] = false
match_topic_address (h ∷ u) = between b'A' b'P' h && match_unit u

-- `Topics._address`, which is also `device_segment`
unfoldable pub topic_address : Text → Result Text
unfolding match_topic_address
topic_address device =
    let address = upper (strip device) in
    if match_topic_address address then ok address else raise topic_error

unfoldable pub device_topic : Text → Text → Text → Result Text
unfolding clean_segment topic_address
device_topic device suffix base_topic = do
  base ← clean_segment base_topic
  address ← topic_address device
  suffix ← clean_segment suffix
  ok (join (text "/") (base ∷ address ∷ suffix ∷ []))

unfoldable pub bridge_topic : Text → Text → Result Text
unfolding clean_segment
bridge_topic suffix base_topic = do
  base ← clean_segment base_topic
  suffix ← clean_segment suffix
  ok (join (text "/") (base ∷ text "bridge" ∷ suffix ∷ []))

unfoldable pub state_topic : Text → Text → Result Text
state_topic device base_topic = device_topic device (text "state") base_topic

unfoldable pub command_topic : Text → Text → Result Text
command_topic device base_topic = device_topic device (text "command") base_topic

unfoldable pub event_topic : Text → Text → Result Text
event_topic device base_topic = device_topic device (text "event") base_topic

unfoldable pub attributes_topic : Text → Text → Result Text
attributes_topic device base_topic = device_topic device (text "attributes") base_topic

unfoldable pub command_filter : Text → Result Text
unfolding clean_segment
command_filter base_topic = do
  base ← clean_segment base_topic
  ok (join (text "/") (base ∷ text "+" ∷ text "command" ∷ []))

-- `bridge_command` and `bridge_command_filter`
unfoldable pub bridge_command_topic : Text → Result Text
unfolding clean_segment
bridge_command_topic base_topic = do
  base ← clean_segment base_topic
  ok (join (text "/") (base ∷ text "bridge" ∷ text "command" ∷ []))

unfoldable pub bridge_response_topic : Text → Result Text
bridge_response_topic base_topic = bridge_topic (text "response") base_topic

unfoldable pub availability_topic : Text → Result Text
availability_topic base_topic = bridge_topic (text "availability") base_topic

unfoldable pub status_topic : Text → Result Text
status_topic base_topic = bridge_topic (text "status") base_topic

-- the checks of `parse_command_topic` on the parts of the topic
unfoldable pub command_parts : Text → List Text → Result Text
command_parts base (p ∷ q ∷ r ∷ []) =
    if not (text_eq p base) || not (text_eq r (text "command"))
    then raise topic_error
    else topic_address q
command_parts base _ = raise topic_error

unfoldable pub parse_command_topic : Text → Text → Result Text
unfolding clean_segment command_parts
parse_command_topic topic base_topic = do
  base ← clean_segment base_topic
  command_parts base (split_at b'/' (strip_char b'/' topic))

unfoldable pub bridge_command_parts : Text → List Text → Result (Unit {0})
bridge_command_parts base (p ∷ q ∷ r ∷ []) =
    if not (text_eq p base) || (not (text_eq q (text "bridge")) || not (text_eq r (text "command")))
    then raise topic_error
    else ok tt
bridge_command_parts base _ = raise topic_error

unfoldable pub parse_bridge_command_topic : Text → Text → Result (Unit {0})
unfolding clean_segment bridge_command_parts
parse_bridge_command_topic topic base_topic = do
  base ← clean_segment base_topic
  bridge_command_parts base (split_at b'/' (strip_char b'/' topic))

unfoldable pub unique_id : DeviceConfig → Result Text
unique_id device = do address ← topic_address device.address; ok (text "x10_" ++ address)

-- the value of `entity_type`; the enum has no other member
unfoldable pub entity_type : DeviceType → Text
entity_type light = text "light"
entity_type switch = text "switch"
entity_type chime = text "button"

unfoldable pub discovery_topic : DeviceConfig → Text → Result Text
unfolding clean_segment unique_id entity_type
discovery_topic device discovery_prefix = do
  prefix ← clean_segment discovery_prefix
  id ← unique_id device
  ok (join (text "/") (prefix ∷ entity_type device.entity_type ∷ id ∷ text "config" ∷ []))

unfoldable pub bridge_discovery_topic : Text → Text → Text → Result Text
unfolding clean_segment
bridge_discovery_topic component object_id discovery_prefix = do
  prefix ← clean_segment discovery_prefix
  component ← clean_segment component
  object_id ← clean_segment object_id
  ok (join (text "/") (prefix ∷ component ∷ object_id ∷ text "config" ∷ []))
