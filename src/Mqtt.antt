-- ===== src/Mqtt.antt =====
-- mqtt_client.py: where a message goes. The callbacks are set, as the bridge sets them. An undecodable
-- payload is not modelled: a payload is the text that `decode` gives.
pub mod Routing
mod Tests
use mochad_mqtt_bridge.Prelude.{
  ℕ, zero, suc, ◌+◌, ◌-◌, ◌*◌, ◌/◌, ◌%◌, ◌≤◌, ◌<◌, String, ◌≡◌, refl, sym, ap, ◌∙◌, subst, fun_ext,
  ◌≢◌, ◌↔◌, ◌⊎◌, inl, inr, Bool, true, false, not, ◌&&◌, ◌||◌, false≢true, Option, none, some, List,
  [], ◌∷◌, ◌++◌, map, reverse, append-nil, append_assoc, arith, ltb, leb, ◌==◌, between,
  if◌then◌else◌, ==_iff, ltb→lt, lt→ltb, leb→le, Bool-cases, tests_below, tests_below_lem,
  Option-cases, length, replicate, length-append, All, All-append, Exception, value_error,
  topic_error, config_error, connection_error, os_error, type_error, key_error, Result, ok, raise,
  ◌>>=◌, >>=-eq-ok, ok_injective,
}
use mochad_mqtt_bridge.Text.{
  Text, text, text_eq, text_eq_sound, text_eq_refl, text_eq_iff, contains_text, starts_with,
  is_space, upper_char, lower_char, upper, lower, lstrip_by, rstrip_by, strip_by, strip, strip_char,
  HeadKept, LastKept, strip_by-HeadKept, strip_by-LastKept, strip_by_kept, strip_by_idem,
  HeadKept-All, LastKept-All, split_at, split_at-piece, cons_head, join, words_from, words, Free,
  split_at-join,
}
use mochad_mqtt_bridge.Topics.{parse_command_topic, parse_bridge_command_topic}

-- the callback that is called, with what it gets, or none
pub data Routed : Type 0 where
  bridge_command : (payload topic : Text) → Routed
  device_command : (device payload topic : Text) → Routed
  unexpected : Routed

-- `_handle_device_command_message`
unfoldable pub route_device : Text → Text → Result Text → Routed
route_device topic payload (ok device) = device_command device payload topic
route_device topic payload (raise e) = unexpected

-- `_handle_bridge_command_message`, and what is tried after it
unfoldable pub route_bridge : Text → Text → Result (Unit {0}) → Routed → Routed
route_bridge topic payload (ok _) otherwise = bridge_command payload topic
route_bridge topic payload (raise e) otherwise = otherwise

-- `_on_message`
unfoldable pub on_message : Text → Text → Text → Routed
unfolding route_bridge route_device
on_message base_topic topic payload =
    let payload = strip payload in
    route_bridge topic payload (parse_bridge_command_topic topic base_topic)
      (route_device topic payload (parse_command_topic topic base_topic))
