-- ===== src/Bridge/Commands.antt =====
-- bridge.py: the payloads of commands, and the checks of `_on_mqtt_command` before the manager is asked.
pub mod Accepted
pub mod Refused
use mochad_mqtt_bridge.Prelude.{
  ℕ, zero, suc, ◌+◌, ◌-◌, ◌*◌, ◌/◌, ◌%◌, ◌≤◌, ◌<◌, String, ◌≡◌, refl, sym, ap, ◌∙◌, subst, fun_ext,
  ◌≢◌, ◌↔◌, ◌⊎◌, inl, inr, Bool, true, false, not, ◌&&◌, ◌||◌, false≢true, Option, none, some, List,
  [], ◌∷◌, ◌++◌, map, reverse, append-nil, append_assoc, arith, ltb, leb, ◌==◌, between,
  if◌then◌else◌, ==_iff, ltb→lt, lt→ltb, leb→le, Bool-cases, tests_below, tests_below_lem,
  Option-cases, length, replicate, length-append, All, All-append, Exception, value_error,
  topic_error, config_error, connection_error, os_error, type_error, key_error, Result, ok, raise,
  ◌>>=◌, >>=-eq-ok, ok_injective,
}
use mochad_mqtt_bridge.Text.{
  Text, text, text_eq, text_eq_sound, text_eq_refl, text_eq_iff, contains_text, starts_with,
  is_space, upper_char, lower_char, upper, lower, lstrip_by, rstrip_by, strip_by, strip, strip_char,
  HeadKept, LastKept, strip_by-HeadKept, strip_by-LastKept, strip_by_kept, strip_by_idem,
  HeadKept-All, LastKept-All, split_at, split_at-piece, cons_head, join, words_from, words, Free,
  split_at-join,
}
use mochad_mqtt_bridge.Text.Normal.{normal}
use mochad_mqtt_bridge.Dict.{Dict, lookup}
use mochad_mqtt_bridge.Models.Enums.{
  Command, on, off, dim, bright, contains_command, BridgeCommand, status, sync, rediscover,
  prune_discovery, reset_discovery, ping, bridge_command_name,
}
use mochad_mqtt_bridge.Protocol.Validation.{normalize_address}
use mochad_mqtt_bridge.Protocol.Encoder.{encode_rf_command}
use mochad_mqtt_bridge.Topics.{parse_command_topic}
use mochad_mqtt_bridge.Bridge.{Bridge, DeviceCommand}
use mochad_mqtt_bridge.Bridge.Outbound.{bridge_device_config}

-- `COMMAND_PAYLOADS`
abbrev pub command_payloads : Dict Command
command_payloads =
    (text "ON", on) ∷ (text "OFF", off) ∷ (text "DIM", dim) ∷ (text "BRIGHT", bright) ∷ []

unfoldable pub parse_command_payload : Text → Option Command
parse_command_payload payload = lookup (upper (strip payload)) command_payloads

-- `BRIDGE_COMMAND_ALIASES`
abbrev bridge_command_aliases : Dict BridgeCommand
bridge_command_aliases =
    (text "PRUNE_ENTITIES", prune_discovery) ∷ (text "PRUNE", prune_discovery) ∷ []

-- the members of `BridgeCommand` by name
abbrev bridge_commands : Dict BridgeCommand
bridge_commands =
    (bridge_command_name status, status)
    ∷ (bridge_command_name sync, sync)
    ∷ (bridge_command_name rediscover, rediscover)
    ∷ (bridge_command_name prune_discovery, prune_discovery)
    ∷ (bridge_command_name reset_discovery, reset_discovery)
    ∷ (bridge_command_name ping, ping)
    ∷ []

-- `replace("-", "_").replace(" ", "_")`
unfoldable pub underscored : Text → Text
underscored [] = []
underscored (c ∷ s) = (if c == b'-' || c == b' ' then b'_' else c) ∷ underscored s

or_else {ℓ} : {A : Type ℓ} → Option A → Option A → Option A
or_else none other = other
or_else (some a) other = some a

named_bridge_command : Text → Option BridgeCommand
unfolding or_else underscored bridge_command_name lookup
named_bridge_command [] = none
named_bridge_command (c ∷ s) =
    or_else (lookup (underscored (c ∷ s)) bridge_commands)
      (lookup (underscored (c ∷ s)) bridge_command_aliases)

unfoldable pub parse_bridge_command_payload : Text → Option BridgeCommand
unfolding named_bridge_command
parse_bridge_command_payload payload = named_bridge_command (upper (strip payload))

pub record MqttCommandMessage : Type 0 where
  pub device : Text
  pub payload : Text
  pub topic : Text

-- the result of encoding the command
with_line : Text → Command → Bridge → Result Text → Bridge × Option DeviceCommand
with_line address command b (ok line) = (b, some (address, command))
with_line address command b (raise e) = (b, none)

-- the result of reading the address
with_address : Command → Bridge → Result Text → Bridge × Option DeviceCommand
unfolding bridge_device_config with_line
with_address command b (raise e) = (b, none)
with_address command b (ok address) =
    let (b, device) = bridge_device_config address b in
    if not (contains_command command device.supported_commands)
    then (b, none)
    else with_line address command b (encode_rf_command address command)

-- the command of the payload
with_command : Text → Bridge → Option Command → Bridge × Option DeviceCommand
unfolding with_address
with_command device b none = (b, none)
with_command device b (some command) = with_address command b (normalize_address device)

-- the address of the topic
with_topic : MqttCommandMessage → Bridge → Result Text → Bridge × Option DeviceCommand
unfolding with_command
with_topic message b (raise e) = (b, none)
with_topic message b (ok address) =
    if not (text_eq address message.device)
    then (b, none)
    else with_command message.device b (parse_command_payload message.payload)

-- `_on_mqtt_command` up to the call of `optimistic_update`: the address and command for that call, or
-- none where the message is ignored. Every exception that the checks can meet is a `ValueError`.
-- `config.mqtt_base_topic` is the base topic of the client, which `__init__` makes from it.
unfoldable pub accept_mqtt_command : MqttCommandMessage → Bridge → Bridge × Option DeviceCommand
unfolding with_topic
accept_mqtt_command message b =
    with_topic message b (parse_command_topic message.topic b.mqtt.base_topic)
