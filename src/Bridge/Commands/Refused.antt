-- ===== src/Bridge/Commands/Refused.antt =====
-- The checks of a command from MQTT leave all but the known devices of the bridge.
use mochad_mqtt_bridge.Prelude.{
  ◌≡◌, refl, Bool, true, false, not, Option, none, some, if◌then◌else◌, Result, ok, raise,
}
use mochad_mqtt_bridge.Text.{Text, text_eq}
use mochad_mqtt_bridge.Text.Normal.{normal}
use mochad_mqtt_bridge.Dict.{lookup}
use mochad_mqtt_bridge.Models.Enums.{Command, contains_command}
use mochad_mqtt_bridge.Models.Config.{DeviceConfig}
use mochad_mqtt_bridge.Protocol.Validation.{normalize_address}
use mochad_mqtt_bridge.Protocol.Encoder.{encode_rf_command}
use mochad_mqtt_bridge.Topics.{parse_command_topic}
use mochad_mqtt_bridge.Bridge.{Bridge, DeviceCommand}
use mochad_mqtt_bridge.Bridge.Outbound.{found_or_default, bridge_device_config}
use mochad_mqtt_bridge.Bridge.Commands.{
  MqttCommandMessage, parse_command_payload, with_line, with_address, with_command, with_topic,
  accept_mqtt_command,
}

-- The parts of a bridge that a command can reach.
abbrev pub Untouched : Bridge → Bridge → Type 0
Untouched b b' =
    (b'.state ≡ b.state)
    × (b'.mochad ≡ b.mochad)
    × (b'.mqtt ≡ b.mqtt)
    × (b'.queued_device_commands ≡ b.queued_device_commands)

found_or_default-Untouched :
    (a : Text) (o : Option DeviceConfig) (b : Bridge) → Untouched b (found_or_default a o b).0
unfolding found_or_default
found_or_default-Untouched a none b = (refl, refl, refl, refl)
found_or_default-Untouched a (some d) b = (refl, refl, refl, refl)

pub bridge_device_config-Untouched :
    (a : Text) (b : Bridge) → Untouched b (bridge_device_config a b).0
unfolding bridge_device_config
bridge_device_config-Untouched a b =
    found_or_default-Untouched (normal a) (lookup (normal a) b.devices) b

if-Untouched :
    (t : Bool) (b : Bridge) (x y : Bridge × Option DeviceCommand)
    → Untouched b x.0
    → Untouched b y.0
    → Untouched b (if t then x else y).0
if-Untouched true b x y h k = h
if-Untouched false b x y h k = k

with_line-bridge :
    (a : Text) (c : Command) (b : Bridge) (r : Result Text) → (with_line a c b r).0 ≡ b
unfolding with_line
with_line-bridge a c b (ok line) = refl
with_line-bridge a c b (raise e) = refl

with_address-Untouched :
    (c : Command) (b : Bridge) (r : Result Text) → Untouched b (with_address c b r).0
unfolding with_address
with_address-Untouched c b (raise e) = (refl, refl, refl, refl)
with_address-Untouched c b (ok a) =
    let known = bridge_device_config a b in
    let kept = bridge_device_config-Untouched a b in
    if-Untouched (not (contains_command c known.1.supported_commands)) b (known.0, none) _ kept
      (rw (with_line-bridge a c known.0 (encode_rf_command a c)) kept)

with_command-Untouched :
    (device : Text) (b : Bridge) (o : Option Command) → Untouched b (with_command device b o).0
unfolding with_command
with_command-Untouched device b none = (refl, refl, refl, refl)
with_command-Untouched device b (some c) = with_address-Untouched c b (normalize_address device)

with_topic-Untouched :
    (message : MqttCommandMessage) (b : Bridge) (r : Result Text)
    → Untouched b (with_topic message b r).0
unfolding with_topic
with_topic-Untouched message b (raise e) = (refl, refl, refl, refl)
with_topic-Untouched message b (ok d) =
    if-Untouched (not (text_eq d message.device)) b (b, none) _ (refl, refl, refl, refl)
      (with_command-Untouched message.device b (parse_command_payload message.payload))

pub accept_mqtt_command-Untouched :
    (message : MqttCommandMessage) (b : Bridge) → Untouched b (accept_mqtt_command message b).0
unfolding accept_mqtt_command
accept_mqtt_command-Untouched message b =
    with_topic-Untouched message b (parse_command_topic message.topic b.mqtt.base_topic)
