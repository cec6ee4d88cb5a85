-- ===== src/Bridge/Commands/Accepted.antt =====
-- The device commands that the bridge accepts from MQTT.
use mochad_mqtt_bridge.Prelude.{
  ◌≡◌, refl, sym, ap, ◌∙◌, subst, ◌↔◌, Bool, true, false, not, Option, none, some, if◌then◌else◌,
  Result, ok, raise,
}
use mochad_mqtt_bridge.Text.{Text, text_eq_sound, text_eq_refl}
use mochad_mqtt_bridge.Models.Enums.{Command, contains_command}
use mochad_mqtt_bridge.Protocol.Validation.{normalize_address}
use mochad_mqtt_bridge.Protocol.Encoder.{encode_rf_command}
use mochad_mqtt_bridge.Topics.{parse_command_topic}
use mochad_mqtt_bridge.Bridge.{Bridge, DeviceCommand}
use mochad_mqtt_bridge.Bridge.Outbound.{bridge_device_config}
use mochad_mqtt_bridge.Bridge.Sending.{Encodable}
use mochad_mqtt_bridge.Bridge.Commands.{
  MqttCommandMessage, parse_command_payload, with_line, with_address, with_command, with_topic,
  accept_mqtt_command,
}

-- What a message must be, to be accepted as a command for an address.
pub record IsAccepted (message : MqttCommandMessage) (b : Bridge) (a : Text) (c : Command)
    : Type 0 where
  pub topic : parse_command_topic message.topic b.mqtt.base_topic ≡ ok message.device
  pub payload : parse_command_payload message.payload ≡ some c
  pub address : normalize_address message.device ≡ ok a
  pub supported : contains_command c (bridge_device_config a b).1.supported_commands ≡ true
  pub encodable : Encodable (a, c)

-- A check that lets its result through was passed.
passed :
    (t : Bool) (b : Bridge) (rest : Bridge × Option DeviceCommand) (a : DeviceCommand)
    → (if not t then (b, none) else rest).1 ≡ some a
    → (t ≡ true) × (rest.1 ≡ some a)
passed true b rest a h = (refl, h)
passed false b rest a h = absurd (cc)

with_line-inversion :
    (a : Text) (c : Command) (b : Bridge) (r : Result Text) (x : DeviceCommand)
    → (with_line a c b r).1 ≡ some x
    → ((line : Text) × (r ≡ ok line)) × (Path DeviceCommand x (a, c))
unfolding with_line
with_line-inversion a c b (ok line) x h = ((line, refl), cc h)
with_line-inversion a c b (raise e) x h = absurd (cc h)

abbrev Supported : Bridge → DeviceCommand → Type 0
Supported b x = contains_command x.1 (bridge_device_config x.0 b).1.supported_commands ≡ true

with_address-inversion :
    (c : Command) (b : Bridge) (r : Result Text) (x : DeviceCommand)
    → (with_address c b r).1 ≡ some x
    → (r ≡ ok x.0) × (c ≡ x.1) × Supported b x × Encodable x
unfolding with_address
with_address-inversion c b (raise e) x h = absurd (cc h)
with_address-inversion c b (ok a) x h =
    let (supported, h) = passed _ _ _ x h in
    let ((line, encoded), same) = with_line-inversion a c _ (encode_rf_command a c) x h in
    subst
      (λ (y : DeviceCommand).
        (Path (Result Text) (ok a) (ok y.0)) × (c ≡ y.1) × Supported b y × Encodable y)
      (sym same) (refl, refl, supported, (line, encoded))

with_command-inversion :
    (device : Text) (b : Bridge) (o : Option Command) (x : DeviceCommand)
    → (with_command device b o).1 ≡ some x
    → (o ≡ some x.1) × (normalize_address device ≡ ok x.0) × Supported b x × Encodable x
unfolding with_command
with_command-inversion device b none x h = absurd (cc h)
with_command-inversion device b (some c) x h =
    let (address, command, supported, encodable) =
      with_address-inversion c b (normalize_address device) x h in
    (ap some command, address, supported, encodable)

with_topic-inversion :
    (m : MqttCommandMessage) (b : Bridge) (r : Result Text) (a : Text) (c : Command)
    → parse_command_topic m.topic b.mqtt.base_topic ≡ r
    → (with_topic m b r).1 ≡ some (a, c)
    → IsAccepted m b a c
unfolding with_topic
with_topic-inversion m b (raise e) a c read h = absurd (cc h)
with_topic-inversion m b (ok d) a c read h =
    let (same, h) = passed _ _ _ (a, c) h in
    let (payload, address, supported, encodable) =
      with_command-inversion m.device b (parse_command_payload m.payload) (a, c) h in
    record {
      topic = read ∙ ap ok (text_eq_sound d m.device same);
      payload = payload;
      address = address;
      supported = supported;
      encodable = encodable;
    }

-- The checks add the device of an accepted address, if it is not known.
pub accept_mqtt_command-accepted :
    (m : MqttCommandMessage) (b : Bridge) (a : Text) (c : Command)
    → IsAccepted m b a c
    → accept_mqtt_command m b ≡ ((bridge_device_config a b).0, some (a, c))
unfolding accept_mqtt_command with_topic with_command with_address with_line
accept_mqtt_command-accepted m b a c h =
    rw (h.topic, text_eq_refl m.device, h.payload, h.address, h.supported, h.encodable.1) refl

-- A message from MQTT is accepted as a command for an address exactly when its topic is the command
-- topic of its device, its payload names the command, its device is normalised to the address, the
-- configuration of the address supports the command, and the command can be encoded.
pub accept_mqtt_command_iff :
    (m : MqttCommandMessage) (b : Bridge) (a : Text) (c : Command)
    → ((accept_mqtt_command m b).1 ≡ some (a, c)) ↔ IsAccepted m b a c
unfolding accept_mqtt_command
accept_mqtt_command_iff m b a c = (
  with_topic-inversion m b (parse_command_topic m.topic b.mqtt.base_topic) a c refl,
  λ h. ap (λ x. x.1) (accept_mqtt_command-accepted m b a c h),
)
