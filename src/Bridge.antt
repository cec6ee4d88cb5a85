-- ===== src/Bridge.antt =====
-- bridge.py: the bridge, its clients, and its queue of device commands.
mod Examples
mod ReloadExamples
mod LineExamples
mod InboundExamples
pub mod Maintenance
pub mod Cleaned
pub mod Cleanup
pub mod Executed
pub mod Actions
pub mod Outbound
pub mod Queue
pub mod Sending
pub mod Flush
pub mod Ready
pub mod Commands
pub mod Diagnostics
pub mod Lines
pub mod Start
pub mod Reload
pub mod Reloaded
pub mod Unpublished
pub mod Kept
pub mod Inbound
pub mod Received
pub mod Tests
use mochad_mqtt_bridge.Prelude.{
  ℕ, zero, suc, ◌+◌, ◌-◌, ◌*◌, ◌/◌, ◌%◌, ◌≤◌, ◌<◌, String, ◌≡◌, refl, sym, ap, ◌∙◌, subst, fun_ext,
  ◌≢◌, ◌↔◌, ◌⊎◌, inl, inr, Bool, true, false, not, ◌&&◌, ◌||◌, false≢true, Option, none, some, List,
  [], ◌∷◌, ◌++◌, map, reverse, append-nil, append_assoc, arith, ltb, leb, ◌==◌, between,
  if◌then◌else◌, ==_iff, ltb→lt, lt→ltb, leb→le, Bool-cases, tests_below, tests_below_lem,
  Option-cases, length, replicate, length-append, All, All-append, Exception, value_error,
  topic_error, config_error, connection_error, os_error, type_error, key_error, Result, ok, raise,
  ◌>>=◌, >>=-eq-ok, ok_injective,
}
use mochad_mqtt_bridge.Text.{
  Text, text, text_eq, text_eq_sound, text_eq_refl, text_eq_iff, contains_text, starts_with,
  is_space, upper_char, lower_char, upper, lower, lstrip_by, rstrip_by, strip_by, strip, strip_char,
  HeadKept, LastKept, strip_by-HeadKept, strip_by-LastKept, strip_by_kept, strip_by_idem,
  HeadKept-All, LastKept-All, split_at, split_at-piece, cons_head, join, words_from, words, Free,
  split_at-join,
}
use mochad_mqtt_bridge.Text.Normal.{normal}
use mochad_mqtt_bridge.Dict.{Dict, lookup, insert}
use mochad_mqtt_bridge.Models.Enums.{Command, on, off, dim, bright, contains_command}
use mochad_mqtt_bridge.Models.Config.{DeviceConfig, new_device_config}
use mochad_mqtt_bridge.Models.Runtime.{
  Json, null, bool, str, num, obj, Fields, end, field, DeviceState,
}
use mochad_mqtt_bridge.Models.Payloads.{Payload, raw, document, Publication, MochadDiagnostics}
use mochad_mqtt_bridge.Protocol.Encoder.{encode_rf_command}
use mochad_mqtt_bridge.Topics.{status_topic}
use mochad_mqtt_bridge.Mochad.{MochadClient, send_line}
use mochad_mqtt_bridge.State.{StateManager}
use mochad_mqtt_bridge.State.Connections.{read_available}

-- `MqttClient`: what it handed to the MQTT library, the latest last
pub record MqttClient : Type 0 where
  pub connected : Bool
  pub base_topic : Text
  pub published : List Publication

-- the truth values of `_mqtt_status_payload`
pub record TlsStatus : Type 0 where
  pub enabled : Bool
  pub custom_ca : Bool
  pub client_certificate : Bool

-- A `SendDeviceCommandAction`: an address and a command.
abbrev pub DeviceCommand : Type 0
DeviceCommand = Text × Command

pub record Bridge : Type 0 where
  pub devices : Dict DeviceConfig
  pub state : StateManager
  pub tls : TlsStatus
  pub mqtt : MqttClient
  pub mochad : MochadClient
  pub mochad_diagnostics : MochadDiagnostics
  pub dropped_mqtt_publishes : ℕ
  pub queued_device_commands : List DeviceCommand
  pub dropped_device_commands : ℕ

-- What an operation of the bridge does: it leaves a bridge, and returns or raises.
abbrev pub Effect : Type 0
Effect = Bridge × Result (Unit {0})

unfoldable pub mqtt_status_payload : TlsStatus → Fields
mqtt_status_payload tls =
    field (text "tls")
      (obj (
        field (text "enabled") (bool tls.enabled) (
          field (text "custom_ca") (bool tls.custom_ca)
            (field (text "client_certificate") (bool tls.client_certificate) end))))
      end

unfoldable pub mochad_diagnostics_payload : MochadDiagnostics → Fields
mochad_diagnostics_payload d = field (text "daemon") d.daemon (
    field (text "version") d.version (
      field (text "upstream_base") d.upstream_base (
        field (text "features")
          (obj (
            field (text "diagnostics") d.diagnostics (
              field (text "json") d.json (
                field (text "single_line") d.single_line
                  (field (text "raw_data") d.raw_data end)))))
          (field (text "health")
            (obj (
              field (text "uptime_seconds") d.uptime_seconds (
                field (text "usb_connected") d.usb_connected (
                  field (text "controller") d.controller (
                    field (text "endpoints_ready") d.endpoints_ready
                      (field (text "transfers_ready") d.transfers_ready end))))))
            (field (text "last_updated") d.last_updated end)))))

abbrev value_or {ℓ} : {A : Type ℓ} → A → Option A → A
value_or a none = a
value_or a (some b) = b

-- `status or default`
abbrev status_or : Text → Option Text → Text
status_or default (some (c ∷ s)) = c ∷ s
status_or default _ = default

-- `_bridge_status_payload`; it reads `state.available`, which refreshes the stored value
unfoldable pub bridge_status_payload :
    Option Text → Option Bool → Option Bool → Bridge → Bridge × Fields
unfolding mqtt_status_payload mochad_diagnostics_payload
bridge_status_payload status mqtt_connected mochad_connected b =
    let (state, available) = read_available b.state in
    (
      record b { state = state },
      field (text "status")
          (str (status_or (if available then text "online" else text "offline") status))
          (field (text "available") (bool available) (
            field (text "mqtt_connected") (bool (value_or b.mqtt.connected mqtt_connected)) (
              field (text "mochad_connected") (bool (value_or b.mochad.connected mochad_connected))
                (field (text "configured_devices") (num (length b.devices)) (
                  field (text "known_devices") (num (length b.state.devices)) (
                    field (text "dropped_mqtt_publishes") (num b.dropped_mqtt_publishes) (
                      field (text "queued_device_commands") (num (length b.queued_device_commands))
                        (field (text "dropped_device_commands") (num b.dropped_device_commands) (
                          field (text "mqtt") (obj (mqtt_status_payload b.tls)) (
                            field (text "mochad")
                              (obj (mochad_diagnostics_payload b.mochad_diagnostics)) end)))))))))),
    )

-- `MqttClient.publish`, to a topic that may fail to be built
unfoldable pub publish : Result Text → Payload → Bool → Bridge → Effect
publish (raise e) payload retain b = (b, raise e)
publish (ok topic) payload retain b =
    let message : Publication = record { topic = topic; payload = payload; retain = retain } in
    (record b { mqtt = record b.mqtt { published = b.mqtt.published ++ message ∷ [] } }, ok tt)

-- `if self.clients.mqtt.connected: self.clients.mqtt.publish_status(…, retain=True)`
unfoldable pub publish_status_if_connected : Bridge → Effect
unfolding publish bridge_status_payload
publish_status_if_connected b =
    let (refreshed, payload) = bridge_status_payload none none none b in
    if b.mqtt.connected
    then publish (status_topic b.mqtt.base_topic) (document payload) true refreshed
    else (b, ok tt)
