-- ===== src/Bridge/Tests.antt =====
-- A bridge with one chime that is sent twice, and two commands in its queue.
use mochad_mqtt_bridge.Prelude.{
  ℕ, ◌+◌, ◌-◌, ◌≡◌, refl, Bool, true, false, not, ◌==◌, none, List, [], ◌∷◌, ◌++◌, arith, length,
}
use mochad_mqtt_bridge.Text.{text, text_eq, upper, lower, strip}
use mochad_mqtt_bridge.Text.Decimal.{int, decimal}
use mochad_mqtt_bridge.Models.Enums.{on, off}
use mochad_mqtt_bridge.Models.Config.{DeviceConfig, new_device_config}
use mochad_mqtt_bridge.Models.Runtime.{null, bool}
use mochad_mqtt_bridge.Protocol.Validation.{normalize_address}
use mochad_mqtt_bridge.Protocol.Encoder.{encode_rf_command, encode_command, encode_command_map}
use mochad_mqtt_bridge.State.Methods.{new_state_manager}
use mochad_mqtt_bridge.Bridge.{DeviceCommand, Bridge}
use mochad_mqtt_bridge.Models.Payloads.{MochadDiagnostics}
use mochad_mqtt_bridge.Bridge.Outbound.{
  flush_queued_device_commands, device_command_queue_reason, is_false,
}
use mochad_mqtt_bridge.Bridge.Queue.{queue_all, drop, queue_all-latest}
use mochad_mqtt_bridge.Bridge.Sending.{batch, Encodable}
use mochad_mqtt_bridge.Bridge.Flush.{Accounted, batches, flush-Accounted}
use mochad_mqtt_bridge.Bridge.Ready.{flush_ready}

abbrev unknown_diagnostics : MochadDiagnostics
unknown_diagnostics = record {
  daemon = null;
  version = null;
  upstream_base = null;
  diagnostics = null;
  json = null;
  single_line = null;
  raw_data = null;
  commands = [];
  legacy_commands = [];
  uptime_seconds = null;
  usb_connected = bool true;
  controller = null;
  endpoints_ready = bool true;
  transfers_ready = bool true;
  clients_total = null;
  listeners = null;
  last_updated = null;
}

abbrev twice : DeviceConfig
twice = record (new_device_config (text "A1") (text "porch")) { command_repeats = 2 }

abbrev two_commands : List DeviceCommand
two_commands = (text "A1", on) ∷ (text "A2", off) ∷ []

abbrev pub bridge : Bridge
bridge = record {
  devices = (text "A1", twice) ∷ [];
  state = new_state_manager (twice ∷ []) false none;
  tls = record { enabled = false; custom_ca = false; client_certificate = false };
  mqtt = record { connected = true; base_topic = text "x10"; published = [] };
  mochad = record { connected = true; attempts = 0; sent = [] };
  mochad_diagnostics = unknown_diagnostics;
  dropped_mqtt_publishes = 0;
  queued_device_commands = two_commands;
  dropped_device_commands = 0;
}

-- The second write fails.
abbrev failing : ℕ → Bool
failing n = not (n == 1)

abbrev working : ℕ → Bool
working n = true

first_Encodable : Encodable (text "A1", on)
unfolding encode_rf_command encode_command encode_command_map normalize_address upper lower strip
    text_eq int decimal
first_Encodable = (text "rf A1 on", refl)

second_Encodable : Encodable (text "A2", off)
unfolding encode_rf_command encode_command encode_command_map normalize_address upper lower strip
    text_eq int decimal
second_Encodable = (text "rf A2 off", refl)

queue_all-latest_example :
    ((queue_all two_commands bridge).queued_device_commands
      ≡ drop (length (two_commands ++ two_commands) - 100) (two_commands ++ two_commands))
    × ((queue_all two_commands bridge).dropped_device_commands
        ≡ bridge.dropped_device_commands + (length (two_commands ++ two_commands) - 100))
queue_all-latest_example = queue_all-latest two_commands bridge (omega arith)

flush-Accounted_example :
    Accounted
      (batch bridge.devices)
      bridge.mochad.sent
      (flush_queued_device_commands failing bridge).0.mochad.sent
      two_commands
      (flush_queued_device_commands failing bridge).0.queued_device_commands
flush-Accounted_example = flush-Accounted failing bridge (first_Encodable, (second_Encodable, tt))

flush_ready_example :
    ((flush_queued_device_commands working bridge).0.queued_device_commands ≡ [])
    × ((flush_queued_device_commands working bridge).0.mochad.sent
        ≡ bridge.mochad.sent ++ batches (batch bridge.devices) two_commands)
unfolding device_command_queue_reason is_false
flush_ready_example =
    flush_ready working bridge (λ n. refl) refl (first_Encodable, (second_Encodable, tt))
