-- ===== src/Bridge/LineExamples.antt =====
-- bridge.py: the theorem on the lines of mochad, at one line.
use mochad_mqtt_bridge.Prelude.{ℕ, ◌≡◌, refl, Bool, true, false, Option, none, []}
use mochad_mqtt_bridge.Text.{Text, text, text_eq, is_space, upper, strip, join, words}
use mochad_mqtt_bridge.Protocol.Validation.{match_unit, normalize_token}
use mochad_mqtt_bridge.Protocol.Validation.Addresses.{is_address}
use mochad_mqtt_bridge.Models.Enums.{on, rx, Transport}
use mochad_mqtt_bridge.Models.Runtime.{Json, null, Time, DeviceEvent}
use mochad_mqtt_bridge.Protocol.Regex.Steps.{Stamp}
use mochad_mqtt_bridge.Protocol.Parser.{new_parser, command_map, record_transport}
use mochad_mqtt_bridge.State.Methods.{apply_device_event}
use mochad_mqtt_bridge.Discovery.Blocks.{DiscoveryManager}
use mochad_mqtt_bridge.DiscoveryRegistry.{DiscoveryRegistry}
use mochad_mqtt_bridge.Models.Payloads.{missing}
use mochad_mqtt_bridge.Bridge.Tests.{bridge}
use mochad_mqtt_bridge.Bridge.Actions.{execute_actions}
use mochad_mqtt_bridge.Bridge.Maintenance.{keep_registry}
use mochad_mqtt_bridge.Bridge.Lines.{on_mochad_line}
use mochad_mqtt_bridge.Bridge.Received.{on_mochad_line-device_line}

abbrev manager : DiscoveryManager
manager = record {
  discovery_prefix = text "homeassistant";
  base_topic = text "x10";
  support_url = text "https://example.org";
  enable_maintenance_buttons = false;
  repr = λ _. text "[]";
}

abbrev registry : DiscoveryRegistry
registry = record { file = missing; writable = true; movable = true }

abbrev writes : ℕ → Bool
writes n = true

abbrev seconds : Time → Text
seconds t = []

abbrev shown : Json → Text
shown j = []

abbrev loads : Text → Option Json
loads s = none

-- 05/22 00:53:04
abbrev stamp : Stamp
stamp = record {
  month = b'0';
  month_unit = b'5';
  day = b'2';
  day_unit = b'2';
  hour = b'0';
  hour_unit = b'0';
  minute = b'5';
  minute_unit = b'3';
  second = b'0';
  second_unit = b'4';
}

abbrev received : DeviceEvent
received = record {
  timestamp = 5;
  direction = rx;
  transport = Transport.rf;
  command = on;
  address = text "A12";
}

on_mochad_line-device_line_example :
    on_mochad_line writes manager seconds null true shown loads 5
      (text "05/22 00:53:04 Rx RF HouseUnit: A12 Func: On")
      (bridge, registry)
      new_parser
    ≡ (
      (let (state, actions) = apply_device_event received bridge.state in
          keep_registry registry (
            execute_actions writes manager seconds null actions (record bridge { state = state }))),
      record new_parser { capabilities = record_transport Transport.rf new_parser.capabilities },
    )
unfolding is_address match_unit is_space command_map normalize_token text_eq join words upper strip
on_mochad_line-device_line_example =
    on_mochad_line-device_line writes manager seconds null true shown loads 5 bridge registry
      new_parser stamp rx true b'A' (text "12") b'O' (text "n")
      (refl, (refl, (refl, (refl, (refl, (refl, (refl, (refl, (refl, (refl, tt)))))))))) refl refl
      refl (refl, (refl, tt))
