-- ===== src/Bridge/InboundExamples.antt =====
-- bridge.py: the theorem on the commands from MQTT, for a message that rings the chime A1.
use mochad_mqtt_bridge.Prelude.{ok, ◌⊎◌, ℕ, ◌≡◌, Bool, true, false, []}
use mochad_mqtt_bridge.Text.{Text, text}
use mochad_mqtt_bridge.Models.Enums.{Command}
use mochad_mqtt_bridge.Models.Runtime.{null, Time}
use mochad_mqtt_bridge.State.Connections.{optimistic_update}
use mochad_mqtt_bridge.Discovery.Blocks.{DiscoveryManager}
use mochad_mqtt_bridge.Bridge.Tests.{bridge}
use mochad_mqtt_bridge.Bridge.Actions.{execute_actions}
use mochad_mqtt_bridge.Bridge.Commands.{MqttCommandMessage}
use mochad_mqtt_bridge.Bridge.Commands.Accepted.{IsAccepted}
use mochad_mqtt_bridge.Bridge.Commands.Refused.{Untouched}
use mochad_mqtt_bridge.Bridge.Outbound.{bridge_device_config}
use mochad_mqtt_bridge.Bridge.Inbound.{on_mqtt_command, on_mqtt_command-exact}

abbrev ring : MqttCommandMessage
ring = record { device = text "A1"; payload = text " on"; topic = text "x10/A1/command" }

abbrev manager : DiscoveryManager
manager = record {
  discovery_prefix = text "homeassistant";
  base_topic = text "x10";
  support_url = text "https://example.org";
  enable_maintenance_buttons = false;
  repr = λ _. text "[]";
}

abbrev writes : ℕ → Bool
writes n = true

abbrev seconds : Time → Text
seconds t = []

on_mqtt_command-exact_example :
    ((a : Text) × (c : Command) × IsAccepted ring bridge a c
      × (on_mqtt_command writes manager seconds null 5 ring bridge ≡ (
          let known = (bridge_device_config a bridge).0 in
          let (state, actions) = optimistic_update a c 5 known.state in
          execute_actions writes manager seconds null actions (record known { state = state }))))
    ⊎ (((a : Text) (c : Command) → ¬ IsAccepted ring bridge a c)
        × Untouched bridge (on_mqtt_command writes manager seconds null 5 ring bridge).0
        × ((on_mqtt_command writes manager seconds null 5 ring bridge).1 ≡ ok tt))
on_mqtt_command-exact_example = on_mqtt_command-exact writes manager seconds null 5 ring bridge
