-- ===== src/Bridge/Examples.antt =====
-- bridge.py and discovery_registry.py: the theorems on actions and on the cleanup, at one bridge.
use mochad_mqtt_bridge.Prelude.{
  if◌then◌else◌, ℕ, ◌≡◌, refl, Bool, true, false, not, ◌&&◌, some, List, [], ◌∷◌, map, ok, raise,
}
use mochad_mqtt_bridge.Text.{Text, text, text_eq, contains_text, strip, strip_char, join}
use mochad_mqtt_bridge.Models.Runtime.{null, bool, Fields, Time, BridgeAction, request_status}
use mochad_mqtt_bridge.Models.Payloads.{Publication, get_field}
use mochad_mqtt_bridge.Discovery.Blocks.{DiscoveryManager}
use mochad_mqtt_bridge.DiscoveryRegistry.{DiscoveryRegistry, load}
use mochad_mqtt_bridge.Bridge.{Bridge}
use mochad_mqtt_bridge.Models.Enums.{on}
use mochad_mqtt_bridge.Models.Runtime.{publish_state, publish_availability}
use mochad_mqtt_bridge.DiscoveryRegistry.{registry_document}
use mochad_mqtt_bridge.Models.Payloads.{held}
use mochad_mqtt_bridge.DiscoveryRegistry.Distinct.{count}
use mochad_mqtt_bridge.DiscoveryRegistry.Saved.{Same}
use mochad_mqtt_bridge.Bridge.Actions.{is_mqtt_publish, execute_actions}
use mochad_mqtt_bridge.Bridge.Cleanup.{
  current_messages, empty_discovery_message, run_discovery_cleanup,
}
use mochad_mqtt_bridge.Bridge.Cleaned.{with_published, run_discovery_cleanup-clears}
use mochad_mqtt_bridge.Bridge.Executed.{disconnected_silent, disconnected_counted}
use mochad_mqtt_bridge.Bridge.Tests.{bridge}
use mochad_mqtt_bridge.Topics.{
  bridge_discovery_topic, status_topic, bridge_topic, bridge_command_topic,
}

abbrev manager : DiscoveryManager
manager = record {
  discovery_prefix = text "homeassistant";
  base_topic = text "x10";
  support_url = text "https://example.org";
  enable_maintenance_buttons = false;
  repr = λ _. text "[]";
}

abbrev offline : Bridge
offline = record bridge { mqtt = record bridge.mqtt { connected = false } }

abbrev writes : ℕ → Bool
writes n = true

abbrev seconds : Time → Text
seconds t = []

abbrev two_actions : List BridgeAction
two_actions = publish_state (text "A1") on true ∷ publish_availability true ∷ []

abbrev three_actions : List BridgeAction
three_actions = request_status ∷ two_actions

disconnected_silent_example :
    (execute_actions writes manager seconds null three_actions offline).0.mqtt ≡ offline.mqtt
disconnected_silent_example =
    disconnected_silent writes manager seconds null three_actions offline refl

disconnected_counted_example :
    execute_actions writes manager seconds null two_actions offline
    ≡ (record offline { dropped_mqtt_publishes = 2 }, ok tt)
unfolding is_mqtt_publish
disconnected_counted_example =
    disconnected_counted writes manager seconds null two_actions offline (refl, (refl, tt)) refl

-- A registry with a topic of a device that is gone.
abbrev registry : DiscoveryRegistry
registry = record {
  file = held (some (registry_document (text "homeassistant/switch/x10_B2/config" ∷ [])));
  writable = true;
  movable = true;
}

abbrev bare : Bridge
bare = record bridge { devices = [] }

messages : List Publication
unfolding current_messages
messages = elim (current_messages manager true bare) [ ok ms ↦ ms | raise e ↦ [] ]

run_discovery_cleanup-clears_example :
    (stale : List Text) × (desired : List Text) × (fields : Fields) × (run_discovery_cleanup manager
        true false
        (bare, registry)
      ≡ (
        (
          with_published (map empty_discovery_message stale) bare,
          record registry { file = held (some (registry_document desired)) },
        ),
        ok fields,
      ))
    × (get_field (text "success") fields ≡ some (bool true))
    × Same desired (map (λ p. p.topic) messages)
    × ((t : Text)
        → count t stale ≡ (
            if contains_text t (text "homeassistant/switch/x10_B2/config" ∷ [])
              && not (contains_text t (map (λ p. p.topic) messages))
            then 1
            else 0))
unfolding messages current_messages load bridge_discovery_topic strip_char strip status_topic
    bridge_topic bridge_command_topic registry_document text_eq join
run_discovery_cleanup-clears_example =
    run_discovery_cleanup-clears manager true false bare registry registry
      (text "homeassistant/switch/x10_B2/config" ∷ []) messages refl refl refl refl
