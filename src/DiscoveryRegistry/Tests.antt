-- ===== src/DiscoveryRegistry/Tests.antt =====
-- discovery_registry.py: the round trip at one registry.
use mochad_mqtt_bridge.Prelude.{◌≡◌, refl, true, some, List, [], ◌∷◌, ok}
use mochad_mqtt_bridge.Text.{Text, text}
use mochad_mqtt_bridge.Models.Payloads.{missing, held}
use mochad_mqtt_bridge.DiscoveryRegistry.{
  DiscoveryRegistry, clean_topics, registry_document, save, load,
}
use mochad_mqtt_bridge.DiscoveryRegistry.Saved.{Same, load-save}

abbrev topics : List Text
topics = text " b/config" ∷ text "" ∷ text "a/config" ∷ []

abbrev registry : DiscoveryRegistry
registry = record { file = missing; writable = true; movable = true }

load-save_example :
    (loaded : List Text) × Same loaded (clean_topics topics)
    × (save topics registry
        ≡ (record registry { file = held (some (registry_document topics)) }, ok tt))
    × (load (save topics registry).0 ≡ ((save topics registry).0, ok loaded))
load-save_example = load-save topics registry refl
