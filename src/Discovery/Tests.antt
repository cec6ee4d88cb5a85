-- ===== src/Discovery/Tests.antt =====
-- discovery.py: the theorems at a living-room setup.
use mochad_mqtt_bridge.Prelude.{
  ◌≡◌, refl, true, none, List, [], ◌∷◌, map, All, discovery_error, ok, raise,
}
use mochad_mqtt_bridge.Text.{
  text, text_eq, contains_text, is_space, upper, lower, strip, strip_char, join,
}
use mochad_mqtt_bridge.Models.Config.{DeviceConfig}
use mochad_mqtt_bridge.Models.Runtime.{Fields}
use mochad_mqtt_bridge.Models.Payloads.{Publication}
use mochad_mqtt_bridge.Topics.{has_char, clean_segment, topic_address, entity_type}
use mochad_mqtt_bridge.Topics.Segments.{Free-has_char}
use mochad_mqtt_bridge.Discovery.Blocks.{DiscoveryManager}
use mochad_mqtt_bridge.Discovery.Messages.{device_payload, message, discovery_messages, given}
use mochad_mqtt_bridge.Discovery.Valid.{accepted}
use mochad_mqtt_bridge.Dict.{lookup}
use mochad_mqtt_bridge.DeviceRegistry.{with_profile, apply_profile}
use mochad_mqtt_bridge.Discovery.Published.{published_devices}
use mochad_mqtt_bridge.DeviceRegistry.Products.{um506_momentary}
use mochad_mqtt_bridge.DeviceRegistry.{get_profile}
use mochad_mqtt_bridge.Topics.{match_topic_address}
use mochad_mqtt_bridge.Protocol.Validation.{match_unit}
use mochad_mqtt_bridge.Models.Config.{post_init}
use mochad_mqtt_bridge.Models.Config.{new_device_config}
use mochad_mqtt_bridge.Discovery.Profiles.{published_profiles}
use mochad_mqtt_bridge.Discovery.Bridge.{bridge_diagnostic_messages}
use mochad_mqtt_bridge.Discovery.Diagnostics.{own_entities, own_topic, published_diagnostics}

abbrev manager : DiscoveryManager
manager = record {
  discovery_prefix = text "homeassistant";
  base_topic = text "mochad/";
  support_url = text "https://example.org";
  enable_maintenance_buttons = true;
  repr = λ _. text "[]";
}

abbrev lamp : DeviceConfig
lamp = new_device_config (text "a1") (text "lamp")

abbrev momentary_lamp : DeviceConfig
momentary_lamp = with_profile um506_momentary lamp

published_devices_example :
    (payload : Fields) × (device_payload manager lamp none ≡ ok payload)
    × (discovery_messages manager lamp none
        ≡ ok (message (text "homeassistant/switch/x10_A1/config") payload ∷ []))
unfolding given topic_address match_topic_address match_unit clean_segment has_char strip_char strip
    upper is_space join accepted entity_type new_device_config
published_devices_example =
    published_devices manager lamp none (text "A1") (text "mochad") (text "homeassistant") refl refl
      refl refl (Free-has_char b'/' (text "homeassistant") refl)

published_diagnostics_example :
    (messages : List Publication) × (bridge_diagnostic_messages manager none ≡ ok messages)
    × (map (λ p. p.topic) messages ≡ map (own_topic (text "homeassistant")) (own_entities true))
    × All (λ p. p.retain ≡ true) messages
unfolding clean_segment has_char strip_char strip is_space
published_diagnostics_example =
    published_diagnostics manager none (text "mochad") (text "homeassistant") refl refl

published_profiles_example :
    (payload : Fields) × (device_payload manager momentary_lamp none ≡ ok payload)
    × (discovery_messages manager momentary_lamp none ≡ raise discovery_error)
unfolding apply_profile get_profile lookup text_eq lower strip is_space post_init given
    topic_address match_topic_address match_unit clean_segment has_char strip_char upper
    contains_text new_device_config
published_profiles_example =
    published_profiles manager lamp momentary_lamp (text "um506_momentary") none (text "A1")
      (text "mochad") (text "homeassistant") refl refl refl refl refl
      (Free-has_char b'/' (text "homeassistant") refl)
