-- ===== src/Mqtt/Tests.antt =====
-- Messages under the base topic x10.
use mochad_mqtt_bridge.Prelude.{◌≡◌, refl}
use mochad_mqtt_bridge.Text.{text, upper, strip, strip_char, is_space, join}
use mochad_mqtt_bridge.Text.Normal.{normal}
use mochad_mqtt_bridge.Protocol.Validation.{match_unit}
use mochad_mqtt_bridge.Topics.{
  has_char, clean_segment, match_topic_address, topic_address, device_topic, command_topic,
  bridge_command_topic,
}
use mochad_mqtt_bridge.Mqtt.{bridge_command, device_command, on_message}
use mochad_mqtt_bridge.Mqtt.Routing.{on_message-command_topic, on_message-bridge_command_topic}

on_message-command_topic_example :
    on_message (text "x10") (text "x10/A5/command") (text " ON ")
    ≡ device_command (normal (text "a5")) (strip (text " ON ")) (text "x10/A5/command")
unfolding command_topic device_topic clean_segment strip strip_char has_char is_space upper
    topic_address match_topic_address match_unit join
on_message-command_topic_example =
    on_message-command_topic (text "a5") (text "x10") (text "x10") (text "x10/A5/command")
      (text " ON ") refl refl refl

on_message-bridge_command_topic_example :
    on_message (text "x10") (text "x10/bridge/command") (text "SYNC")
    ≡ bridge_command (strip (text "SYNC")) (text "x10/bridge/command")
unfolding bridge_command_topic clean_segment strip strip_char has_char is_space join
on_message-bridge_command_topic_example =
    on_message-bridge_command_topic (text "x10") (text "x10") (text "x10/bridge/command")
      (text "SYNC") refl refl refl
