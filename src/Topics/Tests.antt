-- ===== src/Topics/Tests.antt =====
-- Topics of a switch A5 under concrete base topics.
use mochad_mqtt_bridge.Prelude.{◌≡◌, refl, ◌↔◌, topic_error, ok, raise}
use mochad_mqtt_bridge.Text.{text, upper, strip, strip_char, is_space, join}
use mochad_mqtt_bridge.Text.Normal.{normal}
use mochad_mqtt_bridge.Protocol.Validation.{
  normalize_address, X10Address, x10_address_str, parse_x10_address, match_unit,
}
use mochad_mqtt_bridge.Topics.{
  has_char, clean_segment, match_topic_address, topic_address, device_topic, command_topic,
  parse_command_topic,
}
use mochad_mqtt_bridge.Topics.Commands.{parse_command_topic-command_topic, inner_slash_rejected}
use mochad_mqtt_bridge.Topics.Addresses.{parsers_agree, device_topic_injective}

parse_command_topic-command_topic_example :
    parse_command_topic (text "x10/A5/command") (text "/x10") ≡ topic_address (text "a5")
unfolding command_topic device_topic clean_segment strip strip_char has_char is_space upper
    topic_address match_topic_address match_unit join
parse_command_topic-command_topic_example =
    parse_command_topic-command_topic (text "a5") (text "/x10") (text "x10") (text "x10/A5/command")
      refl refl refl

inner_slash_rejected_example :
    parse_command_topic (text "home/x10/A5/command") (text "home/x10") ≡ raise topic_error
unfolding command_topic device_topic clean_segment strip strip_char has_char is_space upper
    topic_address match_topic_address match_unit join
inner_slash_rejected_example =
    inner_slash_rejected (text "a5") (text "home/x10") (text "home/x10")
      (text "home/x10/A5/command") refl refl refl

parsers_agree_example :
    ((topic_address (text " b7") ≡ ok (text "B7"))
      ↔ (normalize_address (text " b7") ≡ ok (text "B7")))
    × ((normalize_address (text " b7") ≡ ok (text "B7")) ↔ (
        (x : X10Address) × (parse_x10_address (text " b7") ≡ ok x)
        × (x10_address_str x ≡ text "B7")))
parsers_agree_example = parsers_agree (text " b7") (text "B7")

device_topic_injective_example :
    (normal (text "a5") ≡ normal (text " A5"))
    × (clean_segment (text "state") ≡ clean_segment (text "state/"))
unfolding device_topic clean_segment strip strip_char has_char is_space upper topic_address
    match_topic_address match_unit join
device_topic_injective_example =
    device_topic_injective (text "a5") (text " A5") (text "state") (text "state/") (text "x10")
      (text "x10/A5/state") refl refl
