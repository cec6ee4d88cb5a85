-- ===== src/Config/Housecodes/Tests.antt =====
-- A value with a range and single codes.
use mochad_mqtt_bridge.Prelude.{◌≡◌, refl}
use mochad_mqtt_bridge.Text.{text, upper, strip, is_space, contains_text, text_eq, split_at}
use mochad_mqtt_bridge.Text.Normal.{normal}
use mochad_mqtt_bridge.Topics.{has_char}
use mochad_mqtt_bridge.Config.Housecodes.{
  parse_housecodes, parts_of, add_parts, add_part, add_characters, add, update,
  parse_housecode_range, is_house_code,
}
use mochad_mqtt_bridge.Config.Housecodes.Members.{some_names, parse_housecodes-names}

parse_housecodes-names_example :
    has_char b'B' (text "ABCF") ≡ some_names (parts_of (normal (text " a-c, f"))) b'B'
unfolding parse_housecodes parts_of add_parts add_part add_characters add update
    parse_housecode_range is_house_code has_char upper strip is_space contains_text text_eq split_at
parse_housecodes-names_example = parse_housecodes-names (text " a-c, f") (text "ABCF") b'B' refl
