-- ===== src/Protocol/Parser/Tests.antt =====
-- protocol/parser.py: the theorems at lines that mochad sends.
use mochad_mqtt_bridge.Prelude.{◌↔◌, All, ◌≡◌, refl, true, false, some, ok}
use mochad_mqtt_bridge.Text.{text, text_eq, is_space, upper, strip, join, words}
use mochad_mqtt_bridge.Models.Enums.{rx, tx, Transport}
use mochad_mqtt_bridge.Protocol.Validation.{normalize_token, match_unit}
use mochad_mqtt_bridge.Protocol.Validation.Addresses.{is_address}
use mochad_mqtt_bridge.Protocol.Regex.Steps.{Stamp, IsStamp}
use mochad_mqtt_bridge.Protocol.Parser.{
  parse_line, command_map, record_transport, device_event, house_event,
}
use mochad_mqtt_bridge.Protocol.Regex.Patterns.{is_folded_house}
use mochad_mqtt_bridge.Protocol.Parser.{new_parser, Step}
use mochad_mqtt_bridge.Protocol.Parser.Events.{parse_line-device_line}
use mochad_mqtt_bridge.Protocol.Parser.Houses.{parse_line-house_line}
use mochad_mqtt_bridge.Protocol.Parser.Words.{spoken, command_map_iff}
use mochad_mqtt_bridge.Protocol.Parser.Total.{parse_line_returns}
use mochad_mqtt_bridge.Models.Enums.{all_lights_on, on}

-- 05/22 00:53:04
abbrev noon : Stamp
noon = record {
  month = b'0';
  month_unit = b'5';
  day = b'2';
  day_unit = b'2';
  hour = b'0';
  hour_unit = b'0';
  minute = b'5';
  minute_unit = b'3';
  second = b'0';
  second_unit = b'4';
}

noon-IsStamp : IsStamp noon
noon-IsStamp = (refl, (refl, (refl, (refl, (refl, (refl, (refl, (refl, (refl, (refl, tt))))))))))

parse_line-device_line_example :
    parse_line 5 (text "05/22 00:53:04 Rx RF HouseUnit: A12 Func: On") new_parser
    ≡ ok (
      some (
          device_event (record {
            timestamp = 5;
            direction = rx;
            transport = Transport.rf;
            command = on;
            address = text "A12";
          })),
      record new_parser { capabilities = record new_parser.capabilities { rf = true } },
    )
unfolding is_address match_unit is_space command_map normalize_token text_eq join words upper strip
    record_transport
parse_line-device_line_example =
    parse_line-device_line 5 new_parser noon rx true b'A' (text "12") b'O' (text "n") noon-IsStamp
      refl refl refl (refl, (refl, tt))

parse_line-house_line_example :
    parse_line 5 (text "05/22 00:53:04 Tx PL House: P Func: All lights on") new_parser
    ≡ ok (
      some (
          house_event (record {
            timestamp = 5;
            direction = tx;
            transport = Transport.pl;
            command = all_lights_on;
            house = text "P";
          })),
      record new_parser { capabilities = record new_parser.capabilities { pl = true } },
    )
unfolding is_space command_map normalize_token text_eq join words upper strip record_transport
parse_line-house_line_example =
    parse_line-house_line 5 new_parser noon tx false b'P' b'A' (text "ll lights on") noon-IsStamp
      refl refl refl
      (
        refl,
        (
          refl,
          (
            refl,
            (refl, (refl, (refl, (refl, (refl, (refl, (refl, (refl, (refl, (refl, tt)))))))))),
          ),
        ),
      )

line_is_plain : All (λ c. is_folded_house c ≡ false) (text "hello, mochad")
line_is_plain =
    ((
      refl,
      (
        refl,
        (refl, (refl, (refl, (refl, (refl, (refl, (refl, (refl, (refl, (refl, (refl, tt))))))))))),
      ),
    ))

parse_line_returns_example :
    (step : Step) × (parse_line 5 (text "hello, mochad") new_parser ≡ ok step)
parse_line_returns_example = parse_line_returns 5 (text "hello, mochad") new_parser line_is_plain

command_map_iff_example :
    (command_map (text "ALL LIGHTS ON") ≡ all_lights_on)
    ↔ (text "ALL LIGHTS ON" ≡ spoken all_lights_on)
command_map_iff_example = command_map_iff (text "ALL LIGHTS ON") all_lights_on (λ e. absurd (cc e))
