-- ===== src/Protocol/Parser/Houses.antt =====
-- protocol/parser.py: a house's line is read back.
use mochad_mqtt_bridge.Prelude.{
  ℕ, ◌≡◌, refl, ap, ◌∙◌, Bool, true, false, ◌||◌, none, some, [], ◌∷◌, ◌++◌, arith, between, ok,
}
use mochad_mqtt_bridge.Protocol.Regex.Patterns.{folded}
use mochad_mqtt_bridge.Protocol.Regex.Steps.{capital-any_house}
use mochad_mqtt_bridge.Text.{upper_char}
use mochad_mqtt_bridge.Text.{
  Text, text, text_eq, is_space, lower_char, upper, strip, LastKept, strip_by_kept,
}
use mochad_mqtt_bridge.Text.Normal.{upper_of_IsUpper}
use mochad_mqtt_bridge.Models.Enums.{Direction}
use mochad_mqtt_bridge.Models.Runtime.{Time}
use mochad_mqtt_bridge.Protocol.Validation.{normalize_house, normalize_token}
use mochad_mqtt_bridge.Protocol.Regex.Search.{
  seq, group, Regex, Groups, Rest, match, run, group_of, first_char,
}
use mochad_mqtt_bridge.Protocol.Regex.Language.{taken-append}
use mochad_mqtt_bridge.Protocol.Regex.Patterns.{
  house_letter, address_pattern, spaces, device_event_re, house_event_re,
}
use mochad_mqtt_bridge.Protocol.Regex.Steps.{
  seq-lit, seq-spaces, seq-timestamp, Stamp, IsStamp, stamped, IsLine,
}
use mochad_mqtt_bridge.Protocol.Parser.{
  ProtocolParser, parse_line, parse_stripped, parse_event, parse_house, command_map,
  record_transport, house_event,
}
use mochad_mqtt_bridge.Protocol.Parser.Lines.{
  direction_word, transport_word, transport_of, groups, run-words, tail_pattern, words_pattern,
  done, letter_is_not_space, run-func, func_text, func_pattern,
}
use mochad_mqtt_bridge.Protocol.Parser.Events.{
  event_line, strip-event_line, event_line-no_status, transport_map-word, direction_map-word,
}

-- A house's line is not a device's line: the labels part at the colon.
match-device-house_line :
    (s : Stamp) (d : Direction) (radio : Bool) (rest : Text)
    → IsStamp s
    → match device_event_re (
        stamped s (
          32
          ∷ (direction_word d ++ (32 ∷ (transport_word radio ++ (32 ∷ (text "House:" ++ rest)))))))
      ≡ none
unfolding match device_event_re is_space run first_char lower_char folded
match-device-house_line s d radio rest stamp =
    let tail = tail_pattern (text "HouseUnit:") (group (text "address") address_pattern) in
    seq-timestamp s _ (words_pattern tail) [] done stamp
    ∙ run-words d radio b'H' (text "ouse:" ++ rest) tail [] done refl

-- The letter of a house is read in front of a space.
run-house :
    (h : ℕ) (s : Text) (rest : Regex) (g : Groups) (k : Rest)
    → between b'A' b'P' h ≡ true
    → run (seq (group (text "house") house_letter) rest) (h ∷ 32 ∷ s) g k
      ≡ run rest (32 ∷ s) ((text "house", h ∷ []) ∷ g) k
unfolding run first_char
run-house h s rest g k good = rw (capital-any_house h good, taken-append (h ∷ []) (32 ∷ s)) refl

match-house_line :
    (s : Stamp) (d : Direction) (radio : Bool) (h c : ℕ) (command : Text)
    → IsStamp s
    → between b'A' b'P' h ≡ true
    → is_space c ≡ false
    → IsLine (c ∷ command)
    → match house_event_re (event_line s d radio (text "House:") (h ∷ []) (c ∷ command))
      ≡ some (groups d radio (text "house") (h ∷ []) (c ∷ command))
unfolding match house_event_re is_space
match-house_line s d radio h c command stamp letter starts line =
    let tail = tail_pattern (text "House:") (group (text "house") house_letter) in
    let end : Text = h ∷ func_text (c ∷ command) in
    let after_label = seq (group (text "house") house_letter) func_pattern in
    let words =
      (text "transport", transport_word radio) ∷ (text "direction", direction_word d) ∷ [] in
    seq-timestamp s _ (words_pattern tail) [] done stamp
    ∙ run-words d radio b'H' (text "ouse:" ++ (32 ∷ end)) tail [] done refl
    ∙ seq-lit (text "House:") (32 ∷ end) (seq spaces after_label) words done
    ∙ seq-spaces h (func_text (c ∷ command)) after_label words done (letter_is_not_space h letter)
    ∙ run-house h (text "Func:" ++ (32 ∷ c ∷ command)) func_pattern words done letter
    ∙ run-func c command _ starts line

normalize_house-letter :
    (h : ℕ) → between b'A' b'P' h ≡ true → normalize_house (h ∷ []) ≡ ok (h ∷ [])
unfolding normalize_house strip upper_char
normalize_house-letter h letter =
    let same : upper (strip (h ∷ [])) ≡ h ∷ [] =
      ap upper (
        strip_by_kept is_space (h ∷ []) (letter_is_not_space h letter)
          (letter_is_not_space h letter))
      ∙ upper_of_IsUpper (h ∷ []) (ground (arith, letter), tt) in
    let either : (between b'A' b'P' h || between b'a' b'p' h) ≡ true = ground (arith, letter) in
    rw (same, either) refl

-- A line of a house's event is read back, on the same conditions: the house is the letter of the line.
pub parse_line-house_line :
    (now : Time) (p : ProtocolParser) (s : Stamp) (d : Direction) (radio : Bool) (h c : ℕ)
    (command : Text)
    → IsStamp s
    → between b'A' b'P' h ≡ true
    → is_space c ≡ false
    → LastKept is_space (c ∷ command)
    → IsLine (c ∷ command)
    → parse_line now (event_line s d radio (text "House:") (h ∷ []) (c ∷ command)) p
      ≡ ok (
        some (
            house_event (record {
              timestamp = now;
              direction = d;
              transport = transport_of radio;
              command = command_map (normalize_token (c ∷ command));
              house = h ∷ [];
            })),
        record p { capabilities = record_transport (transport_of radio) p.capabilities },
      )
unfolding parse_line parse_stripped parse_event parse_house group_of text_eq
parse_line-house_line now p s d radio h c command stamp letter starts last line =
    rw
      (
        strip-event_line s d radio (text "House:") (h ∷ []) c command stamp last,
        event_line-no_status s d radio (text "House:") (h ∷ []) c command stamp last,
        match-device-house_line s d radio (32 ∷ h ∷ func_text (c ∷ command)) stamp,
        match-house_line s d radio h c command stamp letter starts line,
        transport_map-word radio,
        direction_map-word d,
        normalize_house-letter h letter,
      )
      refl
