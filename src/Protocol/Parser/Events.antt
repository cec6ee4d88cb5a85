-- ===== src/Protocol/Parser/Events.antt =====
-- protocol/parser.py: an event's line is read back.
use mochad_mqtt_bridge.Prelude.{
  ℕ, ◌≡◌, refl, ap, ◌∙◌, Bool, true, false, none, some, [], ◌∷◌, ◌++◌, arith, ◌==◌, between, ==_iff,
  ok,
}
use mochad_mqtt_bridge.Protocol.Regex.Patterns.{folded}
use mochad_mqtt_bridge.Text.{upper_char}
use mochad_mqtt_bridge.Text.{
  Text, text, text_eq, is_space, lower_char, upper, strip, LastKept, strip_by_kept, join, words,
}
use mochad_mqtt_bridge.Text.Normal.{normal, upper_of_IsUpper}
use mochad_mqtt_bridge.Models.Enums.{Direction, rx, tx}
use mochad_mqtt_bridge.Models.Runtime.{Time}
use mochad_mqtt_bridge.Protocol.Validation.{normalize_token, match_unit}
use mochad_mqtt_bridge.Protocol.Validation.Addresses.{is_address, normalize_address-eq}
use mochad_mqtt_bridge.Protocol.Regex.Search.{seq, Regex, match, run, group_of, first_char}
use mochad_mqtt_bridge.Protocol.Regex.Patterns.{lit, spaces, timestamp_pattern}
use mochad_mqtt_bridge.Protocol.Regex.Steps.{
  seq-spaces, seq-timestamp, Stamp, IsStamp, stamped, IsLine, digit_is_not_space,
}
use mochad_mqtt_bridge.Protocol.Status.{is_status_line}
use mochad_mqtt_bridge.Protocol.Parser.{
  ProtocolParser, parse_line, parse_stripped, parse_event, parse_device, direction_map,
  transport_map, command_map, record_transport, device_event,
}
use mochad_mqtt_bridge.Protocol.Regex.Patterns.{
  lit, device_selected_re, device_status_re, security_status_re, end_status_re, house_count_re,
  strict_house_status_re,
}
use mochad_mqtt_bridge.Protocol.Status.{matches, is_found}
use mochad_mqtt_bridge.Protocol.Parser.Lines.{
  direction_word, transport_word, transport_of, groups, match-device_line, done,
  letter_is_not_space,
}

LastKept-append :
    (p : ℕ → Bool) (b : Text) (c : ℕ) (s : Text) → LastKept p (c ∷ s) → LastKept p (b ++ c ∷ s)
LastKept-append p [] c s h = h
LastKept-append p (d ∷ []) c s h = h
LastKept-append p (d ∷ e ∷ b) c s h = LastKept-append p (e ∷ b) c s h

-- a line that begins with a time stamp, a space and this
abbrev after : Stamp → ℕ → Text → Text
after s x rest = stamped s (32 ∷ x ∷ rest)

-- Not the first letter of any status line: D, S, E or H, in either case.
abbrev NoStatus : ℕ → Type 0
NoStatus x =
    (is_space x ≡ false)
    × ((folded x == b'd') ≡ false)
    × ((folded x == b's') ≡ false)
    × ((folded x == b'e') ≡ false)
    × ((folded x == b'h') ≡ false)

phrase-none :
    (s : Stamp) (x c : ℕ) (rest phrase : Text) (r : Regex)
    → IsStamp s
    → is_space x ≡ false
    → (folded x == folded c) ≡ false
    → match (seq timestamp_pattern (seq spaces (seq (lit (c ∷ phrase)) r))) (after s x rest) ≡ none
unfolding match run first_char
phrase-none s x c rest phrase r stamp solid other =
    let tail = seq (lit (c ∷ phrase)) r in
    seq-timestamp s (32 ∷ x ∷ rest) (seq spaces tail) [] done stamp
    ∙ seq-spaces x rest tail [] done solid
    ∙ rw other refl

after-NoStatus :
    (s : Stamp) (x : ℕ) (rest : Text)
    → IsStamp s
    → NoStatus x
    → strip (after s x rest) ≡ after s x rest
    → is_status_line (after s x rest) ≡ false
unfolding is_status_line matches is_found device_selected_re device_status_re security_status_re
    end_status_re house_count_re strict_house_status_re lower_char folded
after-NoStatus s x rest stamp (solid, d, z, e, h) stripped =
    let none_of =
      λ (c : ℕ) (phrase : Text) (r : Regex). phrase-none s x c rest phrase r stamp solid in
    rw
      (
        stripped,
        none_of b'D' (text "evice selected") _ d,
        none_of b'D' (text "evice status") _ d,
        none_of b'S' (text "ecurity sensor status") _ z,
        none_of b'H' (text "ouse") _ h,
        none_of b'H' (text "ouse") _ h,
        none_of b'E' (text "nd status") _ e,
      )
      refl

-- An event's line, with the label and the middle of its kind.
abbrev pub event_line : Stamp → Direction → Bool → Text → Text → Text → Text
event_line s d radio label middle command = stamped s (
    32
    ∷ (direction_word d
        ++ (32
            ∷ (transport_word radio
                ++ (32 ∷ (label ++ (32 ∷ (middle ++ (32 ∷ (text "Func:" ++ (32 ∷ command)))))))))))

pub strip-event_line :
    (s : Stamp) (d : Direction) (radio : Bool) (label middle : Text) (c : ℕ) (command : Text)
    → IsStamp s
    → LastKept is_space (c ∷ command)
    → strip (event_line s d radio label middle (c ∷ command))
      ≡ event_line s d radio label middle (c ∷ command)
unfolding strip
strip-event_line s d radio label middle c command stamp last =
    let keep = LastKept-append is_space in
    let func = text "Func:" ++ (32 ∷ c ∷ command) in
    let tail = middle ++ (32 ∷ func) in
    let at_func = keep (text " Func: ") c command last in
    let at_middle = keep (32 ∷ middle) 32 func at_func in
    let at_label = keep (32 ∷ label) 32 tail at_middle in
    let at_transport = keep (32 ∷ transport_word radio) 32 (label ++ (32 ∷ tail)) at_label in
    let rest = transport_word radio ++ (32 ∷ (label ++ (32 ∷ tail))) in
    let at_direction = keep (32 ∷ direction_word d) 32 rest at_transport in
    strip_by_kept is_space _ (digit_is_not_space s.month stamp.0)
      (keep (stamped s []) 32 (direction_word d ++ (32 ∷ rest)) at_direction)

pub event_line-no_status :
    (s : Stamp) (d : Direction) (radio : Bool) (label middle : Text) (c : ℕ) (command : Text)
    → IsStamp s
    → LastKept is_space (c ∷ command)
    → is_status_line (event_line s d radio label middle (c ∷ command)) ≡ false
unfolding folded lower_char is_space
event_line-no_status s rx radio label middle c command stamp last =
    after-NoStatus s b'R' _ stamp (refl, refl, refl, refl, refl)
      (strip-event_line s rx radio label middle c command stamp last)
event_line-no_status s tx radio label middle c command stamp last =
    after-NoStatus s b'T' _ stamp (refl, refl, refl, refl, refl)
      (strip-event_line s tx radio label middle c command stamp last)

normal-address : (h : ℕ) (u : Text) → is_address (h ∷ u) ≡ true → normal (h ∷ u) ≡ h ∷ u
unfolding is_address match_unit strip upper_char
normal-address h [] good = absurd (ground arith)
normal-address h (d ∷ []) good =
    let letter : between b'A' b'P' h ≡ true = ground arith in
    let unit : between b'1' b'9' d ≡ true = ground arith in
    ap upper (
      strip_by_kept is_space (h ∷ d ∷ []) (letter_is_not_space h letter)
        (digit_is_not_space d (ground (arith, unit))))
    ∙ upper_of_IsUpper (h ∷ d ∷ []) (ground (arith, letter), (ground (arith, unit), tt))
normal-address h (d ∷ e ∷ []) good =
    let letter : between b'A' b'P' h ≡ true = ground arith in
    let one : d ≡ b'1' = (==_iff d b'1').0 (ground arith) in
    let unit : between b'0' b'6' e ≡ true = ground arith in
    ap upper (
      strip_by_kept is_space (h ∷ d ∷ e ∷ []) (letter_is_not_space h letter)
        (digit_is_not_space e (ground (arith, unit))))
    ∙ upper_of_IsUpper (h ∷ d ∷ e ∷ [])
        (ground (arith, letter), (ground (arith, one), (ground (arith, unit), tt)))
normal-address h (d ∷ e ∷ f ∷ u) good = absurd (ground arith)

pub transport_map-word :
    (radio : Bool)
    → transport_map (normalize_token (transport_word radio)) ≡ ok (transport_of radio)
unfolding transport_map normalize_token text_eq join words upper strip
transport_map-word true = refl
transport_map-word false = refl

pub direction_map-word : (d : Direction) → direction_map (normalize_token (direction_word d)) ≡ ok d
unfolding direction_map normalize_token text_eq join words upper strip
direction_map-word rx = refl
direction_map-word tx = refl

-- What the groups of a device's line become.
pub parse_device-groups :
    (d : Direction) (radio : Bool) (now : Time) (p : ProtocolParser) (h : ℕ) (u command : Text)
    → is_address (h ∷ u) ≡ true
    → parse_device now (groups d radio (text "address") (h ∷ u) command) p
      ≡ ok (
        some (
            device_event (record {
              timestamp = now;
              direction = d;
              transport = transport_of radio;
              command = command_map (normalize_token command);
              address = h ∷ u;
            })),
        record p { capabilities = record_transport (transport_of radio) p.capabilities },
      )
unfolding parse_device group_of text_eq direction_map transport_map
parse_device-groups d radio now p h u command address =
    rw
      (
        transport_map-word radio,
        direction_map-word d,
        normalize_address-eq (h ∷ u),
        normal-address h u address,
        address,
      )
      refl

-- A line of a device's event is read back: the time is the time of the call, the direction, the
-- transport and the address are those of the line, and the command is the one whose name the rest of
-- the line is up to letter case and white space, or unknown. The parser remembers the transport and is
-- not changed otherwise. The address is in capital letters; the rest of the line has no newline and
-- no white space at its ends.
pub parse_line-device_line :
    (now : Time) (p : ProtocolParser) (s : Stamp) (d : Direction) (radio : Bool) (h : ℕ) (u : Text)
    (c : ℕ) (command : Text)
    → IsStamp s
    → is_address (h ∷ u) ≡ true
    → is_space c ≡ false
    → LastKept is_space (c ∷ command)
    → IsLine (c ∷ command)
    → parse_line now (event_line s d radio (text "HouseUnit:") (h ∷ u) (c ∷ command)) p
      ≡ ok (
        some (
            device_event (record {
              timestamp = now;
              direction = d;
              transport = transport_of radio;
              command = command_map (normalize_token (c ∷ command));
              address = h ∷ u;
            })),
        record p { capabilities = record_transport (transport_of radio) p.capabilities },
      )
unfolding parse_line parse_stripped parse_event
parse_line-device_line now p s d radio h u c command stamp address starts last line =
    rw
      (
        strip-event_line s d radio (text "HouseUnit:") (h ∷ u) c command stamp last,
        event_line-no_status s d radio (text "HouseUnit:") (h ∷ u) c command stamp last,
        match-device_line s d radio h u c command stamp address starts line,
      )
      (parse_device-groups d radio now p h u (c ∷ command) address)
