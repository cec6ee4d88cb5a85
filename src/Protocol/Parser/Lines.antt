-- ===== src/Protocol/Parser/Lines.antt =====
-- protocol/parser.py: the lines of events, written and read.
use mochad_mqtt_bridge.Prelude.{
  ℕ, ◌≡◌, refl, ap, ◌∙◌, Bool, true, false, Option, some, [], ◌∷◌, ◌++◌, arith, ◌==◌, between,
  ==_iff,
}
use mochad_mqtt_bridge.Protocol.Regex.Patterns.{folded, is_any_house}
use mochad_mqtt_bridge.Protocol.Regex.Steps.{capital-any_house}
use mochad_mqtt_bridge.Text.{Text, text, is_space, lower_char}
use mochad_mqtt_bridge.Models.Enums.{Direction, rx, tx, Transport}
use mochad_mqtt_bridge.Protocol.Validation.{match_unit}
use mochad_mqtt_bridge.Protocol.Validation.Addresses.{is_address}
use mochad_mqtt_bridge.Protocol.Regex.Search.{
  at_end, seq, group, Regex, Groups, Rest, match, run, greedy, first_char, or_else,
}
use mochad_mqtt_bridge.Protocol.Regex.Language.{taken-append}
use mochad_mqtt_bridge.Protocol.Regex.Patterns.{
  some_text, lit, address_pattern, spaces, direction_pattern, transport_pattern, device_event_re,
  all,
}
use mochad_mqtt_bridge.Protocol.Regex.Steps.{
  seq-lit, seq-spaces, seq-timestamp, or_else-none, Stamp, IsStamp, stamped, IsLine, run-command,
  digit_is_not_space,
}

-- the words of mochad's lines
abbrev pub direction_word : Direction → Text
direction_word tx = text "Tx"
direction_word rx = text "Rx"

abbrev pub transport_word : Bool → Text
transport_word true = text "RF"
transport_word false = text "PL"

abbrev pub transport_of : Bool → Transport
transport_of true = Transport.rf
transport_of false = Transport.pl

-- the line of a device's event, for the letter and the digits of its address
abbrev pub device_line : Stamp → Direction → Bool → Text → Text → Text
device_line s d radio address command = stamped s (
    32
    ∷ (direction_word d
        ++ (32
            ∷ (transport_word radio
                ++ (text " HouseUnit: " ++ (address ++ (text " Func: " ++ command)))))))

abbrev pub groups : Direction → Bool → Text → Text → Text → Groups
groups d radio name middle command =
    (text "command", command)
    ∷ (name, middle)
    ∷ (text "transport", transport_word radio)
    ∷ (text "direction", direction_word d)
    ∷ []

-- the parts of the patterns of events
abbrev pub words_pattern : Regex → Regex
words_pattern rest = seq spaces (
    seq (group (text "direction") direction_pattern)
      (seq spaces (seq (group (text "transport") transport_pattern) (seq spaces rest))))

abbrev pub func_pattern : Regex
func_pattern =
    seq spaces
      (seq (lit (text "Func:")) (seq spaces (all (group (text "command") some_text ∷ at_end ∷ []))))

abbrev pub tail_pattern : Text → Regex → Regex
tail_pattern label r = seq (lit label) (seq spaces (seq r func_pattern))

-- the end of a match
abbrev pub done : Rest
done t g = some g

abbrev pub func_text : Text → Text
func_text command = 32 ∷ (text "Func:" ++ (32 ∷ command))

-- The direction and the transport are read in one way.
pub run-words :
    (d : Direction) (radio : Bool) (c : ℕ) (s : Text) (rest : Regex) (g : Groups) (k : Rest)
    → is_space c ≡ false
    → run
        (words_pattern rest)
        (32 ∷ (direction_word d ++ (32 ∷ (transport_word radio ++ (32 ∷ c ∷ s)))))
        g
        k
      ≡ run rest
          (c ∷ s)
          ((text "transport", transport_word radio) ∷ (text "direction", direction_word d) ∷ g)
          k
unfolding run greedy first_char is_space lower_char folded or_else
run-words rx true c s rest g k h =
    rw
      (
        h,
        or_else-none,
        taken-append (text "RF") (32 ∷ c ∷ s),
        taken-append (text "Rx") (32 ∷ (text "RF" ++ (32 ∷ c ∷ s))),
      )
      refl
run-words rx false c s rest g k h =
    rw
      (
        h,
        taken-append (text "PL") (32 ∷ c ∷ s),
        taken-append (text "Rx") (32 ∷ (text "PL" ++ (32 ∷ c ∷ s))),
      )
      refl
run-words tx true c s rest g k h =
    rw
      (
        h,
        or_else-none,
        or_else-none,
        taken-append (text "RF") (32 ∷ c ∷ s),
        taken-append (text "Tx") (32 ∷ (text "RF" ++ (32 ∷ c ∷ s))),
      )
      refl
run-words tx false c s rest g k h =
    rw
      (
        h,
        or_else-none,
        taken-append (text "PL") (32 ∷ c ∷ s),
        taken-append (text "Tx") (32 ∷ (text "PL" ++ (32 ∷ c ∷ s))),
      )
      refl

or_else-found : (a b : Option Groups) (g : Groups) → a ≡ some g → or_else a b ≡ some g
unfolding or_else
or_else-found a b g h = rw h refl

-- The address is read in front of a space.
run-address :
    (h : ℕ) (u s : Text) (rest : Regex) (g a : Groups) (k : Rest)
    → is_address (h ∷ u) ≡ true
    → run (seq spaces rest) (32 ∷ s) ((text "address", h ∷ u) ∷ g) k ≡ some a
    → run (seq (group (text "address") address_pattern) (seq spaces rest)) (h ∷ (u ++ 32 ∷ s)) g k
      ≡ some a
unfolding run first_char is_address match_unit
run-address h [] s rest g a k good next = absurd (ground arith)
run-address h (d ∷ []) s rest g a k good next =
    let letter : is_any_house h ≡ true = capital-any_house h (ground arith) in
    let unit : between b'1' b'9' d ≡ true = ground arith in
    rw (letter, unit, taken-append (h ∷ d ∷ []) (32 ∷ s)) (or_else-found _ _ a next)
run-address h (d ∷ e ∷ []) s rest g a k good next =
    let letter : is_any_house h ≡ true = capital-any_house h (ground arith) in
    let one : d ≡ b'1' = (==_iff d b'1').0 (ground arith) in
    let unit : between b'1' b'9' d ≡ true = ground (arith, one) in
    let same : (folded d == folded b'1') ≡ true =
      (==_iff (folded d) (folded b'1')).1 (ap folded one) in
    let second : between b'0' b'6' e ≡ true = ground arith in
    let solid : is_space e ≡ false = digit_is_not_space e (ground (arith, second)) in
    rw (letter, unit, solid, same, second, taken-append (h ∷ d ∷ e ∷ []) (32 ∷ s)) next
run-address h (d ∷ e ∷ f ∷ u) s rest g a k good next = absurd (ground arith)

-- The end of an event's line.
pub run-func :
    (c : ℕ) (command : Text) (g : Groups)
    → is_space c ≡ false
    → IsLine (c ∷ command)
    → run func_pattern (func_text (c ∷ command)) g done ≡ some ((text "command", c ∷ command) ∷ g)
unfolding is_space
run-func c command g starts line =
    seq-spaces b'F' (text "unc:" ++ (32 ∷ c ∷ command)) _ g _ refl
    ∙ seq-lit (text "Func:") (32 ∷ c ∷ command) _ g _
    ∙ seq-spaces c command _ g _ starts
    ∙ run-command c command g done line

pub letter_is_not_space : (h : ℕ) → between b'A' b'P' h ≡ true → is_space h ≡ false
unfolding is_space
letter_is_not_space h e = ground arith

-- Everything after the words of a device's line.
device_line-tail :
    (h : ℕ) (u : Text) (c : ℕ) (command : Text) (g : Groups)
    → is_address (h ∷ u) ≡ true
    → is_space c ≡ false
    → IsLine (c ∷ command)
    → run
        (tail_pattern (text "HouseUnit:") (group (text "address") address_pattern))
        (text "HouseUnit:" ++ (32 ∷ h ∷ (u ++ func_text (c ∷ command))))
        g
        done
      ≡ some ((text "command", c ∷ command) ∷ (text "address", h ∷ u) ∷ g)
unfolding is_address
device_line-tail h u c command g good starts line =
    seq-lit (text "HouseUnit:") _ _ g _
    ∙ seq-spaces h _ _ g _ (letter_is_not_space h (ground arith))
    ∙ run-address h u _ _ g _ _ good (run-func c command ((text "address", h ∷ u) ∷ g) starts line)

pub match-device_line :
    (s : Stamp) (d : Direction) (radio : Bool) (h : ℕ) (u : Text) (c : ℕ) (command : Text)
    → IsStamp s
    → is_address (h ∷ u) ≡ true
    → is_space c ≡ false
    → IsLine (c ∷ command)
    → match device_event_re (device_line s d radio (h ∷ u) (c ∷ command))
      ≡ some (groups d radio (text "address") (h ∷ u) (c ∷ command))
unfolding match device_event_re is_space
match-device_line s d radio h u c command stamp address starts line =
    let tail = tail_pattern (text "HouseUnit:") (group (text "address") address_pattern) in
    let end : Text = h ∷ (u ++ func_text (c ∷ command)) in
    seq-timestamp s _ (words_pattern tail) [] done stamp
    ∙ run-words d radio b'H' (text "ouseUnit:" ++ (32 ∷ end)) tail [] done refl
    ∙ device_line-tail h u c command _ address starts line
