-- ===== src/Protocol/Regex/Patterns.antt =====
-- protocol/regex.py: the patterns of mochad's lines. All carry the flag IGNORECASE.
use mochad_mqtt_bridge.Prelude.{ℕ, Bool, not, ◌||◌, if◌then◌else◌, List, [], ◌∷◌, ◌==◌, between}
use mochad_mqtt_bridge.Text.{Text, text, is_space, lower_char}
use mochad_mqtt_bridge.Protocol.Regex.Search.{
  Regex, empty, at_end, char, seq, alt, star, lazy, group,
}

abbrev pub all : List Regex → Regex
all [] = empty
all (r ∷ rs) = seq r (all rs)

abbrev pub plus : Regex → Regex
plus r = seq r (star r)

-- The letters beyond ASCII that IGNORECASE takes for an ASCII letter: U+212A for k, U+0130 and U+0131
-- for i, and U+017F for s.
unfoldable pub folded : ℕ → ℕ
unfolding lower_char
folded c =
    if c == 8490
    then b'k'
    else if c == 304 || c == 305
    then b'i'
    else if c == 383
    then b's'
    else lower_char c

-- a character in either case
abbrev pub either_case : ℕ → ℕ → Bool
either_case c d = folded d == folded c

abbrev pub lit : Text → Regex
lit [] = empty
lit (c ∷ s) = seq (char (either_case c)) (lit s)

-- \s+
abbrev pub spaces : Regex
spaces = plus (char is_space)

abbrev pub digit : Regex
digit = char (between b'0' b'9')

-- the characters beyond ASCII that [A-P] takes under IGNORECASE and `upper` leaves as they are
abbrev pub is_folded_house : ℕ → Bool
is_folded_house c = c == 8490 || c == 304

-- [A-P], under IGNORECASE
unfoldable pub is_any_house : ℕ → Bool
is_any_house c = between b'A' b'P' c || (between b'a' b'p' c || (is_folded_house c || c == 305))

abbrev pub house_letter : Regex
house_letter = char is_any_house

-- (?:[1-9]|1[0-6])
abbrev pub unit_number : Regex
unit_number =
    alt (char (between b'1' b'9')) (seq (char (either_case b'1')) (char (between b'0' b'6')))

abbrev pub two_digits : Regex
two_digits = seq digit digit

-- TIMESTAMP
unfoldable pub timestamp_pattern : Regex
timestamp_pattern = all (
    two_digits
    ∷ lit (text "/")
    ∷ two_digits
    ∷ spaces
    ∷ two_digits
    ∷ lit (text ":")
    ∷ two_digits
    ∷ lit (text ":")
    ∷ two_digits
    ∷ [])

-- ADDRESS
abbrev pub address_pattern : Regex
address_pattern = seq house_letter unit_number

abbrev pub direction_pattern : Regex
direction_pattern = alt (lit (text "Tx")) (lit (text "Rx"))

abbrev pub transport_pattern : Regex
transport_pattern = alt (lit (text "RF")) (lit (text "PL"))

-- `.+?`
abbrev pub some_text : Regex
some_text = seq (char (λ c. not (c == 10))) (lazy (char (λ c. not (c == 10))))

-- what DEVICE_EVENT_RE and HOUSE_EVENT_RE have in common: the label and the group in the middle
abbrev pub event_pattern : Text → Text → Regex → Regex
event_pattern label name middle = all (
    timestamp_pattern
    ∷ spaces
    ∷ group (text "direction") direction_pattern
    ∷ spaces
    ∷ group (text "transport") transport_pattern
    ∷ spaces
    ∷ lit label
    ∷ spaces
    ∷ group name middle
    ∷ spaces
    ∷ lit (text "Func:")
    ∷ spaces
    ∷ group (text "command") some_text
    ∷ at_end
    ∷ [])

unfoldable pub device_event_re : Regex
device_event_re = event_pattern (text "HouseUnit:") (text "address") address_pattern

unfoldable pub house_event_re : Regex
house_event_re = event_pattern (text "House:") (text "house") house_letter

-- a timestamp and a phrase, the whole line
abbrev pub phrase_pattern : Text → Regex
phrase_pattern phrase = all (timestamp_pattern ∷ spaces ∷ lit phrase ∷ at_end ∷ [])

unfoldable pub device_selected_re : Regex
device_selected_re = phrase_pattern (text "Device selected")

unfoldable pub device_status_re : Regex
device_status_re = phrase_pattern (text "Device status")

unfoldable pub security_status_re : Regex
security_status_re = phrase_pattern (text "Security sensor status")

unfoldable pub end_status_re : Regex
end_status_re = phrase_pattern (text "End status")

-- a timestamp, a house and what is said of it
abbrev pub house_pattern : Regex → Regex
house_pattern r = all (
    timestamp_pattern
    ∷ spaces
    ∷ lit (text "House")
    ∷ spaces
    ∷ group (text "house") house_letter
    ∷ lit (text ":")
    ∷ spaces
    ∷ r
    ∷ at_end
    ∷ [])

unfoldable pub house_count_re : Regex
house_count_re = house_pattern (group (text "count") (plus digit))

-- one entry of a house's status
abbrev pub entry_pattern : Regex
entry_pattern = all (
    unit_number
    ∷ star (char is_space)
    ∷ lit (text "=")
    ∷ star (char is_space)
    ∷ char (between b'0' b'1')
    ∷ [])

unfoldable pub strict_house_status_re : Regex
strict_house_status_re = house_pattern (
    group (text "devices") (
      seq entry_pattern (
        star (
          all
            (star (char is_space) ∷ lit (text ",") ∷ star (char is_space) ∷ entry_pattern ∷ [])))))
