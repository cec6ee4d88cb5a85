-- ===== src/Config/Housecodes.antt =====
-- config.py: `parse_housecodes`. A set of house codes is the text of its members, without repetition;
-- the source sorts it only to build a frozenset.
pub mod Members
mod Tests
use mochad_mqtt_bridge.Prelude.{
  ℕ, zero, suc, ◌+◌, ◌-◌, ◌*◌, ◌/◌, ◌%◌, ◌≤◌, ◌<◌, String, ◌≡◌, refl, sym, ap, ◌∙◌, subst, fun_ext,
  ◌≢◌, ◌↔◌, ◌⊎◌, inl, inr, Bool, true, false, not, ◌&&◌, ◌||◌, false≢true, Option, none, some, List,
  [], ◌∷◌, ◌++◌, map, reverse, append-nil, append_assoc, arith, ltb, leb, ◌==◌, between,
  if◌then◌else◌, ==_iff, ltb→lt, lt→ltb, leb→le, Bool-cases, tests_below, tests_below_lem,
  Option-cases, length, replicate, length-append, All, All-append, Exception, value_error,
  topic_error, config_error, connection_error, os_error, type_error, key_error, Result, ok, raise,
  ◌>>=◌, >>=-eq-ok, ok_injective,
}
use mochad_mqtt_bridge.Text.{
  Text, text, text_eq, text_eq_sound, text_eq_refl, text_eq_iff, contains_text, starts_with,
  is_space, upper_char, lower_char, upper, lower, lstrip_by, rstrip_by, strip_by, strip, strip_char,
  HeadKept, LastKept, strip_by-HeadKept, strip_by-LastKept, strip_by_kept, strip_by_idem,
  HeadKept-All, LastKept-All, split_at, split_at-piece, cons_head, join, words_from, words, Free,
  split_at-join,
}
use mochad_mqtt_bridge.Text.Normal.{normal}
use mochad_mqtt_bridge.Topics.{has_char}
use mochad_mqtt_bridge.Protocol.Regex.Patterns.{is_any_house}

-- `HOUSE_CODE_RE.fullmatch`, on one character
unfoldable pub is_house_code : ℕ → Bool
unfolding is_any_house
is_house_code c = is_any_house c

-- `set.add`
unfoldable pub add : ℕ → Text → Text
unfolding has_char
add c codes = if has_char c codes then codes else codes ++ c ∷ []

-- `set.update` with the n code points from `start` on
unfoldable pub update : ℕ → ℕ → Text → Text
unfolding add
update start zero codes = codes
update start (suc n) codes = update (start + 1) n (add start codes)

-- the tests of `_parse_housecode_range` on the two stripped ends
range_ends : Text → Text → Result (ℕ × ℕ)
unfolding is_house_code
range_ends (a ∷ []) (b ∷ []) =
    if not (is_house_code a) || (not (is_house_code b) || ltb b a)
    then raise config_error
    else ok (a, b)
range_ends _ _ = raise config_error

range_parts : List Text → Result (ℕ × ℕ)
unfolding range_ends
range_parts (a ∷ b ∷ []) = range_ends (strip a) (strip b)
range_parts _ = raise config_error

-- `_parse_housecode_range`
unfoldable pub parse_housecode_range : Text → Result (ℕ × ℕ)
unfolding range_parts
parse_housecode_range value = range_parts (split_at b'-' value)

-- the loop over the characters of a part
unfoldable pub add_characters : Text → Text → Result Text
unfolding is_house_code add
add_characters [] codes = ok codes
add_characters (c ∷ part) codes =
    let rest = add_characters part (add c codes) in
    if not (is_house_code c) then raise config_error else rest

-- the codes of a range, both ends included
abbrev pub add_range : Text → ℕ × ℕ → Result Text
add_range codes (first, last) = ok (update first ((last + 1) - first) codes)

unfoldable pub add_part : Text → Text → Result Text
unfolding parse_housecode_range update add_characters has_char
add_part part codes =
    if has_char b'-' part
    then parse_housecode_range part >>= add_range codes
    else add_characters part codes

-- the loop over the parts, which skips those that are empty
unfoldable pub add_parts : List Text → Text → Result Text
unfolding add_part
add_parts [] codes = ok codes
add_parts ([] ∷ parts) codes = add_parts parts codes
add_parts ((c ∷ part) ∷ parts) codes = add_part (c ∷ part) codes >>= add_parts parts

abbrev is_separator : ℕ → Bool
is_separator c = is_space c || c == b','

-- `re.split(r"[\s,]+", value)`, but for the empty parts inside a run of separators, which the loop
-- over the parts skips as it skips the empty ones at the ends
unfoldable pub parts_of : Text → List Text
parts_of [] = [] ∷ []
parts_of (c ∷ s) = let rest = parts_of s in if is_separator c then [] ∷ rest else cons_head c rest

unless_none : Text → Option Text
unless_none [] = none
unless_none (c ∷ codes) = some (c ∷ codes)

-- the value that is not one of the words for all codes
parse_value : Text → Result (Option Text)
unfolding add_parts parts_of unless_none
parse_value value =
    if contains_text value (text "*" ∷ text "A-P" ∷ text "A...P" ∷ [])
    then ok none
    else add_parts (parts_of value) [] >>= λ codes. ok (unless_none codes)

unfoldable pub parse_housecodes : Option Text → Result (Option Text)
unfolding parse_value
parse_housecodes none = ok none
parse_housecodes (some []) = ok none
parse_housecodes (some (c ∷ raw)) = parse_value (upper (strip (c ∷ raw)))
