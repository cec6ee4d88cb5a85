-- ===== src/Config/Values.antt =====
-- config.py: the texts of values, Python's `int` on a text, and the bounds of the configured numbers.
use mochad_mqtt_bridge.Prelude.{
  ℕ, ◌+◌, ◌-◌, ◌*◌, Bool, true, false, ◌&&◌, ◌||◌, Option, none, some, [], ◌∷◌, ltb, ◌==◌, between,
  if◌then◌else◌, config_error, Result, ok, raise,
}
use mochad_mqtt_bridge.Text.{Text, text, strip}
use mochad_mqtt_bridge.Text.Decimal.{decimal}
use mochad_mqtt_bridge.Models.Runtime.{Json, null, bool, str, num, arr, obj}

-- `negsuc n` is -(n + 1).
pub data ℤ : Type 0 where
  pos : ℕ → ℤ
  negsuc : ℕ → ℤ

-- The digits of `int(s)`, with single underscores between them, after the number read so far; `digit`
-- tells whether the character before was a digit.
unfoldable pub read_digits : Bool → ℕ → Text → Option ℕ
read_digits digit n [] = if digit then some n else none
read_digits digit n (c ∷ s) =
    let next = read_digits true (n * 10 + (c - b'0')) s in
    let after = read_digits false n s in
    if between b'0' b'9' c then next else if digit && c == b'_' then after else none

abbrev negative : Option ℕ → Option ℤ
negative none = none
negative (some n) = if n == 0 then some (pos 0) else some (negsuc (n - 1))

abbrev positive : Option ℕ → Option ℤ
positive none = none
positive (some n) = some (pos n)

-- the sign of `int(s)`
unfoldable pub read_sign : Text → Option ℤ
unfolding read_digits
read_sign [] = none
read_sign (c ∷ s) =
    if c == b'-'
    then negative (read_digits false 0 s)
    else if c == b'+'
    then positive (read_digits false 0 s)
    else positive (read_digits false 0 (c ∷ s))

-- `int(s)`, in base 10 and on ASCII digits; none for its `ValueError`
unfoldable pub parse_int : Text → Option ℤ
unfolding read_sign
parse_int s = read_sign (strip s)

-- the two tests of `_parse_bounded_int`
unfoldable pub in_bounds : ℕ → ℕ → Option ℤ → Result ℕ
in_bounds minimum maximum (some (pos n)) =
    if ltb n minimum || ltb maximum n then raise config_error else ok n
in_bounds minimum maximum _ = raise config_error

-- `_parse_bounded_int`, on the text of the value; both bounds are natural numbers
unfoldable pub parse_bounded_int : ℕ → ℕ → Text → Result ℕ
unfolding parse_int in_bounds
parse_bounded_int minimum maximum value = in_bounds minimum maximum (parse_int (strip value))

-- `_parse_command_repeats`
unfoldable pub parse_command_repeats : Text → Result ℕ
unfolding parse_bounded_int
parse_command_repeats value = parse_bounded_int 1 5 value

-- `_parse_command_repeat_delay_ms`
unfoldable pub parse_command_repeat_delay_ms : Text → Result ℕ
unfolding parse_bounded_int
parse_command_repeat_delay_ms value = parse_bounded_int 0 5000 value

-- `str(value)`; `repr` is its text of a list or a dict
unfoldable pub str_of : (Json → Text) → Json → Text
str_of repr null = text "None"
str_of repr (bool true) = text "True"
str_of repr (bool false) = text "False"
str_of repr (num n) = decimal n
str_of repr (str s) = s
str_of repr (arr items) = repr (arr items)
str_of repr (obj fields) = repr (obj fields)
