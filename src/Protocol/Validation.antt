-- ===== src/Protocol/Validation.antt =====
-- protocol/validation.py, and X10Address of models.py.
pub mod Addresses
pub mod Parsers
mod Tests
use mochad_mqtt_bridge.Prelude.{
  ℕ, Bool, true, false, not, ◌&&◌, ◌||◌, Option, none, some, [], ◌∷◌, ◌++◌, ltb, ◌==◌, between,
  if◌then◌else◌, value_error, Result, ok, raise, ◌>>=◌,
}
use mochad_mqtt_bridge.Text.{Text, text, upper, strip, join, words}
use mochad_mqtt_bridge.Text.Decimal.{int, decimal}

-- HOUSE_RE: one letter of [A-Pa-p]
is_house_letter : ℕ → Bool
is_house_letter c = between b'A' b'P' c || between b'a' b'p' c

-- `HOUSE_RE.fullmatch(s)`
match_house : Text → Bool
unfolding is_house_letter
match_house (c ∷ []) = is_house_letter c
match_house _ = false

-- the group `unit` of ADDRESS_RE, (?:[1-9]|1[0-6])
unfoldable pub match_unit : Text → Bool
match_unit (d ∷ []) = between b'1' b'9' d
match_unit (d ∷ e ∷ []) = d == b'1' && between b'0' b'6' e
match_unit _ = false

-- `ADDRESS_RE.fullmatch(s)`, with its groups `house` and `unit`
unfoldable pub match_address : Text → Option (ℕ × Text)
unfolding is_house_letter match_unit
match_address [] = none
match_address (h ∷ u) = if is_house_letter h && match_unit u then some (h, u) else none

unfoldable pub normalize_house : Text → Result Text
unfolding match_house
normalize_house house =
    let house = upper (strip house) in if match_house house then ok house else raise value_error

-- what `normalize_address` does with the match
rebuild : Option (ℕ × Text) → Result Text
rebuild none = raise value_error
rebuild (some (house, unit)) = ok (house ∷ decimal (int unit))

unfoldable pub normalize_address : Text → Result Text
unfolding rebuild match_address
normalize_address address = rebuild (match_address (upper (strip address)))

-- `try: …; return True; except ValueError: return False`
abbrev succeeds {ℓ} : {A : Type ℓ} → Result A → Bool
succeeds (ok a) = true
succeeds (raise e) = false

unfoldable pub is_valid_house : Text → Bool
unfolding normalize_house
is_valid_house house = succeeds (normalize_house house)

unfoldable pub is_valid_address : Text → Bool
unfolding normalize_address
is_valid_address address = succeeds (normalize_address address)

-- `(address[0], int(address[1:]))`
abbrev halves : Text → Result (Text × ℕ)
halves [] = raise value_error
halves (h ∷ u) = ok (h ∷ [], int u)

unfoldable pub split_address : Text → Result (Text × ℕ)
unfolding normalize_address
split_address address = do address ← normalize_address address; halves address

unfoldable pub join_address : Text → ℕ → Result Text
unfolding normalize_house
join_address house unit = do
  house ← normalize_house house
  if ltb unit 1 || ltb 16 unit then raise value_error else ok (house ++ decimal unit)

unfoldable pub normalize_token : Text → Text
normalize_token value = join (text " ") (words (upper (strip value)))

pub record X10Address : Type 0 where
  pub house : Text
  pub unit : ℕ

-- `len(self.house) != 1` and the bounds on the letter, after `upper`
house_in_range : Text → Bool
house_in_range (c ∷ []) = not (ltb c b'A' || ltb b'P' c)
house_in_range _ = false

-- X10Address.__post_init__
unfoldable pub new_x10_address : Text → ℕ → Result X10Address
unfolding house_in_range
new_x10_address house unit =
    let house = upper house in
    if house_in_range house
    then (if ltb unit 1 || ltb 16 unit
        then raise value_error
        else ok (record { house = house; unit = unit }))
    else raise value_error

-- X10Address.__str__
unfoldable pub x10_address_str : X10Address → Text
x10_address_str a = a.house ++ decimal a.unit

-- `re.fullmatch(r"(?P<house>[A-P])(?P<unit>[1-9]|1[0-6])", value)`
match_upper_address : Text → Option (Text × Text)
unfolding match_unit
match_upper_address [] = none
match_upper_address (h ∷ u) = if between b'A' b'P' h && match_unit u then some (h ∷ [], u) else none

construct : Option (Text × Text) → Result X10Address
construct none = raise value_error
construct (some (house, unit)) = new_x10_address house (int unit)

-- X10Address.parse
unfoldable pub parse_x10_address : Text → Result X10Address
unfolding match_upper_address construct new_x10_address
parse_x10_address value = construct (match_upper_address (upper (strip value)))
