-- ===== src/Protocol/Validation/Addresses.antt =====
-- The addresses that protocol/validation.py accepts, and how it rewrites them.
use mochad_mqtt_bridge.Prelude.{
  ℕ, ◌≤◌, ◌≡◌, refl, sym, ap, ◌∙◌, ◌↔◌, inl, inr, Bool, true, false, ◌&&◌, ◌||◌, false≢true, [],
  ◌∷◌, arith, ltb, ◌==◌, between, if◌then◌else◌, ==_iff, Bool-cases, tests_below, tests_below_lem,
  value_error, ok, raise,
}
use mochad_mqtt_bridge.Text.{upper_char}
use mochad_mqtt_bridge.Text.{Text, strip}
use mochad_mqtt_bridge.Text.Decimal.{
  int, decimal, decimal-int_one, decimal-int_two, int_one, int_two,
}
use mochad_mqtt_bridge.Text.Normal.{normal, IsUpper, upper-IsUpper}
use mochad_mqtt_bridge.Protocol.Validation.{
  is_house_letter, match_unit, match_address, rebuild, normalize_address,
}

-- A house code A to P and a unit 1 to 16, printed in decimal.
pub record IsAddress (a : Text) : Type 0 where
  pub house : ℕ
  pub unit : ℕ
  pub house_low : b'A' ≤ house
  pub house_high : house ≤ b'P'
  pub unit_low : 1 ≤ unit
  pub unit_high : unit ≤ 16
  pub printed : a ≡ house ∷ decimal unit

-- The same as a test on the text.
unfoldable pub is_address : Text → Bool
unfolding match_unit
is_address [] = false
is_address (h ∷ u) = between b'A' b'P' h && match_unit u

pub decimal-int : (u : Text) → match_unit u ≡ true → decimal (int u) ≡ u
unfolding match_unit
decimal-int [] h = absurd (false≢true h)
decimal-int (d ∷ []) h = decimal-int_one d h
decimal-int (d ∷ e ∷ []) h =
    let ten : d ≡ b'1' = ground arith in rw ten (decimal-int_two e (ground arith))
decimal-int (d ∷ e ∷ f ∷ u) h = absurd (false≢true h)

pub int_bounds : (u : Text) → match_unit u ≡ true → (1 ≤ int u) × (int u ≤ 16)
unfolding match_unit
int_bounds [] h = absurd (false≢true h)
int_bounds (d ∷ []) h = omega (arith, int_one d h)
int_bounds (d ∷ e ∷ []) h =
    let ten : d ≡ b'1' = ground arith in rw ten (omega (arith, int_two e (ground arith)))
int_bounds (d ∷ e ∷ f ∷ u) h = absurd (false≢true h)

rebuild-match_address :
    (a : Text)
    → IsUpper a
    → rebuild (match_address a) ≡ (if is_address a then ok a else raise value_error)
unfolding rebuild match_address is_address is_house_letter upper_char
rebuild-match_address [] h = refl
rebuild-match_address (c ∷ u) h = elim (Bool-cases (match_unit u)) [
  | inl good ↦ ground (arith, decimal-int u good, h.0)
  | inr bad ↦ ground arith
]

-- The whole of `normalize_address`: strip and upper-case, then keep what is an address.
pub normalize_address-eq :
    (s : Text)
    → normalize_address s ≡ (if is_address (normal s) then ok (normal s) else raise value_error)
unfolding normalize_address
normalize_address-eq s = rebuild-match_address (normal s) (upper-IsUpper (strip s))

pub normalize_address-eq-ok :
    (s a : Text) → normalize_address s ≡ ok a → (is_address a ≡ true) × (normal s ≡ a)
normalize_address-eq-ok s a h =
    let e : (if is_address (normal s) then ok (normal s) else raise value_error) ≡ ok a =
      sym (normalize_address-eq s) ∙ h in
    elim (Bool-cases (is_address (normal s))) [
      | inl good ↦ let same : normal s ≡ a = ground arith in (rw (← same) good, same)
      | inr bad ↦ absurd (cc (ap (λ b. if b then ok (normal s) else raise value_error) bad))
    ]

unit_table :
    tests_below (λ u. ltb u 1 || (match_unit (decimal u) && int (decimal u) == u)) 17 ≡ true
unfolding match_unit decimal int tests_below
unit_table = refl

-- A unit number is printed as a text that is read back as the same unit number.
pub decimal_unit :
    (u : ℕ) → 1 ≤ u → u ≤ 16 → (match_unit (decimal u) ≡ true) × (int (decimal u) ≡ u)
decimal_unit u low high =
    let entry = tests_below_lem _ 17 u (omega arith) unit_table in
    (ground arith, (==_iff _ _).0 (ground arith))

pub is_address-IsAddress : (a : Text) → is_address a ≡ true → IsAddress a
unfolding is_address
is_address-IsAddress [] h = absurd (false≢true h)
is_address-IsAddress (c ∷ u) h =
    let good : match_unit u ≡ true = ground arith in
    let (low, high) = int_bounds u good in
    record {
      house = c;
      unit = int u;
      house_low = ground arith;
      house_high = ground arith;
      unit_low = low;
      unit_high = high;
      printed = ap (◌∷◌ c) (sym (decimal-int u good));
    }

pub IsAddress-is_address : (a : Text) → IsAddress a → is_address a ≡ true
unfolding is_address
IsAddress-is_address a v =
    rw v.printed
      (ground (arith, v.house_low, v.house_high, (decimal_unit v.unit v.unit_low v.unit_high).0))

-- An accepted text is returned as its stripped, upper-cased form, which is a house letter A to P
-- followed by a unit 1 to 16 in decimal; and every text with such a form is accepted.
pub normalize_address_iff :
    (s a : Text) → (normalize_address s ≡ ok a) ↔ (IsAddress a × (normal s ≡ a))
normalize_address_iff s a = (
  λ h. let (good, same) = normalize_address-eq-ok s a h in (is_address-IsAddress a good, same),
  λ h. rw (normalize_address-eq s, h.1, IsAddress-is_address a h.0),
)
