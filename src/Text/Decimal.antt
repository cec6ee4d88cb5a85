-- ===== src/Text/Decimal.antt =====
-- Decimal numerals: `int(s)` on ASCII digits and `str(n)`, as f-strings print an `int`.
use mochad_mqtt_bridge.Prelude.{
  ℕ, zero, suc, ◌+◌, ◌-◌, ◌*◌, ◌/◌, ◌%◌, ◌≤◌, ◌≡◌, true, [], ◌∷◌, arith, ltb, between,
  if◌then◌else◌,
}
use mochad_mqtt_bridge.Text.Equality.{Text}

int_from : ℕ → Text → ℕ
int_from n [] = n
int_from n (c ∷ s) = int_from (n * 10 + (c - b'0')) s

-- `int(s)`, for a text of ASCII digits
unfoldable pub int : Text → ℕ
unfolding int_from
int s = int_from 0 s

unfoldable pub digits_from : ℕ → ℕ → Text → Text
digits_from zero n acc = acc
digits_from (suc fuel) n acc =
    let digit = (b'0' + n % 10) ∷ acc in
    let rest = digits_from fuel (n / 10) digit in if ltb n 10 then digit else rest

-- `str(n)`; a number has at most `n + 1` digits, which is the fuel
unfoldable pub decimal : ℕ → Text
unfolding digits_from
decimal n = digits_from (suc (suc n)) n []

-- One digit is printed as it is read.
pub decimal-int_one : (d : ℕ) → between b'1' b'9' d ≡ true → decimal (int (d ∷ [])) ≡ d ∷ []
unfolding decimal int
decimal-int_one d h = ground arith

pub decimal-int_two :
    (d : ℕ) → between b'0' b'6' d ≡ true → decimal (int (b'1' ∷ d ∷ [])) ≡ b'1' ∷ d ∷ []
unfolding decimal int
decimal-int_two d h = ground arith

pub int_one : (d : ℕ) → between b'1' b'9' d ≡ true → (1 ≤ int (d ∷ [])) × (int (d ∷ []) ≤ 9)
unfolding int
int_one d h = ground arith

pub int_two :
    (d : ℕ) → between b'0' b'6' d ≡ true → (10 ≤ int (b'1' ∷ d ∷ [])) × (int (b'1' ∷ d ∷ []) ≤ 16)
unfolding int
int_two d h = ground arith
