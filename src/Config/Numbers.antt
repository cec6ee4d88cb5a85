-- ===== src/Config/Numbers.antt =====
-- config.py: numbers that are printed are read back, and the numbers that are read are in bounds.
use mochad_mqtt_bridge.Prelude.{
  ℕ, zero, suc, ◌+◌, ◌-◌, ◌*◌, ◌/◌, ◌%◌, ◌≤◌, ◌<◌, ◌≡◌, refl, ap, ◌∙◌, inl, inr, Bool, true, false,
  Option, none, some, [], ◌∷◌, arith, ltb, between, Bool-cases, All, ok,
}
use mochad_mqtt_bridge.Text.{Text, is_space, strip, HeadKept-All, LastKept-All, strip_by_kept}
use mochad_mqtt_bridge.Text.Decimal.{decimal, digits_from}
use mochad_mqtt_bridge.Config.Values.{
  ℤ, pos, negsuc, read_digits, read_sign, parse_int, in_bounds, parse_bounded_int,
}

abbrev IsDigit : ℕ → Type 0
IsDigit c = between b'0' b'9' c ≡ true

digits_from-IsDigit :
    (fuel n : ℕ) (acc : Text) → All IsDigit acc → All IsDigit (digits_from fuel n acc)
unfolding digits_from
digits_from-IsDigit zero n acc h = h
digits_from-IsDigit (suc fuel) n acc h =
    let digit : IsDigit (b'0' + n % 10) = ground arith in
    elim (Bool-cases (ltb n 10)) [
      | inl small ↦ rw small (digit, h)
      | inr more ↦ rw more (digits_from-IsDigit fuel (n / 10) _ (digit, h))
    ]

-- A digit is read on top of the number so far.
read_digit :
    (d : Bool) (m c : ℕ) (s : Text)
    → c < 10
    → read_digits d m ((b'0' + c) ∷ s) ≡ read_digits true (m * 10 + c) s
unfolding read_digits
read_digit d m c s h =
    let digit : IsDigit (b'0' + c) = ground arith in
    let value : b'0' + c - b'0' ≡ c = omega arith in rw (digit, value) refl

-- The printed number is read from its first digit on.
read-digits_from :
    (fuel n : ℕ) (d : Bool) (acc : Text)
    → n < fuel
    → read_digits d 0 (digits_from fuel n acc) ≡ read_digits true n acc
unfolding digits_from
read-digits_from zero n d acc h = elim h [ ]
read-digits_from (suc fuel) n d acc h = elim (Bool-cases (ltb n 10)) [
  | inl small ↦
      rw (small, read_digit d 0 (n % 10) acc (omega arith))
        (ap (λ k. read_digits true k acc) (ground arith))
  | inr more ↦
      rw
        (
          more,
          read-digits_from fuel (n / 10) d ((b'0' + n % 10) ∷ acc) (ground arith),
          read_digit true (n / 10) (n % 10) acc (omega arith),
        )
        (ap (λ k. read_digits true k acc) (omega arith))
]

digit_is_kept : (c : ℕ) → IsDigit c → is_space c ≡ false
unfolding is_space
digit_is_kept c h = ground arith

All-kept : (s : Text) → All IsDigit s → All (λ c. is_space c ≡ false) s
All-kept [] h = tt
All-kept (c ∷ s) h = (digit_is_kept c h.0, All-kept s h.1)

strip-digits : (s : Text) → All IsDigit s → strip s ≡ s
unfolding strip
strip-digits s h =
    strip_by_kept is_space s (HeadKept-All is_space s (All-kept s h))
      (LastKept-All is_space s (All-kept s h))

read_sign-digits :
    (s : Text) (n : ℕ) → All IsDigit s → read_digits false 0 s ≡ some n → read_sign s ≡ some (pos n)
unfolding read_sign
read_sign-digits [] n h e = absurd (unfold read_digits in cc e)
read_sign-digits (c ∷ s) n h e =
    let plus : ltb c b'0' ≡ false = ground (arith, h.0) in rw e (ground (arith, h.0))

strip-decimal : (n : ℕ) → strip (decimal n) ≡ decimal n
unfolding decimal
strip-decimal n = strip-digits _ (digits_from-IsDigit (suc (suc n)) n [] tt)

-- `int(str(n))` is `n`.
pub parse_int-decimal : (n : ℕ) → parse_int (decimal n) ≡ some (pos n)
unfolding parse_int decimal
parse_int-decimal n =
    let digits = digits_from-IsDigit (suc (suc n)) n [] tt in
    rw (strip-digits _ digits) (
      read_sign-digits _ n digits
        (read-digits_from (suc (suc n)) n false [] (omega arith) ∙ unfold read_digits in refl))

pub parse_bounded_int-decimal :
    (low high n : ℕ) → low ≤ n → n ≤ high → parse_bounded_int low high (decimal n) ≡ ok n
unfolding parse_bounded_int in_bounds
parse_bounded_int-decimal low high n h k = rw (strip-decimal n, parse_int-decimal n) (ground arith)

in_bounds_lem :
    (low high n : ℕ) (z : Option ℤ) → in_bounds low high z ≡ ok n → (low ≤ n) × (n ≤ high)
unfolding in_bounds
in_bounds_lem low high n none h = absurd (cc h)
in_bounds_lem low high n (some (negsuc k)) h = absurd (cc h)
in_bounds_lem low high n (some (pos k)) h = ground arith

pub parse_bounded_int_bounds :
    (low high n : ℕ) (value : Text)
    → parse_bounded_int low high value ≡ ok n
    → (low ≤ n) × (n ≤ high)
unfolding parse_bounded_int
parse_bounded_int_bounds low high n value h = in_bounds_lem low high n (parse_int (strip value)) h
