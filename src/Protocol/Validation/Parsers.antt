-- ===== src/Protocol/Validation/Parsers.antt =====
-- X10Address: what its parser accepts, and the round trips of the pairs of house and unit.
use mochad_mqtt_bridge.Prelude.{
  ℕ, ◌≡◌, refl, sym, ap, ◌∙◌, inl, inr, true, false, ◌&&◌, false≢true, [], ◌∷◌, arith, between,
  if◌then◌else◌, Bool-cases, value_error, Result, ok, raise, >>=-eq-ok, ok_injective,
}
use mochad_mqtt_bridge.Text.{Text, is_space, upper_char, upper, strip, strip_by_kept}
use mochad_mqtt_bridge.Text.Normal.{normal}
use mochad_mqtt_bridge.Text.Decimal.{int}
use mochad_mqtt_bridge.Protocol.Validation.{
  halves, is_house_letter, match_unit, match_house, normalize_house, normalize_address, X10Address,
  new_x10_address, x10_address_str, house_in_range, construct, match_upper_address,
  parse_x10_address, split_address, join_address,
}
use mochad_mqtt_bridge.Protocol.Validation.Addresses.{
  is_address, decimal-int, int_bounds, normalize_address-eq, normalize_address-eq-ok,
}

-- `str` of what is parsed.
abbrev pub printed : Result X10Address → Result Text
printed (ok x) = ok (x10_address_str x)
printed (raise e) = raise e

upper_house : (h : ℕ) → between b'A' b'P' h ≡ true → upper_char h ≡ h
unfolding upper_char
upper_house h in_range = ground arith

new_x10_address-printed :
    (h : ℕ) (u : Text)
    → between b'A' b'P' h ≡ true
    → match_unit u ≡ true
    → printed (new_x10_address (h ∷ []) (int u)) ≡ ok (h ∷ u)
unfolding new_x10_address house_in_range upper x10_address_str
new_x10_address-printed h u house unit =
    let (low, high) = int_bounds u unit in
    rw (upper_house h house) (ground (arith, house, low, high, decimal-int u unit))

construct-printed :
    (n : Text)
    → printed (construct (match_upper_address n))
      ≡ (if is_address n then ok n else raise value_error)
unfolding construct match_upper_address is_address
construct-printed [] = refl
construct-printed (h ∷ u) = elim (Bool-cases (between b'A' b'P' h && match_unit u)) [
  | inl good ↦ rw good (new_x10_address-printed h u (ground arith) (ground arith))
  | inr bad ↦ rw bad
]

-- Printing what `X10Address.parse` gives is `normalize_address`.
pub parse_x10_address-printed : (s : Text) → printed (parse_x10_address s) ≡ normalize_address s
unfolding parse_x10_address
parse_x10_address-printed s = construct-printed (normal s) ∙ sym (normalize_address-eq s)

strip_letter : (h : ℕ) → between b'A' b'P' h ≡ true → strip (h ∷ []) ≡ h ∷ []
unfolding strip is_space
strip_letter h in_range =
    let kept : is_space h ≡ false = ground (arith, in_range) in
    strip_by_kept is_space (h ∷ []) kept kept

letter_house : (h : ℕ) → between b'A' b'P' h ≡ true → normalize_house (h ∷ []) ≡ ok (h ∷ [])
unfolding normalize_house match_house upper is_house_letter
letter_house h in_range =
    rw (strip_letter h in_range, upper_house h in_range) (ground (arith, in_range))

join_halves :
    (a h : Text) (u : ℕ) → is_address a ≡ true → halves a ≡ ok (h, u) → join_address h u ≡ ok a
unfolding is_address join_address
join_halves [] h u good e = absurd (false≢true good)
join_halves (c ∷ w) h u good e =
    let (low, high) = int_bounds w (ground arith) in
    let parts : (c ∷ [], int w) ≡ (h, u) = ok_injective _ _ e in
    let house : c ∷ [] ≡ h = ap (λ p. p.0) parts in
    let unit : int w ≡ u = ap (λ p. p.1) parts in
    rw (← house, ← unit, letter_house c (ground arith))
      (ground (arith, low, high, decimal-int w (ground arith)))

-- Where `split_address` gives a house and a unit, joining them is normalising the address.
pub join_address-split_address :
    (s h : Text) (u : ℕ) → split_address s ≡ ok (h, u) → join_address h u ≡ normalize_address s
unfolding split_address
join_address-split_address s h u e =
    let (a, read, split) = >>=-eq-ok (normalize_address s) halves e in
    join_halves a h u (normalize_address-eq-ok s a read).0 split ∙ sym read
