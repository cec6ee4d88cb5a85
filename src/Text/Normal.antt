-- ===== src/Text/Normal.antt =====
-- Letter case and stripping together: `s.strip().upper()` is a normal form.
use mochad_mqtt_bridge.Prelude.{
  ℕ, ◌-◌, ◌≡◌, refl, sym, ◌∙◌, inl, inr, true, false, [], ◌∷◌, arith, between, Bool-cases, All,
}
use mochad_mqtt_bridge.Text.Equality.{Text}
use mochad_mqtt_bridge.Text.Strip.{
  is_space, upper_char, upper, strip, HeadKept, LastKept, strip_by-HeadKept, strip_by-LastKept,
  strip_by_kept,
}

abbrev pub IsUpper : Text → Type 0
IsUpper s = All (λ c. upper_char c ≡ c) s

-- `s.strip().upper()`
abbrev pub normal : Text → Text
normal s = upper (strip s)

upper_char_idem : (c : ℕ) → upper_char (upper_char c) ≡ upper_char c
unfolding upper_char
upper_char_idem c = ground arith

pub upper-IsUpper : (s : Text) → IsUpper (upper s)
unfolding upper
upper-IsUpper [] = tt
upper-IsUpper (c ∷ s) = (upper_char_idem c, upper-IsUpper s)

pub upper_of_IsUpper : (s : Text) → IsUpper s → upper s ≡ s
unfolding upper
upper_of_IsUpper [] h = refl
upper_of_IsUpper (c ∷ s) h = rw (h.0, upper_of_IsUpper s h.1) refl

lower_is_not_space : (c : ℕ) → between b'a' b'z' c ≡ true → is_space c ≡ false
unfolding is_space
lower_is_not_space c low = ground arith

low_is_not_space : (c : ℕ) → between b'A' b'Z' c ≡ true → is_space c ≡ false
unfolding is_space
low_is_not_space c low = ground arith

pub is_space-upper_char : (c : ℕ) → is_space (upper_char c) ≡ is_space c
unfolding upper_char
is_space-upper_char c = elim (Bool-cases (between b'a' b'z' c)) [
  | inl low ↦ rw low (low_is_not_space (c - 32) (ground arith) ∙ sym (lower_is_not_space c low))
  | inr other ↦ rw other (unfold is_space in ground arith)
]

strip_ends_upper : (s : Text) → HeadKept is_space s → HeadKept is_space (upper s)
unfolding upper
strip_ends_upper [] h = tt
strip_ends_upper (c ∷ s) h = is_space-upper_char c ∙ h

strip_last_upper : (s : Text) → LastKept is_space s → LastKept is_space (upper s)
unfolding upper
strip_last_upper [] h = tt
strip_last_upper (c ∷ []) h = is_space-upper_char c ∙ h
strip_last_upper (c ∷ d ∷ s) h = strip_last_upper (d ∷ s) h

pub strip-normal : (s : Text) → strip (normal s) ≡ normal s
unfolding strip
strip-normal s =
    strip_by_kept is_space (normal s) (strip_ends_upper (strip s) (strip_by-HeadKept is_space s))
      (strip_last_upper (strip s) (strip_by-LastKept is_space s))

-- Normalising twice is normalising once.
pub normal_idem : (s : Text) → normal (normal s) ≡ normal s
normal_idem s = rw (strip-normal s) (upper_of_IsUpper (normal s) (upper-IsUpper (strip s)))
