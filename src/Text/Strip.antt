-- ===== src/Text/Strip.antt =====
-- `str.strip`, with and without an argument, and the letter case of ASCII letters, with the characters
-- beyond ASCII that it makes ASCII letters: U+0131 and U+017F in upper case, U+212A in lower case.
use mochad_mqtt_bridge.Prelude.{
  ℕ, ◌+◌, ◌-◌, ◌≡◌, refl, Bool, false, ◌||◌, [], ◌∷◌, map, ◌==◌, between, if◌then◌else◌, inl, inr,
  Bool-cases, All,
}
use mochad_mqtt_bridge.Text.Equality.{Text}

-- `str.isspace` for one character; the class `\s` of `re` is the same.
unfoldable pub is_space : ℕ → Bool
is_space c =
    between 9 13 c
    || between 28 32 c
    || c == 133
    || c == 160
    || c == 5760
    || between 8192 8202 c
    || between 8232 8233 c
    || c == 8239
    || c == 8287
    || c == 12288

unfoldable pub upper_char : ℕ → ℕ
upper_char c =
    if between b'a' b'z' c then c - 32 else if c == 305 then b'I' else if c == 383 then b'S' else c

unfoldable pub lower_char : ℕ → ℕ
lower_char c = if between b'A' b'Z' c then c + 32 else if c == 8490 then b'k' else c

unfoldable pub upper : Text → Text
unfolding upper_char
upper s = map upper_char s

unfoldable pub lower : Text → Text
unfolding lower_char
lower s = map lower_char s

module _ (p : ℕ → Bool) where
  unfoldable pub lstrip_by : Text → Text
  lstrip_by [] = []
  lstrip_by (c ∷ s) = if p c then lstrip_by s else c ∷ s

  -- what a character becomes in front of a stripped rest
  abbrev keep : ℕ → Text → Text
  keep c [] = if p c then [] else c ∷ []
  keep c (d ∷ s) = c ∷ d ∷ s

  unfoldable pub rstrip_by : Text → Text
  rstrip_by [] = []
  rstrip_by (c ∷ s) = keep c (rstrip_by s)

  unfoldable pub strip_by : Text → Text
  unfolding lstrip_by rstrip_by
  strip_by s = rstrip_by (lstrip_by s)

  -- What all characters have, those of the stripped text have.
  lstrip_by-All : (P : ℕ → Type 0) (s : Text) → All P s → All P (lstrip_by s)
  unfolding lstrip_by
  lstrip_by-All P [] h = h
  lstrip_by-All P (c ∷ s) (h, hs) = elim (Bool-cases (p c)) [
    | inl e ↦ rw e (lstrip_by-All P s hs)
    | inr e ↦ rw e (h, hs)
  ]

  keep-All : (P : ℕ → Type 0) (c : ℕ) (s : Text) → P c → All P s → All P (keep c s)
  keep-All P c [] h hs = elim (Bool-cases (p c)) [ inl e ↦ rw e tt | inr e ↦ rw e (h, tt) ]
  keep-All P c (d ∷ s) h hs = (h, hs)

  rstrip_by-All : (P : ℕ → Type 0) (s : Text) → All P s → All P (rstrip_by s)
  unfolding rstrip_by
  rstrip_by-All P [] h = h
  rstrip_by-All P (c ∷ s) (h, hs) = keep-All P c (rstrip_by s) h (rstrip_by-All P s hs)

  pub strip_by-All : (P : ℕ → Type 0) (s : Text) → All P s → All P (strip_by s)
  unfolding strip_by
  strip_by-All P s h = rstrip_by-All P (lstrip_by s) (lstrip_by-All P s h)

  -- The first and the last character are kept by a strip.
  abbrev pub HeadKept : Text → Type 0
  HeadKept [] = Unit
  HeadKept (c ∷ s) = p c ≡ false

  abbrev pub LastKept : Text → Type 0
  LastKept [] = Unit
  LastKept (c ∷ []) = p c ≡ false
  LastKept (c ∷ d ∷ s) = LastKept (d ∷ s)

  lstrip_by-HeadKept : (s : Text) → HeadKept (lstrip_by s)
  unfolding lstrip_by
  lstrip_by-HeadKept [] = tt
  lstrip_by-HeadKept (c ∷ s) = elim (Bool-cases (p c)) [
    | inl e ↦ rw e (lstrip_by-HeadKept s)
    | inr e ↦ rw e e
  ]

  keep-LastKept : (c : ℕ) (s : Text) → LastKept s → LastKept (keep c s)
  keep-LastKept c [] h = elim (Bool-cases (p c)) [ inl e ↦ rw e tt | inr e ↦ rw e e ]
  keep-LastKept c (d ∷ s) h = h

  rstrip_by-LastKept : (s : Text) → LastKept (rstrip_by s)
  unfolding rstrip_by
  rstrip_by-LastKept [] = tt
  rstrip_by-LastKept (c ∷ s) = keep-LastKept c (rstrip_by s) (rstrip_by-LastKept s)

  keep-HeadKept : (c : ℕ) (s : Text) → p c ≡ false → HeadKept (keep c s)
  keep-HeadKept c [] h = rw h h
  keep-HeadKept c (d ∷ s) h = h

  rstrip_by-HeadKept : (s : Text) → HeadKept s → HeadKept (rstrip_by s)
  unfolding rstrip_by
  rstrip_by-HeadKept [] h = tt
  rstrip_by-HeadKept (c ∷ s) h = keep-HeadKept c (rstrip_by s) h

  pub strip_by-HeadKept : (s : Text) → HeadKept (strip_by s)
  unfolding strip_by
  strip_by-HeadKept s = rstrip_by-HeadKept (lstrip_by s) (lstrip_by-HeadKept s)

  pub strip_by-LastKept : (s : Text) → LastKept (strip_by s)
  unfolding strip_by
  strip_by-LastKept s = rstrip_by-LastKept (lstrip_by s)

  lstrip_by_of_HeadKept : (s : Text) → HeadKept s → lstrip_by s ≡ s
  unfolding lstrip_by
  lstrip_by_of_HeadKept [] h = refl
  lstrip_by_of_HeadKept (c ∷ s) h = rw h

  rstrip_by_of_LastKept : (s : Text) → LastKept s → rstrip_by s ≡ s
  unfolding rstrip_by
  rstrip_by_of_LastKept [] h = refl
  rstrip_by_of_LastKept (c ∷ []) h = rw h
  rstrip_by_of_LastKept (c ∷ d ∷ s) h = rw (rstrip_by_of_LastKept (d ∷ s) h)

  -- A text whose ends are kept is left as it is.
  pub strip_by_kept : (s : Text) → HeadKept s → LastKept s → strip_by s ≡ s
  unfolding strip_by
  strip_by_kept s h l = rw (lstrip_by_of_HeadKept s h) (rstrip_by_of_LastKept s l)

  pub strip_by_idem : (s : Text) → strip_by (strip_by s) ≡ strip_by s
  strip_by_idem s = strip_by_kept (strip_by s) (strip_by-HeadKept s) (strip_by-LastKept s)

  -- A text of kept characters has kept ends.
  pub HeadKept-All : (s : Text) → All (λ c. p c ≡ false) s → HeadKept s
  HeadKept-All [] h = tt
  HeadKept-All (c ∷ s) h = h.0

  pub LastKept-All : (s : Text) → All (λ c. p c ≡ false) s → LastKept s
  LastKept-All [] h = tt
  LastKept-All (c ∷ []) h = h.0
  LastKept-All (c ∷ d ∷ s) h = LastKept-All (d ∷ s) h.1

unfoldable pub strip : Text → Text
unfolding strip_by is_space
strip s = strip_by is_space s

-- `s.strip("c")` for one character
unfoldable pub strip_char : ℕ → Text → Text
unfolding strip_by
strip_char c s = strip_by (λ d. d == c) s
