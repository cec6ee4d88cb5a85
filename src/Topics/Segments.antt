-- ===== src/Topics/Segments.antt =====
-- Segments of a topic, and what splitting a topic at its slashes gives.
use mochad_mqtt_bridge.Prelude.{
  ℕ, suc, ◌+◌, ◌≤◌, ◌≡◌, refl, sym, subst, ◌≢◌, inl, inr, Bool, true, false, ◌||◌, false≢true, List,
  [], ◌∷◌, ◌++◌, arith, ◌==◌, if◌then◌else◌, Bool-cases, length, ok,
}
use mochad_mqtt_bridge.Text.{
  Text, strip, strip_char, HeadKept, LastKept, strip_by-HeadKept, strip_by_kept, split_at,
  cons_head, Free,
}
use mochad_mqtt_bridge.Topics.{has_char, checked_segment, clean_segment}

-- A text that begins with a character other than a slash.
abbrev pub StartsClean : Text → Type 0
StartsClean [] = true ≡ false
StartsClean (c ∷ s) = (c == b'/') ≡ false

abbrev pub slash : ℕ → Bool
slash d = d == b'/'

checked_segment-ok : (s b : Text) → checked_segment s ≡ ok b → (s ≡ b) × (s ≢ [])
unfolding checked_segment
checked_segment-ok [] b h = absurd (cc)
checked_segment-ok (c ∷ s) b h =
    elim (Bool-cases (has_char b'#' (c ∷ s) || has_char b'+' (c ∷ s))) [
      | inl bad ↦ absurd (ground arith)
      | inr good ↦ (ground arith, λ e. cc)
    ]

starts_of_kept : (s : Text) → HeadKept slash s → s ≢ [] → StartsClean s
starts_of_kept [] h n = absurd (n refl)
starts_of_kept (c ∷ s) h n = h

-- A cleaned segment is not empty and begins with no slash.
pub clean_segment-StartsClean : (s b : Text) → clean_segment s ≡ ok b → StartsClean b
unfolding clean_segment strip_char
clean_segment-StartsClean s b h =
    let (same, full) = checked_segment-ok (strip_char b'/' (strip s)) b h in
    subst StartsClean same (starts_of_kept _ (strip_by-HeadKept slash (strip s)) full)

head_append : (b s : Text) → StartsClean b → HeadKept slash (b ++ s)
head_append [] s h = absurd (false≢true (sym h))
head_append (c ∷ b) s h = h

pub append-LastKept :
    (b : Text) (c : ℕ) (s : Text) → LastKept slash (c ∷ s) → LastKept slash (b ++ c ∷ s)
append-LastKept [] c s h = h
append-LastKept (d ∷ []) c s h = h
append-LastKept (d ∷ e ∷ b) c s h = append-LastKept (e ∷ b) c s h

-- A topic that begins with a cleaned segment and ends in no slash is left as it is.
pub strip_char-topic :
    (b : Text) (c : ℕ) (s : Text)
    → StartsClean b
    → LastKept slash (c ∷ s)
    → strip_char b'/' (b ++ c ∷ s) ≡ b ++ c ∷ s
unfolding strip_char
strip_char-topic b c s h l =
    strip_by_kept slash _ (head_append b (c ∷ s) h) (append-LastKept b c s l)

pub Free-has_char : (c : ℕ) (s : Text) → has_char c s ≡ false → Free c s
unfolding has_char
Free-has_char c [] h = tt
Free-has_char c (d ∷ s) h = (ground arith, Free-has_char c s (ground arith))

-- The number of separators decides the number of pieces.
unfoldable pub count_char : ℕ → Text → ℕ
count_char c [] = 0
count_char c (d ∷ s) = (if d == c then 1 else 0) + count_char c s

length-cons_head : (c : ℕ) (ws : List Text) → 1 ≤ length ws → length (cons_head c ws) ≡ length ws
length-cons_head c [] h = absurd (omega (arith))
length-cons_head c (w ∷ ws) h = refl

pub length-split_at : (c : ℕ) (s : Text) → length (split_at c s) ≡ suc (count_char c s)
unfolding split_at count_char
length-split_at c [] = refl
length-split_at c (d ∷ s) = elim (Bool-cases (d == c)) [
  | inl e ↦ rw e (omega (arith, length-split_at c s))
  | inr e ↦ rw e (
      omega (
        arith,
        length-cons_head d (split_at c s) (omega (arith, length-split_at c s)),
        length-split_at c s,
      ))
]

pub count_char-append :
    (c : ℕ) (s t : Text) → count_char c (s ++ t) ≡ count_char c s + count_char c t
unfolding count_char
count_char-append c [] t = omega arith
count_char-append c (d ∷ s) t = omega (arith, count_char-append c s t)

pub count_char-has : (c : ℕ) (s : Text) → has_char c s ≡ true → 1 ≤ count_char c s
unfolding count_char has_char
count_char-has c [] h = absurd (false≢true h)
count_char-has c (d ∷ s) h = elim (Bool-cases (d == c)) [
  | inl e ↦ rw e (omega arith)
  | inr e ↦ rw e (omega (arith, count_char-has c s (ground arith)))
]
