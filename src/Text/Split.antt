-- ===== src/Text/Split.antt =====
-- `str.split` at a character and at white space, and `str.join`.
use mochad_mqtt_bridge.Prelude.{
  ℕ, ◌≡◌, refl, ap, false, List, [], ◌∷◌, ◌++◌, arith, ◌==◌, if◌then◌else◌, All,
}
use mochad_mqtt_bridge.Text.Equality.{Text}
use mochad_mqtt_bridge.Text.Strip.{is_space}

abbrev pub cons_head : ℕ → List Text → List Text
cons_head c [] = (c ∷ []) ∷ []
cons_head c (w ∷ ws) = (c ∷ w) ∷ ws

-- `s.split(sep)`; never empty
unfoldable pub split_at : ℕ → Text → List Text
split_at sep [] = [] ∷ []
split_at sep (c ∷ s) = let rest = split_at sep s in if c == sep then [] ∷ rest else cons_head c rest

-- `sep.join(parts)`
unfoldable pub join : Text → List Text → Text
join sep [] = []
join sep (w ∷ []) = w
join sep (w ∷ v ∷ ws) = w ++ (sep ++ join sep (v ∷ ws))

-- a finished word, unless it is empty
abbrev emit : Text → List Text → List Text
emit [] ws = ws
emit (c ∷ w) ws = (c ∷ w) ∷ ws

-- the word that has been read, and the text to come
unfoldable pub words_from : Text → Text → List Text
words_from w [] = emit w []
words_from w (c ∷ s) =
    let next = emit w (words_from [] s) in
    let longer = words_from (w ++ c ∷ []) s in if is_space c then next else longer

-- `s.split()`
unfoldable pub words : Text → List Text
unfolding words_from is_space
words s = words_from [] s

abbrev pub Free : ℕ → Text → Type 0
Free sep s = All (λ c. (c == sep) ≡ false) s

-- A piece without the separator is read up to the separator.
pub split_at-piece :
    (sep : ℕ) (w s : Text) → Free sep w → split_at sep (w ++ sep ∷ s) ≡ w ∷ split_at sep s
unfolding split_at
split_at-piece sep [] s h = ground arith
split_at-piece sep (c ∷ w) s h = rw (h.0, split_at-piece sep w s h.1)

pub split_at_last : (sep : ℕ) (w : Text) → Free sep w → split_at sep w ≡ w ∷ []
unfolding split_at
split_at_last sep [] h = refl
split_at_last sep (c ∷ w) h = rw (h.0, split_at_last sep w h.1)

-- Splitting undoes joining, when no piece has the separator.
pub split_at-join :
    (sep : ℕ) (w : Text) (ws : List Text)
    → All (Free sep) (w ∷ ws)
    → split_at sep (join (sep ∷ []) (w ∷ ws)) ≡ w ∷ ws
unfolding join
split_at-join sep w [] h = split_at_last sep w h.0
split_at-join sep w (v ∷ ws) h =
    rw (split_at-piece sep w _ h.0) (ap (◌∷◌ w) (split_at-join sep v ws h.1))
