-- ===== src/Protocol/Regex/Sound.antt =====
-- What the search finds, the pattern reads.
use mochad_mqtt_bridge.Prelude.{
  ℕ, zero, suc, ◌<◌, ◌≡◌, refl, sym, ap, ◌∙◌, subst, ◌≢◌, ◌⊎◌, inl, inr, Option, none, some, [],
  ◌∷◌, ◌++◌, append_assoc, arith, ltb, ltb→lt, Bool-cases, length,
}
use mochad_mqtt_bridge.Text.{Text}
use mochad_mqtt_bridge.Protocol.Regex.Search.{
  Regex, empty, at_end, char, seq, alt, star, lazy, group, Groups, Rest, or_else, taken, is_end,
  again, greedy, reluctant, first_char, run,
}
use mochad_mqtt_bridge.Protocol.Regex.Language.{Reads, Passes, Parses, Repeated, taken-append}

-- What the continuation saw when the search succeeded.
unfoldable pub Found : Reads → Text → Groups → Rest → Groups → Type 0
Found R s g k a =
    (w : Text) × (t : Text) × (h : Groups) × (s ≡ w ++ t) × R w t g h × (k t h ≡ some a)

or_else-some :
    (a b : Option Groups) (g : Groups) → or_else a b ≡ some g → (a ≡ some g) ⊎ (b ≡ some g)
unfolding or_else
or_else-some none b g h = inr h
or_else-some (some f) b g h = inl h

again-some :
    (m n : ℕ) (o : Option Groups) (g : Groups) → again m n o ≡ some g → (n < m) × (o ≡ some g)
again-some m n o g h = elim (Bool-cases (ltb n m)) [
  | inl e ↦ (ltb→lt n m e, ground arith)
  | inr e ↦ absurd (ground arith)
]

-- A step that is sound.
unfoldable pub Sound : (Text → Groups → Rest → Option Groups) → Reads → Type 0
unfolding Found
Sound step R =
    (s : Text) (g : Groups) (k : Rest) (a : Groups) → step s g k ≡ some a → Found R s g k a

module _ (R : Reads) (step : Text → Groups → Rest → Option Groups) (sound : Sound step R) where
  -- After one pass and further ones.
  one_more :
      (s t : Text) (w : Text) (g f : Groups) (k : Rest) (a : Groups)
      → s ≡ w ++ t
      → length t < length s
      → R w t g f
      → Found (Repeated R) t f k a
      → Found (Repeated R) s g k a
  unfolding Found Passes
  one_more s t w g f k a cut shorter read (v, u, h, cut', (n, more), last) =
      let full : w ≢ [] = λ e. absurd (omega (arith, ap length (cut ∙ ap (λ x. x ++ t) e))) in
      (
        w ++ v,
        u,
        h,
        cut ∙ ap (◌++◌ w) cut' ∙ sym (append_assoc w v u),
        (suc n, (w, v, f, refl, full, subst (λ x. R w x g f) cut' read, more)),
        last,
      )

  greedy-Found :
      (n : ℕ) (s : Text) (g : Groups) (k : Rest) (a : Groups)
      → greedy step n s g k ≡ some a
      → Found (Repeated R) s g k a
  unfolding greedy Sound Found Passes
  greedy-Found zero s g k a h = ([], s, g, refl, (zero, (refl, refl)), h)
  greedy-Found (suc n) s g k a h =
      let next : Rest = λ t f. again (length s) (length t) (greedy step n t f k) in
      elim (or_else-some (step s g next) (k s g) a h) [
        | inl e ↦
            let (w, t, f, cut, read, passed) = sound s g next a e in
            let (shorter, more) = again-some (length s) (length t) (greedy step n t f k) a passed in
            one_more s t w g f k a cut shorter read (greedy-Found n t f k a more)
        | inr e ↦ ([], s, g, refl, (zero, (refl, refl)), e)
      ]

  reluctant-Found :
      (n : ℕ) (s : Text) (g : Groups) (k : Rest) (a : Groups)
      → reluctant step n s g k ≡ some a
      → Found (Repeated R) s g k a
  unfolding reluctant Sound Found Passes
  reluctant-Found zero s g k a h = ([], s, g, refl, (zero, (refl, refl)), h)
  reluctant-Found (suc n) s g k a h =
      let next : Rest = λ t f. again (length s) (length t) (reluctant step n t f k) in
      elim (or_else-some (k s g) (step s g next) a h) [
        | inl e ↦ ([], s, g, refl, (zero, (refl, refl)), e)
        | inr e ↦
            let (w, t, f, cut, read, passed) = sound s g next a e in
            let (shorter, more) =
              again-some (length s) (length t) (reluctant step n t f k) a passed in
            one_more s t w g f k a cut shorter read (reluctant-Found n t f k a more)
      ]

pub run-Found : (r : Regex) → Sound (run r) (Parses r)
unfolding run Sound Found Parses first_char
run-Found empty s g k a h = ([], s, g, refl, (refl, refl), h)
run-Found at_end s g k a h = elim (Bool-cases (is_end s)) [
  | inl e ↦ ([], s, g, refl, (refl, e, refl), ground arith)
  | inr e ↦ absurd (ground arith)
]
run-Found (char p) [] g k a h = absurd (cc h)
run-Found (char p) (c ∷ s) g k a h = elim (Bool-cases (p c)) [
  | inl e ↦ (c ∷ [], s, g, refl, (c, refl, e, refl), ground arith)
  | inr e ↦ absurd (ground arith)
]
run-Found (seq r q) s g k a h =
    let (w, t, f, cut, read, next) = run-Found r s g (λ t f. run q t f k) a h in
    let (v, u, e, cut', read', last) = run-Found q t f k a next in
    (
      w ++ v,
      u,
      e,
      cut ∙ ap (◌++◌ w) cut' ∙ sym (append_assoc w v u),
      (w, v, f, refl, subst (λ x. Parses r w x g f) cut' read, read'),
      last,
    )
run-Found (alt r q) s g k a h = elim (or_else-some (run r s g k) (run q s g k) a h) [
  | inl e ↦ let (w, t, f, cut, read, next) = run-Found r s g k a e in (w, t, f, cut, inl read, next)
  | inr e ↦ let (w, t, f, cut, read, next) = run-Found q s g k a e in (w, t, f, cut, inr read, next)
]
run-Found (star r) s g k a h = greedy-Found (Parses r) (run r) (run-Found r) (length s) s g k a h
run-Found (lazy r) s g k a h = reluctant-Found (Parses r) (run r) (run-Found r) (length s) s g k a h
run-Found (group name r) s g k a h =
    let (w, t, f, cut, read, next) = run-Found r s g (λ t f. k t ((name, taken s t) ∷ f)) a h in
    (
      w,
      t,
      (name, w) ∷ f,
      cut,
      (f, read, refl),
      subst (λ x. k t ((name, x) ∷ f) ≡ some a) (ap (λ x. taken x t) cut ∙ taken-append w t) next,
    )
