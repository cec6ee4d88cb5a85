-- ===== src/Protocol/Regex/Complete.antt =====
-- What the pattern reads, the search finds.
use mochad_mqtt_bridge.Prelude.{
  ℕ, zero, suc, ◌≤◌, ◌≡◌, refl, ap, subst, ◌≢◌, inl, inr, true, Option, none, some, [], ◌∷◌, ◌++◌,
  append_assoc, arith, ltb, lt→ltb, length, length-append,
}
use mochad_mqtt_bridge.Text.{Text}
use mochad_mqtt_bridge.Protocol.Regex.Search.{
  Regex, empty, at_end, char, seq, alt, star, lazy, group, Groups, Rest, or_else, taken, again,
  greedy, reluctant, first_char, run, match,
}
use mochad_mqtt_bridge.Protocol.Regex.Language.{Reads, Passes, Parses, taken-append}
use mochad_mqtt_bridge.Protocol.Regex.Sound.{Found, Sound, run-Found}

abbrev pub IsSome : Option Groups → Type 0
IsSome o = (g : Groups) × (o ≡ some g)

or_else-left : (a b : Option Groups) → IsSome a → IsSome (or_else a b)
unfolding or_else
or_else-left none b (g, h) = absurd (cc h)
or_else-left (some f) b h = h

or_else-right : (a b : Option Groups) → IsSome b → IsSome (or_else a b)
unfolding or_else
or_else-right none b h = h
or_else-right (some f) b h = (f, refl)

-- A step that finds all readings after which the rest succeeds.
abbrev Complete : (Text → Groups → Rest → Option Groups) → Reads → Type 0
Complete step R =
    (w t : Text) (g h : Groups) (k : Rest) → R w t g h → IsSome (k t h) → IsSome (step (w ++ t) g k)

empty_of_length : (u : Text) → length u ≡ 0 → u ≡ []
empty_of_length [] e = refl
empty_of_length (c ∷ u) e = absurd (omega (arith, e))

module _ (R : Reads) (step : Text → Groups → Rest → Option Groups)
    (complete : Complete step R) where
  -- A pass that is followed by what the rest of the fuel finds.
  pass-IsSome :
      (u v t : Text) (g f : Groups) (next : Text → Groups → Option Groups)
      → u ≢ []
      → R u (v ++ t) g f
      → IsSome (next (v ++ t) f)
      → IsSome
          (step ((u ++ v) ++ t) g (λ t' e. again (length ((u ++ v) ++ t)) (length t') (next t' e)))
  pass-IsSome u v t g f next full read more =
      let size : length u ≢ 0 = λ e. full (empty_of_length u e) in
      let shorter : ltb (length (v ++ t)) (length (u ++ (v ++ t))) ≡ true =
        lt→ltb _ _ (omega (arith, size, length-append u (v ++ t))) in
      rw (append_assoc u v t) (
        complete u (v ++ t) g f (λ t' e. again (length (u ++ (v ++ t))) (length t') (next t' e))
          read (rw shorter more))

  short : (u v : Text) (n : ℕ) → u ≢ [] → length (u ++ v) ≤ suc n → length v ≤ n
  short [] v n full h = absurd (full refl)
  short (c ∷ u) v n full h = omega (arith, length-append u v, h)

  -- With at least as much fuel as text.
  greedy-IsSome :
      (fuel n : ℕ) (w t : Text) (g h : Groups) (k : Rest)
      → length w ≤ fuel
      → Passes R n w t g h
      → IsSome (k t h)
      → IsSome (greedy step fuel (w ++ t) g k)
  unfolding greedy Passes
  greedy-IsSome zero zero w t g h k enough (none_left, same) last = rw (none_left, ← same) last
  greedy-IsSome (suc fuel) zero w t g h k enough (none_left, same) last =
      let next : Rest = λ t' e. again (length (w ++ t)) (length t') (greedy step fuel t' e k) in
      or_else-right (step (w ++ t) g next) (k (w ++ t) g) (rw (none_left, ← same) last)
  greedy-IsSome zero (suc n) w t g h k enough (u, v, f, cut, full, read, more) last =
      absurd (full (empty_of_length u (omega (arith, enough, ap length cut, length-append u v))))
  greedy-IsSome (suc fuel) (suc n) w t g h k enough (u, v, f, cut, full, read, more) last =
      let room : length v ≤ fuel =
        short u v fuel full (subst (λ x. length x ≤ suc fuel) cut enough) in
      rw cut (
        or_else-left _ _ (
          pass-IsSome u v t g f (λ t' e. greedy step fuel t' e k) full read
            (greedy-IsSome fuel n v t f h k room more last)))

  reluctant-IsSome :
      (fuel n : ℕ) (w t : Text) (g h : Groups) (k : Rest)
      → length w ≤ fuel
      → Passes R n w t g h
      → IsSome (k t h)
      → IsSome (reluctant step fuel (w ++ t) g k)
  unfolding reluctant Passes
  reluctant-IsSome zero zero w t g h k enough (none_left, same) last = rw (none_left, ← same) last
  reluctant-IsSome (suc fuel) zero w t g h k enough (none_left, same) last =
      let next : Rest = λ t' e. again (length (w ++ t)) (length t') (reluctant step fuel t' e k) in
      or_else-left (k (w ++ t) g) (step (w ++ t) g next) (rw (none_left, ← same) last)
  reluctant-IsSome zero (suc n) w t g h k enough (u, v, f, cut, full, read, more) last =
      absurd (full (empty_of_length u (omega (arith, enough, ap length cut, length-append u v))))
  reluctant-IsSome (suc fuel) (suc n) w t g h k enough (u, v, f, cut, full, read, more) last =
      let room : length v ≤ fuel =
        short u v fuel full (subst (λ x. length x ≤ suc fuel) cut enough) in
      rw cut (
        or_else-right _ _ (
          pass-IsSome u v t g f (λ t' e. reluctant step fuel t' e k) full read
            (reluctant-IsSome fuel n v t f h k room more last)))

run-IsSome : (r : Regex) → Complete (run r) (Parses r)
unfolding run Parses first_char
run-IsSome empty w t g h k (none_left, same) last = rw (none_left, ← same) last
run-IsSome at_end w t g h k (none_left, ends, same) last = rw (none_left, ← same, ends) last
run-IsSome (char p) w t g h k (c, one, test, same) last = rw (one, ← same, test) last
run-IsSome (seq r q) w t g h k (u, v, f, cut, read, read') last =
    rw (cut, append_assoc u v t)
      (run-IsSome r u (v ++ t) g f (λ t f. run q t f k) read (run-IsSome q v t f h k read' last))
run-IsSome (alt r q) w t g h k (inl read) last =
    or_else-left (run r (w ++ t) g k) (run q (w ++ t) g k) (run-IsSome r w t g h k read last)
run-IsSome (alt r q) w t g h k (inr read) last =
    or_else-right (run r (w ++ t) g k) (run q (w ++ t) g k) (run-IsSome q w t g h k read last)
run-IsSome (star r) w t g h k (n, more) last =
    greedy-IsSome (Parses r) (run r) (run-IsSome r) (length (w ++ t)) n w t g h k
      (omega (arith, length-append w t)) more last
run-IsSome (lazy r) w t g h k (n, more) last =
    reluctant-IsSome (Parses r) (run r) (run-IsSome r) (length (w ++ t)) n w t g h k
      (omega (arith, length-append w t)) more last
run-IsSome (group name r) w t g h k (f, read, captured) last =
    run-IsSome r w t g f (λ t' f. k t' ((name, taken (w ++ t) t') ∷ f)) read
      (rw (taken-append w t, ← captured) last)

-- A pattern matches at the beginning of a text exactly when the text begins with something that the
-- pattern reads, and the groups of a match are those of such a reading. So the search never gives
-- up early: the text's length bounds the repetitions that a star needs.
pub match_iff :
    (r : Regex) (s : Text)
    → ((g : Groups)
        → match r s ≡ some g
        → (w : Text) × (t : Text) × (s ≡ w ++ t) × Parses r w t [] g)
      × ((w t : Text) (g : Groups) → s ≡ w ++ t → Parses r w t [] g → IsSome (match r s))
unfolding match Found Sound
match_iff r s = (
  λ g h.
      let (w, t, f, cut, read, last) = run-Found r s [] (λ t g. some g) g h in
      (w, t, cut, subst (λ x. Parses r w t [] x) (cc last) read),
  λ w t g cut read. rw cut (run-IsSome r w t [] g (λ t g. some g) read (g, refl)),
)
