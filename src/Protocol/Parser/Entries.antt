-- ===== src/Protocol/Parser/Entries.antt =====
-- protocol/status.py: no line makes `feed` raise.
use mochad_mqtt_bridge.Prelude.{
  ℕ, zero, suc, ◌≡◌, refl, sym, ap, ◌∙◌, subst, inl, inr, true, false, false≢true, [], ◌∷◌, ◌++◌,
  append_assoc, arith, ◌==◌, between, ==_iff, Bool-cases, All, All-append, ok,
}
use mochad_mqtt_bridge.Protocol.Regex.Patterns.{folded}
use mochad_mqtt_bridge.Text.{
  Text, is_space, lower_char, lstrip_by, rstrip_by, strip, LastKept, strip_by_kept, Free,
}
use mochad_mqtt_bridge.Protocol.Validation.{match_unit}
use mochad_mqtt_bridge.Protocol.Regex.Search.{Groups}
use mochad_mqtt_bridge.Protocol.Regex.Steps.{is_digit}
use mochad_mqtt_bridge.Protocol.Regex.Language.{Passes, Parses}
use mochad_mqtt_bridge.Protocol.Regex.Search.{char}
use mochad_mqtt_bridge.Protocol.Parser.Captured.{IsRead}
use mochad_mqtt_bridge.Protocol.Regex.Patterns.{entry_pattern}
use mochad_mqtt_bridge.Protocol.Status.{split_once}
use mochad_mqtt_bridge.Protocol.Parser.Returns.{unit-read, unit_last}

abbrev pub IsBlank : Text → Type 0
IsBlank s = All (λ c. is_space c ≡ true) s

pub IsBlank-Passes :
    (n : ℕ) (w t : Text) (g h : Groups) → Passes (Parses (char is_space)) n w t g h → IsBlank w
unfolding Passes Parses
IsBlank-Passes zero w t g h (cut, same) = rw cut tt
IsBlank-Passes (suc n) w t g h (u, v, f, cut, full, (c, one, test, _), more) =
    rw (cut, one) (test, IsBlank-Passes n v t f h more)

lstrip-blank : (p s : Text) → IsBlank p → lstrip_by is_space (p ++ s) ≡ lstrip_by is_space s
unfolding lstrip_by
lstrip-blank [] s h = refl
lstrip-blank (c ∷ p) s (h, hs) = rw h (lstrip-blank p s hs)

rstrip-blank : (s : Text) → IsBlank s → rstrip_by is_space s ≡ []
unfolding rstrip_by
rstrip-blank [] h = refl
rstrip-blank (c ∷ s) (h, hs) = rw (rstrip-blank s hs, h) refl

rstrip-append : (s q : Text) → IsBlank q → rstrip_by is_space (s ++ q) ≡ rstrip_by is_space s
unfolding rstrip_by
rstrip-append [] q h = rstrip-blank q h
rstrip-append (c ∷ s) q h = rw (rstrip-append s q h) refl

unit_head : (d : ℕ) (u : Text) → match_unit (d ∷ u) ≡ true → is_space d ≡ false
unfolding match_unit is_space
unit_head d [] good = ground arith
unit_head d (e ∷ []) good = ground arith
unit_head d (e ∷ f ∷ u) good = absurd (false≢true good)

lstrip-solid : (d : ℕ) (s : Text) → is_space d ≡ false → lstrip_by is_space (d ∷ s) ≡ d ∷ s
unfolding lstrip_by
lstrip-solid d s h = rw h refl

-- White space around a text is stripped.
strip-blank :
    (p : Text) (d : ℕ) (s q : Text)
    → IsBlank p
    → IsBlank q
    → is_space d ≡ false
    → LastKept is_space (d ∷ s)
    → strip (p ++ (d ∷ (s ++ q))) ≡ d ∷ s
unfolding strip
strip-blank p d s q h k solid last =
    ap (rstrip_by is_space) (lstrip-blank p (d ∷ (s ++ q)) h ∙ lstrip-solid d (s ++ q) solid)
    ∙ rstrip-append (d ∷ s) q k
    ∙ sym (ap (rstrip_by is_space) (lstrip-solid d s solid))
    ∙ strip_by_kept is_space (d ∷ s) solid last

differs : (c k : ℕ) → is_space c ≡ true → is_space k ≡ false → (c == k) ≡ false
differs c k space no_space = elim (Bool-cases (c == k)) [
  | inl e ↦ absurd (false≢true (sym no_space ∙ sym (ap is_space ((==_iff c k).0 e)) ∙ space))
  | inr e ↦ e
]

pub not_in_blank : (k : ℕ) (s : Text) → is_space k ≡ false → IsBlank s → Free k s
not_in_blank k [] no_space h = tt
not_in_blank k (c ∷ s) no_space (h, hs) = (differs c k h no_space, not_in_blank k s no_space hs)

not_in_unit : (k : ℕ) (u : Text) → is_digit k ≡ false → match_unit u ≡ true → Free k u
unfolding match_unit
not_in_unit k [] other good = absurd (false≢true good)
not_in_unit k (d ∷ []) other good = (ground arith, tt)
not_in_unit k (d ∷ e ∷ []) other good = (ground arith, (ground arith, tt))
not_in_unit k (d ∷ e ∷ f ∷ u) other good = absurd (false≢true good)

split_once-Free : (c : ℕ) (u v : Text) → Free c u → split_once c (u ++ c ∷ v) ≡ ok (u, v)
unfolding split_once
split_once-Free c [] v h = rw ((==_iff c c).1 refl) refl
split_once-Free c (d ∷ u) v (h, hs) = rw (h, split_once-Free c u v hs) refl

-- An entry that the loop of `feed` accepts.
unfoldable pub Good : Text → Type 0
Good e = (u : Text) × (v : Text) × (split_once b'=' e ≡ ok (u, v)) × (match_unit (strip u) ≡ true)

-- An entry that stays acceptable with white space after it, and has no comma.
unfoldable pub Piece : Text → Type 0
unfolding Good
Piece x = ((q : Text) → IsBlank q → Good (x ++ q)) × Free b',' x

unit-strip :
    (p u q : Text) → match_unit u ≡ true → IsBlank p → IsBlank q → strip (p ++ (u ++ q)) ≡ u
unfolding match_unit is_space
unit-strip p [] q good h k = absurd (false≢true good)
unit-strip p (d ∷ u) q good h k =
    strip-blank p d u q h k (unit_head d u good) (unit_last (d ∷ u) good).0

-- The parts of an entry.
Parts : Text → Type 0
Parts e =
    (u : Text) × (blank : Text) × (value : Text) × (e ≡ u ++ (blank ++ b'=' ∷ value))
    × (match_unit u ≡ true)
    × IsBlank blank
    × Free b',' value

equals_sign : (c : ℕ) → (folded c == folded b'=') ≡ true → c ≡ b'='
unfolding folded lower_char
equals_sign c h = ground arith

not_comma : (c : ℕ) → between b'0' b'1' c ≡ true → (c == b',') ≡ false
not_comma c h = ground arith

entry-Parts : (e : Text) → IsRead entry_pattern e → Parts e
unfolding IsRead Parses Parts is_space
entry-Parts e
      (
        t,
        g,
        h,
        (
          u,
          v1,
          f1,
          cut1,
          unit,
          (
            s1,
            v2,
            f2,
            cut2,
            (n1, more1),
            (
              x,
              v3,
              f3,
              cut3,
              (y, z, f4, cut4, (c, one, test, _), (nil, _)),
              (s2, v4, f5, cut5, (n2, more2), (d, v5, f6, cut6, (e', one', test', _), (nil', _))),
            ),
          ),
        ),
      ) =
    let good = unit-read u (v1 ++ t, g, f1, unit) in
    let blank = IsBlank-Passes n1 s1 (v2 ++ t) f1 f2 more1 in
    let blank' = IsBlank-Passes n2 s2 (v4 ++ t) f3 f5 more2 in
    let sign : x ≡ b'=' ∷ [] = rw (cut4, one, nil, equals_sign c test) refl in
    let value : v4 ≡ e' ∷ [] = rw (cut6, one', nil') refl in
    (
      u,
      s1,
      s2 ++ (e' ∷ []),
      rw (cut1, cut2, cut3, sign, cut5, value) refl,
      good,
      blank,
      All-append (λ c. (c == b',') ≡ false) s2 (e' ∷ []) (not_in_blank b',' s2 refl blank')
          (not_comma e' test', tt),
    )

split_once-parts :
    (p u blank value q : Text)
    → IsBlank p
    → match_unit u ≡ true
    → IsBlank blank
    → split_once b'=' ((p ++ (u ++ (blank ++ b'=' ∷ value))) ++ q)
      ≡ ok (p ++ (u ++ blank), value ++ q)
unfolding is_space
split_once-parts p u blank value q h unit is_blank =
    let free = All-append (λ c. (c == b'=') ≡ false) in
    let same : (p ++ (u ++ (blank ++ b'=' ∷ value))) ++ q
        ≡ (p ++ (u ++ blank)) ++ b'=' ∷ (value ++ q) =
      rw
        (
          append_assoc p (u ++ (blank ++ b'=' ∷ value)) q,
          append_assoc u (blank ++ b'=' ∷ value) q,
          append_assoc blank (b'=' ∷ value) q,
          append_assoc p (u ++ blank) (b'=' ∷ (value ++ q)),
          append_assoc u blank (b'=' ∷ (value ++ q)),
        )
        refl in
    ap (split_once b'=') same
    ∙ split_once-Free b'=' (p ++ (u ++ blank)) (value ++ q) (
        free p (u ++ blank) (not_in_blank b'=' p refl h)
          (free u blank (not_in_unit b'=' u refl unit) (not_in_blank b'=' blank refl is_blank)))

pub entry-Piece : (p e : Text) → IsBlank p → IsRead entry_pattern e → Piece (p ++ e)
unfolding Piece Good Parts is_space
entry-Piece p e h read =
    let (u, blank, value, cut, unit, is_blank, free) = entry-Parts e read in
    let comma = All-append (λ c. (c == b',') ≡ false) in
    (
      λ q after. (
        p ++ (u ++ blank),
        value ++ q,
        ap (λ x. split_once b'=' ((p ++ x) ++ q)) cut
            ∙ split_once-parts p u blank value q h unit is_blank,
        ap match_unit (unit-strip p u blank unit h is_blank) ∙ unit,
      ),
      subst (λ x. Free b',' (p ++ x)) (sym cut)
          (comma p _ (not_in_blank b',' p refl h) (
            comma u _ (not_in_unit b',' u refl unit)
              (comma blank _ (not_in_blank b',' blank refl is_blank) (refl, free)))),
    )
