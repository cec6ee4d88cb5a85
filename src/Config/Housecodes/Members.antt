-- ===== src/Config/Housecodes/Members.antt =====
-- Which house codes a value of X10_HOUSECODES allows.
use mochad_mqtt_bridge.Prelude.{
  ℕ, zero, suc, ◌+◌, ◌-◌, ◌≡◌, refl, sym, ap, ◌∙◌, subst, inl, inr, Bool, true, false, not, ◌&&◌,
  ◌||◌, Option, none, some, List, [], ◌∷◌, ◌++◌, arith, ltb, leb, ◌==◌, if◌then◌else◌, ==_iff,
  Bool-cases, config_error, Result, ok, raise, ◌>>=◌, >>=-eq-ok, ok_injective,
}
use mochad_mqtt_bridge.Text.{Text}
use mochad_mqtt_bridge.Text.Normal.{normal}
use mochad_mqtt_bridge.Topics.{has_char}
use mochad_mqtt_bridge.Config.Housecodes.{
  is_house_code, add, update, parse_housecode_range, add_characters, add_range, add_part, add_parts,
  parts_of, unless_none, parse_value, parse_housecodes,
}

has_char-append : (c : ℕ) (s t : Text) → has_char c (s ++ t) ≡ (has_char c s || has_char c t)
unfolding has_char
has_char-append c [] t = refl
has_char-append c (d ∷ s) t = ground (arith, has_char-append c s t)

has_char-same : (c d : ℕ) (s : Text) → has_char d s ≡ true → (d == c) ≡ true → has_char c s ≡ true
has_char-same c d s h e = subst (λ x. has_char x s ≡ true) ((==_iff d c).0 e) h

has_char-add : (c d : ℕ) (s : Text) → has_char c (add d s) ≡ (has_char c s || (d == c))
unfolding add has_char
has_char-add c d s = elim (Bool-cases (has_char d s)) [
  | inl old ↦ rw old (elim (Bool-cases (d == c)) [
    | inl e ↦ rw (e, has_char-same c d s old e)
    | inr e ↦ rw e (ground arith)
  ])
  | inr new ↦ rw new (ground (arith, has_char-append c s (d ∷ [])))
]

has_char-update :
    (c first n : ℕ) (s : Text)
    → has_char c (update first n s) ≡ (has_char c s || (leb first c && ltb c (first + n)))
unfolding update
has_char-update c first zero s = ground arith
has_char-update c first (suc n) s =
    ground (arith, has_char-update c (first + 1) n (add first s), has_char-add c first s)

not_raised :
    (bad : Bool) (r : Result Text) {s : Text}
    → (if bad then raise config_error else r) ≡ ok s
    → r ≡ ok s
not_raised true r h = absurd (cc h)
not_raised false r h = h

has_char-add_characters :
    (c : ℕ) (part s s' : Text)
    → add_characters part s ≡ ok s'
    → has_char c s' ≡ (has_char c s || has_char c part)
unfolding add_characters has_char
has_char-add_characters c [] s s' h = ground (arith, ap (has_char c) (ok_injective s s' h))
has_char-add_characters c (d ∷ part) s s' h = ground (
  arith,
  has_char-add_characters c part (add d s) s'
      (not_raised (not (is_house_code d)) (add_characters part (add d s)) h),
  has_char-add c d s,
)

-- Whether a part names a code: a range all codes between its ends, another part its characters.
abbrev between_ends : Result (ℕ × ℕ) → ℕ → Bool
between_ends (ok (first, last)) c = leb first c && leb c last
between_ends (raise e) c = false

unfoldable pub names_code : Text → ℕ → Bool
names_code part c =
    if has_char b'-' part then between_ends (parse_housecode_range part) c else has_char c part

unfoldable pub some_names : List Text → ℕ → Bool
some_names [] c = false
some_names (part ∷ parts) c = names_code part c || some_names parts c

has_char-add_range :
    (c : ℕ) (r : Result (ℕ × ℕ)) (s s' : Text)
    → (r >>= add_range s) ≡ ok s'
    → has_char c s' ≡ (has_char c s || between_ends r c)
has_char-add_range c (raise e) s s' h = absurd (cc h)
has_char-add_range c (ok (first, last)) s s' h =
    ap (has_char c) (sym (ok_injective _ _ h))
    ∙ has_char-update c first ((last + 1) - first) s
    ∙ ground arith

by_kind :
    (c : ℕ) (part s s' : Text) (dash : Bool)
    → (if dash then parse_housecode_range part >>= add_range s else add_characters part s) ≡ ok s'
    → has_char c s' ≡ (
        has_char c s
        || (if dash then between_ends (parse_housecode_range part) c else has_char c part))
by_kind c part s s' true h = has_char-add_range c (parse_housecode_range part) s s' h
by_kind c part s s' false h = has_char-add_characters c part s s' h

has_char-add_part :
    (c : ℕ) (part s s' : Text)
    → add_part part s ≡ ok s'
    → has_char c s' ≡ (has_char c s || names_code part c)
unfolding add_part names_code
has_char-add_part c part s s' h = by_kind c part s s' (has_char b'-' part) h

has_char-add_parts :
    (c : ℕ) (parts : List Text) (s s' : Text)
    → add_parts parts s ≡ ok s'
    → has_char c s' ≡ (has_char c s || some_names parts c)
unfolding add_parts some_names names_code has_char
has_char-add_parts c [] s s' h = ground (arith, ap (has_char c) (ok_injective s s' h))
has_char-add_parts c ([] ∷ parts) s s' h = has_char-add_parts c parts s s' h
has_char-add_parts c ((d ∷ p) ∷ parts) s s' h =
    let (mid, first, rest) = >>=-eq-ok (add_part (d ∷ p) s) (add_parts parts) h in
    ground (arith, has_char-add_part c (d ∷ p) s mid first, has_char-add_parts c parts mid s' rest)

unless_none-some :
    (s codes : Text)
    → Path (Result (Option Text)) (ok (unless_none s)) (ok (some codes))
    → s ≡ codes
unfolding unless_none
unless_none-some [] codes h = absurd (cc h)
unless_none-some (c ∷ s) codes h = cc h

parse_value-names :
    (value codes : Text) (c : ℕ) (word : Bool)
    → (if word then ok none else add_parts (parts_of value) [] >>= λ found. ok (unless_none found))
      ≡ ok (some codes)
    → has_char c codes ≡ some_names (parts_of value) c
unfolding has_char
parse_value-names value codes c true h = absurd (cc h)
parse_value-names value codes c false h =
    let (found, added, same) = >>=-eq-ok (add_parts (parts_of value) []) _ h in
    ap (has_char c) (sym (unless_none-some found codes same))
    ∙ has_char-add_parts c (parts_of value) [] found added

-- When a value restricts the house codes, the codes that it allows are exactly those that one of its
-- parts names, in the stripped and upper-cased value: a part with a dash names all codes from its one
-- end to the other, another part names its characters.
pub parse_housecodes-names :
    (raw codes : Text) (c : ℕ)
    → parse_housecodes (some raw) ≡ ok (some codes)
    → has_char c codes ≡ some_names (parts_of (normal raw)) c
unfolding parse_housecodes parse_value
parse_housecodes-names [] codes c h = absurd (cc h)
parse_housecodes-names (d ∷ raw) codes c h = parse_value-names (normal (d ∷ raw)) codes c _ h
