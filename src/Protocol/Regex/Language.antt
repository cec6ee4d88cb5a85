-- ===== src/Protocol/Regex/Language.antt =====
-- The language of a pattern, and what the backtracking search finds in it.
use mochad_mqtt_bridge.Prelude.{
  ℕ, zero, suc, ◌-◌, ◌≡◌, refl, ap, ◌≢◌, ◌⊎◌, true, [], ◌∷◌, ◌++◌, arith, length, length-append,
}
use mochad_mqtt_bridge.Text.{Text}
use mochad_mqtt_bridge.Protocol.Regex.Search.{
  Regex, empty, at_end, char, seq, alt, star, lazy, group, Groups, take, taken, is_end,
}

-- A language: which text is read in front of which rest, and what that makes of the groups.
abbrev pub Reads : Type 1
Reads = Text → Text → Groups → Groups → Type 0

-- So many readings one after the other, none of them empty.
unfoldable pub Passes : Reads → ℕ → Reads
Passes R zero w t g h = (w ≡ []) × (h ≡ g)
Passes R (suc n) w t g h =
    (u : Text) × (v : Text) × (f : Groups) × (w ≡ u ++ v)
    × (u ≢ [])
    × R u (v ++ t) g f
    × Passes R n v t f h

-- What a pattern reads, told without a search.
unfoldable pub Parses : Regex → Reads
unfolding Passes
Parses empty w t g h = (w ≡ []) × (h ≡ g)
Parses at_end w t g h = (w ≡ []) × (is_end t ≡ true) × (h ≡ g)
Parses (char p) w t g h = (c : ℕ) × (w ≡ c ∷ []) × (p c ≡ true) × (h ≡ g)
Parses (seq r q) w t g h =
    (u : Text) × (v : Text) × (f : Groups) × (w ≡ u ++ v)
    × Parses r u (v ++ t) g f
    × Parses q v t f h
Parses (alt r q) w t g h = Parses r w t g h ⊎ Parses q w t g h
Parses (star r) w t g h = (n : ℕ) × Passes (Parses r) n w t g h
Parses (lazy r) w t g h = (n : ℕ) × Passes (Parses r) n w t g h
Parses (group name r) w t g h = (f : Groups) × Parses r w t g f × (h ≡ (name, w) ∷ f)

take-append : (w t : Text) → take (length w) (w ++ t) ≡ w
unfolding take
take-append [] t = refl
take-append (c ∷ w) t = ap (◌∷◌ c) (take-append w t)

pub taken-append : (w t : Text) → taken (w ++ t) t ≡ w
unfolding taken
taken-append w t =
    let size : length (w ++ t) - length t ≡ length w = omega (arith, length-append w t) in
    rw size (take-append w t)

-- Any number of non-empty readings.
abbrev pub Repeated : Reads → Reads
Repeated R w t g h = (n : ℕ) × Passes R n w t g h
