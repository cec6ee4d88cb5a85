-- ===== src/Protocol/Parser/Captured.antt =====
-- protocol/regex.py: what the groups of a match can be.
use mochad_mqtt_bridge.Prelude.{
  ℕ, zero, suc, ◌≡◌, refl, ap, ◌∙◌, subst, inl, inr, Bool, true, false, ◌&&◌, false≢true, [], ◌∷◌,
  ◌++◌, arith, All,
}
use mochad_mqtt_bridge.Text.{Text, text}
use mochad_mqtt_bridge.Protocol.Regex.Search.{empty, at_end, seq, group, Regex, Groups}
use mochad_mqtt_bridge.Protocol.Regex.Patterns.{
  some_text, lit, spaces, direction_pattern, transport_pattern, timestamp_pattern, is_folded_house,
}
use mochad_mqtt_bridge.Protocol.Regex.Patterns.{lit}
use mochad_mqtt_bridge.Protocol.Regex.Language.{Reads, Passes, Parses}
use mochad_mqtt_bridge.Protocol.Regex.Search.{at_end, char, alt, star, lazy}
use mochad_mqtt_bridge.Protocol.Regex.Patterns.{event_pattern}

unfoldable pub no_groups : Regex → Bool
no_groups empty = true
no_groups at_end = true
no_groups (char p) = true
no_groups (seq r q) = no_groups r && no_groups q
no_groups (alt r q) = no_groups r && no_groups q
no_groups (star r) = no_groups r
no_groups (lazy r) = no_groups r
no_groups (group n r) = false

keep-Passes :
    (R : Reads)
    → ((w t : Text) (g h : Groups) → R w t g h → h ≡ g)
    → (n : ℕ) (w t : Text) (g h : Groups) → Passes R n w t g h
    → h ≡ g
unfolding Passes
keep-Passes R keep zero w t g h (cut, same) = same
keep-Passes R keep (suc n) w t g h (u, v, f, cut, full, read, more) =
    keep-Passes R keep n v t f h more ∙ keep u (v ++ t) g f read

-- A pattern without groups leaves the groups.
pub keep_groups :
    (r : Regex) (w t : Text) (g h : Groups) → no_groups r ≡ true → Parses r w t g h → h ≡ g
unfolding Parses no_groups
keep_groups empty w t g h n (cut, same) = same
keep_groups at_end w t g h n (cut, ends, same) = same
keep_groups (char p) w t g h n (c, one, test, same) = same
keep_groups (seq r q) w t g h n (u, v, f, cut, read, more) =
    keep_groups q v t f h (ground arith) more ∙ keep_groups r u (v ++ t) g f (ground arith) read
keep_groups (alt r q) w t g h n (inl read) = keep_groups r w t g h (ground arith) read
keep_groups (alt r q) w t g h n (inr read) = keep_groups q w t g h (ground arith) read
keep_groups (star r) w t g h n (m, more) =
    keep-Passes (Parses r) (λ w t g h. keep_groups r w t g h n) m w t g h more
keep_groups (lazy r) w t g h n (m, more) =
    keep-Passes (Parses r) (λ w t g h. keep_groups r w t g h n) m w t g h more
keep_groups (group name r) w t g h n read = absurd (false≢true n)

-- A text that a pattern without groups reads somewhere.
unfoldable pub IsRead : Regex → Text → Type 0
IsRead r w = (t : Text) × (g : Groups) × (h : Groups) × Parses r w t g h

-- No character beyond ASCII that is taken for a house letter.
abbrev pub IsPlain : Text → Type 0
IsPlain s = All (λ c. is_folded_house c ≡ false) s

append-IsPlain : (u v : Text) → IsPlain (u ++ v) → IsPlain u × IsPlain v
append-IsPlain [] v h = (tt, h)
append-IsPlain (c ∷ u) v (p, h) = let (h, k) = append-IsPlain u v h in ((p, h), k)

pub cut-IsPlain : (w u v : Text) → w ≡ u ++ v → IsPlain w → IsPlain u × IsPlain v
cut-IsPlain w u v e h = append-IsPlain u v (subst IsPlain e h)

-- One more group after a pattern without groups.
pub group_after :
    (r q rest : Regex) (name w t : Text) (g h : Groups)
    → no_groups r ≡ true
    → no_groups q ≡ true
    → IsPlain w
    → Parses (seq r (seq (group name q) rest)) w t g h
    → (v : Text) × (x : Text) × IsRead q x
      × IsPlain x
      × IsPlain v
      × Parses rest v t ((name, x) ∷ g) h
unfolding Parses IsRead
group_after r q rest name w t g h plain plain' ascii
      (u, v, f, cut, read, (x, v', f', cut', (e, inside, made), more)) =
    let same : e ≡ g =
      keep_groups q x (v' ++ t) f e plain' inside ∙ keep_groups r u (v ++ t) g f plain read in
    let (_, ascii) = cut-IsPlain w u v cut ascii in
    let (ascii, ascii') = cut-IsPlain v x v' cut' ascii in
    (
      v',
      x,
      (v' ++ t, f, e, inside),
      ascii,
      ascii',
      subst (λ y. Parses rest v' t y h) (made ∙ ap (λ y. (name, x) ∷ y) same) more,
    )

pub skip :
    (r rest : Regex) (w t : Text) (g h : Groups)
    → no_groups r ≡ true
    → IsPlain w
    → Parses (seq r rest) w t g h
    → (v : Text) × IsPlain v × Parses rest v t g h
unfolding Parses
skip r rest w t g h plain ascii (u, v, f, cut, read, more) = (
  v,
  (cut-IsPlain w u v cut ascii).1,
  subst (λ y. Parses rest v t y h) (keep_groups r u (v ++ t) g f plain read) more,
)

-- The four groups of an event.
unfoldable pub Captured : Text → Regex → Groups → Type 0
Captured name middle g =
    (d : Text) × (tr : Text) × (m : Text) × (c : Text) × IsRead direction_pattern d
    × IsRead transport_pattern tr
    × IsRead middle m
    × IsPlain m
    × (g ≡ (text "command", c) ∷ (name, m) ∷ (text "transport", tr) ∷ (text "direction", d) ∷ [])

pub event_pattern-Captured :
    (label name w t : Text) (middle : Regex) (g : Groups)
    → no_groups (lit label) ≡ true
    → no_groups middle ≡ true
    → IsPlain w
    → Parses (event_pattern label name middle) w t [] g
    → Captured name middle g
unfolding Captured no_groups timestamp_pattern
event_pattern-Captured label name w t middle g plain plain' ascii h =
    let end = seq at_end empty in
    let func = seq spaces (seq (group (text "command") some_text) end) in
    let after_middle = seq spaces (seq (lit (text "Func:")) func) in
    let labelled =
      seq spaces (seq (lit label) (seq spaces (seq (group name middle) after_middle))) in
    let transport = seq spaces (seq (group (text "transport") transport_pattern) labelled) in
    let direction = seq spaces (seq (group (text "direction") direction_pattern) transport) in
    let (v, ascii, h) = skip timestamp_pattern direction w t [] g refl ascii h in
    let (v, d, is_d, _, ascii, h) =
      group_after spaces direction_pattern transport (text "direction") v t [] g refl refl ascii
        h in
    let (v, tr, is_tr, _, ascii, h) =
      group_after spaces transport_pattern labelled (text "transport") v t _ g refl refl ascii h in
    let (v, ascii, h) = skip spaces _ v t _ g refl ascii h in
    let (v, ascii, h) = skip (lit label) _ v t _ g plain ascii h in
    let (v, m, is_m, ascii_m, ascii, h) =
      group_after spaces middle after_middle name v t _ g refl plain' ascii h in
    let (v, ascii, h) = skip spaces _ v t _ g refl ascii h in
    let (v, ascii, h) = skip (lit (text "Func:")) _ v t _ g refl ascii h in
    let (v, c, is_c, _, ascii, h) =
      group_after spaces some_text end (text "command") v t _ g refl refl ascii h in
    (d, tr, m, c, is_d, is_tr, is_m, ascii_m, keep_groups end v t _ g refl h)
