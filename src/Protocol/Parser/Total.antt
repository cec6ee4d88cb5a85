-- ===== src/Protocol/Parser/Total.antt =====
-- protocol/parser.py: every line is parsed, without an exception.
use mochad_mqtt_bridge.Prelude.{
  ℕ, zero, suc, ◌≡◌, refl, sym, ap, ◌∙◌, subst, inl, inr, Bool, true, false, not, ◌||◌, some, List,
  [], ◌∷◌, ◌++◌, append-nil, append_assoc, arith, ◌==◌, if◌then◌else◌, Bool-cases, Option-cases,
  All, All-append, Result, ok,
}
use mochad_mqtt_bridge.Protocol.Regex.Patterns.{folded, is_folded_house}
use mochad_mqtt_bridge.Text.{
  Text, text, text_eq, is_space, upper_char, lower_char, upper, strip, strip_by-All, split_at,
  split_at-piece, Free,
}
use mochad_mqtt_bridge.Models.Enums.{Command}
use mochad_mqtt_bridge.Models.Runtime.{Time}
use mochad_mqtt_bridge.Protocol.Validation.{normalize_address}
use mochad_mqtt_bridge.Protocol.Regex.Search.{
  empty, at_end, seq, group, Regex, Groups, match, group_of,
}
use mochad_mqtt_bridge.Protocol.Regex.Patterns.{house_letter, lit, spaces, timestamp_pattern, all}
use mochad_mqtt_bridge.Protocol.Status.{StatusParser, is_status_line, feed}
use mochad_mqtt_bridge.Protocol.Parser.{ProtocolParser, parse_line, parse_stripped}
use mochad_mqtt_bridge.Protocol.Regex.Patterns.{
  lit, device_selected_re, device_status_re, security_status_re, end_status_re, house_count_re,
  strict_house_status_re,
}
use mochad_mqtt_bridge.Protocol.Status.{matches}
use mochad_mqtt_bridge.Protocol.Regex.Language.{Passes, Parses}
use mochad_mqtt_bridge.Protocol.Regex.Search.{at_end, char, star}
use mochad_mqtt_bridge.Protocol.Regex.Complete.{match_iff}
use mochad_mqtt_bridge.Protocol.Parser.Captured.{no_groups, keep_groups, IsRead}
use mochad_mqtt_bridge.Dict.{Dict}
use mochad_mqtt_bridge.Protocol.Regex.Patterns.{entry_pattern}
use mochad_mqtt_bridge.Protocol.Status.{add_entry, add_entries, feed_active, feed}
use mochad_mqtt_bridge.Protocol.Parser.Captured.{skip, group_after, IsPlain, cut-IsPlain}
use mochad_mqtt_bridge.Protocol.Parser.Returns.{
  Returns, bind-Returns, normalize_address-Returns, letter-read, is_letter, parse_event-Returns,
}
use mochad_mqtt_bridge.Protocol.Regex.Patterns.{lit}
use mochad_mqtt_bridge.Protocol.Parser.{parse_status, Step}
use mochad_mqtt_bridge.Text.{split_at_last}
use mochad_mqtt_bridge.Protocol.Parser.Entries.{
  not_in_blank, IsBlank, Good, Piece, entry-Piece, IsBlank-Passes,
}

comma : (c : ℕ) → (folded c == folded b',') ≡ true → c ≡ b','
unfolding folded lower_char
comma c h = ground arith

-- what follows an entry: a comma in white space, and the next entry
abbrev next_entry : Regex
next_entry = all (star (char is_space) ∷ lit (text ",") ∷ star (char is_space) ∷ entry_pattern ∷ [])

next-Piece :
    (w : Text)
    → IsRead next_entry w
    → (q : Text) × (x : Text) × (w ≡ q ++ b',' ∷ x) × IsBlank q × Piece x
unfolding IsRead Parses
next-Piece w
      (
        t,
        g,
        h,
        (
          q,
          v1,
          f1,
          cut1,
          (n1, more1),
          (
            x,
            v2,
            f2,
            cut2,
            (y, z, f3, cut3, (c, one, test, _), (nil, _)),
            (p, v3, f4, cut4, (n2, more2), (e, v4, f5, cut5, entry, (nil', _))),
          ),
        ),
      ) =
    let blank = IsBlank-Passes n1 q (v1 ++ t) g f1 more1 in
    let blank' = IsBlank-Passes n2 p (v3 ++ t) f2 f4 more2 in
    let sign : x ≡ b',' ∷ [] = rw (cut3, one, nil, comma c test) refl in
    let end : v3 ≡ e = rw (cut5, nil') (append-nil e) in
    (
      q,
      p ++ e,
      rw (cut1, cut2, sign, cut4, end) refl,
      blank,
      entry-Piece p e blank' (v4 ++ t, f4, f5, entry),
    )

pieces-Good :
    (n : ℕ) (x v t : Text) (g h : Groups)
    → Piece x
    → Passes (Parses next_entry) n v t g h
    → All Good (split_at b',' (x ++ v))
unfolding Passes Piece IsRead
pieces-Good zero x v t g h (good, free) (nil, _) =
    rw (nil, append-nil x, split_at_last b',' x free) (subst Good (append-nil x) (good [] tt), tt)
pieces-Good (suc n) x v t g h (good, free) (u, v', f, cut, full, read, more) =
    let (q, y, cut', blank, piece) = next-Piece u (v' ++ t, g, f, read) in
    let line : x ++ v ≡ (x ++ q) ++ b',' ∷ (y ++ v') =
      rw (cut, cut', append_assoc q (b',' ∷ y) v', append_assoc x q (b',' ∷ (y ++ v'))) refl in
    let free' : Free b',' (x ++ q) =
      All-append (λ c. (c == b',') ≡ false) x q free
        (not_in_blank b',' q (unfold is_space in refl) blank) in
    subst (All Good) (sym (ap (split_at b',') line ∙ split_at-piece b',' (x ++ q) (y ++ v') free'))
      (good q blank, pieces-Good n y v' t f h piece more)

-- Every entry of a house's status.
devices-Good :
    (w : Text) → IsRead (seq entry_pattern (star next_entry)) w → All Good (split_at b',' w)
unfolding IsRead Parses
devices-Good w (t, g, h, (e, v, f, cut, entry, (n, more))) =
    subst (λ x. All Good (split_at b',' x)) (sym cut)
      (pieces-Good n e v t f h (entry-Piece [] e tt (v ++ t, g, f, entry)) more)

add_entries-Returns :
    (h : ℕ) (es : List Text) (devices : Dict Command)
    → is_letter h ≡ true
    → All Good es
    → Returns (add_entries (h ∷ []) es devices)
unfolding add_entries add_entry Good
add_entries-Returns h [] devices letter good = (devices, refl)
add_entries-Returns h (e ∷ es) devices letter ((u, v, parted, unit), goods) =
    bind-Returns (add_entry (h ∷ []) e devices) _
      (rw parted (
        bind-Returns (normalize_address (h ∷ strip u)) _
          (normalize_address-Returns h (strip u) letter unit) (λ a. (_, refl))))
      (λ d. add_entries-Returns h es d letter goods)

-- The two groups of a house's status.
status-Captured :
    (w t : Text) (g : Groups)
    → IsPlain w
    → Parses strict_house_status_re w t [] g
    → (a : Text) × (b : Text) × IsRead house_letter a
      × IsPlain a
      × IsRead (seq entry_pattern (star next_entry)) b
      × (g ≡ (text "devices", b) ∷ (text "house", a) ∷ [])
unfolding strict_house_status_re no_groups timestamp_pattern
status-Captured w t g ascii h =
    let devices = seq entry_pattern (star next_entry) in
    let end = seq at_end empty in
    let after_house =
      seq (lit (text ":")) (seq spaces (seq (group (text "devices") devices) end)) in
    let house = seq spaces (seq (group (text "house") house_letter) after_house) in
    let (v, ascii, h) =
      skip timestamp_pattern (seq spaces (seq (lit (text "House")) house)) w t [] g refl ascii h in
    let (v, ascii, h) = skip spaces (seq (lit (text "House")) house) v t [] g refl ascii h in
    let (v, ascii, h) = skip (lit (text "House")) house v t [] g refl ascii h in
    let (v, a, is_a, ascii_a, ascii, h) =
      group_after spaces house_letter after_house (text "house") v t [] g refl refl ascii h in
    let (v, ascii, h) = skip (lit (text ":")) _ v t _ g refl ascii h in
    let (v, b, is_b, _, ascii, h) =
      group_after spaces devices end (text "devices") v t _ g refl refl ascii h in
    (a, b, is_a, ascii_a, is_b, keep_groups end v t _ g refl h)

upper-letter : (h : ℕ) → is_letter h ≡ true → is_letter (upper_char h) ≡ true
unfolding is_letter upper_char
upper-letter h letter = ground arith

feed_active-Returns :
    (line : Text) (p : StatusParser)
    → IsPlain line
    → Returns (feed_active line p (match strict_house_status_re line))
unfolding feed_active group_of text_eq upper
feed_active-Returns line p ascii = elim (Option-cases (match strict_house_status_re line)) [
  | inl e ↦ rw e (elim (Bool-cases (matches end_status_re line)) [
    | inl f ↦ rw f (_, refl)
    | inr f ↦ rw f (_, refl)
  ])
  | inr (g, e) ↦ rw e (
      let (w, t, cut, read) = (match_iff strict_house_status_re line).0 g e in
      let (ascii, _) = cut-IsPlain line w t cut ascii in
      let (a, b, is_a, ascii_a, is_b, same) = status-Captured w t g ascii read in
      let (h, one, letter) = letter-read a ascii_a is_a in
      subst (λ g. Returns (feed_active line p (some g)))
        (sym (same ∙ ap (λ x. (text "devices", b) ∷ (text "house", x) ∷ []) one))
        (bind-Returns (add_entries (upper_char h ∷ []) (split_at b',' b) p.snapshot.devices) _
          (add_entries-Returns (upper_char h) (split_at b',' b) p.snapshot.devices
            (upper-letter h letter) (devices-Good b is_b))
          (λ d. (_, refl))))
]

if-Returns {ℓ} :
    {A : Type ℓ} (b : Bool) (r q : Result A) → Returns r → Returns q → Returns (if b then r else q)
if-Returns true r q h k = h
if-Returns false r q h k = k

strip-IsPlain : (s : Text) → IsPlain s → IsPlain (strip s)
unfolding strip
strip-IsPlain s h = strip_by-All is_space _ s h

-- `feed` raises nothing on a line without letters beyond ASCII that are taken for a house, in any state.
pub feed-Returns : (line : Text) (p : StatusParser) → IsPlain line → Returns (feed line p)
unfolding feed
feed-Returns line p ascii =
    if-Returns (matches device_selected_re (strip line)) _ _ (_, refl)
      (if-Returns (matches device_status_re (strip line) || matches security_status_re (strip line))
        _ _ (_, refl)
        (if-Returns (matches house_count_re (strip line)) _ _ (_, refl)
          (if-Returns (not p.active) _ _ (_, refl)
            (feed_active-Returns (strip line) p (strip-IsPlain line ascii)))))

parse_stripped-Returns :
    (now : Time) (line : Text) (p : ProtocolParser)
    → IsPlain line
    → Returns (parse_stripped now line p)
unfolding parse_stripped parse_status
parse_stripped-Returns now [] p ascii = (_, refl)
parse_stripped-Returns now (c ∷ s) p ascii =
    if-Returns (is_status_line (c ∷ s)) _ _
      (bind-Returns (feed (c ∷ s) p.status) _ (feed-Returns (c ∷ s) p.status ascii)
        (λ (o, q). (_, refl)))
      (parse_event-Returns now (c ∷ s) p ascii)

-- Whatever line mochad sends, unless it has one of the characters U+212A and U+0130, which IGNORECASE
-- takes for K and I and `upper` does not, and in whatever state the parser is, `parse_line` returns
-- and raises nothing: each token that it looks up in a table is there, and each address and house is valid.
pub parse_line_returns :
    (now : Time) (line : Text) (p : ProtocolParser)
    → All (λ c. is_folded_house c ≡ false) line
    → (step : Step) × (parse_line now line p ≡ ok step)
unfolding parse_line
parse_line_returns now line p ascii =
    parse_stripped-Returns now (strip line) p (strip-IsPlain line ascii)
