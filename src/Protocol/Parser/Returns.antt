-- ===== src/Protocol/Parser/Returns.antt =====
-- protocol/parser.py: no line makes `parse_line` raise.
use mochad_mqtt_bridge.Prelude.{
  not, ℕ, ◌≡◌, refl, sym, ap, ◌∙◌, subst, inl, inr, Bool, true, false, ◌||◌, false≢true, [], ◌∷◌,
  ◌++◌, arith, ◌==◌, between, Option-cases, Result, ok, ◌>>=◌,
}
use mochad_mqtt_bridge.Protocol.Regex.Patterns.{folded, is_folded_house, is_any_house}
use mochad_mqtt_bridge.Text.{
  Text, text, text_eq, is_space, upper_char, lower_char, upper, strip, LastKept, strip_by_kept,
  join, words,
}
use mochad_mqtt_bridge.Text.Normal.{normal}
use mochad_mqtt_bridge.Models.Enums.{rx, tx, Transport}
use mochad_mqtt_bridge.Models.Runtime.{Time}
use mochad_mqtt_bridge.Protocol.Validation.{
  normalize_address, normalize_house, normalize_token, match_unit,
}
use mochad_mqtt_bridge.Protocol.Validation.Addresses.{is_address, normalize_address-eq}
use mochad_mqtt_bridge.Protocol.Regex.Search.{Groups, match, group_of}
use mochad_mqtt_bridge.Protocol.Regex.Patterns.{
  house_letter, lit, address_pattern, direction_pattern, transport_pattern, device_event_re,
  house_event_re,
}
use mochad_mqtt_bridge.Protocol.Parser.{
  ProtocolParser, parse_event, parse_device, parse_house, direction_map, transport_map,
}
use mochad_mqtt_bridge.Protocol.Regex.Patterns.{lit}
use mochad_mqtt_bridge.Protocol.Regex.Language.{Parses}
use mochad_mqtt_bridge.Protocol.Regex.Patterns.{unit_number}
use mochad_mqtt_bridge.Protocol.Regex.Complete.{match_iff}
use mochad_mqtt_bridge.Protocol.Parser.Captured.{
  no_groups, IsPlain, cut-IsPlain, IsRead, Captured, event_pattern-Captured,
}

-- A value, and no exception.
abbrev pub Returns {ℓ} : {A : Type ℓ} → Result A → Type ℓ
Returns {A = A} r = (a : A) × (r ≡ ok a)

pub bind-Returns {ℓ κ} :
    {A : Type ℓ} {B : Type κ} (r : Result A) (f : A → Result B)
    → Returns r
    → ((a : A) → Returns (f a))
    → Returns (r >>= f)
bind-Returns r f (a, h) next = subst (λ x. Returns (x >>= f)) (sym h) (next a)

-- Not one of the letters that others beyond ASCII are taken for.
no_folded : ℕ → Bool
no_folded k = not (k == b'K' || (k == b'I' || k == b'S'))

-- A letter in either case, for a capital letter that no letter beyond ASCII is taken for.
same_letter :
    (k c : ℕ)
    → between b'A' b'Z' k ≡ true
    → no_folded k ≡ true
    → (folded c == folded k) ≡ true
    → (upper_char c ≡ k) × (is_space c ≡ false)
unfolding folded lower_char upper_char is_space no_folded
same_letter k c capital plain same = (ground arith, ground arith)

-- A word of two letters in either case is normalised to capital letters.
token-two :
    (k l : ℕ) (w : Text)
    → between b'A' b'Z' k ≡ true
    → between b'A' b'Z' l ≡ true
    → no_folded k ≡ true
    → no_folded l ≡ true
    → IsRead (lit (k ∷ l ∷ [])) w
    → normalize_token w ≡ join (text " ") (words (k ∷ l ∷ []))
unfolding IsRead Parses normalize_token strip upper
token-two k l w capital capital' plain plain'
      (
        t,
        g,
        h,
        (u, v, f, cut, (c, one, test, _), (u', v', f', cut', (c', one', test', _), (nil, _))),
      ) =
    let (big, solid) = same_letter k c capital plain test in
    let (big', solid') = same_letter l c' capital' plain' test' in
    let two : w ≡ c ∷ c' ∷ [] = rw (cut, one, cut', one', nil) refl in
    let kept : strip w ≡ c ∷ c' ∷ [] =
      ap strip two ∙ strip_by_kept is_space (c ∷ c' ∷ []) solid solid' in
    ap (λ x. join (text " ") (words (upper x))) kept ∙ rw (big, big') refl

direction_map-Returns :
    (w : Text) → IsRead direction_pattern w → Returns (direction_map (normalize_token w))
unfolding IsRead Parses no_folded direction_map text_eq join words folded
direction_map-Returns w (t, g, h, inl read) =
    (tx, rw (token-two b'T' b'X' w refl refl refl refl (t, g, h, read)) refl)
direction_map-Returns w (t, g, h, inr read) =
    (rx, rw (token-two b'R' b'X' w refl refl refl refl (t, g, h, read)) refl)

transport_map-Returns :
    (w : Text) → IsRead transport_pattern w → Returns (transport_map (normalize_token w))
unfolding IsRead Parses no_folded transport_map text_eq join words folded
transport_map-Returns w (t, g, h, inl read) =
    (Transport.rf, rw (token-two b'R' b'F' w refl refl refl refl (t, g, h, read)) refl)
transport_map-Returns w (t, g, h, inr read) =
    (Transport.pl, rw (token-two b'P' b'L' w refl refl refl refl (t, g, h, read)) refl)

-- A letter of a house and what it is normalised to.
unfoldable pub is_letter : ℕ → Bool
is_letter h = between b'A' b'P' h || (between b'a' b'p' h || h == 305)

letter-upper :
    (h : ℕ) → is_letter h ≡ true → (between b'A' b'P' (upper_char h) ≡ true) × (is_space h ≡ false)
unfolding is_letter upper_char is_space
letter-upper h letter = (ground arith, ground arith)

-- A number of a unit ends in a digit, has no letters, and is no space.
pub unit_last : (u : Text) → match_unit u ≡ true → LastKept is_space u × (upper u ≡ u)
unfolding match_unit upper is_space upper_char
unit_last [] good = absurd (ground arith)
unit_last (d ∷ []) good = (ground arith, ground arith)
unit_last (d ∷ e ∷ []) good = (ground arith, ground arith)
unit_last (d ∷ e ∷ f ∷ u) good = absurd (ground arith)

pub last_of :
    (h : ℕ) (u : Text) → match_unit u ≡ true → LastKept is_space u → LastKept is_space (h ∷ u)
unfolding match_unit
last_of h [] good last = absurd (false≢true good)
last_of h (d ∷ u) good last = last

-- An address whose letter is in either case is normalised.
pub normalize_address-Returns :
    (h : ℕ) (u : Text)
    → is_letter h ≡ true
    → match_unit u ≡ true
    → Returns (normalize_address (h ∷ u))
unfolding strip upper is_address
normalize_address-Returns h u letter unit =
    let (big, solid) = letter-upper h letter in
    let (last, same) = unit_last u unit in
    let kept : normal (h ∷ u) ≡ upper_char h ∷ u =
      ap upper (strip_by_kept is_space (h ∷ u) solid (last_of h u unit last))
      ∙ ap (◌∷◌ (upper_char h)) same in
    (upper_char h ∷ u, normalize_address-eq (h ∷ u) ∙ rw (kept, big, unit) refl)

normalize_house-Returns : (h : ℕ) → is_letter h ≡ true → Returns (normalize_house (h ∷ []))
unfolding strip upper normalize_house
normalize_house-Returns h letter =
    let (big, solid) = letter-upper h letter in
    let kept : upper (strip (h ∷ [])) ≡ upper_char h ∷ [] =
      ap upper (strip_by_kept is_space (h ∷ []) solid solid) in
    (upper_char h ∷ [], rw (kept, big) refl)

-- What the pattern of an address reads.
pub unit-read : (w : Text) → IsRead unit_number w → match_unit w ≡ true
unfolding IsRead Parses match_unit lower_char folded
unit-read w (t, g, h, inl (d, one, test, _)) = rw (one, test) refl
unit-read w (t, g, h, inr (u, v, f, cut, (d, one, test, _), (e, one', test', _))) =
    rw (cut, one, one') (ground (arith, test, test'))

plain-letter : (c : ℕ) → is_folded_house c ≡ false → is_any_house c ≡ true → is_letter c ≡ true
unfolding is_any_house is_letter
plain-letter c plain any = ground (arith, plain, any)

pub letter-read :
    (w : Text) → IsPlain w → IsRead house_letter w → (h : ℕ) × (w ≡ h ∷ []) × (is_letter h ≡ true)
unfolding IsRead Parses
letter-read w ascii (t, g, h, (c, one, test, _)) =
    (c, one, plain-letter c (subst IsPlain one ascii).0 test)

address-read : (w : Text) → IsPlain w → IsRead address_pattern w → Returns (normalize_address w)
unfolding IsRead Parses is_letter
address-read w ascii (t, g, h, (u, v, f, cut, (c, one, test, _), unit)) =
    let good = unit-read v (t, f, h, unit) in
    let letter = plain-letter c (subst IsPlain (cut ∙ ap (λ x. x ++ v) one) ascii).0 test in
    subst (λ x. Returns (normalize_address x)) (sym (cut ∙ ap (λ x. x ++ v) one))
      (normalize_address-Returns c v letter good)

house-read : (w : Text) → IsPlain w → IsRead house_letter w → Returns (normalize_house w)
house-read w ascii read =
    let (c, one, letter) = letter-read w ascii read in
    subst (λ x. Returns (normalize_house x)) (sym one) (normalize_house-Returns c letter)

-- The branches of events, for the groups that were captured.
parse_device-Returns :
    (now : Time) (g : Groups) (p : ProtocolParser)
    → Captured (text "address") address_pattern g
    → Returns (parse_device now g p)
unfolding Captured parse_device group_of text_eq
parse_device-Returns now g p (d, t, m, c, is_d, is_t, is_m, ascii, same) =
    subst (λ g. Returns (parse_device now g p)) (sym same)
      (bind-Returns (transport_map (normalize_token t)) _ (transport_map-Returns t is_t) (λ t.
        bind-Returns (direction_map (normalize_token d)) _ (direction_map-Returns d is_d)
          (λ d. bind-Returns (normalize_address m) _ (address-read m ascii is_m) (λ a. (_, refl)))))

parse_house-Returns :
    (now : Time) (g : Groups) (p : ProtocolParser)
    → Captured (text "house") house_letter g
    → Returns (parse_house now g p)
unfolding Captured parse_house group_of text_eq
parse_house-Returns now g p (d, t, m, c, is_d, is_t, is_m, ascii, same) =
    subst (λ g. Returns (parse_house now g p)) (sym same)
      (bind-Returns (transport_map (normalize_token t)) _ (transport_map-Returns t is_t) (λ t.
        bind-Returns (direction_map (normalize_token d)) _ (direction_map-Returns d is_d)
          (λ d. bind-Returns (normalize_house m) _ (house-read m ascii is_m) (λ a. (_, refl)))))

pub parse_event-Returns :
    (now : Time) (line : Text) (p : ProtocolParser)
    → IsPlain line
    → Returns (parse_event now line p (match device_event_re line) (match house_event_re line))
unfolding parse_event device_event_re house_event_re no_groups
parse_event-Returns now line p ascii = elim (Option-cases (match device_event_re line)) [
  | inl e ↦ rw e (elim (Option-cases (match house_event_re line)) [
    | inl f ↦ rw f (_, refl)
    | inr (g, f) ↦ rw f (
        let (w, t, cut, read) = (match_iff house_event_re line).0 g f in
        let (ascii, _) = cut-IsPlain line w t cut ascii in
        parse_house-Returns now g p (
          event_pattern-Captured (text "House:") (text "house") w t house_letter g refl refl ascii
            read))
  ])
  | inr (g, e) ↦ rw e (
      let (w, t, cut, read) = (match_iff device_event_re line).0 g e in
      let (ascii, _) = cut-IsPlain line w t cut ascii in
      parse_device-Returns now g p (
        event_pattern-Captured (text "HouseUnit:") (text "address") w t address_pattern g refl refl
          ascii read))
]
