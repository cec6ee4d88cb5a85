-- ===== src/Topics/Commands.antt =====
-- Command topics: what is built is what is read.
use mochad_mqtt_bridge.Prelude.{
  ◌≤◌, ◌≡◌, refl, sym, ◌∙◌, subst, inl, inr, true, false, false≢true, List, [], ◌∷◌, ◌++◌, arith,
  Bool-cases, length, topic_error, ok, raise, >>=-eq-ok, ok_injective,
}
use mochad_mqtt_bridge.Text.{
  Text, text, text_eq, text_eq_refl, strip, strip_char, LastKept, split_at, join, Free,
  split_at-join,
}
use mochad_mqtt_bridge.Topics.{
  has_char, clean_segment, match_topic_address, topic_address, device_topic, command_topic,
  command_parts, parse_command_topic,
}
use mochad_mqtt_bridge.Text.Normal.{normal, normal_idem}
use mochad_mqtt_bridge.Protocol.Validation.{match_unit}
use mochad_mqtt_bridge.Topics.Segments.{
  StartsClean, slash, clean_segment-StartsClean, append-LastKept, strip_char-topic, Free-has_char,
  count_char, length-split_at, count_char-append, count_char-has,
}

-- The three pieces of a topic, written out.
abbrev pub three : Text → Text → Text → Text
three b a s = b ++ b'/' ∷ (a ++ b'/' ∷ s)

pub Free-unit : (u : Text) → match_unit u ≡ true → Free b'/' u
unfolding match_unit
Free-unit [] h = tt
Free-unit (d ∷ []) h = (ground arith, tt)
Free-unit (d ∷ e ∷ []) h = (ground arith, (ground arith, tt))
Free-unit (d ∷ e ∷ f ∷ u) h = absurd (false≢true h)

pub Free-address : (a : Text) → match_topic_address a ≡ true → Free b'/' a
unfolding match_topic_address
Free-address [] h = tt
Free-address (c ∷ u) h = (ground arith, Free-unit u (ground arith))

-- What `Topics._address` accepts, it returns normalised.
pub topic_address-ok :
    (s a : Text) → topic_address s ≡ ok a → (normal s ≡ a) × (match_topic_address a ≡ true)
unfolding topic_address
topic_address-ok s a h = elim (Bool-cases (match_topic_address (normal s))) [
  | inl good ↦ let same : normal s ≡ a = ground arith in (same, rw (← same) good)
  | inr bad ↦ absurd (ground arith)
]

-- A device topic consists of the three pieces.
pub device_topic-three :
    (d s b t : Text)
    → device_topic d s b ≡ ok t
    → (base : Text) × (address : Text) × (suffix : Text) × (clean_segment b ≡ ok base)
      × (topic_address d ≡ ok address)
      × (clean_segment s ≡ ok suffix)
      × (t ≡ three base address suffix)
unfolding device_topic join
device_topic-three d s b t h =
    let (base, cleaned, h) = >>=-eq-ok (clean_segment b) _ h in
    let (address, read, h) = >>=-eq-ok (topic_address d) _ h in
    let (suffix, ended, h) = >>=-eq-ok (clean_segment s) _ h in
    (base, address, suffix, cleaned, read, ended, sym (ok_injective _ _ h))

module _ (base address : Text) (h : StartsClean base) where
  -- What a parser splits: the topic itself.
  strip_char-three :
      (suffix : Text)
      → LastKept slash (b'/' ∷ suffix)
      → strip_char b'/' (three base address suffix) ≡ three base address suffix
  strip_char-three suffix l =
      strip_char-topic base b'/' (address ++ b'/' ∷ suffix) h
        (append-LastKept (b'/' ∷ address) b'/' suffix l)

  pub split_at-three :
      (suffix : Text)
      → LastKept slash (b'/' ∷ suffix)
      → Free b'/' base
      → Free b'/' address
      → Free b'/' suffix
      → split_at b'/' (strip_char b'/' (three base address suffix)) ≡ base ∷ address ∷ suffix ∷ []
  unfolding join
  split_at-three suffix l f g k =
      rw (strip_char-three suffix l)
        (split_at-join b'/' base (address ∷ suffix ∷ []) (f, (g, (k, tt))))

  more_parts :
      (suffix : Text)
      → LastKept slash (b'/' ∷ suffix)
      → has_char b'/' base ≡ true
      → 4 ≤ length (split_at b'/' (strip_char b'/' (three base address suffix)))
  unfolding count_char
  more_parts suffix l inner = rw (strip_char-three suffix l) (
      omega (
        arith,
        length-split_at b'/' (three base address suffix),
        count_char-append b'/' base (b'/' ∷ (address ++ b'/' ∷ suffix)),
        count_char-append b'/' address (b'/' ∷ suffix),
        count_char-has b'/' base inner,
      ))

command_parts-long :
    (base : Text) (ps : List Text) → 4 ≤ length ps → command_parts base ps ≡ raise topic_error
unfolding command_parts
command_parts-long base [] h = absurd (omega arith)
command_parts-long base (p ∷ []) h = absurd (omega arith)
command_parts-long base (p ∷ q ∷ []) h = absurd (omega arith)
command_parts-long base (p ∷ q ∷ r ∷ []) h = absurd (omega arith)
command_parts-long base (p ∷ q ∷ r ∷ s ∷ ps) h = refl

command_parts-three :
    (base address : Text)
    → command_parts base (base ∷ address ∷ text "command" ∷ []) ≡ topic_address address
unfolding command_parts text_eq
command_parts-three base address = rw (text_eq_refl base)

pub topic_address-fixed : (d a : Text) → topic_address d ≡ ok a → topic_address a ≡ ok a
unfolding topic_address
topic_address-fixed d a h =
    let (same, good) = topic_address-ok d a h in
    let fixed : normal a ≡ a = rw (← same) (normal_idem d) in rw (fixed, good)

cleaned_command : clean_segment (text "command") ≡ ok (text "command")
unfolding clean_segment strip strip_char has_char
cleaned_command = refl

pub command_topic-three :
    (d b base t : Text)
    → clean_segment b ≡ ok base
    → command_topic d b ≡ ok t
    → (address : Text) × (topic_address d ≡ ok address) × (t ≡ three base address (text "command"))
unfolding command_topic
command_topic-three d b base t cleaned h =
    let (base', address, suffix, cleaned', read, ended, built) =
      device_topic-three d (text "command") b t h in
    let same : base' ≡ base = ok_injective _ _ (sym cleaned' ∙ cleaned) in
    let last : suffix ≡ text "command" = ok_injective _ _ (sym ended ∙ cleaned_command) in
    (
      address,
      read,
      subst (λ x. t ≡ three x address (text "command")) same
          (subst (λ x. t ≡ three base' address x) last built),
    )

-- A command topic that is built for a device, under a base topic whose cleaned form has no slash
-- inside, is read back as the address of the device.
pub parse_command_topic-command_topic :
    (device base_topic base topic : Text)
    → clean_segment base_topic ≡ ok base
    → has_char b'/' base ≡ false
    → command_topic device base_topic ≡ ok topic
    → parse_command_topic topic base_topic ≡ topic_address device
unfolding parse_command_topic command_topic
parse_command_topic-command_topic d bt base topic cleaned flat h =
    let (address, read, built) = command_topic-three d bt base topic cleaned h in
    rw
      (
        cleaned,
        built,
        read,
        split_at-three base address (clean_segment-StartsClean bt base cleaned) (text "command")
            refl (Free-has_char b'/' base flat)
            (Free-address address (topic_address-ok d address read).1)
            (Free-has_char b'/' (text "command") (unfold has_char in refl)),
        command_parts-three base address,
      )
      (topic_address-fixed d address read)

-- Under a base topic whose cleaned form has a slash inside, every command topic that is built is
-- rejected.
pub inner_slash_rejected :
    (device base_topic base topic : Text)
    → clean_segment base_topic ≡ ok base
    → has_char b'/' base ≡ true
    → command_topic device base_topic ≡ ok topic
    → parse_command_topic topic base_topic ≡ raise topic_error
unfolding parse_command_topic command_topic
inner_slash_rejected d bt base topic cleaned inner h =
    let (address, read, built) = command_topic-three d bt base topic cleaned h in
    rw (cleaned, built)
      (command_parts-long base _ (
        more_parts base address (clean_segment-StartsClean bt base cleaned) (text "command") refl
          inner))
