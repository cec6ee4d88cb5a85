-- ===== src/Discovery/Valid.antt =====
-- discovery.py: which devices have a discovery message.
use mochad_mqtt_bridge.Prelude.{
  ◌≡◌, refl, sym, inl, inr, Bool, true, false, not, ◌||◌, false≢true, Option, none, some, List, [],
  ◌∷◌, ◌++◌, arith, if◌then◌else◌, Bool-cases, discovery_error, ok, raise, ◌>>=◌,
}
use mochad_mqtt_bridge.Text.{Text, text, text_eq, strip, strip_char, split_at, split_at-piece, Free}
use mochad_mqtt_bridge.Models.Enums.{DeviceType, switch, light, chime}
use mochad_mqtt_bridge.Models.Runtime.{Json, str, obj, Fields, end, field}
use mochad_mqtt_bridge.Models.Payloads.{
  Publication, MochadDiagnostics, has_field, get_field, put_field, truthy,
}
use mochad_mqtt_bridge.Topics.{has_char, clean_segment, entity_type}
use mochad_mqtt_bridge.Topics.Segments.{StartsClean, Free-has_char}
use mochad_mqtt_bridge.Discovery.Blocks.{
  block_start, linked, same, DiscoveryManager, device_block, put_given, controller_of, daemon_of,
  version_of,
}
use mochad_mqtt_bridge.Discovery.Messages.{
  is_chime, button_fields, state_fields, block_keys, has_fields, block_has, require, component_of,
  given, validate_message,
}

pub has_field-put_field :
    (key k : Text) (value : Json) (payload : Fields)
    → has_field key payload ≡ true
    → has_field key (put_field k value payload) ≡ true
unfolding has_field put_field
has_field-put_field key k value end h = absurd (false≢true h)
has_field-put_field key k value (field l v rest) h = elim (Bool-cases (text_eq l k)) [
  | inl e ↦ rw e h
  | inr e ↦ rw e (elim (Bool-cases (text_eq l key)) [
    | inl f ↦ rw f refl
    | inr f ↦ rw f (has_field-put_field key k value rest (ground arith))
  ])
]

has_fields-put_given :
    (keys : List Text) (k : Text) (o : Option Text) (f : Text → Text) (payload : Fields)
    → has_fields keys payload ≡ true
    → has_fields keys (put_given k o f payload) ≡ true
unfolding has_fields
has_fields-put_given keys k none f payload h = h
has_fields-put_given [] k (some s) f payload h = refl
has_fields-put_given (key ∷ keys) k (some s) f payload h =
    let rest = has_fields-put_given keys k (some s) f payload (ground arith) in
    let this = has_field-put_field key k (str (f s)) payload (ground arith) in
    ground (arith, rest, this)

-- Whatever mochad reports, the device block has the fields that `_validate_message` asks for.
pub block_has-device_block :
    (m : DiscoveryManager) (d : Option MochadDiagnostics)
    → block_has block_keys (some (obj (device_block m d))) ≡ true
unfolding block_has device_block has_fields has_field text_eq
block_has-device_block m d =
    let start = block_start m d in
    let payload = put_given (text "model_id") (daemon_of m d) same start in
    let payload' = put_given (text "hw_version") (controller_of m d) same payload in
    has_fields-put_given block_keys (text "configuration_url") (version_of m d) linked payload' (
      has_fields-put_given block_keys (text "hw_version") (controller_of m d) same payload
        (has_fields-put_given block_keys (text "model_id") (daemon_of m d) same start refl))

-- A topic's second piece is its component.
pub component_of-topic :
    (p e s : Text)
    → Free b'/' p
    → Free b'/' e
    → component_of (split_at b'/' (p ++ b'/' ∷ (e ++ b'/' ∷ s))) ≡ ok e
unfolding component_of
component_of-topic p e s free free' =
    rw (split_at-piece b'/' p (e ++ b'/' ∷ s) free, split_at-piece b'/' e s free') refl

truthy-str : (s : Text) → truthy (str s) ≡ given s
unfolding truthy given
truthy-str [] = refl
truthy-str (c ∷ s) = refl

module _ (m : DiscoveryManager) (d : Option MochadDiagnostics) (topic component name id : Text)
    (command availability : Text) (at : component_of (split_at b'/' topic) ≡ ok component)
    (topic_given : given topic ≡ true) (id_given : given id ≡ true)
    (command_given : given command ≡ true) (availability_given : given availability ≡ true) where
  -- A button's payload is valid under the component "button" only.
  pub validate_message-button :
      validate_message topic (button_fields m d name id command availability)
      ≡ require (text_eq component (text "button"))
  unfolding validate_message text_eq has_field get_field
  validate_message-button =
      rw
        (
          at,
          topic_given,
          truthy-str id,
          id_given,
          truthy-str command,
          command_given,
          truthy-str availability,
          availability_given,
          block_has-device_block m d,
        )
        (elim (Bool-cases (text_eq component (text "button"))) [
          | inl e ↦ rw e refl
          | inr e ↦ rw e refl
        ])

  -- The payload of a device with a state is valid under any other component.
  pub validate_message-state :
      (kind state : Text)
      → given state ≡ true
      → validate_message topic (state_fields m d name kind id state command availability)
        ≡ require (not (text_eq component (text "button")))
  unfolding validate_message text_eq has_field get_field
  validate_message-state kind state state_given =
      rw
        (
          at,
          topic_given,
          truthy-str id,
          id_given,
          truthy-str command,
          command_given,
          truthy-str availability,
          availability_given,
          truthy-str state,
          state_given,
          block_has-device_block m d,
        )
        (elim (Bool-cases (text_eq component (text "button"))) [
          | inl e ↦ rw e refl
          | inr e ↦ rw e refl
        ])

pub given-append : (b s : Text) → StartsClean b → given (b ++ s) ≡ true
unfolding given
given-append [] s h = absurd (false≢true (sym h))
given-append (c ∷ b) s h = refl

pub Free-entity_type : (t : DeviceType) → Free b'/' (entity_type t)
unfolding has_char entity_type
Free-entity_type switch = Free-has_char b'/' (text "switch") refl
Free-entity_type light = Free-has_char b'/' (text "light") refl
Free-entity_type chime = Free-has_char b'/' (text "button") refl

-- The component of a device's type takes its payload: a button's payload for a chime, and else the
-- payload of a device with a state.
unfoldable pub accepted : DeviceType → Bool → Bool
accepted t stateful = is_chime t || stateful

pub component_accepts-button :
    (t : DeviceType) (stateful : Bool)
    → (is_chime t || not stateful) ≡ true
    → text_eq (entity_type t) (text "button") ≡ accepted t stateful
unfolding text_eq accepted entity_type
component_accepts-button switch true h = absurd (false≢true h)
component_accepts-button switch false h = refl
component_accepts-button light true h = absurd (false≢true h)
component_accepts-button light false h = refl
component_accepts-button chime stateful h = refl

pub component_accepts-state :
    (t : DeviceType) (stateful : Bool)
    → (is_chime t || not stateful) ≡ false
    → not (text_eq (entity_type t) (text "button")) ≡ accepted t stateful
unfolding text_eq accepted entity_type
component_accepts-state switch true h = refl
component_accepts-state switch false h = absurd (false≢true (sym h))
component_accepts-state light true h = refl
component_accepts-state light false h = absurd (false≢true (sym h))
component_accepts-state chime stateful h = absurd (false≢true (sym h))

pub clean_state : clean_segment (text "state") ≡ ok (text "state")
unfolding clean_segment has_char strip_char strip
clean_state = refl

pub clean_command : clean_segment (text "command") ≡ ok (text "command")
unfolding clean_segment has_char strip_char strip
clean_command = refl

pub clean_availability : clean_segment (text "availability") ≡ ok (text "availability")
unfolding clean_segment has_char strip_char strip
clean_availability = refl

pub required :
    (b : Bool) (messages : List Publication)
    → (require b >>= λ _. ok messages) ≡ (if b then ok messages else raise discovery_error)
unfolding require
required true messages = refl
required false messages = refl
