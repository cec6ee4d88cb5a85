-- ===== src/Topics/Addresses.antt =====
-- One address has one reading, and no two devices share a topic.
use mochad_mqtt_bridge.Prelude.{
  ◌≡◌, refl, sym, ap, ◌∙◌, subst, ◌↔◌, Bool, true, false, [], ◌∷◌, ◌++◌, if◌then◌else◌, Exception,
  value_error, topic_error, Result, ok, raise, ok_injective,
}
use mochad_mqtt_bridge.Text.{Text, split_at, split_at-piece, Free}
use mochad_mqtt_bridge.Text.Normal.{normal}
use mochad_mqtt_bridge.Protocol.Validation.{
  normalize_address, X10Address, x10_address_str, parse_x10_address,
}
use mochad_mqtt_bridge.Protocol.Validation.Addresses.{is_address, normalize_address-eq}
use mochad_mqtt_bridge.Protocol.Validation.Parsers.{printed, parse_x10_address-printed}
use mochad_mqtt_bridge.Topics.{match_topic_address, topic_address, clean_segment, device_topic}
use mochad_mqtt_bridge.Topics.Commands.{three, Free-address, topic_address-ok, device_topic-three}

match_topic_address-is_address : (a : Text) → match_topic_address a ≡ is_address a
unfolding match_topic_address is_address
match_topic_address-is_address [] = refl
match_topic_address-is_address (c ∷ u) = refl

same_ok :
    (b : Bool) (n a : Text) (e f : Exception)
    → (if b then ok n else raise e) ≡ ok a
    → (if b then ok n else raise f) ≡ ok a
same_ok true n a e f h = h
same_ok false n a e f h = absurd (cc)

printed-ok :
    (r : Result X10Address) (a : Text)
    → printed r ≡ ok a
    → (x : X10Address) × (r ≡ ok x) × (x10_address_str x ≡ a)
printed-ok (ok x) a h = (x, refl, ok_injective _ _ h)
printed-ok (raise e) a h = absurd (cc)

-- The three readers of addresses accept the same texts and agree on the result: `Topics._address`,
-- `normalize_address`, and `X10Address.parse` followed by `str`.
pub parsers_agree :
    (s a : Text)
    → ((topic_address s ≡ ok a) ↔ (normalize_address s ≡ ok a))
      × ((normalize_address s ≡ ok a)
          ↔ ((x : X10Address) × (parse_x10_address s ≡ ok x) × (x10_address_str x ≡ a)))
unfolding topic_address
parsers_agree s a =
    rw (match_topic_address-is_address (normal s), normalize_address-eq s)
      (
        (
          same_ok (is_address (normal s)) (normal s) a topic_error value_error,
          same_ok (is_address (normal s)) (normal s) a value_error topic_error,
        ),
        (
          λ h.
              printed-ok (parse_x10_address s) a
                (parse_x10_address-printed s ∙ normalize_address-eq s ∙ h),
          λ h.
              sym (normalize_address-eq s)
              ∙ sym (parse_x10_address-printed s)
              ∙ ap printed h.1
              ∙ ap ok h.2,
        ),
      )

pub append_cancel : (b x y : Text) → b ++ x ≡ b ++ y → x ≡ y
append_cancel [] x y h = h
append_cancel (c ∷ b) x y h = append_cancel b x y (cc)

-- The middle piece of a topic ends at the slash.
pub pieces_unique :
    (b a s a' s' : Text)
    → Free b'/' a
    → Free b'/' a'
    → three b a s ≡ three b a' s'
    → (a ≡ a') × (s ≡ s')
unfolding split_at
pieces_unique b a s a' s' free free' h =
    let after : a ++ b'/' ∷ s ≡ a' ++ b'/' ∷ s' = cc (append_cancel b _ _ h) in
    let split : a ∷ split_at b'/' s ≡ a' ∷ split_at b'/' s' =
      sym (split_at-piece b'/' a s free)
      ∙ ap (split_at b'/') after
      ∙ split_at-piece b'/' a' s' free' in
    let same : a ≡ a' = cc split in
    let rest : a ++ b'/' ∷ s ≡ a ++ b'/' ∷ s' =
      subst (λ x. a ++ b'/' ∷ s ≡ x ++ b'/' ∷ s') (sym same) after in
    (same, cc (append_cancel a _ _ rest))

-- Under one base topic, two devices share a topic only if their addresses agree after
-- normalisation, and then the cleaned suffixes agree too.
pub device_topic_injective :
    (device device' suffix suffix' base_topic topic : Text)
    → device_topic device suffix base_topic ≡ ok topic
    → device_topic device' suffix' base_topic ≡ ok topic
    → (normal device ≡ normal device') × (clean_segment suffix ≡ clean_segment suffix')
device_topic_injective d d' s s' bt t h h' =
    let (b, a, x, cleaned, read, ended, built) = device_topic-three d s bt t h in
    let (c, a', x', cleaned', read', ended', built') = device_topic-three d' s' bt t h' in
    let (same, good) = topic_address-ok d a read in
    let (same', good') = topic_address-ok d' a' read' in
    let base : c ≡ b = ok_injective _ _ (sym cleaned' ∙ cleaned) in
    let (p, q) =
      pieces_unique b a x a' x' (Free-address a good) (Free-address a' good')
        (sym built ∙ subst (λ y. t ≡ three y a' x') base built') in
    (same ∙ p ∙ sym same', ended ∙ ap ok q ∙ sym ended')
