-- ===== src/Mqtt/Routing.antt =====
-- Messages go where their topic says.
use mochad_mqtt_bridge.Prelude.{
  ◌≡◌, refl, sym, ap, ◌∙◌, subst, inl, inr, true, false, false≢true, Bool-cases, topic_error, ok,
  raise, >>=-eq-ok, ok_injective,
}
use mochad_mqtt_bridge.Text.{Text, text, text_eq, text_eq_sound, text_eq_refl, strip, join}
use mochad_mqtt_bridge.Text.Normal.{normal}
use mochad_mqtt_bridge.Topics.{
  has_char, clean_segment, match_topic_address, command_topic, bridge_command_topic,
  bridge_command_parts, parse_bridge_command_topic,
}
use mochad_mqtt_bridge.Topics.Segments.{clean_segment-StartsClean, Free-has_char}
use mochad_mqtt_bridge.Topics.Commands.{
  three, split_at-three, command_topic-three, topic_address-ok, Free-address,
  parse_command_topic-command_topic,
}
use mochad_mqtt_bridge.Mqtt.{bridge_command, device_command, route_bridge, route_device, on_message}

not_bridge : (a : Text) → match_topic_address a ≡ true → text_eq a (text "bridge") ≡ false
unfolding match_topic_address
not_bridge a good = elim (Bool-cases (text_eq a (text "bridge"))) [
  | inl e ↦
      absurd (false≢true (sym (ap match_topic_address (text_eq_sound a (text "bridge") e)) ∙ good))
  | inr e ↦ e
]

-- The bridge's parser refuses the command topic of a device.
refuses_device :
    (d bt base topic : Text)
    → clean_segment bt ≡ ok base
    → has_char b'/' base ≡ false
    → command_topic d bt ≡ ok topic
    → parse_bridge_command_topic topic bt ≡ raise topic_error
unfolding parse_bridge_command_topic bridge_command_parts
refuses_device d bt base topic cleaned flat h =
    let (address, read, built) = command_topic-three d bt base topic cleaned h in
    let good = (topic_address-ok d address read).1 in
    rw (
      cleaned,
      built,
      split_at-three base address (clean_segment-StartsClean bt base cleaned) (text "command") refl
          (Free-has_char b'/' base flat) (Free-address address good)
          (Free-has_char b'/' (text "command") (unfold has_char in refl)),
      text_eq_refl base,
      not_bridge address good,
    )

-- A message on the command topic of a device, under a base topic whose cleaned form has no slash
-- inside, goes to the device callback, with the normalised address and the stripped payload.
pub on_message-command_topic :
    (device base_topic base topic payload : Text)
    → clean_segment base_topic ≡ ok base
    → has_char b'/' base ≡ false
    → command_topic device base_topic ≡ ok topic
    → on_message base_topic topic payload ≡ device_command (normal device) (strip payload) topic
unfolding on_message route_bridge route_device
on_message-command_topic d bt base topic p cleaned flat h =
    let (address, read, built) = command_topic-three d bt base topic cleaned h in
    rw (
      refuses_device d bt base topic cleaned flat h,
      parse_command_topic-command_topic d bt base topic cleaned flat h,
      read,
      (topic_address-ok d address read).0,
    )

-- A message on the command topic of the bridge, under a base topic whose cleaned form has no slash
-- inside, goes to the callback of the bridge, with the stripped payload.
pub on_message-bridge_command_topic :
    (base_topic base topic payload : Text)
    → clean_segment base_topic ≡ ok base
    → has_char b'/' base ≡ false
    → bridge_command_topic base_topic ≡ ok topic
    → on_message base_topic topic payload ≡ bridge_command (strip payload) topic
unfolding on_message route_bridge parse_bridge_command_topic bridge_command_parts
    bridge_command_topic join text_eq
on_message-bridge_command_topic bt base topic p cleaned flat h =
    let (base', cleaned', rest) = >>=-eq-ok (clean_segment bt) _ h in
    let same : base' ≡ base = ok_injective _ _ (sym cleaned' ∙ cleaned) in
    let built : topic ≡ three base (text "bridge") (text "command") =
      subst (λ b. topic ≡ three b (text "bridge") (text "command")) same
        (sym (ok_injective _ _ rest)) in
    rw (
      cleaned,
      built,
      split_at-three base (text "bridge") (clean_segment-StartsClean bt base cleaned)
          (text "command") refl (Free-has_char b'/' base flat)
          (Free-has_char b'/' (text "bridge") (unfold has_char in refl))
          (Free-has_char b'/' (text "command") (unfold has_char in refl)),
      text_eq_refl base,
    )
