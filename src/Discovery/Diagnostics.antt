-- ===== src/Discovery/Diagnostics.antt =====
-- discovery.py: the topics of the bridge's own entities.
use mochad_mqtt_bridge.Prelude.{
  ◌≡◌, refl, sym, subst, Bool, true, false, false≢true, Option, List, [], ◌∷◌, ◌++◌, map,
  if◌then◌else◌, All, Result, ok, ◌>>=◌,
}
use mochad_mqtt_bridge.Text.{Text, text, strip, strip_char, join, text_eq}
use mochad_mqtt_bridge.Models.Payloads.{Publication, MochadDiagnostics, document, has_field}
use mochad_mqtt_bridge.Models.Runtime.{Fields}
use mochad_mqtt_bridge.Discovery.Messages.{message, given, require, has_fields}
use mochad_mqtt_bridge.Discovery.Valid.{given-append}
use mochad_mqtt_bridge.Topics.Segments.{clean_segment-StartsClean}
use mochad_mqtt_bridge.Topics.{has_char, clean_segment, bridge_topic, availability_topic}
use mochad_mqtt_bridge.Discovery.Blocks.{DiscoveryManager}
use mochad_mqtt_bridge.Models.Enums.{
  BridgeCommand, sync, rediscover, prune_discovery, reset_discovery,
}
use mochad_mqtt_bridge.Topics.{status_topic, bridge_command_topic, bridge_discovery_topic}
use mochad_mqtt_bridge.Discovery.Bridge.{
  bridge_status_sensor_message, connectivity_message, bridge_connectivity_sensor_message,
  bridge_usb_sensor_message, bridge_value_sensor_message, bridge_command_button_message, all_of,
  maintenance_buttons, bridge_diagnostic_messages, validate_bridge_payload, validate_bridge_message,
  validate_all, validated,
}

-- the component and the identifier of each entity of the bridge
unfoldable pub sensors : List (Text × Text)
sensors =
    (text "sensor", text "mqtt_mochad_bridge_status")
    ∷ (text "binary_sensor", text "mqtt_mochad_bridge_mochad_connected")
    ∷ (text "binary_sensor", text "mqtt_mochad_bridge_usb_connected")
    ∷ (text "sensor", text "mqtt_mochad_bridge_controller")
    ∷ (text "sensor", text "mqtt_mochad_bridge_mochad_version")
    ∷ (text "button", text "mqtt_mochad_bridge_sync")
    ∷ (text "button", text "mqtt_mochad_bridge_rediscover")
    ∷ []

unfoldable pub maintenance : List (Text × Text)
maintenance =
    (text "button", text "mqtt_mochad_bridge_prune_discovery")
    ∷ (text "button", text "mqtt_mochad_bridge_reset_discovery")
    ∷ []

unfoldable pub own_entities : Bool → List (Text × Text)
own_entities buttons = sensors ++ (if buttons then maintenance else [])

abbrev pub own_topic : Text → Text × Text → Text
own_topic prefix (component, object_id) =
    join (text "/") (prefix ∷ component ∷ object_id ∷ text "config" ∷ [])

abbrev IsClean : Text → Type 0
IsClean s = clean_segment s ≡ ok s

-- A retained message on this topic that passes its validation, and no exception.
IsSent : Text → Result Publication → Type 0
IsSent topic r =
    (p : Publication) × (r ≡ ok p)
    × (p.topic ≡ topic)
    × (p.retain ≡ true)
    × (validate_bridge_message p ≡ ok tt)

message-validated :
    (t : Text) (payload : Fields)
    → given t ≡ true
    → validate_bridge_payload (document payload) ≡ ok tt
    → validate_bridge_message (message t payload) ≡ ok tt
unfolding validate_bridge_message require
message-validated t payload filled valid = rw filled valid

-- One by one, on these topics.
AreSent : List Text → List (Result Publication) → Type 0
unfolding IsSent
AreSent [] [] = true ≡ true
AreSent (t ∷ ts) (r ∷ rs) = IsSent t r × AreSent ts rs
AreSent _ _ = true ≡ false

all_of-AreSent :
    (ts : List Text) (rs : List (Result Publication))
    → AreSent ts rs
    → (ps : List Publication) × (all_of rs ≡ ok ps)
      × (map (λ p. p.topic) ps ≡ ts)
      × All (λ p. p.retain ≡ true) ps
      × (validate_all ps ≡ ok tt)
unfolding AreSent IsSent all_of validate_all
all_of-AreSent [] [] h = ([], refl, refl, tt, refl)
all_of-AreSent (t ∷ ts) (r ∷ rs) ((p, made, at, kept, valid), rest) =
    let (ps, all, topics, retained, valid') = all_of-AreSent ts rs rest in
    (p ∷ ps, rw (made, all) refl, rw (at, topics) refl, (kept, retained), rw (valid, valid') refl)
all_of-AreSent [] (r ∷ rs) h = absurd (false≢true (sym h))
all_of-AreSent (t ∷ ts) [] h = absurd (false≢true (sym h))

bind-IsSent {ℓ} :
    {A : Type ℓ} (t : Text) (r : Result A) (f : A → Result Publication) (a : A)
    → r ≡ ok a
    → IsSent t (f a)
    → IsSent t (r >>= f)
bind-IsSent t r f a h sent = subst (λ x. IsSent t (x >>= f)) (sym h) sent

module _ (m : DiscoveryManager) (d : Option MochadDiagnostics) (base prefix : Text)
    (based : clean_segment m.base_topic ≡ ok base)
    (prefixed : clean_segment m.discovery_prefix ≡ ok prefix) where
  abbrev base_topic : Text → Text
  base_topic suffix = join (text "/") (base ∷ text "bridge" ∷ suffix ∷ [])

  own_topic-given : (e : Text × Text) → given (own_topic prefix e) ≡ true
  unfolding join
  own_topic-given (c, o) =
      given-append prefix _ (clean_segment-StartsClean m.discovery_prefix prefix prefixed)

  bridge_topic-clean : (s : Text) → IsClean s → bridge_topic s m.base_topic ≡ ok (base_topic s)
  unfolding bridge_topic
  bridge_topic-clean suffix clean = rw (based, clean) refl

  bridge_discovery_topic-clean :
      (c o : Text)
      → IsClean c
      → IsClean o
      → bridge_discovery_topic c o m.discovery_prefix ≡ ok (own_topic prefix (c, o))
  unfolding bridge_discovery_topic
  bridge_discovery_topic-clean c o clean clean' = rw (prefixed, clean, clean') refl

  bridge_command_topic-clean : bridge_command_topic m.base_topic ≡ ok (base_topic (text "command"))
  unfolding bridge_command_topic
  bridge_command_topic-clean = rw based refl

  -- A payload that names a topic of the bridge and its availability.
  named-IsSent :
      (c o target : Text) (r : Result Text) (f : Text → Text → Text → Result Publication)
      → IsClean c
      → IsClean o
      → r ≡ ok target
      → IsSent
          (own_topic prefix (c, o))
          (f (own_topic prefix (c, o)) target (base_topic (text "availability")))
      → IsSent (own_topic prefix (c, o)) (
          bridge_discovery_topic c o m.discovery_prefix >>= λ topic. r >>= λ target.
          availability_topic m.base_topic >>= λ availability. f topic target availability)
  unfolding availability_topic clean_segment has_char strip_char strip
  named-IsSent c o target r f clean clean' at sent =
      let t = own_topic prefix (c, o) in
      bind-IsSent t _ _ t (bridge_discovery_topic-clean c o clean clean') (
        bind-IsSent t r _ target at (
          bind-IsSent t _ (f t target) (base_topic (text "availability"))
            (bridge_topic-clean (text "availability") refl) sent))

  value-IsSent :
      (o name template : Text)
      → IsClean o
      → IsSent
          (own_topic prefix (text "sensor", o))
          (bridge_value_sensor_message m d o name template)
  unfolding IsSent bridge_value_sensor_message status_topic clean_segment has_char strip_char strip
      validate_bridge_payload has_fields has_field require text_eq
  value-IsSent o name template clean =
      named-IsSent (text "sensor") o (base_topic (text "status")) (status_topic m.base_topic) _ refl
        clean (bridge_topic-clean (text "status") refl)
        (_, refl, refl, refl, message-validated _ _ (own_topic-given _) refl)

  status-IsSent :
      IsSent
        (own_topic prefix (text "sensor", text "mqtt_mochad_bridge_status"))
        (bridge_status_sensor_message m d)
  unfolding IsSent bridge_status_sensor_message status_topic clean_segment has_char strip_char strip
      validate_bridge_payload has_fields has_field require text_eq
  status-IsSent =
      named-IsSent (text "sensor") (text "mqtt_mochad_bridge_status") (base_topic (text "status"))
        (status_topic m.base_topic) _ refl refl (bridge_topic-clean (text "status") refl)
        (_, refl, refl, refl, message-validated _ _ (own_topic-given _) refl)

  connectivity-IsSent :
      (o name template : Text)
      → IsClean o
      → IsSent
          (own_topic prefix (text "binary_sensor", o))
          (connectivity_message m d o name template)
  unfolding IsSent connectivity_message status_topic clean_segment has_char strip_char strip
      validate_bridge_payload has_fields has_field require text_eq
  connectivity-IsSent o name template clean =
      named-IsSent (text "binary_sensor") o (base_topic (text "status")) (status_topic m.base_topic)
        _ refl clean (bridge_topic-clean (text "status") refl)
        (_, refl, refl, refl, message-validated _ _ (own_topic-given _) refl)

  button-IsSent :
      (c : BridgeCommand) (o name : Text)
      → IsClean o
      → IsSent (own_topic prefix (text "button", o)) (bridge_command_button_message m d c o name)
  unfolding IsSent bridge_command_button_message clean_segment has_char strip_char strip
      validate_bridge_payload has_fields has_field require text_eq
  button-IsSent c o name clean =
      named-IsSent (text "button") o (base_topic (text "command"))
        (bridge_command_topic m.base_topic) _ refl clean bridge_command_topic-clean
        (_, refl, refl, refl, message-validated _ _ (own_topic-given _) refl)

  maintenance-AreSent : AreSent (map (own_topic prefix) maintenance) (maintenance_buttons m d)
  unfolding AreSent maintenance maintenance_buttons clean_segment has_char strip_char strip
  maintenance-AreSent =
      (button-IsSent prune_discovery _ _ refl, (button-IsSent reset_discovery _ _ refl, refl))

  -- The first seven messages, whatever follows.
  sensors-AreSent :
      (es : List (Text × Text)) (rs : List (Result Publication))
      → AreSent (map (own_topic prefix) es) rs
      → AreSent (map (own_topic prefix) (sensors ++ es)) (
          bridge_status_sensor_message m d
          ∷ bridge_connectivity_sensor_message m d
              (text "mqtt_mochad_bridge_mochad_connected")
              (text "Mochad Connected")
              (text "mochad_connected")
          ∷ bridge_usb_sensor_message m d
          ∷ bridge_value_sensor_message m d
              (text "mqtt_mochad_bridge_controller")
              (text "Controller Type")
              (text "{{ value_json.mochad.health.controller | default('unknown') }}")
          ∷ bridge_value_sensor_message m d
              (text "mqtt_mochad_bridge_mochad_version")
              (text "Mochad Version")
              (text "{{ value_json.mochad.version | default('unknown') }}")
          ∷ bridge_command_button_message m d sync
              (text "mqtt_mochad_bridge_sync")
              (text "Sync X10 Status")
          ∷ bridge_command_button_message m d rediscover
              (text "mqtt_mochad_bridge_rediscover")
              (text "Rediscover X10 Entities")
          ∷ rs)
  unfolding AreSent sensors bridge_connectivity_sensor_message bridge_usb_sensor_message
      clean_segment has_char strip_char strip
  sensors-AreSent es rs rest = (
    status-IsSent,
    (
      connectivity-IsSent _ _ _ refl,
      (
        connectivity-IsSent _ _ _ refl,
        (
          value-IsSent _ _ _ refl,
          (
            value-IsSent _ _ _ refl,
            (button-IsSent sync _ _ refl, (button-IsSent rediscover _ _ refl, rest)),
          ),
        ),
      ),
    ),
  )

  rest-AreSent :
      (buttons : Bool)
      → AreSent
          (map (own_topic prefix) (if buttons then maintenance else []))
          (if buttons then maintenance_buttons m d else [])
  unfolding AreSent
  rest-AreSent true = maintenance-AreSent
  rest-AreSent false = refl

-- With a base topic and a discovery prefix that are accepted, the messages of the bridge's own entities
-- pass their validation and nothing is raised: one message for each of them, in this order, all retained and each on the topic of its
-- component and identifier. The two buttons of the maintenance are among them only if they are enabled.
pub published_diagnostics :
    (m : DiscoveryManager) (d : Option MochadDiagnostics) (base prefix : Text)
    → clean_segment m.base_topic ≡ ok base
    → clean_segment m.discovery_prefix ≡ ok prefix
    → (messages : List Publication) × (bridge_diagnostic_messages m d ≡ ok messages)
      × (map (λ p. p.topic) messages
          ≡ map (own_topic prefix) (own_entities m.enable_maintenance_buttons))
      × All (λ p. p.retain ≡ true) messages
unfolding bridge_diagnostic_messages own_entities validated
published_diagnostics m d base prefix based prefixed =
    let es = if m.enable_maintenance_buttons then maintenance else [] in
    let rs = if m.enable_maintenance_buttons then maintenance_buttons m d else [] in
    let (messages, built, topics, retained, valid) =
      all_of-AreSent (map (own_topic prefix) (sensors ++ es)) _ (
        sensors-AreSent m d base prefix based prefixed es rs
          (rest-AreSent m d base prefix based prefixed m.enable_maintenance_buttons)) in
    (messages, rw (built, valid) refl, topics, retained)
