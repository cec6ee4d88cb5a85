-- ===== src/State/Mirroring.antt =====
-- What the methods of one device publish, and what follows `_ensure_device`.
use mochad_mqtt_bridge.Prelude.{
  ◌+◌, ◌≡◌, refl, sym, ap, ◌∙◌, inl, inr, Bool, true, false, Option, none, some, List, [], ◌∷◌,
  ◌++◌, if◌then◌else◌, Bool-cases,
}
use mochad_mqtt_bridge.Text.{Text, text_eq, text_eq_sound}
use mochad_mqtt_bridge.Text.Normal.{normal}
use mochad_mqtt_bridge.Dict.{Dict, lookup, lookup-insert}
use mochad_mqtt_bridge.Models.Enums.{Command}
use mochad_mqtt_bridge.Models.Config.{DeviceConfig}
use mochad_mqtt_bridge.Models.Runtime.{
  DeviceState, BridgeStatistics, Time, DeviceEvent, BridgeAction, publish_event,
  send_device_command, publish_attributes, publish_command_event,
}
use mochad_mqtt_bridge.State.{
  StateManager, Outcome, set_device_state, discovery_actions, found_or_new, ensure_device,
  address_allowed, put_device,
}
use mochad_mqtt_bridge.State.Methods.{receive_device_event, receive_status}
use mochad_mqtt_bridge.State.Connections.{command_event_payload, attributes_payload, record_command}
use mochad_mqtt_bridge.State.WellFormed.{
  IsWellFormed, address-discovery_actions, ensure_device-IsWellFormed,
}
use mochad_mqtt_bridge.State.Steps.{if_both, if_true_or}
use mochad_mqtt_bridge.State.Mirror.{
  View, replay, current, state_view, Syncs, Silent, Syncs-Silent, set_device_state-Syncs,
  discovery_actions-Syncs, Syncs-append,
}

-- Where the view was the states of the devices before an operation, it is after it.
pub record Mirrors (m : StateManager) (o : Outcome) : Type 0 where
  pub shows :
      (v : View)
      → ((k : Text) → v k ≡ state_view m k)
      → (k : Text) → replay o.1 v k ≡ state_view o.0 k

found_or_new-view :
    (m : StateManager) (key : Text) (found : Option DeviceState) (k : Text)
    → lookup key m.devices ≡ found
    → (state_view (found_or_new m key found).0 k ≡ state_view m k)
      × ((found_or_new m key found).1.current_state ≡ state_view m key)
unfolding found_or_new
found_or_new-view m key (some s) k e = (refl, sym (ap current e))
found_or_new-view m key none k e = (
  rw lookup-insert (elim (Bool-cases (text_eq key k)) [
    | inl same ↦
        rw same
          (sym (ap current (ap (λ a. lookup a m.devices) (sym (text_eq_sound key k same)) ∙ e)))
    | inr other ↦ rw other
  ]),
  sym (ap current e),
)

-- Creating an entry shows nothing.
pub ensure_device-view :
    (m : StateManager) (a k : Text)
    → (state_view (ensure_device m a).0 k ≡ state_view m k)
      × ((ensure_device m a).1.current_state ≡ state_view m (normal a))
unfolding ensure_device
ensure_device-view m a k = found_or_new-view m (normal a) _ k refl

put_device-Mirrors :
    (m : StateManager) (key : Text) (s s' : DeviceState) (n : BridgeStatistics)
    (acts : List BridgeAction)
    → s.address ≡ key
    → s.current_state ≡ state_view m key
    → Syncs s.address s.current_state s' acts
    → Mirrors m (put_device m key s' n, acts)
put_device-Mirrors m key s s' n acts named held syncs = record {
  shows = λ v same k.
      syncs.shows v (same s.address ∙ (ap (state_view m) named ∙ sym held)) k
      ∙ rw (named, lookup-insert key k s' m.devices)
          (elim (Bool-cases (text_eq key k)) [ inl e ↦ rw e | inr e ↦ rw e (same k) ]);
}

pub Mirrors-Silent :
    (m n : StateManager) (acts : List BridgeAction)
    → m.devices ≡ n.devices
    → Silent acts
    → Mirrors m (n, acts)
Mirrors-Silent m n acts e quiet = record {
  shows = λ v same k. quiet v k ∙ (same k ∙ ap (λ (d : Dict DeviceState). current (lookup k d)) e);
}

-- The actions of a device event before its state is taken over.
event-Syncs :
    (connected : Bool) (e : DeviceEvent) (s : DeviceState) (n : BridgeStatistics)
    → Syncs s.address s.current_state
        (discovery_actions connected s n).0
        ((discovery_actions connected s n).2 ++ publish_event e ∷ [])
event-Syncs connected e s n =
    Syncs-append (address-discovery_actions connected s n) (discovery_actions-Syncs connected s n)
      (Syncs-Silent _ _ _ (λ v k. refl))

pub receive_device_event-Mirrors :
    (e : DeviceEvent) (m : StateManager) (s : DeviceState)
    → s.address ≡ normal e.address
    → s.current_state ≡ state_view m (normal e.address)
    → Mirrors m (receive_device_event e m s)
unfolding receive_device_event
receive_device_event-Mirrors e m s named held =
    let s₁ = record s { available = true; last_seen = some e.timestamp } in
    let found = address-discovery_actions m.mqtt_connected s₁ m.statistics in
    let t = discovery_actions m.mqtt_connected s₁ m.statistics in
    let u = set_device_state t.0 t.1 e.command e.timestamp true true in
    let first = event-Syncs m.mqtt_connected e s₁ m.statistics in
    if_both (Mirrors m) _ _ _ (put_device-Mirrors m (normal e.address) s _ t.1 _ named held first) (
      put_device-Mirrors m (normal e.address) s _ u.1 _ named held
        (Syncs-append found first (set_device_state-Syncs t.0 t.1 e.command e.timestamp true)))

pub receive_status-Mirrors :
    (now : Time) (a : Text) (c : Command) (m : StateManager) (s : DeviceState)
    → s.address ≡ normal a
    → s.current_state ≡ state_view m (normal a)
    → Mirrors m (receive_status now a c m s)
unfolding receive_status
receive_status-Mirrors now a c m s named held =
    let s₁ = record s { available = true; last_seen = some now } in
    if_both (Mirrors m) _ _ _
      (put_device-Mirrors m (normal a) s _ (set_device_state s₁ m.statistics c now true true).1 _
        named held (set_device_state-Syncs s₁ m.statistics c now true))
      (Mirrors-Silent m m [] refl (λ v k. refl))

pub record_command-Mirrors :
    (m : StateManager) (d : DeviceConfig) (key : Text) (s : DeviceState) (c : Command) (now : Time)
    → s.address ≡ key
    → s.current_state ≡ state_view m key
    → Mirrors m (record_command m d key s c now)
unfolding record_command
record_command-Mirrors m d key s c now named held =
    let s₁ = record s { pending_command = some c } in
    let n = record m.statistics { commands_sent = m.statistics.commands_sent + 1 } in
    let t = discovery_actions m.mqtt_connected s₁ n in
    let found = address-discovery_actions m.mqtt_connected s₁ n in
    let u = set_device_state t.0 t.1 c now true false in
    let sent =
      Syncs-append found (discovery_actions-Syncs m.mqtt_connected s₁ n)
        (Syncs-Silent t.0.address t.0 (send_device_command t.0.address c ∷ []) (λ v k. refl)) in
    let described = Syncs-append found sent (
      Syncs-Silent t.0.address t.0
        (publish_attributes t.0.address (attributes_payload c m.optimistic_updates) true ∷ [])
        (λ v k. refl)) in
    if_both (Mirrors m) _ _ _
      (put_device-Mirrors m key s _ t.1 _ named held (
        Syncs-append found sent (
          Syncs-Silent t.0.address t.0
            (publish_command_event t.0.address (command_event_payload t.0.address c now) false ∷ [])
            (λ v k. refl))))
      (if_both (Mirrors m) _ _ _
        (put_device-Mirrors m key s _ u.1 _ named held
          (Syncs-append found described (set_device_state-Syncs t.0 t.1 c now false)))
        (put_device-Mirrors m key s _ t.1 _ named held described))

-- What follows `_ensure_device`.
pub ensured-Mirrors :
    (f : StateManager → DeviceState → Outcome) (m n : StateManager) (a : Text)
    → ((m : StateManager) (s : DeviceState)
        → s.address ≡ normal a
        → s.current_state ≡ state_view m (normal a)
        → Mirrors m (f m s))
    → IsWellFormed m
    → m.devices ≡ n.devices
    → address_allowed n a ≡ address_allowed m a
    → Mirrors n
        (if address_allowed n a then f (ensure_device m a).0 (ensure_device m a).1 else (n, []))
ensured-Mirrors f m n a mirrors w same codes =
    if_true_or (Mirrors n) (address_allowed n a) _ _
      (λ h.
        let (w', named, codes') = ensure_device-IsWellFormed m a w (sym codes ∙ h) in
        let inner =
          mirrors _ _ named
            ((ensure_device-view m a (normal a)).1 ∙ sym (ensure_device-view m a (normal a)).0) in
        record {
          shows = λ v agree k.
              inner.shows v
                (λ k.
                  agree k
                  ∙ ap (λ (d : Dict DeviceState). current (lookup k d)) (sym same)
                  ∙ sym (ensure_device-view m a k).0)
                k;
        })
      (Mirrors-Silent n n [] refl (λ v k. refl))
