-- ===== src/State/Steps.antt =====
-- Every step of a manager keeps it well formed.
use mochad_mqtt_bridge.Prelude.{
  ◌≡◌, refl, sym, ap, ◌∙◌, Bool, true, false, Option, none, some, List, [], ◌∷◌, if◌then◌else◌,
}
use mochad_mqtt_bridge.Text.{Text}
use mochad_mqtt_bridge.Text.Normal.{normal}
use mochad_mqtt_bridge.Dict.{Dict}
use mochad_mqtt_bridge.Models.Enums.{Command, contains_command}
use mochad_mqtt_bridge.Models.Config.{DeviceConfig}
use mochad_mqtt_bridge.Models.Runtime.{DeviceState, BridgeStatistics, Time, DeviceEvent, HouseEvent}
use mochad_mqtt_bridge.State.{
  StateManager, Touched, Outcome, ensure_device, device_config, key_allowed, address_allowed, walk,
}
use mochad_mqtt_bridge.State.Methods.{
  receive_device_event, apply_device_event, house_body, apply_house_event, receive_status,
  snapshot_entry, snapshot_entries, apply_status_snapshot, Event, device_event, house_event,
  status_snapshot, unknown_event, apply_unknown_event, apply, add_devices, new_state_manager,
}
use mochad_mqtt_bridge.State.Connections.{
  record_command, request_command, optimistic_update, on_mqtt_connected, count_connection,
  rediscover_body, on_mqtt_disconnected, on_mochad_connected, on_mochad_disconnected, lost_body,
  read_available, Input, event_arrives, command_requested, mqtt_up, mqtt_down, mochad_up,
  mochad_down, availability_read, step, run,
}
use mochad_mqtt_bridge.State.WellFormed.{
  IsWellFormed, address-set_device_state, address-discovery_actions, ensure_device-IsWellFormed,
  put_device-IsWellFormed, walk-HasDistinctKeys, walk-Entries,
}

-- A property of what a conditional returns.
pub if_both {ℓ κ} :
    {A : Type ℓ} (P : A → Type κ) (b : Bool) (x y : A) → P x → P y → P (if b then x else y)
if_both P true x y hx hy = hx
if_both P false x y hx hy = hy

pub if_true_or {ℓ κ} :
    {A : Type ℓ} (P : A → Type κ) (b : Bool) (x y : A)
    → (b ≡ true → P x)
    → P y
    → P (if b then x else y)
if_true_or P true x y hx hy = hx refl
if_true_or P false x y hx hy = hy

abbrev Keeps : Outcome → Type 0
Keeps o = IsWellFormed o.0

module _ (m : StateManager) (a : Text) (s : DeviceState) (w : IsWellFormed m)
    (allowed : address_allowed m a ≡ true) (named : s.address ≡ normal a) where
  receive_status-IsWellFormed : (now : Time) (c : Command) → Keeps (receive_status now a c m s)
  unfolding receive_status
  receive_status-IsWellFormed now c =
      if_both Keeps _ _ _
        (put_device-IsWellFormed m a _ _ w allowed (address-set_device_state _ _ _ _ _ _ ∙ named)) w

  record_command-IsWellFormed :
      (d : DeviceConfig) (c : Command) (now : Time) → Keeps (record_command m d (normal a) s c now)
  unfolding record_command
  record_command-IsWellFormed d c now =
      let found = address-discovery_actions m.mqtt_connected _ _ ∙ named in
      if_both Keeps _ _ _ (put_device-IsWellFormed m a _ _ w allowed found) (
        if_both Keeps _ _ _
          (put_device-IsWellFormed m a _ _ w allowed (address-set_device_state _ _ _ _ _ _ ∙ found))
          (put_device-IsWellFormed m a _ _ w allowed found))

  request_command-IsWellFormed : (c : Command) (now : Time) → Keeps (request_command a c now m s)
  unfolding request_command
  request_command-IsWellFormed c now =
      if_both Keeps (contains_command c (device_config m s.address).supported_commands) _ _
        (record_command-IsWellFormed (device_config m s.address) c now) w

receive_device_event-IsWellFormed :
    (e : DeviceEvent) (m : StateManager) (s : DeviceState)
    → IsWellFormed m
    → address_allowed m e.address ≡ true
    → s.address ≡ normal e.address
    → Keeps (receive_device_event e m s)
unfolding receive_device_event
receive_device_event-IsWellFormed e m s w allowed named =
    let found = address-discovery_actions m.mqtt_connected _ _ ∙ named in
    if_both Keeps _ _ _ (put_device-IsWellFormed m e.address _ _ w allowed found) (
      put_device-IsWellFormed m e.address _ _ w allowed
        (address-set_device_state _ _ _ _ _ _ ∙ found))

-- What follows `_ensure_device` at an allowed address.
ensured :
    (f : StateManager → DeviceState → Outcome) (m n : StateManager) (a : Text)
    → ((m : StateManager) (s : DeviceState)
        → IsWellFormed m
        → address_allowed m a ≡ true
        → s.address ≡ normal a
        → Keeps (f m s))
    → IsWellFormed m
    → IsWellFormed n
    → address_allowed n a ≡ address_allowed m a
    → Keeps (if address_allowed n a then f (ensure_device m a).0 (ensure_device m a).1 else (n, []))
unfolding address_allowed
ensured f m n a keeps w w' same =
    if_true_or Keeps (address_allowed n a) _ _
      (λ h.
        let (w'', named, codes) = ensure_device-IsWellFormed m a w (sym same ∙ h) in
        keeps _ _ w'' (ap (λ c. key_allowed c (normal a)) codes ∙ (sym same ∙ h)) named)
      w'

pub counted-IsWellFormed :
    (m : StateManager) (n : BridgeStatistics)
    → IsWellFormed m
    → IsWellFormed (record m { statistics = n })
counted-IsWellFormed m n w = record { distinct = w.distinct; entries = w.entries }

apply_device_event-IsWellFormed :
    (e : DeviceEvent) (m : StateManager) → IsWellFormed m → Keeps (apply_device_event e m)
unfolding apply_device_event address_allowed
apply_device_event-IsWellFormed e m w =
    ensured (receive_device_event e) _ m e.address (receive_device_event-IsWellFormed e)
      (counted-IsWellFormed m _ w) w refl

pub snapshot_entry-IsWellFormed :
    (now : Time) (a : Text) (c : Command) (m : StateManager)
    → IsWellFormed m
    → Keeps (snapshot_entry now a c m)
unfolding snapshot_entry
snapshot_entry-IsWellFormed now a c m w =
    ensured (receive_status now a c) m m a
      (λ m s w h e. receive_status-IsWellFormed m a s w h e now c) w w refl

snapshot_entries-IsWellFormed :
    (now : Time) (d : Dict Command) (m : StateManager)
    → IsWellFormed m
    → Keeps (snapshot_entries now d m)
unfolding snapshot_entries
snapshot_entries-IsWellFormed now [] m w = w
snapshot_entries-IsWellFormed now ((a, c) ∷ d) m w =
    snapshot_entries-IsWellFormed now d _ (snapshot_entry-IsWellFormed now a c m w)

walk-IsWellFormed :
    (body : Text → DeviceState → BridgeStatistics → Touched)
    → ((k : Text) (s : DeviceState) (n : BridgeStatistics) → (body k s n).0.address ≡ s.address)
    → (m : StateManager) (n : BridgeStatistics) → IsWellFormed m
    → IsWellFormed
        (record m { devices = (walk body m.devices n).0; statistics = (walk body m.devices n).1 })
walk-IsWellFormed body keeps m n w = record {
  distinct = walk-HasDistinctKeys body keeps m.devices n w.distinct;
  entries = walk-Entries body keeps m.allowed_housecodes m.devices n w.entries;
}

pub house_body-address :
    (m : StateManager) (e : HouseEvent) (k : Text) (s : DeviceState) (n : BridgeStatistics)
    → (house_body m e k s n).0.address ≡ s.address
unfolding house_body
house_body-address m e k s n =
    if_both (λ (t : Touched). t.0.address ≡ s.address) _ _ _ (address-set_device_state _ _ _ _ _ _)
      refl

apply_house_event-IsWellFormed :
    (e : HouseEvent) (m : StateManager) → IsWellFormed m → Keeps (apply_house_event e m)
unfolding apply_house_event
apply_house_event-IsWellFormed e m w =
    if_both Keeps _ _ _
      (if_both Keeps _ _ _ (walk-IsWellFormed (house_body m e) (house_body-address m e) m _ w)
        (counted-IsWellFormed m _ w))
      w

apply-IsWellFormed :
    (now : Time) (e : Option Event) (m : StateManager) → IsWellFormed m → Keeps (apply now e m)
unfolding apply apply_status_snapshot apply_unknown_event
apply-IsWellFormed now none m w = w
apply-IsWellFormed now (some (device_event e)) m w = apply_device_event-IsWellFormed e m w
apply-IsWellFormed now (some (house_event e)) m w = apply_house_event-IsWellFormed e m w
apply-IsWellFormed now (some (status_snapshot e)) m w =
    snapshot_entries-IsWellFormed now e.devices _ (counted-IsWellFormed m _ w)
apply-IsWellFormed now (some (unknown_event e)) m w = counted-IsWellFormed m _ w

optimistic_update-IsWellFormed :
    (a : Text) (c : Command) (now : Time) (m : StateManager)
    → IsWellFormed m
    → Keeps (optimistic_update a c now m)
unfolding optimistic_update
optimistic_update-IsWellFormed a c now m w =
    ensured (request_command a c now) m m a
      (λ m s w h e. request_command-IsWellFormed m a s w h e c now) w w refl

pub step-IsWellFormed : (i : Input) (m : StateManager) → IsWellFormed m → Keeps (step i m)
unfolding on_mqtt_connected on_mqtt_disconnected on_mochad_connected on_mochad_disconnected
    read_available
step-IsWellFormed (event_arrives now e) m w = apply-IsWellFormed now e m w
step-IsWellFormed (command_requested a c now) m w = optimistic_update-IsWellFormed a c now m w
step-IsWellFormed mqtt_up m w =
    let v =
      walk-IsWellFormed rediscover_body (λ k s n. unfold rediscover_body in refl) m
        (count_connection m.mqtt_has_connected m.mqtt_connected m.statistics) w in
    record { distinct = v.distinct; entries = v.entries }
step-IsWellFormed mqtt_down m w = record { distinct = w.distinct; entries = w.entries }
step-IsWellFormed mochad_up m w = record { distinct = w.distinct; entries = w.entries }
step-IsWellFormed mochad_down m w =
    let v = walk-IsWellFormed lost_body (λ k s n. unfold lost_body in refl) m m.statistics w in
    record { distinct = v.distinct; entries = v.entries }
step-IsWellFormed availability_read m w = record { distinct = w.distinct; entries = w.entries }

-- Whatever events, commands and connection changes arrive, in whatever order, a well-formed manager
-- stays well formed.
pub run-IsWellFormed :
    (is : List Input) (m : StateManager) → IsWellFormed m → IsWellFormed (run is m).0
unfolding run
run-IsWellFormed [] m w = w
run-IsWellFormed (i ∷ is) m w = run-IsWellFormed is (step i m).0 (step-IsWellFormed i m w)

add_devices-IsWellFormed :
    (ds : List DeviceConfig) (m : StateManager) → IsWellFormed m → IsWellFormed (add_devices ds m)
unfolding add_devices address_allowed
add_devices-IsWellFormed [] m w = w
add_devices-IsWellFormed (d ∷ ds) m w = add_devices-IsWellFormed ds _ (
    if_true_or IsWellFormed (address_allowed m d.address) _ _
      (λ h.
        (ensure_device-IsWellFormed _ d.address
          (record { distinct = w.distinct; entries = w.entries }) h).0)
      w)

-- A new manager is well formed, whatever the configuration.
pub new_state_manager-IsWellFormed :
    (ds : List DeviceConfig) (optimistic : Bool) (codes : Option (List Text))
    → IsWellFormed (new_state_manager ds optimistic codes)
unfolding new_state_manager
new_state_manager-IsWellFormed ds optimistic codes =
    add_devices-IsWellFormed ds _ (record { distinct = tt; entries = tt })
