-- ===== src/State/Published.antt =====
-- Over every history the actions keep the retained state topics equal to the states of the devices.
use mochad_mqtt_bridge.Prelude.{
  ◌+◌, ◌≡◌, refl, sym, ◌∙◌, Bool, true, false, Option, none, some, List, [], ◌∷◌, ◌++◌,
}
use mochad_mqtt_bridge.Text.{Text}
use mochad_mqtt_bridge.Text.Normal.{normal}
use mochad_mqtt_bridge.Dict.{Dict, lookup}
use mochad_mqtt_bridge.Models.Enums.{Command, contains_command}
use mochad_mqtt_bridge.Models.Config.{DeviceConfig}
use mochad_mqtt_bridge.Models.Runtime.{DeviceState, BridgeStatistics, Time, DeviceEvent, HouseEvent}
use mochad_mqtt_bridge.State.{StateManager, Touched, Outcome, device_config, address_allowed, walk}
use mochad_mqtt_bridge.State.Methods.{
  receive_device_event, apply_device_event, house_body, apply_house_event, receive_status,
  snapshot_entry, snapshot_entries, apply_status_snapshot, Event, device_event, house_event,
  status_snapshot, unknown_event, apply_unknown_event, apply, add_devices, new_state_manager,
}
use mochad_mqtt_bridge.State.Connections.{
  request_command, optimistic_update, on_mqtt_connected, rediscover_body, announce,
  on_mqtt_disconnected, on_mochad_connected, on_mochad_disconnected, lost_body, read_available,
  Input, event_arrives, command_requested, mqtt_up, mqtt_down, mochad_up, mochad_down,
  availability_read, step, run,
}
use mochad_mqtt_bridge.State.WellFormed.{IsWellFormed}
use mochad_mqtt_bridge.State.Steps.{
  if_both, house_body-address, counted-IsWellFormed, snapshot_entry-IsWellFormed, step-IsWellFormed,
  new_state_manager-IsWellFormed,
}
use mochad_mqtt_bridge.State.Mirroring.{
  Mirrors, ensure_device-view, Mirrors-Silent, receive_device_event-Mirrors, receive_status-Mirrors,
  record_command-Mirrors, ensured-Mirrors,
}
use mochad_mqtt_bridge.State.Mirror.{
  View, replay, current, state_view, replay-append, Syncs, silent, Syncs-Silent,
  set_device_state-Syncs, walk-mirrors,
}

house_body-Syncs :
    (m : StateManager) (e : HouseEvent) (k : Text) (s : DeviceState) (n : BridgeStatistics)
    → Syncs s.address s.current_state (house_body m e k s n).0 (house_body m e k s n).2
unfolding house_body
house_body-Syncs m e k s n =
    if_both (λ (t : Touched). Syncs s.address s.current_state t.0 t.2) _ _ _
      (set_device_state-Syncs (record s { available = true; last_seen = some e.timestamp }) n _
        e.timestamp true)
      (Syncs-Silent _ s [] (λ v k. refl))

walk-shows :
    (body : Text → DeviceState → BridgeStatistics → Touched)
    → ((k : Text) (s : DeviceState) (n : BridgeStatistics) → (body k s n).0.address ≡ s.address)
    → ((k : Text) (s : DeviceState) (n : BridgeStatistics)
        → Syncs s.address s.current_state (body k s n).0 (body k s n).2)
    → (m : StateManager) → IsWellFormed m
    → (n : BridgeStatistics) (v : View) → ((k : Text) → v k ≡ state_view m k)
    → (k : Text)
    → replay (walk body m.devices n).2 v k ≡ current (lookup k (walk body m.devices n).0)
walk-shows body keeps syncs m w n v same k =
    walk-mirrors body keeps syncs m.allowed_housecodes m.devices n v w.distinct w.entries same k

-- One operation after another.
Mirrors-append :
    (m : StateManager) (o p : Outcome) → Mirrors m o → Mirrors o.0 p → Mirrors m (p.0, o.1 ++ p.1)
Mirrors-append m o p first second = record {
  shows = λ v same k. rw replay-append (second.shows (replay o.1 v) (first.shows v same) k);
}

apply_device_event-Mirrors :
    (e : DeviceEvent) (m : StateManager) → IsWellFormed m → Mirrors m (apply_device_event e m)
unfolding apply_device_event address_allowed
apply_device_event-Mirrors e m w =
    ensured-Mirrors (receive_device_event e) _ m e.address (receive_device_event-Mirrors e)
      (counted-IsWellFormed m _ w) refl refl

apply_house_event-Mirrors :
    (e : HouseEvent) (m : StateManager) → IsWellFormed m → Mirrors m (apply_house_event e m)
unfolding apply_house_event
apply_house_event-Mirrors e m w =
    if_both (Mirrors m) _ _ _
      (if_both (Mirrors m) _ _ _
        (record {
          shows = walk-shows (house_body m e) (house_body-address m e) (house_body-Syncs m e) m w _;
        })
        (Mirrors-Silent m _ [] refl (λ v k. refl)))
      (Mirrors-Silent m m [] refl (λ v k. refl))

snapshot_entry-Mirrors :
    (now : Time) (a : Text) (c : Command) (m : StateManager)
    → IsWellFormed m
    → Mirrors m (snapshot_entry now a c m)
unfolding snapshot_entry
snapshot_entry-Mirrors now a c m w =
    ensured-Mirrors (receive_status now a c) m m a (receive_status-Mirrors now a c) w refl refl

snapshot_entries-Mirrors :
    (now : Time) (d : Dict Command) (m : StateManager)
    → IsWellFormed m
    → Mirrors m (snapshot_entries now d m)
unfolding snapshot_entries
snapshot_entries-Mirrors now [] m w = Mirrors-Silent m m [] refl (λ v k. refl)
snapshot_entries-Mirrors now ((a, c) ∷ d) m w =
    Mirrors-append m (snapshot_entry now a c m)
      (snapshot_entries now d (snapshot_entry now a c m).0) (snapshot_entry-Mirrors now a c m w)
      (snapshot_entries-Mirrors now d _ (snapshot_entry-IsWellFormed now a c m w))

apply-Mirrors :
    (now : Time) (e : Option Event) (m : StateManager) → IsWellFormed m → Mirrors m (apply now e m)
unfolding apply apply_status_snapshot apply_unknown_event
apply-Mirrors now none m w = Mirrors-Silent m m [] refl (λ v k. refl)
apply-Mirrors now (some (device_event e)) m w = apply_device_event-Mirrors e m w
apply-Mirrors now (some (house_event e)) m w = apply_house_event-Mirrors e m w
apply-Mirrors now (some (status_snapshot e)) m w =
    let n = record m.statistics { status_syncs = m.statistics.status_syncs + 1 } in
    record {
      shows =
          (snapshot_entries-Mirrors now e.devices (record m { statistics = n })
            (counted-IsWellFormed m n w)).shows;
    }
apply-Mirrors now (some (unknown_event e)) m w = Mirrors-Silent m _ _ refl (λ v k. refl)

-- Announcing the state of a device again leaves its topic as it should be.
announce-Syncs :
    (a : Text) (s : DeviceState) (o : Option Command)
    → s.current_state ≡ o
    → Syncs a o s (announce a o)
unfolding announce
announce-Syncs a s none e = record { shows = λ v h k. silent a none s.current_state v k e h }
announce-Syncs a s (some c) e = record { shows = λ v h k. rw e }

rediscover_body-Syncs :
    (k : Text) (s : DeviceState) (n : BridgeStatistics)
    → Syncs s.address s.current_state (rediscover_body k s n).0 (rediscover_body k s n).2
unfolding rediscover_body
rediscover_body-Syncs k s n = record {
  shows = (announce-Syncs s.address (record s { discovered = true }) s.current_state refl).shows;
}

-- Losing mochad emits no action for a device.
walk-lost :
    (d : Dict DeviceState) (n : BridgeStatistics) (v : View) (k : Text)
    → replay (walk lost_body d n).2 v k ≡ v k
unfolding walk lost_body
walk-lost [] n v k = refl
walk-lost ((j, s) ∷ d) n v k = walk-lost d n v k

lost_body-Syncs :
    (k : Text) (s : DeviceState) (n : BridgeStatistics)
    → Syncs s.address s.current_state (lost_body k s n).0 (lost_body k s n).2
unfolding lost_body
lost_body-Syncs k s n = Syncs-Silent _ (record s { available = false }) [] (λ v k. refl)

request_command-Mirrors :
    (a : Text) (c : Command) (now : Time) (m : StateManager) (s : DeviceState)
    → s.address ≡ normal a
    → s.current_state ≡ state_view m (normal a)
    → Mirrors m (request_command a c now m s)
unfolding request_command
request_command-Mirrors a c now m s named held =
    let device = device_config m s.address in
    if_both (Mirrors m) (contains_command c device.supported_commands) _ _
      (record_command-Mirrors m device (normal a) s c now named held)
      (Mirrors-Silent m m [] refl (λ v k. refl))

optimistic_update-Mirrors :
    (a : Text) (c : Command) (now : Time) (m : StateManager)
    → IsWellFormed m
    → Mirrors m (optimistic_update a c now m)
unfolding optimistic_update
optimistic_update-Mirrors a c now m w =
    ensured-Mirrors (request_command a c now) m m a (request_command-Mirrors a c now) w refl refl

pub step-Mirrors : (i : Input) (m : StateManager) → IsWellFormed m → Mirrors m (step i m)
unfolding on_mqtt_connected on_mqtt_disconnected on_mochad_connected on_mochad_disconnected
    read_available
step-Mirrors (event_arrives now e) m w = apply-Mirrors now e m w
step-Mirrors (command_requested a c now) m w = optimistic_update-Mirrors a c now m w
step-Mirrors mqtt_up m w = record {
  shows =
      walk-shows rediscover_body (λ k s n. unfold rediscover_body in refl) rediscover_body-Syncs m w
        _;
}
step-Mirrors mqtt_down m w = Mirrors-Silent m _ _ refl (λ v k. refl)
step-Mirrors mochad_up m w = Mirrors-Silent m _ _ refl (λ v k. refl)
step-Mirrors mochad_down m w = record {
  shows = λ v same k.
      sym (walk-lost m.devices m.statistics v k)
      ∙ walk-shows lost_body (λ k s n. unfold lost_body in refl) lost_body-Syncs m w _ v same k;
}
step-Mirrors availability_read m w = Mirrors-Silent m _ _ refl (λ v k. refl)

run-Mirrors : (is : List Input) (m : StateManager) → IsWellFormed m → Mirrors m (run is m)
unfolding run
run-Mirrors [] m w = Mirrors-Silent m m [] refl (λ v k. refl)
run-Mirrors (i ∷ is) m w =
    Mirrors-append m (step i m) (run is (step i m).0) (step-Mirrors i m w)
      (run-Mirrors is (step i m).0 (step-IsWellFormed i m w))

-- A new manager knows no state of any device.
add_devices-view :
    (ds : List DeviceConfig) (m : StateManager) (k : Text)
    → state_view (add_devices ds m) k ≡ state_view m k
unfolding add_devices
add_devices-view [] m k = refl
add_devices-view (d ∷ ds) m k =
    add_devices-view ds _ k
    ∙ if_both (λ (n : StateManager). state_view n k ≡ state_view m k) (address_allowed m d.address)
        _ _ ((ensure_device-view _ d.address k).0) refl

-- Over any history of a new manager, the last state that was published as retained for an address
-- is the state that the manager holds for it, and an address without such a publish has no known
-- state.
pub run-published :
    (ds : List DeviceConfig) (optimistic : Bool) (codes : Option (List Text)) (is : List Input)
    (k : Text)
    → replay (run is (new_state_manager ds optimistic codes)).1 (λ _. none) k
      ≡ state_view (run is (new_state_manager ds optimistic codes)).0 k
unfolding lookup
run-published ds optimistic codes is k =
    (run-Mirrors is _ (new_state_manager-IsWellFormed ds optimistic codes)).shows (λ _. none)
      (λ j. unfold new_state_manager in sym (add_devices-view ds _ j)) k
