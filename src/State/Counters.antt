-- ===== src/State/Counters.antt =====
-- What the connection counters of the statistics mean.
pub mod History
use mochad_mqtt_bridge.Prelude.{
  ℕ, ◌+◌, ◌≡◌, refl, sym, ap, ◌∙◌, subst, Bool, true, false, not, ◌&&◌, Option, none, some, List,
  [], ◌∷◌, arith, if◌then◌else◌,
}
use mochad_mqtt_bridge.Text.{Text}
use mochad_mqtt_bridge.Text.Normal.{normal}
use mochad_mqtt_bridge.State.Steps.{if_both}
use mochad_mqtt_bridge.Dict.{Dict, lookup}
use mochad_mqtt_bridge.Models.Enums.{Command, contains_command}
use mochad_mqtt_bridge.Models.Config.{DeviceConfig}
use mochad_mqtt_bridge.Models.Runtime.{
  DeviceState, BridgeStatistics, Time, DeviceEvent, HouseEvent, BridgeAction,
}
use mochad_mqtt_bridge.State.{
  StateManager, Touched, Outcome, put_device, set_device_state, discovery_actions, found_or_new,
  ensure_device, device_config, address_allowed, house_allowed, walk,
}
use mochad_mqtt_bridge.State.Methods.{
  receive_device_event, apply_device_event, house_body, apply_house_event, receive_status,
  snapshot_entry, snapshot_entries, apply_status_snapshot, Event, device_event, house_event,
  status_snapshot, unknown_event, apply_unknown_event, apply, add_devices, new_state_manager,
}
use mochad_mqtt_bridge.State.Connections.{
  record_command, request_command, optimistic_update, on_mqtt_connected, count_connection,
  bridge_status_actions, rediscover_body, on_mqtt_disconnected, count_disconnection,
  on_mochad_connected, on_mochad_disconnected, read_available, Input, event_arrives,
  command_requested, mqtt_up, mqtt_down, mochad_up, mochad_down, availability_read, step, run,
}

-- A connection is a reconnect unless it is the first or the client was connected; a disconnect
-- counts when the client was connected. So the two counters differ by one exactly while a client
-- that has been connected is not.
abbrev pub Balanced : (connected has_connected : Bool) (reconnects disconnects : ℕ) → Type 0
Balanced true true r d = r ≡ d
Balanced true false r d = ⊥
Balanced false true r d = r + 1 ≡ d
Balanced false false r d = (r ≡ 0) × (d ≡ 0)

-- The counters of the MQTT connection.
pub record Counters : Type 0 where
  pub connections : ℕ
  pub disconnects : ℕ
  pub reconnects : ℕ

abbrev pub counters : BridgeStatistics → Counters
counters n = record {
  connections = n.mqtt_connections;
  disconnects = n.mqtt_disconnects;
  reconnects = n.mqtt_reconnects;
}

-- The fields of the manager that speak of connections.
pub record Link : Type 0 where
  pub mqtt : Bool
  pub had : Bool
  pub mochad : Bool
  pub available : Bool
  pub generation : ℕ
  pub counts : Counters

abbrev pub link : StateManager → Link
link m = record {
  mqtt = m.mqtt_connected;
  had = m.mqtt_has_connected;
  mochad = m.mochad_connected;
  available = m.available;
  generation = m.mqtt_generation;
  counts = counters m.statistics;
}

pub record IsCounted (l : Link) : Type 0 where
  pub balanced : Balanced l.mqtt l.had l.counts.reconnects l.counts.disconnects
  pub generation : l.generation ≡ l.counts.connections
  pub availability : l.available ≡ (l.mqtt && l.mochad)

counters-set_device_state :
    (s : DeviceState) (n : BridgeStatistics) (c : Command) (now : Time) (retain clear : Bool)
    → counters (set_device_state s n c now retain clear).1 ≡ counters n
unfolding set_device_state
counters-set_device_state s n c now retain clear =
    if_both (λ (t : Touched). counters t.1 ≡ counters n) _ _ _ refl refl

counters-discovery_actions :
    (connected : Bool) (s : DeviceState) (n : BridgeStatistics)
    → counters (discovery_actions connected s n).1 ≡ counters n
unfolding discovery_actions
counters-discovery_actions connected s n =
    if_both (λ (t : Touched). counters t.1 ≡ counters n) _ _ _ refl refl

-- What keeps the counters keeps the link.
abbrev with_counts : StateManager → Counters → Link
with_counts m c = record {
  mqtt = m.mqtt_connected;
  had = m.mqtt_has_connected;
  mochad = m.mochad_connected;
  available = m.available;
  generation = m.mqtt_generation;
  counts = c;
}

link-ensure_device : (m : StateManager) (a : Text) → link (ensure_device m a).0 ≡ link m
unfolding ensure_device
link-ensure_device m a = go (lookup (normal a) m.devices)
  where
    go : (o : Option DeviceState) → link (found_or_new m (normal a) o).0 ≡ link m
    go none = unfold found_or_new in refl
    go (some s) = unfold found_or_new in refl

record Keeps (m : StateManager) (o : Outcome) : Type 0 where
  same : link o.0 ≡ link m

idle : (m : StateManager) → Keeps m (m, [])
idle m = record { same = refl }

Keeps-put_device :
    (m : StateManager) (key : Text) (s : DeviceState) (n : BridgeStatistics)
    (acts : List BridgeAction)
    → counters n ≡ counters m.statistics
    → Keeps m (put_device m key s n, acts)
Keeps-put_device m key s n acts e = record { same = ap (with_counts m) e }

module _ (m : StateManager) (s : DeviceState) where
  receive_device_event-link : (e : DeviceEvent) → Keeps m (receive_device_event e m s)
  unfolding receive_device_event
  receive_device_event-link e =
      let s₁ = record s { available = true; last_seen = some e.timestamp } in
      let t = discovery_actions m.mqtt_connected s₁ m.statistics in
      let found = counters-discovery_actions m.mqtt_connected s₁ m.statistics in
      if_both (Keeps m) _ _ _ (Keeps-put_device m _ _ t.1 _ found) (
        Keeps-put_device m _ _ (set_device_state t.0 t.1 e.command e.timestamp true true).1 _
          (counters-set_device_state t.0 t.1 e.command e.timestamp true true ∙ found))

  receive_status-link : (now : Time) (a : Text) (c : Command) → Keeps m (receive_status now a c m s)
  unfolding receive_status
  receive_status-link now a c =
      let s₁ = record s { available = true; last_seen = some now } in
      if_both (Keeps m) _ _ _
        (Keeps-put_device m _ _ (set_device_state s₁ m.statistics c now true true).1 _
          (counters-set_device_state s₁ m.statistics c now true true))
        (idle m)

  record_command-link :
      (d : DeviceConfig) (key : Text) (c : Command) (now : Time)
      → Keeps m (record_command m d key s c now)
  unfolding record_command
  record_command-link d key c now =
      let s₁ = record s { pending_command = some c } in
      let n = record m.statistics { commands_sent = m.statistics.commands_sent + 1 } in
      let t = discovery_actions m.mqtt_connected s₁ n in
      let found = counters-discovery_actions m.mqtt_connected s₁ n in
      if_both (Keeps m) (not d.stateful) _ _ (Keeps-put_device m key t.0 t.1 _ found) (
        if_both (Keeps m) m.optimistic_updates _ _
          (Keeps-put_device m key _ (set_device_state t.0 t.1 c now true false).1 _
            (counters-set_device_state t.0 t.1 c now true false ∙ found))
          (Keeps-put_device m key t.0 t.1 _ found))

ensured_link :
    (f : StateManager → DeviceState → Outcome) (m n : StateManager) (a : Text) (allowed : Bool)
    → ((m : StateManager) (s : DeviceState) → Keeps m (f m s))
    → link m ≡ link n
    → Keeps n (if allowed then f (ensure_device m a).0 (ensure_device m a).1 else (n, []))
ensured_link f m n a allowed keeps same =
    if_both (Keeps n) allowed _ _
      (record { same = (keeps _ _).same ∙ link-ensure_device m a ∙ same }) (idle n)

snapshot_entries-link :
    (now : Time) (d : Dict Command) (m : StateManager) → Keeps m (snapshot_entries now d m)
unfolding snapshot_entries snapshot_entry
snapshot_entries-link now [] m = idle m
snapshot_entries-link now ((a, c) ∷ d) m = record {
  same =
      (snapshot_entries-link now d _).same
      ∙ (ensured_link (receive_status now a c) m m a (address_allowed m a)
          (λ m s. receive_status-link m s now a c) refl).same;
}

counters-walk :
    (body : Text → DeviceState → BridgeStatistics → Touched)
    → ((k : Text) (s : DeviceState) (n : BridgeStatistics) → counters (body k s n).1 ≡ counters n)
    → (d : Dict DeviceState) (n : BridgeStatistics) → counters (walk body d n).1 ≡ counters n
unfolding walk
counters-walk body keeps [] n = refl
counters-walk body keeps ((k, s) ∷ d) n = counters-walk body keeps d _ ∙ keeps k s n

counters-house_body :
    (m : StateManager) (e : HouseEvent) (k : Text) (s : DeviceState) (n : BridgeStatistics)
    → counters (house_body m e k s n).1 ≡ counters n
unfolding house_body
counters-house_body m e k s n =
    if_both (λ (t : Touched). counters t.1 ≡ counters n) _ _ _
      (counters-set_device_state _ _ _ _ _ _) refl

Keeps-walk :
    (m : StateManager) (d : Dict DeviceState) (n : BridgeStatistics) (acts : List BridgeAction)
    → counters n ≡ counters m.statistics
    → Keeps m (record m { devices = d; statistics = n }, acts)
Keeps-walk m d n acts e = record { same = ap (with_counts m) e }

apply_house_event-link : (e : HouseEvent) (m : StateManager) → Keeps m (apply_house_event e m)
unfolding apply_house_event
apply_house_event-link e m =
    let counted = record m.statistics { events_received = m.statistics.events_received + 1 } in
    let walked = walk (house_body m e) m.devices counted in
    if_both (Keeps m) (house_allowed m e.house) _ _
      (if_both (Keeps m) _ _ _
        (Keeps-walk m walked.0 walked.1 walked.2
          (counters-walk (house_body m e) (counters-house_body m e) m.devices counted))
        (Keeps-walk m m.devices counted [] refl))
      (idle m)

apply-link : (now : Time) (e : Option Event) (m : StateManager) → Keeps m (apply now e m)
unfolding apply apply_device_event apply_status_snapshot apply_unknown_event
apply-link now none m = idle m
apply-link now (some (device_event e)) m =
    ensured_link (receive_device_event e) _ m e.address (address_allowed m e.address)
      (λ m s. receive_device_event-link m s e) refl
apply-link now (some (house_event e)) m = apply_house_event-link e m
apply-link now (some (status_snapshot e)) m = record {
  same = (snapshot_entries-link now e.devices _).same;
}
apply-link now (some (unknown_event e)) m = record { same = refl }

request_command-link :
    (a : Text) (c : Command) (now : Time) (m : StateManager) (s : DeviceState)
    → Keeps m (request_command a c now m s)
unfolding request_command
request_command-link a c now m s =
    let device = device_config m s.address in
    if_both (Keeps m) (contains_command c device.supported_commands) _ _
      (record_command-link m s device (normal a) c now) (idle m)

counters-rediscover_body :
    (k : Text) (s : DeviceState) (n : BridgeStatistics)
    → counters (rediscover_body k s n).1 ≡ counters n
unfolding rediscover_body
counters-rediscover_body k s n = refl

-- The link after `mqtt_connected`.
connected_link :
    (m : StateManager)
    → link (on_mqtt_connected m).0 ≡ record {
      mqtt = true;
      had = true;
      mochad = m.mochad_connected;
      available = m.mochad_connected;
      generation = m.mqtt_generation + 1;
      counts = counters (count_connection m.mqtt_has_connected m.mqtt_connected m.statistics);
    }
unfolding on_mqtt_connected bridge_status_actions
connected_link m =
    let n = count_connection m.mqtt_has_connected m.mqtt_connected m.statistics in
    let m' =
      (bridge_status_actions (record m {
        mqtt_connected = true;
        mqtt_generation = m.mqtt_generation + 1;
        mqtt_has_connected = true;
        statistics = n;
      })).0 in
    ap (with_counts m') (counters-walk rediscover_body counters-rediscover_body m.devices n)
