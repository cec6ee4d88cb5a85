-- ===== src/State/WellFormed.antt =====
-- Every manager that the bridge can have is well formed: the keys of its devices are distinct,
-- normalised and allowed, and each `DeviceState` carries its key as its address.
use mochad_mqtt_bridge.Prelude.{
  ◌≡◌, refl, ◌∙◌, Bool, true, Option, none, some, List, [], ◌∷◌, arith,
}
use mochad_mqtt_bridge.Text.{Text}
use mochad_mqtt_bridge.Text.Normal.{normal, normal_idem}
use mochad_mqtt_bridge.Dict.{Dict, lookup}
use mochad_mqtt_bridge.Dict.Keys.{
  Fresh, HasDistinctKeys, insert-HasDistinctKeys, Entries, insert-Entries, lookup-Entries,
}
use mochad_mqtt_bridge.Models.Enums.{Command}
use mochad_mqtt_bridge.Models.Runtime.{DeviceState, BridgeStatistics, Time}
use mochad_mqtt_bridge.State.{
  StateManager, Touched, set_device_state, discovery_actions, found_or_new, ensure_device,
  key_allowed, address_allowed, put_device, walk,
}

abbrev pub IsEntry : Option (List Text) → Text → DeviceState → Type 0
IsEntry codes key state =
    (state.address ≡ key) × (normal key ≡ key) × (key_allowed codes key ≡ true)

pub record IsWellFormed (m : StateManager) : Type 0 where
  pub distinct : HasDistinctKeys m.devices
  pub entries : Entries (IsEntry m.allowed_housecodes) m.devices

pub address-set_device_state :
    (s : DeviceState) (n : BridgeStatistics) (c : Command) (now : Time) (retain clear : Bool)
    → (set_device_state s n c now retain clear).0.address ≡ s.address
unfolding set_device_state
address-set_device_state s n c now retain clear = ground arith

pub address-discovery_actions :
    (connected : Bool) (s : DeviceState) (n : BridgeStatistics)
    → (discovery_actions connected s n).0.address ≡ s.address
unfolding discovery_actions
address-discovery_actions connected s n = ground arith

-- What `ensure_device` gives: a well-formed manager, and the object under the normalised address.
found_or_new-IsWellFormed :
    (m : StateManager) (a : Text) (found : Option DeviceState)
    → lookup (normal a) m.devices ≡ found
    → IsWellFormed m
    → address_allowed m a ≡ true
    → IsWellFormed (found_or_new m (normal a) found).0
      × ((found_or_new m (normal a) found).1.address ≡ normal a)
      × ((found_or_new m (normal a) found).0.allowed_housecodes ≡ m.allowed_housecodes)
unfolding found_or_new address_allowed
found_or_new-IsWellFormed m a none e w h = (
  record {
    distinct = insert-HasDistinctKeys (normal a) _ m.devices w.distinct;
    entries =
        insert-Entries (IsEntry m.allowed_housecodes) (normal a) _ m.devices
          (refl, normal_idem a, h) w.entries;
  },
  refl,
  refl,
)
found_or_new-IsWellFormed m a (some s) e w h =
    (w, (lookup-Entries (IsEntry m.allowed_housecodes) (normal a) s m.devices w.entries e).0, refl)

pub ensure_device-IsWellFormed :
    (m : StateManager) (a : Text)
    → IsWellFormed m
    → address_allowed m a ≡ true
    → IsWellFormed (ensure_device m a).0
      × ((ensure_device m a).1.address ≡ normal a)
      × ((ensure_device m a).0.allowed_housecodes ≡ m.allowed_housecodes)
unfolding ensure_device
ensure_device-IsWellFormed m a w h = found_or_new-IsWellFormed m a _ refl w h

pub put_device-IsWellFormed :
    (m : StateManager) (a : Text) (s : DeviceState) (n : BridgeStatistics)
    → IsWellFormed m
    → address_allowed m a ≡ true
    → s.address ≡ normal a
    → IsWellFormed (put_device m (normal a) s n)
unfolding address_allowed
put_device-IsWellFormed m a s n w h e = record {
  distinct = insert-HasDistinctKeys (normal a) s m.devices w.distinct;
  entries =
      insert-Entries (IsEntry m.allowed_housecodes) (normal a) s m.devices (e, normal_idem a, h)
        w.entries;
}

-- A walk whose body keeps addresses.
module _ (body : Text → DeviceState → BridgeStatistics → Touched)
    (keeps : (k : Text) (s : DeviceState) (n : BridgeStatistics)
      → (body k s n).0.address ≡ s.address) where
  pub walk-Fresh :
      (k : Text) (d : Dict DeviceState) (n : BridgeStatistics)
      → Fresh k d
      → Fresh k (walk body d n).0
  unfolding walk
  walk-Fresh k [] n h = tt
  walk-Fresh k ((j, s) ∷ d) n h = (h.0, walk-Fresh k d (body j s n).1 h.1)

  pub walk-HasDistinctKeys :
      (d : Dict DeviceState) (n : BridgeStatistics)
      → HasDistinctKeys d
      → HasDistinctKeys (walk body d n).0
  unfolding walk
  walk-HasDistinctKeys [] n h = tt
  walk-HasDistinctKeys ((j, s) ∷ d) n h =
      (walk-Fresh j d (body j s n).1 h.0, walk-HasDistinctKeys d (body j s n).1 h.1)

  pub walk-Entries :
      (codes : Option (List Text)) (d : Dict DeviceState) (n : BridgeStatistics)
      → Entries (IsEntry codes) d
      → Entries (IsEntry codes) (walk body d n).0
  unfolding walk
  walk-Entries codes [] n h = tt
  walk-Entries codes ((j, s) ∷ d) n h =
      ((keeps j s n ∙ h.0.0, h.0.1, h.0.2), walk-Entries codes d (body j s n).1 h.1)
