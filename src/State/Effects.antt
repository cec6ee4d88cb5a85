-- ===== src/State/Effects.antt =====
-- What single events do to the devices: house commands, confirmations, and a confirmation of BRIGHT.
use mochad_mqtt_bridge.Prelude.{
  ◌≡◌, refl, sym, ◌∙◌, subst, inl, inr, Bool, true, false, ◌&&◌, false≢true, Option, none, some, [],
  ◌∷◌, arith, if◌then◌else◌, Bool-cases,
}
use mochad_mqtt_bridge.Text.{Text, text_eq, text_eq_sound, starts_with}
use mochad_mqtt_bridge.Text.Normal.{normal}
use mochad_mqtt_bridge.Dict.{Dict, lookup}
use mochad_mqtt_bridge.Models.Enums.{
  Command, on, off, bright, all_lights_on, all_lights_off, all_units_off, contains_command,
  command_eq,
}
use mochad_mqtt_bridge.Models.Config.{DeviceConfig}
use mochad_mqtt_bridge.Models.Runtime.{DeviceState, BridgeStatistics, Time, HouseEvent}
use mochad_mqtt_bridge.State.{
  StateManager, authoritative_state, is_command, clear_confirmed_pending, set_device_state,
  device_config, house_allowed, walk,
}
use mochad_mqtt_bridge.State.Methods.{device_responds, house_body, apply_house_event}
use mochad_mqtt_bridge.State.Mirror.{current, current-set_device_state}

-- The state that a house command asks of a device that obeys it, if it is such a command.
unfoldable pub house_target : Command → Option Command
house_target all_units_off = some off
house_target all_lights_off = some off
house_target all_lights_on = some on
house_target _ = none

-- Whether a device obeys a house command.
unfoldable pub obeys : DeviceConfig → Command → Bool
obeys device all_units_off = device.stateful && device.all_units_off_response
obeys device all_lights_off = device.stateful && device.all_lights_off_response
obeys device all_lights_on = device.stateful && device.all_lights_on_response
obeys device _ = false

abbrev target_or : Option Command → Option Command → Option Command
target_or none old = old
target_or (some c) old = some c

-- The state of a known device after a house command.
abbrev pub expected : StateManager → HouseEvent → Text → Option DeviceState → Option Command
expected m e k none = none
expected m e k (some s) =
    if starts_with k (normal e.house) && obeys (device_config m s.address) e.command
    then target_or (house_target e.command) s.current_state
    else s.current_state

obeys_lem : (d : DeviceConfig) (c : Command) → obeys d c ≡ (d.stateful && device_responds d c)
unfolding obeys device_responds
obeys_lem d all_units_off = refl
obeys_lem d all_lights_off = refl
obeys_lem d all_lights_on = refl
obeys_lem d _ = ground arith

house_target_lem :
    (d : DeviceConfig) (c : Command)
    → obeys d c ≡ true
    → house_target c
      ≡ some (
          authoritative_state
            (if contains_command c (all_units_off ∷ all_lights_off ∷ []) then off else on))
unfolding obeys house_target authoritative_state contains_command command_eq
house_target_lem d all_units_off h = refl
house_target_lem d all_lights_off h = refl
house_target_lem d all_lights_on h = refl
house_target_lem d _ h = absurd (false≢true h)

house_body-current :
    (m : StateManager) (e : HouseEvent) (k : Text) (s : DeviceState) (n : BridgeStatistics)
    → (house_body m e k s n).0.current_state ≡ expected m e k (some s)
unfolding house_body
house_body-current m e k s n =
    let d = device_config m s.address in
    rw (obeys_lem d e.command)
      (elim (Bool-cases
        (starts_with k (normal e.house) && (d.stateful && device_responds d e.command))) [
          | inl obeyed ↦ rw obeyed (
              current-set_device_state (record s { available = true; last_seen = some e.timestamp })
                n _ e.timestamp true true
              ∙ rw (house_target_lem d e.command (obeys_lem d e.command ∙ ground arith)))
          | inr not_obeyed ↦ rw not_obeyed
        ])

lookup-walk :
    (m : StateManager) (e : HouseEvent) (d : Dict DeviceState) (n : BridgeStatistics) (k : Text)
    → current (lookup k (walk (house_body m e) d n).0) ≡ expected m e k (lookup k d)
unfolding walk lookup
lookup-walk m e [] n k = refl
lookup-walk m e ((j, s) ∷ d) n k = elim (Bool-cases (text_eq j k)) [
  | inl same ↦ rw same (
      subst (λ i. (house_body m e j s n).0.current_state ≡ expected m e i (some s))
        (text_eq_sound j k same) (house_body-current m e j s n))
  | inr other ↦ rw other (lookup-walk m e d (house_body m e j s n).1 k)
]

obeys_none :
    (d : DeviceConfig) (c : Command)
    → contains_command c (all_units_off ∷ all_lights_off ∷ all_lights_on ∷ []) ≡ false
    → obeys d c ≡ false
unfolding obeys contains_command command_eq
obeys_none d all_units_off h = absurd (false≢true (sym h))
obeys_none d all_lights_off h = absurd (false≢true (sym h))
obeys_none d all_lights_on h = absurd (false≢true (sym h))
obeys_none d _ h = refl

no_target :
    (m : StateManager) (e : HouseEvent) (k : Text) (o : Option DeviceState)
    → contains_command e.command (all_units_off ∷ all_lights_off ∷ all_lights_on ∷ []) ≡ false
    → current o ≡ expected m e k o
no_target m e k none h = refl
no_target m e k (some s) h = rw (obeys_none (device_config m s.address) e.command h) (ground arith)

-- After a house event of an allowed house, the state of every key is exactly the expected one: the
-- commanded state for a known device of the house that is stateful and answers that command, and the
-- old state, or none, for every other.
pub house_event_exact :
    (m : StateManager) (e : HouseEvent) (k : Text)
    → house_allowed m e.house ≡ true
    → current (lookup k (apply_house_event e m).0.devices) ≡ expected m e k (lookup k m.devices)
unfolding apply_house_event
house_event_exact m e k allowed =
    rw allowed
      (elim (Bool-cases
        (contains_command e.command (all_units_off ∷ all_lights_off ∷ all_lights_on ∷ []))) [
          | inl command ↦ rw command (lookup-walk m e m.devices _ k)
          | inr other ↦ rw other (no_target m e k (lookup k m.devices) other)
        ])

-- A confirmation clears the pending command exactly when the authoritative state that it reports is
-- that command.
pub confirmation_clears_iff :
    (s : DeviceState) (n : BridgeStatistics) (pending reported : Command) (now : Time)
    (retain : Bool)
    → s.pending_command ≡ some pending
    → (set_device_state s n reported now retain true).0.pending_command
      ≡ (if command_eq pending (authoritative_state reported) then none else some pending)
unfolding set_device_state clear_confirmed_pending is_command
confirmation_clears_iff s n pending reported now retain h = ground arith

-- The authoritative state is never BRIGHT.
bright_not_authoritative : (c : Command) → command_eq bright (authoritative_state c) ≡ false
unfolding command_eq authoritative_state contains_command
bright_not_authoritative on = refl
bright_not_authoritative _ = refl

-- A pending BRIGHT is cleared by no confirmation, not even by a BRIGHT event of the device.
pub bright_stays_pending :
    (s : DeviceState) (n : BridgeStatistics) (reported : Command) (now : Time) (retain clear : Bool)
    → s.pending_command ≡ some bright
    → (set_device_state s n reported now retain clear).0.pending_command ≡ some bright
unfolding set_device_state clear_confirmed_pending is_command
bright_stays_pending s n reported now retain clear h =
    ground (arith, bright_not_authoritative reported)
