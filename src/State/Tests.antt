-- ===== src/State/Tests.antt =====
-- Runs of the manager on a small house: a switch A1 and a lamp A2 that answers ALL LIGHTS commands.
use mochad_mqtt_bridge.Prelude.{
  ◌≡◌, refl, true, false, Option, none, some, List, [], ◌∷◌, if◌then◌else◌,
}
use mochad_mqtt_bridge.Text.{Text, text, upper, strip, contains_text, text_eq}
use mochad_mqtt_bridge.Dict.{lookup, insert}
use mochad_mqtt_bridge.Models.Enums.{
  Command, on, off, bright, all_lights_on, light, rx, rf, command_eq,
}
use mochad_mqtt_bridge.Models.Config.{DeviceConfig, default_fields, new_device_config, post_init}
use mochad_mqtt_bridge.Models.Runtime.{
  DeviceState, new_device_state, DeviceEvent, HouseEvent, zero_statistics,
}
use mochad_mqtt_bridge.State.{
  key_allowed, ensure_device, StateManager, set_device_state, authoritative_state, house_allowed,
  address_allowed,
}
use mochad_mqtt_bridge.State.Methods.{
  new_state_manager, normalize_housecodes, apply_house_event, device_event, house_event,
}
use mochad_mqtt_bridge.State.Connections.{
  Input, event_arrives, command_requested, mqtt_up, mqtt_down, mochad_up, mochad_down, run,
}
use mochad_mqtt_bridge.State.Mirror.{replay, state_view, current}
use mochad_mqtt_bridge.State.WellFormed.{IsWellFormed}
use mochad_mqtt_bridge.State.Steps.{run-IsWellFormed, new_state_manager-IsWellFormed}
use mochad_mqtt_bridge.State.Published.{run-published}
use mochad_mqtt_bridge.State.Counters.{IsCounted, link}
use mochad_mqtt_bridge.State.Counters.History.{history-IsCounted}
use mochad_mqtt_bridge.State.Effects.{
  expected, house_event_exact, confirmation_clears_iff, bright_stays_pending,
}

abbrev lamp : DeviceConfig
lamp = post_init (record (default_fields (text "a2") (text "lamp")) { entity_type = light })

abbrev home : List DeviceConfig
home = new_device_config (text "A1") (text "switch") ∷ lamp ∷ []

abbrev house_a : Option (List Text)
house_a = some (text " a " ∷ [])

abbrev switched_on : DeviceEvent
switched_on = record {
  timestamp = 7;
  direction = rx;
  transport = rf;
  command = on;
  address = text "A1";
}

abbrev lights_on : HouseEvent
lights_on = record {
  timestamp = 9;
  direction = rx;
  transport = rf;
  command = all_lights_on;
  house = text "A";
}

abbrev day : List Input
day =
    mqtt_up
    ∷ mochad_up
    ∷ event_arrives 7 (some (device_event switched_on))
    ∷ event_arrives 9 (some (house_event lights_on))
    ∷ command_requested (text "a1") off 10
    ∷ mqtt_down
    ∷ mqtt_up
    ∷ mochad_down
    ∷ []

abbrev start : StateManager
start = new_state_manager home false house_a

abbrev evening : StateManager
evening = (run day start).0

abbrev pending : Command → DeviceState
pending c = record (new_device_state (text "A1")) { pending_command = some c }

run-published_example :
    replay (run day start).1 (λ _. none) (text "A2") ≡ state_view evening (text "A2")
run-published_example = run-published home false house_a day (text "A2")

history-IsCounted_example : IsCounted (link evening)
history-IsCounted_example = history-IsCounted home false house_a day

run-IsWellFormed_example : IsWellFormed evening
run-IsWellFormed_example =
    run-IsWellFormed day start (new_state_manager-IsWellFormed home false house_a)

house_event_exact_example :
    current (lookup (text "A2") (apply_house_event lights_on start).0.devices)
    ≡ expected start lights_on (text "A2") (lookup (text "A2") start.devices)
unfolding new_state_manager house_allowed address_allowed key_allowed upper strip post_init
    new_device_config normalize_housecodes contains_text text_eq ensure_device lookup insert
house_event_exact_example = house_event_exact start lights_on (text "A2") refl

confirmation_clears_iff_example :
    (set_device_state (pending off) zero_statistics off 3 true true).0.pending_command
    ≡ (if command_eq off (authoritative_state off) then none else some off)
confirmation_clears_iff_example =
    confirmation_clears_iff (pending off) zero_statistics off off 3 true refl

bright_stays_pending_example :
    (set_device_state (pending bright) zero_statistics bright 3 true true).0.pending_command
    ≡ some bright
bright_stays_pending_example =
    bright_stays_pending (pending bright) zero_statistics bright 3 true true refl
