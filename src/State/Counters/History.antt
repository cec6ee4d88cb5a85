-- ===== src/State/Counters/History.antt =====
-- The counters of the connections over a history of a new manager.
use mochad_mqtt_bridge.Prelude.{
  ℕ, ◌+◌, ◌≡◌, refl, sym, ap, ◌∙◌, subst, Bool, true, false, Option, List, [], ◌∷◌, arith,
}
use mochad_mqtt_bridge.Text.{Text}
use mochad_mqtt_bridge.State.Steps.{if_both}
use mochad_mqtt_bridge.Models.Config.{DeviceConfig}
use mochad_mqtt_bridge.Models.Runtime.{BridgeStatistics}
use mochad_mqtt_bridge.State.{StateManager, address_allowed}
use mochad_mqtt_bridge.State.Methods.{add_devices, new_state_manager}
use mochad_mqtt_bridge.State.Connections.{
  request_command, optimistic_update, on_mqtt_connected, count_connection, on_mqtt_disconnected,
  count_disconnection, on_mochad_connected, on_mochad_disconnected, read_available, Input,
  event_arrives, command_requested, mqtt_up, mqtt_down, mochad_up, mochad_down, availability_read,
  step, run,
}
use mochad_mqtt_bridge.State.Counters.{
  Balanced, IsCounted, apply-link, connected_link, ensured_link, link, link-ensure_device,
  request_command-link,
}

count_connection-Balanced :
    (connected had : Bool) (n : BridgeStatistics)
    → Balanced connected had n.mqtt_reconnects n.mqtt_disconnects
    → Balanced true true
        (count_connection had connected n).mqtt_reconnects
        (count_connection had connected n).mqtt_disconnects
unfolding count_connection
count_connection-Balanced true true n b = b
count_connection-Balanced true false n b = absurd b
count_connection-Balanced false true n b = b
count_connection-Balanced false false n b = b.0 ∙ sym b.1

connected-IsCounted :
    (m : StateManager) → IsCounted (link m) → IsCounted (link (on_mqtt_connected m).0)
unfolding count_connection
connected-IsCounted m c = rw (connected_link m) (record {
  balanced =
      count_connection-Balanced m.mqtt_connected m.mqtt_has_connected m.statistics c.balanced;
  generation = ap (λ (n : ℕ). n + 1) c.generation;
  availability = refl;
})

disconnected-Balanced :
    (connected had : Bool) (n : BridgeStatistics)
    → Balanced connected had n.mqtt_reconnects n.mqtt_disconnects
    → Balanced false had n.mqtt_reconnects (count_disconnection connected n).mqtt_disconnects
unfolding count_disconnection
disconnected-Balanced true true n b = omega arith
disconnected-Balanced true false n b = absurd b
disconnected-Balanced false true n b = b
disconnected-Balanced false false n b = b

step-IsCounted : (i : Input) (m : StateManager) → IsCounted (link m) → IsCounted (link (step i m).0)
unfolding on_mqtt_disconnected on_mochad_connected on_mochad_disconnected read_available
    optimistic_update
step-IsCounted (event_arrives now e) m c = subst IsCounted (sym (apply-link now e m).same) c
step-IsCounted (command_requested a k now) m c =
    subst IsCounted
      (sym
        (ensured_link (request_command a k now) m m a (address_allowed m a)
          (request_command-link a k now) refl).same)
      c
step-IsCounted mqtt_up m c = connected-IsCounted m c
step-IsCounted mqtt_down m c = record {
  balanced = disconnected-Balanced m.mqtt_connected m.mqtt_has_connected m.statistics c.balanced;
  generation = c.generation;
  availability = refl;
}
step-IsCounted mochad_up m c = record {
  balanced = c.balanced;
  generation = c.generation;
  availability = refl;
}
step-IsCounted mochad_down m c = record {
  balanced = c.balanced;
  generation = c.generation;
  availability = refl;
}
step-IsCounted availability_read m c = record {
  balanced = c.balanced;
  generation = c.generation;
  availability = refl;
}

run-IsCounted :
    (is : List Input) (m : StateManager) → IsCounted (link m) → IsCounted (link (run is m).0)
unfolding run
run-IsCounted [] m c = c
run-IsCounted (i ∷ is) m c = run-IsCounted is (step i m).0 (step-IsCounted i m c)

add_devices-link : (ds : List DeviceConfig) (m : StateManager) → link (add_devices ds m) ≡ link m
unfolding add_devices
add_devices-link [] m = refl
add_devices-link (d ∷ ds) m =
    add_devices-link ds _
    ∙ if_both (λ (n : StateManager). link n ≡ link m) (address_allowed m d.address) _ _
        (link-ensure_device _ d.address) refl

-- Over any history of a new manager: while MQTT is connected, as many disconnects as reconnects are
-- counted, while it is not but has been, one disconnect more, and before the first connection none
-- of both; the generation is the number of connections; and the stored availability is the
-- conjunction of the two connections.
pub history-IsCounted :
    (ds : List DeviceConfig) (optimistic : Bool) (codes : Option (List Text)) (is : List Input)
    → IsCounted (link (run is (new_state_manager ds optimistic codes)).0)
unfolding new_state_manager
history-IsCounted ds optimistic codes is = run-IsCounted is _ (
    subst IsCounted (sym (add_devices-link ds _))
      (record { balanced = (refl, refl); generation = refl; availability = refl }))
