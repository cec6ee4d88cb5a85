-- ===== src/Bridge/Executed.antt =====
-- bridge.py: what the execution of a list of actions leaves.
use mochad_mqtt_bridge.Prelude.{
  ℕ, suc, ◌+◌, ◌≡◌, refl, sym, ap, ◌∙◌, inl, inr, Bool, true, false, false≢true, Option, none, some,
  List, [], ◌∷◌, arith, Bool-cases, length, All, Result, ok, raise,
}
use mochad_mqtt_bridge.Text.{Text}
use mochad_mqtt_bridge.Models.Enums.{Command}
use mochad_mqtt_bridge.Models.Runtime.{
  Json, Time, BridgeAction, publish_state, publish_event, publish_command_event, publish_attributes,
  publish_discovery, publish_availability, publish_status, publish_bridge_response,
  send_mochad_command, send_device_command, request_status, log_unknown_event,
}
use mochad_mqtt_bridge.Mochad
use mochad_mqtt_bridge.Mochad.{MochadClient, send_line}
use mochad_mqtt_bridge.Discovery.Blocks.{DiscoveryManager}
use mochad_mqtt_bridge.Bridge.{Bridge, Effect}
use mochad_mqtt_bridge.Bridge.Outbound.{
  bridge_device_config, device_command_queue_reason, queue_device_command, send_device_command_now,
  is_transport_error,
}
use mochad_mqtt_bridge.Models.Config.{DeviceConfig}
use mochad_mqtt_bridge.Bridge.{publish_status_if_connected}
use mochad_mqtt_bridge.Bridge.Outbound.{found_or_default, transmit, drop_oldest}
use mochad_mqtt_bridge.Dict.{lookup}
use mochad_mqtt_bridge.Text.Normal.{normal}
use mochad_mqtt_bridge.Bridge.Actions.{
  is_mqtt_publish, is_dropped, with_mochad, send_or_queue, perform, execute_action, after_action,
  execute_actions, is_sending,
}

with_mochad-mqtt :
    (b : Bridge) (r : MochadClient × Result (Unit {0})) → (with_mochad b r).0.mqtt ≡ b.mqtt
unfolding with_mochad
with_mochad-mqtt b (mochad, sent) = refl

found_or_default-mqtt :
    (address : Text) (o : Option DeviceConfig) (b : Bridge)
    → (found_or_default address o b).0.mqtt ≡ b.mqtt
unfolding found_or_default
found_or_default-mqtt address none b = refl
found_or_default-mqtt address (some d) b = refl

transmit-mqtt :
    (socket : ℕ → Bool) (n : ℕ) (r : Result Text) (b : Bridge)
    → (transmit socket n r b).0.mqtt ≡ b.mqtt
unfolding transmit
transmit-mqtt socket n (ok line) b = refl
transmit-mqtt socket n (raise e) b = refl

send-mqtt :
    (socket : ℕ → Bool) (action : Text × Command) (b : Bridge)
    → (send_device_command_now socket action b).0.mqtt ≡ b.mqtt
unfolding send_device_command_now bridge_device_config
send-mqtt socket (address, command) b =
    transmit-mqtt socket _ _ _
    ∙ found_or_default-mqtt (normal address) (lookup (normal address) b.devices) b

drop_oldest-mqtt : (b : Bridge) → (drop_oldest b).mqtt ≡ b.mqtt
unfolding drop_oldest
drop_oldest-mqtt b = ground arith

queue-mqtt :
    (action : Text × Command) (b : Bridge)
    → b.mqtt.connected ≡ false
    → (queue_device_command action b).0.mqtt ≡ b.mqtt
unfolding queue_device_command publish_status_if_connected
queue-mqtt action b off =
    let off' : (drop_oldest b).mqtt.connected ≡ false =
      ap (λ q. q.connected) (drop_oldest-mqtt b) ∙ off in
    rw off' (drop_oldest-mqtt b)

send_or_queue-mqtt :
    (socket : ℕ → Bool) (action : Text × Command) (reason : Option Text) (b : Bridge)
    → b.mqtt.connected ≡ false
    → (send_or_queue socket action reason b).0.mqtt ≡ b.mqtt
unfolding send_or_queue
send_or_queue-mqtt socket action none b off = send-mqtt socket action b
send_or_queue-mqtt socket action (some reason) b off = queue-mqtt action b off

-- the bridge with this count of dropped publishes, and no exception
abbrev counted : Bridge → ℕ → Effect
counted b n = (record b { dropped_mqtt_publishes = n }, ok tt)

module _ (socket : ℕ → Bool) (m : DiscoveryManager) (isoformat : Time → Text) (time : Json) where
  perform-mqtt :
      (a : BridgeAction) (b : Bridge)
      → is_mqtt_publish a ≡ false
      → b.mqtt.connected ≡ false
      → (perform socket m isoformat time a b).0.mqtt ≡ b.mqtt
  unfolding is_mqtt_publish perform
  perform-mqtt (publish_state x c r) b h off = absurd (false≢true (sym h))
  perform-mqtt (publish_event e) b h off = absurd (false≢true (sym h))
  perform-mqtt (publish_command_event x p r) b h off = absurd (false≢true (sym h))
  perform-mqtt (publish_attributes x p r) b h off = absurd (false≢true (sym h))
  perform-mqtt (publish_discovery x) b h off = absurd (false≢true (sym h))
  perform-mqtt (publish_availability o) b h off = absurd (false≢true (sym h))
  perform-mqtt (publish_status s x y r) b h off = absurd (false≢true (sym h))
  perform-mqtt (publish_bridge_response c s t p r) b h off = absurd (false≢true (sym h))
  perform-mqtt (send_mochad_command line) b h off =
      with_mochad-mqtt b (send_line socket line b.mochad)
  perform-mqtt (send_device_command x c) b h off =
      send_or_queue-mqtt socket (x, c) (device_command_queue_reason b) b off
  perform-mqtt request_status b h off = with_mochad-mqtt b (Mochad.request_status socket b.mochad)
  perform-mqtt (log_unknown_event e) b h off = refl

  -- A publish without a broker is only counted.
  execute_action-dropped :
      (a : BridgeAction) (b : Bridge)
      → is_mqtt_publish a ≡ true
      → b.mqtt.connected ≡ false
      → execute_action socket m isoformat time a b
        ≡ (record b { dropped_mqtt_publishes = b.dropped_mqtt_publishes + 1 }, ok tt)
  unfolding execute_action is_dropped
  execute_action-dropped a b h off = rw (h, off) refl

  execute_action-mqtt :
      (a : BridgeAction) (b : Bridge)
      → b.mqtt.connected ≡ false
      → (execute_action socket m isoformat time a b).0.mqtt ≡ b.mqtt
  unfolding execute_action is_dropped
  execute_action-mqtt a b off = elim (Bool-cases (is_mqtt_publish a)) [
    | inl e ↦ rw (e, off) refl
    | inr e ↦ rw e (perform-mqtt a b e off)
  ]

  after_action-mqtt :
      (a : BridgeAction) (rest : Bridge → Effect) (b : Bridge) (r : Effect)
      → r.0.mqtt ≡ b.mqtt
      → ((c : Bridge) → c.mqtt ≡ b.mqtt → (rest c).0.mqtt ≡ b.mqtt)
      → (after_action socket m isoformat time a rest r).0.mqtt ≡ b.mqtt
  unfolding after_action
  after_action-mqtt a rest b (c, ok done) kept next = next c kept
  after_action-mqtt a rest b (c, raise e) kept next = elim (Bool-cases (is_transport_error e)) [
    | inl lost ↦ rw lost (elim (Bool-cases (is_sending a)) [
      | inl ends ↦ rw ends kept
      | inr goes_on ↦ rw goes_on (next c kept)
    ])
    | inr other ↦ rw other kept
  ]

  -- While the broker is disconnected, no list of actions hands the MQTT library anything: also the
  -- status that goes with a queued command is left out.
  pub disconnected_silent :
      (actions : List BridgeAction) (b : Bridge)
      → b.mqtt.connected ≡ false
      → (execute_actions socket m isoformat time actions b).0.mqtt ≡ b.mqtt
  unfolding execute_actions
  disconnected_silent [] b off = refl
  disconnected_silent (a ∷ actions) b off =
      after_action-mqtt a (execute_actions socket m isoformat time actions) b _
        (execute_action-mqtt a b off)
        (λ c kept. disconnected_silent actions c (ap (λ q. q.connected) kept ∙ off) ∙ kept)

  -- While the broker is disconnected, a list of publishes changes nothing but the count of dropped
  -- publishes, which grows by one for each of them, and raises nothing.
  pub disconnected_counted :
      (actions : List BridgeAction) (b : Bridge)
      → All (λ a. is_mqtt_publish a ≡ true) actions
      → b.mqtt.connected ≡ false
      → execute_actions socket m isoformat time actions b
        ≡ (record b { dropped_mqtt_publishes = b.dropped_mqtt_publishes + length actions }, ok tt)
  unfolding execute_actions after_action
  disconnected_counted [] b h off =
      let none_more : b.dropped_mqtt_publishes ≡ b.dropped_mqtt_publishes + 0 = omega arith in
      ap (counted b) none_more
  disconnected_counted (a ∷ actions) b (h, hs) off =
      let more : b.dropped_mqtt_publishes + 1 + length actions
          ≡ b.dropped_mqtt_publishes + suc (length actions) =
        omega arith in
      rw
        (
          execute_action-dropped a b h off,
          disconnected_counted actions
              (record b { dropped_mqtt_publishes = b.dropped_mqtt_publishes + 1 }) hs off,
        )
        (ap (counted b) more)
