-- ===== src/Bridge/Inbound.antt =====
-- bridge.py: the callbacks of messages from MQTT, and the status of a shutdown.
use mochad_mqtt_bridge.Prelude.{
  ℕ, ◌≡◌, refl, ap, ◌⊎◌, Option-cases, inl, inr, Bool, true, false, Option, none, some,
  if◌then◌else◌, ok, raise,
}
use mochad_mqtt_bridge.Text.{Text, text}
use mochad_mqtt_bridge.Models.Enums.{Command, BridgeCommand}
use mochad_mqtt_bridge.Models.Runtime.{Json, bool, end, Time}
use mochad_mqtt_bridge.Models.Payloads.{raw, document, put_field}
use mochad_mqtt_bridge.Topics.{status_topic, availability_topic}
use mochad_mqtt_bridge.State.Connections.{optimistic_update}
use mochad_mqtt_bridge.Discovery.Blocks.{DiscoveryManager}
use mochad_mqtt_bridge.Bridge.{Bridge, DeviceCommand, Effect, bridge_status_payload, publish}
use mochad_mqtt_bridge.Bridge.Actions.{execute_action, execute_actions}
use mochad_mqtt_bridge.Bridge.Outbound.{bridge_device_config}
use mochad_mqtt_bridge.Bridge.Cleanup.{Both}
use mochad_mqtt_bridge.Bridge.Commands.{
  MqttCommandMessage, parse_bridge_command_payload, accept_mqtt_command,
}
use mochad_mqtt_bridge.Bridge.Commands.Accepted.{
  IsAccepted, accept_mqtt_command-accepted, accept_mqtt_command_iff,
}
use mochad_mqtt_bridge.Bridge.Commands.Refused.{Untouched, accept_mqtt_command-Untouched}
use mochad_mqtt_bridge.Bridge.Maintenance.{
  Outcome, bridge_response, keep_registry, handle_bridge_command,
}

-- The end of `_publish_shutdown_status`: the availability, once the status is published.
unfoldable pub publish_offline : Effect → Effect
unfolding publish
publish_offline (b, raise e) = (b, raise e)
publish_offline (b, ok done) =
    publish (availability_topic b.mqtt.base_topic) (raw (text "offline")) true b

-- `_publish_shutdown_status`
unfoldable pub publish_shutdown_status : Bridge → Effect
unfolding publish_offline publish bridge_status_payload put_field
publish_shutdown_status b =
    let (refreshed, payload) =
      bridge_status_payload (some (text "shutdown")) (some true) (some false) b in
    if b.mqtt.connected
    then publish_offline (
        publish (status_topic b.mqtt.base_topic)
          (document (put_field (text "available") (bool false) payload)) true refreshed)
    else (b, ok tt)

-- As for the execution of actions. `warning` is the text for a payload that is refused.
module _ (socket : ℕ → Bool) (m : DiscoveryManager) (isoformat : Time → Text) (time : Json) where
  -- the accepted command, handed to the manager
  unfoldable pub act_on_command : Time → Bridge × Option DeviceCommand → Effect
  unfolding optimistic_update execute_actions
  act_on_command now (b, none) = (b, ok tt)
  act_on_command now (b, some (address, command)) =
      let (state, actions) = optimistic_update address command now b.state in
      execute_actions socket m isoformat time actions (record b { state = state })

  -- `_on_mqtt_command`
  unfoldable pub on_mqtt_command : Time → MqttCommandMessage → Bridge → Effect
  unfolding act_on_command accept_mqtt_command
  on_mqtt_command now message b = act_on_command now (accept_mqtt_command message b)

  unfoldable pub act_on_bridge_command : Bool → Bool → Text → Option BridgeCommand → Both → Outcome
  unfolding bridge_response execute_action handle_bridge_command
  act_on_bridge_command cleanup buttons warning none (b, r) =
      keep_registry r
        (execute_action socket m isoformat time (bridge_response none false warning end) b)
  act_on_bridge_command cleanup buttons warning (some command) both =
      handle_bridge_command socket m isoformat time cleanup buttons command both

  -- `_on_mqtt_bridge_command`
  unfoldable pub on_mqtt_bridge_command : Bool → Bool → Text → Text → Both → Outcome
  unfolding act_on_bridge_command parse_bridge_command_payload
  on_mqtt_bridge_command cleanup buttons warning payload both =
      act_on_bridge_command cleanup buttons warning (parse_bridge_command_payload payload) both

-- A command message that is accepted for an address and a command makes the bridge, which then knows
-- the device of the address, do exactly what the manager returns for that address and command.
pub on_mqtt_command-accepted :
    (socket : ℕ → Bool) (m : DiscoveryManager) (isoformat : Time → Text) (time : Json) (now : Time)
    (message : MqttCommandMessage) (b : Bridge) (a : Text) (c : Command)
    → IsAccepted message b a c
    → on_mqtt_command socket m isoformat time now message b ≡ (
        let known = (bridge_device_config a b).0 in
        let (state, actions) = optimistic_update a c now known.state in
        execute_actions socket m isoformat time actions (record known { state = state }))
unfolding on_mqtt_command act_on_command
on_mqtt_command-accepted socket m isoformat time now message b a c h =
    rw (accept_mqtt_command-accepted message b a c h) refl

none-IsAccepted :
    (message : MqttCommandMessage) (b : Bridge) (a : Text) (c : Command)
    → (accept_mqtt_command message b).1 ≡ none
    → ¬ IsAccepted message b a c
none-IsAccepted message b a c e h =
    let found = (accept_mqtt_command_iff message b a c).1 h in absurd (cc)

-- Every command message is in one of two cases. Either it is accepted for an address and a command, and
-- the bridge, which then knows the device of the address, does what the manager returns for that
-- address and command. Or it is accepted for no address and no command, and then the manager, the
-- queue, and what mochad and the broker get stay as they are, and nothing is raised.
pub on_mqtt_command-exact :
    (socket : ℕ → Bool) (m : DiscoveryManager) (isoformat : Time → Text) (time : Json) (now : Time)
    (message : MqttCommandMessage) (b : Bridge)
    → ((a : Text) × (c : Command) × IsAccepted message b a c
        × (on_mqtt_command socket m isoformat time now message b ≡ (
            let known = (bridge_device_config a b).0 in
            let (state, actions) = optimistic_update a c now known.state in
            execute_actions socket m isoformat time actions (record known { state = state }))))
      ⊎ (((a : Text) (c : Command) → ¬ IsAccepted message b a c)
          × Untouched b (on_mqtt_command socket m isoformat time now message b).0
          × ((on_mqtt_command socket m isoformat time now message b).1 ≡ ok tt))
unfolding on_mqtt_command act_on_command
on_mqtt_command-exact socket m isoformat time now message b =
    elim (Option-cases (accept_mqtt_command message b).1) [
      | inl e ↦
          let same : accept_mqtt_command message b ≡ ((accept_mqtt_command message b).0, none) =
            ap (λ o. ((accept_mqtt_command message b).0, o)) e in
          inr (
            λ a c h. none-IsAccepted message b a c e h,
            rw same (accept_mqtt_command-Untouched message b),
            rw same refl,
          )
      | inr ((a, c), e) ↦
          let h = (accept_mqtt_command_iff message b a c).0 e in
          inl (a, c, h, on_mqtt_command-accepted socket m isoformat time now message b a c h)
    ]
