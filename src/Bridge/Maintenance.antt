-- ===== src/Bridge/Maintenance.antt =====
-- bridge.py: the commands to the bridge, and the callbacks of the connections. Writing the health file
-- is not modelled, but for the availability that it reads.
use mochad_mqtt_bridge.Prelude.{
  ℕ, Bool, true, false, not, ◌&&◌, Option, none, some, List, [], ◌∷◌, if◌then◌else◌, length, Result,
  ok, raise, ◌>>=◌,
}
use mochad_mqtt_bridge.Text.{Text, text}
use mochad_mqtt_bridge.Models.Enums.{
  BridgeCommand, status, sync, rediscover, prune_discovery, reset_discovery, ping,
}
use mochad_mqtt_bridge.Models.Runtime.{
  Json, null, bool, str, num, Fields, end, Time, BridgeAction, publish_bridge_response,
  request_status,
}
use mochad_mqtt_bridge.Models.Payloads.{Publication, object, get_field}
use mochad_mqtt_bridge.Discovery.Blocks.{DiscoveryManager}
use mochad_mqtt_bridge.DiscoveryRegistry.{DiscoveryRegistry}
use mochad_mqtt_bridge.Bridge.{Bridge, Effect, bridge_status_payload}
use mochad_mqtt_bridge.Bridge.Outbound.{is_transport_error}
use mochad_mqtt_bridge.Bridge.Actions.{publish_all, execute_action}
use mochad_mqtt_bridge.State.{StateManager}
use mochad_mqtt_bridge.State.Connections.{
  on_mqtt_connected, on_mqtt_disconnected, on_mochad_connected, on_mochad_disconnected,
  read_available,
}
use mochad_mqtt_bridge.Models.Runtime.{send_mochad_command}
use mochad_mqtt_bridge.Bridge.Actions.{execute_actions}
use mochad_mqtt_bridge.Bridge.Cleanup.{
  topic_set, Both, current_messages, save_discovery_registry, run_discovery_cleanup,
  reset_discovery_topics, publish_bridge_diagnostic_discovery,
}

-- What an operation on the bridge and its registry does.
abbrev pub Outcome : Type 0
Outcome = Both × Result (Unit {0})

-- `_bridge_response`
unfoldable pub bridge_response : Option BridgeCommand → Bool → Text → Fields → BridgeAction
bridge_response command success message payload =
    publish_bridge_response command success message payload false

-- an operation that leaves the registry alone
abbrev pub keep_registry : DiscoveryRegistry → Effect → Outcome
keep_registry r (b, done) = ((b, r), done)

-- `result.get("success", False)` and `result.get("message", default)`
unfoldable pub success_of : Option Json → Bool
success_of (some (bool b)) = b
success_of _ = false

unfoldable pub message_of : Text → Option Json → Text
message_of default (some (str s)) = s
message_of default _ = default

abbrev pub is_maintenance : BridgeCommand → Bool
is_maintenance prune_discovery = true
is_maintenance reset_discovery = true
is_maintenance _ = false

-- As for the execution of actions; then `discovery_cleanup` and `enable_maintenance_buttons`.
module _ (socket : ℕ → Bool) (m : DiscoveryManager) (isoformat : Time → Text) (time : Json)
    (cleanup buttons : Bool) where
  -- `self.execute_action(self._bridge_response(…))`
  unfoldable pub respond : BridgeCommand → Bool → Text → Fields → Both → Outcome
  unfolding bridge_response execute_action
  respond command success message payload (b, r) = keep_registry r (
      execute_action socket m isoformat time
        (bridge_response (some command) success message payload) b)

  -- the response to the result of a cleanup or a reset
  unfoldable pub respond_with : BridgeCommand → Text → Both × Result Fields → Outcome
  unfolding respond success_of message_of get_field
  respond_with command default (both, raise e) = (both, raise e)
  respond_with command default (both, ok result) =
      respond command (success_of (get_field (text "success") result))
        (message_of default (get_field (text "message") result)) result both

  -- after the request of SYNC; the text of the exception is left out
  unfoldable pub after_request : DiscoveryRegistry → Effect → Outcome
  unfolding respond is_transport_error
  after_request r (b, ok done) =
      respond sync true (text "Status sync requested from mochad.") end (b, r)
  after_request r (b, raise e) =
      if is_transport_error e
      then respond sync false (text "Status sync request failed: ") end (b, r)
      else ((b, r), raise e)

  -- REDISCOVER, with the messages that are published and then give the registry's topics
  unfoldable pub rediscovered : Result (List Publication) → Both → Outcome
  unfolding respond publish_all save_discovery_registry topic_set
  rediscovered (raise e) both = (both, raise e)
  rediscovered (ok ms) (b, r) =
      let b = (publish_all ms b).0 in
      let (r, saved) = save_discovery_registry (topic_set ms) r in
      respond rediscover true (text "Discovery messages republished.")
        (object ((text "published", num (length ms)) ∷ [])) (b, r)

  -- the command, once it is allowed
  unfoldable pub handle_allowed : BridgeCommand → Both → Outcome
  unfolding respond respond_with after_request rediscovered run_discovery_cleanup
      reset_discovery_topics current_messages bridge_status_payload execute_action
  handle_allowed ping both = respond ping true (text "pong") end both
  handle_allowed status (b, r) =
      let (b, payload) = bridge_status_payload none none none b in
      respond status true (text "Bridge status returned.") payload (b, r)
  handle_allowed sync (b, r) =
      if b.mochad.connected
      then after_request r (execute_action socket m isoformat time request_status b)
      else respond sync false (text "Cannot sync because mochad is not connected.") end (b, r)
  handle_allowed rediscover (b, r) = rediscovered (current_messages m cleanup b) (b, r)
  handle_allowed prune_discovery both =
      respond_with prune_discovery (text "Discovery prune completed.")
        (run_discovery_cleanup m cleanup true both)
  handle_allowed reset_discovery both =
      respond_with reset_discovery (text "Discovery reset completed.")
        (reset_discovery_topics m cleanup both)

  -- `_handle_bridge_command`
  unfoldable pub handle_bridge_command : BridgeCommand → Both → Outcome
  unfolding respond handle_allowed
  handle_bridge_command command both =
      if is_maintenance command && not buttons
      then respond command false
          (text "Maintenance command disabled; set ENABLE_MAINTENANCE_BUTTONS=true to enable it.")
          end both
      else handle_allowed command both

  -- `self.execute_actions(…)` on what the manager returns
  unfoldable pub execute_outcome : StateManager × List BridgeAction → Bridge → Effect
  unfolding execute_actions
  execute_outcome (state, actions) b =
      execute_actions socket m isoformat time actions (record b { state = state })

  -- one statement after another
  unfoldable pub and_then : Effect → (Bridge → Effect) → Effect
  and_then (b, ok done) next = next b
  and_then (b, raise e) next = (b, raise e)

  unfoldable pub cleaned_up : DiscoveryRegistry → Effect → Outcome
  unfolding run_discovery_cleanup
  cleaned_up r (b, raise e) = ((b, r), raise e)
  cleaned_up r (b, ok done) =
      let (both, result) = run_discovery_cleanup m cleanup false (b, r) in
      (both, result >>= λ _. ok tt)

  -- `self.state.available`, which the health file is written from, refreshes the availability
  unfoldable pub read_health : Bridge → Effect
  unfolding read_available
  read_health b = (record b { state = (read_available b.state).0 }, ok tt)

  unfoldable pub health_read : Outcome → Outcome
  unfolding read_health
  health_read (both, raise e) = (both, raise e)
  health_read ((b, r), ok done) = keep_registry r (read_health b)

  -- `_on_mqtt_connected`
  unfoldable pub bridge_mqtt_connected : Both → Outcome
  unfolding execute_outcome on_mqtt_connected and_then publish_bridge_diagnostic_discovery
      cleaned_up health_read
  bridge_mqtt_connected (b, r) = health_read (
      cleaned_up r (
        and_then (execute_outcome (on_mqtt_connected b.state) b)
          (publish_bridge_diagnostic_discovery m cleanup)))

  -- `_on_mqtt_disconnected`; `stopping` is `self._stopping`
  unfoldable pub bridge_mqtt_disconnected : Bool → Bridge → Effect
  unfolding execute_outcome on_mqtt_disconnected
  bridge_mqtt_disconnected stopping b =
      if stopping then (b, ok tt) else execute_outcome (on_mqtt_disconnected b.state) b

  -- the loop of `_request_mochad_diagnostics`, after an attempt to send
  unfoldable pub after_diagnostic : (Bridge → Effect) → Effect → Effect
  unfolding is_transport_error
  after_diagnostic rest (b, ok done) = rest b
  after_diagnostic rest (b, raise e) = if is_transport_error e then (b, ok tt) else (b, raise e)

  unfoldable pub request_diagnostics : List Text → Bridge → Effect
  unfolding after_diagnostic execute_action
  request_diagnostics [] b = (b, ok tt)
  request_diagnostics (command ∷ commands) b =
      after_diagnostic (request_diagnostics commands)
        (execute_action socket m isoformat time (send_mochad_command command) b)

  -- `_on_mochad_connected`
  unfoldable pub bridge_mochad_connected : Bridge → Effect
  unfolding execute_outcome on_mochad_connected and_then request_diagnostics read_health
  bridge_mochad_connected b =
      let commands = text "hello" ∷ text "capabilities" ∷ text "health" ∷ [] in
      and_then
        (and_then (execute_outcome (on_mochad_connected b.state) b) (request_diagnostics commands))
        read_health

  -- `_on_mochad_disconnected`
  unfoldable pub bridge_mochad_disconnected : Bridge → Effect
  unfolding execute_outcome on_mochad_disconnected
  bridge_mochad_disconnected b =
      let d = b.mochad_diagnostics in
      execute_outcome (on_mochad_disconnected b.state) (record b {
        mochad_diagnostics = record d {
          usb_connected = null;
          endpoints_ready = null;
          transfers_ready = null;
          last_updated = time;
        };
      })
