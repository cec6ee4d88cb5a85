-- ===== src/Bridge/Kept.antt =====
-- bridge.py: what a reload publishes changes none of the configurations of the manager.
use mochad_mqtt_bridge.Prelude.{
  ◌≡◌, refl, ap, ◌∙◌, Bool, true, false, not, ◌&&◌, List, map, Bool-cases, inl, inr, if◌then◌else◌,
  Result, ok, raise,
}
use mochad_mqtt_bridge.Text.{Text}
use mochad_mqtt_bridge.Models.Payloads.{Publication, Payload}
use mochad_mqtt_bridge.State.{StateManager}
use mochad_mqtt_bridge.State.Connections.{read_available}
use mochad_mqtt_bridge.Discovery.Blocks.{DiscoveryManager}
use mochad_mqtt_bridge.DiscoveryRegistry.{DiscoveryRegistry, load, sorted}
use mochad_mqtt_bridge.Config.Environment.{Floats}
use mochad_mqtt_bridge.Bridge.{Bridge, Effect, publish, bridge_status_payload}
use mochad_mqtt_bridge.Bridge.Actions.{publish_messages}
use mochad_mqtt_bridge.Bridge.Cleanup.{
  Both, current_messages, desired_discovery_topics, empty_discovery_message, difference,
  with_desired, track, clean_up, run_discovery_cleanup,
}
use mochad_mqtt_bridge.Bridge.Cleaned.{publish_all-with_published}
use mochad_mqtt_bridge.Bridge.Maintenance.{Outcome, keep_registry}
use mochad_mqtt_bridge.Bridge.Diagnostics.{then_do}
use mochad_mqtt_bridge.Topics.{status_topic}
use mochad_mqtt_bridge.Bridge.Reload.{
  publish_status, clean, publish_reload, Watch, after_reload, Reloaded,
}

-- What the reload keeps of the manager: everything but the stored availability.
abbrev pub SameManager : Bridge → Bridge → Type 0
SameManager b b' = b'.state ≡ record b.state { available = b'.state.available }

same-SameManager : (b b' : Bridge) → b'.state ≡ b.state → SameManager b b'
same-SameManager b b' h = rw h refl

publish_messages-state :
    (r : Result (List Publication)) (b : Bridge) → (publish_messages r b).0.state ≡ b.state
unfolding publish_messages
publish_messages-state (raise e) b = refl
publish_messages-state (ok ms) b = rw (publish_all-with_published ms b) refl

clean_up-state :
    (m : DiscoveryManager) (cleanup : Bool) (desired : List Text) (b : Bridge)
    (loaded : DiscoveryRegistry × Result (List Text))
    → (clean_up m cleanup desired b loaded).0.0.state ≡ b.state
unfolding clean_up
clean_up-state m cleanup desired b (r, raise e) = refl
clean_up-state m cleanup desired b (r, ok previous) =
    let ms = map empty_discovery_message (sorted (difference previous desired)) in
    ap (λ (x : Effect). x.0.state) (publish_all-with_published ms b)

track-state :
    (m : DiscoveryManager) (cleanup : Bool) (desired : List Text) (b : Bridge)
    (loaded : DiscoveryRegistry × Result (List Text))
    → (track m cleanup desired b loaded).0.0.state ≡ b.state
unfolding track
track-state m cleanup desired b (r, loaded) = refl

with_desired-state :
    (m : DiscoveryManager) (cleanup force : Bool) (both : Both) (r : Result (List Text))
    → (with_desired m cleanup force both r).0.0.state ≡ both.0.state
unfolding with_desired
with_desired-state m cleanup force both (raise e) = refl
with_desired-state m cleanup force (b, r) (ok desired) =
    elim (Bool-cases (not force && not cleanup)) [
      | inl tracked ↦ rw tracked (track-state m cleanup desired b (load r))
      | inr cleaned ↦ rw cleaned (clean_up-state m cleanup desired b (load r))
    ]

clean-state :
    (m : DiscoveryManager) (cleanup : Bool) (both : Both)
    → (clean m cleanup both).0.0.state ≡ both.0.state
unfolding clean run_discovery_cleanup
clean-state m cleanup (b, r) =
    with_desired-state m cleanup false (b, r) (desired_discovery_topics m cleanup b)

publish-state :
    (topic : Result Text) (payload : Payload) (retain : Bool) (b : Bridge)
    → (publish topic payload retain b).0.state ≡ b.state
unfolding publish
publish-state (raise e) payload retain b = refl
publish-state (ok topic) payload retain b = refl

publish_status-SameManager : (b : Bridge) → SameManager b (publish_status b).0
unfolding publish_status bridge_status_payload read_available
publish_status-SameManager b = rw (publish-state (status_topic b.mqtt.base_topic)) refl

-- One step after another keeps the manager.
then_do-SameManager :
    (b : Bridge) (first : Outcome) (next : Both → Outcome)
    → SameManager b first.0.0
    → ((both : Both) → SameManager b both.0 → SameManager b (next both).0.0)
    → SameManager b (then_do first next).0.0
unfolding then_do
then_do-SameManager b (both, ok done) next h k = k both h
then_do-SameManager b (both, raise e) next h k = h

SameManager-trans : (b b' b'' : Bridge) → SameManager b b' → SameManager b' b'' → SameManager b b''
SameManager-trans b b' b'' h k =
    k ∙ ap (λ (s : StateManager). record s { available = b''.state.available }) h

pub publish_reload-SameManager :
    (m : DiscoveryManager) (cleanup : Bool) (b : Bridge) (r : DiscoveryRegistry)
    → SameManager b (publish_reload m cleanup (b, r)).0.0
unfolding publish_reload
publish_reload-SameManager m cleanup b r =
    let sent = publish_messages (current_messages m cleanup b) b in
    then_do-SameManager b (then_do (keep_registry r sent) (clean m cleanup)) _
      (then_do-SameManager b (keep_registry r sent) (clean m cleanup)
        (same-SameManager b sent.0 (publish_messages-state (current_messages m cleanup b) b))
        (λ both h.
          SameManager-trans b both.0 (clean m cleanup both).0.0 h
            (same-SameManager both.0 (clean m cleanup both).0.0 (clean-state m cleanup both))))
      (λ both h.
        SameManager-trans b both.0 (publish_status both.0).0 h (publish_status-SameManager both.0))

module _ (floats : Floats) (m : DiscoveryManager) (b : Bridge) where
  pub after_reload-SameManager :
      (w : Watch floats.Float) (o : Outcome)
      → SameManager b o.0.0
      → SameManager b (after_reload floats m w o).0.0
  unfolding after_reload
  after_reload-SameManager w (both, done) h = h

  pub if-SameManager :
      (t : Bool) (x y : Reloaded floats m)
      → SameManager b x.0.0
      → SameManager b y.0.0
      → SameManager b (if t then x else y).0.0
  if-SameManager true x y h k = h
  if-SameManager false x y h k = k
