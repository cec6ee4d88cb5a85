-- ===== src/Bridge/Cleanup.antt =====
-- bridge.py: publishing discovery again, cleaning it up, and the commands to the bridge.
use mochad_mqtt_bridge.Prelude.{
  ℕ, Bool, true, false, not, ◌&&◌, some, List, [], ◌∷◌, ◌++◌, map, if◌then◌else◌, length, Result,
  ok, raise, ◌>>=◌,
}
use mochad_mqtt_bridge.Text.{Text, text, contains_text}
use mochad_mqtt_bridge.Dict.{values}
use mochad_mqtt_bridge.Models.Config.{DeviceConfig}
use mochad_mqtt_bridge.Models.Runtime.{bool, str, num, Fields}
use mochad_mqtt_bridge.Models.Payloads.{raw, Publication, MochadDiagnostics, object}
use mochad_mqtt_bridge.Discovery.Blocks.{DiscoveryManager}
use mochad_mqtt_bridge.Discovery.Messages.{discovery_messages}
use mochad_mqtt_bridge.Discovery.Bridge.{bridge_diagnostic_messages}
use mochad_mqtt_bridge.DiscoveryRegistry.{DiscoveryRegistry, sorted, add_text, load, save}
use mochad_mqtt_bridge.Bridge.{Bridge, Effect}
use mochad_mqtt_bridge.Bridge.Actions.{publish_all, publish_messages}

-- `previous | desired` on sets
unfoldable pub union : List Text → List Text → List Text
unfolding add_text
union ts [] = ts
union ts (u ∷ us) = union (add_text u ts) us

-- `previous - desired`
unfoldable pub difference : List Text → List Text → List Text
unfolding contains_text
difference [] us = []
difference (t ∷ ts) us =
    let rest = difference ts us in if contains_text t us then rest else t ∷ rest

-- `{message.topic for message in messages}`
unfoldable pub topic_set : List Publication → List Text
unfolding union
topic_set ms = union [] (map (λ m. m.topic) ms)

-- `_empty_discovery_message`
abbrev pub empty_discovery_message : Text → Publication
empty_discovery_message topic = record { topic = topic; payload = raw []; retain = true }

-- the bridge and the registry of its discovery
abbrev pub Both : Type 0
Both = Bridge × DiscoveryRegistry

-- `_save_discovery_registry`
unfoldable pub save_discovery_registry : List Text → DiscoveryRegistry → DiscoveryRegistry × Bool
unfolding save
save_discovery_registry topics r =
    let (r, saved) = save topics r in (r, elim saved [ ok _ ↦ true | raise e ↦ false ])

-- the topics of a load, or the empty set for its error
unfoldable pub loaded_or_none : Result (List Text) → List Text
loaded_or_none (ok topics) = topics
loaded_or_none (raise e) = []

-- Configuration: the discovery manager, `discovery_cleanup` and `enable_maintenance_buttons`.
module _ (m : DiscoveryManager) (discovery_cleanup : Bool) where
  -- the messages of all devices, in the order of the dict
  unfoldable pub device_messages : List DeviceConfig → MochadDiagnostics → Result (List Publication)
  unfolding discovery_messages
  device_messages [] d = ok []
  device_messages (device ∷ devices) d = do
    ms ← discovery_messages m device (some d)
    rest ← device_messages devices d
    ok (ms ++ rest)

  -- the messages that `_publish_current_discovery` and `_desired_discovery_topics` collect
  unfoldable pub current_messages : Bridge → Result (List Publication)
  unfolding device_messages bridge_diagnostic_messages values
  current_messages b = do
    ms ← device_messages (values b.devices) b.mochad_diagnostics
    own ← bridge_diagnostic_messages m (some b.mochad_diagnostics)
    ok (ms ++ own)

  -- `_publish_bridge_diagnostic_discovery`
  unfoldable pub publish_bridge_diagnostic_discovery : Bridge → Effect
  unfolding bridge_diagnostic_messages publish_messages
  publish_bridge_diagnostic_discovery b =
      publish_messages (bridge_diagnostic_messages m (some b.mochad_diagnostics)) b

  -- `_desired_discovery_topics`
  unfoldable pub desired_discovery_topics : Bridge → Result (List Text)
  unfolding current_messages topic_set
  desired_discovery_topics b = do ms ← current_messages b; ok (topic_set ms)

  -- the result of `_run_discovery_cleanup`
  unfoldable pub result_fields : Bool → Text → List Text → ℕ → Fields
  result_fields success message desired stale = object (
      (text "success", bool success)
      ∷ (text "message", str message)
      ∷ (text "desired", num (length desired))
      ∷ (text "stale", num stale)
      ∷ (text "cleanup_enabled", bool discovery_cleanup)
      ∷ [])

  -- the branch without cleanup: the registry keeps what was published before
  unfoldable pub track : List Text → Bridge → DiscoveryRegistry × Result (List Text) → Both × Fields
  unfolding loaded_or_none union save_discovery_registry difference
  track desired b (r, loaded) =
      let previous = loaded_or_none loaded in
      let (r, saved) = save_discovery_registry (union previous desired) r in
      (
        (b, r),
        object (
            (text "success", bool saved)
            ∷ (text "message", str (text "Discovery registry updated."))
            ∷ (text "desired", num (length desired))
            ∷ (text "tracked", num (length (union previous desired)))
            ∷ (text "stale", num (length (difference previous desired)))
            ∷ (text "cleanup_enabled", bool discovery_cleanup)
            ∷ []),
      )

  -- the branch with cleanup; the message of a failed load leaves out the text of the exception
  unfoldable pub clean_up :
      List Text → Bridge → DiscoveryRegistry × Result (List Text) → Both × Fields
  unfolding difference sorted publish_all save_discovery_registry result_fields
  clean_up desired b (r, raise e) =
      ((b, r), result_fields false (text "Discovery cleanup skipped: ") desired 0)
  clean_up desired b (r, ok previous) =
      let stale = sorted (difference previous desired) in
      let b = (publish_all (map empty_discovery_message stale) b).0 in
      let (r, saved) = save_discovery_registry desired r in
      (
        (b, r),
        result_fields saved
            (if saved
              then text "Discovery cleanup complete."
              else text "Discovery cleanup ran but registry save failed.")
            desired (length stale),
      )

  unfoldable pub with_desired : Bool → Both → Result (List Text) → Both × Result Fields
  unfolding track clean_up load
  with_desired force both (raise e) = (both, raise e)
  with_desired force (b, r) (ok desired) =
      let (both, fields) =
        if not force && not discovery_cleanup
        then track desired b (load r)
        else clean_up desired b (load r) in
      (both, ok fields)

  -- `_run_discovery_cleanup`
  unfoldable pub run_discovery_cleanup : Bool → Both → Both × Result Fields
  unfolding desired_discovery_topics with_desired
  run_discovery_cleanup force (b, r) = with_desired force (b, r) (desired_discovery_topics b)

  unfoldable pub clear_all :
      List Text → Bridge → DiscoveryRegistry × Result (List Text) → Both × Fields
  unfolding loaded_or_none union sorted publish_all save_discovery_registry
  clear_all desired b (r, loaded) =
      let topics = sorted (union desired (loaded_or_none loaded)) in
      let b = (publish_all (map empty_discovery_message topics) b).0 in
      let (r, saved) = save_discovery_registry [] r in
      (
        (b, r),
        object (
            (text "success", bool saved)
            ∷ (
              text "message",
              str (
                  if saved
                  then text "Discovery reset complete."
                  else text "Discovery reset ran but registry save failed."),
            )
            ∷ (text "cleared", num (length topics))
            ∷ []),
      )

  unfoldable pub reset_with : Both → Result (List Text) → Both × Result Fields
  unfolding clear_all load
  reset_with both (raise e) = (both, raise e)
  reset_with (b, r) (ok desired) =
      let (both, fields) = clear_all desired b (load r) in (both, ok fields)

  -- `_reset_discovery`
  unfoldable pub reset_discovery_topics : Both → Both × Result Fields
  unfolding reset_with desired_discovery_topics
  reset_discovery_topics (b, r) = reset_with (b, r) (desired_discovery_topics b)
