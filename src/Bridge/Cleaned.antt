-- ===== src/Bridge/Cleaned.antt =====
-- bridge.py: what a cleanup of discovery leaves.
use mochad_mqtt_bridge.Prelude.{
  if◌then◌else◌, ◌≡◌, refl, sym, ap, ◌∙◌, inl, inr, Bool, true, false, not, ◌&&◌, ◌||◌, some, List,
  [], ◌∷◌, ◌++◌, map, append-nil, append_assoc, arith, Bool-cases, length, ok,
}
use mochad_mqtt_bridge.Text.{Text, text, text_eq, text_eq_sound, contains_text}
use mochad_mqtt_bridge.Models.Runtime.{bool, Fields}
use mochad_mqtt_bridge.Models.Payloads.{Publication, get_field}
use mochad_mqtt_bridge.Discovery.Blocks.{DiscoveryManager}
use mochad_mqtt_bridge.DiscoveryRegistry.{DiscoveryRegistry, sorted, add_text, load, save}
use mochad_mqtt_bridge.Bridge.{Bridge}
use mochad_mqtt_bridge.Bridge.Actions.{publish_all}
use mochad_mqtt_bridge.DiscoveryRegistry.{registry_document}
use mochad_mqtt_bridge.Models.Payloads.{held}
use mochad_mqtt_bridge.DiscoveryRegistry.Saved.{Same, add_text-contains}
use mochad_mqtt_bridge.DiscoveryRegistry.Distinct.{
  count, IsDistinct, count-contains, count-contains_true, count-sorted, load-IsDistinct,
}
use mochad_mqtt_bridge.Bridge.{publish}
use mochad_mqtt_bridge.Bridge.Cleanup.{
  union, difference, topic_set, empty_discovery_message, save_discovery_registry, current_messages,
  desired_discovery_topics, clean_up, with_desired, run_discovery_cleanup, result_fields,
}

-- the bridge with these messages handed to the MQTT library
abbrev pub with_published : List Publication → Bridge → Bridge
with_published ms b = record b { mqtt = record b.mqtt { published = b.mqtt.published ++ ms } }

pub publish_all-with_published :
    (ms : List Publication) (b : Bridge) → publish_all ms b ≡ (with_published ms b, ok tt)
unfolding publish_all publish
publish_all-with_published [] b =
    ap (λ (ps : List Publication). (record b { mqtt = record b.mqtt { published = ps } }, ok tt))
      (sym (append-nil b.mqtt.published))
publish_all-with_published (p ∷ ms) b =
    publish_all-with_published ms (with_published (p ∷ []) b)
    ∙ ap (λ (ps : List Publication). (record b { mqtt = record b.mqtt { published = ps } }, ok tt))
        (append_assoc b.mqtt.published (p ∷ []) ms)

union-contains :
    (x : Text) (ts us : List Text)
    → contains_text x (union ts us) ≡ (contains_text x us || contains_text x ts)
unfolding union contains_text
union-contains x ts [] = refl
union-contains x ts (u ∷ us) =
    ground (arith, union-contains x (add_text u ts) us, add_text-contains x u ts)

count-difference :
    (t : Text) (ts us : List Text)
    → count t (difference ts us) ≡ (if contains_text t us then 0 else count t ts)
unfolding count difference contains_text
count-difference t [] us = ground arith
count-difference t (u ∷ ts) us = elim (Bool-cases (text_eq u t)) [
  | inl e ↦
      let same : contains_text u us ≡ contains_text t us =
        ap (λ y. contains_text y us) (text_eq_sound u t e) in
      ground (arith, e, same, count-difference t ts us)
  | inr e ↦ ground (arith, e, count-difference t ts us)
]

-- How often a topic of a registry without repetitions is stale.
count-stale :
    (t : Text) (previous desired current : List Text)
    → IsDistinct previous
    → Same desired current
    → count t (sorted (difference previous desired))
      ≡ (if contains_text t previous && not (contains_text t current) then 1 else 0)
count-stale t previous desired current once members =
    count-sorted t (difference previous desired)
    ∙ count-difference t previous desired
    ∙ (let same = members t in
        let low = once t in
        elim (Bool-cases (contains_text t previous)) [
          | inl e ↦ ground (arith, e, same, low, count-contains_true t previous e)
          | inr e ↦ ground (arith, e, same, count-contains t previous e)
        ])

topic_set-Same : (ms : List Publication) → Same (topic_set ms) (map (λ p. p.topic) ms)
unfolding topic_set contains_text
topic_set-Same ms t = union-contains t [] (map (λ p. p.topic) ms) ∙ ground arith

-- A cleanup that is enabled or forced, where the messages can be built, the registry can be read and
-- then written: what it hands on are empty retained messages, exactly one for each topic that the
-- registry held and that is no topic of a current message, and none for another topic. The registry
-- then holds the topics of the current messages, and success is reported.
pub run_discovery_cleanup-clears :
    (m : DiscoveryManager) (cleanup force : Bool) (b : Bridge) (r r' : DiscoveryRegistry)
    (previous : List Text) (ms : List Publication)
    → (force || cleanup) ≡ true
    → current_messages m cleanup b ≡ ok ms
    → load r ≡ (r', ok previous)
    → r'.writable ≡ true
    → (stale : List Text) × (desired : List Text) × (fields : Fields) × (run_discovery_cleanup m
          cleanup force
          (b, r)
        ≡ (
          (
            with_published (map empty_discovery_message stale) b,
            record r' { file = held (some (registry_document desired)) },
          ),
          ok fields,
        ))
      × (get_field (text "success") fields ≡ some (bool true))
      × Same desired (map (λ p. p.topic) ms)
      × ((t : Text)
          → count t stale ≡ (
              if contains_text t previous && not (contains_text t (map (λ p. p.topic) ms))
              then 1
              else 0))
unfolding run_discovery_cleanup desired_discovery_topics with_desired clean_up
    save_discovery_registry save result_fields get_field text_eq
run_discovery_cleanup-clears m cleanup force b r r' previous ms on built loaded writable =
    let desired = topic_set ms in
    let stale = sorted (difference previous desired) in
    let runs : (not force && not cleanup) ≡ false = ground (arith, on) in
    let members = topic_set-Same ms in
    (
      stale,
      desired,
      result_fields m cleanup true (text "Discovery cleanup complete.") desired (length stale),
      rw
          (
            built,
            runs,
            loaded,
            writable,
            publish_all-with_published (map empty_discovery_message stale) b,
          )
          refl,
      refl,
      members,
      λ t. count-stale t previous desired _ (load-IsDistinct r r' previous loaded) members,
    )
