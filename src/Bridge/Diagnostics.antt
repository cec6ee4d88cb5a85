-- ===== src/Bridge/Diagnostics.antt =====
-- bridge.py: the lines that mochad sends, its reports about itself among them.
use mochad_mqtt_bridge.Prelude.{
  ℕ, Bool, true, false, ◌&&◌, ◌||◌, Option, none, some, List, [], ◌∷◌, if◌then◌else◌, Result, ok,
  raise,
}
use mochad_mqtt_bridge.Text.{Text, text, starts_with}
use mochad_mqtt_bridge.Models.Runtime.{Json, bool, arr, obj, Items, nil, cons, Fields}
use mochad_mqtt_bridge.Models.Payloads.{MochadDiagnostics, has_field, get_field}
use mochad_mqtt_bridge.Discovery.Blocks.{DiscoveryManager}
use mochad_mqtt_bridge.Bridge.{publish_status_if_connected}
use mochad_mqtt_bridge.Bridge.Outbound.{flush_queued_device_commands}
use mochad_mqtt_bridge.Bridge.Actions.{publish_messages}
use mochad_mqtt_bridge.Bridge.Cleanup.{
  Both, current_messages, desired_discovery_topics, save_discovery_registry,
}
use mochad_mqtt_bridge.Bridge.Maintenance.{Outcome, keep_registry}

-- The kinds of a report, which the source names by texts.
pub data Kind : Type 0 where
  hello capabilities health : Kind

-- `value is True`, of `payload.get(key)`
unfoldable pub is_true : Option Json → Bool
is_true (some (bool b)) = b
is_true _ = false

-- `_mochad_diagnostic_kind`
unfoldable pub mochad_diagnostic_kind : Fields → Option Kind
unfolding is_true get_field has_field
mochad_diagnostic_kind p =
    if is_true (get_field (text "diagnostics") p) && has_field (text "daemon") p
    then some hello
    else if is_true (get_field (text "json") p) && has_field (text "commands") p
    then some capabilities
    else if has_field (text "usb_connected") p || has_field (text "controller") p
    then some health
    else none

-- the value of a field after the merge: the payload's, if it has one
unfoldable pub merged : Text → Fields → Json → Json
unfolding get_field
merged key p old = elim (get_field key p) [ none ↦ old | some new ↦ new ]

-- `str` is Python's text of a JSON value.
module _ (str : Json → Text) where
  -- `tuple(str(item) for item in items)`
  unfoldable pub texts : Items → List Text
  texts nil = []
  texts (cons j items) = str j ∷ texts items

  unfoldable pub texts_or : List Text → Option Json → List Text
  unfolding texts
  texts_or old (some (arr items)) = texts items
  texts_or old _ = old

  -- `_merge_mochad_diagnostics`, at a time
  unfoldable pub merge_mochad_diagnostics : Json → Fields → MochadDiagnostics → MochadDiagnostics
  unfolding merged texts_or get_field
  merge_mochad_diagnostics now p d = record {
    daemon = merged (text "daemon") p d.daemon;
    version = merged (text "version") p d.version;
    upstream_base = merged (text "upstream_base") p d.upstream_base;
    diagnostics = merged (text "diagnostics") p d.diagnostics;
    json = merged (text "json") p d.json;
    single_line = merged (text "single_line") p d.single_line;
    raw_data = merged (text "raw_data") p d.raw_data;
    commands = texts_or d.commands (get_field (text "commands") p);
    legacy_commands = texts_or d.legacy_commands (get_field (text "legacy_commands") p);
    uptime_seconds = merged (text "uptime_seconds") p d.uptime_seconds;
    usb_connected = merged (text "usb_connected") p d.usb_connected;
    controller = merged (text "controller") p d.controller;
    endpoints_ready = merged (text "endpoints_ready") p d.endpoints_ready;
    transfers_ready = merged (text "transfers_ready") p d.transfers_ready;
    clients_total = merged (text "clients_total") p d.clients_total;
    listeners = merged (text "listeners") p d.listeners;
    last_updated = now;
  }

-- `kind in {"hello", "health"}` and `kind == "health"`
abbrev pub brings_discovery : Kind → Bool
brings_discovery capabilities = false
brings_discovery _ = true

abbrev pub is_health : Kind → Bool
is_health health = true
is_health _ = false

-- one statement after another
unfoldable pub then_do : Outcome → (Both → Outcome) → Outcome
then_do (both, ok done) next = next both
then_do (both, raise e) next = (both, raise e)

-- As for the commands; then `json.loads`, with none for its `JSONDecodeError`.
module _ (socket : ℕ → Bool) (m : DiscoveryManager) (time : Json) (cleanup : Bool)
    (str : Json → Text) (loads : Text → Option Json) where
  unfoldable pub save_topics : Both → Result (List Text) → Outcome
  unfolding save_discovery_registry
  save_topics both (raise e) = (both, raise e)
  save_topics (b, r) (ok topics) = ((b, (save_discovery_registry topics r).0), ok tt)

  -- `_publish_current_discovery`, then the registry saved
  unfoldable pub publish_and_save : Both → Outcome
  unfolding then_do publish_messages current_messages save_topics desired_discovery_topics
  publish_and_save (b, r) =
      then_do (keep_registry r (publish_messages (current_messages m cleanup b) b))
        (λ (b, r). save_topics (b, r) (desired_discovery_topics m cleanup b))

  -- what is published after the merge
  unfoldable pub publish_report : Kind → Both → Outcome
  unfolding then_do publish_status_if_connected publish_and_save
  publish_report kind (b, r) = then_do (keep_registry r (publish_status_if_connected b)) (λ both.
      if b.mqtt.connected && brings_discovery kind then publish_and_save both else (both, ok tt))

  unfoldable pub flush_on_health : Kind → Both → Outcome
  unfolding flush_queued_device_commands
  flush_on_health kind (b, r) =
      if is_health kind
      then keep_registry r (flush_queued_device_commands socket b)
      else ((b, r), ok tt)

  -- after the kind of a payload: whether the line was a report
  unfoldable pub handle_kind : Fields → Option Kind → Both → Outcome
  unfolding then_do merge_mochad_diagnostics publish_report flush_on_health
  handle_kind p none both = (both, ok tt)
  handle_kind p (some kind) (b, r) =
      let d = merge_mochad_diagnostics str time p b.mochad_diagnostics in
      then_do (publish_report kind (record b { mochad_diagnostics = d }, r)) (flush_on_health kind)

  unfoldable pub handle_payload : Option Json → Both → Outcome × Bool
  unfolding mochad_diagnostic_kind handle_kind
  handle_payload (some (obj p)) both =
      let kind = mochad_diagnostic_kind p in
      (handle_kind p kind both, elim kind [ none ↦ false | some _ ↦ true ])
  handle_payload _ both = ((both, ok tt), false)

  -- `_handle_mochad_diagnostic_line`: whether the line was a report, too
  unfoldable pub handle_mochad_diagnostic_line : Text → Both → Outcome × Bool
  unfolding handle_payload starts_with
  handle_mochad_diagnostic_line line both =
      if starts_with line (text "{")
      then handle_payload (loads line) both
      else ((both, ok tt), false)
