-- ===== src/Discovery/Blocks.antt =====
-- discovery.py: the blocks that all messages of Home Assistant's discovery share.
use mochad_mqtt_bridge.Prelude.{
  ℕ, Bool, true, false, not, ◌||◌, Option, none, some, [], ◌∷◌, ◌++◌, ◌==◌, between, if◌then◌else◌,
}
use mochad_mqtt_bridge.Text.{Text, text, contains_text, lower, strip, strip_char}
use mochad_mqtt_bridge.Text.Decimal.{decimal}
use mochad_mqtt_bridge.Models.Runtime.{Json, null, bool, str, num, arr, nil, cons, Fields}
use mochad_mqtt_bridge.Models.Payloads.{MochadDiagnostics, object, put_field}

-- `DiscoveryManager`. `friendly_topics` is not read by any topic. `repr` is Python's `str` of a list
-- or a dict.
pub record DiscoveryManager : Type 0 where
  pub discovery_prefix : Text
  pub base_topic : Text
  pub support_url : Text
  pub enable_maintenance_buttons : Bool
  pub repr : Json → Text

abbrev bridge_device_identifier : Text
bridge_device_identifier = text "mqtt_mochad_bridge"

abbrev bridge_display_name : Text
bridge_display_name = text "MQTT Mochad Bridge"

abbrev bridge_model : Text
bridge_model = text "X10 MQTT Bridge"

abbrev mochad_redux_url : Text
mochad_redux_url = text "https://github.com/Monsterray/mochad-redux"

abbrev bridge_author : Text
bridge_author = text "Open Source"

abbrev bridge_version : Text
bridge_version = text "0.4.0"

-- `str(value)`
unfoldable pub json_str : (Json → Text) → Json → Text
json_str repr null = text "None"
json_str repr (bool true) = text "True"
json_str repr (bool false) = text "False"
json_str repr (num n) = decimal n
json_str repr (str s) = s
json_str repr value = repr value

unless_placeholder : Text → Option Text
unless_placeholder [] = none
unless_placeholder (c ∷ s) =
    if contains_text (lower (c ∷ s)) (text "none" ∷ text "unknown" ∷ []) then none else some (c ∷ s)

-- `_clean_diag_value`
unfoldable pub clean_diag_value : (Json → Text) → Json → Option Text
unfolding unless_placeholder json_str
clean_diag_value repr null = none
clean_diag_value repr value = unless_placeholder (strip (json_str repr value))

-- `mochad_diagnostics.name if mochad_diagnostics else None`, cleaned
unfoldable pub diagnostic :
    DiscoveryManager → (MochadDiagnostics → Json) → Option MochadDiagnostics → Option Text
unfolding clean_diag_value
diagnostic m name none = none
diagnostic m name (some d) = clean_diag_value m.repr (name d)

abbrev pub controller_of : DiscoveryManager → Option MochadDiagnostics → Option Text
controller_of m = diagnostic m (λ (d : MochadDiagnostics). d.controller)

abbrev pub daemon_of : DiscoveryManager → Option MochadDiagnostics → Option Text
daemon_of m = diagnostic m (λ (d : MochadDiagnostics). d.daemon)

abbrev pub version_of : DiscoveryManager → Option MochadDiagnostics → Option Text
version_of m = diagnostic m (λ (d : MochadDiagnostics). d.version)

unfoldable pub device_model : Option Text → Text
device_model none = bridge_model
device_model (some controller) = controller ++ text " MQTT Bridge"

unfoldable pub device_sw_version : Option Text → Option Text → Text
device_sw_version daemon none = bridge_version
device_sw_version none (some version) =
    text "bridge " ++ (bridge_version ++ (text "; mochad " ++ version))
device_sw_version (some daemon) (some version) =
    text "bridge " ++ (bridge_version ++ (text "; " ++ (daemon ++ (text " " ++ version))))

unfoldable pub origin_version : Option Text → Text
origin_version none = bridge_version
origin_version (some version) = bridge_version ++ (text "; mochad " ++ version)

-- `if value: payload[key] = f(value)`
abbrev pub put_given : Text → Option Text → (Text → Text) → Fields → Fields
put_given key none f payload = payload
put_given key (some value) f payload = put_field key (str (f value)) payload

-- the entries that a device block always has
abbrev pub block_start : DiscoveryManager → Option MochadDiagnostics → Fields
block_start m d = object (
    (text "identifiers", arr (cons (str bridge_device_identifier) nil))
    ∷ (text "name", str bridge_display_name)
    ∷ (text "manufacturer", str bridge_author)
    ∷ (text "model", str (device_model (controller_of m d)))
    ∷ (text "sw_version", str (device_sw_version (daemon_of m d) (version_of m d)))
    ∷ (text "configuration_url", str m.support_url)
    ∷ [])

-- the replaced link to mochad's own page
abbrev pub linked : Text → Text
linked version = mochad_redux_url

abbrev pub same : Text → Text
same value = value

-- `_device_block`
unfoldable pub device_block : DiscoveryManager → Option MochadDiagnostics → Fields
unfolding diagnostic put_field
device_block m d =
    let start = block_start m d in
    let payload = put_given (text "model_id") (daemon_of m d) same start in
    let payload = put_given (text "hw_version") (controller_of m d) same payload in
    put_given (text "configuration_url") (version_of m d) linked payload

-- `_origin_block`
unfoldable pub origin_block : DiscoveryManager → Option MochadDiagnostics → Fields
unfolding diagnostic origin_version
origin_block m d = object (
    (text "name", str bridge_display_name)
    ∷ (text "sw_version", str (origin_version (version_of m d)))
    ∷ (text "support_url", str m.support_url)
    ∷ [])

-- `re.sub("p+", "_", s)`; the flag says whether the last character belongs to a run
unfoldable pub collapse : (ℕ → Bool) → Bool → Text → Text
collapse p in_run [] = []
collapse p in_run (c ∷ s) =
    let run = collapse p true s in
    let other = collapse p false s in
    if p c then (if in_run then run else b'_' ∷ run) else c ∷ other

-- [^a-z0-9_]
is_unsafe : ℕ → Bool
is_unsafe c = not (between b'a' b'z' c || (between b'0' b'9' c || c == b'_'))

-- `_default_entity_id`
unfoldable pub default_entity_id : Text → Text → Text
unfolding collapse is_unsafe
default_entity_id component unique_id =
    let slug = collapse is_unsafe false (lower (strip unique_id)) in
    let slug = strip_char b'_' (collapse (λ c. c == b'_') false slug) in
    component ++ (text "." ++ slug)
