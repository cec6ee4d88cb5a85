-- ===== src/Models/Payloads.antt =====
-- models.py: what mochad reports about itself; mqtt_client.py: what is published. Also the reading and
-- writing of the fields of a JSON object, which Python has as a dict.
use mochad_mqtt_bridge.Prelude.{
  Bool, true, false, not, ◌||◌, ◌==◌, Option, none, some, List, [], ◌∷◌, if◌then◌else◌,
}
use mochad_mqtt_bridge.Text.{Text, text_eq}
use mochad_mqtt_bridge.Models.Runtime.{
  Json, null, bool, str, num, arr, obj, nil, cons, Fields, end, field,
}

-- What the bridge publishes; a text is sent as it is, a document as its JSON text.
pub data Payload : Type 0 where
  raw : Text → Payload
  document : Fields → Payload

pub record Publication : Type 0 where
  pub topic : Text
  pub payload : Payload
  pub retain : Bool

-- The fields of `MochadDiagnostics`. A value that mochad sent may be any JSON value; `None` is null.
pub record MochadDiagnostics : Type 0 where
  pub daemon : Json
  pub version : Json
  pub upstream_base : Json
  pub diagnostics : Json
  pub json : Json
  pub single_line : Json
  pub raw_data : Json
  pub commands : List Text
  pub legacy_commands : List Text
  pub uptime_seconds : Json
  pub usb_connected : Json
  pub controller : Json
  pub endpoints_ready : Json
  pub transfers_ready : Json
  pub clients_total : Json
  pub listeners : Json
  pub last_updated : Json

-- `key in object`
unfoldable pub has_field : Text → Fields → Bool
has_field key end = false
has_field key (field k v rest) = text_eq k key || has_field key rest

-- `object[key]`, or none
unfoldable pub get_field : Text → Fields → Option Json
get_field key end = none
get_field key (field k v rest) = if text_eq k key then some v else get_field key rest

-- `object[key] = value`
unfoldable pub put_field : Text → Json → Fields → Fields
put_field key value end = field key value end
put_field key value (field k v rest) =
    let rest' = put_field key value rest in
    if text_eq k key then field k value rest else field k v rest'

-- `bool(value)`
unfoldable pub truthy : Json → Bool
truthy null = false
truthy (bool b) = b
truthy (num n) = not (n == 0)
truthy (str []) = false
truthy (str (c ∷ s)) = true
truthy (arr nil) = false
truthy (arr (cons j js)) = true
truthy (obj end) = false
truthy (obj (field k v fs)) = true

-- An object written as a list of its entries.
abbrev pub object : List (Text × Json) → Fields
object [] = end
object ((key, value) ∷ rest) = field key value (object rest)

-- the file, as `load` meets it
pub data JsonFile : Type 0 where
  missing unreadable : JsonFile
  held : Option Json → JsonFile
