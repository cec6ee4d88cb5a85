-- ===== src/Config/File.antt =====
-- config.py: the configuration, what is read of its file, and the file that is created from it. The
-- order of the keys of an object is not observed.
use mochad_mqtt_bridge.Prelude.{
  Bool, true, false, Option, none, some, List, [], ◌∷◌, if◌then◌else◌, config_error,
  config_file_write_error, Result, ok, raise,
}
use mochad_mqtt_bridge.Text.{Text, text, lower, strip}
use mochad_mqtt_bridge.Dict.{Dict, values}
use mochad_mqtt_bridge.Models.Enums.{DeviceType, switch, light, chime}
use mochad_mqtt_bridge.Models.Config.{DeviceConfig}
use mochad_mqtt_bridge.Models.Runtime.{
  Json, bool, str, num, arr, obj, Items, nil, cons, Fields, end,
}
use mochad_mqtt_bridge.Models.Payloads.{JsonFile, missing, held, object, get_field}
use mochad_mqtt_bridge.DiscoveryRegistry.{text_le}
use mochad_mqtt_bridge.Config.Values.{ℤ}
use mochad_mqtt_bridge.Config.Environment.{bool_of_word, MqttTlsConfig}

-- `Config`; the fields that `load_config` leaves at their defaults are constants and left out:
-- `optimistic_updates`, `status_refresh_on_connect`, `discovery_enabled`, `discovery_republish`.
pub record Config (Float : Type 0) : Type 0 where
  pub mochad_host : Text
  pub mochad_port : ℤ
  pub mqtt_host : Text
  pub mqtt_port : ℤ
  pub mqtt_username : Option Text
  pub mqtt_password : Option Text
  pub mqtt_tls : MqttTlsConfig
  pub mqtt_base_topic : Text
  pub mqtt_discovery_prefix : Text
  pub log_level : Text
  pub config_file : Option Text
  pub config_reload_interval_seconds : Float
  pub use_friendly_names : Bool
  pub devices : Dict DeviceConfig
  pub discovery_cleanup : Bool
  pub discovery_registry_path : Text
  pub enable_maintenance_buttons : Bool
  pub x10_housecodes : Option Text
  pub debug_wire : Bool

-- `_load_config_file`, on what stands at the path
unfoldable pub config_of_file : JsonFile → Result Fields
config_of_file missing = ok end
config_of_file (held (some (obj fields))) = ok fields
config_of_file _ = raise config_error

-- `_file_bool`, on the value of the key
unfoldable pub bool_of_json : Bool → Option Json → Result Bool
unfolding bool_of_word lower strip
bool_of_json default none = ok default
bool_of_json default (some (bool b)) = ok b
bool_of_json default (some (str s)) = bool_of_word (lower (strip s))
bool_of_json default (some j) = raise config_error

unfoldable pub file_bool : Fields → Text → Bool → Result Bool
unfolding bool_of_json get_field
file_bool fields key default = bool_of_json default (get_field key fields)

-- `item.entity_type.name.lower()`
unfoldable pub type_name : DeviceType → Text
type_name switch = text "switch"
type_name light = text "light"
type_name chime = text "chime"

abbrev pub profile_field : Option Text → List (Text × Json)
profile_field none = []
profile_field (some profile) = (text "profile", str profile) ∷ []

-- `_device_to_file_payload`
unfoldable pub device_to_file_payload : DeviceConfig → Fields
unfolding type_name
device_to_file_payload device = object (
    (text "address", str device.address)
    ∷ (text "name", str device.name)
    ∷ (text "type", str (type_name device.entity_type))
    ∷ (text "command_repeats", num device.command_repeats)
    ∷ (text "command_repeat_delay_ms", num device.command_repeat_delay_ms)
    ∷ profile_field device.profile)

-- `sorted(…, key=lambda item: item.address)`
unfoldable pub insert_device : DeviceConfig → List DeviceConfig → List DeviceConfig
unfolding text_le
insert_device d [] = d ∷ []
insert_device d (e ∷ es) =
    if text_le d.address e.address then d ∷ e ∷ es else e ∷ insert_device d es

unfoldable pub sort_devices : List DeviceConfig → List DeviceConfig
unfolding insert_device
sort_devices [] = []
sort_devices (d ∷ ds) = insert_device d (sort_devices ds)

unfoldable pub device_items : List DeviceConfig → Items
unfolding device_to_file_payload
device_items [] = nil
device_items (d ∷ ds) = cons (obj (device_to_file_payload d)) (device_items ds)

-- `_config_file_payload`
unfoldable pub config_file_payload : {Float : Type 0} → Config Float → Fields
unfolding device_items sort_devices values
config_file_payload config = object (
    (text "use_friendly_names", bool config.use_friendly_names)
    ∷ (text "devices", arr (device_items (sort_devices (values config.devices))))
    ∷ [])

-- the end of `create_config_file_if_missing`; `writable` tells whether the file can be written
unfoldable pub create_at :
    {Float : Type 0} → Bool → Config Float → JsonFile → JsonFile × Result Bool
unfolding config_file_payload
create_at writable config missing =
    if writable
    then (held (some (obj (config_file_payload config))), ok true)
    else (missing, raise config_file_write_error)
create_at writable config file = (file, ok false)

-- `create_config_file_if_missing`: what then stands at the path, and the result
unfoldable pub create_config_file_if_missing :
    {Float : Type 0} → Bool → Config Float → JsonFile → JsonFile × Result Bool
unfolding create_at
create_config_file_if_missing writable config file = elim config.config_file [
  | none ↦ (file, ok false)
  | some path ↦ create_at writable config file
]
