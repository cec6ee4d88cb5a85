-- ===== src/Config/Objects.antt =====
-- config.py: the devices of the configuration file. An object of the file is a dict, so no key stands
-- in it twice.
use mochad_mqtt_bridge.Prelude.{
  Bool, Option, none, some, [], config_error, Result, ok, raise, ◌>>=◌,
}
use mochad_mqtt_bridge.Text.{Text, text}
use mochad_mqtt_bridge.Dict.{Dict, insert}
use mochad_mqtt_bridge.Models.Enums.{DeviceType}
use mochad_mqtt_bridge.Models.Config.{DeviceConfig}
use mochad_mqtt_bridge.Models.Runtime.{
  Json, null, str, num, arr, obj, Items, nil, cons, Fields, end, field,
}
use mochad_mqtt_bridge.Models.Payloads.{get_field}
use mochad_mqtt_bridge.Config.Values.{str_of}
use mochad_mqtt_bridge.Config.Devices.{
  normalize_device_address, parse_device_type, parse_device_type_and_profile, display_name,
  build_device, Entry, simple_device, put_entry, parse_devices,
}

-- `fields.get(key, default)`
unfoldable pub get_or : Text → Json → Fields → Json
unfolding get_field
get_or key default fields = elim (get_field key fields) [ none ↦ default | some j ↦ j ]

-- `None if value is None else str(value)`, of a value that may be missing
abbrev pub text_or_none : (Json → Text) → Json → Option Text
text_or_none repr null = none
text_or_none repr j = some (str_of repr j)

-- the type and the profile of an object
unfoldable pub type_and_profile : Option Text → Text → Result (DeviceType × Option Text)
unfolding parse_device_type_and_profile parse_device_type
type_and_profile none kind = parse_device_type_and_profile kind
type_and_profile (some profile) kind = parse_device_type kind >>= λ t. ok (t, some profile)

-- As for `str`: `repr` is the text of a list or a dict.
module _ (repr : Json → Text) where
  -- the texts of the type and of the two numbers, each with its other key and its default
  unfoldable pub kind_text : Fields → Text
  unfolding get_or str_of
  kind_text fields =
      str_of repr
        (get_or (text "type") (get_or (text "entity_type") (str (text "switch")) fields) fields)

  unfoldable pub repeats_text : Fields → Text
  unfolding get_or str_of
  repeats_text fields =
      str_of repr (get_or (text "command_repeats") (get_or (text "repeats") (num 1) fields) fields)

  unfoldable pub delay_text : Fields → Text
  unfolding get_or str_of
  delay_text fields = str_of repr (
      get_or (text "command_repeat_delay_ms") (get_or (text "repeat_delay_ms") (num 150) fields)
        fields)

  -- the text of a value that may be missing or `None`
  unfoldable pub optional_text : Text → Fields → Option Text
  unfolding get_or str_of
  optional_text key fields = text_or_none repr (get_or key null fields)

module _ (repr : Json → Text) (friendly : Bool) where
  -- the device of an object, once its address is known
  unfoldable pub object_device : Text → Fields → Result Entry
  unfolding type_and_profile build_device display_name kind_text repeats_text delay_text
      optional_text
  object_device address fields = do
    (entity_type, profile) ←
        type_and_profile (optional_text repr (text "profile") fields) (kind_text repr fields)
    device ←
        build_device address
          (display_name address (optional_text repr (text "name") fields) friendly) entity_type
          (repeats_text repr fields) (delay_text repr fields) profile
    ok (address, device)

  -- an entry of a list
  unfoldable pub list_device : Json → Result Entry
  unfolding object_device normalize_device_address get_or str_of
  list_device (obj fields) =
      normalize_device_address (str_of repr (get_or (text "address") (str []) fields))
      >>= λ address. object_device address fields
  list_device _ = raise config_error

  -- `_parse_device_list`, after the devices so far
  unfoldable pub parse_device_list : Items → Dict DeviceConfig → Result (Dict DeviceConfig)
  unfolding list_device insert
  parse_device_list nil devices = ok devices
  parse_device_list (cons item items) devices =
      list_device item >>= λ e. parse_device_list items (put_entry devices e)

  -- an entry of an object
  unfoldable pub mapped_device : Text → Json → Result Entry
  unfolding simple_device object_device
  mapped_device address (str name) = simple_device friendly address (some name)
  mapped_device address (obj fields) = object_device address fields
  mapped_device address _ = raise config_error

  -- `_parse_device_mapping`, after the devices so far
  unfoldable pub parse_device_mapping : Fields → Dict DeviceConfig → Result (Dict DeviceConfig)
  unfolding mapped_device normalize_device_address insert
  parse_device_mapping end devices = ok devices
  parse_device_mapping (field key value fields) devices =
      normalize_device_address key >>= (λ address. mapped_device address value) >>= λ e.
      parse_device_mapping fields (put_entry devices e)

  unfoldable pub parse_device_config : Json → Result (Dict DeviceConfig)
  unfolding parse_devices parse_device_list parse_device_mapping
  parse_device_config null = ok []
  parse_device_config (str raw) = parse_devices (some raw) friendly
  parse_device_config (arr items) = parse_device_list items []
  parse_device_config (obj fields) = parse_device_mapping fields []
  parse_device_config _ = raise config_error
