-- ===== src/Config/Devices.antt =====
-- config.py: the devices of X10_DEVICES.
use mochad_mqtt_bridge.Prelude.{
  Bool, true, false, not, ◌&&◌, Option, none, some, List, [], ◌∷◌, map, if◌then◌else◌, config_error,
  value_error, Result, ok, raise, ◌>>=◌,
}
use mochad_mqtt_bridge.Text.{Text, text, text_eq, contains_text, lower, strip, split_at}
use mochad_mqtt_bridge.Text.Normal.{normal}
use mochad_mqtt_bridge.Dict.{Dict, insert}
use mochad_mqtt_bridge.Models.Enums.{DeviceType, switch, light, chime}
use mochad_mqtt_bridge.Models.Config.{DeviceConfig, default_fields, post_init}
use mochad_mqtt_bridge.Protocol.Validation.{match_unit}
use mochad_mqtt_bridge.Protocol.Regex.Patterns.{is_any_house}
use mochad_mqtt_bridge.DeviceRegistry.Profiles.{DeviceProfile}
use mochad_mqtt_bridge.DeviceRegistry.{profile_ids, get_profile, apply_profile}
use mochad_mqtt_bridge.Config.Values.{parse_command_repeats, parse_command_repeat_delay_ms}

-- `except ValueError as exc: raise ConfigError(…)`
abbrev pub as_config_error {ℓ} : {A : Type ℓ} → Result A → Result A
as_config_error (ok a) = ok a
as_config_error (raise value_error) = raise config_error
as_config_error (raise e) = raise e

-- `DEVICE_RE.fullmatch`; under IGNORECASE its letters include some beyond ASCII
unfoldable pub matches_device : Text → Bool
unfolding is_any_house match_unit
matches_device [] = false
matches_device (h ∷ u) = is_any_house h && match_unit u

-- `_normalize_address` of config.py
unfoldable pub normalize_device_address : Text → Result Text
unfolding matches_device
normalize_device_address address =
    if matches_device (normal address) then ok (normal address) else raise config_error

unfoldable pub device_type_named : Text → Result DeviceType
unfolding text_eq
device_type_named value =
    if text_eq value (text "light")
    then ok light
    else if text_eq value (text "switch")
    then ok switch
    else if text_eq value (text "chime")
    then ok chime
    else raise config_error

-- `_parse_device_type`
unfoldable pub parse_device_type : Text → Result DeviceType
unfolding device_type_named lower strip
parse_device_type value = device_type_named (lower (strip value))

abbrev pub of_profile : DeviceProfile → DeviceType × Option Text
of_profile p = (p.entity_type, some p.profile_id)

abbrev pub without_profile : DeviceType → Result (DeviceType × Option Text)
without_profile entity_type = ok (entity_type, none)

-- `_parse_device_type_and_profile`
unfoldable pub parse_device_type_and_profile : Text → Result (DeviceType × Option Text)
unfolding contains_text profile_ids get_profile parse_device_type
parse_device_type_and_profile value =
    if contains_text (lower (strip value)) profile_ids
    then as_config_error (get_profile (lower (strip value))) >>= (λ p. ok (of_profile p))
    else parse_device_type value >>= without_profile

abbrev pub or_address : Text → Text → Text
or_address address [] = address
or_address address (c ∷ s) = c ∷ s

abbrev pub name_or : Text → Option Text → Text
name_or address none = address
name_or address (some name) = or_address address (strip name)

-- `_display_name`
unfoldable pub display_name : Text → Option Text → Bool → Text
unfolding strip
display_name address name use_friendly_names =
    if not use_friendly_names then address else name_or address name

-- the end of `_device_config`
unfoldable pub with_optional_profile : Option Text → DeviceConfig → Result DeviceConfig
unfolding apply_profile
with_optional_profile none device = ok device
with_optional_profile (some profile) device = as_config_error (apply_profile device profile)

-- `_device_config`; the two numbers come as the texts that are read
unfoldable pub build_device :
    Text → Text → DeviceType → Text → Text → Option Text → Result DeviceConfig
unfolding parse_command_repeats parse_command_repeat_delay_ms with_optional_profile post_init
build_device address name entity_type repeats delay_ms profile = do
  repeats ← parse_command_repeats repeats
  delay_ms ← parse_command_repeat_delay_ms delay_ms
  with_optional_profile profile (
      post_init (record (default_fields address name) {
        entity_type = entity_type;
        command_repeats = repeats;
        command_repeat_delay_ms = delay_ms;
      }))

-- the defaults of the two numbers, as texts
abbrev pub default_repeats : Text
default_repeats = text "1"

abbrev pub default_delay_ms : Text
default_delay_ms = text "150"

abbrev pub part_or : Text → Text → Text
part_or default [] = default
part_or default (c ∷ s) = c ∷ s

-- what one entry adds: its address, and the device
abbrev pub Entry : Type 0
Entry = Text × DeviceConfig

unfoldable pub simple_device : Bool → Text → Option Text → Result Entry
unfolding build_device display_name
simple_device friendly address name = do
  device ←
      build_device address (display_name address name friendly) switch default_repeats
        default_delay_ms none
  ok (address, device)

-- an entry with a type, the parts of its numbers empty where they are missing
unfoldable pub typed_device : Bool → Text → Text → Text → Text → Text → Result Entry
unfolding normalize_device_address parse_device_type_and_profile build_device display_name
typed_device friendly address name kind repeats delay_ms = do
  address ← normalize_device_address address
  (entity_type, profile) ← parse_device_type_and_profile kind
  device ←
      build_device address (display_name address (some name) friendly) entity_type
        (part_or default_repeats repeats) (part_or default_delay_ms delay_ms) profile
  ok (address, device)

-- the branches on the number of the parts of an entry
unfoldable pub parse_parts : Bool → List Text → Result Entry
unfolding simple_device typed_device normalize_device_address
parse_parts friendly (a ∷ []) =
    normalize_device_address a >>= λ address. simple_device true address none
parse_parts friendly (a ∷ name ∷ []) =
    normalize_device_address a >>= λ address. simple_device friendly address (some name)
parse_parts friendly (a ∷ name ∷ kind ∷ []) = typed_device friendly a name kind [] []
parse_parts friendly (a ∷ name ∷ kind ∷ repeats ∷ []) = typed_device friendly a name kind repeats []
parse_parts friendly (a ∷ name ∷ kind ∷ repeats ∷ delay_ms ∷ []) =
    typed_device friendly a name kind repeats delay_ms
parse_parts friendly _ = raise config_error

abbrev pub put_entry : Dict DeviceConfig → Entry → Dict DeviceConfig
put_entry devices (address, device) = insert address device devices

-- the loop of `parse_devices` over the entries, each stripped; it skips those that are blank
unfoldable pub parse_entries : Bool → List Text → Dict DeviceConfig → Result (Dict DeviceConfig)
unfolding parse_parts split_at strip insert
parse_entries friendly [] devices = ok devices
parse_entries friendly ([] ∷ entries) devices = parse_entries friendly entries devices
parse_entries friendly ((c ∷ entry) ∷ entries) devices =
    parse_parts friendly (map strip (split_at b':' (c ∷ entry))) >>= λ e.
    parse_entries friendly entries (put_entry devices e)

unfoldable pub parse_devices : Option Text → Bool → Result (Dict DeviceConfig)
unfolding parse_entries split_at strip
parse_devices none friendly = ok []
parse_devices (some []) friendly = ok []
parse_devices (some (c ∷ raw)) friendly =
    parse_entries friendly (map strip (split_at b',' (c ∷ raw))) []
