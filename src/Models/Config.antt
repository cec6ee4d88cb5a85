-- ===== src/Models/Config.antt =====
-- models.py: the configuration of a device.
use mochad_mqtt_bridge.Prelude.{
  ℕ, ◌≡◌, refl, sym, false≢true, Bool, true, false, Option, none, List, [], ◌∷◌,
}
use mochad_mqtt_bridge.Text.{Text}
use mochad_mqtt_bridge.Models.Enums.{
  Command, on, off, bright, DeviceType, switch, light, chime, DeviceCapability, on_off,
  OperationMode, continuous, ChannelKind, RfIdentity, standard,
}

pub record SecondaryChannel : Type 0 where
  pub kind : ChannelKind
  pub offset : ℕ
  pub description : Text
  pub enabled_by_default : Bool

pub record CommandSequence : Type 0 where
  pub name : Text
  pub commands : List Command
  pub repeatable : Bool
  pub description : Text

-- A `frozenset` is the list of its members.
pub record DeviceConfig : Type 0 where
  pub address : Text
  pub name : Text
  pub entity_type : DeviceType
  pub profile : Option Text
  pub capabilities : List DeviceCapability
  pub command_repeats : ℕ
  pub command_repeat_delay_ms : ℕ
  pub supported_commands : List Command
  pub stateful : Bool
  pub repeatable_actions : List Command
  pub all_lights_on_response : Bool
  pub all_lights_off_response : Bool
  pub all_units_off_response : Bool
  pub learned_addressing : Bool
  pub secondary_channels : List SecondaryChannel
  pub exclusive_groups : List Text
  pub operation_mode : OperationMode
  pub command_sequences : List CommandSequence
  pub rf_identity : RfIdentity

-- the fields' defaults, before `__post_init__`
abbrev pub default_fields : Text → Text → DeviceConfig
default_fields address name = record {
  address = address;
  name = name;
  entity_type = switch;
  profile = none;
  capabilities = on_off ∷ [];
  command_repeats = 1;
  command_repeat_delay_ms = 150;
  supported_commands = [];
  stateful = true;
  repeatable_actions = [];
  all_lights_on_response = false;
  all_lights_off_response = false;
  all_units_off_response = true;
  learned_addressing = false;
  secondary_channels = [];
  exclusive_groups = [];
  operation_mode = continuous;
  command_sequences = [];
  rf_identity = standard;
}

-- the two last branches of `__post_init__`, for a device with no command of its own
fill_by_type : DeviceType → DeviceConfig → DeviceConfig
fill_by_type chime d = record d {
  capabilities = DeviceCapability.action ∷ [];
  supported_commands = on ∷ [];
  stateful = false;
  repeatable_actions = on ∷ [];
  operation_mode = OperationMode.action;
}
fill_by_type light d = record d {
  supported_commands = on ∷ off ∷ Command.dim ∷ bright ∷ [];
  capabilities = on_off ∷ DeviceCapability.dim ∷ [];
  all_lights_on_response = true;
  all_lights_off_response = true;
}
fill_by_type switch d = record d {
  supported_commands = on ∷ off ∷ [];
  capabilities = on_off ∷ [];
  all_lights_on_response = false;
  all_lights_off_response = false;
}

fill : List Command → DeviceConfig → DeviceConfig
fill [] d = fill_by_type d.entity_type d
fill (c ∷ cs) d = d

-- `DeviceConfig.__post_init__`
unfoldable pub post_init : DeviceConfig → DeviceConfig
unfolding fill fill_by_type
post_init d = fill d.supported_commands d

abbrev pub HasCommands : List Command → Type 0
HasCommands [] = true ≡ false
HasCommands (c ∷ cs) = Unit

-- A device that is built with commands of its own keeps all its fields.
pub post_init-HasCommands : (d : DeviceConfig) → HasCommands d.supported_commands → post_init d ≡ d
unfolding post_init fill
post_init-HasCommands d h = keeps d.supported_commands h
  where
    keeps : (cs : List Command) → HasCommands cs → fill cs d ≡ d
    keeps [] h = absurd (false≢true (sym h))
    keeps (c ∷ cs) h = refl

-- `DeviceConfig(address=…, name=…)`
unfoldable pub new_device_config : Text → Text → DeviceConfig
unfolding post_init
new_device_config address name = post_init (default_fields address name)
