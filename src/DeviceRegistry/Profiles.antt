-- ===== src/DeviceRegistry/Profiles.antt =====
-- device_registry.py: the profiles of the known products. A `frozenset` is the list of its members.
use mochad_mqtt_bridge.Prelude.{ℕ, Bool, true, false, List, [], ◌∷◌}
use mochad_mqtt_bridge.Text.{Text}
use mochad_mqtt_bridge.Models.Enums.{
  Command, DeviceCapability, DeviceType, OperationMode, ChannelKind, RfIdentity,
}
use mochad_mqtt_bridge.Models.Config.{SecondaryChannel, CommandSequence}

pub record DeviceProfile : Type 0 where
  pub profile_id : Text
  pub model : Text
  pub description : Text
  pub entity_type : DeviceType
  pub capabilities : List DeviceCapability
  pub supported_commands : List Command
  pub stateful : Bool
  pub repeatable_actions : List Command
  pub all_lights_on_response : Bool
  pub all_lights_off_response : Bool
  pub all_units_off_response : Bool
  pub learned_addressing : Bool
  pub secondary_channels : List SecondaryChannel
  pub exclusive_groups : List Text
  pub operation_mode : OperationMode
  pub command_sequences : List CommandSequence
  pub rf_identity : RfIdentity

-- `DeviceProfile(…)` with the defaults of the fields that have one
abbrev pub profile :
    Text → Text → Text → DeviceType → List DeviceCapability → List Command → Bool → DeviceProfile
profile profile_id model description entity_type capabilities supported_commands stateful = record {
  profile_id = profile_id;
  model = model;
  description = description;
  entity_type = entity_type;
  capabilities = capabilities;
  supported_commands = supported_commands;
  stateful = stateful;
  repeatable_actions = [];
  all_lights_on_response = false;
  all_lights_off_response = false;
  all_units_off_response = true;
  learned_addressing = false;
  secondary_channels = [];
  exclusive_groups = [];
  operation_mode = OperationMode.continuous;
  command_sequences = [];
  rf_identity = RfIdentity.standard;
}

abbrev pub channel : ChannelKind → ℕ → Text → Bool → SecondaryChannel
channel kind offset description enabled_by_default = record {
  kind = kind;
  offset = offset;
  description = description;
  enabled_by_default = enabled_by_default;
}

abbrev pub sequence : Text → List Command → CommandSequence
sequence name commands = record {
  name = name;
  commands = commands;
  repeatable = true;
  description = [];
}

abbrev pub on_off : List Command
on_off = Command.on ∷ Command.off ∷ []

abbrev pub on_only : List Command
on_only = Command.on ∷ []

abbrev pub light_commands : List Command
light_commands = Command.on ∷ Command.off ∷ Command.dim ∷ Command.bright ∷ []
