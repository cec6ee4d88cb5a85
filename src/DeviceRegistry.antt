-- ===== src/DeviceRegistry.antt =====
-- device_registry.py: the registry of the profiles, and their application to a device.
pub mod Profiles
pub mod Products
pub mod Applied
use mochad_mqtt_bridge.Prelude.{
  ℕ, zero, suc, ◌+◌, ◌-◌, ◌*◌, ◌/◌, ◌%◌, ◌≤◌, ◌<◌, String, ◌≡◌, refl, sym, ap, ◌∙◌, subst, fun_ext,
  ◌≢◌, ◌↔◌, ◌⊎◌, inl, inr, Bool, true, false, not, ◌&&◌, ◌||◌, false≢true, Option, none, some, List,
  [], ◌∷◌, ◌++◌, map, reverse, append-nil, append_assoc, arith, ltb, leb, ◌==◌, between,
  if◌then◌else◌, ==_iff, ltb→lt, lt→ltb, leb→le, Bool-cases, tests_below, tests_below_lem,
  Option-cases, length, replicate, length-append, All, All-append, Exception, value_error,
  topic_error, config_error, connection_error, os_error, type_error, key_error, Result, ok, raise,
  ◌>>=◌, >>=-eq-ok, ok_injective,
}
use mochad_mqtt_bridge.Text.{
  Text, text, text_eq, text_eq_sound, text_eq_refl, text_eq_iff, contains_text, starts_with,
  is_space, upper_char, lower_char, upper, lower, lstrip_by, rstrip_by, strip_by, strip, strip_char,
  HeadKept, LastKept, strip_by-HeadKept, strip_by-LastKept, strip_by_kept, strip_by_idem,
  HeadKept-All, LastKept-All, split_at, split_at-piece, cons_head, join, words_from, words, Free,
  split_at-join,
}
use mochad_mqtt_bridge.Dict.{Dict, lookup, keys}
use mochad_mqtt_bridge.Models.Config.{DeviceConfig, post_init}
use mochad_mqtt_bridge.DeviceRegistry.Profiles.{DeviceProfile}
use mochad_mqtt_bridge.DeviceRegistry.Products.{device_profiles}

unfoldable pub profile_ids : List Text
unfolding keys
profile_ids = keys device_profiles

found_profile : Option DeviceProfile → Result DeviceProfile
found_profile none = raise value_error
found_profile (some p) = ok p

unfoldable pub get_profile : Text → Result DeviceProfile
unfolding found_profile lookup
get_profile profile_id = found_profile (lookup (lower (strip profile_id)) device_profiles)

-- The fields that `apply_profile` replaces.
abbrev pub with_profile : DeviceProfile → DeviceConfig → DeviceConfig
with_profile profile device = record device {
  profile = some profile.profile_id;
  entity_type = profile.entity_type;
  capabilities = profile.capabilities;
  supported_commands = profile.supported_commands;
  stateful = profile.stateful;
  repeatable_actions = profile.repeatable_actions;
  all_lights_on_response = profile.all_lights_on_response;
  all_lights_off_response = profile.all_lights_off_response;
  all_units_off_response = profile.all_units_off_response;
  learned_addressing = profile.learned_addressing;
  secondary_channels = profile.secondary_channels;
  exclusive_groups = profile.exclusive_groups;
  operation_mode = profile.operation_mode;
  command_sequences = profile.command_sequences;
  rf_identity = profile.rf_identity;
}

-- `replace` builds a new object, which runs `__post_init__`.
unfoldable pub apply_profile : DeviceConfig → Text → Result DeviceConfig
unfolding get_profile post_init
apply_profile device profile_id = do
  profile ← get_profile profile_id
  ok (post_init (with_profile profile device))
