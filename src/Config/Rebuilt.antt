-- ===== src/Config/Rebuilt.antt =====
-- config.py: a device that was built is built again from its own fields.
use mochad_mqtt_bridge.Prelude.{
  value_error, ℕ, ◌≤◌, ◌≡◌, refl, sym, ap, ◌∙◌, subst, Bool, true, Option, none, some, arith,
  Result, ok, raise, >>=-eq-ok, ok_injective,
}
use mochad_mqtt_bridge.Text.{Text, text_eq, text_eq_sound, contains_text, lower, strip}
use mochad_mqtt_bridge.Text.Decimal.{decimal}
use mochad_mqtt_bridge.Dict.{lookup}
use mochad_mqtt_bridge.Dict.Keys.{all_entries, Entries-of_test, lookup-Entries}
use mochad_mqtt_bridge.Models.Enums.{DeviceType, switch, light, chime}
use mochad_mqtt_bridge.Models.Config.{DeviceConfig, default_fields, post_init}
use mochad_mqtt_bridge.DeviceRegistry.{with_profile, profile_ids}
use mochad_mqtt_bridge.DeviceRegistry.Applied.{apply_profile_iff}
use mochad_mqtt_bridge.DeviceRegistry.Profiles.{DeviceProfile}
use mochad_mqtt_bridge.DeviceRegistry.Products.{device_profiles}
use mochad_mqtt_bridge.Config.Values.{parse_command_repeats, parse_command_repeat_delay_ms}
use mochad_mqtt_bridge.Config.Numbers.{parse_bounded_int-decimal, parse_bounded_int_bounds}
use mochad_mqtt_bridge.Config.Devices.{
  as_config_error, with_optional_profile, build_device, parse_device_type,
  parse_device_type_and_profile,
}
use mochad_mqtt_bridge.Config.File.{type_name}

-- A device without a profile.
abbrev pub plain : Text → Text → DeviceType → ℕ → ℕ → DeviceConfig
plain address name entity_type repeats delay_ms = post_init (record (default_fields address name) {
  entity_type = entity_type;
  command_repeats = repeats;
  command_repeat_delay_ms = delay_ms;
})

-- A profile hides the type that was given.
with_profile-plain :
    (p : DeviceProfile) (a n : Text) (t : DeviceType) (r l : ℕ)
    → with_profile p (plain a n t r l) ≡ with_profile p (plain a n switch r l)
unfolding post_init
with_profile-plain p a n switch r l = refl
with_profile-plain p a n light r l = refl
with_profile-plain p a n chime r l = refl

is_key : Text → DeviceProfile → Bool
is_key key p = text_eq (lower (strip p.profile_id)) key

keys_are_normal : all_entries is_key device_profiles ≡ true
unfolding is_key text_eq lower strip
keys_are_normal = refl

-- A device is built from its own fields.
abbrev pub Rebuilds : DeviceConfig → Type 0
Rebuilds d =
    with_optional_profile d.profile
      (plain d.address d.name d.entity_type d.command_repeats d.command_repeat_delay_ms)
    ≡ ok d

-- What is kept of the arguments of `_device_config`.
pub record IsBuilt (address name : Text) (d : DeviceConfig) : Type 0 where
  pub at_address : d.address ≡ address
  pub named : d.name ≡ name
  pub repeats_low : 1 ≤ d.command_repeats
  pub repeats_high : d.command_repeats ≤ 5
  pub delay_high : d.command_repeat_delay_ms ≤ 5000
  pub rebuilds : Rebuilds d

abbrev Kept : Text → Text → ℕ → ℕ → DeviceConfig → Type 0
Kept a n r l d =
    (d.address ≡ a)
    × (d.name ≡ n)
    × (d.command_repeats ≡ r)
    × (d.command_repeat_delay_ms ≡ l)
    × Rebuilds d

plain-Kept : (a n : Text) (t : DeviceType) (r l : ℕ) → Kept a n r l (plain a n t r l)
unfolding post_init with_optional_profile
plain-Kept a n switch r l = (refl, refl, refl, refl, refl)
plain-Kept a n light r l = (refl, refl, refl, refl, refl)
plain-Kept a n chime r l = (refl, refl, refl, refl, refl)

profiled-Kept :
    (p : DeviceProfile) (id a n : Text) (r l : ℕ)
    → lookup (lower (strip id)) device_profiles ≡ some p
    → p.profile_id ≡ lower (strip id)
    → Kept a n r l (with_profile p (plain a n switch r l))
unfolding post_init with_optional_profile is_key
profiled-Kept p id a n r l found named =
    let normal = text_eq_sound _ _ (
      lookup-Entries (λ k q. is_key k q ≡ true) (lower (strip id)) p device_profiles
        (Entries-of_test is_key device_profiles keys_are_normal) found) in
    let again =
      (apply_profile_iff (plain a n p.entity_type r l) (with_profile p (plain a n switch r l))
          p.profile_id).1
        (
          p,
          rw normal found,
          named ∙ sym normal,
          sym (with_profile-plain p a n p.entity_type r l),
        ) in
    (refl, refl, refl, refl, ap as_config_error again)

config_ok : (r : Result DeviceConfig) (d : DeviceConfig) → as_config_error r ≡ ok d → r ≡ ok d
config_ok (ok a) d = λ h. h
config_ok (raise e) d =
    elim e
      as (λ k. as_config_error (raise k) ≡ ok d → Path (Result DeviceConfig) (raise k) (ok d)) [
        | value_error ↦ λ h. absurd (cc h)
        | _ ↦ λ h. h
      ]

with_optional_profile-Kept :
    (o : Option Text) (a n : Text) (t : DeviceType) (r l : ℕ) (d : DeviceConfig)
    → with_optional_profile o (plain a n t r l) ≡ ok d
    → Kept a n r l d
unfolding with_optional_profile
with_optional_profile-Kept none a n t r l d h = rw (← ok_injective _ _ h) (plain-Kept a n t r l)
with_optional_profile-Kept (some id) a n t r l d h =
    let (p, found, named, same) = (apply_profile_iff (plain a n t r l) d id).0 (config_ok _ d h) in
    subst (Kept a n r l) (sym (same ∙ with_profile-plain p a n t r l))
      (profiled-Kept p id a n r l found named)

-- Whatever the texts of the numbers, the type and the profile, the numbers of a device that is built
-- are in bounds, and it is built from its own fields again.
pub build_device-IsBuilt :
    (a n : Text) (t : DeviceType) (r l : Text) (o : Option Text) (d : DeviceConfig)
    → build_device a n t r l o ≡ ok d
    → IsBuilt a n d
unfolding build_device parse_command_repeats parse_command_repeat_delay_ms
build_device-IsBuilt a n t r l o d h =
    let (repeats, read, h) = >>=-eq-ok (parse_command_repeats r) _ h in
    let (delay, read', h) = >>=-eq-ok (parse_command_repeat_delay_ms l) _ h in
    let (low, high) = parse_bounded_int_bounds 1 5 repeats r read in
    let (_, high') = parse_bounded_int_bounds 0 5000 delay l read' in
    let (at, named, same, same', again) = with_optional_profile-Kept o a n t repeats delay d h in
    record {
      at_address = at;
      named = named;
      repeats_low = rw same low;
      repeats_high = rw same high;
      delay_high = rw same' high';
      rebuilds = again;
    }

-- Printed numbers and the own profile give the device back.
pub build_device-again :
    (a n : Text) (d : DeviceConfig)
    → IsBuilt a n d
    → build_device a n d.entity_type
        (decimal d.command_repeats)
        (decimal d.command_repeat_delay_ms)
        d.profile
      ≡ ok d
unfolding build_device parse_command_repeats parse_command_repeat_delay_ms
build_device-again a n d b =
    rw
      (
        parse_bounded_int-decimal 1 5 d.command_repeats b.repeats_low b.repeats_high,
        parse_bounded_int-decimal 0 5000 d.command_repeat_delay_ms (omega arith) b.delay_high,
        ← b.at_address,
        ← b.named,
      )
      b.rebuilds

-- The names of the types are read back, and no profile has such a name.
pub parse_device_type-type_name : (t : DeviceType) → parse_device_type (type_name t) ≡ ok t
unfolding parse_device_type type_name text_eq lower strip
parse_device_type-type_name switch = refl
parse_device_type-type_name light = refl
parse_device_type-type_name chime = refl

pub parse_device_type_and_profile-type_name :
    (t : DeviceType) → parse_device_type_and_profile (type_name t) ≡ ok (t, none)
unfolding parse_device_type_and_profile parse_device_type type_name text_eq lower strip
    contains_text profile_ids
parse_device_type_and_profile-type_name switch = refl
parse_device_type_and_profile-type_name light = refl
parse_device_type_and_profile-type_name chime = refl
