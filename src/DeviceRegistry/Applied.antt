-- ===== src/DeviceRegistry/Applied.antt =====
-- What a profile makes of a device.
use mochad_mqtt_bridge.Prelude.{
  ◌≡◌, refl, sym, ap, ◌∙◌, ◌↔◌, Bool, true, false, ◌&&◌, Option, none, some, List, [], ◌∷◌, arith,
  ok, >>=-eq-ok, ok_injective,
}
use mochad_mqtt_bridge.Text.{Text, text_eq, text_eq_sound, lower, strip}
use mochad_mqtt_bridge.Dict.{lookup}
use mochad_mqtt_bridge.Dict.Keys.{all_entries, Entries-of_test, lookup-Entries}
use mochad_mqtt_bridge.Models.Enums.{Command}
use mochad_mqtt_bridge.Models.Config.{DeviceConfig, HasCommands, post_init-HasCommands}
use mochad_mqtt_bridge.DeviceRegistry.Profiles.{DeviceProfile}
use mochad_mqtt_bridge.DeviceRegistry.Products.{device_profiles}
use mochad_mqtt_bridge.DeviceRegistry.{get_profile, found_profile, with_profile, apply_profile}

has_commands : List Command → Bool
has_commands [] = false
has_commands (c ∷ cs) = true

-- A profile stands under its own name and supports a command.
is_registered : Text → DeviceProfile → Bool
unfolding has_commands
is_registered key p = text_eq p.profile_id key && has_commands p.supported_commands

profiles_are_registered : all_entries is_registered device_profiles ≡ true
unfolding is_registered text_eq
profiles_are_registered = refl

has_commands-HasCommands : (cs : List Command) → has_commands cs ≡ true → HasCommands cs
unfolding has_commands
has_commands-HasCommands [] h = sym h
has_commands-HasCommands (c ∷ cs) h = tt

found-registered :
    (key : Text) (p : DeviceProfile)
    → lookup key device_profiles ≡ some p
    → (p.profile_id ≡ key) × HasCommands p.supported_commands
unfolding is_registered
found-registered key p h =
    let test =
      lookup-Entries (λ k p. is_registered k p ≡ true) key p device_profiles
        (Entries-of_test is_registered device_profiles profiles_are_registered) h in
    (
      text_eq_sound p.profile_id key (ground (arith, test)),
      has_commands-HasCommands p.supported_commands (ground (arith, test)),
    )

get_profile-found :
    (o : Option DeviceProfile) (p : DeviceProfile) → found_profile o ≡ ok p → o ≡ some p
unfolding found_profile
get_profile-found none p h = absurd (cc h)
get_profile-found (some q) p h = cc h

-- A profile is applied exactly when its name, stripped and in lower case, is registered; then the
-- device has all fields of the profile, also where the defaults of its type are others, its profile
-- is that name, and its other fields are as before.
pub apply_profile_iff :
    (d d' : DeviceConfig) (id : Text)
    → (apply_profile d id ≡ ok d') ↔ (
        (p : DeviceProfile) × (lookup (lower (strip id)) device_profiles ≡ some p)
        × (p.profile_id ≡ lower (strip id))
        × (d' ≡ with_profile p d))
unfolding apply_profile get_profile
apply_profile_iff d d' id = (
  λ h.
      let (p, found, built) = >>=-eq-ok (get_profile id) _ h in
      let at_key = get_profile-found (lookup (lower (strip id)) device_profiles) p found in
      let (named, commands) = found-registered (lower (strip id)) p at_key in
      (
        p,
        at_key,
        named,
        sym (ok_injective _ _ built) ∙ post_init-HasCommands (with_profile p d) commands,
      ),
  λ (p, at_key, named, same).
      rw (at_key, same)
        (ap ok (post_init-HasCommands (with_profile p d) (found-registered _ p at_key).1)),
)
