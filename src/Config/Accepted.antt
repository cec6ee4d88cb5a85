-- ===== src/Config/Accepted.antt =====
-- config.py: what the parsers accept of one device, whichever form it is written in.
use mochad_mqtt_bridge.Prelude.{
  ◌≡◌, refl, sym, ap, ◌∙◌, subst, Bool, true, false, Option, none, some, List, [], ◌∷◌,
  if◌then◌else◌, config_error, Result, ok, raise, ◌>>=◌, >>=-eq-ok, ok_injective,
}
use mochad_mqtt_bridge.Text.{Text, strip, strip_by_idem, is_space}
use mochad_mqtt_bridge.Text.Normal.{normal, normal_idem, strip-normal}
use mochad_mqtt_bridge.Models.Enums.{DeviceType, switch}
use mochad_mqtt_bridge.Models.Config.{DeviceConfig}
use mochad_mqtt_bridge.Config.Devices.{matches_device}
use mochad_mqtt_bridge.Config.Devices.{
  normalize_device_address, or_address, display_name, build_device, Entry, simple_device,
  typed_device, parse_parts, parse_device_type_and_profile, default_repeats, default_delay_ms,
  part_or,
}
use mochad_mqtt_bridge.Config.Rebuilt.{IsBuilt, build_device-IsBuilt}

-- An address in its normal form, as DEVICE_RE accepts it.
abbrev pub IsNormal : Text → Type 0
IsNormal a = (matches_device a ≡ true) × (normal a ≡ a)

-- The name is shown as it is.
abbrev pub Shown : Bool → Text → Text → Type 0
Shown friendly a name = display_name a (some name) friendly ≡ name

-- What stands under an address of the devices.
pub record IsEntry (friendly : Bool) (a : Text) (d : DeviceConfig) : Type 0 where
  pub normal_address : IsNormal a
  pub shown : Shown friendly a d.name
  pub built : IsBuilt a d.name d

or_address_self : (a : Text) → or_address a a ≡ a
or_address_self [] = refl
or_address_self (c ∷ a) = refl

pub strip-address : (a : Text) → IsNormal a → strip a ≡ a
strip-address a h = ap strip (sym h.1) ∙ strip-normal a ∙ h.1

strip_kept : (s : Text) → strip (strip s) ≡ strip s
unfolding strip
strip_kept s = strip_by_idem is_space s

address-Shown : (friendly : Bool) (a : Text) → IsNormal a → Shown friendly a a
unfolding display_name
address-Shown false a h = refl
address-Shown true a h = rw (strip-address a h) (or_address_self a)

or_address-strip :
    (a s : Text)
    → IsNormal a
    → or_address a (strip (or_address a (strip s))) ≡ or_address a (strip s)
or_address-strip a s h = by (strip s) (strip_kept s)
  where
    by : (w : Text) → strip w ≡ w → or_address a (strip (or_address a w)) ≡ or_address a w
    by [] e = rw (strip-address a h) (or_address_self a)
    by (c ∷ w) e = rw e refl

pub display_name-Shown :
    (friendly : Bool) (a : Text) (o : Option Text)
    → IsNormal a
    → Shown friendly a (display_name a o friendly)
unfolding display_name
display_name-Shown false a o h = refl
display_name-Shown true a none h = rw (strip-address a h) (or_address_self a)
display_name-Shown true a (some s) h = or_address-strip a s h

test_passed :
    (t : Bool) (s a : Text) → (if t then ok s else raise config_error) ≡ ok a → (t ≡ true) × (s ≡ a)
test_passed true s a h = (refl, ok_injective s a h)
test_passed false s a h = absurd (cc h)

pub normalize_device_address-IsNormal :
    (s a : Text) → normalize_device_address s ≡ ok a → IsNormal a
unfolding normalize_device_address
normalize_device_address-IsNormal s a h =
    let (good, same) = test_passed (matches_device (normal s)) (normal s) a h in
    subst IsNormal same (good, normal_idem s)

-- Every path to a device ends with `_device_config`.
abbrev pub Good : Bool → Result Entry → Type 0
Good friendly r = (e : Entry) → r ≡ ok e → IsEntry friendly e.0 e.1

pub raise-Good : (friendly : Bool) → Good friendly (raise config_error)
raise-Good friendly e h = absurd (cc h)

pub build-Good :
    (friendly : Bool) (a n : Text) (t : DeviceType) (r l : Text) (o : Option Text)
    → IsNormal a
    → Shown friendly a n
    → Good friendly (build_device a n t r l o >>= λ d. ok (a, d))
build-Good friendly a n t r l o normal shown e h =
    let (d, built, h) = >>=-eq-ok (build_device a n t r l o) _ h in
    let b = build_device-IsBuilt a n t r l o d built in
    subst (λ (x : Entry). IsEntry friendly x.0 x.1) (ok_injective _ _ h)
      (record { normal_address = normal; shown = rw b.named shown; built = rw b.named b })

pub bind-Good {ℓ} :
    {A : Type ℓ} (friendly : Bool) (r : Result A) (k : A → Result Entry)
    → ((a : A) → r ≡ ok a → Good friendly (k a))
    → Good friendly (r >>= k)
bind-Good friendly r k good e h = let (a, read, h) = >>=-eq-ok r k h in good a read e h

pub address-Good :
    (friendly : Bool) (s : Text) (k : Text → Result Entry)
    → ((a : Text) → IsNormal a → Good friendly (k a))
    → Good friendly (normalize_device_address s >>= k)
address-Good friendly s k good =
    bind-Good friendly (normalize_device_address s) k
      (λ a read. good a (normalize_device_address-IsNormal s a read))

pub simple_device-Good :
    (friendly : Bool) (a : Text) (o : Option Text)
    → IsNormal a
    → Good friendly (simple_device friendly a o)
unfolding simple_device
simple_device-Good friendly a o h =
    build-Good friendly a (display_name a o friendly) switch default_repeats default_delay_ms none h
      (display_name-Shown friendly a o h)

-- An address for its own name.
nameless-Good :
    (friendly : Bool) (a : Text) → IsNormal a → Good friendly (simple_device true a none)
unfolding simple_device display_name
nameless-Good friendly a h =
    build-Good friendly a a switch default_repeats default_delay_ms none h
      (address-Shown friendly a h)

typed_device-Good :
    (friendly : Bool) (s name kind r l : Text)
    → Good friendly (typed_device friendly s name kind r l)
unfolding typed_device
typed_device-Good friendly s name kind r l = address-Good friendly s _ (λ a h.
    bind-Good friendly (parse_device_type_and_profile kind) _ (λ t read.
      build-Good friendly a (display_name a (some name) friendly) t.0 (part_or default_repeats r)
        (part_or default_delay_ms l) t.1 h (display_name-Shown friendly a (some name) h)))

pub parse_parts-Good : (friendly : Bool) (ps : List Text) → Good friendly (parse_parts friendly ps)
unfolding parse_parts
parse_parts-Good friendly [] = raise-Good friendly
parse_parts-Good friendly (a ∷ []) = address-Good friendly a _ (nameless-Good friendly)
parse_parts-Good friendly (a ∷ n ∷ []) =
    address-Good friendly a _ (λ b h. simple_device-Good friendly b (some n) h)
parse_parts-Good friendly (a ∷ n ∷ k ∷ []) = typed_device-Good friendly a n k [] []
parse_parts-Good friendly (a ∷ n ∷ k ∷ r ∷ []) = typed_device-Good friendly a n k r []
parse_parts-Good friendly (a ∷ n ∷ k ∷ r ∷ l ∷ []) = typed_device-Good friendly a n k r l
parse_parts-Good friendly (a ∷ n ∷ k ∷ r ∷ l ∷ x ∷ ps) = raise-Good friendly
