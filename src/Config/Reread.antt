-- ===== src/Config/Reread.antt =====
-- config.py: the devices of the file that is created are read back.
use mochad_mqtt_bridge.Prelude.{
  ◌≡◌, refl, sym, ap, ◌∙◌, subst, Bool, false, Option, none, some, List, [], ◌∷◌, ◌++◌, append-nil,
  append_assoc, arith, All, ok,
}
use mochad_mqtt_bridge.Text.{Text, text, text_eq, text_eq_iff}
use mochad_mqtt_bridge.Text.Decimal.{decimal}
use mochad_mqtt_bridge.Dict.{Dict, insert, values, lookup}
use mochad_mqtt_bridge.Dict.Keys.{Fresh, HasDistinctKeys, Entries}
use mochad_mqtt_bridge.Models.Enums.{DeviceType}
use mochad_mqtt_bridge.Models.Config.{DeviceConfig}
use mochad_mqtt_bridge.Models.Runtime.{Json, str, arr, obj}
use mochad_mqtt_bridge.Models.Payloads.{get_field}
use mochad_mqtt_bridge.Config.Values.{str_of}
use mochad_mqtt_bridge.Config.Devices.{normalize_device_address}
use mochad_mqtt_bridge.Config.Objects.{
  get_or, type_and_profile, kind_text, repeats_text, delay_text, optional_text, object_device,
  list_device, parse_device_list, parse_device_config,
}
use mochad_mqtt_bridge.Config.File.{type_name, device_to_file_payload, device_items, sort_devices}
use mochad_mqtt_bridge.Config.Rebuilt.{
  build_device-again, parse_device_type-type_name, parse_device_type_and_profile-type_name,
}
use mochad_mqtt_bridge.Config.Accepted.{IsNormal, IsEntry}
use mochad_mqtt_bridge.Config.Loaded.{IsLoaded}
use mochad_mqtt_bridge.Config.Sorted.{
  keyed, sort_devices-HasDistinctKeys, lookup-sort_devices, All-sort_devices,
}

normalize_device_address_of_IsNormal : (a : Text) → IsNormal a → normalize_device_address a ≡ ok a
unfolding normalize_device_address
normalize_device_address_of_IsNormal a h = rw (h.1, h.0) refl

type_and_profile-type_name :
    (o : Option Text) (t : DeviceType) → type_and_profile o (type_name t) ≡ ok (t, o)
unfolding type_and_profile
type_and_profile-type_name none t = parse_device_type_and_profile-type_name t
type_and_profile-type_name (some profile) t = rw (parse_device_type-type_name t) refl

-- What is written for a device, read by its keys.
module _ (repr : Json → Text) (d : DeviceConfig) where
  address-payload :
      str_of repr (get_or (text "address") (str []) (device_to_file_payload d)) ≡ d.address
  unfolding device_to_file_payload get_or get_field text_eq str_of
  address-payload = refl

  name-payload : optional_text repr (text "name") (device_to_file_payload d) ≡ some d.name
  unfolding device_to_file_payload optional_text get_or get_field text_eq str_of
  name-payload = refl

  kind-payload : kind_text repr (device_to_file_payload d) ≡ type_name d.entity_type
  unfolding device_to_file_payload kind_text get_or get_field text_eq str_of
  kind-payload = refl

  repeats-payload : repeats_text repr (device_to_file_payload d) ≡ decimal d.command_repeats
  unfolding device_to_file_payload repeats_text get_or get_field text_eq str_of
  repeats-payload = refl

  delay-payload : delay_text repr (device_to_file_payload d) ≡ decimal d.command_repeat_delay_ms
  unfolding device_to_file_payload delay_text get_or get_field text_eq str_of
  delay-payload = refl

profile-payload :
    (repr : Json → Text) (d : DeviceConfig) (o : Option Text)
    → d.profile ≡ o
    → optional_text repr (text "profile") (device_to_file_payload d) ≡ o
unfolding device_to_file_payload optional_text get_or get_field text_eq str_of
profile-payload repr d none e = rw e refl
profile-payload repr d (some profile) e = rw e refl

module _ (repr : Json → Text) (friendly : Bool) where
  list_device-payload :
      (d : DeviceConfig)
      → IsEntry friendly d.address d
      → list_device repr friendly (obj (device_to_file_payload d)) ≡ ok (d.address, d)
  unfolding list_device object_device
  list_device-payload d h =
      rw
        (
          address-payload repr d,
          normalize_device_address_of_IsNormal d.address h.normal_address,
          profile-payload repr d d.profile refl,
          kind-payload repr d,
          type_and_profile-type_name d.profile d.entity_type,
          name-payload repr d,
          h.shown,
          repeats-payload repr d,
          delay-payload repr d,
          build_device-again d.address d.name d h.built,
        )
        refl

insert-Fresh :
    (k : Text) (d : DeviceConfig) (ds : Dict DeviceConfig)
    → Fresh k ds
    → insert k d ds ≡ ds ++ (k, d) ∷ []
unfolding insert
insert-Fresh k d [] f = refl
insert-Fresh k d ((j, e) ∷ ds) (f, fs) = rw f (ap (λ x. (j, e) ∷ x) (insert-Fresh k d ds fs))

Fresh-append :
    (k j : Text) (d : DeviceConfig) (ds : Dict DeviceConfig)
    → Fresh k ds
    → text_eq j k ≡ false
    → Fresh k (ds ++ (j, d) ∷ [])
Fresh-append k j d [] f h = (h, tt)
Fresh-append k j d ((i, e) ∷ ds) (f, fs) h = (f, Fresh-append k j d ds fs h)

-- No device has an address that is taken.
abbrev Untaken : Dict DeviceConfig → List DeviceConfig → Type 0
Untaken acc ds = All (λ d. Fresh d.address acc) ds

Untaken-append :
    (acc : Dict DeviceConfig) (d : DeviceConfig) (ds : List DeviceConfig)
    → Fresh d.address (keyed ds)
    → Untaken acc ds
    → Untaken (acc ++ (d.address, d) ∷ []) ds
Untaken-append acc d [] f h = tt
Untaken-append acc d (e ∷ es) (f, fs) (h, hs) = (
  Fresh-append e.address d.address d acc h
      (ground (arith, f, text_eq_iff d.address e.address, text_eq_iff e.address d.address)),
  Untaken-append acc d es fs hs,
)

Untaken-nil : (ds : List DeviceConfig) → Untaken [] ds
Untaken-nil [] = tt
Untaken-nil (d ∷ ds) = (tt, Untaken-nil ds)

module _ (repr : Json → Text) (friendly : Bool) where
  parse_device_list-items :
      (ds : List DeviceConfig) (acc : Dict DeviceConfig)
      → All (λ d. IsEntry friendly d.address d) ds
      → HasDistinctKeys (keyed ds)
      → Untaken acc ds
      → parse_device_list repr friendly (device_items ds) acc ≡ ok (acc ++ keyed ds)
  unfolding parse_device_list device_items
  parse_device_list-items [] acc h k u = rw append-nil refl
  parse_device_list-items (d ∷ ds) acc (h, hs) (f, k) (u, us) =
      rw (list_device-payload repr friendly d h, insert-Fresh d.address d acc u)
        (parse_device_list-items ds (acc ++ (d.address, d) ∷ []) hs k (Untaken-append acc d ds f us)
          ∙ ap ok (append_assoc acc ((d.address, d) ∷ []) (keyed ds)))

-- In devices that were loaded, each stands under its own address.
keyed-values :
    (friendly : Bool) (ds : Dict DeviceConfig)
    → Entries (IsEntry friendly) ds
    → keyed (values ds) ≡ ds
unfolding values
keyed-values friendly [] h = refl
keyed-values friendly ((a, d) ∷ ds) (h, hs) =
    rw (h.built.at_address, keyed-values friendly ds hs) refl

All-values :
    (friendly : Bool) (ds : Dict DeviceConfig)
    → Entries (IsEntry friendly) ds
    → All (λ d. IsEntry friendly d.address d) (values ds)
unfolding values
All-values friendly [] h = tt
All-values friendly ((a, d) ∷ ds) (h, hs) =
    (subst (λ b. IsEntry friendly b d) (sym h.built.at_address) h, All-values friendly ds hs)

-- Devices that were loaded are read back from the items of the file, in the order of the addresses.
pub parse_device_config-items :
    (repr : Json → Text) (friendly : Bool) (ds : Dict DeviceConfig)
    → IsLoaded friendly ds
    → parse_device_config repr friendly (arr (device_items (sort_devices (values ds))))
      ≡ ok (keyed (sort_devices (values ds)))
unfolding parse_device_config
parse_device_config-items repr friendly ds l =
    let distinct = subst HasDistinctKeys (sym (keyed-values friendly ds l.entries)) l.distinct in
    parse_device_list-items repr friendly (sort_devices (values ds)) []
      (All-sort_devices (λ d. IsEntry friendly d.address d) (values ds)
        (All-values friendly ds l.entries))
      (sort_devices-HasDistinctKeys (values ds) distinct) (Untaken-nil (sort_devices (values ds)))

-- Under each address they are the same.
pub lookup-keyed :
    (friendly : Bool) (k : Text) (ds : Dict DeviceConfig)
    → IsLoaded friendly ds
    → lookup k (keyed (sort_devices (values ds))) ≡ lookup k ds
lookup-keyed friendly k ds l =
    let same = keyed-values friendly ds l.entries in
    lookup-sort_devices k (values ds) (subst HasDistinctKeys (sym same) l.distinct)
    ∙ ap (lookup k) same
