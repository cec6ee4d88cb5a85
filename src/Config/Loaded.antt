-- ===== src/Config/Loaded.antt =====
-- config.py: what the parsers accept of all devices, whichever form they are written in.
use mochad_mqtt_bridge.Prelude.{
  ◌≡◌, subst, Bool, Option, none, some, List, [], ◌∷◌, map, config_error, Result, ok, raise, ◌>>=◌,
  >>=-eq-ok, ok_injective,
}
use mochad_mqtt_bridge.Text.{Text, text, strip, split_at}
use mochad_mqtt_bridge.Dict.{Dict}
use mochad_mqtt_bridge.Dict.Keys.{Entries, HasDistinctKeys, insert-Entries, insert-HasDistinctKeys}
use mochad_mqtt_bridge.Models.Config.{DeviceConfig}
use mochad_mqtt_bridge.Models.Runtime.{
  Json, null, bool, str, num, arr, obj, Items, nil, cons, Fields, end, field,
}
use mochad_mqtt_bridge.Config.Devices.{display_name, Entry, put_entry, parse_entries, parse_devices}
use mochad_mqtt_bridge.Config.Objects.{
  object_device, list_device, parse_device_list, mapped_device, parse_device_mapping,
  parse_device_config, type_and_profile, get_or, optional_text, kind_text, repeats_text, delay_text,
}
use mochad_mqtt_bridge.Config.Values.{str_of}
use mochad_mqtt_bridge.Config.Accepted.{
  IsNormal, IsEntry, display_name-Shown, Good, raise-Good, build-Good, bind-Good, address-Good,
  simple_device-Good, parse_parts-Good,
}

-- The devices are stored under their normal addresses, each once.
pub record IsLoaded (friendly : Bool) (devices : Dict DeviceConfig) : Type 0 where
  pub entries : Entries (IsEntry friendly) devices
  pub distinct : HasDistinctKeys devices

none-IsLoaded : (friendly : Bool) → IsLoaded friendly []
none-IsLoaded friendly = record { entries = tt; distinct = tt }

put_entry-IsLoaded :
    (friendly : Bool) (devices : Dict DeviceConfig) (e : Entry)
    → IsLoaded friendly devices
    → IsEntry friendly e.0 e.1
    → IsLoaded friendly (put_entry devices e)
put_entry-IsLoaded friendly devices (a, d) l h = record {
  entries = insert-Entries (IsEntry friendly) a d devices h l.entries;
  distinct = insert-HasDistinctKeys a d devices l.distinct;
}

-- A result is good when all its devices are.
abbrev Loads : Bool → Result (Dict DeviceConfig) → Type 0
Loads friendly r = (devices : Dict DeviceConfig) → r ≡ ok devices → IsLoaded friendly devices

ok-Loads :
    (friendly : Bool) (ds : Dict DeviceConfig) → IsLoaded friendly ds → Loads friendly (ok ds)
ok-Loads friendly ds l ds' h = subst (IsLoaded friendly) (ok_injective _ _ h) l

raise-Loads : (friendly : Bool) → Loads friendly (raise config_error)
raise-Loads friendly ds h = absurd (cc h)

put-Loads :
    (friendly : Bool) (devices : Dict DeviceConfig) (r : Result Entry)
    (k : Dict DeviceConfig → Result (Dict DeviceConfig))
    → IsLoaded friendly devices
    → Good friendly r
    → ((ds : Dict DeviceConfig) → IsLoaded friendly ds → Loads friendly (k ds))
    → Loads friendly (r >>= λ e. k (put_entry devices e))
put-Loads friendly devices r k l good rest ds h =
    let (e, read, h) = >>=-eq-ok r _ h in
    rest (put_entry devices e) (put_entry-IsLoaded friendly devices e l (good e read)) ds h

parse_entries-Loads :
    (friendly : Bool) (es : List Text) (ds : Dict DeviceConfig)
    → IsLoaded friendly ds
    → Loads friendly (parse_entries friendly es ds)
unfolding parse_entries
parse_entries-Loads friendly [] ds l = ok-Loads friendly ds l
parse_entries-Loads friendly ([] ∷ es) ds l = parse_entries-Loads friendly es ds l
parse_entries-Loads friendly ((c ∷ e) ∷ es) ds l =
    put-Loads friendly ds _ (parse_entries friendly es) l (parse_parts-Good friendly _)
      (parse_entries-Loads friendly es)

pub parse_devices-Loads :
    (friendly : Bool) (raw : Option Text) → Loads friendly (parse_devices raw friendly)
unfolding parse_devices
parse_devices-Loads friendly none = ok-Loads friendly [] (none-IsLoaded friendly)
parse_devices-Loads friendly (some []) = ok-Loads friendly [] (none-IsLoaded friendly)
parse_devices-Loads friendly (some (c ∷ s)) =
    parse_entries-Loads friendly (map strip (split_at b',' (c ∷ s))) [] (none-IsLoaded friendly)

module _ (repr : Json → Text) (friendly : Bool) where
  object_device-Good :
      (a : Text) (fs : Fields) → IsNormal a → Good friendly (object_device repr friendly a fs)
  unfolding object_device
  object_device-Good a fs h =
      bind-Good friendly
        (type_and_profile (optional_text repr (text "profile") fs) (kind_text repr fs)) _
        (λ t read.
          build-Good friendly a (display_name a (optional_text repr (text "name") fs) friendly) t.0
            (repeats_text repr fs) (delay_text repr fs) t.1 h
            (display_name-Shown friendly a (optional_text repr (text "name") fs) h))

  list_device-Good : (j : Json) → Good friendly (list_device repr friendly j)
  unfolding list_device
  list_device-Good (obj fs) =
      address-Good friendly (str_of repr (get_or (text "address") (str []) fs)) _
        (λ a h. object_device-Good a fs h)
  list_device-Good null = raise-Good friendly
  list_device-Good (bool b) = raise-Good friendly
  list_device-Good (num n) = raise-Good friendly
  list_device-Good (str s) = raise-Good friendly
  list_device-Good (arr js) = raise-Good friendly

  mapped_device-Good :
      (a : Text) (j : Json) → IsNormal a → Good friendly (mapped_device repr friendly a j)
  unfolding mapped_device
  mapped_device-Good a (str s) h = simple_device-Good friendly a (some s) h
  mapped_device-Good a (obj fs) h = object_device-Good a fs h
  mapped_device-Good a null h = raise-Good friendly
  mapped_device-Good a (bool b) h = raise-Good friendly
  mapped_device-Good a (num n) h = raise-Good friendly
  mapped_device-Good a (arr js) h = raise-Good friendly

  parse_device_list-Loads :
      (js : Items) (ds : Dict DeviceConfig)
      → IsLoaded friendly ds
      → Loads friendly (parse_device_list repr friendly js ds)
  unfolding parse_device_list
  parse_device_list-Loads nil ds l = ok-Loads friendly ds l
  parse_device_list-Loads (cons j js) ds l =
      put-Loads friendly ds _ (parse_device_list repr friendly js) l (list_device-Good j)
        (parse_device_list-Loads js)

  parse_device_mapping-Loads :
      (fs : Fields) (ds : Dict DeviceConfig)
      → IsLoaded friendly ds
      → Loads friendly (parse_device_mapping repr friendly fs ds)
  unfolding parse_device_mapping
  parse_device_mapping-Loads end ds l = ok-Loads friendly ds l
  parse_device_mapping-Loads (field key value fs) ds l =
      put-Loads friendly ds _ (parse_device_mapping repr friendly fs) l
        (address-Good friendly key _ (λ a h. mapped_device-Good a value h))
        (parse_device_mapping-Loads fs)

  -- Whatever form the devices are written in, when they are accepted, each stands once, under its
  -- address, which is stripped, in upper case and accepted by DEVICE_RE, with numbers in bounds, a
  -- name that is shown as it is, and the fields of its type or of its profile.
  pub parse_device_config-IsLoaded :
      (raw : Json) (devices : Dict DeviceConfig)
      → parse_device_config repr friendly raw ≡ ok devices
      → IsLoaded friendly devices
  unfolding parse_device_config
  parse_device_config-IsLoaded null = ok-Loads friendly [] (none-IsLoaded friendly)
  parse_device_config-IsLoaded (str s) = parse_devices-Loads friendly (some s)
  parse_device_config-IsLoaded (arr js) = parse_device_list-Loads js [] (none-IsLoaded friendly)
  parse_device_config-IsLoaded (obj fs) = parse_device_mapping-Loads fs [] (none-IsLoaded friendly)
  parse_device_config-IsLoaded (bool b) = raise-Loads friendly
  parse_device_config-IsLoaded (num n) = raise-Loads friendly
