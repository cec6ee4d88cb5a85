-- ===== src/Config/Sorted.antt =====
-- config.py: the devices in the order of their addresses are the same devices.
use mochad_mqtt_bridge.Prelude.{
  ◌≡◌, refl, false, some, List, [], ◌∷◌, arith, Bool-cases, inl, inr, if◌then◌else◌, All,
}
use mochad_mqtt_bridge.Text.{Text, text_eq, text_eq_iff}
use mochad_mqtt_bridge.Dict.{Dict, lookup}
use mochad_mqtt_bridge.Dict.Keys.{Fresh, HasDistinctKeys}
use mochad_mqtt_bridge.Models.Config.{DeviceConfig}
use mochad_mqtt_bridge.DiscoveryRegistry.{text_le}
use mochad_mqtt_bridge.Config.File.{insert_device, sort_devices}

-- The devices, each under its address.
abbrev pub keyed : List DeviceConfig → Dict DeviceConfig
keyed [] = []
keyed (d ∷ ds) = (d.address, d) ∷ keyed ds

text_eq_flip : (s t : Text) → text_eq s t ≡ false → text_eq t s ≡ false
text_eq_flip s t h = ground (arith, text_eq_iff s t, text_eq_iff t s)

module _ (k : Text) where
  Fresh-insert_device :
      (d : DeviceConfig) (ds : List DeviceConfig)
      → text_eq d.address k ≡ false
      → Fresh k (keyed ds)
      → Fresh k (keyed (insert_device d ds))
  unfolding insert_device
  Fresh-insert_device d [] h f = (h, tt)
  Fresh-insert_device d (e ∷ es) h f = elim (Bool-cases (text_le d.address e.address)) [
    | inl le ↦ rw le (h, f)
    | inr gt ↦ rw gt (f.0, Fresh-insert_device d es h f.1)
  ]

  lookup-insert_device :
      (d : DeviceConfig) (ds : List DeviceConfig)
      → Fresh d.address (keyed ds)
      → lookup k (keyed (insert_device d ds))
        ≡ (if text_eq d.address k then some d else lookup k (keyed ds))
  unfolding insert_device lookup
  lookup-insert_device d [] f = refl
  lookup-insert_device d (e ∷ es) f = elim (Bool-cases (text_le d.address e.address)) [
    | inl le ↦ rw le refl
    | inr gt ↦
        rw (gt, lookup-insert_device d es f.1)
          (ground (
            arith,
            f.0,
            text_eq_iff e.address k,
            text_eq_iff d.address k,
            text_eq_iff e.address d.address,
          ))
  ]

  Fresh-sort_devices :
      (ds : List DeviceConfig) → Fresh k (keyed ds) → Fresh k (keyed (sort_devices ds))
  unfolding sort_devices
  Fresh-sort_devices [] f = tt
  Fresh-sort_devices (d ∷ ds) f =
      Fresh-insert_device d (sort_devices ds) f.0 (Fresh-sort_devices ds f.1)

insert_device-HasDistinctKeys :
    (d : DeviceConfig) (ds : List DeviceConfig)
    → Fresh d.address (keyed ds)
    → HasDistinctKeys (keyed ds)
    → HasDistinctKeys (keyed (insert_device d ds))
unfolding insert_device
insert_device-HasDistinctKeys d [] f h = (tt, tt)
insert_device-HasDistinctKeys d (e ∷ es) f h = elim (Bool-cases (text_le d.address e.address)) [
  | inl le ↦ rw le (f, h)
  | inr gt ↦ rw gt (
    Fresh-insert_device e.address d es (text_eq_flip _ _ f.0) h.0,
    insert_device-HasDistinctKeys d es f.1 h.1,
  )
]

pub sort_devices-HasDistinctKeys :
    (ds : List DeviceConfig)
    → HasDistinctKeys (keyed ds)
    → HasDistinctKeys (keyed (sort_devices ds))
unfolding sort_devices
sort_devices-HasDistinctKeys [] h = tt
sort_devices-HasDistinctKeys (d ∷ ds) h =
    insert_device-HasDistinctKeys d (sort_devices ds) (Fresh-sort_devices d.address ds h.0)
      (sort_devices-HasDistinctKeys ds h.1)

pub lookup-sort_devices :
    (k : Text) (ds : List DeviceConfig)
    → HasDistinctKeys (keyed ds)
    → lookup k (keyed (sort_devices ds)) ≡ lookup k (keyed ds)
unfolding sort_devices lookup
lookup-sort_devices k [] h = refl
lookup-sort_devices k (d ∷ ds) h =
    rw
      (
        lookup-insert_device k d (sort_devices ds) (Fresh-sort_devices d.address ds h.0),
        lookup-sort_devices k ds h.1,
      )
      refl

-- What all devices satisfy, all sorted devices do.
module _ {ℓ} (P : DeviceConfig → Type ℓ) where
  All-insert_device :
      (d : DeviceConfig) (ds : List DeviceConfig) → P d → All P ds → All P (insert_device d ds)
  unfolding insert_device
  All-insert_device d [] p h = (p, tt)
  All-insert_device d (e ∷ es) p h = elim (Bool-cases (text_le d.address e.address)) [
    | inl le ↦ rw le (p, h)
    | inr gt ↦ rw gt (h.0, All-insert_device d es p h.1)
  ]

  pub All-sort_devices : (ds : List DeviceConfig) → All P ds → All P (sort_devices ds)
  unfolding sort_devices
  All-sort_devices [] h = tt
  All-sort_devices (d ∷ ds) h = All-insert_device d (sort_devices ds) h.0 (All-sort_devices ds h.1)
