-- ===== src/Models/Equal.antt =====
-- models.py: `==` on the configurations of devices. A `frozenset` is compared as the list of its
-- members, which is the same list for devices of one type or one profile.
use native.Mathlib.Decide.{ℕ_discrete}
use mochad_mqtt_bridge.Models.Config.{DeviceConfig}

pub DeviceConfig-discrete : Discrete DeviceConfig
DeviceConfig-discrete = hlevel ℕ_discrete
