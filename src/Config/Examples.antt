-- ===== src/Config/Examples.antt =====
-- config.py: the theorems at an environment with two devices.
use mochad_mqtt_bridge.Prelude.{
  ℕ, ◌+◌, ◌≡◌, refl, true, false, none, some, [], ◌∷◌, ltb, ◌==◌, if◌then◌else◌, ok, ◌↔◌, ◌⊎◌,
}
use mochad_mqtt_bridge.Text.{Text, text, text_eq, upper}
use mochad_mqtt_bridge.Dict.{Dict, lookup}
use mochad_mqtt_bridge.Models.Enums.{light, switch}
use mochad_mqtt_bridge.Models.Config.{DeviceConfig}
use mochad_mqtt_bridge.Models.Runtime.{Json, str}
use mochad_mqtt_bridge.Models.Payloads.{missing}
use mochad_mqtt_bridge.Config.Values.{pos}
use mochad_mqtt_bridge.Config.Environment.{Environment, Floats, MqttTlsConfig, no_tls, check_tls}
use mochad_mqtt_bridge.Config.Objects.{parse_device_config}
use mochad_mqtt_bridge.Config.File.{Config, create_config_file_if_missing}
use mochad_mqtt_bridge.Config.Load.{Before, After, config_with, load_config}
use mochad_mqtt_bridge.Config.Tls.{IsBare, IsUsable, check_tls_iff}
use mochad_mqtt_bridge.Config.Rebuilt.{plain}
use mochad_mqtt_bridge.Config.Loaded.{IsLoaded, parse_device_config-IsLoaded}
use mochad_mqtt_bridge.Config.Restart.{by_address, load_config-created}

-- Numbers in place of floats.
abbrev numbers : Floats
numbers = record {
  Float = ℕ;
  float_of = λ s. none;
  at_most_zero = λ n. n == 0;
  five = 5;
  plus = ◌+◌;
  below = ltb;
}

abbrev raw : Text
raw = text "b3: Hall :light:2:200, a1"

abbrev environment : Environment
environment = record {
  getenv = λ name. if text_eq name (text "X10_DEVICES") then some raw else none;
  read_text = λ path. ok [];
  read_json = λ path. missing;
}

abbrev shown : Json → Text
shown j = []

abbrev devices : Dict DeviceConfig
devices =
    (text "B3", plain (text "B3") (text "Hall") light 2 200)
    ∷ (text "A1", plain (text "A1") (text "A1") switch 1 150)
    ∷ []

abbrev before : Before ℕ
before = record {
  mochad_port = pos 1099;
  mqtt_port = pos 1883;
  mqtt_password = none;
  mqtt_tls = no_tls;
  interval = 5;
}

abbrev after : After
after = record { cleanup = false; buttons = false; housecodes = none; debug_wire = false }

abbrev config : Config ℕ
config = config_with numbers environment (text "/config/bridge.json") true before devices after

load_config-created_example :
    (load_config shown numbers (record environment {
      read_json = λ path. (create_config_file_if_missing true config missing).0;
    })
      ≡ ok (by_address config))
    × ((k : Text) → lookup k (by_address config).devices ≡ lookup k config.devices)
unfolding load_config upper
load_config-created_example = load_config-created shown numbers environment config refl refl

parse_device_config-IsLoaded_example : IsLoaded true devices
unfolding parse_device_config upper
parse_device_config-IsLoaded_example =
    parse_device_config-IsLoaded shown true (str raw) devices refl

-- a certificate with its key
abbrev client_certificate : MqttTlsConfig
client_certificate = record {
  enabled = true;
  ca_file = none;
  cert_file = some (text "client.crt");
  key_file = some (text "client.key");
  key_password = none;
}

check_tls_iff_example : (check_tls client_certificate ≡ ok client_certificate) ↔ (
    ((client_certificate.enabled ≡ false)
      × IsBare client_certificate
      × (client_certificate ≡ no_tls))
    ⊎ (IsUsable client_certificate × (client_certificate ≡ client_certificate)))
check_tls_iff_example = check_tls_iff client_certificate client_certificate
