-- ===== src/Bridge/ReloadExamples.antt =====
-- bridge.py: a reload brings a light at A2, and the manager that does not know it drops "dim"; another
-- brings a momentary module at A1.
use mochad_mqtt_bridge.Prelude.{
  raise, discovery_error, ℕ, some, ◌+◌, ◌≡◌, refl, Bool, true, false, none, [], ◌∷◌, ltb, ◌==◌, ok,
}
use mochad_mqtt_bridge.Text.{Text, text, upper, lower, strip, strip_char, split_at, text_eq}
use mochad_mqtt_bridge.Text.Decimal.{decimal, int}
use mochad_mqtt_bridge.Topics.{parse_command_topic, topic_address}
use mochad_mqtt_bridge.Protocol.Validation.{match_unit, normalize_address}
use mochad_mqtt_bridge.Protocol.Encoder.{encode_rf_command}
use mochad_mqtt_bridge.Models.Config.{post_init, new_device_config}
use mochad_mqtt_bridge.Models.Enums.{dim, light, contains_command, command_eq}
use mochad_mqtt_bridge.Models.Runtime.{null, Time}
use mochad_mqtt_bridge.State.{device_config}
use mochad_mqtt_bridge.State.Steps.{new_state_manager-IsWellFormed}
use mochad_mqtt_bridge.Discovery.Blocks.{DiscoveryManager}
use mochad_mqtt_bridge.DiscoveryRegistry.{DiscoveryRegistry}
use mochad_mqtt_bridge.Models.Payloads.{missing}
use mochad_mqtt_bridge.Config.Values.{pos}
use mochad_mqtt_bridge.Config.Environment.{Floats, no_tls}
use mochad_mqtt_bridge.Config.File.{Config}
use mochad_mqtt_bridge.Config.Rebuilt.{plain}
use mochad_mqtt_bridge.Bridge.{Bridge}
use mochad_mqtt_bridge.Bridge.Commands.{
  MqttCommandMessage, parse_command_payload, accept_mqtt_command,
}
use mochad_mqtt_bridge.Bridge.Commands.Accepted.{accept_mqtt_command_iff}
use mochad_mqtt_bridge.Bridge.Start.{new_bridge}
use mochad_mqtt_bridge.Bridge.Inbound.{on_mqtt_command}
use mochad_mqtt_bridge.Bridge.Reload.{Watch, check_config_file_reload}
use mochad_mqtt_bridge.Models.Config.{DeviceConfig}
use mochad_mqtt_bridge.Models.Runtime.{str}
use mochad_mqtt_bridge.Models.Enums.{switch}
use mochad_mqtt_bridge.DeviceRegistry.{with_profile}
use mochad_mqtt_bridge.DeviceRegistry.Products.{um506_momentary}
use mochad_mqtt_bridge.Topics.Segments.{Free-has_char}
use mochad_mqtt_bridge.Config.Objects.{parse_device_config}
use mochad_mqtt_bridge.Config.Loaded.{IsLoaded, parse_device_config-IsLoaded}
use mochad_mqtt_bridge.Discovery.Valid.{accepted}
use mochad_mqtt_bridge.Bridge.Start.{allowed_devices}
use mochad_mqtt_bridge.Bridge.Unpublished.{reload_raises}
use mochad_mqtt_bridge.Bridge.Reloaded.{reloaded_command_dropped}

-- Numbers in place of floats.
abbrev numbers : Floats
numbers = record {
  Float = ℕ;
  float_of = λ s. none;
  at_most_zero = λ n. n == 0;
  five = 5;
  plus = ◌+◌;
  below = ltb;
}

abbrev manager : DiscoveryManager
manager = record {
  discovery_prefix = text "homeassistant";
  base_topic = text "x10";
  support_url = text "https://example.org";
  enable_maintenance_buttons = false;
  repr = λ j. [];
}

abbrev registry : DiscoveryRegistry
registry = record { file = missing; writable = true; movable = true }

abbrev writes : ℕ → Bool
writes n = true

abbrev seconds : Time → Text
seconds t = []

-- A configuration with no device, and one with a light.
abbrev old : Config ℕ
old = record {
  mochad_host = text "mochad";
  mochad_port = pos 1099;
  mqtt_host = text "mosquitto";
  mqtt_port = pos 1883;
  mqtt_username = none;
  mqtt_password = none;
  mqtt_tls = no_tls;
  mqtt_base_topic = text "x10";
  mqtt_discovery_prefix = text "homeassistant";
  log_level = text "INFO";
  config_file = none;
  config_reload_interval_seconds = 5;
  use_friendly_names = true;
  devices = [];
  discovery_cleanup = false;
  discovery_registry_path = text "registry.json";
  enable_maintenance_buttons = false;
  x10_housecodes = none;
  debug_wire = false;
}

abbrev new : Config ℕ
new = record old { devices = (text "A2", plain (text "A2") (text "Hall") light 1 150) ∷ [] }

abbrev watch : Watch ℕ
watch = record { config = old; watched = true; next_check = 0; signature = none }

abbrev dim_request : MqttCommandMessage
dim_request = record { device = text "A2"; payload = text "dim"; topic = text "x10/A2/command" }

abbrev started : Bridge
started = new_bridge old

abbrev reloaded : Bridge
reloaded =
    (check_config_file_reload numbers manager false 5 (some (9, 80)) (ok new) (started, registry)
      watch).0.0

reloaded_command_dropped_example :
    let (after, done) = on_mqtt_command writes manager seconds null 5 dim_request reloaded in
    (after.mochad ≡ reloaded.mochad)
    × (after.mqtt ≡ reloaded.mqtt)
    × (after.queued_device_commands ≡ reloaded.queued_device_commands)
    × (done ≡ ok tt)
unfolding new_bridge accept_mqtt_command parse_command_topic strip_char strip
    check_config_file_reload split_at text_eq topic_address upper match_unit parse_command_payload
    normalize_address contains_command decimal int post_init command_eq lower encode_rf_command
    device_config new_device_config
reloaded_command_dropped_example =
    reloaded_command_dropped writes numbers manager seconds null 5 false 5 (some (9, 80)) (ok new)
      started registry watch dim_request (text "A2") dim
      (new_state_manager-IsWellFormed [] true none)
      ((accept_mqtt_command_iff dim_request reloaded (text "A2") dim).0 refl) refl

-- A momentary module at A1.
abbrev door : DeviceConfig
door = with_profile um506_momentary (plain (text "A1") (text "Door") switch 1 150)

abbrev changed : Config ℕ
changed = record old { devices = (text "A1", door) ∷ [] }

abbrev connected : Bridge
connected = record started { mqtt = record started.mqtt { connected = true } }

door-IsLoaded : IsLoaded true changed.devices
unfolding parse_device_config upper
door-IsLoaded =
    parse_device_config-IsLoaded (λ j. []) true (str (text "A1:Door:um506_momentary"))
      changed.devices refl

reload_raises_example :
    check_config_file_reload numbers manager false 5
      (some (9, 80))
      (ok changed)
      (connected, registry)
      watch
    ≡ (
      (record connected { devices = changed.devices }, registry),
      record watch {
        next_check = 10;
        config = record old { devices = changed.devices; use_friendly_names = true };
      },
      raise discovery_error,
    )
unfolding new_bridge check_config_file_reload allowed_devices strip_char strip accepted
reload_raises_example =
    reload_raises numbers manager (text "x10") (text "homeassistant") false true 5 (some (9, 80))
      changed connected registry watch (refl, refl, Free-has_char b'/' (text "homeassistant") refl)
      refl refl refl door-IsLoaded refl refl refl
