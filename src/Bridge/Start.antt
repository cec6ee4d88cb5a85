-- ===== src/Bridge/Start.antt =====
-- bridge.py: the bridge that is made from a configuration, and the files that are then created.
use mochad_mqtt_bridge.Prelude.{
  Bool, true, false, ◌&&◌, Option, none, some, List, [], ◌∷◌, map, if◌then◌else◌, Result, ok, raise,
}
use mochad_mqtt_bridge.Text.{Text}
use mochad_mqtt_bridge.Text.Normal.{normal}
use mochad_mqtt_bridge.Dict.{Dict, values}
use mochad_mqtt_bridge.Topics.{has_char}
use mochad_mqtt_bridge.Models.Config.{DeviceConfig}
use mochad_mqtt_bridge.Models.Runtime.{null}
use mochad_mqtt_bridge.Models.Payloads.{MochadDiagnostics, JsonFile, missing}
use mochad_mqtt_bridge.State.Methods.{new_state_manager}
use mochad_mqtt_bridge.DiscoveryRegistry.{DiscoveryRegistry, save}
use mochad_mqtt_bridge.Config.Environment.{is_set}
use mochad_mqtt_bridge.Config.File.{Config, create_config_file_if_missing}
use mochad_mqtt_bridge.Bridge.{Bridge}

-- `MochadDiagnostics()`
abbrev pub new_diagnostics : MochadDiagnostics
new_diagnostics = record {
  daemon = null;
  version = null;
  upstream_base = null;
  diagnostics = null;
  json = null;
  single_line = null;
  raw_data = null;
  commands = [];
  legacy_commands = [];
  uptime_seconds = null;
  usb_connected = null;
  controller = null;
  endpoints_ready = null;
  transfers_ready = null;
  clients_total = null;
  listeners = null;
  last_updated = null;
}

abbrev first_in : Text → Text → Bool
first_in codes [] = false
first_in codes (c ∷ address) = has_char c codes

-- `_address_allowed_by_config`, with `config.x10_housecodes`
unfoldable pub address_allowed_by_config : Option Text → Text → Bool
unfolding has_char
address_allowed_by_config none address = true
address_allowed_by_config (some codes) address = first_in codes (normal address)

-- the devices of the dict with an address that is allowed
unfoldable pub allowed_devices : Option Text → Dict DeviceConfig → Dict DeviceConfig
unfolding address_allowed_by_config
allowed_devices codes [] = []
allowed_devices codes ((address, device) ∷ devices) =
    let rest = allowed_devices codes devices in
    if address_allowed_by_config codes address then (address, device) ∷ rest else rest

-- a set of house codes, as the manager takes it
abbrev pub housecode_texts : Option Text → Option (List Text)
housecode_texts none = none
housecode_texts (some codes) = some (map (λ c. c ∷ []) codes)

-- `Bridge.__init__`; its clients are new, and neither is connected. `optimistic_updates` of a
-- configuration that was loaded is true.
unfoldable pub new_bridge : {Float : Type 0} → Config Float → Bridge
unfolding allowed_devices new_state_manager values
new_bridge config =
    let devices = allowed_devices config.x10_housecodes config.devices in
    record {
      devices = devices;
      state = new_state_manager (values devices) true (housecode_texts config.x10_housecodes);
      tls = record {
        enabled = config.mqtt_tls.enabled;
        custom_ca = is_set config.mqtt_tls.ca_file;
        client_certificate = is_set config.mqtt_tls.cert_file && is_set config.mqtt_tls.key_file;
      };
      mqtt = record { connected = false; base_topic = config.mqtt_base_topic; published = [] };
      mochad = record { connected = false; attempts = 0; sent = [] };
      mochad_diagnostics = new_diagnostics;
      dropped_mqtt_publishes = 0;
      queued_device_commands = [];
      dropped_device_commands = 0;
    }

-- `create_if_missing` of the registry
unfoldable pub create_registry_at : JsonFile → DiscoveryRegistry → DiscoveryRegistry × Result Bool
unfolding save
create_registry_at missing r =
    let (r, saved) = save [] r in (r, elim saved [ ok _ ↦ ok true | raise e ↦ raise e ])
create_registry_at file r = (r, ok false)

unfoldable pub create_if_missing : DiscoveryRegistry → DiscoveryRegistry × Result Bool
unfolding create_registry_at
create_if_missing r = create_registry_at r.file r

-- `_ensure_runtime_config_files`, on the configuration's file and the registry; it catches both
-- errors. `writable` tells whether the configuration's file can be written.
unfoldable pub ensure_runtime_config_files :
    {Float : Type 0}
    → Bool
    → Config Float
    → JsonFile
    → DiscoveryRegistry
    → JsonFile × DiscoveryRegistry
unfolding create_config_file_if_missing create_if_missing
ensure_runtime_config_files writable config file r = (
  (create_config_file_if_missing writable config file).0,
  elim config.config_file [ none ↦ r | some path ↦ (create_if_missing r).0 ],
)
