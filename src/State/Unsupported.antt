-- ===== src/State/Unsupported.antt =====
-- state.py: a command that the manager's own configuration of the device does not support.
use mochad_mqtt_bridge.Prelude.{
  ◌≡◌, refl, ap, ◌∙◌, Option, none, some, Bool-cases, inl, inr, false, [],
}
use mochad_mqtt_bridge.Text.{Text}
use mochad_mqtt_bridge.Text.Normal.{normal, normal_idem}
use mochad_mqtt_bridge.Dict.{lookup}
use mochad_mqtt_bridge.Models.Enums.{Command, contains_command}
use mochad_mqtt_bridge.Models.Config.{DeviceConfig}
use mochad_mqtt_bridge.Models.Runtime.{Time, DeviceState}
use mochad_mqtt_bridge.State.{
  StateManager, found_or_new, ensure_device, device_config, address_allowed,
}
use mochad_mqtt_bridge.State.WellFormed.{IsWellFormed, ensure_device-IsWellFormed}
use mochad_mqtt_bridge.State.Connections.{request_command, optimistic_update}

device_configs-found_or_new :
    (m : StateManager) (key : Text) (o : Option DeviceState)
    → (found_or_new m key o).0.device_configs ≡ m.device_configs
unfolding found_or_new
device_configs-found_or_new m key none = refl
device_configs-found_or_new m key (some s) = refl

device_config-ensure_device :
    (m : StateManager) (a : Text)
    → device_config (ensure_device m a).0 (normal a) ≡ device_config m a
unfolding device_config ensure_device
device_config-ensure_device m a =
    rw (device_configs-found_or_new m (normal a) (lookup (normal a) m.devices), normal_idem a) refl

request_command-unsupported :
    (a : Text) (c : Command) (now : Time) (m : StateManager) (s : DeviceState)
    → contains_command c (device_config m s.address).supported_commands ≡ false
    → (request_command a c now m s).1 ≡ []
unfolding request_command
request_command-unsupported a c now m s h = rw h refl

-- It gives no action.
pub optimistic_update-unsupported :
    (a : Text) (c : Command) (now : Time) (m : StateManager)
    → IsWellFormed m
    → contains_command c (device_config m a).supported_commands ≡ false
    → (optimistic_update a c now m).1 ≡ []
unfolding optimistic_update
optimistic_update-unsupported a c now m w h = elim (Bool-cases (address_allowed m a)) [
  | inl allowed ↦
      let (_, address, _) = ensure_device-IsWellFormed m a w allowed in
      rw allowed (
        request_command-unsupported a c now (ensure_device m a).0 (ensure_device m a).1 (
          ap (λ k. contains_command c (device_config (ensure_device m a).0 k).supported_commands)
            address
          ∙ ap (λ (d : DeviceConfig). contains_command c d.supported_commands)
              (device_config-ensure_device m a)
          ∙ h))
  | inr other ↦ rw other refl
]
