-- ===== src/Bridge/Outbound.antt =====
-- bridge.py: sending device commands, and the queue where they wait.
use mochad_mqtt_bridge.Prelude.{
  ℕ, zero, suc, ◌+◌, Bool, true, false, not, Option, none, some, List, [], ◌∷◌, ◌++◌, leb,
  if◌then◌else◌, length, Exception, connection_error, os_error, Result, ok, raise,
}
use mochad_mqtt_bridge.Text.{Text, text}
use mochad_mqtt_bridge.Text.Normal.{normal}
use mochad_mqtt_bridge.Dict.{lookup, insert}
use mochad_mqtt_bridge.Models.Enums.{Command, on, off, contains_command}
use mochad_mqtt_bridge.Models.Config.{DeviceConfig, new_device_config}
use mochad_mqtt_bridge.Models.Runtime.{Json, bool}
use mochad_mqtt_bridge.Protocol.Encoder.{encode_rf_command}
use mochad_mqtt_bridge.Mochad.{MochadClient, send_line}
use mochad_mqtt_bridge.Bridge.{DeviceCommand, Bridge, Effect, publish_status_if_connected}

abbrev pub max_queued_device_commands : ℕ
max_queued_device_commands = 100

abbrev pub repeatable_commands : List Command
repeatable_commands = on ∷ off ∷ []

unfoldable pub found_or_default : Text → Option DeviceConfig → Bridge → Bridge × DeviceConfig
found_or_default address (some device) b = (b, device)
found_or_default address none b =
    let device = new_device_config address address in
    (record b { devices = insert address device b.devices }, device)

-- `_device_config`, which adds a device that is not known
unfoldable pub bridge_device_config : Text → Bridge → Bridge × DeviceConfig
unfolding found_or_default
bridge_device_config address b =
    found_or_default (normal address) (lookup (normal address) b.devices) b

-- the loop of `_send_device_command`; the pauses are not modelled
unfoldable pub send_repeated :
    (ℕ → Bool) → ℕ → Text → MochadClient → MochadClient × Result (Unit {0})
send_repeated socket zero line m = (m, ok tt)
send_repeated socket (suc n) line m =
    let (m, sent) = send_line socket line m in
    elim sent [ ok _ ↦ send_repeated socket n line m | raise e ↦ (m, raise e) ]

unfoldable pub repeats : Command → DeviceConfig → ℕ
repeats command device =
    if contains_command command repeatable_commands then device.command_repeats else 1

-- `_send_device_command`, once the line is encoded
unfoldable pub transmit : (ℕ → Bool) → ℕ → Result Text → Bridge → Effect
unfolding send_repeated
transmit socket n (raise e) b = (b, raise e)
transmit socket n (ok line) b =
    let (mochad, sent) = send_repeated socket n line b.mochad in
    (record b { mochad = mochad }, sent)

unfoldable pub send_device_command_now : (ℕ → Bool) → DeviceCommand → Bridge → Effect
unfolding transmit bridge_device_config repeats
send_device_command_now socket (address, command) b =
    let (b, device) = bridge_device_config address b in
    transmit socket (repeats command device) (encode_rf_command address command) b

-- `value is False`
unfoldable pub is_false : Json → Bool
is_false (bool false) = true
is_false _ = false

-- `_device_command_queue_reason`
unfoldable pub device_command_queue_reason : Bridge → Option Text
unfolding is_false
device_command_queue_reason b =
    if not b.mochad.connected
    then some (text "mochad disconnected")
    else if is_false b.mochad_diagnostics.usb_connected
    then some (text "mochad USB disconnected")
    else if is_false b.mochad_diagnostics.endpoints_ready
    then some (text "mochad USB endpoints not ready")
    else if is_false b.mochad_diagnostics.transfers_ready
    then some (text "mochad USB transfers not ready")
    else none

-- What `popleft` leaves.
abbrev pub tail {ℓ} : {A : Type ℓ} → List A → List A
tail [] = []
tail (x ∷ xs) = xs

-- `if len(queue) >= MAX: queue.popleft()`
unfoldable pub drop_oldest : Bridge → Bridge
drop_oldest b =
    if leb max_queued_device_commands (length b.queued_device_commands)
    then record b {
      queued_device_commands = tail b.queued_device_commands;
      dropped_device_commands = b.dropped_device_commands + 1;
    }
    else b

-- `_queue_device_command`
unfoldable pub queue_device_command : DeviceCommand → Bridge → Effect
unfolding drop_oldest publish_status_if_connected
queue_device_command action b =
    let b = drop_oldest b in
    publish_status_if_connected
      (record b { queued_device_commands = b.queued_device_commands ++ action ∷ [] })

-- `except (ConnectionError, OSError)`
unfoldable pub is_transport_error : Exception → Bool
is_transport_error connection_error = true
is_transport_error os_error = true
is_transport_error _ = false

-- the rest of a round of the loop of `_flush_queued_device_commands`, after the attempt to send
unfoldable pub flush_next :
    DeviceCommand → (Bridge → Bridge × Result Bool) → Effect → Bridge × Result Bool
unfolding is_transport_error
flush_next action loop (b, ok _) = loop b
flush_next action loop (b, raise e) =
    if is_transport_error e
    then (record b { queued_device_commands = action ∷ b.queued_device_commands }, ok false)
    else (b, raise e)

-- the loop of `_flush_queued_device_commands` on the queue; whether it ran to its end
unfoldable pub flush_loop : (ℕ → Bool) → List DeviceCommand → Bridge → Bridge × Result Bool
unfolding send_device_command_now flush_next
flush_loop socket [] b = (b, ok true)
flush_loop socket (action ∷ rest) b =
    flush_next action (flush_loop socket rest)
      (send_device_command_now socket action (record b { queued_device_commands = rest }))

unfoldable pub after_flush : Bridge × Result Bool → Effect
unfolding publish_status_if_connected
after_flush (b, ok true) = publish_status_if_connected b
after_flush (b, ok false) = (b, ok tt)
after_flush (b, raise e) = (b, raise e)

abbrev pub is_empty {ℓ} : {A : Type ℓ} → List A → Bool
is_empty [] = true
is_empty (x ∷ xs) = false

abbrev pub is_given {ℓ} : {A : Type ℓ} → Option A → Bool
is_given none = false
is_given (some a) = true

-- `_flush_queued_device_commands`
unfoldable pub flush_queued_device_commands : (ℕ → Bool) → Bridge → Effect
unfolding after_flush flush_loop device_command_queue_reason
flush_queued_device_commands socket b =
    if is_empty b.queued_device_commands
    then (b, ok tt)
    else if is_given (device_command_queue_reason b)
    then (b, ok tt)
    else after_flush (flush_loop socket b.queued_device_commands b)
