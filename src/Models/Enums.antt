-- ===== src/Models/Enums.antt =====
-- models.py: the enumerations. `auto()` numbers the members from 1, and members are compared by
-- identity, that is by their number.
use mochad_mqtt_bridge.Prelude.{
  ℕ, ◌≡◌, refl, sym, ap, ◌∙◌, ◌↔◌, Bool, true, false, ◌||◌, List, [], ◌∷◌, ◌==◌, if◌then◌else◌,
  ==_iff,
}
use mochad_mqtt_bridge.Text.{Text, text}

pub data Direction : Type 0 where
  rx tx : Direction

pub data Transport : Type 0 where
  rf pl rfsec rfcam unknown : Transport

pub data Command : Type 0 where
  on off dim bright all_lights_on all_lights_off all_units_off : Command
  status_request status_on status_off unknown : Command

pub data DeviceType : Type 0 where
  switch light chime : DeviceType

pub data DeviceCapability : Type 0 where
  action on_off dim status all_lights all_units : DeviceCapability

pub data OperationMode : Type 0 where
  continuous momentary action sensor alarm_sequence : OperationMode

pub data ChannelKind : Type 0 where
  motion dusk_dawn sensor floodlight internal_outlet grouped_address security_rf : ChannelKind

pub data RfIdentity : Type 0 where
  standard security : RfIdentity

pub data BridgeCommand : Type 0 where
  status sync rediscover prune_discovery reset_discovery ping : BridgeCommand

abbrev pub command_value : Command → ℕ
command_value on = 1
command_value off = 2
command_value dim = 3
command_value bright = 4
command_value all_lights_on = 5
command_value all_lights_off = 6
command_value all_units_off = 7
command_value status_request = 8
command_value status_on = 9
command_value status_off = 10
command_value unknown = 11

of_value : ℕ → Command
of_value n =
    if n == 1
    then on
    else if n == 2
    then off
    else if n == 3
    then dim
    else if n == 4
    then bright
    else if n == 5
    then all_lights_on
    else if n == 6
    then all_lights_off
    else if n == 7
    then all_units_off
    else if n == 8
    then status_request
    else if n == 9
    then status_on
    else if n == 10
    then status_off
    else unknown

of_value-command_value : (c : Command) → of_value (command_value c) ≡ c
unfolding of_value
of_value-command_value on = refl
of_value-command_value off = refl
of_value-command_value dim = refl
of_value-command_value bright = refl
of_value-command_value all_lights_on = refl
of_value-command_value all_lights_off = refl
of_value-command_value all_units_off = refl
of_value-command_value status_request = refl
of_value-command_value status_on = refl
of_value-command_value status_off = refl
of_value-command_value unknown = refl

unfoldable pub command_eq : Command → Command → Bool
command_eq a b = command_value a == command_value b

pub command_eq_iff : (a b : Command) → (command_eq a b ≡ true) ↔ (a ≡ b)
unfolding command_eq
command_eq_iff a b = (
  λ h. sym (of_value-command_value a) ∙ ap of_value ((==_iff _ _).0 h) ∙ of_value-command_value b,
  λ e. (==_iff _ _).1 (ap command_value e),
)

-- `c in {…}`
unfoldable pub contains_command : Command → List Command → Bool
contains_command c [] = false
contains_command c (d ∷ ds) = command_eq d c || contains_command c ds

-- `command.name`
unfoldable pub command_name : Command → Text
command_name on = text "ON"
command_name off = text "OFF"
command_name dim = text "DIM"
command_name bright = text "BRIGHT"
command_name all_lights_on = text "ALL_LIGHTS_ON"
command_name all_lights_off = text "ALL_LIGHTS_OFF"
command_name all_units_off = text "ALL_UNITS_OFF"
command_name status_request = text "STATUS_REQUEST"
command_name status_on = text "STATUS_ON"
command_name status_off = text "STATUS_OFF"
command_name unknown = text "UNKNOWN"

unfoldable pub direction_name : Direction → Text
direction_name rx = text "RX"
direction_name tx = text "TX"

unfoldable pub transport_name : Transport → Text
transport_name rf = text "RF"
transport_name pl = text "PL"
transport_name rfsec = text "RFSEC"
transport_name rfcam = text "RFCAM"
transport_name unknown = text "UNKNOWN"

unfoldable pub bridge_command_name : BridgeCommand → Text
bridge_command_name status = text "STATUS"
bridge_command_name sync = text "SYNC"
bridge_command_name rediscover = text "REDISCOVER"
bridge_command_name prune_discovery = text "PRUNE_DISCOVERY"
bridge_command_name reset_discovery = text "RESET_DISCOVERY"
bridge_command_name ping = text "PING"
