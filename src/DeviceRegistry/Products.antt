-- ===== src/DeviceRegistry/Products.antt =====
-- device_registry.py: DEVICE_PROFILES.
use mochad_mqtt_bridge.Prelude.{true, false, [], ◌∷◌}
use mochad_mqtt_bridge.Text.{text}
use mochad_mqtt_bridge.Dict.{Dict}
use mochad_mqtt_bridge.Models.Enums.{
  Command, DeviceCapability, DeviceType, OperationMode, ChannelKind,
}
use mochad_mqtt_bridge.DeviceRegistry.Profiles.{
  DeviceProfile, profile, channel, sequence, on_off, on_only, light_commands,
}

abbrev pub generic_switch : DeviceProfile
generic_switch =
    profile (text "generic_switch") (text "Generic X10 switch or appliance module")
      (text "Stateful ON/OFF device with no All Lights response.") DeviceType.switch
      (DeviceCapability.on_off ∷ []) (on_off) true

abbrev pub generic_light : DeviceProfile
generic_light =
    record (profile (text "generic_light") (text "Generic X10 light module")
      (text "Stateful dimmable light responding to All Lights commands.") DeviceType.light
      (DeviceCapability.on_off ∷ DeviceCapability.dim ∷ []) (light_commands) true) {
        all_lights_on_response = true;
        all_lights_off_response = true;
      }

abbrev pub lm15a_socket_rocket : DeviceProfile
lm15a_socket_rocket =
    record (profile (text "lm15a_socket_rocket") (text "LM15A Socket Rocket")
      (text "Learned-address lamp socket; ON/OFF only, no dimming.") DeviceType.light
      (DeviceCapability.on_off ∷ []) (on_off) true) {
        all_lights_on_response = true;
        all_lights_off_response = true;
        all_units_off_response = true;
        learned_addressing = true;
      }

abbrev pub um506_momentary : DeviceProfile
um506_momentary =
    record (profile (text "um506_momentary") (text "UM506 Universal Module, momentary mode")
      (text "Momentary contact closure; ON is an action, not state.") DeviceType.switch
      (DeviceCapability.action ∷ []) (on_only) false) {
        repeatable_actions = on_only;
        all_units_off_response = true;
        operation_mode = OperationMode.momentary;
      }

abbrev pub um506_continuous : DeviceProfile
um506_continuous =
    record (profile (text "um506_continuous") (text "UM506 Universal Module, continuous mode")
      (text "Continuous contact closure controlled by ON/OFF.") DeviceType.switch
      (DeviceCapability.on_off ∷ []) (on_off) true) {
        all_lights_on_response = false;
        all_units_off_response = true;
        operation_mode = OperationMode.continuous;
      }

abbrev pub sc546a_chime : DeviceProfile
sc546a_chime =
    record (profile (text "sc546a_chime") (text "SC546A Remote Chime")
      (text "Action-only chime; ON triggers sound and no state is retained.") DeviceType.chime
      (DeviceCapability.action ∷ []) (on_only) false) {
        repeatable_actions = on_only;
        all_units_off_response = false;
        operation_mode = OperationMode.action;
      }

abbrev pub ms13a_motion : DeviceProfile
ms13a_motion =
    record (profile (text "ms13a_motion") (text "MS13A EagleEye Motion Sensor")
      (text "Standard RF motion address plus base+1 dusk/dawn channel.") DeviceType.switch
      (DeviceCapability.on_off ∷ []) (on_off) true) {
        secondary_channels =
            channel ChannelKind.motion 0 (text "motion on/off") true
            ∷ channel ChannelKind.dusk_dawn 1 (text "dusk/dawn on/off") true
            ∷ [];
        operation_mode = OperationMode.sensor;
      }

abbrev pub ms14a_motion : DeviceProfile
ms14a_motion =
    record (profile (text "ms14a_motion") (text "MS14A Motion Sensor")
      (text "Standard RF motion address plus base+1 dusk/dawn channel.") DeviceType.switch
      (DeviceCapability.on_off ∷ []) (on_off) true) {
        secondary_channels =
            channel ChannelKind.motion 0 (text "motion on/off") true
            ∷ channel ChannelKind.dusk_dawn 1 (text "dusk/dawn on/off") true
            ∷ [];
        operation_mode = OperationMode.sensor;
      }

abbrev pub ms16a_activeeye : DeviceProfile
ms16a_activeeye =
    record (profile (text "ms16a_activeeye") (text "MS16A ActiveEye Motion Sensor")
      (text "Standard RF motion address with optional base+1 dusk/dawn channel.") DeviceType.switch
      (DeviceCapability.on_off ∷ []) (on_off) true) {
        secondary_channels =
            channel ChannelKind.motion 0 (text "motion on/off") true
            ∷ channel ChannelKind.dusk_dawn 1 (text "dusk/dawn on/off, controlled by sensor option")
                false
            ∷ [];
        operation_mode = OperationMode.sensor;
      }

abbrev pub pr511_motion_monitor : DeviceProfile
pr511_motion_monitor =
    record (profile (text "pr511_motion_monitor") (text "PR511 Motion Monitor")
      (text "Floodlight with sensor channels at +1..+4 and dusk channels at +5..+8.")
      DeviceType.light (DeviceCapability.on_off ∷ []) (on_off) true) {
        secondary_channels =
            channel ChannelKind.floodlight 0 (text "local floodlight") true
            ∷ channel ChannelKind.sensor 1 (text "sensor 1") true
            ∷ channel ChannelKind.sensor 2 (text "sensor 2") true
            ∷ channel ChannelKind.sensor 3 (text "sensor 3") true
            ∷ channel ChannelKind.sensor 4 (text "sensor 4") true
            ∷ channel ChannelKind.dusk_dawn 5 (text "dusk 1") true
            ∷ channel ChannelKind.dusk_dawn 6 (text "dusk 2") true
            ∷ channel ChannelKind.dusk_dawn 7 (text "dusk 3") true
            ∷ channel ChannelKind.dusk_dawn 8 (text "dusk 4") true
            ∷ [];
      }

abbrev pub powerflash_mode_1 : DeviceProfile
powerflash_mode_1 =
    record (profile (text "powerflash_mode_1") (text "PowerFlash PF284/PSC01 mode 1")
      (text "Compound alarm mode using same-address and same-house responses.") DeviceType.switch
      (DeviceCapability.on_off ∷ DeviceCapability.all_lights ∷ []) (on_off) true) {
        command_sequences =
            sequence (text "alarm_on") (Command.all_lights_on ∷ Command.on ∷ [])
            ∷ sequence (text "alarm_reset") (Command.off ∷ [])
            ∷ [];
        operation_mode = OperationMode.alarm_sequence;
      }

abbrev pub powerflash_mode_2 : DeviceProfile
powerflash_mode_2 =
    record (profile (text "powerflash_mode_2") (text "PowerFlash PF284/PSC01 mode 2")
      (text "Compound flashing alarm mode; reset leaves lights on.") DeviceType.switch
      (DeviceCapability.all_lights ∷ []) (on_off) false) {
        repeatable_actions = on_off;
        command_sequences =
            sequence (text "flash_alarm") (Command.all_lights_on ∷ Command.all_lights_off ∷ [])
            ∷ [];
        operation_mode = OperationMode.alarm_sequence;
      }

abbrev pub powerflash_mode_3 : DeviceProfile
powerflash_mode_3 =
    profile (text "powerflash_mode_3") (text "PowerFlash PF284/PSC01 mode 3")
      (text "Same-address ON/OFF mode.") DeviceType.switch (DeviceCapability.on_off ∷ []) (on_off)
      true

abbrev pub powerhorn : DeviceProfile
powerhorn =
    record (profile (text "powerhorn") (text "PowerHorn SH10A/PH508")
      (text "Siren triggered by repeated ON/OFF or All Lights/All Units sequences.")
      DeviceType.chime (DeviceCapability.action ∷ DeviceCapability.all_lights ∷ [])
      (Command.on ∷ Command.off ∷ Command.dim ∷ Command.bright ∷ Command.all_lights_on
        ∷ Command.all_units_off ∷ [])
      false) {
        repeatable_actions = Command.on ∷ Command.off ∷ [];
        command_sequences =
            sequence (text "unit_alarm") (Command.on ∷ Command.off ∷ Command.on ∷ [])
            ∷ sequence (text "house_alarm") (Command.all_lights_on ∷ Command.all_units_off ∷ [])
            ∷ sequence (text "ding_dong") (Command.dim ∷ Command.bright ∷ [])
            ∷ [];
        all_units_off_response = false;
        operation_mode = OperationMode.alarm_sequence;
      }

abbrev pub rr501_unit_1 : DeviceProfile
rr501_unit_1 =
    record (profile (text "rr501_unit_1") (text "RR501 Transceiver internal outlet, Unit 1")
      (text "Selectable internal outlet responds to unit 1 ON/OFF.") DeviceType.switch
      (DeviceCapability.on_off ∷ []) (on_off) true) {
        secondary_channels =
            channel ChannelKind.internal_outlet 0 (text "selected unit 1") true ∷ [];
        exclusive_groups = text "rr501_internal_outlet" ∷ [];
      }

abbrev pub rr501_unit_9 : DeviceProfile
rr501_unit_9 =
    record (profile (text "rr501_unit_9") (text "RR501 Transceiver internal outlet, Unit 9")
      (text "Selectable internal outlet responds to unit 9 ON/OFF.") DeviceType.switch
      (DeviceCapability.on_off ∷ []) (on_off) true) {
        secondary_channels =
            channel ChannelKind.internal_outlet 8 (text "selected unit 9") true ∷ [];
        exclusive_groups = text "rr501_internal_outlet" ∷ [];
      }

abbrev pub grouped_address_function : DeviceProfile
grouped_address_function =
    record (profile (text "grouped_address_function") (text "Grouped X10 address/function sequence")
      (text "Multiple accumulated addresses followed by one function.") DeviceType.switch
      (DeviceCapability.on_off ∷ []) (on_off) true) {
        secondary_channels =
            channel ChannelKind.grouped_address 0
              (text "function applies to accumulated address set") true
            ∷ [];
      }

abbrev pub device_profiles : Dict DeviceProfile
device_profiles =
    (text "generic_switch", generic_switch)
    ∷ (text "generic_light", generic_light)
    ∷ (text "lm15a_socket_rocket", lm15a_socket_rocket)
    ∷ (text "um506_momentary", um506_momentary)
    ∷ (text "um506_continuous", um506_continuous)
    ∷ (text "sc546a_chime", sc546a_chime)
    ∷ (text "ms13a_motion", ms13a_motion)
    ∷ (text "ms14a_motion", ms14a_motion)
    ∷ (text "ms16a_activeeye", ms16a_activeeye)
    ∷ (text "pr511_motion_monitor", pr511_motion_monitor)
    ∷ (text "powerflash_mode_1", powerflash_mode_1)
    ∷ (text "powerflash_mode_2", powerflash_mode_2)
    ∷ (text "powerflash_mode_3", powerflash_mode_3)
    ∷ (text "powerhorn", powerhorn)
    ∷ (text "rr501_unit_1", rr501_unit_1)
    ∷ (text "rr501_unit_9", rr501_unit_9)
    ∷ (text "grouped_address_function", grouped_address_function)
    ∷ []
