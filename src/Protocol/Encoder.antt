-- ===== src/Protocol/Encoder.antt =====
-- protocol/encoder.py
use mochad_mqtt_bridge.Prelude.{
  ◌||◌, Option, none, some, ◌++◌, if◌then◌else◌, value_error, Result, ok, raise, ◌>>=◌,
}
use mochad_mqtt_bridge.Text.{Text, text, text_eq, lower, strip}
use mochad_mqtt_bridge.Models.Enums.{Command, on, off, dim, bright}
use mochad_mqtt_bridge.Protocol.Validation.{normalize_address}

-- ENCODE_COMMAND_MAP of protocol/mappings.py; a missing key is none
unfoldable pub encode_command_map : Command → Option Text
encode_command_map on = some (text "on")
encode_command_map off = some (text "off")
encode_command_map dim = some (text "dim")
encode_command_map bright = some (text "bright")
encode_command_map _ = none

-- `f"{transport} {address} {suffix}"`, or the `KeyError` turned into a `ValueError`
unfoldable pub finish : Text → Text → Option Text → Result Text
finish transport address none = raise value_error
finish transport address (some suffix) =
    ok (transport ++ (text " " ++ (address ++ (text " " ++ suffix))))

unfoldable pub encode_command : Text → Text → Command → Result Text
unfolding finish encode_command_map
encode_command transport address command =
    let transport = lower (strip transport) in
    if text_eq transport (text "rf") || text_eq transport (text "pl")
    then (do
      address ← normalize_address address
      finish transport address (encode_command_map command))
    else raise value_error

unfoldable pub encode_rf_command : Text → Command → Result Text
unfolding encode_command
encode_rf_command address command = encode_command (text "rf") address command

unfoldable pub encode_pl_command : Text → Command → Result Text
unfolding encode_command
encode_pl_command address command = encode_command (text "pl") address command
