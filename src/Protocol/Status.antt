-- ===== src/Protocol/Status.antt =====
-- protocol/status.py: mochad's answer to "st", and the parser's own record of features.
use mochad_mqtt_bridge.Prelude.{
  ℕ, Bool, true, false, not, ◌||◌, Option, none, some, List, [], ◌∷◌, ◌++◌, ◌==◌, if◌then◌else◌,
  value_error, Result, ok, raise, ◌>>=◌,
}
use mochad_mqtt_bridge.Text.{Text, text, text_eq, upper, strip, split_at}
use mochad_mqtt_bridge.Dict.{Dict, insert}
use mochad_mqtt_bridge.Models.Enums.{Command, on, off}
use mochad_mqtt_bridge.Models.Runtime.{StatusSnapshot}
use mochad_mqtt_bridge.Protocol.Validation.{normalize_address}
use mochad_mqtt_bridge.Protocol.Regex.Search.{Regex, Groups, match, group_of}
use mochad_mqtt_bridge.Protocol.Regex.Patterns.{
  device_selected_re, device_status_re, security_status_re, end_status_re, house_count_re,
  strict_house_status_re,
}

-- `StatusParser`
pub record StatusParser : Type 0 where
  pub snapshot : StatusSnapshot
  pub active : Bool

-- `StatusParser.reset`, which the constructor calls too
abbrev pub reset : StatusParser
reset = record { snapshot = record { devices = []; completed = false }; active = false }

unfoldable pub is_found : Option Groups → Bool
is_found none = false
is_found (some g) = true

-- `pattern.match(line)` as a test
unfoldable pub matches : Regex → Text → Bool
unfolding match is_found
matches r line = is_found (match r line)

unfoldable pub is_status_line : Text → Bool
unfolding matches
is_status_line line =
    let line = strip line in
    matches device_selected_re line
    || (matches device_status_re line
        || (matches security_status_re line
            || (matches house_count_re line
                || (matches strict_house_status_re line || matches end_status_re line))))

-- `unit, value = entry.split("=", 1)`
unfoldable pub split_once : ℕ → Text → Result (Text × Text)
split_once c [] = raise value_error
split_once c (d ∷ s) =
    let rest = split_once c s in if d == c then ok ([], s) else (rest >>= λ (u, v). ok (d ∷ u, v))

-- `Command.ON if value.strip() == "1" else Command.OFF`
unfoldable pub entry_command : Text → Command
entry_command value = if text_eq (strip value) (text "1") then on else off

-- the body of the loop over the entries of a house
unfoldable pub add_entry : Text → Text → Dict Command → Result (Dict Command)
unfolding split_once entry_command
add_entry house entry devices = do
  (unit, value) ← split_once b'=' entry
  address ← normalize_address (house ++ strip unit)
  ok (insert address (entry_command value) devices)

unfoldable pub add_entries : Text → List Text → Dict Command → Result (Dict Command)
unfolding add_entry
add_entries house [] devices = ok devices
add_entries house (entry ∷ entries) devices = do
  devices ← add_entry house entry devices
  add_entries house entries devices

-- what is done with a line while the parser is active
unfoldable pub feed_active :
    Text → StatusParser → Option Groups → Result (Option StatusSnapshot × StatusParser)
unfolding matches add_entries group_of
feed_active line p (some g) = do
  devices ←
      add_entries (upper (group_of (text "house") g)) (split_at b',' (group_of (text "devices") g))
        p.snapshot.devices
  ok (none, record p { snapshot = record p.snapshot { devices = devices } })
feed_active line p none =
    if matches end_status_re line
    then ok (some (record p.snapshot { completed = true }), reset)
    else ok (none, p)

unfoldable pub feed : Text → StatusParser → Result (Option StatusSnapshot × StatusParser)
unfolding matches feed_active match
feed line p =
    let line = strip line in
    if matches device_selected_re line
    then ok (none, record reset { active = true })
    else if matches device_status_re line || matches security_status_re line
    then ok (none, p)
    else if matches house_count_re line
    then ok (none, p)
    else if not p.active
    then ok (none, p)
    else feed_active line p (match strict_house_status_re line)
