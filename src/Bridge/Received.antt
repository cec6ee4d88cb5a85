-- ===== src/Bridge/Received.antt =====
-- bridge.py: a line of a device's event, through the parser and the manager to the actions.
use mochad_mqtt_bridge.Prelude.{ℕ, ◌≡◌, refl, subst, Bool, true, false, Option, [], ◌∷◌, arith}
use mochad_mqtt_bridge.Text.{
  Text, text, is_space, starts_with, strip_by, HeadKept, LastKept, strip_by-HeadKept,
  strip_by-LastKept, strip_by_kept, strip,
}
use mochad_mqtt_bridge.Models.Enums.{Direction}
use mochad_mqtt_bridge.Models.Runtime.{Json, Time, DeviceEvent}
use mochad_mqtt_bridge.Protocol.Validation.{normalize_token}
use mochad_mqtt_bridge.Protocol.Validation.Addresses.{is_address}
use mochad_mqtt_bridge.Protocol.Regex.Steps.{Stamp, IsStamp, IsLine}
use mochad_mqtt_bridge.Protocol.Parser.{ProtocolParser, command_map, record_transport}
use mochad_mqtt_bridge.Protocol.Parser.Lines.{transport_of}
use mochad_mqtt_bridge.Protocol.Parser.Events.{event_line, strip-event_line, parse_line-device_line}
use mochad_mqtt_bridge.State.Methods.{apply, apply_device_event}
use mochad_mqtt_bridge.Discovery.Blocks.{DiscoveryManager}
use mochad_mqtt_bridge.DiscoveryRegistry.{DiscoveryRegistry}
use mochad_mqtt_bridge.Bridge.{Bridge}
use mochad_mqtt_bridge.Bridge.Actions.{execute_actions}
use mochad_mqtt_bridge.Bridge.Maintenance.{keep_registry}
use mochad_mqtt_bridge.Bridge.Diagnostics.{handle_mochad_diagnostic_line}
use mochad_mqtt_bridge.Bridge.Lines.{is_line_end, apply_parsed, after_report, on_mochad_line}

space_or_line_end : (c : ℕ) → is_space c ≡ false → is_line_end c ≡ false
unfolding is_space
space_or_line_end c h = ground arith

HeadKept-line_end : (s : Text) → HeadKept is_space s → HeadKept is_line_end s
HeadKept-line_end [] h = tt
HeadKept-line_end (c ∷ s) h = space_or_line_end c h

LastKept-line_end : (s : Text) → LastKept is_space s → LastKept is_line_end s
LastKept-line_end [] h = tt
LastKept-line_end (c ∷ []) h = space_or_line_end c h
LastKept-line_end (c ∷ d ∷ s) h = LastKept-line_end (d ∷ s) h

-- A text that `strip()` leaves as it is has no line end to strip.
strip_line_end : (s : Text) → strip s ≡ s → strip_by is_line_end s ≡ s
unfolding strip
strip_line_end s e =
    strip_by_kept is_line_end s
      (HeadKept-line_end s (subst (HeadKept is_space) e (strip_by-HeadKept is_space s)))
      (LastKept-line_end s (subst (LastKept is_space) e (strip_by-LastKept is_space s)))

event_line-no_report :
    (s : Stamp) (d : Direction) (radio : Bool) (label middle command : Text)
    → IsStamp s
    → starts_with (event_line s d radio label middle command) (text "{") ≡ false
unfolding starts_with
event_line-no_report s d radio label middle command (month, _) = ground arith

-- A line of a device's event, as mochad writes it, makes the bridge do exactly what the manager returns
-- for the event of that direction, transport, command and address: the registry is left alone, and the
-- parser remembers the transport. The address is in capital letters; the rest of the line has no
-- newline and no white space at its ends.
pub on_mochad_line-device_line :
    (socket : ℕ → Bool) (m : DiscoveryManager) (isoformat : Time → Text) (time : Json)
    (cleanup : Bool) (str : Json → Text) (loads : Text → Option Json) (now : Time) (b : Bridge)
    (r : DiscoveryRegistry) (p : ProtocolParser) (s : Stamp) (d : Direction) (radio : Bool) (h : ℕ)
    (u : Text) (c : ℕ) (command : Text)
    → IsStamp s
    → is_address (h ∷ u) ≡ true
    → is_space c ≡ false
    → LastKept is_space (c ∷ command)
    → IsLine (c ∷ command)
    → on_mochad_line socket m isoformat time cleanup str loads now
        (event_line s d radio (text "HouseUnit:") (h ∷ u) (c ∷ command))
        (b, r)
        p
      ≡ (
        (let event : DeviceEvent = record {
          timestamp = now;
          direction = d;
          transport = transport_of radio;
          command = command_map (normalize_token (c ∷ command));
          address = h ∷ u;
        } in
            let (state, actions) = apply_device_event event b.state in
            keep_registry r
              (execute_actions socket m isoformat time actions (record b { state = state }))),
        record p { capabilities = record_transport (transport_of radio) p.capabilities },
      )
unfolding on_mochad_line after_report handle_mochad_diagnostic_line apply_parsed apply
on_mochad_line-device_line socket m isoformat time cleanup str loads now b r p s d radio h u c
      command stamp address starts last line =
    let l = text "HouseUnit:" in
    rw
      (
        strip_line_end _ (strip-event_line s d radio l (h ∷ u) c command stamp last),
        event_line-no_report s d radio l (h ∷ u) (c ∷ command) stamp,
        parse_line-device_line now p s d radio h u c command stamp address starts last line,
      )
      refl
