-- ===== src/Bridge/Ready.antt =====
-- A flush while mochad is ready and the socket works.
use mochad_mqtt_bridge.Prelude.{
  ℕ, zero, suc, ◌≡◌, refl, ap, ◌∙◌, Bool, true, false, not, false≢true, Option, none, some, List,
  [], ◌∷◌, ◌++◌, append-nil, if◌then◌else◌, All, connection_error, Result, ok, raise,
}
use mochad_mqtt_bridge.Text.{Text, text}
use mochad_mqtt_bridge.Text.Normal.{normal}
use mochad_mqtt_bridge.Dict.{lookup}
use mochad_mqtt_bridge.Protocol.Encoder.{encode_rf_command}
use mochad_mqtt_bridge.Mochad.{MochadClient, wire, send_all, send_line}
use mochad_mqtt_bridge.Bridge.{DeviceCommand, Bridge, Effect}
use mochad_mqtt_bridge.Bridge.Outbound.{
  is_empty, is_given, found_or_default, bridge_device_config, send_repeated, transmit,
  send_device_command_now, flush_next, flush_loop, after_flush, flush_queued_device_commands,
  device_command_queue_reason,
}
use mochad_mqtt_bridge.Bridge.Sending.{batch, Encodable, send_device_command_now-keeps}
use mochad_mqtt_bridge.Bridge.Flush.{Accounted, batches, flush-Accounted, after_flush-same}

-- A sending that succeeds and leaves mochad connected.
abbrev Succeeds : MochadClient × Result (Unit {0}) → Type 0
Succeeds o = (o.1 ≡ ok tt) × (o.0.connected ≡ true)

abbrev Delivered : Effect → Type 0
Delivered o = (o.1 ≡ ok tt) × (o.0.mochad.connected ≡ true)

send_all-Succeeds :
    (works : Bool) (w : Text) (m : MochadClient)
    → works ≡ true
    → m.connected ≡ true
    → Succeeds (send_all works w m)
unfolding send_all
send_all-Succeeds true w m e c = (refl, c)
send_all-Succeeds false w m e c = absurd (false≢true e)

module _ (socket : ℕ → Bool) (works : (n : ℕ) → socket n ≡ true) where
  send_line-Succeeds :
      (l : Text) (m : MochadClient) (c : Bool)
      → m.connected ≡ c
      → c ≡ true
      → Succeeds
          (if not c then (m, raise connection_error) else send_all (socket m.attempts) (wire l) m)
  send_line-Succeeds l m true e h = send_all-Succeeds _ (wire l) m (works m.attempts) e
  send_line-Succeeds l m false e h = absurd (false≢true h)

  then_send :
      (l : Text) (more : MochadClient → MochadClient × Result (Unit {0}))
      → ((m : MochadClient) → m.connected ≡ true → Succeeds (more m))
      → (o : MochadClient × Result (Unit {0})) → Succeeds o
      → Succeeds (elim o.1 [ ok _ ↦ more o.0 | raise e ↦ (o.0, raise e) ])
  then_send l more h (m, ok _) (e, c) = h m c
  then_send l more h (m, raise _) (e, c) = absurd (cc)

  send_repeated-Succeeds :
      (n : ℕ) (l : Text) (m : MochadClient)
      → m.connected ≡ true
      → Succeeds (send_repeated socket n l m)
  unfolding send_repeated send_line
  send_repeated-Succeeds zero l m c = (refl, c)
  send_repeated-Succeeds (suc n) l m c =
      then_send l (send_repeated socket n l) (send_repeated-Succeeds n l) (send_line socket l m)
        (send_line-Succeeds l m m.connected refl c)

  transmit-Delivered :
      (n : ℕ) (line : Result Text) (l : Text) (b : Bridge)
      → line ≡ ok l
      → b.mochad.connected ≡ true
      → Delivered (transmit socket n line b)
  unfolding transmit
  transmit-Delivered n (ok line) l b e c = send_repeated-Succeeds n line b.mochad c
  transmit-Delivered n (raise x) l b e c = absurd (cc)

  found_or_default-connected :
      (a : Text) (o : Option _) (b : Bridge)
      → b.mochad.connected ≡ true
      → (found_or_default a o b).0.mochad.connected ≡ true
  unfolding found_or_default
  found_or_default-connected a none b c = c
  found_or_default-connected a (some d) b c = c

  send_now-Delivered :
      (a : DeviceCommand) (b : Bridge)
      → Encodable a
      → b.mochad.connected ≡ true
      → Delivered (send_device_command_now socket a b)
  unfolding send_device_command_now bridge_device_config
  send_now-Delivered (a, c) b (line, encoded) connected =
      transmit-Delivered _ (encode_rf_command a c) line _ encoded
        (found_or_default-connected (normal a) (lookup (normal a) b.devices) b connected)

  next_left :
      (a : DeviceCommand) (loop : Bridge → Bridge × Result Bool) (o : Effect)
      → ((b : Bridge) → (b ≡ o.0) → (loop b).0.queued_device_commands ≡ [])
      → Delivered o
      → (flush_next a loop o).0.queued_device_commands ≡ []
  unfolding flush_next
  next_left a loop (b, ok _) h d = h b refl
  next_left a loop (b, raise _) h d = absurd (cc (d.0))

  flush_loop-left :
      (q : List DeviceCommand) (b : Bridge)
      → b.queued_device_commands ≡ q
      → b.mochad.connected ≡ true
      → All Encodable q
      → (flush_loop socket q b).0.queued_device_commands ≡ []
  unfolding flush_loop
  flush_loop-left [] b left c good = left
  flush_loop-left (a ∷ q) b left c (first, good) =
      let b₁ : Bridge = record b { queued_device_commands = q } in
      let o = send_device_command_now socket a b₁ in
      let delivered = send_now-Delivered a b₁ first c in
      next_left a (flush_loop socket q) o
        (λ b' e.
          flush_loop-left q b'
            (ap (λ (x : Bridge). x.queued_device_commands) e
              ∙ (send_device_command_now-keeps socket a b₁).1)
            (ap (λ (x : Bridge). x.mochad.connected) e ∙ delivered.1) good)
        delivered

ready_connected : (b : Bridge) → device_command_queue_reason b ≡ none → b.mochad.connected ≡ true
unfolding device_command_queue_reason
ready_connected b ready = go b.mochad.connected _ ready
  where
    go :
        (c : Bool) (o : Option Text)
        → (if not c then some (text "mochad disconnected") else o) ≡ none
        → c ≡ true
    go true o h = refl
    go false o h = absurd (cc)

-- The branches of a flush.
flush_branches :
    (b : Bridge) (q : List DeviceCommand) (o : Option Text) (r : Effect)
    → b.queued_device_commands ≡ q
    → o ≡ none
    → r.0.queued_device_commands ≡ []
    → (if is_empty q
        then (b, ok tt)
        else if is_given o
        then (b, ok tt)
        else r).0.queued_device_commands
      ≡ []
flush_branches b [] o r e ready h = e
flush_branches b (a ∷ q) none r e ready h = h
flush_branches b (a ∷ q) (some t) r e ready h = absurd (cc)

flush-left :
    (socket : ℕ → Bool) (works : (n : ℕ) → socket n ≡ true) (b : Bridge)
    → device_command_queue_reason b ≡ none
    → All Encodable b.queued_device_commands
    → (flush_queued_device_commands socket b).0.queued_device_commands ≡ []
unfolding flush_queued_device_commands
flush-left socket works b ready good =
    let q = b.queued_device_commands in
    let o = flush_loop socket q b in
    flush_branches b q (device_command_queue_reason b) (after_flush o) refl ready (
      (after_flush-same o).0 ∙ flush_loop-left socket works q b refl (ready_connected b ready) good)

-- With nothing left, all batches are on the wire.
all_done :
    (f : DeviceCommand → List Text) (w w' : List Text) (q left : List DeviceCommand)
    → Accounted f w w' q left
    → left ≡ []
    → w' ≡ w ++ batches f q
all_done f w w' q [] h e =
    let whole : q ≡ h.done = h.split ∙ append-nil h.done in
    h.on_the_wire ∙ rw (whole, h.next, append-nil (batches f h.done))
all_done f w w' q (a ∷ left) h e = absurd (cc)

-- While no reason to wait is known and every write succeeds, a flush of commands that can be encoded
-- leaves the queue empty, and puts the batches of all its commands on the wire in order.
pub flush_ready :
    (socket : ℕ → Bool) (b : Bridge)
    → ((n : ℕ) → socket n ≡ true)
    → device_command_queue_reason b ≡ none
    → All Encodable b.queued_device_commands
    → ((flush_queued_device_commands socket b).0.queued_device_commands ≡ [])
      × ((flush_queued_device_commands socket b).0.mochad.sent
          ≡ b.mochad.sent ++ batches (batch b.devices) b.queued_device_commands)
flush_ready socket b works ready good =
    let left = flush-left socket works b ready good in
    (left, all_done (batch b.devices) _ _ _ _ (flush-Accounted socket b good) left)
