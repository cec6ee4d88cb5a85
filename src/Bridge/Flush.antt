-- ===== src/Bridge/Flush.antt =====
-- Flushing the queue: every command is either sent in full, in order, or still in the queue.
use mochad_mqtt_bridge.Prelude.{
  ℕ, ◌≡◌, refl, sym, ap, ◌∙◌, Bool, true, false, List, [], ◌∷◌, ◌++◌, append-nil, append_assoc,
  if◌then◌else◌, All, Result, ok, raise,
}
use mochad_mqtt_bridge.Text.{Text}
use mochad_mqtt_bridge.Bridge.{
  DeviceCommand, Bridge, Effect, publish_status_if_connected, publish, bridge_status_payload,
}
use mochad_mqtt_bridge.Models.Payloads.{Payload}
use mochad_mqtt_bridge.Bridge.Outbound.{
  is_empty, is_given, send_device_command_now, flush_next, flush_loop, after_flush,
  flush_queued_device_commands, device_command_queue_reason,
}
use mochad_mqtt_bridge.Mochad.{MochadClient}
use mochad_mqtt_bridge.State.Steps.{if_both}
use mochad_mqtt_bridge.Bridge.Queue.{publish_status-waiting}
use mochad_mqtt_bridge.Bridge.Sending.{
  batch, Encodable, Attempt, send_device_command_now-Attempt, send_device_command_now-keeps,
}

abbrev pub batches : (DeviceCommand → List Text) → List DeviceCommand → List Text
batches f [] = []
batches f (a ∷ q) = f a ++ batches f q

-- What is begun is a part of the batch of the first command that waits.
abbrev pub IsBegun : (DeviceCommand → List Text) → List Text → List DeviceCommand → Type 0
IsBegun f begun [] = begun ≡ []
IsBegun f begun (a ∷ q) = (more : List Text) × (begun ++ more ≡ f a)

-- A queue before, and a queue and a wire after: the commands that have left the queue are on the wire
-- with their whole batches, in order, and then a part of the batch of the first one that has not.
pub record Accounted (f : DeviceCommand → List Text) (before after : List Text)
    (queue left : List DeviceCommand) : Type 0 where
  pub done : List DeviceCommand
  pub begun : List Text
  pub split : queue ≡ done ++ left
  pub on_the_wire : after ≡ before ++ (batches f done ++ begun)
  pub next : IsBegun f begun left

nothing-IsBegun : (f : DeviceCommand → List Text) (q : List DeviceCommand) → IsBegun f [] q
nothing-IsBegun f [] = refl
nothing-IsBegun f (a ∷ q) = (f a, refl)

-- Nothing has happened.
pub untouched :
    (f : DeviceCommand → List Text) (w : List Text) (q : List DeviceCommand) → Accounted f w w q q
untouched f w q = record {
  done = [];
  begun = [];
  split = refl;
  on_the_wire = sym (append-nil w);
  next = nothing-IsBegun f q;
}

sent_first :
    (f : DeviceCommand → List Text) (w w' w'' : List Text) (a : DeviceCommand)
    (q q' : List DeviceCommand)
    → w' ≡ w ++ f a
    → Accounted f w' w'' q q'
    → Accounted f w w'' (a ∷ q) q'
sent_first f w w' w'' a q q' e h = record {
  done = a ∷ h.done;
  begun = h.begun;
  split = ap (◌∷◌ a) h.split;
  on_the_wire =
      h.on_the_wire
      ∙ rw (e, append_assoc (f a) (batches f h.done) h.begun)
          (append_assoc w (f a) (batches f h.done ++ h.begun));
  next = h.next;
}

-- One round of the loop, by what the attempt came to.
round :
    (f : DeviceCommand → List Text) (a : DeviceCommand) (q : List DeviceCommand) (b : Bridge)
    (more : Bridge → Bridge × Result Bool) (o : Effect)
    → batch b.devices a ≡ f a
    → o.0.queued_device_commands ≡ q
    → Attempt a b o
    → Accounted f o.0.mochad.sent (more o.0).0.mochad.sent q (more o.0).0.queued_device_commands
    → Accounted f b.mochad.sent
        (flush_next a more o).0.mochad.sent
        (a ∷ q)
        (flush_next a more o).0.queued_device_commands
unfolding flush_next
round f a q b more (b', ok _) same left sent h =
    sent_first f b.mochad.sent b'.mochad.sent (more b').0.mochad.sent a q _
      (sent ∙ ap (λ ls. b.mochad.sent ++ ls) same) h
round f a q b more (b', raise e) same left (transport, begun, rest, part, sent) h =
    rw (transport, left)
      (record {
        done = [];
        begun = begun;
        split = refl;
        on_the_wire = sent;
        next = (rest, part ∙ same);
      })

flush_loop-Accounted :
    (socket : ℕ → Bool) (f : DeviceCommand → List Text) (q : List DeviceCommand) (b : Bridge)
    → ((x : DeviceCommand) → batch b.devices x ≡ f x)
    → b.queued_device_commands ≡ q
    → All Encodable q
    → Accounted f b.mochad.sent
        (flush_loop socket q b).0.mochad.sent
        q
        (flush_loop socket q b).0.queued_device_commands
unfolding flush_loop
flush_loop-Accounted socket f [] b same left good = rw left (untouched f b.mochad.sent [])
flush_loop-Accounted socket f (a ∷ q) b same left (first, good) =
    let b₁ : Bridge = record b { queued_device_commands = q } in
    let (kept, waiting) = send_device_command_now-keeps socket a b₁ in
    let o = send_device_command_now socket a b₁ in
    round f a q b₁ (flush_loop socket q) o (same a) waiting
      (send_device_command_now-Attempt socket a b₁ first)
      (flush_loop-Accounted socket f q o.0 (λ x. kept x ∙ same x) waiting good)

publish-mochad :
    (t : Result Text) (p : Payload) (retain : Bool) (b : Bridge)
    → (publish t p retain b).0.mochad ≡ b.mochad
unfolding publish
publish-mochad (ok t) p retain b = refl
publish-mochad (raise e) p retain b = refl

publish_status-mochad : (b : Bridge) → (publish_status_if_connected b).0.mochad ≡ b.mochad
unfolding publish_status_if_connected bridge_status_payload
publish_status-mochad b =
    if_both (λ (o : Effect). o.0.mochad ≡ b.mochad) b.mqtt.connected _ _ (publish-mochad _ _ _ _)
      refl

-- Publishing the status at the end changes neither the queue nor the wire.
pub after_flush-same :
    (o : Bridge × Result Bool)
    → ((after_flush o).0.queued_device_commands ≡ o.0.queued_device_commands)
      × ((after_flush o).0.mochad.sent ≡ o.0.mochad.sent)
unfolding after_flush
after_flush-same (b, ok true) = (
  ap (λ w. w.0) (publish_status-waiting b),
  ap (λ (m : MochadClient). m.sent) (publish_status-mochad b),
)
after_flush-same (b, ok false) = (refl, refl)
after_flush-same (b, raise e) = (refl, refl)

-- Whatever the socket does, a flush of commands that can be encoded loses no command and keeps the
-- order: the commands that leave the queue are its first ones, the wire gains the whole batch of
-- each of them, in order, and after them at most a part of the batch of the first command that
-- still waits.
pub flush-Accounted :
    (socket : ℕ → Bool) (b : Bridge)
    → All Encodable b.queued_device_commands
    → Accounted
        (batch b.devices)
        b.mochad.sent
        (flush_queued_device_commands socket b).0.mochad.sent
        b.queued_device_commands
        (flush_queued_device_commands socket b).0.queued_device_commands
unfolding flush_queued_device_commands
flush-Accounted socket b good =
    let P : Effect → Type 0 = λ o.
      Accounted (batch b.devices) b.mochad.sent o.0.mochad.sent b.queued_device_commands
        o.0.queued_device_commands in
    let idle : P (b, ok tt) = untouched (batch b.devices) b.mochad.sent b.queued_device_commands in
    let o = flush_loop socket b.queued_device_commands b in
    let (queue, wire) = after_flush-same o in
    let flushed : P (after_flush o) =
      rw (queue, wire)
        (flush_loop-Accounted socket (batch b.devices) b.queued_device_commands b (λ x. refl) refl
          good) in
    let waits = is_given (device_command_queue_reason b) in
    if_both P (is_empty b.queued_device_commands) (b, ok tt)
      (if waits then (b, ok tt) else after_flush o) idle
      (if_both P waits (b, ok tt) (after_flush o) idle flushed)
