-- ===== src/Bridge/Queue.antt =====
-- The queue of device commands keeps the latest hundred, in order, and counts the others.
use mochad_mqtt_bridge.Prelude.{
  ℕ, zero, suc, ◌+◌, ◌-◌, ◌≤◌, ◌≡◌, refl, ap, ◌∙◌, inl, inr, Bool, false, List, [], ◌∷◌, ◌++◌,
  append-nil, append_assoc, arith, leb, if◌then◌else◌, leb→le, Bool-cases, length, length-append,
  Result, ok, raise,
}
use mochad_mqtt_bridge.Text.{Text}
use mochad_mqtt_bridge.Bridge.{
  DeviceCommand, Bridge, publish, bridge_status_payload, publish_status_if_connected,
}
use mochad_mqtt_bridge.Models.Payloads.{Payload}
use mochad_mqtt_bridge.Bridge.Outbound.{tail, drop_oldest, queue_device_command}

-- Without the first n members.
unfoldable pub drop {ℓ} : {A : Type ℓ} → ℕ → List A → List A
drop zero xs = xs
drop (suc n) [] = []
drop (suc n) (x ∷ xs) = drop n xs

-- The queue and the count of what was dropped.
abbrev Waiting : Type 0
Waiting = List DeviceCommand × ℕ

abbrev waiting : Bridge → Waiting
waiting b = (b.queued_device_commands, b.dropped_device_commands)

publish-waiting :
    (t : Result Text) (p : Payload) (retain : Bool) (b : Bridge)
    → waiting (publish t p retain b).0 ≡ waiting b
unfolding publish
publish-waiting (ok t) p retain b = refl
publish-waiting (raise e) p retain b = refl

-- Publishing the status leaves the queue alone.
pub publish_status-waiting : (b : Bridge) → waiting (publish_status_if_connected b).0 ≡ waiting b
unfolding publish_status_if_connected bridge_status_payload
publish_status-waiting b = elim (Bool-cases b.mqtt.connected) [
  | inl e ↦ rw e (publish-waiting _ _ _ _)
  | inr e ↦ rw e
]

abbrev push : DeviceCommand → Waiting → Waiting
push a (q, n) = if leb 100 (length q) then (tail q ++ a ∷ [], n + 1) else (q ++ a ∷ [], n)

queue_device_command-push :
    (a : DeviceCommand) (b : Bridge) → waiting (queue_device_command a b).0 ≡ push a (waiting b)
unfolding queue_device_command drop_oldest
queue_device_command-push a b =
    let d = drop_oldest b in
    publish_status-waiting
      (record d { queued_device_commands = d.queued_device_commands ++ a ∷ [] })
    ∙ elim (Bool-cases (leb 100 (length b.queued_device_commands))) [ inl e ↦ rw e | inr e ↦ rw e ]

-- Several commands queued one after the other.
unfoldable pub queue_all : List DeviceCommand → Bridge → Bridge
queue_all [] b = b
queue_all (a ∷ acts) b = queue_all acts (queue_device_command a b).0

pushes : List DeviceCommand → Waiting → Waiting
pushes [] w = w
pushes (a ∷ acts) w = pushes acts (push a w)

queue_all-pushes :
    (acts : List DeviceCommand) (b : Bridge) → waiting (queue_all acts b) ≡ pushes acts (waiting b)
unfolding queue_all pushes
queue_all-pushes [] b = refl
queue_all-pushes (a ∷ acts) b =
    queue_all-pushes acts (queue_device_command a b).0
    ∙ ap (pushes acts) (queue_device_command-push a b)

abbrev latest : List DeviceCommand → ℕ → Waiting
latest total n = (drop (length total - 100) total, n + (length total - 100))

latest_short : (q : List DeviceCommand) (n : ℕ) → length q ≤ 100 → (q, n) ≡ latest q n
unfolding drop
latest_short q n h =
    let none_over : length q - 100 ≡ 0 = omega arith in
    let same : n + 0 ≡ n = omega arith in rw (none_over, same)

latest_cons :
    (o : DeviceCommand) (t : List DeviceCommand) (n : ℕ)
    → 100 ≤ length t
    → latest t (n + 1) ≡ latest (o ∷ t) n
unfolding drop
latest_cons o t n h =
    let one_more : suc (length t) - 100 ≡ suc (length t - 100) = omega arith in
    let count : (n + 1) + (length t - 100) ≡ n + suc (length t - 100) = omega arith in
    rw (one_more, count)

pushes-latest :
    (acts q : List DeviceCommand) (n : ℕ)
    → length q ≤ 100
    → pushes acts (q, n) ≡ latest (q ++ acts) n
unfolding pushes
pushes-latest [] q n h = rw (append-nil q) (latest_short q n h)
pushes-latest (a ∷ acts) [] n h = pushes-latest acts (a ∷ []) n (omega arith)
pushes-latest (a ∷ acts) (o ∷ r) n h = elim (Bool-cases (leb 100 (length (o ∷ r)))) [
  | inl full ↦ rw full (
      pushes-latest acts (r ++ a ∷ []) (n + 1) (omega (arith, length-append r (a ∷ [])))
      ∙ ap (λ t. latest t (n + 1)) (append_assoc r (a ∷ []) acts)
      ∙ latest_cons o (r ++ a ∷ acts) n
          (omega (arith, length-append r (a ∷ acts), leb→le 100 (length (o ∷ r)) full)))
  | inr room ↦ rw room (
      pushes-latest acts ((o ∷ r) ++ a ∷ []) n (not_full r a room)
      ∙ ap (λ t. latest t n) (append_assoc (o ∷ r) (a ∷ []) acts))
]
  where
    not_full :
        (r : List DeviceCommand) (a : DeviceCommand)
        → leb 100 (suc (length r)) ≡ false
        → suc (length (r ++ a ∷ [])) ≤ 100
    not_full r a h = rw (length-append r (a ∷ [])) (ground (arith, h))

-- However many commands are queued on a queue of at most a hundred, the queue then holds the latest
-- hundred of the old and the new ones together, in order, and the count of dropped commands has grown
-- by the number of the others.
pub queue_all-latest :
    (acts : List DeviceCommand) (b : Bridge)
    → length b.queued_device_commands ≤ 100
    → let total = b.queued_device_commands ++ acts in
      ((queue_all acts b).queued_device_commands ≡ drop (length total - 100) total)
      × ((queue_all acts b).dropped_device_commands
          ≡ b.dropped_device_commands + (length total - 100))
queue_all-latest acts b h =
    let e =
      queue_all-pushes acts b
      ∙ pushes-latest acts b.queued_device_commands b.dropped_device_commands h in
    (ap (λ w. w.0) e, ap (λ w. w.1) e)
