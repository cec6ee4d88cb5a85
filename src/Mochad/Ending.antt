-- ===== src/Mochad/Ending.antt =====
-- mochad_client.py: the client's own thread ends after `stop`.
use mochad_mqtt_bridge.Prelude.{ℕ, suc, ◌+◌, ◌≤◌, ◌≡◌, refl, ◌⊎◌, inl, inr, true, false, arith}
use mochad_mqtt_bridge.Mochad.Lifecycle.{
  Worker, looping, connecting, opened, reading, disconnecting, closing, waiting, ended, stopped,
  Client, take_socket, close_socket, WorkerStep, enter, leave, connect_fails, connect_opens, accept,
  refuse, read_on, read_ends, finally, close_taken, wake, Reach, Reach-IsSound,
}

-- Steps of the thread in a row.
pub data WorkerSteps : ℕ → Client → Client → Type 0 where
  none_left : {c : Client} → WorkerSteps 0 c c
  one_more : {n : ℕ} {c d e : Client} → WorkerStep c d → WorkerSteps n d e → WorkerSteps (suc n) c e

-- how far the thread is from its end, when it has been told to stop
rank : Worker → ℕ
rank ended = 0
rank looping = 1
rank waiting = 2
rank closing = 3
rank disconnecting = 4
rank opened = 5
rank reading = 5
rank connecting = 6

abbrev Told : Client → Type 0
Told c = (c.running ≡ false) × (c.stop_event ≡ true)

-- A thread that was told to stop comes nearer to its end with each step.
WorkerStep-rank :
    {c d : Client} → WorkerStep c d → Told c → Told d × (rank d.worker + 1 ≤ rank c.worker)
unfolding rank take_socket close_socket
WorkerStep-rank (enter c w r e) t = ground arith
WorkerStep-rank (leave c w r) t = ground arith
WorkerStep-rank (connect_fails c w) t = ground arith
WorkerStep-rank (connect_opens c w) t = ground arith
WorkerStep-rank (accept c w e) t = ground arith
WorkerStep-rank (refuse c w e) t = ground arith
WorkerStep-rank (read_on c w r e) t = ground arith
WorkerStep-rank (read_ends c w) t = ground arith
WorkerStep-rank (finally c w) t = ground arith
WorkerStep-rank (close_taken c w) t = ground arith
WorkerStep-rank (wake c w) t = ground arith

WorkerSteps-rank :
    {n : ℕ} {c d : Client}
    → WorkerSteps n c d
    → Told c
    → Told d × (rank d.worker + n ≤ rank c.worker)
WorkerSteps-rank none_left t = (t, omega arith)
WorkerSteps-rank (one_more step steps) t =
    let (told, nearer) = WorkerStep-rank step t in
    let (told', rest) = WorkerSteps-rank steps told in (told', omega arith)

rank_bound : (w : Worker) → rank w ≤ 6
unfolding rank
rank_bound ended = omega arith
rank_bound looping = omega arith
rank_bound waiting = omega arith
rank_bound closing = omega arith
rank_bound disconnecting = omega arith
rank_bound opened = omega arith
rank_bound reading = omega arith
rank_bound connecting = omega arith

-- It has a next step, unless it has ended.
next_step :
    (c : Client) (w : Worker)
    → c.worker ≡ w
    → Told c
    → (c.worker ≡ ended) ⊎ ((d : Client) × WorkerStep c d)
next_step c ended e t = inl e
next_step c looping e (running, _) = inr (_, leave c e (rw running refl))
next_step c waiting e t = inr (_, wake c e)
next_step c closing e t = inr (_, close_taken c e)
next_step c disconnecting e t = inr (_, finally c e)
next_step c opened e (_, event) = inr (_, refuse c e event)
next_step c reading e t = inr (_, read_ends c e)
next_step c connecting e t = inr (_, connect_fails c e)

stopped-Told : {c : Client} → Reach c → c.caller ≡ stopped → Told c
stopped-Told {c} r h = let s = Reach-IsSound r in ground arith

-- After `stop`, wherever the thread is then, it makes at most six more steps, and it is not held up
-- before it has ended.
pub stopped_ends :
    {n : ℕ} {c d : Client}
    → Reach c
    → c.caller ≡ stopped
    → WorkerSteps n c d
    → (n ≤ 6) × ((d.worker ≡ ended) ⊎ ((e : Client) × WorkerStep d e))
stopped_ends {n} {c} {d} r h steps =
    let (told, nearer) = WorkerSteps-rank steps (stopped-Told r h) in
    (omega (arith, rank_bound c.worker), next_step d d.worker refl told)
