-- ===== src/Mochad/Lifecycle.antt =====
-- mochad_client.py: the client's own thread, which connects, reads and connects again, beside a caller
-- of `stop`. A step is what happens between two points at which the other thread may run; what
-- happens under the lock is one step. `start` is called once, and is done.
use mochad_mqtt_bridge.Prelude.{
  ℕ, ◌+◌, ◌-◌, ◌≡◌, refl, ◌⊎◌, inl, Bool, true, false, not, ◌&&◌, arith, if◌then◌else◌,
}

-- Where the thread is in `_run`; at `closing`, `disconnect` has taken a socket and not closed it.
pub data Worker : Type 0 where
  looping connecting opened reading disconnecting closing waiting ended : Worker

-- Where the caller is in `stop`: before it, after each of its first two statements, with a socket that
-- `disconnect` has taken and not closed, and after `disconnect`.
pub data Caller : Type 0 where
  idle unset signalled severing stopped : Caller

-- `socket` is `_socket is not None`; `open_sockets` counts those that were made and not closed.
pub record Client : Type 0 where
  pub running : Bool
  pub stop_event : Bool
  pub socket : Bool
  pub open_sockets : ℕ
  pub worker : Worker
  pub caller : Caller

-- after `start`
abbrev pub started : Client
started = record {
  running = true;
  stop_event = false;
  socket = false;
  open_sockets = 0;
  worker = looping;
  caller = idle;
}

-- `disconnect`, under the lock: `_socket` is taken; then the socket is closed, if there was one
unfoldable pub take_socket : Client → Client
take_socket c = record c { socket = false }

unfoldable pub close_socket : Client → Client
close_socket c = record c { open_sockets = c.open_sockets - 1 }

-- `_run`, `connect` and the test of `_read_loop`.
pub data WorkerStep : Client → Client → Type 0 where
  enter :
      (c : Client)
      → c.worker ≡ looping
      → c.running ≡ true
      → c.stop_event ≡ false
      → WorkerStep c (record c { worker = connecting })
  leave :
      (c : Client)
      → c.worker ≡ looping
      → (c.running && not c.stop_event) ≡ false
      → WorkerStep c (record c { worker = ended })
  connect_fails :
      (c : Client) → c.worker ≡ connecting → WorkerStep c (record c { worker = disconnecting })
  connect_opens :
      (c : Client)
      → c.worker ≡ connecting
      → WorkerStep c (record c { worker = opened; open_sockets = c.open_sockets + 1 })
  accept :
      (c : Client)
      → c.worker ≡ opened
      → c.stop_event ≡ false
      → WorkerStep c (record c { worker = reading; socket = true })
  refuse :
      (c : Client)
      → c.worker ≡ opened
      → c.stop_event ≡ true
      → WorkerStep c (record c { worker = disconnecting; open_sockets = c.open_sockets - 1 })
  read_on :
      (c : Client) → c.worker ≡ reading → c.running ≡ true → c.stop_event ≡ false → WorkerStep c c
  read_ends : (c : Client) → c.worker ≡ reading → WorkerStep c (record c { worker = disconnecting })
  finally :
      (c : Client)
      → c.worker ≡ disconnecting
      → WorkerStep c (record (take_socket c) { worker = if c.socket then closing else waiting })
  close_taken :
      (c : Client)
      → c.worker ≡ closing
      → WorkerStep c (record (close_socket c) { worker = waiting })
  wake : (c : Client) → c.worker ≡ waiting → WorkerStep c (record c { worker = looping })

-- `stop`
pub data CallerStep : Client → Client → Type 0 where
  unset_running :
      (c : Client) → c.caller ≡ idle → CallerStep c (record c { running = false; caller = unset })
  set_event :
      (c : Client)
      → c.caller ≡ unset
      → CallerStep c (record c { stop_event = true; caller = signalled })
  take :
      (c : Client)
      → c.caller ≡ signalled
      → CallerStep c (record (take_socket c) { caller = if c.socket then severing else stopped })
  close :
      (c : Client)
      → c.caller ≡ severing
      → CallerStep c (record (close_socket c) { caller = stopped })

-- Any interleaving of the two.
pub data Reach : Client → Type 0 where
  here : Reach started
  by_worker : {c d : Client} → Reach c → WorkerStep c d → Reach d
  by_caller : {c d : Client} → Reach c → CallerStep c d → Reach d

-- how many sockets the thread has made and not handed over, or taken and not closed
abbrev pub held_by_worker : Worker → ℕ
held_by_worker opened = 1
held_by_worker closing = 1
held_by_worker _ = 0

abbrev held_by_caller : Caller → ℕ
held_by_caller severing = 1
held_by_caller _ = 0

abbrev pub count : Bool → ℕ
count true = 1
count false = 0

pub record IsSound (c : Client) : Type 0 where
  -- `stop` has done what it has come to
  pub flags :
      ((c.caller ≡ idle) × (c.running ≡ true) × (c.stop_event ≡ false))
      ⊎ ((c.caller ≡ unset) × (c.running ≡ false) × (c.stop_event ≡ false))
      ⊎ ((c.caller ≡ signalled) × (c.running ≡ false) × (c.stop_event ≡ true))
      ⊎ ((c.caller ≡ severing) × (c.running ≡ false) × (c.stop_event ≡ true) × (c.socket ≡ false))
      ⊎ ((c.caller ≡ stopped) × (c.running ≡ false) × (c.stop_event ≡ true) × (c.socket ≡ false))
  pub counted : c.open_sockets ≡ held_by_worker c.worker + count c.socket + held_by_caller c.caller
  -- only a thread that reads, or is about to disconnect, holds a socket
  pub held : (c.socket ≡ false) ⊎ (c.worker ≡ reading) ⊎ (c.worker ≡ disconnecting)

WorkerStep-IsSound : {c d : Client} → WorkerStep c d → IsSound c → IsSound d
unfolding take_socket close_socket
WorkerStep-IsSound (enter c w r e) s = ground arith
WorkerStep-IsSound (leave c w r) s = ground arith
WorkerStep-IsSound (connect_fails c w) s = ground arith
WorkerStep-IsSound (connect_opens c w) s = ground arith
WorkerStep-IsSound (accept c w e) s = ground arith
WorkerStep-IsSound (refuse c w e) s = ground arith
WorkerStep-IsSound (read_on c w r e) s = s
WorkerStep-IsSound (read_ends c w) s = ground arith
WorkerStep-IsSound (finally c w) s = ground arith
WorkerStep-IsSound (close_taken c w) s = ground arith
WorkerStep-IsSound (wake c w) s = ground arith

CallerStep-IsSound : {c d : Client} → CallerStep c d → IsSound c → IsSound d
unfolding take_socket close_socket
CallerStep-IsSound (unset_running c w) s = ground arith
CallerStep-IsSound (set_event c w) s = ground arith
CallerStep-IsSound (take c w) s = ground arith
CallerStep-IsSound (close c w) s = ground arith

started-IsSound : IsSound started
started-IsSound = record { flags = inl (refl, refl, refl); counted = refl; held = inl refl }

pub Reach-IsSound : {c : Client} → Reach c → IsSound c
Reach-IsSound here = started-IsSound
Reach-IsSound (by_worker r step) = WorkerStep-IsSound step (Reach-IsSound r)
Reach-IsSound (by_caller r step) = CallerStep-IsSound step (Reach-IsSound r)

-- However the thread and the caller of `stop` take turns: once `stop` has disconnected, the client holds
-- no socket, then or later. At most one socket is open, one that the thread has just made or is about
-- to close, and none when the thread has ended.
pub stopped_closed :
    {c : Client}
    → Reach c
    → c.caller ≡ stopped
    → (c.socket ≡ false) × (c.open_sockets ≡ held_by_worker c.worker)
unfolding take_socket close_socket
stopped_closed {c} r h = let s = Reach-IsSound r in ground arith
