-- ===== src/Mochad/Tests.antt =====
-- Chunks that end inside a line, and a thread that has just made a socket when `stop` disconnects.
use mochad_mqtt_bridge.Prelude.{◌≡◌, [], ◌∷◌, none, false, true, length, arith, refl, ◌≤◌, ◌⊎◌}
use mochad_mqtt_bridge.Text.{text}
use mochad_mqtt_bridge.Mochad.{read_loop, drain, split_once}
use mochad_mqtt_bridge.Mochad.Framing.{stripped, cut, concat, read_loop-concat, drain_ends}
use mochad_mqtt_bridge.Mochad.Lifecycle.{
  Client, opened, disconnecting, ended, stopped, started, take_socket, WorkerStep, enter,
  connect_opens, refuse, unset_running, set_event, take, Reach, here, by_worker, by_caller,
  held_by_worker, stopped_closed,
}
use mochad_mqtt_bridge.Mochad.Ending.{none_left, one_more, stopped_ends}

read_loop-concat_example :
    read_loop [] (text "01/02 Rx RF HouseUnit: A1\r\n01/" ∷ text "02 Rx RF\n" ∷ [])
    ≡ stripped (cut (concat (text "01/02 Rx RF HouseUnit: A1\r\n01/" ∷ text "02 Rx RF\n" ∷ [])))
read_loop-concat_example =
    read_loop-concat (text "01/02 Rx RF HouseUnit: A1\r\n01/" ∷ text "02 Rx RF\n" ∷ [])

drain_ends_example :
    (split_once b'\n' (drain 20 (text "hello\nca")).1 ≡ none)
    × (drain 20 (text "hello\nca") ≡ drain (length (text "hello\nca")) (text "hello\nca"))
drain_ends_example = drain_ends 20 (text "hello\nca") (omega arith)

-- The thread has just made a socket when `stop` disconnects.
abbrev caught : Client
caught = record {
  running = false;
  stop_event = true;
  socket = false;
  open_sockets = 1;
  worker = opened;
  caller = stopped;
}

caught_reached : Reach caught
unfolding take_socket
caught_reached =
    by_caller
      (by_caller
        (by_caller
          (by_worker (by_worker here (enter started refl refl refl)) (connect_opens _ refl))
          (unset_running _ refl))
        (set_event _ refl))
      (take _ refl)

stopped_closed_example :
    (caught.socket ≡ false) × (caught.open_sockets ≡ held_by_worker caught.worker)
stopped_closed_example = stopped_closed caught_reached refl

abbrev refused : Client
refused = record caught { worker = disconnecting; open_sockets = 0 }

stopped_ends_example : (1 ≤ 6) × ((refused.worker ≡ ended) ⊎ ((e : Client) × WorkerStep refused e))
stopped_ends_example =
    stopped_ends caught_reached refl (one_more (refuse caught refl refl) none_left)
