-- ===== src/Client/Ws/Routines.antt =====
-- imuaclient/subscribe.go: what the counter of routines says in every state that the routines reach.
use price_feeder.Prelude.{◌+◌, ◌-◌, ◌≤◌, ◌<◌, ◌≡◌, refl, true, false, arith}
use price_feeder.Client.Ws.{
  Ws, decrease_ws_routines, is_zero_ws_routines, mark_ws_inactive, stop_ws_routines, start_tasks,
  connected, mark_ws_active, start_ping_routine, start_read_routine, increase_ws_routines,
}

-- The client before `Subscribe`.
abbrev pub fresh : Ws
fresh = record {
  active = false;
  active_routines = 0;
  stop_closed = false;
  waiting = false;
  pings = 0;
  reads = 0;
}

-- What the routines do, each at a time of its own: a routine that cannot write or read gives the stop
-- signal and ends, one that sees the signal ends, the supervising routine sees the signal, and it
-- starts the tasks again when the counter is zero. `CloseWs` gives the signal too.
pub data Step : Ws → Ws → Type 0 where
  ping_fails :
      {s : Ws}
      → 0 < s.pings
      → Step s (decrease_ws_routines (stop_ws_routines (record s { pings = s.pings - 1 })))
  ping_stops :
      {s : Ws}
      → 0 < s.pings
      → s.stop_closed ≡ true
      → Step s (decrease_ws_routines (record s { pings = s.pings - 1 }))
  read_fails :
      {s : Ws}
      → 0 < s.reads
      → Step s (decrease_ws_routines (stop_ws_routines (record s { reads = s.reads - 1 })))
  read_stops :
      {s : Ws}
      → 0 < s.reads
      → s.stop_closed ≡ true
      → Step s (decrease_ws_routines (record s { reads = s.reads - 1 }))
  closes : {s : Ws} → Step s (stop_ws_routines s)
  sees_stop :
      {s : Ws}
      → s.waiting ≡ false
      → s.stop_closed ≡ true
      → Step s (mark_ws_inactive (record s { waiting = true }))
  restarts :
      {s : Ws}
      → s.waiting ≡ true
      → is_zero_ws_routines s ≡ true
      → Step s (start_tasks (record s { waiting = false }))

-- The states after the tasks are started for the first time.
pub data Reached : Ws → Type 0 where
  started : Reached (start_tasks fresh)
  steps : {s t : Ws} → Reached s → Step s t → Reached t

abbrev pub IsCounted : Ws → Type 0
IsCounted s = (s.active_routines ≡ s.pings + s.reads) × (s.pings ≤ 1) × (s.reads ≤ 1)

start_tasks-IsCounted :
    (s : Ws) → s.pings ≡ 0 → s.reads ≡ 0 → s.active_routines ≡ 0 → IsCounted (start_tasks s)
unfolding start_tasks connected mark_ws_active start_ping_routine start_read_routine
    increase_ws_routines
start_tasks-IsCounted s p r c = (omega arith, omega arith, omega arith)

Step-IsCounted : {s t : Ws} → Step s t → IsCounted s → IsCounted t
unfolding decrease_ws_routines stop_ws_routines mark_ws_inactive is_zero_ws_routines
Step-IsCounted (ping_fails running) (count, p, r) = (omega arith, omega arith, omega arith)
Step-IsCounted (ping_stops running seen) (count, p, r) = (omega arith, omega arith, omega arith)
Step-IsCounted (read_fails running) (count, p, r) = (omega arith, omega arith, omega arith)
Step-IsCounted (read_stops running seen) (count, p, r) = (omega arith, omega arith, omega arith)
Step-IsCounted closes counted = counted
Step-IsCounted (sees_stop running seen) counted = counted
Step-IsCounted {s} (restarts waits none_left) (count, p, r) =
    start_tasks-IsCounted (record s { waiting = false }) (ground arith) (ground arith)
      (ground arith)

-- In every state that the routines reach the counter is the number of routines that run, and at most
-- one of them pings and at most one of them reads.
pub Reached-IsCounted :
    {s : Ws} → Reached s → (s.active_routines ≡ s.pings + s.reads) × (s.pings ≤ 1) × (s.reads ≤ 1)
unfolding is_zero_ws_routines
Reached-IsCounted started = start_tasks-IsCounted fresh refl refl refl
Reached-IsCounted (steps before step) = Step-IsCounted step (Reached-IsCounted before)
