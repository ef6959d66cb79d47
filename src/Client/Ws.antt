-- ===== src/Client/Ws.antt =====
-- imuaclient/subscribe.go: the web socket's state, the counter of its routines, and the routines of
-- `Subscribe` as steps.
pub mod Routines
use price_feeder.Prelude.{
  ℕ, zero, suc, ◌+◌, ◌-◌, Bool, true, false, if◌then◌else◌, ◌==◌, nat_eq, List, [], ◌∷◌, Option,
  none, some,
}

-- `wsActive`, `wsActiveRoutines`, and whether `wsStop` is closed. `waiting` tells that the supervising
-- routine waits for the others; the last two count the routines that run.
pub record Ws : Type 0 where
  pub active : Bool
  pub active_routines : ℕ
  pub stop_closed : Bool
  pub waiting : Bool
  pub pings : ℕ
  pub reads : ℕ

-- The count, and whether the connection is active.
unfoldable pub increase_ws_routines : Ws → Ws × ℕ × Bool
increase_ws_routines s =
    if s.active
    then (record s { active_routines = s.active_routines + 1 }, s.active_routines + 1, true)
    else (s, s.active_routines, false)

-- The count stops at 0.
unfoldable pub decrease_ws_routines : Ws → Ws
decrease_ws_routines s = record s { active_routines = s.active_routines - 1 }

unfoldable pub is_zero_ws_routines : Ws → Bool
is_zero_ws_routines s = s.active_routines == 0

unfoldable pub mark_ws_active : Ws → Ws
mark_ws_active s = record s { active = true }

unfoldable pub mark_ws_inactive : Ws → Ws
mark_ws_inactive s = record s { active = false }

-- A channel that is closed is left alone.
unfoldable pub stop_ws_routines : Ws → Ws
stop_ws_routines s = record s { stop_closed = true }

-- `connectWs` where a dial succeeds.
unfoldable pub connected : Ws → Ws
unfolding mark_ws_active
connected s = mark_ws_active (record s { stop_closed = false })

-- The loop of `connectWs` with the attempts that are left: `none` is the error after the last one.
unfoldable pub connect_ws : (ℕ → Bool) → ℕ → ℕ → Ws → Option Ws
unfolding connected
connect_ws dials zero count s = none
connect_ws dials (suc left) count s =
    let again = connect_ws dials left (suc count) s in
    if dials count then some (connected s) else again

unfoldable pub start_ping_routine : Ws → Ws × Bool
unfolding increase_ws_routines
start_ping_routine s =
    let (s', count, ok) = increase_ws_routines s in
    if ok then (record s' { pings = s'.pings + 1 }, true) else (s, false)

unfoldable pub start_read_routine : Ws → Ws × Bool
unfolding increase_ws_routines
start_read_routine s =
    let (s', count, ok) = increase_ws_routines s in
    if ok then (record s' { reads = s'.reads + 1 }, true) else (s, false)

-- `startTasks` after a dial and the subscriptions that succeed; otherwise it panics.
unfoldable pub start_tasks : Ws → Ws
unfolding connected mark_ws_active start_ping_routine start_read_routine
start_tasks s =
    let (pinging, pinged) = start_ping_routine (mark_ws_active (connected s)) in
    (start_read_routine pinging).0
