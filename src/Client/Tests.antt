-- ===== src/Client/Tests.antt =====
-- imuaclient: the theorems on the client at two pages of stakers, at a round of subscriptions and at
-- routines that started.
use price_feeder.Prelude.{
  ℕ, zero, suc, ◌+◌, ◌≤◌, ◌≡◌, refl, [], ◌∷◌, none, some, Bool, true, false, Bytes, bytes_eq, codes,
  ◌==◌, if◌then◌else◌, arith,
}
use price_feeder.Prelude.Map.{lookup}
use price_feeder.Stakers.Reset.{OracleStaker, NstVersion}
use price_feeder.Client.Pages.{Page, Answer, page, got, get_staker_infos}
use price_feeder.Client.Pages.Collected.{Answers, same_version, all_stakers, get_staker_infos_lem}
use price_feeder.Client.Ws.{
  Ws, start_tasks, connected, mark_ws_active, start_ping_routine, start_read_routine,
  increase_ws_routines, stop_ws_routines, mark_ws_inactive, decrease_ws_routines,
}
use price_feeder.Client.Ws.Routines.{
  Reached, started, steps, closes, sees_stop, ping_stops, Reached-IsCounted,
}
use price_feeder.Client.Subscribe.{send_all_subscribe_msgs}
use price_feeder.Client.Subscribe.Lost.{subscription_lost}

abbrev staker_of : ℕ → OracleStaker
staker_of index = record {
  staker_index = index;
  staker_addr = [];
  validator_list = [];
  balance_list = [];
  withdraw_version = 0;
}

abbrev feeds : NstVersion
feeds = record { feed_version = 2; feed_withdraw_version = 0 }

abbrev last_page : Page
last_page = record { staker_infos = staker_of 1 ∷ []; version = 3; feeds = feeds; next_key = none }

abbrev first_page : Page
first_page = record {
  staker_infos = staker_of 0 ∷ [];
  version = 3;
  feeds = feeds;
  next_key = some (codes "k");
}

abbrev ask : ℕ → Bytes → Answer
ask zero key = page first_page
ask (suc n) key = page last_page

answers : Answers ask 0 [] first_page (last_page ∷ [])
answers = (codes "k", refl, refl, (refl, refl))

get_staker_infos_lem_example : get_staker_infos ask true 2 ≡ (
    if same_version 3 (first_page ∷ last_page ∷ [])
    then got (all_stakers (first_page ∷ last_page ∷ [])) (some feeds)
    else got [] none)
get_staker_infos_lem_example =
    get_staker_infos_lem ask 2 first_page (last_page ∷ []) answers (omega arith)

-- The connection is closed, the supervising routine sees it, and the ping routine stops.
abbrev closed : Ws
closed = record {
  active = false;
  active_routines = 1;
  stop_closed = true;
  waiting = true;
  pings = 0;
  reads = 1;
}

reaches_closed : Reached closed
unfolding start_tasks connected mark_ws_active start_ping_routine start_read_routine
    increase_ws_routines stop_ws_routines mark_ws_inactive decrease_ws_routines
reaches_closed =
    steps (steps (steps started closes) (sees_stop refl refl)) (ping_stops (omega arith) refl)

Reached-IsCounted_example :
    (closed.active_routines ≡ closed.pings + closed.reads) × (closed.pings ≤ 1) × (closed.reads ≤ 1)
Reached-IsCounted_example = Reached-IsCounted reaches_closed

abbrev writes : ℕ → Bytes → Bool
writes n message = message == codes "b"

asked : lookup (codes "a") ((codes "a", true) ∷ (codes "b", true) ∷ []) ≡ some true
unfolding lookup
asked = refl

subscription_lost_example :
    ((send_all_subscribe_msgs writes 600 ((codes "a", true) ∷ (codes "b", true) ∷ [])).1 ≡ true)
    × (lookup
          (codes "a")
          (send_all_subscribe_msgs writes 600 ((codes "a", true) ∷ (codes "b", true) ∷ [])).0
        ≡ some true)
subscription_lost_example =
    subscription_lost writes 600 (codes "a") (codes "a") true true ((codes "b", true) ∷ []) refl
      asked refl
