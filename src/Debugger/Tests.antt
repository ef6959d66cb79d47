-- ===== src/Debugger/Tests.antt =====
-- internal/debugger/feeder_debug.go: the theorem on waiting requests at two heights.
use price_feeder.Prelude.{
  ◌+◌, ◌≡◌, refl, [], ◌∷◌, Option, none, All, Bool, ◌==◌, nat_eq, if◌then◌else◌,
}
use price_feeder.Prelude.Int.{pos, ltb_ℤ, int_eq}
use price_feeder.Prelude.Map.{lookup, IsMap}
use price_feeder.Feeder.Price.{empty_price}
use price_feeder.Debugger.{
  SendReq, Committed, Pending, process_pending, count, waiting, asked_by, IsOwn,
  process_pending_lem,
}

abbrev request : SendReq
request = record {
  height = pos 5;
  feeder_id = 1;
  base_block = 4;
  price = empty_price;
  nonce = pos 1;
}

abbrev send : SendReq → Option Committed
send req = none

abbrev other : SendReq
other = record request { feeder_id = 2 }

abbrev pending : Pending
pending = (pos 5, request ∷ other ∷ []) ∷ (pos 9, request ∷ []) ∷ []

abbrev of_feeder_2 : SendReq → Bool
of_feeder_2 req = req.feeder_id == 2

distinct : IsMap pending
unfolding lookup
distinct = (refl, (refl, tt))

process_pending_lem_example :
    (count of_feeder_2 (asked_by send (process_pending send (pos 6) pending).1)
        + waiting of_feeder_2 (process_pending send (pos 6) pending).0
      ≡ waiting of_feeder_2 pending)
    × All (IsOwn send) (process_pending send (pos 6) pending).1
    × (lookup (pos 9) (process_pending send (pos 6) pending).0
        ≡ (if ltb_ℤ (pos 6) (pos 9) then lookup (pos 9) pending else none))
process_pending_lem_example = process_pending_lem send of_feeder_2 (pos 6) (pos 9) pending distinct
