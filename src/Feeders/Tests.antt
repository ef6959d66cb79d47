-- ===== src/Feeders/Tests.antt =====
-- internal/feeder/types.go: the theorems on the routine of all feeders at one or two feeders.
use price_feeder.Prelude.{ℕ, ◌≡◌, refl, [], ◌∷◌, none, some, codes, nat_eq, arith}
use price_feeder.Prelude.Map.{lookup, insert, has}
use price_feeder.Events.{EventNstStaker}
use price_feeder.Stakers.{Error, DepositInfo, Stakers}
use price_feeder.Stakers.Cache.{
  check_next, cache_deposits, cache_withdraws, cache_deposits_withdraws,
}
use price_feeder.Stakers.Grow.{
  apply_deposit, apply_version, grow_deposits, roll_back, check_grow, try_grow_versions_from_cache,
  grow_versions_from_cache,
}
use price_feeder.Feeder.TwoPhases.{new_two_phases_info}
use price_feeder.Feeder.State.{stakers_error}
use price_feeder.Feeder.Tests.{oracle, feeder}
use price_feeder.Feeders.{Running, start_feeder}
use price_feeder.Feeders.Calls.{called, call_blocks, update_nst_stakers}
use price_feeder.Feeders.Calls.Answers.{first_deposit_blocks}

-- Staker 5 is not the next one.
abbrev gap : DepositInfo
gap = record { staker_index = 5; staker_addr = codes "a"; validator = codes "v"; amount = 32 }

abbrev first_event : EventNstStaker
first_event = record {
  withdraws = [];
  deposits = (1, gap) ∷ [];
  next_version = 1;
  latest_version = 1;
}

abbrev empty_stakers : Stakers
empty_stakers = record {
  version = 0;
  withdraw_version = 0;
  s_infos = [];
  s_infos_add = [];
  withdraw_infos = [];
  prev_withdraw_infos = [];
}

abbrev waiting_stakers : Stakers
waiting_stakers = record empty_stakers { s_infos_add = (1, gap) ∷ [] }

abbrev running : Running ℕ
running =
    start_feeder (record feeder {
      two_phases_info = some (new_two_phases_info oracle);
      stakers = empty_stakers;
    })

caches : cache_deposits_withdraws ((1, gap) ∷ []) 1 [] empty_stakers ≡ (waiting_stakers, none)
unfolding cache_deposits_withdraws check_next cache_deposits cache_withdraws lookup insert has
caches = refl

fails : grow_versions_from_cache 1 0 waiting_stakers ≡ (waiting_stakers, some Error.index_gap)
unfolding grow_versions_from_cache try_grow_versions_from_cache check_grow grow_deposits
    apply_version apply_deposit roll_back lookup
fails = refl

first_deposit_blocks_example :
    (r' : Running ℕ) × (update_nst_stakers first_event running
      ≡ called r' [] (some (stakers_error Error.index_gap)))
    × ((later : EventNstStaker) → update_nst_stakers later r' ≡ call_blocks)
first_deposit_blocks_example =
    first_deposit_blocks first_event running (new_two_phases_info oracle) waiting_stakers
      waiting_stakers Error.index_gap refl refl caches (omega arith) refl fails
