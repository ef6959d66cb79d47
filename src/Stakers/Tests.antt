-- ===== src/Stakers/Tests.antt =====
-- fetcher/types/types.go: the theorems on the stakers at one staker with two validators, of which
-- the second one was deposited under version 2.
use price_feeder.Prelude.{
  ℕ, ◌+◌, ◌≤◌, ◌≡◌, refl, [], ◌∷◌, none, some, true, false, codes, nat_eq, if◌then◌else◌, leb,
  arith,
}
use price_feeder.Prelude.Map.{lookup, insert, has}
use price_feeder.Stakers.{
  Error, StakerInfo, DepositInfo, Stakers, add_validator, remove_validator, contains, delete_first,
}
use price_feeder.Stakers.Validators.{remove-add_validator}
use price_feeder.Stakers.Cache.{
  check_next, cache_deposits, cache_withdraws, cache_deposits_withdraws,
}
use price_feeder.Stakers.Cache.Deposits.{cached, within}
use price_feeder.Stakers.Grow.{
  apply_deposit, apply_version, grow_deposits, undo_deposit, undo_deposits, undo_withdraws,
  downgrade_version, roll_back, check_grow, try_grow_withdraws, try_grow_versions_from_cache,
  drop_deposits, drop_withdraws, complete, grow_versions_from_cache,
}
use price_feeder.Stakers.Grow.Rollback.{FitsAll}
use price_feeder.Stakers.Grow.Atomic.{AsBefore, failed_growth}
use price_feeder.Stakers.Grow.Total.{total, amounts, growth_total}
use price_feeder.Prelude.{◌⊎◌, ◌<◌, ◌++◌, map, List, All}
use price_feeder.Prelude.Map.{erase}
use price_feeder.Prelude.Int.{pos}
use price_feeder.Stakers.{StakerInfos, WithdrawInfo}
use price_feeder.Stakers.Grow.{last_withdraw, grow_withdraws, keep_first}
use price_feeder.Stakers.Grow.Gap.{gap_keeps_deposits}
use price_feeder.Stakers.Batch.{remove_all_or_none}
use price_feeder.Stakers.Batch.Removal.{remove_all_or_none-last}
use price_feeder.Stakers.Reset.{OracleStaker, NstVersion, refused, load_stakers, empty_load, reset}
use price_feeder.Stakers.Reset.Queue.{IsReported, reset_all}
use price_feeder.Stakers.Grow.Progress.{StartsAfter, grown_versions}
use price_feeder.Stakers.Apply.{
  RawData, collect_updates, store_updates, apply_grown, apply_balance_changes,
}
use price_feeder.Stakers.Apply.Balances.{rebalanced, applied_balances}

abbrev pub deposit : DepositInfo
deposit = record { staker_index = 0; staker_addr = codes "a"; validator = codes "w"; amount = 32 }

abbrev staker : StakerInfo
staker = record {
  address = codes "a";
  validators = codes "v" ∷ [];
  balance = 30;
  withdraw_version = 0;
}

abbrev grown_staker : ℕ → StakerInfo
grown_staker balance = record {
  address = codes "a";
  validators = codes "v" ∷ codes "w" ∷ [];
  balance = balance;
  withdraw_version = 0;
}

abbrev pub stakers : Stakers
stakers = record {
  version = 1;
  withdraw_version = 0;
  s_infos = (0, staker) ∷ [];
  s_infos_add = (2, deposit) ∷ [];
  withdraw_infos = [];
  prev_withdraw_infos = [];
}

abbrev tried_stakers : Stakers
tried_stakers = record stakers { s_infos = (0, grown_staker 62) ∷ [] }

abbrev pub grown_stakers : ℕ → Stakers
grown_stakers balance = record {
  version = 2;
  withdraw_version = 0;
  s_infos = (0, grown_staker balance) ∷ [];
  s_infos_add = [];
  withdraw_infos = [];
  prev_withdraw_infos = [];
}

abbrev changes : RawData
changes = record {
  version = 1;
  withdraw_version = 0;
  nst_balance_changes = record { staker_index = 0; balance = 61 } ∷ [];
}

added : add_validator (codes "w") 32 staker ≡ some (grown_staker 62)
unfolding add_validator contains
added = refl

remove-add_validator_example : remove_validator (codes "w") 32 (grown_staker 62) ≡ some staker
remove-add_validator_example =
    remove-add_validator (codes "w") 32 staker (grown_staker 62) added (omega arith)

tries : try_grow_versions_from_cache 2 0 true stakers ≡ (tried_stakers, none)
unfolding try_grow_versions_from_cache check_grow grow_deposits apply_version apply_deposit
    try_grow_withdraws lookup insert add_validator contains
tries = refl

deposit_fits : FitsAll 1 2 stakers
unfolding lookup
deposit_fits = (λ d cached info found. ground arith, tt)

growth_total_example :
    total (tried_stakers.s_infos) ≡ total (stakers.s_infos) + amounts 1 2 (stakers.s_infos_add)
growth_total_example = growth_total 2 0 true stakers tried_stakers deposit_fits tries

-- A withdrawal that is applied, and one that waits on.
abbrev withdrawal : ℕ → WithdrawInfo
withdrawal version = record { staker_index = 0; withdraw_version = version }

abbrev queued : Stakers
queued = record stakers { withdraw_infos = withdrawal 1 ∷ withdrawal 4 ∷ [] }

abbrev grown_queued : Stakers
grown_queued = record (grown_stakers 62) {
  withdraw_version = 1;
  s_infos =
      map (λ (e : ℕ × StakerInfo). (e.0, record (e.1) { withdraw_version = 1 }))
        (grown_stakers 62).s_infos;
  withdraw_infos = withdrawal 4 ∷ [];
}

grows : grow_versions_from_cache 2 1 queued ≡ (grown_queued, none)
unfolding grow_versions_from_cache complete drop_deposits drop_withdraws
    try_grow_versions_from_cache check_grow grow_deposits apply_version apply_deposit
    try_grow_withdraws last_withdraw grow_withdraws keep_first has lookup insert add_validator
    contains
grows = refl

grown_versions_example :
    (1 ≤ 2)
    × (0 ≤ 1)
    × ◌≡◌ {A = ℕ} 2 2
    × ◌≡◌ {A = ℕ} 1 1
    × (grown_queued.prev_withdraw_infos ≡ [])
    × ((k : ℕ)
        → lookup k grown_queued.s_infos_add
          ≡ (if leb k 2 then none else lookup k queued.s_infos_add))
    × ((applied : List WithdrawInfo) × (queued.withdraw_infos
          ≡ applied ++ grown_queued.withdraw_infos)
        × All (λ w. w.withdraw_version ≤ 1) applied
        × StartsAfter 1 grown_queued.withdraw_infos)
grown_versions_example = grown_versions 2 1 queued grown_queued grows

applies : apply_balance_changes changes 2 0 stakers ≡ (grown_stakers 61, none)
unfolding apply_balance_changes apply_grown collect_updates store_updates complete drop_deposits
    drop_withdraws try_grow_versions_from_cache check_grow grow_deposits apply_version apply_deposit
    try_grow_withdraws lookup insert add_validator contains
applies = refl

applied_balances_example :
    ◌≡◌ {A = ℕ} 1 1
    × ◌≡◌ {A = ℕ} 2 2
    × ◌≡◌ {A = ℕ} 0 0
    × ((grown : Stakers) × (try_grow_versions_from_cache 2 0 false stakers ≡ (grown, none))
        × ((idx : ℕ)
            → lookup idx (grown_stakers 61).s_infos
              ≡ rebalanced 0 idx (changes.nst_balance_changes) (lookup idx grown.s_infos)))
applied_balances_example = applied_balances changes 2 0 stakers (grown_stakers 61) applies

-- Version 3 is not in the cache: the deposit of version 2, the first one of a new staker, is applied
-- and taken back.
abbrev newcomer : Stakers
newcomer = record stakers { s_infos_add = (2, record deposit { staker_index = 1 }) ∷ [] }

abbrev emptied : StakerInfo
emptied = record { address = codes "a"; validators = []; balance = 0; withdraw_version = 0 }

abbrev failed_stakers : Stakers
failed_stakers = record newcomer { s_infos = (0, staker) ∷ (1, emptied) ∷ [] }

fails :
    try_grow_versions_from_cache 3 0 true newcomer ≡ (failed_stakers, some Error.no_cached_deposit)
unfolding try_grow_versions_from_cache check_grow grow_deposits apply_version apply_deposit
    roll_back downgrade_version undo_deposits undo_deposit undo_withdraws remove_validator
    delete_first lookup insert add_validator contains
fails = refl

failing_fits : FitsAll 2 2 newcomer
unfolding lookup apply_version apply_deposit insert add_validator contains
failing_fits = (
  λ d cached info found. absurd (ground arith),
  (λ d cached info found. absurd (ground arith), tt),
)

failed_growth_example :
    AsBefore (lookup 1 (newcomer.s_infos)) (lookup 1 (failed_stakers.s_infos))
    × ◌≡◌ {A = ℕ} 1 1
    × ◌≡◌ {A = ℕ} 0 0
    × (newcomer.s_infos_add ≡ newcomer.s_infos_add)
    × (newcomer.withdraw_infos ≡ [])
failed_growth_example =
    failed_growth newcomer refl 3 true failed_stakers Error.no_cached_deposit 1 failing_fits fails

abbrev waiting : Stakers
waiting = record stakers { s_infos_add = (2, deposit) ∷ (3, deposit) ∷ [] }

caches : cache_deposits_withdraws ((3, deposit) ∷ []) 3 [] stakers ≡ (waiting, none)
unfolding cache_deposits_withdraws check_next cache_deposits cache_withdraws lookup insert has
caches = refl

cached_example :
    ((k : ℕ)
      → lookup k (waiting.s_infos_add)
        ≡ (if within 3 1 k then lookup k ((3, deposit) ∷ []) else lookup k (stakers.s_infos_add)))
    × (waiting.withdraw_infos ≡ [])
    × (waiting.s_infos ≡ stakers.s_infos)
    × ◌≡◌ {A = ℕ} 1 1
    × ◌≡◌ {A = ℕ} 0 0
cached_example = cached ((3, deposit) ∷ []) 3 [] stakers waiting (omega arith) caches

-- The queue ends at withdraw version 1.
abbrev gap : Stakers
gap = record stakers { withdraw_infos = record { staker_index = 0; withdraw_version = 1 } ∷ [] }

gap_passes : check_grow 2 3 true gap ≡ none
unfolding check_grow
gap_passes = refl

gap_grows : (grow_deposits 1 2 gap).2 ≡ none
unfolding grow_deposits apply_version apply_deposit lookup add_validator contains
gap_grows = refl

gap_fits : FitsAll 1 2 gap
unfolding lookup
gap_fits = (λ d cached info found. ground arith, tt)

short_queue : last_withdraw (gap.withdraw_infos) < 3
unfolding last_withdraw
short_queue = omega arith

gap_keeps_deposits_example :
    (t : Stakers) × (try_grow_versions_from_cache 2 3 true gap ≡ (t, some Error.no_cached_withdraw))
    × (total t.s_infos ≡ total (gap.s_infos) + amounts 1 2 (gap.s_infos_add))
    × (t.version ≡ 1)
gap_keeps_deposits_example =
    gap_keeps_deposits 2 3 true gap gap_fits gap_passes gap_grows (omega arith) short_queue

abbrev single : StakerInfos
single = (0, staker) ∷ []

removing : lookup {K = ℕ} 0 single ≡ some staker
unfolding lookup
removing = refl

remove_all_or_none-last_example :
    remove_all_or_none ((0, staker) ∷ []) single ≡ (erase 0 single, some Error.nil_dereference)
remove_all_or_none-last_example =
    remove_all_or_none-last 0 staker staker single removing refl (omega arith)

abbrev loaded_staker : OracleStaker
loaded_staker = record {
  staker_index = 0;
  staker_addr = codes "a";
  validator_list = record { validator_pubkey = codes "v"; version = 1; deposit_amount = 32 } ∷ [];
  balance_list = some (pos 32) ∷ [];
  withdraw_version = 2;
}

abbrev chain_version : NstVersion
chain_version = record { feed_version = 1; feed_withdraw_version = 1 }

reset_all_example :
    ((e : Error) × (load_stakers chain_version (loaded_staker ∷ []) empty_load ≡ refused e)
      × (reset (loaded_staker ∷ []) chain_version true stakers ≡ (stakers, some e)))
    ⊎ ((t : Stakers) × (reset (loaded_staker ∷ []) chain_version true stakers ≡ (t, none))
        × IsReported (loaded_staker ∷ []) chain_version t)
reset_all_example = reset_all (loaded_staker ∷ []) chain_version stakers
