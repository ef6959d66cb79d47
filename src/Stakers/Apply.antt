-- ===== src/Stakers/Apply.antt =====
-- fetcher/types/types.go: `Stakers.ApplyBalanceChanges`, which the chain's confirmation of a
-- balance change calls.
pub mod Balances
use price_feeder.Prelude.{
  ℕ, List, [], ◌∷◌, Option, none, some, Bool, ◌||◌, ltb, if◌then◌else◌, ◌==◌, nat_eq,
}
use price_feeder.Prelude.Map.{lookup, insert}
use price_feeder.Stakers.{Error, StakerInfos, Stakers, staker_not_found, version_mismatch}
use price_feeder.Stakers.Grow.{try_grow_versions_from_cache, roll_back, complete}

-- `NSTKV` and `RawDataNST`, the fields that the code reads.
pub record BalanceChange : Type 0 where
  pub staker_index : ℕ  -- uint32
  pub balance : ℕ  -- uint64

pub record RawData : Type 0 where
  pub version : ℕ
  pub withdraw_version : ℕ
  pub nst_balance_changes : List BalanceChange

-- The first loop: the copies with the new balances. A staker with a withdrawal that this update
-- has not fed yet keeps its balance.
unfoldable pub collect_updates : Stakers → List BalanceChange → StakerInfos → Option StakerInfos
collect_updates s [] updated = some updated
collect_updates s (change ∷ changes) updated = elim (lookup change.staker_index s.s_infos) [
  | none ↦ none
  | some s_info ↦ collect_updates s changes (
      if ltb s.withdraw_version s_info.withdraw_version
      then updated
      else insert change.staker_index (record s_info { balance = change.balance }) updated)
]

-- The second loop.
unfoldable pub store_updates : StakerInfos → StakerInfos → StakerInfos
store_updates [] sis = sis
store_updates ((idx, s_info) ∷ updated) sis = store_updates updated (insert idx s_info sis)

-- The part after the growth, with the deferred function.
unfoldable pub apply_grown : List BalanceChange → ℕ → ℕ → Stakers → Stakers × Option Error
apply_grown changes version withdraw_version s = elim (collect_updates s changes []) [
  | none ↦
      roll_back (ltb 1 version || ltb s.withdraw_version withdraw_version) version staker_not_found
        s
  | some updated ↦ (
    complete version withdraw_version (record s { s_infos = store_updates updated s.s_infos }),
    none,
  )
]

unfoldable pub apply_balance_changes : RawData → ℕ → ℕ → Stakers → Stakers × Option Error
apply_balance_changes changes version withdraw_version s =
    let (grown, failed) = try_grow_versions_from_cache version withdraw_version Bool.false s in
    if s.version == changes.version
    then elim failed [
      | some e ↦ (grown, some e)
      | none ↦ apply_grown changes.nst_balance_changes version withdraw_version grown
    ]
    else (s, some version_mismatch)
