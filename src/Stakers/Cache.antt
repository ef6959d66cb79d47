-- ===== src/Stakers/Cache.antt =====
-- fetcher/types/types.go: `Stakers.CacheDepositsWithdraws`. Deposits wait under the version that
-- they lead to, withdrawals in a queue, until the chain says that a version was fed.
pub mod Deposits
use price_feeder.Prelude.{
  ℕ, zero, suc, ◌+◌, ◌-◌, ◌^◌, List, [], ◌∷◌, ◌++◌, Option, none, some, Bool, true, false, not,
  ◌&&◌, ◌||◌, ltb, leb, if◌then◌else◌, length, get_last?, ◌==◌, nat_eq,
}
use price_feeder.Prelude.Map.{lookup, insert, has}
use price_feeder.Stakers.{
  u64, Error, DepositInfo, WithdrawInfo, Stakers, version_zero, version_mismatch, version_missing,
  version_exists, withdraw_version_zero, withdraw_version_exists, withdraw_version_gap,
}

-- The three checks at the top.
unfoldable pub check_next : ℕ → ℕ → Stakers → Option Error
check_next deposits next_version s =
    if ltb 0 deposits && next_version == 0
    then some version_zero
    else if ltb 0 (length s.s_infos_add)
        && (not (has (u64 (next_version + (2 ^ 64 - 1))) s.s_infos_add)
            || has next_version s.s_infos_add)
    then some version_exists
    else if length s.s_infos_add == 0 && not (u64 (s.version + 1) == next_version)
    then some version_mismatch
    else none

-- The first loop: `n` rounds are left, and `v` is `nextVersion + i`.
unfoldable pub cache_deposits : List (ℕ × DepositInfo) → ℕ → ℕ → Stakers → Stakers × Option Error
cache_deposits deposits zero v s = (s, none)
cache_deposits deposits (suc n) v s = elim (lookup v deposits) [
  | none ↦ (s, some version_missing)
  | some deposit ↦ elim (has v s.s_infos_add) [
    | true ↦ (s, some version_exists)
    | false ↦
        cache_deposits deposits n (u64 (v + 1))
          (record s { s_infos_add = insert v deposit s.s_infos_add })
  ]
]

-- `withdrawInfos` is empty, or its last version is the one before `v`.
unfoldable pub follows : List WithdrawInfo → ℕ → Bool
follows infos v = elim (get_last? infos) [
  | none ↦ true
  | some w ↦ u64 (w.withdraw_version + 1) == v
]

-- The second loop.
unfoldable pub cache_withdraws : List WithdrawInfo → Stakers → Stakers × Option Error
cache_withdraws [] s = (s, none)
cache_withdraws (w ∷ ws) s =
    let rest = cache_withdraws ws (record s { withdraw_infos = s.withdraw_infos ++ (w ∷ []) }) in
    if w.withdraw_version == 0
    then (s, some withdraw_version_zero)
    else if leb w.withdraw_version s.withdraw_version
    then (s, some withdraw_version_exists)
    else if follows s.withdraw_infos w.withdraw_version
    then rest
    else (s, some withdraw_version_gap)

unfoldable pub cache_deposits_withdraws :
    List (ℕ × DepositInfo) → ℕ → List WithdrawInfo → Stakers → Stakers × Option Error
cache_deposits_withdraws deposits next_version withdraws s =
    elim (check_next (length deposits) next_version s) [
      | some e ↦ (s, some e)
      | none ↦
          let (s', failed) = cache_deposits deposits (length deposits) next_version s in
          elim failed [ some e ↦ (s', some e) | none ↦ cache_withdraws withdraws s' ]
    ]
