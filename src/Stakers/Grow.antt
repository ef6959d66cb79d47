-- ===== src/Stakers/Grow.antt =====
-- fetcher/types/types.go: `tryGrowVersionsFromCache`, `GrowVersionsFromCacheByDepositWithdraw`,
-- `complete` and `downgradeVersion` of `Stakers`.
-- The loops over versions run `version - s.Version` rounds, which is what `i <= version` gives
-- for versions below 2^64 - 1.
pub mod Rollback
pub mod Atomic
pub mod Total
pub mod Progress
pub mod Gap
pub mod Known
use price_feeder.Prelude.{
  ℕ, zero, suc, ◌+◌, ◌-◌, List, [], ◌∷◌, Option, none, some, Bool, ◌&&◌, ◌||◌, ltb, leb,
  if◌then◌else◌, length, get_last?, ◌==◌, nat_eq,
}
use price_feeder.Prelude.Map.{lookup, insert, has}
use price_feeder.Stakers.{
  Error, DepositInfo, WithdrawInfo, Stakers, add_validator, remove_validator, version_zero,
  history_version, no_cached_deposit, no_cached_withdraw, index_gap, validator_exists,
  staker_not_found, nil_dereference,
}

-- One deposit: it makes a new staker, whose index must be the number of stakers, or gives one
-- more validator to a staker that exists.
unfoldable pub apply_deposit : DepositInfo → Stakers → Stakers × Option Error
apply_deposit deposit s = elim (lookup deposit.staker_index s.s_infos) [
  | none ↦
      if deposit.staker_index == length s.s_infos
      then (
        record s {
          s_infos =
              insert deposit.staker_index
                (record {
                  address = deposit.staker_addr;
                  validators = deposit.validator ∷ [];
                  balance = deposit.amount;
                  withdraw_version = 0;
                })
                s.s_infos;
        },
        none,
      )
      else (s, some index_gap)
  | some s_info ↦ elim (add_validator deposit.validator deposit.amount s_info) [
    | none ↦ (s, some validator_exists)
    | some grown ↦ (record s { s_infos = insert deposit.staker_index grown s.s_infos }, none)
  ]
]

-- The round of the loop for version `i`.
unfoldable pub apply_version : ℕ → Stakers → Stakers × Option Error
apply_version i s = elim (lookup i s.s_infos_add) [
  | none ↦ (s, some no_cached_deposit)
  | some deposit ↦ apply_deposit deposit s
]

-- The loop over the versions, with the value of `i` at its end.
unfoldable pub grow_deposits : ℕ → ℕ → Stakers → Stakers × ℕ × Option Error
grow_deposits zero i s = (s, i, none)
grow_deposits (suc n) i s =
    let (s', failed) = apply_version i s in
    elim failed [ some e ↦ (s', i, some e) | none ↦ grow_deposits n (suc i) s' ]

-- The first version of a staker in this round is kept in `prevWithdrawInfos`.
unfoldable pub keep_first : ℕ → ℕ → List (ℕ × ℕ) → List (ℕ × ℕ)
keep_first idx v prev = if has idx prev then prev else insert idx v prev

-- The loop over the withdrawals, with `latestWithdrawVersion` at its end.
unfoldable pub grow_withdraws : List WithdrawInfo → ℕ → ℕ → Stakers → Stakers × ℕ × Option Error
grow_withdraws [] withdraw_version latest s = (s, latest, none)
grow_withdraws (w ∷ ws) withdraw_version latest s =
    if ltb withdraw_version w.withdraw_version
    then (s, latest, none)
    else elim (lookup w.staker_index s.s_infos) [
      | none ↦ (s, latest, some staker_not_found)
      | some s_info ↦ grow_withdraws ws withdraw_version w.withdraw_version (record s {
        prev_withdraw_infos =
            keep_first w.staker_index s_info.withdraw_version s.prev_withdraw_infos;
        s_infos =
            insert w.staker_index (record s_info { withdraw_version = w.withdraw_version })
              s.s_infos;
      })
    ]

-- One deposit is taken back. A staker that is not there, or that `RemoveValidator` refuses to
-- change, is left alone.
unfoldable pub undo_deposit : DepositInfo → Stakers → Stakers
undo_deposit deposit s = elim (lookup deposit.staker_index s.s_infos) [
  | none ↦ s
  | some s_info ↦ elim (remove_validator deposit.validator deposit.amount s_info) [
    | none ↦ s
    | some shrunk ↦ record s { s_infos = insert deposit.staker_index shrunk s.s_infos }
  ]
]

-- The loop of `downgradeVersion` over the deposits, `n` rounds from version `i` down.
unfoldable pub undo_deposits : ℕ → ℕ → Stakers → Stakers × Option Error
undo_deposits zero i s = (s, none)
undo_deposits (suc n) i s = elim (lookup i s.s_infos_add) [
  | none ↦ (s, some nil_dereference)
  | some deposit ↦ undo_deposits n (i - 1) (undo_deposit deposit s)
]

-- Its loop over `prevWithdrawInfos`.
unfoldable pub undo_withdraws : List (ℕ × ℕ) → Stakers → Stakers
undo_withdraws [] s = s
undo_withdraws ((idx, v) ∷ prev) s = elim (lookup idx s.s_infos) [
  | none ↦ undo_withdraws prev s
  | some s_info ↦
      undo_withdraws prev
        (record s { s_infos = insert idx (record s_info { withdraw_version = v }) s.s_infos })
]

unfoldable pub downgrade_version : ℕ → Stakers → Stakers × Option Error
downgrade_version version s =
    let (s', failed) = undo_deposits (version - s.version) version s in
    elim failed [
      | some e ↦ (s', some e)
      | none ↦
          (record (undo_withdraws s'.prev_withdraw_infos s') { prev_withdraw_infos = [] }, none)
    ]

-- A deferred `downgradeVersion` after the error `e`: a panic of its own takes the place of `e`.
unfoldable pub roll_back : Bool → ℕ → Error → Stakers → Stakers × Option Error
roll_back needed version e s =
    let (s', failed) = downgrade_version version s in
    if needed then elim failed [ some p ↦ (s', some p) | none ↦ (s', some e) ] else (s, some e)

-- The guards of `tryGrowVersionsFromCache`; `some` is an early return with its error.
unfoldable pub check_grow : ℕ → ℕ → Bool → Stakers → Option (Option Error)
check_grow version withdraw_version updating s =
    if ltb version s.version || ltb withdraw_version s.withdraw_version
    then some (some history_version)
    else if version == s.version && withdraw_version == s.withdraw_version
    then some (if updating then some history_version else none)
    else if length s.s_infos_add == 0 && ltb s.version version
    then some (some no_cached_deposit)
    else if length s.withdraw_infos == 0 && ltb s.withdraw_version withdraw_version
    then some (some no_cached_withdraw)
    else none

unfoldable pub last_withdraw : List WithdrawInfo → ℕ
last_withdraw infos = elim (get_last? infos) [ none ↦ 0 | some w ↦ w.withdraw_version ]

-- The part that applies the withdrawals. The return for a target beyond the queue does not set
-- `err`, so nothing is rolled back there.
unfoldable pub try_grow_withdraws : ℕ → ℕ → Stakers → Stakers × Option Error
try_grow_withdraws i withdraw_version s =
    if ltb s.withdraw_version withdraw_version
    then (if ltb (last_withdraw s.withdraw_infos) withdraw_version
        then (s, some no_cached_withdraw)
        else (let (s', latest, failed) =
              grow_withdraws s.withdraw_infos withdraw_version s.withdraw_version
                (record s { prev_withdraw_infos = [] }) in
            elim failed [
              | none ↦ (s', none)
              | some e ↦ roll_back (ltb 1 i || ltb s.withdraw_version latest) (i - 1) e s'
            ]))
    else (s, none)

unfoldable pub try_grow_versions_from_cache : ℕ → ℕ → Bool → Stakers → Stakers × Option Error
try_grow_versions_from_cache version withdraw_version updating s =
    elim (check_grow version withdraw_version updating s) [
      | some early ↦ (s, early)
      | none ↦
          let (s', i, failed) = grow_deposits (version - s.version) (s.version + 1) s in
          elim failed [
            | some e ↦ roll_back (ltb 1 i) (i - 1) e s'
            | none ↦ try_grow_withdraws i withdraw_version s'
          ]
    ]

-- `complete` drops what was applied from the caches.
unfoldable pub drop_deposits : ℕ → List (ℕ × DepositInfo) → List (ℕ × DepositInfo)
drop_deposits version [] = []
drop_deposits version ((v, d) ∷ m) =
    if leb v version then drop_deposits version m else (v, d) ∷ drop_deposits version m

unfoldable pub drop_withdraws : ℕ → List WithdrawInfo → List WithdrawInfo
drop_withdraws withdraw_version [] = []
drop_withdraws withdraw_version (w ∷ ws) =
    let rest = drop_withdraws withdraw_version ws in
    if ltb withdraw_version w.withdraw_version then w ∷ ws else rest

unfoldable pub complete : ℕ → ℕ → Stakers → Stakers
complete version withdraw_version s = record s {
  s_infos_add = drop_deposits version s.s_infos_add;
  withdraw_infos = drop_withdraws withdraw_version s.withdraw_infos;
  prev_withdraw_infos = [];
  version = version;
  withdraw_version = withdraw_version;
}

unfoldable pub grow_versions_from_cache : ℕ → ℕ → Stakers → Stakers × Option Error
grow_versions_from_cache version withdraw_version s =
    let (s', failed) = try_grow_versions_from_cache version withdraw_version Bool.true s in
    if ltb version 1
    then (s, some version_zero)
    else elim failed [ some e ↦ (s', some e) | none ↦ (complete version withdraw_version s', none) ]
