-- ===== src/Stakers/Reset.antt =====
-- fetcher/types/types.go: `Stakers.Reset`, which loads the stakers that the chain reports.
pub mod Loads
pub mod Reported
pub mod Queue
use price_feeder.Prelude.{
  ℕ, ◌+◌, ◌-◌, List, [], ◌∷◌, ◌++◌, Option, none, some, Bool, true, false, not, ◌&&◌, ltb, leb,
  if◌then◌else◌, get_last?, length, Bytes, ◌==◌, nat_eq, bytes_eq,
}
use price_feeder.Prelude.Int.{ℤ, bits}
use price_feeder.Prelude.Map.{insert}
use price_feeder.Stakers.{
  u64, Error, StakerInfos, DepositInfo, WithdrawInfo, Stakers, contains, version_mismatch,
  duplicated_staker, duplicated_validator, balance_below_pending,
}

-- The fields that the code reads of the oracle module's `ValidatorDeposit`, `StakerInfo` and
-- `NSTVersion`. A balance is an int64, and the entry of the list may be nil.
pub record ValidatorDeposit : Type 0 where
  pub validator_pubkey : Bytes
  pub version : ℕ
  pub deposit_amount : ℕ

pub record OracleStaker : Type 0 where
  pub staker_index : ℕ
  pub staker_addr : Bytes
  pub validator_list : List ValidatorDeposit
  pub balance_list : List (Option ℤ)
  pub withdraw_version : ℕ

pub record NstVersion : Type 0 where
  pub feed_version : ℕ
  pub feed_withdraw_version : ℕ

-- What the loop over a staker's validators collects.
pub record Split : Type 0 where
  pub validators : List Bytes
  pub seen : List Bytes
  pub deposits : List (ℕ × DepositInfo)
  pub pending : ℕ

-- A validator that was deposited after the fed version waits as a deposit.
unfoldable pub split_validator : ℕ → OracleStaker → ValidatorDeposit → Split → Split
split_validator fed info v p =
    if leb v.version fed
    then record p {
      validators = p.validators ++ (v.validator_pubkey ∷ []);
      seen = v.validator_pubkey ∷ p.seen;
    }
    else record p {
      seen = v.validator_pubkey ∷ p.seen;
      deposits =
          insert v.version
            (record {
              staker_index = info.staker_index;
              staker_addr = info.staker_addr;
              validator = v.validator_pubkey;
              amount = v.deposit_amount;
            })
            p.deposits;
      pending = u64 (p.pending + v.deposit_amount);
    }

unfoldable pub split_validators : ℕ → OracleStaker → List ValidatorDeposit → Split → Option Split
split_validators fed info [] p = some p
split_validators fed info (v ∷ vs) p =
    let rest = split_validators fed info vs (split_validator fed info v p) in
    if contains v.validator_pubkey p.seen then none else rest

-- The last balance, or 0.
unfoldable pub latest_balance : List (Option ℤ) → ℕ
latest_balance balances = elim (get_last? balances) [
  | none ↦ 0
  | some b ↦ elim b [ none ↦ 0 | some z ↦ bits 64 z ]
]

-- What the loop over the stakers collects.
pub record Load : Type 0 where
  pub infos : StakerInfos
  pub deposits : List (ℕ × DepositInfo)
  pub withdraws : List WithdrawInfo
  pub seen : List ℕ

abbrev pub seen_index : ℕ → List ℕ → Bool
seen_index i [] = false
seen_index i (j ∷ js) = if j == i then true else seen_index i js

unfoldable pub add_staker : NstVersion → OracleStaker → Split → Load → Load
add_staker version info p l = record l {
  seen = info.staker_index ∷ l.seen;
  deposits = p.deposits;
  infos =
      if ltb 0 (length p.validators)
      then insert info.staker_index
          (record {
            address = info.staker_addr;
            validators = p.validators;
            balance = latest_balance info.balance_list - p.pending;
            withdraw_version = info.withdraw_version;
          })
          l.infos
      else l.infos;
  withdraws =
      if ltb version.feed_withdraw_version info.withdraw_version
      then l.withdraws
        ++ (record { staker_index = info.staker_index; withdraw_version = info.withdraw_version }
            ∷ [])
      else l.withdraws;
}

pub data Loaded : Type 0 where
  loaded : Load → Loaded
  refused : Error → Loaded

unfoldable pub load_staker : NstVersion → OracleStaker → Load → Loaded
load_staker version info l =
    let start : Split = record { validators = []; seen = []; deposits = l.deposits; pending = 0 } in
    if seen_index info.staker_index l.seen
    then refused duplicated_staker
    else elim (split_validators version.feed_version info info.validator_list start) [
      | none ↦ refused duplicated_validator
      | some p ↦
          if ltb (latest_balance info.balance_list) p.pending
          then refused balance_below_pending
          else loaded (add_staker version info p l)
    ]

unfoldable pub load_stakers : NstVersion → List OracleStaker → Load → Loaded
load_stakers version [] l = loaded l
load_stakers version (info ∷ infos) l = elim (load_staker version info l) [
  | refused e ↦ refused e
  | loaded l' ↦ load_stakers version infos l'
]

-- `sort.Slice` by withdraw version.
unfoldable pub sort_insert : WithdrawInfo → List WithdrawInfo → List WithdrawInfo
sort_insert w [] = w ∷ []
sort_insert w (x ∷ xs) =
    let rest = sort_insert w xs in
    if leb w.withdraw_version x.withdraw_version then w ∷ x ∷ xs else x ∷ rest

unfoldable pub sort_withdraws : List WithdrawInfo → List WithdrawInfo
sort_withdraws [] = []
sort_withdraws (w ∷ ws) = sort_insert w (sort_withdraws ws)

-- `for k, v := range src { dst[k] = v }`.
unfoldable pub merge : {V : Type 0} → List (ℕ × V) → List (ℕ × V) → List (ℕ × V)
merge [] dst = dst
merge ((k, v) ∷ src) dst = merge src (insert k v dst)

unfoldable pub install : NstVersion → Bool → Load → Stakers → Stakers
install version true l s = record s {
  s_infos = l.infos;
  s_infos_add = l.deposits;
  withdraw_infos = sort_withdraws l.withdraws;
  version = version.feed_version;
  withdraw_version = version.feed_withdraw_version;
}
install version false l s = record s {
  s_infos = merge l.infos s.s_infos;
  s_infos_add = merge l.deposits s.s_infos_add;
  withdraw_infos = s.withdraw_infos ++ sort_withdraws l.withdraws;
  version = version.feed_version;
  withdraw_version = version.feed_withdraw_version;
}

abbrev pub empty_load : Load
empty_load = record { infos = []; deposits = []; withdraws = []; seen = [] }

unfoldable pub reset : List OracleStaker → NstVersion → Bool → Stakers → Stakers × Option Error
reset infos version all s =
    if not all && not (u64 (s.version + 1) == version.feed_version)
    then (s, some version_mismatch)
    else elim (load_stakers version infos empty_load) [
      | refused e ↦ (s, some e)
      | loaded l ↦ (install version all l s, none)
    ]
