-- ===== src/Stakers.antt =====
-- fetcher/types/types.go: the stakers of a native-restaking token (`StakerInfo`, `Stakers`).
-- A pointer to a struct is the struct: each of them has one owner. A method that changes its
-- receiver and may fail returns the receiver as it leaves it, beside the error.
pub mod Tests
pub mod Access
use price_feeder.Prelude.{
  ℕ, ◌+◌, ◌-◌, ◌%◌, ◌^◌, List, [], ◌∷◌, ◌++◌, Option, none, some, Bool, ltb, if◌then◌else◌, length,
  Bytes, ◌==◌, bytes_eq,
}
pub mod Validators
pub mod Infos
pub mod Grow
pub mod Reset
pub mod Apply
pub mod Cache
pub mod Batch

-- uint64 arithmetic wraps.
abbrev u64 : ℕ → ℕ
u64 n = n % 2 ^ 64

-- The errors of the methods, without their texts; `nil_dereference` is the run-time panic of a read
-- through a nil pointer.
pub data Error : Type 0 where
  validator_exists staker_not_found balance_not_enough validator_not_found : Error
  version_mismatch version_exists version_missing version_zero : Error
  withdraw_version_zero withdraw_version_exists withdraw_version_gap : Error
  history_version no_cached_deposit no_cached_withdraw index_gap : Error
  duplicated_staker duplicated_validator balance_below_pending : Error
  nil_dereference : Error

pub record StakerInfo : Type 0 where
  pub address : Bytes
  pub validators : List Bytes
  pub balance : ℕ  -- uint64
  pub withdraw_version : ℕ  -- uint64

pub record WithdrawInfo : Type 0 where
  pub staker_index : ℕ  -- uint32
  pub withdraw_version : ℕ  -- uint64

pub record DepositInfo : Type 0 where
  pub staker_index : ℕ  -- uint32
  pub staker_addr : Bytes
  pub validator : Bytes
  pub amount : ℕ  -- uint64

abbrev pub StakerInfos : Type 0
StakerInfos = List (ℕ × StakerInfo)

pub record Stakers : Type 0 where
  pub version : ℕ
  pub withdraw_version : ℕ
  pub s_infos : StakerInfos
  pub s_infos_add : List (ℕ × DepositInfo)
  pub withdraw_infos : List WithdrawInfo
  pub prev_withdraw_infos : List (ℕ × ℕ)

new_staker_info : StakerInfo
new_staker_info = record { address = []; validators = []; balance = 0; withdraw_version = 0 }

unfoldable pub new_stakers : Stakers
new_stakers = record {
  version = 0;
  withdraw_version = 0;
  s_infos = [];
  s_infos_add = [];
  withdraw_infos = [];
  prev_withdraw_infos = [];
}

-- `slices.Contains`.
unfoldable pub contains : Bytes → List Bytes → Bool
contains v [] = Bool.false
contains v (w ∷ ws) = if w == v then Bool.true else contains v ws

-- `slices.Index` and `slices.Delete` of that one element; `none` for the index -1.
delete_first : Bytes → List Bytes → Option (List Bytes)
delete_first v [] = none
delete_first v (w ∷ ws) =
    let rest = delete_first v ws in
    if w == v then some ws else elim rest [ none ↦ none | some r ↦ some (w ∷ r) ]

-- `none` is the result `false`, which leaves the staker as it is.
pub remove_validator : Bytes → ℕ → StakerInfo → Option StakerInfo
remove_validator validator balance s =
    if ltb s.balance balance then none else elim (delete_first validator s.validators) [
      | none ↦ none
      | some rest ↦ some (record s { balance = s.balance - balance; validators = rest })
    ]

unfoldable pub add_validator : Bytes → ℕ → StakerInfo → Option StakerInfo
add_validator validator balance s =
    if contains validator s.validators
    then none
    else some (record s {
      validators = s.validators ++ (validator ∷ []);
      balance = u64 (s.balance + balance);
    })
