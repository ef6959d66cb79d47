-- ===== src/Beacon.antt =====
-- fetcher/beaconchain: the source of the balances of stakers on the beacon chain. The node, the
-- contracts on Ethereum and the encoder of the oracle module's messages are parameters.
pub mod Fetch
pub mod Chunks
pub mod Changes
pub mod Tests
pub mod Confirmed
pub mod Init
use price_feeder.Prelude.{
  ℕ, zero, suc, ◌+◌, ◌-◌, ◌*◌, ◌/◌, ◌%◌, ◌^◌, List, [], ◌∷◌, ◌++◌, Option, none, some, Bool, true,
  false, not, ◌&&◌, ◌||◌, ltb, leb, if◌then◌else◌, length, take, drop, Bytes, ◌==◌, nat_eq,
  bytes_eq, codes,
}
use price_feeder.Prelude.Int.{ℤ, pos}
use price_feeder.Text.{parse_uint_value, parse_int_value, format_uint, join}
use price_feeder.Stakers.{StakerInfo, StakerInfos, Stakers}
use price_feeder.Stakers.Apply.{BalanceChange, RawData}
use price_feeder.Feeder.Price.{PriceInfo, empty_price}

-- `value.Index` and `value.Validator.EffectiveBalance` of an answered validator.
pub record ValidatorText : Type 0 where
  pub index : Bytes
  pub effective_balance : Bytes

-- The fields that are read of the finalized block.
pub record FinalizedBlock : Type 0 where
  pub slot : Bytes
  pub block_number : Bytes
  pub state_root : Bytes

-- What the world answers; `none` is an error. The contract calls are made at a block.
pub record World : Type 0 where
  pub finalized_block : Option FinalizedBlock
  -- `getCapsuleAddressForStaker`; the empty text and the zero address are no capsule.
  pub capsule_address : (block_number : ℤ) → (staker : Bytes) → Option Bytes
  pub is_in_claim_progress : (block_number : ℤ) → (capsule : Bytes) → Option Bool
  pub withdrawable_balance : (block_number : ℤ) → (capsule : Bytes) → Option ℕ
  pub balance_at : (block_number : ℤ) → (capsule : Bytes) → Option ℕ
  -- The code of the answer and its validators, for a state root and the ids.
  pub post_validators : (state_root : Bytes) → List Bytes → Option (ℕ × List ValidatorText)
  -- `proto.Marshal` of `RawDataNST`.
  pub marshal : RawData → Option Bytes

abbrev u64 : ℕ → ℕ
u64 n = n % 2 ^ 64

abbrev zero_address : Bytes
zero_address = codes "0x0000000000000000000000000000000000000000"

-- The loop over the answered validators.
unfoldable pub balances_of : List ValidatorText → List ℕ
unfolding parse_uint_value
balances_of [] = []
balances_of (v ∷ vs) = parse_uint_value 64 v.effective_balance ∷ balances_of vs

unfoldable pub get_validators : World → Bytes → List Bytes → Option (List ℕ)
unfolding balances_of
get_validators w state_root ids = elim (w.post_validators state_root ids) [
  | none ↦ none
  | some (code, validators) ↦ if code == 0 then some (balances_of validators) else none
]

-- `stakerBalance += validatorBalance` for each of them.
unfoldable pub add_balances : ℕ → List ℕ → ℕ
add_balances total [] = total
add_balances total (b ∷ bs) = add_balances (u64 (total + b)) bs

-- The requests for at most 100 validators each; the fuel bounds the requests.
unfoldable pub sum_validators : World → Bytes → ℕ → List Bytes → ℕ → Option ℕ
unfolding get_validators add_balances
sum_validators w state_root zero ids total = elim (get_validators w state_root ids) [
  | none ↦ none
  | some bs ↦ some (add_balances total bs)
]
sum_validators w state_root (suc fuel) ids total =
    let rest = λ (total' : ℕ). sum_validators w state_root fuel (drop 100 ids) total' in
    if ltb 100 (length ids)
    then elim (get_validators w state_root (take 100 ids)) [
      | none ↦ none
      | some bs ↦ rest (add_balances total bs)
    ]
    else elim (get_validators w state_root ids) [
      | none ↦ none
      | some bs ↦ some (add_balances total bs)
    ]

-- `getCapsuleValidBalance`: a capsule in claim progress is an error.
unfoldable pub get_capsule_valid_balance : World → ℤ → Bytes → Option ℕ
get_capsule_valid_balance w block_number capsule =
    elim (w.is_in_claim_progress block_number capsule) [
      | none ↦ none
      | some true ↦ none
      | some false ↦ elim (w.withdrawable_balance block_number capsule) [
        | none ↦ none
        | some withdrawable ↦ elim (w.balance_at block_number capsule) [
          | none ↦ none
          | some balance ↦ if ltb balance withdrawable then none else some (balance - withdrawable)
        ]
      ]
    ]

-- The block number that is read of the block; the error of a text that is no number is dropped.
abbrev pub number_of : FinalizedBlock → ℤ
number_of block = parse_int_value 64 block.block_number

-- The balance of a staker: its capsule in Gwei and its validators.
unfoldable pub staker_balance : World → FinalizedBlock → StakerInfo → Option ℕ
unfolding get_capsule_valid_balance sum_validators
staker_balance w block s = elim (w.capsule_address (number_of block) s.address) [
  | none ↦ none
  | some capsule ↦
      if length capsule == 0 || capsule == zero_address
      then none
      else elim (get_capsule_valid_balance w (number_of block) capsule) [
        | none ↦ none
        | some wei ↦
            sum_validators w block.state_root (length s.validators) s.validators
              (u64 (wei / 10 ^ 9))
      ]
]

-- A balance that differs, or a withdrawal that was not fed yet.
unfoldable pub is_changed : ℕ → ℕ → StakerInfo → Bool
is_changed finalized_withdraw balance s =
    not (balance == s.balance) || ltb finalized_withdraw s.withdraw_version

-- The loop over the stakers; a staker without validators is left out, and an error ends the fetch.
unfoldable pub collect_changes :
    World → FinalizedBlock → ℕ → StakerInfos → Option (List BalanceChange)
unfolding staker_balance is_changed
collect_changes w block finalized_withdraw [] = some []
collect_changes w block finalized_withdraw ((idx, s) ∷ sis) =
    let rest = collect_changes w block finalized_withdraw sis in
    if length s.validators == 0 then rest else elim (staker_balance w block s) [
      | none ↦ none
      | some balance ↦ elim rest [
        | none ↦ none
        | some changes ↦
            if is_changed finalized_withdraw balance s
            then some (record { staker_index = idx; balance = balance } ∷ changes)
            else some changes
      ]
    ]

-- `sort.Slice` by the staker's index.
unfoldable insert_sorted : BalanceChange → List BalanceChange → List BalanceChange
insert_sorted c [] = c ∷ []
insert_sorted c (d ∷ ds) =
    let rest = insert_sorted c ds in
    if leb c.staker_index d.staker_index then c ∷ d ∷ ds else d ∷ rest

unfoldable pub sort_changes : List BalanceChange → List BalanceChange
unfolding insert_sorted
sort_changes [] = []
sort_changes (c ∷ cs) = insert_sorted c (sort_changes cs)
