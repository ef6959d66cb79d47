-- ===== src/Solana.antt =====
-- fetcher/solana: the source of the stakes of validators on Solana. The node, the check of a public
-- key and the encoder of the oracle module's messages are parameters.
pub mod Retried
use price_feeder.Prelude.{
  ℕ, zero, suc, ◌+◌, ◌-◌, ◌%◌, ◌^◌, List, [], ◌∷◌, Option, none, some, Bool, true, false, not, ◌&&◌,
  ltb, leb, if◌then◌else◌, length, take, drop, Bytes, ◌==◌, nat_eq, bytes_eq, codes, map,
}
use price_feeder.Prelude.Int.{pos, bits, ◌-ℤ◌}
use price_feeder.Prelude.Map.{insert}
use price_feeder.Text.{parse_uint_value, format_uint, join}
use price_feeder.Stakers.{StakerInfo, StakerInfos, Stakers}
use price_feeder.Stakers.Apply.{BalanceChange, RawData}
use price_feeder.Feeder.Price.{PriceInfo, empty_price}
use price_feeder.Source.{Fetch, got, fetch_fails}
use price_feeder.Beacon.{add_balances, sort_changes}
use price_feeder.Beacon.Fetch.{price_of}

-- The fields that are read of `GetEpochInfoResult`.
pub record EpochInfo : Type 0 where
  pub absolute_slot : ℕ
  pub slot_index : ℕ
  pub epoch : ℕ
  pub slots_in_epoch : ℕ

-- The node's answers. The requests for the epoch are numbered; an account is nil, or has the text of
-- its stake, which is `none` where the account cannot be read.
pub record Node : Type 0 where
  pub epoch_info : ℕ → Option EpochInfo
  pub multiple_accounts :
      (keys : List Bytes) → (min_slot : ℕ) → Option (ℕ × List (Option (Option Bytes)))
  pub is_public_key : Bytes → Bool
  pub marshal : RawData → Option Bytes

-- A result, the error of a slot after the epoch, another error, or a panic.
pub data Result (A : Type 0) : Type 0 where
  ok : A → Result A
  exceeds_max_slot : Result A
  other_error : Result A
  panics : Result A

-- The epoch with its first and last slot, as uint64s.
pub record Epoch : Type 0 where
  pub epoch : ℕ
  pub start_slot : ℕ
  pub end_slot : ℕ

-- `getFinalizedEpoch`, which panics on an error of the node.
unfoldable pub get_finalized_epoch : Node → ℕ → Result Epoch
get_finalized_epoch node n = elim (node.epoch_info n) [
  | none ↦ panics
  | some info ↦
      let start = bits 64 (pos info.absolute_slot -ℤ pos info.slot_index) in
      let slots = bits 64 (pos info.slots_in_epoch -ℤ pos 1) in
      ok (record { epoch = info.epoch; start_slot = start; end_slot = (start + slots) % 2 ^ 64 })
]

-- The loop over the accounts: a map from keys to stakes.
unfoldable pub read_stakes :
    List Bytes → List (Option (Option Bytes)) → List (Bytes × ℕ) → Option (List (Bytes × ℕ))
unfolding parse_uint_value
read_stakes (key ∷ keys) (none ∷ accounts) ret = read_stakes keys accounts (insert key 0 ret)
read_stakes (key ∷ keys) (some none ∷ accounts) ret = none
read_stakes (key ∷ keys) (some (some text) ∷ accounts) ret =
    read_stakes keys accounts (insert key (parse_uint_value 64 text) ret)
read_stakes _ _ ret = some ret

unfoldable all_keys : Node → List Bytes → Bool
all_keys node [] = true
all_keys node (key ∷ keys) = node.is_public_key key && all_keys node keys

unfoldable pub get_stake_accounts : Node → List Bytes → ℕ → ℕ → Result (List ℕ)
unfolding all_keys read_stakes
get_stake_accounts node keys min_slot max_slot =
    if all_keys node keys
    then elim (node.multiple_accounts keys min_slot) [
      | none ↦ other_error
      | some (slot, accounts) ↦
          if ltb max_slot slot then exceeds_max_slot else elim (read_stakes keys accounts []) [
            | none ↦ other_error
            | some stakes ↦ ok (map (λ (entry : Bytes × ℕ). entry.1) stakes)
          ]
    ]
    else panics

-- The requests for at most 100 validators each; the fuel bounds the requests.
unfoldable pub sum_stakes : Node → Epoch → ℕ → List Bytes → ℕ → Result ℕ
unfolding get_stake_accounts add_balances
sum_stakes node e zero keys total = elim (get_stake_accounts node keys e.start_slot e.end_slot) [
  | ok stakes ↦ ok (add_balances total stakes)
  | exceeds_max_slot ↦ exceeds_max_slot
  | other_error ↦ other_error
  | panics ↦ panics
]
sum_stakes node e (suc fuel) keys total =
    let more = ltb 100 (length keys) in
    let asked = if more then take 100 keys else keys in
    let rest = λ (t : ℕ). sum_stakes node e fuel (drop 100 keys) t in
    elim (get_stake_accounts node asked e.start_slot e.end_slot) [
      | ok stakes ↦
          if more then rest (add_balances total stakes) else ok (add_balances total stakes)
      | exceeds_max_slot ↦ exceeds_max_slot
      | other_error ↦ other_error
      | panics ↦ panics
    ]

-- `fetchStakerBalanceChanges`: the stakers whose stake differs from the known balance.
unfoldable pub fetch_staker_balance_changes :
    Node → Epoch → StakerInfos → Result (List BalanceChange)
unfolding sum_stakes
fetch_staker_balance_changes node e [] = ok []
fetch_staker_balance_changes node e ((idx, s) ∷ sis) =
    let rest = fetch_staker_balance_changes node e sis in
    elim (sum_stakes node e (length s.validators) s.validators 0) [
      | exceeds_max_slot ↦ exceeds_max_slot
      | other_error ↦ other_error
      | panics ↦ panics
      | ok balance ↦ elim rest [
        | exceeds_max_slot ↦ exceeds_max_slot
        | other_error ↦ other_error
        | panics ↦ panics
        | ok changes ↦
            if balance == s.balance
            then ok changes
            else ok (record { staker_index = idx; balance = balance } ∷ changes)
      ]
    ]

-- The source with its variables.
pub record SolanaSource : Type 0 where
  pub stakers : Stakers
  pub finalized_epoch : ℕ
  pub finalized_version : ℕ
  pub latest_changes_bytes : Bytes

-- What a fetch does: an answer, a panic, or a loop that goes on.
pub data Fetched : Type 0 where
  fetched : SolanaSource → Fetch → Fetched
  fetch_panics : Fetched
  unfinished : Fetched

unfoldable pub round_of : ℕ → ℕ → Bytes
unfolding join format_uint
round_of epoch version = join b'_' (format_uint epoch ∷ format_uint version ∷ [])

unfoldable pub is_known : Epoch → SolanaSource → Bool
is_known e s = leb e.epoch s.finalized_epoch && leb s.stakers.version s.finalized_version

unfoldable pub changes_bytes : Node → ℕ → List BalanceChange → Option Bytes
unfolding sort_changes
changes_bytes node version [] = some []
changes_bytes node version (c ∷ cs) = node.marshal (record {
  version = version;
  withdraw_version = 0;
  nst_balance_changes = sort_changes (c ∷ cs);
})

unfoldable pub report : Node → Epoch → List BalanceChange → SolanaSource → Fetched
unfolding changes_bytes round_of
report node e changes s = elim (changes_bytes node s.stakers.version changes) [
  | none ↦ fetched s fetch_fails
  | some bytes ↦
      fetched
        (record s {
          finalized_epoch = e.epoch;
          finalized_version = s.stakers.version;
          latest_changes_bytes = bytes;
        })
        (got (price_of bytes (round_of e.epoch s.stakers.version)))
]

-- The fetch from the `n`th request for the epoch on: again where the epoch ends meanwhile.
unfoldable pub fetch_epoch : Node → ℕ → ℕ → SolanaSource → Fetched
unfolding get_finalized_epoch fetch_staker_balance_changes is_known report
fetch_epoch node zero n s = unfinished
fetch_epoch node (suc fuel) n s =
    let again = fetch_epoch node fuel (suc n) s in
    elim (get_finalized_epoch node n) [
      | exceeds_max_slot ↦ fetch_panics
      | other_error ↦ fetch_panics
      | panics ↦ fetch_panics
      | ok e ↦
          if is_known e s
          then fetched s
              (got (price_of s.latest_changes_bytes (round_of s.finalized_epoch s.stakers.version)))
          else elim (fetch_staker_balance_changes node e s.stakers.s_infos) [
            | panics ↦ fetch_panics
            | other_error ↦ fetched s fetch_fails
            | exceeds_max_slot ↦ again
            | ok changes ↦ report node e changes s
          ]
    ]

unfoldable pub fetch : Node → ℕ → Bytes → SolanaSource → Fetched
unfolding fetch_epoch
fetch node fuel token s =
    if token == codes "nstsol"
    then (if length s.stakers.s_infos == 0
        then fetched s (got empty_price)
        else fetch_epoch node fuel 0 s)
    else fetched s fetch_fails
