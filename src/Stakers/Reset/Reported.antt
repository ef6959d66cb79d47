-- ===== src/Stakers/Reset/Reported.antt =====
-- fetcher/types/types.go: the stakers, deposits and withdrawals that a report of the chain
-- stands for.
use price_feeder.Prelude.{
  ℕ, ◌+◌, ◌-◌, List, [], ◌∷◌, Option, none, some, if◌then◌else◌, ltb, leb, length, Bytes, ◌==◌,
  nat_eq,
}
use price_feeder.Stakers.{u64, StakerInfo, DepositInfo, WithdrawInfo}
use price_feeder.Stakers.Reset.{ValidatorDeposit, OracleStaker, NstVersion, latest_balance}

-- The validators that were deposited up to the fed version, in order.
abbrev pub fed_validators : ℕ → List ValidatorDeposit → List Bytes
fed_validators fed [] = []
fed_validators fed (v ∷ vs) =
    if leb v.version fed then v.validator_pubkey ∷ fed_validators fed vs else fed_validators fed vs

-- The amounts of the later deposits, added to `acc` as uint64s.
abbrev pub pending_amount : ℕ → List ValidatorDeposit → ℕ → ℕ
pending_amount fed [] acc = acc
pending_amount fed (v ∷ vs) acc =
    pending_amount fed vs (if leb v.version fed then acc else u64 (acc + v.deposit_amount))

-- The last one of two.
abbrev pub later : {V : Type 0} → Option V → Option V → Option V
later (some new) old = some new
later none old = old

abbrev pub deposit_of : OracleStaker → ValidatorDeposit → DepositInfo
deposit_of info v = record {
  staker_index = info.staker_index;
  staker_addr = info.staker_addr;
  validator = v.validator_pubkey;
  amount = v.deposit_amount;
}

-- The last deposit of a staker under a version after the fed one.
abbrev pub pending_deposit : ℕ → OracleStaker → ℕ → List ValidatorDeposit → Option DepositInfo
pending_deposit fed info k [] = none
pending_deposit fed info k (v ∷ vs) = later (pending_deposit fed info k vs) (
    if leb v.version fed
    then none
    else if v.version == k
    then some (record {
      staker_index = info.staker_index;
      staker_addr = info.staker_addr;
      validator = v.validator_pubkey;
      amount = v.deposit_amount;
    })
    else none)

-- A reported staker at the fed versions; one without a fed validator is not there yet.
abbrev pub fed_staker : NstVersion → OracleStaker → Option StakerInfo
fed_staker version info =
    if ltb 0 (length (fed_validators version.feed_version info.validator_list))
    then some (record {
      address = info.staker_addr;
      validators = fed_validators version.feed_version info.validator_list;
      balance =
          latest_balance info.balance_list
          - pending_amount version.feed_version info.validator_list 0;
      withdraw_version = info.withdraw_version;
    })
    else none

abbrev pub reported_staker : NstVersion → ℕ → List OracleStaker → Option StakerInfo
reported_staker version asked [] = none
reported_staker version asked (info ∷ infos) =
    if info.staker_index == asked
    then fed_staker version info
    else reported_staker version asked infos

abbrev pub reported_deposit : NstVersion → ℕ → List OracleStaker → Option DepositInfo
reported_deposit version k [] = none
reported_deposit version k (info ∷ infos) =
    later (reported_deposit version k infos)
      (pending_deposit version.feed_version info k info.validator_list)

-- The withdrawals that were not fed yet.
abbrev pub reported_withdraws : NstVersion → List OracleStaker → List WithdrawInfo
reported_withdraws version [] = []
reported_withdraws version (info ∷ infos) =
    if ltb version.feed_withdraw_version info.withdraw_version
    then record { staker_index = info.staker_index; withdraw_version = info.withdraw_version }
      ∷ reported_withdraws version infos
    else reported_withdraws version infos
