-- ===== src/Beacon/Tests.antt =====
-- fetcher/beaconchain: the theorems on the beacon chain's source at two stakers.
use price_feeder.Prelude.{
  ℕ, Option, true, ◌≡◌, refl, List, [], ◌∷◌, none, some, false, Bytes, map, nat_eq, codes, arith,
}
use price_feeder.Prelude.Map.{lookup, insert, IsMap}
use price_feeder.Text.{split, parse_uint, parse_digits, is_digit, parse_uint_value}
use price_feeder.Stakers.{StakerInfo, StakerInfos, Stakers}
use price_feeder.Stakers.{add_validator, contains}
use price_feeder.Stakers.Grow.{
  apply_deposit, apply_version, grow_deposits, check_grow, try_grow_withdraws,
  try_grow_versions_from_cache,
}
use price_feeder.Stakers.Apply.{BalanceChange, apply_balance_changes}
use price_feeder.Beacon.{
  World, ValidatorText, FinalizedBlock, balances_of, get_validators, add_balances, sum_validators,
  get_capsule_valid_balance, staker_balance, is_changed, collect_changes, sort_changes,
}
use price_feeder.Beacon.Fetch.{BeaconSource, fetch, raw_data}
use price_feeder.Chainlink.{Chains, answers, call_panics, is_address, is_hex, is_contract_address}
use price_feeder.Beacon.Init.{
  BeaconConfig, chain_to_slots_per_epoch, hex_value, parse_hex_digits, parse_hex, trim_hex_prefix,
  lz_id_of, init_slots, beacon_source, init_beaconchain, set_source_stakers, known_chain-fetch,
}
use price_feeder.Beacon.Confirmed.{confirmed, confirmed_balances}
use price_feeder.Beacon.Chunks.{balances_at, sum_validators_lem}
use price_feeder.Beacon.Changes.{IsSorted, balance_in, reported, fetched_changes}

abbrev known : Bytes → ValidatorText
known id = record { index = codes "1"; effective_balance = codes "32" }

abbrev world : World
world = record {
  finalized_block = none;
  capsule_address = λ number staker. some (codes "0x01");
  is_in_claim_progress = λ number capsule. some false;
  withdrawable_balance = λ number capsule. some 0;
  balance_at = λ number capsule. some 0;
  post_validators = λ root ids. some (0, map known ids);
  marshal = λ raw. some [];
}

sum_validators_lem_example :
    sum_validators world [] 2 (codes "a" ∷ codes "b" ∷ []) 5
    ≡ some (add_balances 5 (balances_at known (codes "a" ∷ codes "b" ∷ [])))
sum_validators_lem_example =
    sum_validators_lem world [] known 2 (codes "a" ∷ codes "b" ∷ []) 5 (λ asked. refl) (omega arith)

abbrev block : FinalizedBlock
block = record { slot = codes "64"; block_number = codes "9"; state_root = codes "r" }

abbrev unchanged : StakerInfo
unchanged = record {
  address = codes "s";
  validators = codes "a" ∷ [];
  balance = 32;
  withdraw_version = 0;
}

abbrev changed : StakerInfo
changed = record unchanged { balance = 31 }

abbrev stakers : StakerInfos
stakers = (4, changed) ∷ (2, unchanged) ∷ (1, changed) ∷ []

abbrev changes : List BalanceChange
changes = record { staker_index = 4; balance = 32 } ∷ record { staker_index = 1; balance = 32 } ∷ []

distinct : IsMap stakers
unfolding lookup
distinct = (refl, (refl, (refl, tt)))

collects : collect_changes world block 0 stakers ≡ some changes
unfolding collect_changes staker_balance is_changed get_capsule_valid_balance sum_validators
    get_validators balances_of add_balances parse_uint_value parse_uint parse_digits is_digit
collects = refl

fetched_changes_example :
    IsSorted (sort_changes changes)
    × (balance_in 4 (sort_changes changes) ≡ reported world block 0 (lookup 4 stakers))
fetched_changes_example = fetched_changes world block 0 4 stakers changes distinct collects

abbrev held : Stakers
held = record {
  version = 3;
  withdraw_version = 5;
  s_infos = stakers;
  s_infos_add = [];
  withdraw_infos = [];
  prev_withdraw_infos = [];
}

abbrev source : BeaconSource
source = record {
  stakers = held;
  slots_per_epoch = 32;
  finalized_epoch = 0;
  finalized_version = 0;
  finalized_withdraw_version = 0;
  latest_changes_bytes = [];
}

-- The chain confirms the changes with a deposit for the second staker.
abbrev feeding : Stakers
feeding = record held {
  s_infos_add =
      (4, record { staker_index = 2; staker_addr = codes "s"; validator = codes "b"; amount = 5 })
      ∷ [];
}

abbrev grown : Stakers
grown = record feeding {
  s_infos =
      (4, changed)
      ∷ (2, record unchanged { validators = codes "a" ∷ codes "b" ∷ []; balance = 37 })
      ∷ (1, changed)
      ∷ [];
}

grows : try_grow_versions_from_cache 4 5 false feeding ≡ (grown, none)
unfolding try_grow_versions_from_cache check_grow grow_deposits apply_version apply_deposit
    try_grow_withdraws lookup insert add_validator contains
grows = refl

confirmed_balances_example :
    (t : Stakers) × (apply_balance_changes (raw_data held changes) 4 5 feeding ≡ (t, none))
    × (t.version ≡ 4)
    × (t.withdraw_version ≡ 5)
    × (lookup 1 t.s_infos
        ≡ confirmed world block 0 5 (lookup 1 held.s_infos) (lookup 1 grown.s_infos))
confirmed_balances_example =
    confirmed_balances world block source feeding grown 4 5 1 changes distinct collects refl refl
      grows

-- That balance is the one that the validators have.
confirmed_32 :
    confirmed world block 0 5 (some changed) (some changed) ≡ some (record changed { balance = 32 })
unfolding staker_balance get_capsule_valid_balance sum_validators get_validators balances_of
    add_balances parse_uint_value parse_uint parse_digits is_digit
confirmed_32 = refl

-- A node of the execution layer, and an endpoint that answers no slots per epoch.
abbrev chains : Chains ℕ ℕ
chains = record {
  dial = λ url. some 1;
  code_at = λ client address. answers 7;
  new_aggregator = λ address client. none;
  latest_round_data = λ a. call_panics;
  decimals = λ a. call_panics;
  now = [];
}

abbrev zero_slots : Bytes → Option Bytes
zero_slots url = some (codes "0")

abbrev config : BeaconConfig
config = record {
  beaconchain = codes "u";
  eth = codes "e";
  nst_id = codes "a_0x65";
  bootstrap = codes "0x00112233445566778899aabbccddeeff00112233";
}

made : init_beaconchain chains (λ url. true) zero_slots (some config) ≡ some (beacon_source 32)
unfolding init_beaconchain is_contract_address is_address is_hex init_slots lz_id_of parse_hex
    parse_hex_digits hex_value trim_hex_prefix chain_to_slots_per_epoch split
made = refl

ethereum : lz_id_of (split b'_' config.nst_id) ≡ some 101
unfolding lz_id_of parse_hex parse_hex_digits hex_value trim_hex_prefix split
ethereum = refl

known_32 : chain_to_slots_per_epoch 101 ≡ some 32
unfolding chain_to_slots_per_epoch
known_32 = refl

known_chain-fetch_example : ¬ (
    fetch
      (record world { finalized_block = some block })
      (codes "nsteth")
      (set_source_stakers stakers 3 5 (beacon_source 32))
    ≡ none)
known_chain-fetch_example =
    known_chain-fetch chains (λ url. true) zero_slots config (beacon_source 32) 101 32
      (record world { finalized_block = some block }) (codes "nsteth") stakers 3 5 made ethereum
      known_32
