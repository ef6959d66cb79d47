-- ===== src/Events/Tests.antt =====
-- imuaclient/types.go: the theorems on parsed events at an event of a deposit and a withdrawal, and
-- at one of withdrawals only.
use price_feeder.Prelude.{
  ℕ, ◌-◌, ◌^◌, ◌≤◌, ◌<◌, ◌≡◌, refl, List, [], ◌∷◌, Option, none, some, codes, nat_eq, arith, Bytes,
}
use price_feeder.Prelude.Map.{lookup, insert, has}
use price_feeder.Text.{split, is_digit, parse_digits, parse_uint, parse_int}
use price_feeder.Stakers.{Error, DepositInfo, new_stakers}
use price_feeder.Stakers.Cache.{cache_deposits_withdraws}
use price_feeder.Events.{EventNstStaker}
use price_feeder.Events.Changes.{
  parse_change, add_deposit, add_version, add_change, add_changes, get_event_nst_stakers,
}
use price_feeder.Events.Changes.Versions.{parsed_range, parsed_withdraws_refused}

abbrev decode : Bytes → Option Bytes
decode text = some text

abbrev event : List Bytes
event = codes "deposit_0_a_v_1_32_7|deposit_0_a_0xFFFFFFFFFFFFFFFF_1_0_7" ∷ []

abbrev deposit : DepositInfo
deposit = record { staker_index = 0; staker_addr = codes "a"; validator = codes "v"; amount = 32 }

abbrev changes : EventNstStaker
changes = record {
  withdraws = record { staker_index = 0; withdraw_version = 1 } ∷ [];
  deposits = (1, deposit) ∷ [];
  next_version = 1;
  latest_version = 1;
}

parses : get_event_nst_stakers decode event ≡ some ((7, changes) ∷ [])
unfolding get_event_nst_stakers add_changes add_change add_version add_deposit parse_change split
    parse_uint parse_digits is_digit parse_int lookup insert has
parses = refl

finds : lookup {K = ℕ} 7 ((7, changes) ∷ []) ≡ some changes
unfolding lookup
finds = refl

positive : lookup 0 (changes.deposits) ≡ none
unfolding lookup
positive = refl

cached : lookup 1 (changes.deposits) ≡ some deposit
unfolding lookup
cached = refl

parsed_range_example : (1 ≤ 1) × (1 ≤ 1)
parsed_range_example =
    parsed_range decode event ((7, changes) ∷ []) 7 1 changes deposit parses finds positive cached

abbrev withdrawals : List Bytes
withdrawals = codes "deposit_0_a_0xFFFFFFFFFFFFFFFF_1_0_7|deposit_1_b_0xFFFFFFFFFFFFFFFF_2_0_7" ∷ []

abbrev withdrawn : EventNstStaker
withdrawn = record {
  withdraws =
      record { staker_index = 0; withdraw_version = 1 }
      ∷ record { staker_index = 1; withdraw_version = 2 }
      ∷ [];
  deposits = [];
  next_version = 0;
  latest_version = 0;
}

parses_withdrawals : get_event_nst_stakers decode withdrawals ≡ some ((7, withdrawn) ∷ [])
unfolding get_event_nst_stakers add_changes add_change add_version parse_change split parse_uint
    parse_digits is_digit parse_int lookup insert
parses_withdrawals = refl

finds_withdrawals : lookup {K = ℕ} 7 ((7, withdrawn) ∷ []) ≡ some withdrawn
unfolding lookup
finds_withdrawals = refl

nothing_cached : lookup (2 ^ 64 - 1) (new_stakers.s_infos_add) ≡ none
unfolding lookup new_stakers
nothing_cached = refl

small_version : new_stakers.version < 2 ^ 64 - 1
unfolding new_stakers
small_version = omega arith

parsed_withdraws_refused_example :
    (x : Error) × (cache_deposits_withdraws [] 0 (withdrawn.withdraws) new_stakers
      ≡ (new_stakers, some x))
parsed_withdraws_refused_example =
    parsed_withdraws_refused decode withdrawals ((7, withdrawn) ∷ []) 7 withdrawn new_stakers
      parses_withdrawals finds_withdrawals refl small_version nothing_cached
