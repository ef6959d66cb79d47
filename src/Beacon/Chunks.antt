-- ===== src/Beacon/Chunks.antt =====
-- fetcher/beaconchain/beaconchain_fetch.go: the requests for at most 100 validators against one sum
-- over all validators.
use price_feeder.Prelude.{
  ℕ, zero, suc, ◌+◌, ◌%◌, ◌^◌, ◌≤◌, ◌≡◌, refl, List, [], ◌∷◌, ◌++◌, some, length, take, drop, map,
  Bytes, arith, length-drop, take-append-drop,
}
use price_feeder.Beacon.{
  World, ValidatorText, balances_of, get_validators, add_balances, sum_validators,
}

add_balances-append :
    (total : ℕ) (front back : List ℕ)
    → add_balances total (front ++ back) ≡ add_balances (add_balances total front) back
unfolding add_balances
add_balances-append total [] back = refl
add_balances-append total (b ∷ front) back = add_balances-append ((total + b) % 2 ^ 64) front back

-- The effective balances of validators, each with the text that the node has for it.
abbrev pub balances_at : (Bytes → ValidatorText) → List Bytes → List ℕ
balances_at known ids = balances_of (map known ids)

balances_at-append :
    (known : Bytes → ValidatorText) (front back : List Bytes)
    → balances_at known (front ++ back) ≡ balances_at known front ++ balances_at known back
unfolding balances_of
balances_at-append known [] back = refl
balances_at-append known (id ∷ front) back = ground (arith, balances_at-append known front back)

-- The node answers every request with the validators that were asked for: the sum over the requests
-- is the sum of the effective balances of all validators, however many there are, added to the total
-- as uint64s.
pub sum_validators_lem :
    (w : World) (state_root : Bytes) (known : Bytes → ValidatorText) (fuel : ℕ) (ids : List Bytes)
    (total : ℕ)
    → ((asked : List Bytes) → w.post_validators state_root asked ≡ some (0, map known asked))
    → length ids ≤ fuel
    → sum_validators w state_root fuel ids total ≡ some (add_balances total (balances_at known ids))
unfolding sum_validators get_validators
sum_validators_lem w state_root known zero ids total answers enough = ground (arith, answers ids)
sum_validators_lem w state_root known (suc fuel) ids total answers enough = ground (
  arith,
  answers ids,
  answers (take 100 ids),
  length-drop 100 ids,
  take-append-drop 100 ids,
  balances_at-append known (take 100 ids) (drop 100 ids),
  add_balances-append total (balances_at known (take 100 ids)) (balances_at known (drop 100 ids)),
  sum_validators_lem w state_root known fuel (drop 100 ids)
      (add_balances total (balances_at known (take 100 ids))) answers,
)
