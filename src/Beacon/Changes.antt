-- ===== src/Beacon/Changes.antt =====
-- fetcher/beaconchain/beaconchain_fetch.go: the balance changes that a fetch reports.
use price_feeder.Prelude.{
  ℕ, ◌≡◌, refl, inl, inr, List, [], ◌∷◌, Option, none, some, true, false, not, ltb, leb,
  if◌then◌else◌, length, Bytes, ◌==◌, nat_eq, arith, Option-cases, ◌||◌,
}
use price_feeder.Prelude.Map.{lookup, IsMap}
use price_feeder.Stakers.{StakerInfo, StakerInfos}
use price_feeder.Stakers.Apply.{BalanceChange}
use price_feeder.Source.{fetch_fails}
use price_feeder.Beacon.{
  World, FinalizedBlock, number_of, get_capsule_valid_balance, staker_balance, is_changed,
  collect_changes, insert_sorted, sort_changes,
}
use price_feeder.Beacon.Fetch.{BeaconSource, fetch_changes}

-- The balance that a list of changes has for a staker.
abbrev pub balance_in : ℕ → List BalanceChange → Option ℕ
balance_in idx [] = none
balance_in idx (c ∷ cs) = if c.staker_index == idx then some c.balance else balance_in idx cs

balance_in-insert_sorted :
    (idx : ℕ) (c : BalanceChange) (cs : List BalanceChange)
    → balance_in idx (insert_sorted c cs)
      ≡ (if c.staker_index == idx then some c.balance else balance_in idx cs)
unfolding insert_sorted
balance_in-insert_sorted idx c [] = refl
balance_in-insert_sorted idx c (d ∷ cs) = ground (arith, balance_in-insert_sorted idx c cs)

balance_in-sort_changes :
    (idx : ℕ) (cs : List BalanceChange) → balance_in idx (sort_changes cs) ≡ balance_in idx cs
unfolding sort_changes
balance_in-sort_changes idx [] = refl
balance_in-sort_changes idx (c ∷ cs) =
    ground (arith, balance_in-insert_sorted idx c (sort_changes cs), balance_in-sort_changes idx cs)

-- The indexes go up.
abbrev pub IsSorted : List BalanceChange → Type 0
IsSorted [] = Unit
IsSorted (c ∷ []) = Unit
IsSorted (c ∷ d ∷ cs) = (leb c.staker_index d.staker_index ≡ true) × IsSorted (d ∷ cs)

insert_sorted-IsSorted :
    (c : BalanceChange) (cs : List BalanceChange) → IsSorted cs → IsSorted (insert_sorted c cs)
unfolding insert_sorted
insert_sorted-IsSorted c [] sorted = tt
insert_sorted-IsSorted c (d ∷ []) sorted = ground arith
insert_sorted-IsSorted c (d ∷ e ∷ cs) (first, others) =
    ground (arith, insert_sorted-IsSorted c (e ∷ cs) others)

sort_changes-IsSorted : (cs : List BalanceChange) → IsSorted (sort_changes cs)
unfolding sort_changes
sort_changes-IsSorted [] = tt
sort_changes-IsSorted (c ∷ cs) =
    insert_sorted-IsSorted c (sort_changes cs) (sort_changes-IsSorted cs)

-- What a fetch reports of a staker.
abbrev pub reported : World → FinalizedBlock → ℕ → Option StakerInfo → Option ℕ
reported w block fed none = none
reported w block fed (some s) = elim (staker_balance w block s) [
  | none ↦ none
  | some balance ↦
      if length s.validators == 0
      then none
      else if not (balance == s.balance) || ltb fed s.withdraw_version
      then some balance
      else none
]

collect_changes-reported :
    (w : World) (block : FinalizedBlock) (fed idx : ℕ) (sis : StakerInfos)
    (changes : List BalanceChange)
    → IsMap sis
    → collect_changes w block fed sis ≡ some changes
    → balance_in idx changes ≡ reported w block fed (lookup idx sis)
unfolding collect_changes is_changed lookup
collect_changes-reported w block fed idx [] changes distinct h = ground arith
collect_changes-reported w block fed idx ((i, s) ∷ sis) changes (fresh, distinct) h =
    elim (Option-cases (collect_changes w block fed sis)) [
      | inl failed ↦ absurd (ground arith)
      | inr (rest, collected) ↦ elim (Option-cases (staker_balance w block s)) [
        | inl failed ↦
            ground (arith, collect_changes-reported w block fed idx sis rest distinct collected)
        | inr (balance, known) ↦
            ground (arith, collect_changes-reported w block fed idx sis rest distinct collected)
      ]
    ]

-- What the changes of a fetch that succeeds say: they go up by the staker's index, and a staker has one
-- with the balance that the world answers for it exactly where it has validators, and the balance
-- differs from the one that is known or a withdrawal of it was not fed yet.
pub fetched_changes :
    (w : World) (block : FinalizedBlock) (fed idx : ℕ) (sis : StakerInfos)
    (changes : List BalanceChange)
    → IsMap sis
    → collect_changes w block fed sis ≡ some changes
    → IsSorted (sort_changes changes)
      × (balance_in idx (sort_changes changes) ≡ reported w block fed (lookup idx sis))
fetched_changes w block fed idx sis changes distinct h = (
  sort_changes-IsSorted changes,
  ground (
    arith,
    balance_in-sort_changes idx changes,
    collect_changes-reported w block fed idx sis changes distinct h,
  ),
)

staker_balance-in_progress :
    (w : World) (block : FinalizedBlock) (s : StakerInfo) (capsule : Bytes)
    → w.capsule_address (number_of block) s.address ≡ some capsule
    → w.is_in_claim_progress (number_of block) capsule ≡ some true
    → staker_balance w block s ≡ none
unfolding staker_balance get_capsule_valid_balance
staker_balance-in_progress w block s capsule owned claims = ground arith

collect_changes-none :
    (w : World) (block : FinalizedBlock) (fed idx : ℕ) (s : StakerInfo) (sis : StakerInfos)
    → lookup idx sis ≡ some s
    → (length s.validators == 0) ≡ false
    → staker_balance w block s ≡ none
    → collect_changes w block fed sis ≡ none
unfolding collect_changes lookup
collect_changes-none w block fed idx s [] found active failed = ground arith
collect_changes-none w block fed idx s ((i, first) ∷ sis) found active failed =
    elim (Option-cases (staker_balance w block first)) [
      | inl unknown ↦ ground (arith, collect_changes-none w block fed idx s sis)
      | inr (balance, known) ↦ ground (arith, collect_changes-none w block fed idx s sis)
    ]

-- A capsule in claim progress of one staker that has validators fails the whole fetch at a new epoch
-- or version: no balance of any staker is reported, and the variables of the source stay.
pub claim_stops_fetch :
    (w : World) (block : FinalizedBlock) (epoch idx : ℕ) (b : BeaconSource) (s : StakerInfo)
    (capsule : Bytes)
    → lookup idx b.stakers.s_infos ≡ some s
    → (length s.validators == 0) ≡ false
    → w.capsule_address (number_of block) s.address ≡ some capsule
    → w.is_in_claim_progress (number_of block) capsule ≡ some true
    → fetch_changes w block epoch b ≡ (b, fetch_fails)
unfolding fetch_changes
claim_stops_fetch w block epoch idx b s capsule found active owned claims = ground (
  arith,
  collect_changes-none w block b.finalized_withdraw_version idx s b.stakers.s_infos found active
      (staker_balance-in_progress w block s capsule owned claims),
)
