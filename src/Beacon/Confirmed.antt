-- ===== src/Beacon/Confirmed.antt =====
-- fetcher/beaconchain/beaconchain_fetch.go and fetcher/types/types.go: a fetch of balances and the
-- confirmation of its changes by the chain.
use price_feeder.Prelude.{
  true, Bool, if◌then◌else◌, ℕ, ◌≡◌, refl, ap, inl, inr, List, [], ◌∷◌, Option, none, some, false,
  ltb, ◌∙◌, nat_eq, arith, Option-cases, sym,
}
use price_feeder.Prelude.Map.{lookup, insert, IsMap}
use price_feeder.Stakers.{StakerInfo, StakerInfos, Stakers}
use price_feeder.Stakers.Grow.{try_grow_versions_from_cache}
use price_feeder.Stakers.Grow.Known.{try_grow-known}
use price_feeder.Stakers.Apply.{BalanceChange, collect_updates, apply_grown, apply_balance_changes}
use price_feeder.Stakers.Apply.Balances.{last_change, rebalanced, applied_balances}
use price_feeder.Beacon.{
  World, FinalizedBlock, staker_balance, is_changed, collect_changes, insert_sorted, sort_changes,
}
use price_feeder.Beacon.Fetch.{BeaconSource, raw_data}
use price_feeder.Beacon.Changes.{reported}

last_change-insert_sorted :
    (idx : ℕ) (c : BalanceChange) (cs : List BalanceChange)
    → last_change idx (insert_sorted c cs) ≡ last_change idx (c ∷ cs)
unfolding insert_sorted
last_change-insert_sorted idx c [] = refl
last_change-insert_sorted idx c (d ∷ cs) = elim (Option-cases (last_change idx cs)) [
  | inl none_left ↦ ground (arith, last_change-insert_sorted idx c cs)
  | inr (b, found) ↦ ground (arith, last_change-insert_sorted idx c cs)
]

last_change-sort_changes :
    (idx : ℕ) (cs : List BalanceChange) → last_change idx (sort_changes cs) ≡ last_change idx cs
unfolding sort_changes
last_change-sort_changes idx [] = refl
last_change-sort_changes idx (c ∷ cs) =
    ground
      (arith, last_change-insert_sorted idx c (sort_changes cs), last_change-sort_changes idx cs)

last_change-collected :
    (w : World) (block : FinalizedBlock) (fed idx : ℕ) (sis : StakerInfos)
    (changes : List BalanceChange)
    → IsMap sis
    → collect_changes w block fed sis ≡ some changes
    → last_change idx changes ≡ reported w block fed (lookup idx sis)
unfolding collect_changes is_changed lookup
last_change-collected w block fed idx [] changes distinct h = ground arith
last_change-collected w block fed idx ((i, s) ∷ sis) changes (fresh, distinct) h =
    elim (Option-cases (collect_changes w block fed sis)) [
      | inl failed ↦ absurd (ground arith)
      | inr (rest, collected) ↦ elim (Option-cases (staker_balance w block s)) [
        | inl failed ↦
            ground (arith, last_change-collected w block fed idx sis rest distinct collected)
        | inr (balance, known) ↦
            ground (arith, last_change-collected w block fed idx sis rest distinct collected)
      ]
    ]

-- Every change is one of a staker that is known.
knows : StakerInfos → List BalanceChange → Bool
knows sis [] = true
knows sis (c ∷ cs) = elim (lookup c.staker_index sis) [ none ↦ false | some info ↦ knows sis cs ]

knows-cons :
    (i : ℕ) (info : StakerInfo) (sis : StakerInfos) (cs : List BalanceChange)
    → knows sis cs ≡ true
    → knows ((i, info) ∷ sis) cs ≡ true
unfolding knows lookup
knows-cons i info sis [] h = refl
knows-cons i info sis (c ∷ cs) h = elim (Option-cases (lookup c.staker_index sis)) [
  | inl unknown ↦ absurd (ground arith)
  | inr (known, found) ↦ ground (arith, knows-cons i info sis cs (ground arith))
]

knows-insert_sorted :
    (sis : StakerInfos) (c : BalanceChange) (cs : List BalanceChange)
    → knows sis (insert_sorted c cs) ≡ knows sis (c ∷ cs)
unfolding knows insert_sorted
knows-insert_sorted sis c [] = refl
knows-insert_sorted sis c (d ∷ cs) = ground (arith, knows-insert_sorted sis c cs)

knows-sort_changes :
    (sis : StakerInfos) (cs : List BalanceChange) → knows sis (sort_changes cs) ≡ knows sis cs
unfolding knows sort_changes
knows-sort_changes sis [] = refl
knows-sort_changes sis (c ∷ cs) =
    ground (arith, knows-insert_sorted sis c (sort_changes cs), knows-sort_changes sis cs)

knows-collected :
    (w : World) (block : FinalizedBlock) (fed : ℕ) (sis : StakerInfos)
    (changes : List BalanceChange)
    → collect_changes w block fed sis ≡ some changes
    → knows sis changes ≡ true
unfolding knows collect_changes lookup
knows-collected w block fed [] changes h = ground arith
knows-collected w block fed ((i, s) ∷ sis) changes h =
    elim (Option-cases (collect_changes w block fed sis)) [
      | inl failed ↦ absurd (ground arith)
      | inr (rest, collected) ↦ elim (Option-cases (staker_balance w block s)) [
        | inl failed ↦
            ground (arith, knows-cons i s sis rest (knows-collected w block fed sis rest collected))
        | inr (balance, known) ↦ ground (
          arith,
          nat_eq.beq_iff i i,
          knows-cons i s sis rest (knows-collected w block fed sis rest collected),
        )
      ]
    ]

knows-updates :
    (s : Stakers) (cs : List BalanceChange) (updated : StakerInfos)
    → knows s.s_infos cs ≡ true
    → (u : StakerInfos) × (collect_updates s cs updated ≡ some u)
unfolding knows collect_updates
knows-updates s [] updated h = (updated, refl)
knows-updates s (c ∷ cs) updated h = elim (Option-cases (lookup c.staker_index s.s_infos)) [
  | inl unknown ↦ absurd (ground arith)
  | inr (info, found) ↦
      let (u, rest) =
        knows-updates s cs
          (if ltb s.withdraw_version info.withdraw_version
            then updated
            else insert c.staker_index (record info { balance = c.balance }) updated)
          (ground arith) in
      (u, ground (arith, rest))
]

-- A growth keeps every change one of a staker that is known.
knows-grown :
    (version wv : ℕ) (s grown : Stakers) (cs : List BalanceChange)
    → try_grow_versions_from_cache version wv false s ≡ (grown, none)
    → knows s.s_infos cs ≡ true
    → knows grown.s_infos cs ≡ true
unfolding knows
knows-grown version wv s grown [] grows h = refl
knows-grown version wv s grown (c ∷ cs) grows h =
    elim (Option-cases (lookup c.staker_index grown.s_infos)) [
      | inl gone ↦
          let unknown = try_grow-known c.staker_index version wv false s grown grows gone in
          absurd (ground (arith, unknown))
      | inr (info, found) ↦ elim (Option-cases (lookup c.staker_index s.s_infos)) [
        | inl unknown ↦ absurd (ground arith)
        | inr (old, known) ↦
            ground (arith, knows-grown version wv s grown cs grows (ground (arith, known)))
      ]
    ]

fetch-applies :
    (w : World) (block : FinalizedBlock) (b : BeaconSource) (s grown : Stakers) (version wv : ℕ)
    (changes : List BalanceChange)
    → collect_changes w block b.finalized_withdraw_version b.stakers.s_infos ≡ some changes
    → s.s_infos ≡ b.stakers.s_infos
    → s.version ≡ b.stakers.version
    → try_grow_versions_from_cache version wv false s ≡ (grown, none)
    → (t : Stakers) × (apply_balance_changes (raw_data b.stakers changes) version wv s ≡ (t, none))
unfolding raw_data apply_balance_changes apply_grown
fetch-applies w block b s grown version wv changes collects same same_version grows =
    let known : knows s.s_infos (sort_changes changes) ≡ true = rw same (
      knows-sort_changes b.stakers.s_infos changes
      ∙ knows-collected w block b.finalized_withdraw_version b.stakers.s_infos changes collects) in
    let (u, collected) =
      knows-updates grown (sort_changes changes) []
        (knows-grown version wv s grown (sort_changes changes) grows known) in
    (
      (apply_grown (sort_changes changes) version wv grown).0,
      ground (arith, grows, collected, nat_eq.beq_iff s.version b.stakers.version),
    )

-- A grown staker after the confirmation of a fetch, which saw the staker as `fetched`: one with a
-- withdrawal that was not fed before keeps its balance, any other has what the fetch reported.
abbrev pub confirmed :
    World → FinalizedBlock → ℕ → ℕ → Option StakerInfo → Option StakerInfo → Option StakerInfo
confirmed w block fed applied fetched none = none
confirmed w block fed applied fetched (some info) = some (
    if ltb applied info.withdraw_version then info else elim (reported w block fed fetched) [
      | none ↦ info
      | some balance ↦ record info { balance = balance }
    ])

rebalanced-confirmed :
    (w : World) (block : FinalizedBlock) (fed applied idx : ℕ) (changes : List BalanceChange)
    (fetched after : Option StakerInfo)
    → last_change idx changes ≡ reported w block fed fetched
    → rebalanced applied idx changes after ≡ confirmed w block fed applied fetched after
rebalanced-confirmed w block fed applied idx changes fetched none h = refl
rebalanced-confirmed w block fed applied idx changes fetched (some info) h = ground (arith, h)

-- From the fetch to the stakers: the changes of a fetch that succeeds are confirmed, at whatever
-- versions the stakers can grow to, for stakers of the version and the infos they were fetched for. The
-- confirmation then succeeds, ends at these versions, and gives every grown staker the balance that the
-- fetch reported of it; one of which it reported none, or with a withdrawal that was not fed before,
-- keeps its balance. Nothing else of a grown staker changes.
pub confirmed_balances :
    (w : World) (block : FinalizedBlock) (b : BeaconSource) (s grown : Stakers) (version wv idx : ℕ)
    (changes : List BalanceChange)
    → IsMap b.stakers.s_infos
    → collect_changes w block b.finalized_withdraw_version b.stakers.s_infos ≡ some changes
    → s.s_infos ≡ b.stakers.s_infos
    → s.version ≡ b.stakers.version
    → try_grow_versions_from_cache version wv false s ≡ (grown, none)
    → (t : Stakers) × (apply_balance_changes (raw_data b.stakers changes) version wv s ≡ (t, none))
      × (t.version ≡ version)
      × (t.withdraw_version ≡ wv)
      × (lookup idx t.s_infos
          ≡ confirmed w block b.finalized_withdraw_version s.withdraw_version
              (lookup idx b.stakers.s_infos)
              (lookup idx grown.s_infos))
unfolding raw_data
confirmed_balances w block b s grown version wv idx changes distinct collects same same_version
      grows =
    let fed = b.finalized_withdraw_version in
    let (t, applied) =
      fetch-applies w block b s grown version wv changes collects same same_version grows in
    let (_, at_version, at_wv, (other, grows', balances)) =
      applied_balances (raw_data b.stakers changes) version wv s t applied in
    let one : other ≡ grown = ap (λ r. r.0) (sym grows' ∙ grows) in
    let reports =
      last_change-sort_changes idx changes
      ∙ last_change-collected w block fed idx b.stakers.s_infos changes distinct collects in
    (
      t,
      applied,
      at_version,
      at_wv,
      balances idx
          ∙ ap
              (λ (x : Stakers).
                rebalanced s.withdraw_version idx (sort_changes changes) (lookup idx x.s_infos))
              one
          ∙ rebalanced-confirmed w block fed s.withdraw_version idx (sort_changes changes)
              (lookup idx b.stakers.s_infos) (lookup idx grown.s_infos) reports,
    )
