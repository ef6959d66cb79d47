-- ===== src/Stakers/Apply/Balances.antt =====
-- fetcher/types/types.go: the balances after `ApplyBalanceChanges`.
use price_feeder.Prelude.{
  ℕ, ◌≡◌, refl, subst, inl, inr, List, [], ◌∷◌, Option, none, some, false, nat_eq, nat_beq_iff,
  ◌==◌, Bool-cases, Option-cases, if◌then◌else◌, ltb, ◌||◌, arith,
}
use price_feeder.Prelude.Map.{lookup, insert, IsMap, lookup-insert}
use price_feeder.Stakers.{StakerInfo, StakerInfos, Stakers, staker_not_found}
use price_feeder.Stakers.Grow.{try_grow_versions_from_cache, complete}
use price_feeder.Stakers.Grow.Total.{roll_back-fails}
use price_feeder.Stakers.Grow.Progress.{try_grow-Same}
use price_feeder.Stakers.Apply.{
  BalanceChange, RawData, collect_updates, store_updates, apply_grown, apply_balance_changes,
}

-- The last change of a staker in the list.
abbrev pub last_change : ℕ → List BalanceChange → Option ℕ
last_change idx [] = none
last_change idx (c ∷ cs) = elim (last_change idx cs) [
  | some b ↦ some b
  | none ↦ if c.staker_index == idx then some c.balance else none
]

-- A staker with a later withdrawal than `fed` keeps its balance, any other takes its last change.
abbrev pub updated_info : ℕ → ℕ → List BalanceChange → StakerInfo → StakerInfo
updated_info fed idx changes info =
    if ltb fed info.withdraw_version
    then info
    else elim (last_change idx changes) [ none ↦ info | some b ↦ record info { balance = b } ]

-- What the first loop has for a staker after the changes.
abbrev collected : Stakers → ℕ → List BalanceChange → StakerInfos → Option StakerInfo
collected s idx changes updated = elim (lookup idx s.s_infos) [
  | none ↦ lookup idx updated
  | some info ↦
      if ltb s.withdraw_version info.withdraw_version
      then lookup idx updated
      else elim (last_change idx changes) [
        | none ↦ lookup idx updated
        | some b ↦ some (record info { balance = b })
      ]
]

collect_updates_lem :
    (s : Stakers) (changes : List BalanceChange) (updated u : StakerInfos) (idx : ℕ)
    → collect_updates s changes updated ≡ some u
    → lookup idx u ≡ collected s idx changes updated
unfolding collect_updates
collect_updates_lem s [] updated u idx h = ground arith
collect_updates_lem s (c ∷ cs) updated u idx h =
    elim (Option-cases (lookup c.staker_index s.s_infos)) [
      | inl gone ↦ absurd (ground arith)
      | inr (info, found) ↦ elim (Bool-cases (ltb s.withdraw_version info.withdraw_version)) [
        | inl pending ↦
            let rest = collect_updates_lem s cs updated u idx (ground arith) in
            ground (arith, rest, found, pending, nat_beq_iff c.staker_index idx)
        | inr free ↦
            let new = record info { balance = c.balance } in
            let rest =
              collect_updates_lem s cs (insert c.staker_index new updated) u idx (ground arith) in
            ground (
              arith,
              rest,
              found,
              free,
              nat_beq_iff c.staker_index idx,
              lookup-insert c.staker_index idx new updated,
            )
      ]
    ]

IsMap-insert : (k : ℕ) (v : StakerInfo) (m : StakerInfos) → IsMap m → IsMap (insert k v m)
unfolding insert lookup
IsMap-insert k v [] is_map = (refl, is_map)
IsMap-insert k v ((j, w) ∷ m) is_map = elim (Bool-cases (j == k)) [
  | inl same ↦ rw (same, insert) (ground (arith, is_map.0, nat_beq_iff j k, same), is_map.1)
  | inr other ↦
      rw (other, insert)
        (
          ground (arith, is_map.0, nat_beq_iff j k, nat_beq_iff k j, other, lookup-insert k j v m),
          IsMap-insert k v m is_map.1,
        )
]

collect_updates-IsMap :
    (s : Stakers) (changes : List BalanceChange) (updated u : StakerInfos)
    → IsMap updated
    → collect_updates s changes updated ≡ some u
    → IsMap u
unfolding collect_updates
collect_updates-IsMap s [] updated u is_map h =
    let same : updated ≡ u = ground arith in subst (λ x. IsMap x) same is_map
collect_updates-IsMap s (c ∷ cs) updated u is_map h =
    elim (Option-cases (lookup c.staker_index s.s_infos)) [
      | inl gone ↦ absurd (ground arith)
      | inr (info, found) ↦ elim (Bool-cases (ltb s.withdraw_version info.withdraw_version)) [
        | inl pending ↦ collect_updates-IsMap s cs updated u is_map (ground arith)
        | inr free ↦
            let new = record info { balance = c.balance } in
            collect_updates-IsMap s cs (insert c.staker_index new updated) u
              (IsMap-insert c.staker_index new updated is_map) (ground arith)
      ]
    ]

lookup-store_updates :
    (u sis : StakerInfos) (idx : ℕ)
    → IsMap u
    → lookup idx (store_updates u sis)
      ≡ elim (lookup idx u) [ none ↦ lookup idx sis | some info ↦ some info ]
unfolding lookup store_updates
lookup-store_updates [] sis idx is_map = refl
lookup-store_updates ((j, info) ∷ u) sis idx is_map = ground (
  arith,
  lookup-store_updates u (insert j info sis) idx is_map.1,
  lookup-insert j idx info sis,
  nat_beq_iff j idx,
  is_map.0,
)

-- What a confirmed balance change leaves of the stakers `grown`.
abbrev pub rebalanced : ℕ → ℕ → List BalanceChange → Option StakerInfo → Option StakerInfo
rebalanced fed idx changes none = none
rebalanced fed idx changes (some info) = some (updated_info fed idx changes info)

collected-rebalanced :
    (s : Stakers) (idx : ℕ) (changes : List BalanceChange) (u : StakerInfos)
    → lookup idx u ≡ collected s idx changes []
    → (elim (lookup idx u) [ none ↦ lookup idx s.s_infos | some info ↦ some info ])
      ≡ rebalanced s.withdraw_version idx changes (lookup idx s.s_infos)
unfolding lookup
collected-rebalanced s idx changes u h = rw h (ground arith)

apply_grown_lem :
    (changes : List BalanceChange) (version wv : ℕ) (s t : Stakers)
    → apply_grown changes version wv s ≡ (t, none)
    → (t.version ≡ version)
      × (t.withdraw_version ≡ wv)
      × ((idx : ℕ)
          → lookup idx t.s_infos ≡ rebalanced s.withdraw_version idx changes (lookup idx s.s_infos))
unfolding apply_grown complete
apply_grown_lem changes version wv s t h = elim (Option-cases (collect_updates s changes [])) [
  | inl unknown ↦ absurd (
      ground (
        arith,
        roll_back-fails (ltb 1 version || ltb s.withdraw_version wv) version staker_not_found s t,
      ))
  | inr (u, collects) ↦ (
    ground arith,
    ground arith,
    λ idx. ground (
      arith,
      lookup-store_updates u s.s_infos idx (collect_updates-IsMap s changes [] u tt collects),
      collected-rebalanced s idx changes u (collect_updates_lem s changes [] u idx collects),
    ),
  )
]

-- Changes that are applied were made against the current version. The stakers have grown to the
-- new versions, and then each has the balance of its last change; one with a withdrawal that was
-- not fed before, or without a change, keeps its balance. Nothing else of a staker changes.
pub applied_balances :
    (changes : RawData) (version wv : ℕ) (s t : Stakers)
    → apply_balance_changes changes version wv s ≡ (t, none)
    → (s.version ≡ changes.version)
      × (t.version ≡ version)
      × (t.withdraw_version ≡ wv)
      × ((grown : Stakers) × (try_grow_versions_from_cache version wv false s ≡ (grown, none))
          × ((idx : ℕ)
              → lookup idx t.s_infos
                ≡ rebalanced s.withdraw_version idx changes.nst_balance_changes
                    (lookup idx grown.s_infos)))
unfolding apply_balance_changes
applied_balances changes version wv s t h =
    elim (Option-cases (try_grow_versions_from_cache version wv false s).1) [
      | inr (e, failed) ↦ absurd (ground arith)
      | inl done ↦
          let grown = (try_grow_versions_from_cache version wv false s).0 in
          let (at, at_wv, balances) =
            apply_grown_lem changes.nst_balance_changes version wv grown t (ground arith) in
          let (_, _, (_, same_wv, _, _)) = try_grow-Same version wv false s grown (ground arith) in
          (
            ground (arith, nat_beq_iff s.version changes.version),
            at,
            at_wv,
            (
              grown,
              ground arith,
              λ idx.
                  subst
                    (λ fed.
                      lookup idx t.s_infos
                      ≡ rebalanced fed idx changes.nst_balance_changes (lookup idx grown.s_infos))
                    same_wv (balances idx),
            ),
          )
    ]
