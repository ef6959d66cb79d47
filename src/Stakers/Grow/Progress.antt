-- ===== src/Stakers/Grow/Progress.antt =====
-- fetcher/types/types.go: the versions and the caches after a growth that succeeds.
use price_feeder.Prelude.{
  ℕ, zero, suc, ◌+◌, ◌-◌, ◌≤◌, ◌≡◌, ◌⊎◌, refl, ap, ◌∙◌, subst, inl, inr, List, [], ◌∷◌, Option,
  none, some, Bool, true, nat_eq, nat_beq_iff, Option-cases, if◌then◌else◌, ◌||◌, ltb, leb, arith,
  ◌<◌, ◌++◌, All, Bool-cases,
}
use price_feeder.Prelude.Map.{lookup}
use price_feeder.Stakers.{Error, DepositInfo, WithdrawInfo, Stakers}
use price_feeder.Stakers.Grow.{
  apply_deposit, apply_version, grow_deposits, grow_withdraws, check_grow, try_grow_withdraws,
  try_grow_versions_from_cache, drop_deposits, drop_withdraws, complete, grow_versions_from_cache,
}
use price_feeder.Stakers.Grow.Total.{withdrawn, roll_back-fails}

lookup-drop_deposits :
    (version k : ℕ) (m : List (ℕ × DepositInfo))
    → lookup k (drop_deposits version m) ≡ (if leb k version then none else lookup k m)
unfolding lookup drop_deposits
lookup-drop_deposits version k [] = ground arith
lookup-drop_deposits version k ((j, d) ∷ m) =
    ground (arith, lookup-drop_deposits version k m, nat_beq_iff j k)

-- Neither the versions nor the caches differ.
abbrev Same : Stakers → Stakers → Type 0
Same s t =
    (t.version ≡ s.version)
    × (t.withdraw_version ≡ s.withdraw_version)
    × (t.s_infos_add ≡ s.s_infos_add)
    × (t.withdraw_infos ≡ s.withdraw_infos)

apply_version-Same : (i : ℕ) (s : Stakers) → Same s (apply_version i s).0
unfolding apply_version apply_deposit
apply_version-Same i s = ground arith

pub grow_deposits-Same : (n i : ℕ) (s : Stakers) → Same s (grow_deposits n i s).0
unfolding grow_deposits
grow_deposits-Same zero i s = (refl, refl, refl, refl)
grow_deposits-Same (suc n) i s =
    ground (arith, grow_deposits-Same n (suc i) (apply_version i s).0, apply_version-Same i s)

grow_withdraws-Same :
    (ws : List WithdrawInfo) (wv latest : ℕ) (s : Stakers)
    → Same s (grow_withdraws ws wv latest s).0
unfolding grow_withdraws
grow_withdraws-Same [] wv latest s = (refl, refl, refl, refl)
grow_withdraws-Same (w ∷ ws) wv latest s = elim (Option-cases (lookup w.staker_index s.s_infos)) [
  | inl gone ↦ ground arith
  | inr (info, found) ↦
      ground (arith, grow_withdraws-Same ws wv w.withdraw_version (withdrawn w info s))
]

try_grow_withdraws-Same :
    (i wv : ℕ) (s t : Stakers) → try_grow_withdraws i wv s ≡ (t, none) → Same s t
unfolding try_grow_withdraws
try_grow_withdraws-Same i wv s t h =
    let r =
      grow_withdraws s.withdraw_infos wv s.withdraw_version
        (record s { prev_withdraw_infos = [] }) in
    elim (Option-cases r.2) [
      | inl done ↦ ground (
        arith,
        grow_withdraws-Same s.withdraw_infos wv s.withdraw_version
            (record s { prev_withdraw_infos = [] }),
      )
      | inr (e, failed) ↦
          ground (arith, roll_back-fails (ltb 1 i || ltb s.withdraw_version r.1) (i - 1) e r.0 t)
    ]

check_grow-ahead :
    (version wv : ℕ) (updating : Bool) (s : Stakers)
    → (check_grow version wv updating s ≡ none) ⊎ (check_grow version wv updating s ≡ some none)
    → (s.version ≤ version) × (s.withdraw_version ≤ wv)
unfolding check_grow
check_grow-ahead version wv updating s h = ground arith

pub try_grow-Same :
    (version wv : ℕ) (updating : Bool) (s t : Stakers)
    → try_grow_versions_from_cache version wv updating s ≡ (t, none)
    → (s.version ≤ version) × (s.withdraw_version ≤ wv) × Same s t
unfolding try_grow_versions_from_cache
try_grow-Same version wv updating s t h = elim (Option-cases (check_grow version wv updating s)) [
  | inr (early, returned) ↦
      let nothing : early ≡ none = ground arith in
      let (low, low_wv) =
        check_grow-ahead version wv updating s (inr (returned ∙ ap some nothing)) in
      let same : s ≡ t = ground arith in
      (low, low_wv, subst (λ x. Same s x) same (refl, refl, refl, refl))
  | inl passed ↦
      let (low, low_wv) = check_grow-ahead version wv updating s (inl passed) in
      elim (Option-cases r.2) [
        | inr (e, failed) ↦ absurd (ground (arith, roll_back-fails (ltb 1 r.1) (r.1 - 1) e r.0 t))
        | inl done ↦ (
          low,
          low_wv,
          ground (
            arith,
            grow_deposits-Same (version - s.version) (s.version + 1) s,
            try_grow_withdraws-Same r.1 wv r.0 t,
          ),
        )
      ]
]
  where
    r : Stakers × ℕ × Option Error
    r = grow_deposits (version - s.version) (s.version + 1) s

-- A queue that is empty or begins with a withdrawal after `wv`.
abbrev pub StartsAfter : ℕ → List WithdrawInfo → Type 0
StartsAfter wv [] = Unit
StartsAfter wv (w ∷ ws) = wv < w.withdraw_version

drop_withdraws-split :
    (wv : ℕ) (ws : List WithdrawInfo)
    → (applied : List WithdrawInfo) × (ws ≡ applied ++ drop_withdraws wv ws)
      × All (λ w. w.withdraw_version ≤ wv) applied
      × StartsAfter wv (drop_withdraws wv ws)
unfolding drop_withdraws
drop_withdraws-split wv [] = ([], refl, tt, tt)
drop_withdraws-split wv (w ∷ ws) = elim (Bool-cases (ltb wv w.withdraw_version)) [
  | inl later ↦ rw (later, drop_withdraws) ([], refl, tt, ground arith)
  | inr due ↦
      let (applied, split, low, starts) = drop_withdraws-split wv ws in
      rw (due, drop_withdraws)
        (w ∷ applied, ap (λ rest. w ∷ rest) split, (ground arith, low), starts)
]

-- A growth that succeeds ends at the two versions, which are not behind the old ones; the deposits
-- up to the version are gone from the cache and the others wait on. The queue of withdrawals has lost
-- a front of withdrawals up to the withdraw version, and goes on, where it does, with a later one.
pub grown_versions :
    (version wv : ℕ) (s t : Stakers)
    → grow_versions_from_cache version wv s ≡ (t, none)
    → (s.version ≤ version)
      × (s.withdraw_version ≤ wv)
      × (t.version ≡ version)
      × (t.withdraw_version ≡ wv)
      × (t.prev_withdraw_infos ≡ [])
      × ((k : ℕ)
          → lookup k t.s_infos_add ≡ (if leb k version then none else lookup k s.s_infos_add))
      × ((applied : List WithdrawInfo) × (s.withdraw_infos ≡ applied ++ t.withdraw_infos)
          × All (λ w. w.withdraw_version ≤ wv) applied
          × StartsAfter wv t.withdraw_infos)
unfolding grow_versions_from_cache complete
grown_versions version wv s t h =
    elim (Option-cases (try_grow_versions_from_cache version wv true s).1) [
      | inr (e, failed) ↦ absurd (ground arith)
      | inl done ↦
          let u = (try_grow_versions_from_cache version wv true s).0 in
          let (low, low_wv, (_, _, deposits, queue)) =
            try_grow-Same version wv true s u (ground arith) in
          let same : drop_withdraws wv s.withdraw_infos ≡ t.withdraw_infos =
            ground (arith, queue) in
          (
            low,
            low_wv,
            ground arith,
            ground arith,
            ground arith,
            λ k. ground (arith, deposits, lookup-drop_deposits version k s.s_infos_add),
            subst
                (λ left.
                  (applied : List WithdrawInfo) × (s.withdraw_infos ≡ applied ++ left)
                  × All (λ w. w.withdraw_version ≤ wv) applied
                  × StartsAfter wv left)
                same (drop_withdraws-split wv s.withdraw_infos),
          )
    ]
