-- ===== src/Stakers/Grow/Known.antt =====
-- fetcher/types/types.go: a growth that succeeds loses no staker.
use price_feeder.Prelude.{
  ℕ, zero, suc, ◌+◌, ◌-◌, ◌≡◌, sym, ap, ◌∙◌, subst, inl, inr, List, [], ◌∷◌, Option, none, Bool,
  Option-cases, nat_eq, ltb, ◌||◌, arith,
}
use price_feeder.Prelude.Map.{lookup, insert, lookup-insert}
use price_feeder.Stakers.{Error, StakerInfo, WithdrawInfo, Stakers}
use price_feeder.Stakers.Grow.{
  apply_version, grow_deposits, grow_withdraws, check_grow, try_grow_withdraws,
  try_grow_versions_from_cache,
}
use price_feeder.Stakers.Grow.Rollback.{created, grown, grow_none, grow_step, apply_version-Applied}
use price_feeder.Stakers.Grow.Total.{withdrawn, roll_back-fails}

lookup-insert-none :
    (idx key : ℕ) (info : StakerInfo) (m : List (ℕ × StakerInfo))
    → lookup idx (insert key info m) ≡ none
    → lookup idx m ≡ none
lookup-insert-none idx key info m h = ground (arith, lookup-insert key idx info m)

Applied-known :
    (idx i : ℕ) (s : Stakers)
    → apply_version i s ≡ ((apply_version i s).0, none)
    → lookup idx (apply_version i s).0.s_infos ≡ none
    → lookup idx s.s_infos ≡ none
Applied-known idx i s done gone =
    let (d, cached, applied) = apply_version-Applied i s done in
    elim applied [
      | created absent made ↦
          lookup-insert-none idx d.staker_index _ s.s_infos
            (sym (ap (λ (x : Stakers). lookup idx x.s_infos) made) ∙ gone)
      | grown old new found added made ↦
          lookup-insert-none idx d.staker_index new s.s_infos
            (sym (ap (λ (x : Stakers). lookup idx x.s_infos) made) ∙ gone)
    ]

grow_deposits-known :
    (idx n i j : ℕ) (s t : Stakers)
    → grow_deposits n i s ≡ (t, j, none)
    → lookup idx t.s_infos ≡ none
    → lookup idx s.s_infos ≡ none
grow_deposits-known idx zero i j s t h gone =
    let same : t ≡ s = grow_none i j s t h in
    subst (λ (x : Stakers). lookup idx x.s_infos ≡ none) same gone
grow_deposits-known idx (suc n) i j s t h gone =
    let (done, rest) = grow_step n i j s t h in
    Applied-known idx i s done
      (grow_deposits-known idx n (suc i) j (apply_version i s).0 t rest gone)

grow_withdraws-known :
    (idx : ℕ) (ws : List WithdrawInfo) (wv latest : ℕ) (s : Stakers)
    → lookup idx (grow_withdraws ws wv latest s).0.s_infos ≡ none
    → lookup idx s.s_infos ≡ none
unfolding grow_withdraws
grow_withdraws-known idx [] wv latest s gone = gone
grow_withdraws-known idx (w ∷ ws) wv latest s gone =
    elim (Option-cases (lookup w.staker_index s.s_infos)) [
      | inl absent ↦ ground (arith, gone, absent)
      | inr (info, found) ↦ ground (
        arith,
        gone,
        grow_withdraws-known idx ws wv w.withdraw_version (withdrawn w info s),
        lookup-insert w.staker_index idx (record info { withdraw_version = w.withdraw_version })
            s.s_infos,
      )
    ]

try_grow_withdraws-known :
    (idx i wv : ℕ) (s t : Stakers)
    → try_grow_withdraws i wv s ≡ (t, none)
    → lookup idx t.s_infos ≡ none
    → lookup idx s.s_infos ≡ none
unfolding try_grow_withdraws
try_grow_withdraws-known idx i wv s t h gone =
    let start = record s { prev_withdraw_infos = [] } in
    let r = grow_withdraws s.withdraw_infos wv s.withdraw_version start in
    elim (Option-cases r.2) [
      | inl done ↦
          ground (arith, grow_withdraws-known idx s.withdraw_infos wv s.withdraw_version start)
      | inr (e, failed) ↦
          ground (arith, roll_back-fails (ltb 1 i || ltb s.withdraw_version r.1) (i - 1) e r.0 t)
    ]

-- A staker that is missing after a growth that succeeds was missing before it.
pub try_grow-known :
    (idx version wv : ℕ) (updating : Bool) (s t : Stakers)
    → try_grow_versions_from_cache version wv updating s ≡ (t, none)
    → lookup idx t.s_infos ≡ none
    → lookup idx s.s_infos ≡ none
unfolding try_grow_versions_from_cache
try_grow-known idx version wv updating s t h gone =
    elim (Option-cases (check_grow version wv updating s)) [
      | inr (early, returned) ↦
          let same : t ≡ s = ground arith in
          subst (λ (x : Stakers). lookup idx x.s_infos ≡ none) same gone
      | inl passed ↦ elim (Option-cases r.2) [
        | inr (e, failed) ↦ absurd (ground (arith, roll_back-fails (ltb 1 r.1) (r.1 - 1) e r.0 t))
        | inl done ↦
            grow_deposits-known idx (version - s.version) (s.version + 1) r.1 s r.0
              (ground (arith, done))
              (try_grow_withdraws-known idx r.1 wv r.0 t (ground (arith, done)) gone)
      ]
    ]
  where
    r : Stakers × ℕ × Option Error
    r = grow_deposits (version - s.version) (s.version + 1) s
