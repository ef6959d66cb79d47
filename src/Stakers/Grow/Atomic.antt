-- ===== src/Stakers/Grow/Atomic.antt =====
-- fetcher/types/types.go: the stakers after a growth that fails on a deposit.
use price_feeder.Prelude.{
  ℕ, zero, suc, ◌+◌, ◌-◌, ◌≤◌, ◌<◌, ◌≡◌, refl, sym, ap, ◌∙◌, subst, inl, inr, [], Option, none,
  some, Bool, nat_eq, Bool-cases, Option-cases, ltb, arith,
}
use price_feeder.Prelude.Map.{lookup}
use price_feeder.Stakers.{Error, StakerInfo, Stakers}
use price_feeder.Stakers.Grow.{
  apply_deposit, apply_version, grow_deposits, undo_deposits, undo_withdraws, downgrade_version,
  roll_back, check_grow, try_grow_withdraws, try_grow_versions_from_cache,
}
use price_feeder.Stakers.Grow.Rollback.{Emptied, Extends, FitsAll, grow_none, undo_grow}

-- A version that fails to apply changes nothing.
apply_version_failed : (i : ℕ) (a c : Stakers) (e : Error) → apply_version i a ≡ (c, some e) → c ≡ a
unfolding apply_version apply_deposit
apply_version_failed i a c e h = ground arith

apply_version_keeps :
    (i : ℕ) (a : Stakers)
    → ((apply_version i a).0.version ≡ a.version)
      × ((apply_version i a).0.withdraw_version ≡ a.withdraw_version)
unfolding apply_version apply_deposit
apply_version_keeps i a = ground arith

-- A growth that fails has applied the versions before the one that failed.
grow_prefix :
    (n i j : ℕ) (a c : Stakers) (e : Error)
    → grow_deposits n i a ≡ (c, j, some e)
    → (k : ℕ) × (k < n) × (j ≡ i + k) × (grow_deposits k i a ≡ (c, j, none))
unfolding grow_deposits
grow_prefix zero i j a c e h = absurd (ground arith)
grow_prefix (suc n) i j a c e h = elim (Option-cases (apply_version i a).1) [
  | inr (e', failed) ↦ (
    0,
    omega arith,
    ground arith,
    ground (arith, apply_version_failed i a (apply_version i a).0 e'),
  )
  | inl done ↦
      let (k, lt, at, grown) = grow_prefix n (suc i) j (apply_version i a).0 c e (ground arith) in
      (suc k, omega arith, omega arith, ground arith)
]

FitsAll-le : (n k i : ℕ) (a : Stakers) → k ≤ n → FitsAll n i a → FitsAll k i a
FitsAll-le n zero i a le fits = tt
FitsAll-le zero (suc k) i a le fits = absurd (omega arith)
FitsAll-le (suc n) (suc k) i a le fits =
    (fits.0, FitsAll-le n k (suc i) (apply_version i a).0 (omega arith) fits.1)

grow_keeps :
    (n i : ℕ) (a : Stakers)
    → ((grow_deposits n i a).0.version ≡ a.version)
      × ((grow_deposits n i a).0.withdraw_version ≡ a.withdraw_version)
unfolding grow_deposits
grow_keeps zero i a = (refl, refl)
grow_keeps (suc n) i a =
    ground (arith, grow_keeps n (suc i) (apply_version i a).0, apply_version_keeps i a)

downgrade_version_lem :
    (version : ℕ) (s b : Stakers)
    → undo_deposits (version - s.version) version s ≡ (b, none)
    → b.prev_withdraw_infos ≡ []
    → downgrade_version version s ≡ (b, none)
unfolding downgrade_version undo_withdraws
downgrade_version_lem version s b h e = ground arith

Extends-refl : (s : Stakers) → Extends s s
Extends-refl s = record {
  same_version = refl;
  same_withdraw_version = refl;
  same_deposits = refl;
  same_withdraws = refl;
  same_prev = refl;
  kept = λ idx info h. h;
  fresh = λ idx h. rw h tt;
}

-- A staker that was there is as it was, and one that was not is not there or is empty.
abbrev pub AsBefore : Option StakerInfo → Option StakerInfo → Type 0
AsBefore none after = Emptied after
AsBefore (some info) after = after ≡ some info

Extends-AsBefore :
    (s t : Stakers) (idx : ℕ) (before : Option StakerInfo)
    → Extends s t
    → lookup idx s.s_infos ≡ before
    → AsBefore before (lookup idx t.s_infos)
Extends-AsBefore s t idx none ext e = ext.fresh idx e
Extends-AsBefore s t idx (some info) ext e = ext.kept idx info e

module _ (s : Stakers) (clean : s.prev_withdraw_infos ≡ []) where
  -- The deferred downgrade after an error in the loop over the deposits.
  roll_back_deposits :
      (n j : ℕ) (c : Stakers) (e : Error)
      → FitsAll n (s.version + 1) s
      → grow_deposits n (s.version + 1) s ≡ (c, j, some e)
      → (t : Stakers) × (roll_back (ltb 1 j) (j - 1) e c ≡ (t, some e)) × Extends s t
  unfolding roll_back
  roll_back_deposits n j c e fits h =
      let (k, lt, at, grown) = grow_prefix n (s.version + 1) j s c e h in
      let (b, undone, ext) =
        undo_grow k (s.version + 1) j s c c grown
          (FitsAll-le n k (s.version + 1) s (omega arith) fits) (Extends-refl c) in
      let same : c.version ≡ s.version =
        sym (ap (λ (r : Stakers × ℕ × Option Error). r.0.version) grown)
        ∙ (grow_keeps k (s.version + 1) s).0 in
      let to : j - 1 ≡ s.version + 1 + k - 1 = omega arith in
      let rounds : j - 1 - c.version ≡ k = omega arith in
      elim (Bool-cases (ltb 1 j)) [
        | inl needed ↦ (
          b,
          ground (
            arith,
            downgrade_version_lem (j - 1) c b (rw (rounds, to) undone) (ext.same_prev ∙ clean),
          ),
          ext,
        )
        | inr not_needed ↦
            let no_round : k ≡ 0 = ground arith in
            (
              c,
              ground arith,
              subst (λ x. Extends s x)
                  (sym (
                    grow_none (s.version + 1) j s c (
                      subst (λ m. grow_deposits m (s.version + 1) s ≡ (c, j, none)) no_round
                        grown)))
                  (Extends-refl s),
            )
      ]

  -- A growth that fails extends the stakers: at most empty ones are new.
  failed_growth-Extends :
      (version : ℕ) (updating : Bool) (t : Stakers) (e : Error)
      → FitsAll (version - s.version) (s.version + 1) s
      → try_grow_versions_from_cache version s.withdraw_version updating s ≡ (t, some e)
      → Extends s t
  unfolding try_grow_versions_from_cache try_grow_withdraws
  failed_growth-Extends version updating t e fits h =
      elim (Option-cases (check_grow version s.withdraw_version updating s)) [
        | inr (early, refused) ↦ subst (λ x. Extends s x) (ground arith) (Extends-refl s)
        | inl passed ↦ elim (Option-cases (grow_deposits n (s.version + 1) s).2) [
          | inl done ↦ absurd (ground (arith, grow_keeps n (s.version + 1) s))
          | inr (e', failed) ↦
              let (t', rolled, ext) =
                roll_back_deposits n (grow_deposits n (s.version + 1) s).1
                  (grow_deposits n (s.version + 1) s).0 e' fits (ground arith) in
              subst (λ x. Extends s x) (ground (arith, rolled)) ext
        ]
      ]
    where
      n : ℕ
      n = version - s.version

  -- A growth to a version with no new withdrawals that fails, at whatever check or deposit, leaves
  -- every staker that was there, both versions and both caches as they were, where no withdrawal of an
  -- earlier growth is left to undo and no balance wraps. A staker that was not there is not there, or
  -- is left with no validator and no balance.
  pub failed_growth :
      (version : ℕ) (updating : Bool) (t : Stakers) (e : Error) (idx : ℕ)
      → FitsAll (version - s.version) (s.version + 1) s
      → try_grow_versions_from_cache version s.withdraw_version updating s ≡ (t, some e)
      → AsBefore (lookup idx s.s_infos) (lookup idx t.s_infos)
        × (t.version ≡ s.version)
        × (t.withdraw_version ≡ s.withdraw_version)
        × (t.s_infos_add ≡ s.s_infos_add)
        × (t.withdraw_infos ≡ s.withdraw_infos)
  failed_growth version updating t e idx fits h =
      let ext = failed_growth-Extends version updating t e fits h in
      (
        Extends-AsBefore s t idx (lookup idx s.s_infos) ext refl,
        ext.same_version,
        ext.same_withdraw_version,
        ext.same_deposits,
        ext.same_withdraws,
      )
