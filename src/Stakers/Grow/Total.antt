-- ===== src/Stakers/Grow/Total.antt =====
-- fetcher/types/types.go: the sum of the balances over a growth.
use price_feeder.Prelude.{
  ℕ, zero, suc, ◌+◌, ◌-◌, ◌^◌, ◌≤◌, ◌<◌, ◌≡◌, ◌≢◌, refl, ap, ◌∙◌, inl, inr, List, [], ◌∷◌, Option,
  none, some, Bool, nat_eq, Option-cases, ◌||◌, ltb, arith,
}
use price_feeder.Prelude.Map.{lookup, insert}
use price_feeder.Stakers.{u64, Error, Stakers, StakerInfo, StakerInfos, DepositInfo, WithdrawInfo}
use price_feeder.Stakers.Validators.{add_validator-inv}
use price_feeder.Stakers.Grow.{
  apply_version, grow_deposits, grow_withdraws, roll_back, keep_first, check_grow,
  try_grow_withdraws, try_grow_versions_from_cache,
}
use price_feeder.Stakers.Grow.Rollback.{
  Fits, FitsAll, Applied, created, grown, grow_step, grow_none, apply_version-Applied,
  Applied-deposits,
}

-- The sum of the balances.
pub total : StakerInfos → ℕ
total [] = 0
total ((idx, info) ∷ sis) = info.balance + total sis

-- The amount that waits under a version.
abbrev amount_at : ℕ → List (ℕ × DepositInfo) → ℕ
amount_at v m = elim (lookup v m) [ none ↦ 0 | some d ↦ d.amount ]

-- The amounts of `n` versions from `i` on.
pub amounts : ℕ → ℕ → List (ℕ × DepositInfo) → ℕ
amounts zero i m = 0
amounts (suc n) i m = amount_at i m + amounts n (suc i) m

total-insert_new :
    (k : ℕ) (v : StakerInfo) (m : StakerInfos)
    → lookup k m ≡ none
    → total (insert k v m) ≡ total m + v.balance
unfolding total lookup insert
total-insert_new k v [] h = omega arith
total-insert_new k v ((j, w) ∷ m) h = ground (arith, total-insert_new k v m)

total-insert_old :
    (k : ℕ) (v old : StakerInfo) (m : StakerInfos)
    → lookup k m ≡ some old
    → total (insert k v m) + old.balance ≡ total m + v.balance
unfolding total lookup insert
total-insert_old k v old [] h = ground arith
total-insert_old k v old ((j, w) ∷ m) h = ground (arith, total-insert_old k v old m)

Applied-total :
    (d : DepositInfo) (s t : Stakers)
    → Applied d s t
    → Fits d s
    → total t.s_infos ≡ total s.s_infos + d.amount
Applied-total d s t (created new e) fits =
    ap (λ (x : Stakers). total x.s_infos) e ∙ total-insert_new d.staker_index _ s.s_infos new
Applied-total d s t (grown old new found added e) fits =
    let (fresh, is_new) = add_validator-inv d.validator d.amount old new added in
    let sum : new.balance ≡ old.balance + d.amount =
      ap (λ (x : StakerInfo). x.balance) is_new ∙ no_wrap (fits old found) in
    ap (λ (x : Stakers). total x.s_infos) e
    ∙ omega (arith, total-insert_old d.staker_index new old s.s_infos found, sum)
  where
    no_wrap : {n : ℕ} → n < 2 ^ 64 → u64 n ≡ n
    no_wrap h = omega arith

pub grow_deposits-total :
    (n i j : ℕ) (a c : Stakers)
    → grow_deposits n i a ≡ (c, j, none)
    → FitsAll n i a
    → total c.s_infos ≡ total a.s_infos + amounts n i a.s_infos_add
unfolding amounts
grow_deposits-total zero i j a c h fits =
    ap (λ (x : Stakers). total x.s_infos) (grow_none i j a c h) ∙ omega arith
grow_deposits-total (suc n) i j a c h fits =
    let (done, rest) = grow_step n i j a c h in
    let (d, cached, applied) = apply_version-Applied i a done in
    let a1 = (apply_version i a).0 in
    let later : total c.s_infos ≡ total a1.s_infos + amounts n (suc i) a1.s_infos_add =
      grow_deposits-total n (suc i) j a1 c rest fits.1 in
    let same : amounts n (suc i) a1.s_infos_add ≡ amounts n (suc i) a.s_infos_add =
      ap (amounts n (suc i)) (Applied-deposits applied) in
    let here : amount_at i a.s_infos_add ≡ d.amount = ground arith in
    omega (arith, later, same, here, Applied-total d a a1 applied (fits.0 d cached))

-- The stakers after one withdrawal.
abbrev pub withdrawn : WithdrawInfo → StakerInfo → Stakers → Stakers
withdrawn w info s = record s {
  prev_withdraw_infos = keep_first w.staker_index info.withdraw_version s.prev_withdraw_infos;
  s_infos = insert w.staker_index (record info { withdraw_version = w.withdraw_version }) s.s_infos;
}

pub roll_back-fails :
    (needed : Bool) (version : ℕ) (e : Error) (s t : Stakers)
    → roll_back needed version e s ≢ (t, none)
unfolding roll_back
roll_back-fails needed version e s t = ground arith

early_return :
    (version wv : ℕ) (updating : Bool) (s : Stakers)
    → check_grow version wv updating s ≡ some none
    → (version ≡ s.version) × (wv ≡ s.withdraw_version)
unfolding check_grow
early_return version wv updating s h = ground arith

grow_withdraws-total :
    (ws : List WithdrawInfo) (wv latest : ℕ) (s : Stakers)
    → total (grow_withdraws ws wv latest s).0.s_infos ≡ total s.s_infos
unfolding grow_withdraws
grow_withdraws-total [] wv latest s = refl
grow_withdraws-total (w ∷ ws) wv latest s = elim (Option-cases (lookup w.staker_index s.s_infos)) [
  | inl gone ↦ ground arith
  | inr (info, found) ↦ ground (
    arith,
    grow_withdraws-total ws wv w.withdraw_version (withdrawn w info s),
    total-insert_old w.staker_index (record info { withdraw_version = w.withdraw_version }) info
        s.s_infos found,
  )
]

try_grow_withdraws-total :
    (i wv : ℕ) (s t : Stakers)
    → try_grow_withdraws i wv s ≡ (t, none)
    → total t.s_infos ≡ total s.s_infos
unfolding try_grow_withdraws
try_grow_withdraws-total i wv s t h =
    elim (Option-cases (grow_withdraws ws wv s.withdraw_version start).2) [
      | inl done ↦ ground (arith, grow_withdraws-total ws wv s.withdraw_version start)
      | inr (e, failed) ↦
          let r = grow_withdraws ws wv s.withdraw_version start in
          ground (arith, roll_back-fails (ltb 1 i || ltb s.withdraw_version r.1) (i - 1) e r.0 t)
    ]
  where
    ws : List WithdrawInfo
    ws = s.withdraw_infos

    start : Stakers
    start = record s { prev_withdraw_infos = [] }

no_amounts : (m n i : ℕ) (added : List (ℕ × DepositInfo)) → m ≤ n → amounts (m - n) i added ≡ 0
unfolding amounts
no_amounts m n i added le = ap (λ (k : ℕ). amounts k i added) none_left
  where
    none_left : m - n ≡ 0
    none_left = omega arith

early_total :
    (version wv : ℕ) (updating : Bool) (s t : Stakers) (early : Option Error)
    → check_grow version wv updating s ≡ some early
    → s ≡ t
    → early ≡ none
    → total t.s_infos
      ≡ total s.s_infos + amounts (version - s.version) (s.version + 1) s.s_infos_add
early_total version wv updating s t early returned same_stakers nothing =
    let (same, _) = early_return version wv updating s (returned ∙ ap some nothing) in
    let sum : total s.s_infos ≡ total t.s_infos =
      ap (λ (r : Stakers). total r.s_infos) same_stakers in
    omega
      (arith, sum, no_amounts version s.version (s.version + 1) s.s_infos_add (omega (arith, same)))

-- A growth that succeeds adds to the sum of the balances exactly the amounts of the deposits
-- between the two versions, unless a balance wraps.
pub growth_total :
    (version wv : ℕ) (updating : Bool) (s t : Stakers)
    → FitsAll (version - s.version) (s.version + 1) s
    → try_grow_versions_from_cache version wv updating s ≡ (t, none)
    → total t.s_infos
      ≡ total s.s_infos + amounts (version - s.version) (s.version + 1) s.s_infos_add
unfolding try_grow_versions_from_cache
growth_total version wv updating s t fits h =
    elim (Option-cases (check_grow version wv updating s)) [
      | inr (early, returned) ↦
          early_total version wv updating s t early returned (ground arith) (ground arith)
      | inl passed ↦ elim (Option-cases (grow_deposits n (s.version + 1) s).2) [
        | inr (e, failed) ↦ absurd (ground (arith, roll_back-fails (ltb 1 r.1) (r.1 - 1) e r.0 t))
        | inl done ↦
            let grew : total r.0.s_infos
                ≡ total s.s_infos + amounts n (s.version + 1) s.s_infos_add =
              grow_deposits-total n (s.version + 1) r.1 s r.0 (ground arith) fits in
            ground (arith, grew, try_grow_withdraws-total r.1 wv r.0 t)
      ]
    ]
  where
    n : ℕ
    n = version - s.version

    r : Stakers × ℕ × Option Error
    r = grow_deposits n (s.version + 1) s
