-- ===== src/Stakers/Grow/Rollback.antt =====
-- fetcher/types/types.go: `downgradeVersion` after deposits that were applied.
use price_feeder.Prelude.{
  ℕ, zero, suc, ◌+◌, ◌-◌, ◌^◌, ◌<◌, ◌≡◌, refl, sym, ap, ◌∙◌, inl, inr, [], ◌∷◌, none, some, nat_eq,
  nat_beq_iff, Option, Option-cases, Bool-cases, ◌==◌, beq_refl, bytes_eq, subst, arith,
}
use price_feeder.Prelude.Map.{lookup, insert, lookup-insert}
use price_feeder.Stakers.{
  Stakers, StakerInfo, DepositInfo, add_validator, remove_validator, delete_first,
}
use price_feeder.Stakers.Validators.{remove-add_validator}
use price_feeder.Stakers.Grow.{
  apply_deposit, apply_version, grow_deposits, undo_deposit, undo_deposits,
}

-- A staker that a downgrade leaves of one that a deposit made: no validator and no balance.
abbrev pub Emptied : Option StakerInfo → Type 0
Emptied none = Unit
Emptied (some info) = (info.validators ≡ []) × (info.balance ≡ 0)

-- `b` has every staker of `a`, as it is in `a`, and the same caches and versions. It may have
-- more stakers, which are empty: a downgrade leaves a staker that a deposit made.
pub record Extends (a b : Stakers) : Type 0 where
  pub same_version : b.version ≡ a.version
  pub same_withdraw_version : b.withdraw_version ≡ a.withdraw_version
  pub same_deposits : b.s_infos_add ≡ a.s_infos_add
  pub same_withdraws : b.withdraw_infos ≡ a.withdraw_infos
  pub same_prev : b.prev_withdraw_infos ≡ a.prev_withdraw_infos
  pub kept :
      (idx : ℕ) (info : StakerInfo)
      → lookup idx a.s_infos ≡ some info
      → lookup idx b.s_infos ≡ some info
  pub fresh : (idx : ℕ) → lookup idx a.s_infos ≡ none → Emptied (lookup idx b.s_infos)

-- No balance wraps when the deposit is applied.
abbrev pub Fits : DepositInfo → Stakers → Type 0
Fits d s =
    (info : StakerInfo)
    → lookup d.staker_index s.s_infos ≡ some info
    → info.balance + d.amount < 2 ^ 64

-- Removing the only validator of a staker.
remove_only :
    (d : DepositInfo)
    → remove_validator d.validator d.amount (record {
      address = d.staker_addr;
      validators = d.validator ∷ [];
      balance = d.amount;
      withdraw_version = 0;
    })
      ≡ some
          (record { address = d.staker_addr; validators = []; balance = 0; withdraw_version = 0 })
unfolding remove_validator delete_first
remove_only d = ground (arith, beq_refl ⦃e = bytes_eq⦄ d.validator)

-- The staker that a first deposit makes.
abbrev first_info : DepositInfo → StakerInfo
first_info d = record {
  address = d.staker_addr;
  validators = d.validator ∷ [];
  balance = d.amount;
  withdraw_version = 0;
}

abbrev with_staker : ℕ → StakerInfo → Stakers → Stakers
with_staker idx info s = record s { s_infos = insert idx info s.s_infos }

-- The two ways in which a deposit is applied.
pub data Applied (d : DepositInfo) (s t : Stakers) : Type 0 where
  created :
      lookup d.staker_index s.s_infos ≡ none
      → t ≡ with_staker d.staker_index (first_info d) s
      → Applied d s t
  grown :
      (old new : StakerInfo)
      → lookup d.staker_index s.s_infos ≡ some old
      → add_validator d.validator d.amount old ≡ some new
      → t ≡ with_staker d.staker_index new s
      → Applied d s t

apply_deposit-Applied :
    (d : DepositInfo) (s t : Stakers) → apply_deposit d s ≡ (t, none) → Applied d s t
unfolding apply_deposit
apply_deposit-Applied d s t h = elim (Option-cases (lookup d.staker_index s.s_infos)) [
  | inl new ↦ created new (ground arith)
  | inr (old, found) ↦ elim (Option-cases (add_validator d.validator d.amount old)) [
    | inl dup ↦ absurd (ground arith)
    | inr (new, added) ↦ grown old new found added (ground arith)
  ]
]

module _ (d : DepositInfo) (s b : Stakers) where
  undo_found :
      (info shrunk : StakerInfo)
      → lookup d.staker_index b.s_infos ≡ some info
      → remove_validator d.validator d.amount info ≡ some shrunk
      → undo_deposit d b ≡ with_staker d.staker_index shrunk b
  unfolding undo_deposit
  undo_found info shrunk found removed = ground arith

  -- Only the staker of the deposit is written.
  put_back :
      (new : StakerInfo) (shrunk : StakerInfo)
      → Extends (with_staker d.staker_index new s) b
      → ((info : StakerInfo) → lookup d.staker_index s.s_infos ≡ some info → info ≡ shrunk)
      → (lookup d.staker_index s.s_infos ≡ none → Emptied (some shrunk))
      → Extends s (with_staker d.staker_index shrunk b)
  put_back new shrunk ext back empty = record {
    same_version = ext.same_version;
    same_withdraw_version = ext.same_withdraw_version;
    same_deposits = ext.same_deposits;
    same_withdraws = ext.same_withdraws;
    same_prev = ext.same_prev;
    kept = λ idx info h. ground (
      arith,
      lookup-insert d.staker_index idx shrunk b.s_infos,
      lookup-insert d.staker_index idx new s.s_infos,
      ext.kept idx info,
      nat_beq_iff d.staker_index idx,
      back info,
    );
    fresh = λ idx absent. elim (Bool-cases (d.staker_index == idx)) [
      | inl same ↦
          let here : lookup idx (insert d.staker_index shrunk b.s_infos) ≡ some shrunk =
            lookup-insert d.staker_index idx shrunk b.s_infos ∙ ground (arith, same) in
          rw here (empty (ground (arith, nat_beq_iff d.staker_index idx)))
      | inr other ↦
          let there : lookup idx (insert d.staker_index shrunk b.s_infos) ≡ lookup idx b.s_infos =
            lookup-insert d.staker_index idx shrunk b.s_infos ∙ ground (arith, other) in
          rw there
            (ext.fresh idx (lookup-insert d.staker_index idx new s.s_infos ∙ ground (arith, other)))
    ];
  }

  stored :
      (new : StakerInfo)
      → lookup d.staker_index (with_staker d.staker_index new s).s_infos ≡ some new
  stored new = lookup-insert d.staker_index d.staker_index new s.s_infos ∙ ground arith

  undo_Applied :
      (t : Stakers) → Applied d s t → Fits d s → Extends t b → Extends s (undo_deposit d b)
  undo_Applied t (created new e) fits ext =
      let ext' = subst (λ x. Extends x b) e ext in
      rw
        (undo_found (first_info d) (record (first_info d) { validators = []; balance = 0 })
          (ext'.kept d.staker_index (first_info d) (stored (first_info d))) (remove_only d))
        (put_back (first_info d) _ ext' (λ info h. absurd (ground arith)) (λ h. (refl, refl)))
  undo_Applied t (grown old new found added e) fits ext =
      let ext' = subst (λ x. Extends x b) e ext in
      rw
        (undo_found new old (ext'.kept d.staker_index new (stored new))
          (remove-add_validator d.validator d.amount old new added (fits old found)))
        (put_back new old ext' (λ info h. ground arith) (λ h. absurd (ground arith)))

undo_round :
    (n i : ℕ) (b : Stakers) (d : DepositInfo)
    → lookup i b.s_infos_add ≡ some d
    → undo_deposits (suc n) i b ≡ undo_deposits n (i - 1) (undo_deposit d b)
unfolding undo_deposits
undo_round n i b d found = ground arith

undo_deposits-suc :
    (n i : ℕ) (b c : Stakers) (d : DepositInfo)
    → undo_deposits n i b ≡ (c, none)
    → lookup (i - n) c.s_infos_add ≡ some d
    → undo_deposits (suc n) i b ≡ (undo_deposit d c, none)
unfolding undo_deposits
undo_deposits-suc zero i b c d h found =
    let same : i - 0 ≡ i = omega arith in
    let found' : lookup i c.s_infos_add ≡ some d = rw same at found in ground arith
undo_deposits-suc (suc n) i b c d h found = elim (Option-cases (lookup i b.s_infos_add)) [
  | inl gone ↦ absurd (ground arith)
  | inr (d', e) ↦
      let same : i - suc n ≡ i - 1 - n = omega arith in
      undo_round (suc n) i b d' e
      ∙ undo_deposits-suc n (i - 1) (undo_deposit d' b) c d (sym (undo_round n i b d' e) ∙ h)
          (rw same at found)
]

-- No balance wraps in `n` rounds from version `i` on.
abbrev pub FitsAll : ℕ → ℕ → Stakers → Type 0
FitsAll zero i s = Unit
FitsAll (suc n) i s =
    ((d : DepositInfo) → lookup i s.s_infos_add ≡ some d → Fits d s)
    × FitsAll n (suc i) (apply_version i s).0

apply_found :
    (i : ℕ) (a : Stakers) (d : DepositInfo)
    → lookup i a.s_infos_add ≡ some d
    → apply_version i a ≡ apply_deposit d a
unfolding apply_version
apply_found i a d found = rw (found, apply_version)

pub grow_step :
    (n i j : ℕ) (a c : Stakers)
    → grow_deposits (suc n) i a ≡ (c, j, none)
    → (apply_version i a ≡ ((apply_version i a).0, none))
      × (grow_deposits n (suc i) (apply_version i a).0 ≡ (c, j, none))
unfolding grow_deposits
grow_step n i j a c h = ground arith

pub apply_version-Applied :
    (i : ℕ) (a : Stakers)
    → apply_version i a ≡ ((apply_version i a).0, none)
    → (d : DepositInfo) × (lookup i a.s_infos_add ≡ some d) × Applied d a (apply_version i a).0
apply_version-Applied i a h = elim (Option-cases (lookup i a.s_infos_add)) [
  | inl gone ↦ absurd (unfold apply_version in ground arith)
  | inr (d, e) ↦
      (d, e, apply_deposit-Applied d a (apply_version i a).0 (sym (apply_found i a d e) ∙ h))
]

pub Applied-deposits :
    {d : DepositInfo} {s t : Stakers} → Applied d s t → t.s_infos_add ≡ s.s_infos_add
Applied-deposits (created new e) = ap (λ (x : Stakers). x.s_infos_add) e
Applied-deposits (grown old new found added e) = ap (λ (x : Stakers). x.s_infos_add) e

pub grow_none : (i j : ℕ) (a c : Stakers) → grow_deposits 0 i a ≡ (c, j, none) → c ≡ a
unfolding grow_deposits
grow_none i j a c h = ground arith

-- Growing `n` versions from `i` on and taking them back leaves every staker as it was.
pub undo_grow :
    (n i j : ℕ) (a c b : Stakers)
    → grow_deposits n i a ≡ (c, j, none)
    → FitsAll n i a
    → Extends c b
    → (b' : Stakers) × (undo_deposits n (i + n - 1) b ≡ (b', none)) × Extends a b'
unfolding undo_deposits
undo_grow zero i j a c b h fits ext = (b, refl, subst (λ x. Extends x b) (grow_none i j a c h) ext)
undo_grow (suc n) i j a c b h fits ext =
    let (done, rest) = grow_step n i j a c h in
    let (d, cached, applied) = apply_version-Applied i a done in
    let (b1, undone, ext1) = undo_grow n (suc i) j (apply_version i a).0 c b rest fits.1 ext in
    let last : i + suc n - 1 ≡ suc i + n - 1 = omega arith in
    let first : suc i + n - 1 - n ≡ i = omega arith in
    (
      undo_deposit d b1,
      rw last (
          undo_deposits-suc n (suc i + n - 1) b b1 d undone
            (rw first (ap (lookup i) (ext1.same_deposits ∙ Applied-deposits applied) ∙ cached))),
      undo_Applied d a b1 (apply_version i a).0 applied (fits.0 d cached) ext1,
    )
