-- ===== src/Stakers/Reset/Loads.antt =====
-- fetcher/types/types.go: the loop of `Reset` over the stakers that the chain reports.
use price_feeder.Prelude.{
  ℕ, ◌-◌, ◌≡◌, refl, sym, ap, ◌∙◌, inl, inr, List, [], ◌∷◌, ◌++◌, none, some, true, false,
  Bool-cases, Option-cases, if◌then◌else◌, ltb, leb, length, Bytes, ◌==◌, nat_eq, arith,
}
use price_feeder.Prelude.Map.{lookup, lookup-insert}
use price_feeder.Stakers.{StakerInfo}
use price_feeder.Stakers.Reset.{
  ValidatorDeposit, OracleStaker, NstVersion, Split, split_validator, split_validators,
  latest_balance, Load, seen_index, add_staker, Loaded, loaded, refused, load_staker, load_stakers,
}
use price_feeder.Stakers.Reset.Reported.{
  fed_validators, pending_amount, later, deposit_of, pending_deposit, fed_staker, reported_staker,
  reported_deposit, reported_withdraws,
}

append_assoc : {A : Type 0} (xs ys zs : List A) → (xs ++ ys) ++ zs ≡ xs ++ (ys ++ zs)
append_assoc [] ys zs = refl
append_assoc (x ∷ xs) ys zs = ap (λ rest. x ∷ rest) (append_assoc xs ys zs)

append_nil : {A : Type 0} (xs : List A) → xs ++ [] ≡ xs
append_nil [] = refl
append_nil (x ∷ xs) = ap (λ rest. x ∷ rest) (append_nil xs)

split_validators-next :
    (fed : ℕ) (info : OracleStaker) (v : ValidatorDeposit) (vs : List ValidatorDeposit)
    (p q : Split)
    → split_validators fed info (v ∷ vs) p ≡ some q
    → split_validators fed info vs (split_validator fed info v p) ≡ some q
unfolding split_validators
split_validators-next fed info v vs p q h = ground arith

split_validators-fed :
    (fed : ℕ) (info : OracleStaker) (vs : List ValidatorDeposit) (p q : Split)
    → split_validators fed info vs p ≡ some q
    → (q.validators ≡ p.validators ++ fed_validators fed vs)
      × (q.pending ≡ pending_amount fed vs p.pending)
unfolding split_validators split_validator
split_validators-fed fed info [] p q h = (ground (arith, append_nil p.validators), ground arith)
split_validators-fed fed info (v ∷ vs) p q h =
    let next = split_validators-next fed info v vs p q h in
    let (validators, pending) =
      split_validators-fed fed info vs (split_validator fed info v p) q next in
    elim (Bool-cases (leb v.version fed)) [
      | inl due ↦ (
        ground (
          arith,
          validators,
          append_assoc p.validators (v.validator_pubkey ∷ []) (fed_validators fed vs),
        ),
        ground (arith, pending),
      )
      | inr waits ↦ (ground (arith, validators), ground (arith, pending))
    ]

split_validators-pending :
    (fed k : ℕ) (info : OracleStaker) (vs : List ValidatorDeposit) (p q : Split)
    → split_validators fed info vs p ≡ some q
    → lookup k q.deposits ≡ later (pending_deposit fed info k vs) (lookup k p.deposits)
unfolding split_validators split_validator
split_validators-pending fed k info [] p q h = ground arith
split_validators-pending fed k info (v ∷ vs) p q h =
    let next = split_validators-next fed info v vs p q h in
    let rest = split_validators-pending fed k info vs (split_validator fed info v p) q next in
    elim (Option-cases (pending_deposit fed info k vs)) [
      | inl absent ↦ ground (
        arith,
        rest,
        nat_eq.beq_iff v.version k,
        lookup-insert v.version k (deposit_of info v) p.deposits,
      )
      | inr (d, found) ↦ ground (arith, rest)
    ]

load_staker-inv :
    (version : NstVersion) (info : OracleStaker) (l l' : Load)
    → load_staker version info l ≡ loaded l'
    → (p : Split) × (split_validators version.feed_version info info.validator_list
          (record { validators = []; seen = []; deposits = l.deposits; pending = 0 })
        ≡ some p)
      × (seen_index info.staker_index l.seen ≡ false)
      × (l' ≡ add_staker version info p l)
unfolding load_staker
load_staker-inv version info l l' h =
    elim (Option-cases (split_validators version.feed_version info info.validator_list start)) [
      | inl failed ↦ absurd (ground arith)
      | inr (p, split) ↦ (p, split, ground arith, ground arith)
    ]
  where
    start : Split
    start = record { validators = []; seen = []; deposits = l.deposits; pending = 0 }

first_loaded :
    (version : NstVersion) (info : OracleStaker) (infos : List OracleStaker) (l l' : Load)
    (first : Loaded)
    → load_staker version info l ≡ first
    → load_stakers version (info ∷ infos) l ≡ loaded l'
    → (m : Load) × (first ≡ loaded m) × (load_stakers version infos m ≡ loaded l')
unfolding load_stakers
first_loaded version info infos l l' (loaded m) e h = (m, refl, ground arith)
first_loaded version info infos l l' (refused error) e h = absurd (ground arith)

load_stakers-next :
    (version : NstVersion) (info : OracleStaker) (infos : List OracleStaker) (l l' : Load)
    → load_stakers version (info ∷ infos) l ≡ loaded l'
    → (m : Load) × (load_staker version info l ≡ loaded m)
      × (load_stakers version infos m ≡ loaded l')
load_stakers-next version info infos l l' h =
    first_loaded version info infos l l' (load_staker version info l) refl h

lookup-add_staker :
    (version : NstVersion) (info : OracleStaker) (p : Split) (l : Load) (asked : ℕ)
    (validators : List Bytes) (pending : ℕ)
    → p.validators ≡ validators
    → p.pending ≡ pending
    → lookup asked (add_staker version info p l).infos ≡ (
        if info.staker_index == asked
        then later
            (if ltb 0 (length validators)
              then some (record {
                address = info.staker_addr;
                validators = validators;
                balance = latest_balance info.balance_list - pending;
                withdraw_version = info.withdraw_version;
              })
              else none)
            (lookup asked l.infos)
        else lookup asked l.infos)
unfolding add_staker
lookup-add_staker version info p l asked validators pending same_validators same_pending =
    rw (sym same_validators, sym same_pending)
      (elim (Bool-cases (ltb 0 (length p.validators))) [
        | inl fed ↦
            ground (arith, fed, lookup-insert info.staker_index asked (staker_of info p) l.infos)
        | inr waits ↦ ground (arith, waits)
      ])
  where
    staker_of : OracleStaker → Split → StakerInfo
    staker_of info p = record {
      address = info.staker_addr;
      validators = p.validators;
      balance = latest_balance info.balance_list - p.pending;
      withdraw_version = info.withdraw_version;
    }

-- One staker that is loaded.
load_staker-lem :
    (version : NstVersion) (info : OracleStaker) (l l' : Load) (asked k : ℕ)
    → load_staker version info l ≡ loaded l'
    → (seen_index info.staker_index l.seen ≡ false)
      × (seen_index asked l'.seen
          ≡ (if info.staker_index == asked then true else seen_index asked l.seen))
      × (lookup asked l'.infos ≡ (
          if info.staker_index == asked
          then later (fed_staker version info) (lookup asked l.infos)
          else lookup asked l.infos))
      × (lookup k l'.deposits
          ≡ later
              (pending_deposit version.feed_version info k info.validator_list)
              (lookup k l.deposits))
      × (l'.withdraws ≡ l.withdraws ++ reported_withdraws version (info ∷ []))
unfolding add_staker
load_staker-lem version info l l' asked k h =
    let (p, split, unseen, made) = load_staker-inv version info l l' h in
    let start : Split = record { validators = []; seen = []; deposits = l.deposits; pending = 0 } in
    let (validators, pending) =
      split_validators-fed version.feed_version info info.validator_list start p split in
    let deposits =
      split_validators-pending version.feed_version k info info.validator_list start p split in
    rw made (
      unseen,
      ground arith,
      lookup-add_staker version info p l asked
          (fed_validators version.feed_version info.validator_list)
          (pending_amount version.feed_version info.validator_list 0) validators pending,
      deposits,
      ground (arith, append_nil l.withdraws),
    )

reported-cons :
    (version : NstVersion) (info : OracleStaker) (infos : List OracleStaker)
    → reported_withdraws version (info ∷ []) ++ reported_withdraws version infos
      ≡ reported_withdraws version (info ∷ infos)
reported-cons version info infos = ground arith

-- The stakers, deposits and withdrawals after the loop over the reported stakers from `l` on.
pub load_stakers_lem :
    (version : NstVersion) (infos : List OracleStaker) (l l' : Load) (asked k : ℕ)
    → load_stakers version infos l ≡ loaded l'
    → (lookup asked l'.infos ≡ (
        if seen_index asked l.seen
        then lookup asked l.infos
        else later (reported_staker version asked infos) (lookup asked l.infos)))
      × (lookup k l'.deposits ≡ later (reported_deposit version k infos) (lookup k l.deposits))
      × (l'.withdraws ≡ l.withdraws ++ reported_withdraws version infos)
unfolding load_stakers
load_stakers_lem version [] l l' asked k h =
    (ground arith, ground arith, ground (arith, append_nil l.withdraws))
load_stakers_lem version (info ∷ infos) l l' asked k h =
    let (m, first, rest) = load_stakers-next version info infos l l' h in
    let (unseen, seen, infos_one, deposits_one, withdraws_one) =
      load_staker-lem version info l m asked k first in
    let (infos_rest, deposits_rest, withdraws_rest) =
      load_stakers_lem version infos m l' asked k rest in
    (
      ground (arith, unseen, seen, infos_one, infos_rest, nat_eq.beq_iff info.staker_index asked),
      elim (Option-cases (reported_deposit version k infos)) [
        | inl absent ↦ ground (arith, deposits_one, deposits_rest)
        | inr (d, found) ↦ ground (arith, deposits_one, deposits_rest)
      ],
      withdraws_rest
          ∙ ap (λ ws. ws ++ reported_withdraws version infos) withdraws_one
          ∙ append_assoc l.withdraws (reported_withdraws version (info ∷ []))
              (reported_withdraws version infos)
          ∙ ap (λ ws. l.withdraws ++ ws) (reported-cons version info infos),
    )
