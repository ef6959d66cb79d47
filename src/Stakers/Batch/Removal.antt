-- ===== src/Stakers/Batch/Removal.antt =====
-- fetcher/types/types.go: `RemoveAllOrNone` when it takes the last validator of a staker.
use price_feeder.Prelude.{
  ℕ, ◌≤◌, ◌≡◌, refl, List, [], ◌∷◌, none, some, true, All, Bytes, nat_eq, bytes_eq, beq_refl, arith,
}
use price_feeder.Prelude.Map.{lookup, erase, lookup-erase}
use price_feeder.Stakers.{nil_dereference, StakerInfo, StakerInfos, contains}
use price_feeder.Stakers.Infos.{get_sv_list, not_in, left, check_removal}
use price_feeder.Stakers.Batch.{
  stage_remove, stage_removes, commit_remove, commit_removes, remove_all_or_none,
}

contains-cons :
    (u : Bytes) (seen vs : List Bytes)
    → All (λ v. contains v seen ≡ true) vs
    → All (λ v. contains v (u ∷ seen) ≡ true) vs
unfolding contains
contains-cons u seen [] all = tt
contains-cons u seen (v ∷ vs) all = (ground (arith, all.0), contains-cons u seen vs all.1)

contains_self : (vs : List Bytes) → All (λ v. contains v vs ≡ true) vs
unfolding contains
contains_self [] = tt
contains_self (v ∷ vs) =
    (ground (arith, beq_refl ⦃e = bytes_eq⦄ v), contains-cons v vs vs (contains_self vs))

not_in-All : (seen vs : List Bytes) → All (λ v. contains v seen ≡ true) vs → not_in seen vs ≡ []
unfolding not_in
not_in-All seen [] all = refl
not_in-All seen (v ∷ vs) all = ground (arith, all.0, not_in-All seen vs all.1)

check_removal-last :
    (s r : StakerInfo)
    → r.validators ≡ s.validators
    → r.balance ≤ s.balance
    → check_removal s r ≡ left []
unfolding check_removal
check_removal-last s r same le =
    rw (same, not_in-All s.validators s.validators (contains_self s.validators))
      (ground (arith, le))

lookup-get_sv_list :
    (idx : ℕ) (s : StakerInfo) (sis : StakerInfos)
    → lookup idx sis ≡ some s
    → lookup idx (get_sv_list sis) ≡ some (s.validators)
unfolding lookup get_sv_list
lookup-get_sv_list idx s [] h = absurd (ground arith)
lookup-get_sv_list idx s ((j, x) ∷ sis) h = ground (arith, lookup-get_sv_list idx s sis)

-- A removal of all validators of a staker, in whatever balance the staker has, does not succeed: the
-- staker is deleted in the first loop, and the second one reads it through a nil pointer.
pub remove_all_or_none-last :
    (idx : ℕ) (s r : StakerInfo) (sis : StakerInfos)
    → lookup idx sis ≡ some s
    → r.validators ≡ s.validators
    → r.balance ≤ s.balance
    → remove_all_or_none ((idx, r) ∷ []) sis ≡ (erase idx sis, some nil_dereference)
unfolding remove_all_or_none stage_removes stage_remove commit_removes commit_remove
remove_all_or_none-last idx s r sis found same le =
    let gone : lookup idx (erase idx sis) ≡ none =
      ground (arith, lookup-erase idx idx sis, beq_refl ⦃e = nat_eq⦄ idx) in
    ground (arith, found, check_removal-last s r same le, lookup-get_sv_list idx s sis found, gone)
