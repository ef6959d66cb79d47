-- ===== src/Stakers/Infos.antt =====
-- fetcher/types/types.go: the methods of `StakerInfos`.
use price_feeder.Prelude.{
  ℕ, ◌+◌, ◌-◌, List, [], ◌∷◌, ◌++◌, Option, none, some, Bool, not, ltb, if◌then◌else◌, length,
  Bytes, ◌==◌, nat_eq,
}
use price_feeder.Prelude.Map.{lookup, insert, erase}
use price_feeder.Stakers.{
  u64, Error, StakerInfo, StakerInfos, new_staker_info, contains, validator_exists,
  staker_not_found, balance_not_enough, validator_not_found,
}

unfoldable pub get_copy : StakerInfos → StakerInfos
get_copy [] = []
get_copy ((idx, si) ∷ sis) =
    (
      idx,
      record {
        address = si.address;
        validators = si.validators;
        balance = si.balance;
        withdraw_version = si.withdraw_version;
      },
    )
    ∷ get_copy sis

unfoldable pub get_sv_list : StakerInfos → List (ℕ × List Bytes)
get_sv_list [] = []
get_sv_list ((idx, si) ∷ sis) = (idx, si.validators) ∷ get_sv_list sis

-- The loop of `Add` over the validators to add. It stops at one that was seen, and keeps those
-- that it appended before.
unfoldable pub append_unseen : List Bytes → List Bytes → List Bytes → List Bytes × Bool
append_unseen seen validators [] = (validators, Bool.true)
append_unseen seen validators (v ∷ vs) =
    let rest = append_unseen (v ∷ seen) (validators ++ (v ∷ [])) vs in
    if contains v seen then (validators, Bool.false) else rest

stored_or_new : Option StakerInfo → StakerInfo
unfolding new_staker_info
stored_or_new none = new_staker_info
stored_or_new (some s) = s

unfoldable add : ℕ → StakerInfo → StakerInfos → StakerInfos × Option Error
unfolding stored_or_new
add idx s_add sis =
    let s_info = stored_or_new (lookup idx sis) in
    let (validators, done) = append_unseen s_info.validators s_info.validators s_add.validators in
    if done
    then (
      insert idx
          (record s_info {
            validators = validators;
            balance = u64 (s_info.balance + s_add.balance);
          })
          sis,
      none,
    )
    else (insert idx (record s_info { validators = validators }) sis, some validator_exists)

-- The validators that are not in `seen`, in order.
unfoldable pub not_in : List Bytes → List Bytes → List Bytes
not_in seen [] = []
not_in seen (v ∷ vs) = if contains v seen then not_in seen vs else v ∷ not_in seen vs

-- What is left of a staker's validators, or the error of the check before it.
pub data Removal : Type 0 where
  left : List Bytes → Removal
  refused : Error → Removal

unfoldable pub check_removal : StakerInfo → StakerInfo → Removal
check_removal s r =
    let result = not_in r.validators s.validators in
    if ltb s.balance r.balance
    then refused balance_not_enough
    else if not (length s.validators - length result == length r.validators)
    then refused validator_not_found
    else left result

unfoldable remove : ℕ → StakerInfo → StakerInfos → StakerInfos × Option Error
remove idx s_remove sis = elim (lookup idx sis) [
  | none ↦ (sis, some staker_not_found)
  | some s ↦ elim (check_removal s s_remove) [
    | refused e ↦ (sis, some e)
    | left [] ↦ (erase idx sis, none)
    | left (v ∷ vs) ↦ (
      insert idx (record s { validators = v ∷ vs; balance = s.balance - s_remove.balance }) sis,
      none,
    )
  ]
]
