-- ===== src/Stakers/Batch.antt =====
-- fetcher/types/types.go: `AddAllOrNone`, `RemoveAllOrNone` and `Update` of `StakerInfos`. The
-- first loop of each works on `tmp`, a map from staker index to validators; the second one writes
-- to the stakers.
pub mod Removal
use price_feeder.Prelude.{
  ℕ, ◌+◌, ◌-◌, ◌^◌, List, [], ◌∷◌, Option, none, some, if◌then◌else◌, Bytes, ◌==◌, nat_eq,
}
use price_feeder.Prelude.Map.{lookup, insert, erase}
use price_feeder.Stakers.{
  u64, Error, StakerInfo, StakerInfos, Stakers, validator_exists, staker_not_found, nil_dereference,
  version_mismatch,
}
use price_feeder.Stakers.Infos.{get_sv_list, append_unseen, left, refused, check_removal}

abbrev pub Lists : Type 0
Lists = List (ℕ × List Bytes)

abbrev list_of : Option (List Bytes) → List Bytes
list_of none = []
list_of (some vs) = vs

-- One round of the first loop of `AddAllOrNone`.
unfoldable stage_add : StakerInfos → ℕ → StakerInfo → Lists → Option Lists
stage_add sis idx si_add tmp = elim (lookup idx sis) [
  | none ↦ some (insert idx si_add.validators tmp)
  | some si ↦
      let (vs, done) = append_unseen si.validators (list_of (lookup idx tmp)) si_add.validators in
      if done then some (insert idx vs tmp) else none
]

unfoldable stage_adds : StakerInfos → StakerInfos → Lists → Option Lists
stage_adds sis [] tmp = some tmp
stage_adds sis ((idx, si_add) ∷ s_add) tmp = elim (stage_add sis idx si_add tmp) [
  | none ↦ none
  | some tmp' ↦ stage_adds sis s_add tmp'
]

-- One round of the second loop. A new staker gets no address.
unfoldable commit_add : Lists → ℕ → StakerInfo → StakerInfos → StakerInfos
commit_add tmp idx si_add sis = elim (lookup idx sis) [
  | none ↦
      insert idx
        (record {
          address = [];
          validators = list_of (lookup idx tmp);
          balance = si_add.balance;
          withdraw_version = 0;
        })
        sis
  | some si ↦
      insert idx
        (record si {
          validators = list_of (lookup idx tmp);
          balance = u64 (si.balance + si_add.balance);
        })
        sis
]

unfoldable commit_adds : Lists → StakerInfos → StakerInfos → StakerInfos
commit_adds tmp [] sis = sis
commit_adds tmp ((idx, si_add) ∷ s_add) sis = commit_adds tmp s_add (commit_add tmp idx si_add sis)

unfoldable add_all_or_none : StakerInfos → StakerInfos → StakerInfos × Option Error
add_all_or_none s_add sis = elim (stage_adds sis s_add (get_sv_list sis)) [
  | none ↦ (sis, some validator_exists)
  | some tmp ↦ (commit_adds tmp s_add sis, none)
]

-- One round of the first loop of `RemoveAllOrNone`. A staker that loses its last validator is
-- deleted from the stakers at once, and `tmp` keeps its old entry.
stage_remove : ℕ → StakerInfo → StakerInfos × Lists → StakerInfos × Lists × Option Error
stage_remove idx si_remove (sis, tmp) = elim (lookup idx sis) [
  | none ↦ (sis, tmp, some staker_not_found)
  | some si ↦ elim (check_removal si si_remove) [
    | refused e ↦ (sis, tmp, some e)
    | left [] ↦ (erase idx sis, tmp, none)
    | left (v ∷ vs) ↦ (sis, insert idx (v ∷ vs) tmp, none)
  ]
]

stage_removes : StakerInfos → StakerInfos × Lists → StakerInfos × Lists × Option Error
stage_removes [] (sis, tmp) = (sis, tmp, none)
stage_removes ((idx, si_remove) ∷ s_remove) st =
    let (sis, tmp, failed) = stage_remove idx si_remove st in
    elim failed [ some e ↦ (sis, tmp, some e) | none ↦ stage_removes s_remove (sis, tmp) ]

-- One round of the second loop.
commit_remove : Lists → ℕ → StakerInfo → StakerInfos → StakerInfos × Option Error
commit_remove tmp idx si_remove sis = elim (lookup idx tmp) [
  | none ↦ (erase idx sis, none)
  | some vs ↦ elim (lookup idx sis) [
    | none ↦ (sis, some nil_dereference)
    | some si ↦ (
      insert idx
          (record si { validators = vs; balance = u64 (si.balance + (2 ^ 64 - si_remove.balance)) })
          sis,
      none,
    )
  ]
]

commit_removes : Lists → StakerInfos → StakerInfos → StakerInfos × Option Error
commit_removes tmp [] sis = (sis, none)
commit_removes tmp ((idx, si_remove) ∷ s_remove) sis =
    let (sis', failed) = commit_remove tmp idx si_remove sis in
    elim failed [ some e ↦ (sis', some e) | none ↦ commit_removes tmp s_remove sis' ]

pub remove_all_or_none : StakerInfos → StakerInfos → StakerInfos × Option Error
remove_all_or_none s_remove sis =
    let (sis', tmp, failed) = stage_removes s_remove (sis, get_sv_list sis) in
    elim failed [ some e ↦ (sis', some e) | none ↦ commit_removes tmp s_remove sis' ]

unfoldable update_infos : StakerInfos → StakerInfos → StakerInfos → StakerInfos × Option Error
update_infos s_add s_remove sis =
    let (added, failed) = add_all_or_none s_add sis in
    elim failed [ some e ↦ (added, some e) | none ↦ remove_all_or_none s_remove added ]

-- `Stakers.Update`.
unfoldable update : StakerInfos → StakerInfos → ℕ → ℕ → Stakers → Stakers × Option Error
update s_infos_add s_infos_remove next_version latest_version s =
    let (sis, failed) = update_infos s_infos_add s_infos_remove s.s_infos in
    if u64 (s.version + 1) == next_version
    then elim failed [
      | some e ↦ (record s { s_infos = sis }, some e)
      | none ↦ (record s { s_infos = sis; version = latest_version }, none)
    ]
    else (s, some version_mismatch)
