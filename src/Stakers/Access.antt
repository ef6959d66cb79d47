-- ===== src/Stakers/Access.antt =====
-- fetcher/types/types.go: the methods of `Stakers` that read or replace the infos as a whole.
use price_feeder.Prelude.{
  ℕ, ◌≡◌, refl, List, [], ◌∷◌, Option, none, some, length, ap, nat_eq, arith,
}
use price_feeder.Prelude.Map.{lookup}
use price_feeder.Stakers.{StakerInfo, StakerInfos, Stakers}
use price_feeder.Stakers.Infos.{get_copy}

-- `Length` of a nil pointer is 0.
unfoldable pub length_of : Option Stakers → ℕ
length_of none = 0
length_of (some s) = length s.s_infos

unfoldable pub get_infos_copy : Stakers → StakerInfos × ℕ × ℕ
unfolding get_copy
get_infos_copy s = (get_copy s.s_infos, s.version, s.withdraw_version)

unfoldable pub get_stakers_no_copy : Stakers → StakerInfos × ℕ × ℕ
get_stakers_no_copy s = (s.s_infos, s.version, s.withdraw_version)

unfoldable pub set_staker_infos : StakerInfos → ℕ → Stakers → Stakers
set_staker_infos sis version s = record s { s_infos = sis; version = version }

unfoldable pub staker_balances : StakerInfos → List (ℕ × ℕ)
staker_balances [] = []
staker_balances ((idx, si) ∷ sis) = (idx, si.balance) ∷ staker_balances sis

unfoldable pub get_staker_balances : Stakers → List (ℕ × ℕ)
unfolding staker_balances
get_staker_balances s = staker_balances s.s_infos

pub get_copy-same : (sis : StakerInfos) → get_copy sis ≡ sis
unfolding get_copy
get_copy-same [] = refl
get_copy-same ((idx, si) ∷ sis) = ap (λ rest. (idx, si) ∷ rest) (get_copy-same sis)

-- The copy that is handed out has the same infos and versions as the shared one.
get_infos_copy-no_copy : (s : Stakers) → get_infos_copy s ≡ get_stakers_no_copy s
unfolding get_infos_copy get_stakers_no_copy
get_infos_copy-no_copy s =
    ap (λ sis. (sis, s.version, s.withdraw_version)) (get_copy-same s.s_infos)

abbrev balance_of : Option StakerInfo → Option ℕ
balance_of none = none
balance_of (some si) = some si.balance

-- The balances are those of the infos, under the same indexes.
lookup-staker_balances :
    (idx : ℕ) (sis : StakerInfos) → lookup idx (staker_balances sis) ≡ balance_of (lookup idx sis)
unfolding staker_balances lookup
lookup-staker_balances idx [] = refl
lookup-staker_balances idx ((i, si) ∷ sis) = ground (arith, lookup-staker_balances idx sis)
