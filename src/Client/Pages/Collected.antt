-- ===== src/Client/Pages/Collected.antt =====
-- imuaclient/query.go: the pages of `GetStakerInfos` against the list they stand for.
use price_feeder.Prelude.{
  ℕ, zero, suc, ◌≡◌, refl, ap, ◌≤◌, List, [], ◌∷◌, ◌++◌, none, some, Bool, true, ◌&&◌,
  if◌then◌else◌, length, Bytes, ◌==◌, nat_eq, arith,
}
use mathlib.Core.List.{append_assoc}
use price_feeder.Stakers.Reset.{OracleStaker, NstVersion}
use price_feeder.Client.Pages.{Page, Answer, page, got, next_pages, get_staker_infos}

-- The node answers the request of a key, and those of the keys that follow, with these pages.
abbrev pub Answers : (ℕ → Bytes → Answer) → ℕ → Bytes → Page → List Page → Type 0
Answers ask n key p [] = (ask n key ≡ page p) × (p.next_key ≡ none)
Answers ask n key p (q ∷ rest) =
    (next : Bytes) × (ask n key ≡ page p)
    × (p.next_key ≡ some next)
    × Answers ask (suc n) next q rest

-- The stakers of all pages.
unfoldable pub all_stakers : List Page → List OracleStaker
all_stakers [] = []
all_stakers (p ∷ ps) = p.staker_infos ++ all_stakers ps

-- All pages have the version.
unfoldable pub same_version : ℕ → List Page → Bool
same_version v [] = true
same_version v (p ∷ ps) = v == p.version && same_version v ps

append_nil : (xs : List OracleStaker) → xs ++ [] ≡ xs
append_nil [] = refl
append_nil (x ∷ xs) = ap (◌∷◌ x) (append_nil xs)

next_pages_lem :
    (ask : ℕ → Bytes → Answer) (fuel n : ℕ) (key : Bytes) (ret : List OracleStaker) (v : ℕ)
    (feeds : NstVersion) (p : Page) (ps : List Page)
    → Answers ask n key p ps
    → suc (length ps) ≤ fuel
    → next_pages ask fuel n key ret (some (v, feeds)) ≡ (
        if same_version v (p ∷ ps)
        then got (ret ++ all_stakers (p ∷ ps)) (some feeds)
        else got [] none)
unfolding next_pages same_version all_stakers
next_pages_lem ask zero n key ret v feeds p ps answers enough = absurd (ground arith)
next_pages_lem ask (suc fuel) n key ret v feeds p [] (answer, last) enough =
    ground (arith, append_nil p.staker_infos)
next_pages_lem ask (suc fuel) n key ret v feeds p (q ∷ ps) (next, answer, more, rest) enough =
    ground (
      arith,
      append_assoc ret p.staker_infos (all_stakers (q ∷ ps)),
      next_pages_lem ask fuel (suc n) next (ret ++ p.staker_infos) v feeds q ps rest,
    )

-- The node answers the requests with the page `p` and the pages `ps` that follow it, and the fuel is
-- at least their number: `GetStakerInfos` returns. Where all pages have one version the result is
-- the stakers of all pages, in order, with the fed versions of the first page; otherwise it is no
-- stakers and a nil version, without an error.
pub get_staker_infos_lem :
    (ask : ℕ → Bytes → Answer) (fuel : ℕ) (p : Page) (ps : List Page)
    → Answers ask 0 [] p ps
    → suc (length ps) ≤ fuel
    → get_staker_infos ask true fuel ≡ (
        if same_version p.version (p ∷ ps)
        then got (all_stakers (p ∷ ps)) (some p.feeds)
        else got [] none)
unfolding get_staker_infos next_pages same_version all_stakers
get_staker_infos_lem ask zero p ps answers enough = absurd (ground arith)
get_staker_infos_lem ask (suc fuel) p [] (answer, last) enough =
    ground (arith, append_nil p.staker_infos)
get_staker_infos_lem ask (suc fuel) p (q ∷ ps) (next, answer, more, rest) enough =
    ground (arith, next_pages_lem ask fuel 1 next p.staker_infos p.version p.feeds q ps rest)
