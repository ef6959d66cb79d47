-- ===== src/Stakers/Reset/Queue.antt =====
-- fetcher/types/types.go: what `Reset` leaves behind.
use price_feeder.Prelude.{
  ℕ, ◌≤◌, ◌≡◌, ◌⊎◌, ◌+◌, ◌∙◌, ap, if◌then◌else◌, Bool, Option, refl, inl, inr, List, [], ◌∷◌, none,
  some, true, Bool-cases, leb, All, arith, nat_eq,
}
use price_feeder.Prelude.Map.{lookup}
use price_feeder.Stakers.Reset.Reported.{
  later, reported_staker, reported_deposit, reported_withdraws,
}
use price_feeder.Stakers.Reset.Loads.{load_stakers_lem}
use price_feeder.Stakers.{Error, WithdrawInfo, Stakers}
use price_feeder.Stakers.Reset.{
  OracleStaker, NstVersion, Load, Loaded, loaded, refused, load_stakers, empty_load, sort_insert,
  sort_withdraws, install, reset,
}

-- The withdrawals are in the order of their versions.
abbrev pub IsSorted : List WithdrawInfo → Type 0
IsSorted [] = Unit
IsSorted (w ∷ ws) = All (λ x. w.withdraw_version ≤ x.withdraw_version) ws × IsSorted ws

sort_insert-All :
    (v : ℕ) (w : WithdrawInfo) (ws : List WithdrawInfo)
    → v ≤ w.withdraw_version
    → All (λ x. v ≤ x.withdraw_version) ws
    → All (λ x. v ≤ x.withdraw_version) (sort_insert w ws)
unfolding sort_insert
sort_insert-All v w [] first rest = (first, tt)
sort_insert-All v w (x ∷ xs) first rest =
    elim (Bool-cases (leb w.withdraw_version x.withdraw_version)) [
      | inl le ↦ rw (le, sort_insert) (first, rest)
      | inr gt ↦ rw (gt, sort_insert) (rest.0, sort_insert-All v w xs first rest.1)
    ]

All-le :
    (v v' : ℕ) (ws : List WithdrawInfo)
    → v ≤ v'
    → All (λ x. v' ≤ x.withdraw_version) ws
    → All (λ x. v ≤ x.withdraw_version) ws
All-le v v' [] le rest = tt
All-le v v' (x ∷ xs) le rest = (omega (arith, rest.0), All-le v v' xs le rest.1)

sort_insert-IsSorted :
    (w : WithdrawInfo) (ws : List WithdrawInfo) → IsSorted ws → IsSorted (sort_insert w ws)
unfolding sort_insert
sort_insert-IsSorted w [] sorted = (tt, tt)
sort_insert-IsSorted w (x ∷ xs) sorted =
    elim (Bool-cases (leb w.withdraw_version x.withdraw_version)) [
      | inl le ↦
          rw (le, sort_insert)
            (
              (
                ground arith,
                All-le w.withdraw_version x.withdraw_version xs (ground arith) sorted.0,
              ),
              sorted,
            )
      | inr gt ↦
          rw (gt, sort_insert)
            (
              sort_insert-All x.withdraw_version w xs (ground arith) sorted.0,
              sort_insert-IsSorted w xs sorted.1,
            )
    ]

sort_withdraws-IsSorted : (ws : List WithdrawInfo) → IsSorted (sort_withdraws ws)
unfolding sort_withdraws
sort_withdraws-IsSorted [] = tt
sort_withdraws-IsSorted (w ∷ ws) =
    sort_insert-IsSorted w (sort_withdraws ws) (sort_withdraws-IsSorted ws)

Loaded-cases : (l : Loaded) → ((x : Load) × (l ≡ loaded x)) ⊎ ((e : Error) × (l ≡ refused e))
Loaded-cases (loaded x) = inl (x, refl)
Loaded-cases (refused e) = inr (e, refl)

-- How many of the withdrawals are in a class.
abbrev pub count : (WithdrawInfo → Bool) → List WithdrawInfo → ℕ
count q [] = 0
count q (w ∷ ws) = (if q w then 1 else 0) + count q ws

count-sort_insert :
    (q : WithdrawInfo → Bool) (w : WithdrawInfo) (ws : List WithdrawInfo)
    → count q (sort_insert w ws) ≡ count q (w ∷ ws)
unfolding sort_insert
count-sort_insert q w [] = refl
count-sort_insert q w (x ∷ xs) = ground (arith, count-sort_insert q w xs)

count-sort_withdraws :
    (q : WithdrawInfo → Bool) (ws : List WithdrawInfo) → count q (sort_withdraws ws) ≡ count q ws
unfolding sort_withdraws
count-sort_withdraws q [] = refl
count-sort_withdraws q (w ∷ ws) =
    ground (arith, count-sort_insert q w (sort_withdraws ws), count-sort_withdraws q ws)

later-none : {V : Type 0} (found : Option V) → later found none ≡ found
later-none none = refl
later-none (some v) = refl

-- What a full reset leaves, whatever stakers there were.
pub record IsReported (infos : List OracleStaker) (version : NstVersion) (t : Stakers)
    : Type 0 where
  pub at_version : t.version ≡ version.feed_version
  pub at_withdraw_version : t.withdraw_version ≡ version.feed_withdraw_version
  pub stakers : (asked : ℕ) → lookup asked t.s_infos ≡ reported_staker version asked infos
  pub deposits : (k : ℕ) → lookup k t.s_infos_add ≡ reported_deposit version k infos
  pub sorted : IsSorted t.withdraw_infos
  pub withdraws :
      (q : WithdrawInfo → Bool)
      → count q t.withdraw_infos ≡ count q (reported_withdraws version infos)

install-IsReported :
    (infos : List OracleStaker) (version : NstVersion) (l : Load) (s : Stakers)
    → load_stakers version infos empty_load ≡ loaded l
    → IsReported infos version (install version true l s)
unfolding install lookup
install-IsReported infos version l s loads = record {
  at_version = refl;
  at_withdraw_version = refl;
  stakers = λ asked.
      (load_stakers_lem version infos empty_load l asked 0 loads).0
      ∙ later-none (reported_staker version asked infos);
  deposits = λ k.
      (load_stakers_lem version infos empty_load l 0 k loads).1
      ∙ later-none (reported_deposit version k infos);
  sorted = sort_withdraws-IsSorted l.withdraws;
  withdraws = λ q.
      count-sort_withdraws q l.withdraws
      ∙ ap (count q) (load_stakers_lem version infos empty_load l 0 0 loads).2;
}

-- A full reset fails exactly with the error of the loop over the chain's stakers, and then leaves the
-- stakers as they were. Or nothing of the old stakers, deposits and withdrawals is left: both versions
-- are the chain's; each staker has its validators that were deposited up to the fed version, and its
-- last balance less the later deposits, and is missing without such a validator; the later deposits
-- wait under their versions; and the withdrawals that were not fed yet, and no others, wait in the order
-- of their versions.
pub reset_all :
    (infos : List OracleStaker) (version : NstVersion) (s : Stakers)
    → (((e : Error) × (load_stakers version infos empty_load ≡ refused e)
          × (reset infos version true s ≡ (s, some e)))
        ⊎ ((t : Stakers) × (reset infos version true s ≡ (t, none)) × IsReported infos version t))
unfolding reset
reset_all infos version s = elim (Loaded-cases (load_stakers version infos empty_load)) [
  | inr (e, fails) ↦ inl (e, fails, ground arith)
  | inl (l, loads) ↦
      inr (install version true l s, ground arith, install-IsReported infos version l s loads)
]
