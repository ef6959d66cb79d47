-- ===== src/Stakers/Cache/Deposits.antt =====
-- fetcher/types/types.go: what `CacheDepositsWithdraws` leaves in the caches.
use price_feeder.Prelude.{
  ℕ, zero, suc, ◌+◌, ◌-◌, ◌^◌, ◌<◌, ◌≡◌, ap, ◌∙◌, inl, inr, List, [], ◌∷◌, ◌++◌, none, some, Bool,
  false, ◌&&◌, nat_eq, Bool-cases, if◌then◌else◌, ltb, leb, length, arith,
}
use mathlib.Core.List.{append-nil, append_assoc}
use price_feeder.Prelude.Map.{lookup, insert, has, lookup-insert}
use price_feeder.Stakers.{u64, Error, Stakers, DepositInfo, WithdrawInfo}
use price_feeder.Stakers.Cache.{
  check_next, cache_deposits, cache_withdraws, cache_deposits_withdraws,
}

-- An event with withdrawals and no deposits comes with the next version 0, and is refused: the
-- withdrawals are not cached, whatever they are.
pub withdraws_alone_refused :
    (withdraws : List WithdrawInfo) (s : Stakers)
    → s.version < 2 ^ 64 - 1
    → lookup (2 ^ 64 - 1) s.s_infos_add ≡ none
    → (e : Error) × (cache_deposits_withdraws [] 0 withdraws s ≡ (s, some e))
unfolding cache_deposits_withdraws check_next has
withdraws_alone_refused withdraws s v top = elim (Bool-cases (ltb 0 (length s.s_infos_add))) [
  | inl some_cached ↦ (Error.version_exists, ground arith)
  | inr none_cached ↦ (Error.version_mismatch, ground arith)
]

-- The versions from `v` on, `n` of them.
abbrev pub within : ℕ → ℕ → ℕ → Bool
within v n k = leb v k && ltb k (v + n)

abbrev with_deposit : ℕ → DepositInfo → Stakers → Stakers
with_deposit v d s = record s { s_infos_add = insert v d s.s_infos_add }

-- A round of the loop that goes on.
cache_round :
    (deposits : List (ℕ × DepositInfo)) (n v : ℕ) (s t : Stakers)
    → v + suc n < 2 ^ 64
    → cache_deposits deposits (suc n) v s ≡ (t, none)
    → (d : DepositInfo) × (lookup v deposits ≡ some d)
      × (has v s.s_infos_add ≡ false)
      × (cache_deposits deposits n (v + 1) (with_deposit v d s) ≡ (t, none))
unfolding cache_deposits
cache_round deposits n v s t small h =
    let exact : u64 (v + 1) ≡ v + 1 = omega arith in rw exact at (inverted h)
  where
    inverted :
        cache_deposits deposits (suc n) v s ≡ (t, none)
        → (d : DepositInfo) × (lookup v deposits ≡ some d)
          × (has v s.s_infos_add ≡ false)
          × (cache_deposits deposits n (u64 (v + 1)) (with_deposit v d s) ≡ (t, none))
    inverted h' = ground arith

cache_deposits-lookup :
    (deposits : List (ℕ × DepositInfo)) (n v : ℕ) (s t : Stakers)
    → v + n < 2 ^ 64
    → cache_deposits deposits n v s ≡ (t, none)
    → (k : ℕ)
    → lookup k t.s_infos_add ≡ (if within v n k then lookup k deposits else lookup k s.s_infos_add)
unfolding cache_deposits
cache_deposits-lookup deposits zero v s t small h k = ground arith
cache_deposits-lookup deposits (suc n) v s t small h k =
    let (d, found, fresh, rest) = cache_round deposits n v s t small h in
    ground (
      arith,
      cache_deposits-lookup deposits n (v + 1) (with_deposit v d s) t (omega arith) rest k,
      lookup-insert v k d s.s_infos_add,
    )

-- What `cache_deposits` leaves alone.
cache_deposits_rest :
    (deposits : List (ℕ × DepositInfo)) (n v : ℕ) (s t : Stakers)
    → v + n < 2 ^ 64
    → cache_deposits deposits n v s ≡ (t, none)
    → (t.version ≡ s.version)
      × (t.withdraw_version ≡ s.withdraw_version)
      × (t.s_infos ≡ s.s_infos)
      × (t.withdraw_infos ≡ s.withdraw_infos)
unfolding cache_deposits
cache_deposits_rest deposits zero v s t small h = ground arith
cache_deposits_rest deposits (suc n) v s t small h =
    let (d, found, fresh, rest) = cache_round deposits n v s t small h in
    cache_deposits_rest deposits n (v + 1) (with_deposit v d s) t (omega arith) rest

cache_withdraws_all :
    (withdraws : List WithdrawInfo) (s t : Stakers)
    → cache_withdraws withdraws s ≡ (t, none)
    → t ≡ record s { withdraw_infos = s.withdraw_infos ++ withdraws }
unfolding cache_withdraws
cache_withdraws_all [] s t h = ground (arith, append-nil s.withdraw_infos)
cache_withdraws_all (w ∷ ws) s t h = ground (
  arith,
  cache_withdraws_all ws (record s { withdraw_infos = s.withdraw_infos ++ (w ∷ []) }) t,
  append_assoc s.withdraw_infos (w ∷ []) ws,
)

two_loops :
    (deposits : List (ℕ × DepositInfo)) (next_version : ℕ) (withdraws : List WithdrawInfo)
    (s t : Stakers)
    → cache_deposits_withdraws deposits next_version withdraws s ≡ (t, none)
    → (mid : Stakers) × (cache_deposits deposits (length deposits) next_version s ≡ (mid, none))
      × (cache_withdraws withdraws mid ≡ (t, none))
unfolding cache_deposits_withdraws
two_loops deposits next_version withdraws s t h =
    ((cache_deposits deposits (length deposits) next_version s).0, ground arith, ground arith)

-- A call that succeeds caches the deposits under consecutive versions from `next_version` on,
-- keeps the other cached deposits, puts the withdrawals behind the queue, and leaves the stakers
-- and both versions alone.
pub cached :
    (deposits : List (ℕ × DepositInfo)) (next_version : ℕ) (withdraws : List WithdrawInfo)
    (s t : Stakers)
    → next_version + length deposits < 2 ^ 64
    → cache_deposits_withdraws deposits next_version withdraws s ≡ (t, none)
    → ((k : ℕ)
        → lookup k t.s_infos_add ≡ (
            if within next_version (length deposits) k
            then lookup k deposits
            else lookup k s.s_infos_add))
      × (t.withdraw_infos ≡ s.withdraw_infos ++ withdraws)
      × (t.s_infos ≡ s.s_infos)
      × (t.version ≡ s.version)
      × (t.withdraw_version ≡ s.withdraw_version)
cached deposits next_version withdraws s t small h =
    let (mid, deposited, queued) = two_loops deposits next_version withdraws s t h in
    let same = cache_deposits_rest deposits (length deposits) next_version s mid small deposited in
    let last = cache_withdraws_all withdraws mid t queued in
    (
      λ k.
          ap (λ (x : Stakers). lookup k x.s_infos_add) last
          ∙ cache_deposits-lookup deposits (length deposits) next_version s mid small deposited k,
      cc,
      cc,
      cc,
      cc,
    )
