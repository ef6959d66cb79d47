-- ===== src/Stakers/Grow/Gap.antt =====
-- fetcher/types/types.go: a growth to a withdraw version beyond the queue.
use price_feeder.Prelude.{ℕ, ◌+◌, ◌-◌, ◌<◌, ◌≡◌, none, some, Option, Bool, arith}
use price_feeder.Stakers.{Error, no_cached_withdraw, Stakers}
use price_feeder.Stakers.Grow.{
  grow_deposits, check_grow, last_withdraw, try_grow_withdraws, try_grow_versions_from_cache,
}
use price_feeder.Stakers.Grow.Rollback.{FitsAll}
use price_feeder.Stakers.Grow.Total.{total, amounts, grow_deposits-total}
use price_feeder.Stakers.Grow.Progress.{grow_deposits-Same}

gap_refused :
    (i wv : ℕ) (s : Stakers)
    → s.withdraw_version < wv
    → last_withdraw s.withdraw_infos < wv
    → try_grow_withdraws i wv s ≡ (s, some no_cached_withdraw)
unfolding try_grow_withdraws
gap_refused i wv s more gap = ground (arith, more, gap)

-- A growth that passes the first checks and applies its deposits, to a withdraw version that the
-- queue does not reach: it returns an error, and yet the balances keep the amounts of the deposits,
-- unless one wraps, while the version stays.
pub gap_keeps_deposits :
    (version wv : ℕ) (updating : Bool) (s : Stakers)
    → FitsAll (version - s.version) (s.version + 1) s
    → check_grow version wv updating s ≡ none
    → (grow_deposits (version - s.version) (s.version + 1) s).2 ≡ none
    → s.withdraw_version < wv
    → last_withdraw s.withdraw_infos < wv
    → (t : Stakers) × (try_grow_versions_from_cache version wv updating s
        ≡ (t, some no_cached_withdraw))
      × (total t.s_infos
          ≡ total s.s_infos + amounts (version - s.version) (s.version + 1) s.s_infos_add)
      × (t.version ≡ s.version)
unfolding try_grow_versions_from_cache
gap_keeps_deposits version wv updating s fits passed done more gap =
    let (same_version, same_wv, _, same_queue) = grow_deposits-Same n (s.version + 1) s in
    let refused : try_grow_withdraws r.1 wv r.0 ≡ (r.0, some no_cached_withdraw) =
      gap_refused r.1 wv r.0 (rw same_wv more) (rw same_queue gap) in
    (
      r.0,
      ground (arith, passed, done, refused),
      grow_deposits-total n (s.version + 1) r.1 s r.0 (ground (arith, done)) fits,
      same_version,
    )
  where
    n : ℕ
    n = version - s.version

    r : Stakers × ℕ × Option Error
    r = grow_deposits n (s.version + 1) s
