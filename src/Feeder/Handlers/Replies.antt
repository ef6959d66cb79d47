-- ===== src/Feeder/Handlers/Replies.antt =====
-- internal/feeder/types.go: the answer to a balance update, and what the fetcher is told.
use price_feeder.Prelude.{
  ◌≡◌, ◌⊎◌, inl, inr, List, [], ◌∷◌, none, some, Bool-cases, Option-cases, ◌==◌, bytes_eq, arith,
}
use price_feeder.Oracle.{Oracle}
use price_feeder.Events.{EventNstBalance}
use price_feeder.Stakers.{Stakers}
use price_feeder.Stakers.Infos.{get_copy}
use price_feeder.Stakers.Grow.{grow_versions_from_cache}
use price_feeder.Stakers.Grow.Progress.{grown_versions}
use price_feeder.Stakers.Apply.{apply_balance_changes}
use price_feeder.Stakers.Apply.Balances.{applied_balances}
use price_feeder.Feeder.TwoPhases.{TwoPhases, finalized_raw_data_by_root_hash}
use price_feeder.Feeder.State.{Feeder, Effect, reply, set_nst_stakers, Failure, runs}
use price_feeder.Feeder.Handlers.{
  empty_raw_data_changes_root_hash, confirm_root, apply_nst_balance_update, handle_nst_balance,
}

module _ {T : Type 0} (o : Oracle T) where
  -- A root that is confirmed brings the stakers to the versions of the event.
  confirm_root_lem :
      (info : EventNstBalance) (t : TwoPhases T) (s s' : Stakers)
      → confirm_root o info t s ≡ (s', none)
      → (s'.version ≡ info.version) × (s'.withdraw_version ≡ info.withdraw_version)
  unfolding confirm_root
  confirm_root_lem info t s s' h =
      elim (Bool-cases (info.root_hash == empty_raw_data_changes_root_hash)) [
        | inl empty ↦
            let r = grow_versions_from_cache info.version info.withdraw_version s in
            elim (Option-cases r.1) [
              | inr (e, failed) ↦ absurd (ground arith)
              | inl done ↦
                  let (_, _, at, at_wv, _, _, _) =
                    grown_versions info.version info.withdraw_version s s' (ground arith) in
                  (at, at_wv)
            ]
        | inr some_changes ↦
            elim (Option-cases (finalized_raw_data_by_root_hash o info.root_hash t)) [
              | inl no_data ↦ absurd (ground arith)
              | inr (raw, found) ↦ elim (Option-cases (o.unmarshal raw)) [
                | inl bad ↦ absurd (ground arith)
                | inr (changes, parsed) ↦
                    let r = apply_balance_changes changes info.version info.withdraw_version s in
                    elim (Option-cases r.1) [
                      | inr (e, failed) ↦ absurd (ground arith)
                      | inl done ↦
                          let (_, at, at_wv, _) =
                            applied_balances changes info.version info.withdraw_version s s'
                              (ground arith) in
                          (at, at_wv)
                    ]
              ]
            ]
      ]

  -- A balance update is answered once. Either it is refused, and the fetcher is told nothing; or
  -- the stakers have the two versions of the event, and the fetcher gets a copy of them with these
  -- versions. The rest of the feeder does not change.
  pub balance_answered :
      (info : EventNstBalance) (f f' : Feeder T) (effects : List Effect)
      → handle_nst_balance o info f ≡ runs f' effects
      → (f' ≡ record f { stakers = f'.stakers })
        × (((e : Failure) × (effects ≡ reply (some e) ∷ []))
            ⊎ ((f'.stakers.version ≡ info.version)
                × (f'.stakers.withdraw_version ≡ info.withdraw_version)
                × (effects
                    ≡ set_nst_stakers f.source
                        (get_copy f'.stakers.s_infos)
                        info.version
                        info.withdraw_version
                      ∷ reply none
                      ∷ [])))
  unfolding handle_nst_balance apply_nst_balance_update
  balance_answered info f f' effects h = elim (Option-cases f.two_phases_info) [
    | inl one ↦ (ground arith, inl (Failure.no_two_phases, ground arith))
    | inr (t, two) ↦
        let r = confirm_root o info t f.stakers in
        elim (Option-cases r.1) [
          | inr (e, refused) ↦ (ground arith, inl (e, ground arith))
          | inl done ↦
              let (at, at_wv) = confirm_root_lem info t f.stakers r.0 (ground arith) in
              (ground arith, inr (ground (arith, at), ground (arith, at_wv), ground arith))
        ]
  ]
