-- ===== src/Feeder/Handlers/Tests.antt =====
-- internal/feeder/types.go: the theorem on a balance update at an update without changes.
use price_feeder.Prelude.{ℕ, ◌≡◌, ◌⊎◌, refl, [], ◌∷◌, none, some, codes, nat_eq}
use price_feeder.Prelude.Map.{lookup, insert}
use price_feeder.Events.{EventNstBalance}
use price_feeder.Stakers.{add_validator, contains}
use price_feeder.Stakers.Infos.{get_copy}
use price_feeder.Stakers.Tests.{stakers, grown_stakers}
use price_feeder.Stakers.Grow.{
  apply_deposit, apply_version, grow_deposits, check_grow, try_grow_withdraws,
  try_grow_versions_from_cache, drop_deposits, drop_withdraws, complete, grow_versions_from_cache,
}
use price_feeder.Feeder.State.{Feeder, set_nst_stakers, reply, Failure, runs}
use price_feeder.Feeder.Handlers.{
  empty_raw_data_changes_root_hash, confirm_root, apply_nst_balance_update, handle_nst_balance,
}
use price_feeder.Feeder.Handlers.Replies.{balance_answered}
use price_feeder.Feeder.Tests.{oracle, nst_feeder}

abbrev confirmation : EventNstBalance
confirmation = record {
  root_hash = empty_raw_data_changes_root_hash;
  version = 2;
  withdraw_version = 0;
}

abbrev confirmed : Feeder ℕ
confirmed = record nst_feeder { stakers = grown_stakers 62 }

confirms :
    handle_nst_balance oracle confirmation (record nst_feeder { stakers = stakers })
    ≡ runs confirmed
        (set_nst_stakers (codes "chainlink") ((grown_stakers 62).s_infos) 2 0 ∷ reply none ∷ [])
unfolding handle_nst_balance apply_nst_balance_update confirm_root grow_versions_from_cache complete
    drop_deposits drop_withdraws try_grow_versions_from_cache check_grow grow_deposits apply_version
    apply_deposit try_grow_withdraws lookup insert add_validator contains get_copy
confirms = refl

balance_answered_example :
    (confirmed ≡ record nst_feeder { stakers = grown_stakers 62 })
    × (((e : Failure) × (set_nst_stakers (codes "chainlink") ((grown_stakers 62).s_infos) 2 0
              ∷ reply none
              ∷ []
            ≡ reply (some e) ∷ []))
        ⊎ (◌≡◌ {A = ℕ} 2 2
            × ◌≡◌ {A = ℕ} 0 0
            × (set_nst_stakers (codes "chainlink") ((grown_stakers 62).s_infos) 2 0
                  ∷ reply none
                  ∷ []
                ≡ set_nst_stakers (codes "chainlink") (get_copy ((grown_stakers 62).s_infos)) 2 0
                  ∷ reply none
                  ∷ [])))
balance_answered_example =
    balance_answered oracle confirmation (record nst_feeder { stakers = stakers }) confirmed
      (set_nst_stakers (codes "chainlink") ((grown_stakers 62).s_infos) 2 0 ∷ reply none ∷ [])
      confirms
