-- ===== src/Feeders/Dispatch/Isolation.antt =====
-- internal/feeder/types.go: which feeders a request changes.
use price_feeder.Prelude.{
  ℕ, ◌≡◌, ◌⊎◌, refl, ◌∙◌, inl, inr, List, [], ◌∷◌, ◌++◌, Option, none, false, Option-cases, nat_eq,
  ◌==◌, arith,
}
use price_feeder.Prelude.Map.{lookup, insert, has, lookup-insert}
use price_feeder.Oracle.{Oracle}
use price_feeder.Events.{EventNstStaker, EventNstBalance}
use price_feeder.Feeder.State.{Message, Response, Effect, Failure}
use price_feeder.Feeders.{Running, Feeders, FeederError, feeder_not_found, goes, crashes}
use price_feeder.Feeders.Calls.{Called, called, call_panics, call_blocks}
use price_feeder.Feeders.Dispatch.{
  Missing, reported, left_out, dereferenced, error_of, ask_each, request_nst_stakers,
  request_nst_balances, request_nst_pieces,
}

Called-cases :
    {T : Type 0} (c : Called T)
    → ((r : Running T) × (es : List Effect) × (failure : Option Failure) × (c
          ≡ called r es failure))
      ⊎ ((c ≡ call_panics) ⊎ (c ≡ call_blocks))
Called-cases (called r es failure) = inl (r, es, failure, refl)
Called-cases call_panics = inr (inl refl)
Called-cases call_blocks = inr (inr refl)

Missing-cases : (m : Missing) → (m ≡ reported) ⊎ ((m ≡ left_out) ⊎ (m ≡ dereferenced))
Missing-cases reported = inl refl
Missing-cases left_out = inr (inl refl)
Missing-cases dereferenced = inr (inr refl)

absent_tail :
    {A : Type 0} (id j : ℕ) (info : A) (infos : List (ℕ × A))
    → has id ((j, info) ∷ infos) ≡ false
    → ((j == id) ≡ false) × (has id infos ≡ false)
unfolding has lookup
absent_tail id j info infos h = ground arith

module _ {T A : Type 0} (ask : A → Running T → Called T) (missing : Missing) where
  -- Of the loop over the infos of a request only the feeders that the infos name are changed.
  ask_each-others :
      (infos : List (ℕ × A)) (fs fs' : Feeders T) (effects effects' : List Effect)
      (res res' : List (ℕ × FeederError)) (id : ℕ)
      → has id infos ≡ false
      → ask_each ask missing infos fs effects res ≡ goes fs' effects' res'
      → (lookup id fs'.feeder_map ≡ lookup id fs.feeder_map) × (fs'.running ≡ fs.running)
  unfolding ask_each
  ask_each-others [] fs fs' effects effects' res res' id absent h = ground arith
  ask_each-others ((j, info) ∷ infos) fs fs' effects effects' res res' id absent h =
      let (other, later) = absent_tail id j info infos absent in
      elim (Option-cases (lookup j fs.feeder_map)) [
        | inl unknown ↦ elim (Missing-cases missing) [
          | inl is_reported ↦
              ask_each-others infos fs fs' effects effects' (res ++ ((j, feeder_not_found) ∷ []))
                res' id later (ground arith)
          | inr (inl is_left_out) ↦
              ask_each-others infos fs fs' effects effects' res res' id later (ground arith)
          | inr (inr crash) ↦ absurd (ground arith)
        ]
        | inr (r, known) ↦ elim (Called-cases (ask info r)) [
          | inl (r', es, failure, asked) ↦
              let fs'' = record fs { feeder_map = insert j r' fs.feeder_map } in
              let (same, same_running) =
                ask_each-others infos fs'' fs' (effects ++ es) effects' (res ++ error_of j failure)
                  res' id later (ground arith) in
              (same ∙ ground (arith, other, lookup-insert j id r' fs.feeder_map), same_running)
          | inr (inl crash) ↦ absurd (ground arith)
          | inr (inr block) ↦ absurd (ground arith)
        ]
      ]

module _ {T : Type 0} (o : Oracle T) (submit : Message → Response) where
  -- The three requests differ on a feeder that is not there, where the map has none of its id: the
  -- stakers' one reports it and goes on, the balances' one leaves it out, and the pieces' one goes on
  -- with a nil feeder, and the program panics.
  unknown_feeder :
      (id index : ℕ) (stakers : EventNstStaker) (balance : EventNstBalance) (fs : Feeders T)
      → lookup id fs.feeder_map ≡ none
      → (request_nst_stakers false ((id, stakers) ∷ []) fs
          ≡ goes fs [] ((id, feeder_not_found) ∷ []))
        × (request_nst_balances o false ((id, balance) ∷ []) fs ≡ goes fs [] [])
        × (request_nst_pieces o submit false ((id, index) ∷ []) fs ≡ crashes)
  unfolding request_nst_stakers request_nst_balances request_nst_pieces ask_each
  unknown_feeder id index stakers balance fs unknown = ground (arith, unknown)
