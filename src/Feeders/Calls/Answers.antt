-- ===== src/Feeders/Calls/Answers.antt =====
-- internal/feeder/types.go: the answers to the calls of a feeder, of which its routine must give one.
use price_feeder.Prelude.{
  ◌<◌, ◌≡◌, ◌⊎◌, refl, ◌∙◌, inl, inr, List, [], ◌∷◌, ◌++◌, Option, none, some, true, false,
  Option-cases, nat_eq, length, arith,
}
use price_feeder.Oracle.{Oracle}
use price_feeder.Events.{EventNstStaker, EventNstBalance}
use price_feeder.Stakers.{Error, Stakers}
use price_feeder.Stakers.Cache.{cache_deposits_withdraws}
use price_feeder.Stakers.Grow.{grow_versions_from_cache}
use price_feeder.Feeder.TwoPhases.{TwoPhases}
use price_feeder.Feeder.State.{Feeder, Effect, Failure, stakers_error, runs, reply}
use price_feeder.Feeder.Handlers.{
  apply_nst_balance_update, first_deposit, reset_on_withdraws, handle_nst_stakers,
  handle_nst_balance,
}
use price_feeder.Feeder.Handlers.Replies.{balance_answered}
use price_feeder.Feeders.{Running}
use price_feeder.Feeders.Calls.{
  called, call_blocks, replies, answer, call, update_nst_stakers, update_nst_balance,
}

replies-cases :
    (es : List (Option Failure))
    → (es ≡ [])
      ⊎ (((e : Option Failure) × (es ≡ e ∷ []))
          ⊎ ((e : Option Failure) × (e' : Option Failure) × (es' : List (Option Failure)) × (es
                ≡ e ∷ e' ∷ es')))
replies-cases [] = inl refl
replies-cases (e ∷ []) = inr (inl (e, refl))
replies-cases (e ∷ e' ∷ es) = inr (inr (e, e', es, refl))

module _ {T : Type 0} where
  refused_first :
      (info : EventNstStaker) (f : Feeder T) (grown : Stakers) (e : Error)
      → 0 < length info.deposits
      → info.next_version ≡ 1
      → grow_versions_from_cache 1 0 f.stakers ≡ (grown, some e)
      → first_deposit info f ≡ (record f { stakers = grown }, reply (some (stakers_error e)) ∷ [])
  unfolding first_deposit
  refused_first info f grown e some_deposits is_first fails =
      rw (is_first, first_deposit) (ground (arith, some_deposits, fails))

  two_replies :
      (info : EventNstStaker) (f : Feeder T) (cached grown : Stakers) (e : Error)
      → cache_deposits_withdraws info.deposits info.next_version info.withdraws f.stakers
        ≡ (cached, none)
      → 0 < length info.deposits
      → info.next_version ≡ 1
      → grow_versions_from_cache 1 0 cached ≡ (grown, some e)
      → handle_nst_stakers info f
        ≡ runs
            (reset_on_withdraws info (record f { stakers = grown }))
            (reply (some (stakers_error e)) ∷ reply none ∷ [])
  unfolding handle_nst_stakers
  two_replies info f cached grown e caches some_deposits is_first fails = ground (
    arith,
    caches,
    refused_first info (record f { stakers = cached }) grown e some_deposits is_first fails,
  )

  -- The first deposits of a feeder of two phases, in an event that the stakers cache but fail to
  -- grow to: the call returns the error, the feeder's routine waits for ever to answer once more,
  -- and no later call of it with stakers returns.
  pub first_deposit_blocks :
      (info : EventNstStaker) (r : Running T) (t : TwoPhases T) (cached grown : Stakers) (e : Error)
      → r.feeder.two_phases_info ≡ some t
      → r.blocked ≡ false
      → cache_deposits_withdraws info.deposits info.next_version info.withdraws r.feeder.stakers
        ≡ (cached, none)
      → 0 < length info.deposits
      → info.next_version ≡ 1
      → grow_versions_from_cache 1 0 cached ≡ (grown, some e)
      → (r' : Running T) × (update_nst_stakers info r ≡ called r' [] (some (stakers_error e)))
        × ((later : EventNstStaker) → update_nst_stakers later r' ≡ call_blocks)
  unfolding update_nst_stakers call answer reset_on_withdraws
  first_deposit_blocks info r t cached grown e two free caches some_deposits is_first fails =
      let f' = reset_on_withdraws info (record (r.feeder) { stakers = grown }) in
      (
        record r { feeder = f'; blocked = true },
        ground (
          arith,
          two,
          free,
          two_replies info r.feeder cached grown e caches some_deposits is_first fails,
        ),
        λ later. ground (arith, two),
      )

  -- What the caller reads is the first answer, and a single one leaves the routine as it was.
  answer-inv :
      (f : Feeder T) (effects : List Effect) (r r' : Running T) (es : List Effect)
      (e : Option Failure)
      → answer (runs f effects) r ≡ called r' es e
      → (more : List (Option Failure)) × (replies effects ≡ e ∷ more)
        × (more ≡ [] → r'.blocked ≡ r.blocked)
  unfolding answer
  answer-inv f effects r r' es e h = elim (replies-cases (replies effects)) [
    | inl nothing ↦ absurd (ground arith)
    | inr (inl (e', one)) ↦ ([], ground arith, λ single. ground arith)
    | inr (inr (e', e'', es', several)) ↦ (e'' ∷ es', ground arith, λ single. absurd (ground arith))
  ]

  handle_nst_stakers-runs :
      (info : EventNstStaker) (f : Feeder T)
      → (f' : Feeder T) × (effects : List Effect) × (handle_nst_stakers info f ≡ runs f' effects)
  unfolding handle_nst_stakers
  handle_nst_stakers-runs info f =
      let r = cache_deposits_withdraws info.deposits info.next_version info.withdraws f.stakers in
      let g = record f { stakers = r.0 } in
      elim (Option-cases r.1) [
        | inl cached ↦ (
          reset_on_withdraws info (first_deposit info g).0,
          (first_deposit info g).1 ++ (reply none ∷ []),
          ground arith,
        )
        | inr (e, refused) ↦ (g, reply (some (stakers_error e)) ∷ [], ground arith)
      ]

  handle_nst_balance-runs :
      (o : Oracle T) (info : EventNstBalance) (f : Feeder T)
      → (f' : Feeder T) × (effects : List Effect) × (handle_nst_balance o info f ≡ runs f' effects)
  unfolding handle_nst_balance
  handle_nst_balance-runs o info f =
      let r = apply_nst_balance_update o info f in (r.0, r.1 ++ (reply r.2 ∷ []), refl)

  one_reply :
      (info : EventNstStaker) (f f' : Feeder T) (effects : List Effect) (es : List (Option Failure))
      → handle_nst_stakers info f ≡ runs f' effects
      → replies effects ≡ none ∷ es
      → es ≡ []
  unfolding handle_nst_stakers first_deposit
  one_reply info f f' effects es h first = ground arith

  stakers_free :
      (info : EventNstStaker) (r r' : Running T) (es : List Effect)
      → r.blocked ≡ false
      → update_nst_stakers info r ≡ called r' es none
      → r'.blocked ≡ false
  unfolding update_nst_stakers call
  stakers_free info r r' es free asked = elim (Option-cases r.feeder.two_phases_info) [
    | inl one ↦ ground arith
    | inr (t, two) ↦
        let (f, effects, ran) = handle_nst_stakers-runs info r.feeder in
        let (more, first, single) = answer-inv f effects r r' es none (ground arith) in
        single (one_reply info r.feeder f effects more ran first) ∙ free
  ]

  balance_free :
      (o : Oracle T) (info : EventNstBalance) (r r' : Running T) (es : List Effect)
      (failure : Option Failure)
      → r.blocked ≡ false
      → update_nst_balance o info r ≡ called r' es failure
      → r'.blocked ≡ false
  unfolding update_nst_balance call answer
  balance_free o info r r' es failure free asked = elim (Option-cases r.feeder.two_phases_info) [
    | inl one ↦ ground arith
    | inr (t, two) ↦
        let (f, effects, ran) = handle_nst_balance-runs o info r.feeder in
        let (_, replied) = balance_answered o info r.feeder f effects ran in ground (arith, replied)
  ]

  -- A call with stakers or with a balance that returns no error leaves the feeder's routine free to
  -- take the next message.
  pub answered_free :
      (o : Oracle T) (info : EventNstStaker) (balance : EventNstBalance) (r r' r'' : Running T)
      (es es' : List Effect) (failure : Option Failure)
      → r.blocked ≡ false
      → update_nst_stakers info r ≡ called r' es none
      → update_nst_balance o balance r ≡ called r'' es' failure
      → (r'.blocked ≡ false) × (r''.blocked ≡ false)
  unfolding update_nst_stakers update_nst_balance call answer
  answered_free o info balance r r' r'' es es' failure free asked asked_balance = (
    stakers_free info r r' es free asked,
    balance_free o balance r r'' es' failure free asked_balance,
  )
