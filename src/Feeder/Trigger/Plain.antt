-- ===== src/Feeder/Trigger/Plain.antt =====
-- internal/feeder/types.go: when a feeder of one phase submits a price.
use price_feeder.Prelude.{
  ℕ, ◌≡◌, ◌≢◌, ◌⊎◌, refl, subst, inl, inr, List, [], ◌∷◌, none, some, Bool, true, false,
  Option-cases, if◌then◌else◌, bytes_eq, bytes_beq_iff, ◌==◌, nat_eq, arith,
}
use price_feeder.Prelude.Int.{pos, ◌<ℤ◌, ◌≤ℤ◌, int_eq}
use price_feeder.Oracle.{Oracle}
use price_feeder.Feeder.Sign.{get_next_nonce_and_update, revert_nonce}
use price_feeder.Feeder.Round.{Round, calculate_round}
use price_feeder.Feeder.Price.{PriceInfo}
use price_feeder.Feeder.Pieces.{next_sendable_piece_with_proofs}
use price_feeder.Feeder.State.{
  Feeder, Message, plain, Response, failed, code, Effect, sent, add_token_for_source, runs,
}
use price_feeder.Feeder.Second.{send_2nd_phase_tx}
use price_feeder.Feeder.Trigger.{
  Prepared, submits, skips, faults, TriggerHeights, Fetched, fetched, token_not_configured,
  fetch_error, convert_price, prepare_plain, prepare, first_message, finish_send, submit_price,
  set_feeder_round, first_phase, active_round, handle_trigger,
}

abbrev accepted : Response → Bool
accepted failed = false
accepted (code c) = c == 0

-- A submission of `price` under `nonce` in the round `r`, and the feeder after it.
pub record IsSubmission {T : Type 0} (o : Oracle T) (submit : Message → Response) (latest : Fetched)
    (h : TriggerHeights) (f f' : Feeder T) (r : Round) (raw price : PriceInfo)
    (effects : List Effect) : Type 0 where
  pub in_round : calculate_round f.schedule h.commit_height ≡ some r
  pub active : r.active ≡ true
  pub early : r.delta <ℤ pos 3
  pub synced : h.price_height ≤ℤ f.last_price.height
  pub latest_price : latest ≡ fetched raw
  pub converted : convert_price o raw f.decimal ≡ some price
  pub changed : price.price ≢ f.last_price.price.price
  pub has_nonce : pos 0 ≤ℤ (get_next_nonce_and_update r.round_id f.last_sent).1
  pub only :
      effects
      ≡ sent (
          plain f.feeder_id r.base_block price (get_next_nonce_and_update r.round_id f.last_sent).1)
        ∷ []
  pub nonce_kept : f'.last_sent ≡ (
      if accepted (
        submit (
          plain f.feeder_id r.base_block price
            (get_next_nonce_and_update r.round_id f.last_sent).1))
      then (get_next_nonce_and_update r.round_id f.last_sent).0
      else revert_nonce r.round_id (get_next_nonce_and_update r.round_id f.last_sent).0)

module _ {T : Type 0} (o : Oracle T) (submit : Message → Response) where
  -- A submission of a prepared price sends nothing, or one message with the next nonce.
  submit_plain :
      (r : Round) (price : PriceInfo) (f f' : Feeder T) (effects : List Effect)
      → f.two_phases_info ≡ none
      → submit_price o submit r price f ≡ runs f' effects
      → let (updated, nonce) = get_next_nonce_and_update r.round_id f.last_sent in
        let message = plain f.feeder_id r.base_block price nonce in
        (effects ≡ [])
        ⊎ ((pos 0 ≤ℤ nonce)
            × (effects ≡ sent message ∷ [])
            × (f'.last_sent
                ≡ (if accepted (submit message) then updated else revert_nonce r.round_id updated)))
  unfolding submit_price first_message finish_send
  submit_plain r price f f' effects one h = ground arith

  -- An active round whose price is fetched and changed.
  prepare_plain-inv :
      (round_id : ℕ) (raw price : PriceInfo) (f f' : Feeder T)
      → f.two_phases_info ≡ none
      → prepare o round_id raw f ≡ submits f' price
      → (f' ≡ f)
        × (convert_price o raw f.decimal ≡ some price)
        × (price.price ≢ f.last_price.price.price)
  unfolding prepare prepare_plain
  prepare_plain-inv round_id raw price f f' one h =
      elim (Option-cases (convert_price o raw f.decimal)) [
        | inl bad ↦ absurd (ground arith)
        | inr (p, converted) ↦
            let differs = bytes_beq_iff f.last_price.price.price p.price in ground (arith, differs)
      ]

  Prepared-cases :
      (p : Prepared T)
      → ((g : Feeder T) × (price : PriceInfo) × (p ≡ submits g price))
        ⊎ ((p ≡ faults) ⊎ ((g : Feeder T) × (p ≡ skips g)))
  Prepared-cases (submits g price) = inl (g, price, refl)
  Prepared-cases faults = inr (inl refl)
  Prepared-cases (skips g) = inr (inr (g, refl))

  first_phase-inv :
      (latest : Fetched) (r : Round) (f f' : Feeder T) (e : Effect) (es : List Effect)
      → first_phase o submit latest r f ≡ runs f' (e ∷ es)
      → (e ∷ es ≡ add_token_for_source f.source f.token ∷ [])
        ⊎ ((raw : PriceInfo) × (price : PriceInfo) × (g : Feeder T) × (latest ≡ fetched raw)
            × (prepare o r.round_id raw f ≡ submits g price)
            × (submit_price o submit r price g ≡ runs f' (e ∷ es)))
  unfolding first_phase
  first_phase-inv fetch_error r f f' e es h = absurd (ground arith)
  first_phase-inv token_not_configured r f f' e es h = inl (ground arith)
  first_phase-inv (fetched raw) r f f' e es h = elim (Prepared-cases (prepare o r.round_id raw f)) [
    | inl (g, price, prepared) ↦ inr (raw, price, g, refl, prepared, ground arith)
    | inr (inl fault) ↦ absurd (ground arith)
    | inr (inr (g, skip)) ↦ absurd (ground arith)
  ]

  active_round_plain :
      (latest : Fetched) (r : Round) (f f' : Feeder T) (e : Effect) (es : List Effect)
      → f.two_phases_info ≡ none
      → active_round o submit latest r f ≡ runs f' (e ∷ es)
      → (r.delta <ℤ pos 3) × (first_phase o submit latest r f ≡ runs f' (e ∷ es))
  unfolding active_round send_2nd_phase_tx next_sendable_piece_with_proofs set_feeder_round
  active_round_plain latest r f f' e es one h = ground arith

  -- The branch comes to the active round.
  handle_trigger-inv :
      (latest : Fetched) (h : TriggerHeights) (f f' : Feeder T) (e : Effect) (es : List Effect)
      → handle_trigger o submit latest h f ≡ runs f' (e ∷ es)
      → (r : Round) × (h.price_height ≤ℤ f.last_price.height)
        × (calculate_round f.schedule h.commit_height ≡ some r)
        × (r.active ≡ true)
        × (active_round o submit latest r
              (record f { round_id = r.round_id; base_block = r.base_block })
            ≡ runs f' (e ∷ es))
  unfolding handle_trigger
  handle_trigger-inv latest h f f' e es done =
      elim (Option-cases (calculate_round f.schedule h.commit_height)) [
        | inl fault ↦ absurd (ground arith)
        | inr (r, is_round) ↦ (r, ground arith, is_round, ground arith, ground arith)
      ]

  -- A feeder of one phase that does anything on a new height asks for its token to be added at the
  -- source, or sends one message. It sends only in the first three blocks of an active round, when
  -- it knows the chain's price of that height, when the price in the oracle's decimals differs
  -- from the chain's, and under the next nonce of the round; a message that is not accepted gives
  -- the nonce back.
  pub plain_trigger :
      (latest : Fetched) (h : TriggerHeights) (f f' : Feeder T) (e : Effect) (es : List Effect)
      → f.two_phases_info ≡ none
      → handle_trigger o submit latest h f ≡ runs f' (e ∷ es)
      → (e ∷ es ≡ add_token_for_source f.source f.token ∷ [])
        ⊎ ((r : Round) × (raw : PriceInfo) × (price : PriceInfo) × IsSubmission o submit latest h f
              f' r raw price
              (e ∷ es))
  plain_trigger latest h f f' e es one done =
      let (r, synced, in_round, active, ran) = handle_trigger-inv latest h f f' e es done in
      let g = record f { round_id = r.round_id; base_block = r.base_block } in
      let (early, first) = active_round_plain latest r g f' e es one ran in
      elim (first_phase-inv latest r g f' e es first) [
        | inl asked ↦ inl asked
        | inr (raw, price, g', is_latest, prepared, submitted) ↦
            let (same, converted, changed) =
              prepare_plain-inv r.round_id raw price g g' one prepared in
            let submitted_here : submit_price o submit r price g ≡ runs f' (e ∷ es) =
              subst (λ x. submit_price o submit r price x ≡ runs f' (e ∷ es)) same submitted in
            elim (submit_plain r price g f' (e ∷ es) one submitted_here) [
              | inl nothing ↦ absurd (ground arith)
              | inr (has_nonce, only, kept) ↦ inr (
                r,
                raw,
                price,
                record {
                  in_round = in_round;
                  active = active;
                  early = early;
                  synced = synced;
                  latest_price = is_latest;
                  converted = converted;
                  changed = changed;
                  has_nonce = has_nonce;
                  only = only;
                  nonce_kept = kept;
                },
              )
            ]
      ]
