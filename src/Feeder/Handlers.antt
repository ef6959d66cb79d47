-- ===== src/Feeder/Handlers.antt =====
-- internal/feeder/types.go: the branches of a feeder's routine for the chain's events: prices,
-- parameters, stakers, balances and pieces.
pub mod Replies
pub mod Tests
use price_feeder.Prelude.{
  ℕ, List, [], ◌∷◌, ◌++◌, Option, none, some, Bool, true, false, ◌&&◌, ltb, if◌then◌else◌, length,
  get_elem?, Bytes, ◌==◌, nat_eq, bytes_eq,
}
use price_feeder.Prelude.Int.{ℤ, pos, ltb_ℤ, to_signed}
use price_feeder.Oracle.{Oracle}
use price_feeder.Events.{EventNstStaker, EventNstBalance}
use price_feeder.Stakers.{Error, Stakers}
use price_feeder.Stakers.Infos.{get_copy}
use price_feeder.Stakers.Cache.{cache_deposits_withdraws}
use price_feeder.Stakers.Grow.{grow_versions_from_cache}
use price_feeder.Stakers.Apply.{apply_balance_changes}
use price_feeder.Feeder.Price.{
  UpdatePrice, stored, decode_error, out_of_range, update_price, reset_price,
}
use price_feeder.Feeder.TwoPhases.{TwoPhases, finalize_raw_data, finalized_raw_data_by_root_hash}
use price_feeder.Feeder.Pieces.{update_nst_piece_index}
use price_feeder.Feeder.State.{
  Feeder, Message, Response, Effect, reply, set_nst_stakers, Failure, stakers_error, no_two_phases,
  no_raw_data, bad_raw_data, bad_piece_index, Outcome, runs, panics, after,
}
use price_feeder.Feeder.Second.{then_second_phase}

-- The fields that the code reads of the oracle module's `TokenFeeder`, `Token` and `Params`.
pub record TokenFeeder : Type 0 where
  pub token_id : ℕ
  pub start_round_id : ℕ
  pub start_base_block : ℕ
  pub interval : ℕ
  pub end_block : ℕ

pub record Token : Type 0 where
  pub name : Bytes
  pub decimal : ℤ  -- int32

pub record Params : Type 0 where
  pub tokens : List Token
  pub piece_size_byte : ℕ  -- uint32
  -- `IsRule2PhasesByFeederID`, of the oracle module.
  pub is_rule_2_phases : ℕ → Bool
  pub token_feeders : List TokenFeeder
  pub max_nonce : ℤ  -- int32

module _ {T : Type 0} where
  -- `updateFeederParams`; the second result is false for an error.
  unfoldable pub update_feeder_params : Option Params → Feeder T → Feeder T × Bool
  update_feeder_params none f = (f, false)
  update_feeder_params (some p) f = elim (get_elem? p.token_feeders f.feeder_id) [
    | none ↦ (f, false)
    | some tf ↦ (
      record f {
        schedule = record (f.schedule) {
          end_block = to_signed 64 tf.end_block;
          start_base_block = to_signed 64 tf.start_base_block;
          interval = to_signed 64 tf.interval;
        };
        last_sent =
            if ltb_ℤ (pos 0) p.max_nonce
            then record (f.last_sent) { max_nonce = p.max_nonce }
            else f.last_sent;
      },
      true,
    )
  ]

  -- The error is logged only; the answer is sent in both cases.
  unfoldable handle_params : Option Params → Feeder T → Outcome T
  handle_params p f = runs (update_feeder_params p f).0 (reply none ∷ [])

  -- `GetStakerInfos` and `SetNSTStakers`, with the versions that are passed on.
  abbrev publish : ℕ → ℕ → Feeder T → Effect
  publish version withdraw_version f =
      set_nst_stakers f.source (get_copy f.stakers.s_infos) version withdraw_version

  -- On the first deposit the stakers grow at once.
  unfoldable pub first_deposit : EventNstStaker → Feeder T → Feeder T × List Effect
  first_deposit info f =
      let (grown, refused) = grow_versions_from_cache info.next_version 0 f.stakers in
      let f' = record f { stakers = grown } in
      if ltb 0 (length info.deposits) && info.next_version == 1
      then elim refused [
        | some e ↦ (f', reply (some (stakers_error e)) ∷ [])
        | none ↦ (f', publish grown.version grown.withdraw_version f' ∷ [])
      ]
      else (f, [])

  unfoldable pub reset_on_withdraws : EventNstStaker → Feeder T → Feeder T
  unfolding reset_price
  reset_on_withdraws info f =
      if ltb 0 (length info.withdraws)
      then record f { last_price = reset_price f.last_price }
      else f

  unfoldable pub handle_nst_stakers : EventNstStaker → Feeder T → Outcome T
  handle_nst_stakers info f =
      let (cached, refused) =
        cache_deposits_withdraws info.deposits info.next_version info.withdraws f.stakers in
      let f' = record f { stakers = cached } in
      elim refused [
        | some e ↦ runs f' (reply (some (stakers_error e)) ∷ [])
        | none ↦
            let (grown, effects) = first_deposit info f' in
            runs (reset_on_withdraws info grown) (effects ++ (reply none ∷ []))
      ]

-- sha256 of the empty string.
abbrev pub empty_raw_data_changes_root_hash : Bytes
empty_raw_data_changes_root_hash =
    0xe3 ∷ 0xb0 ∷ 0xc4 ∷ 0x42 ∷ 0x98 ∷ 0xfc ∷ 0x1c ∷ 0x14 ∷ 0x9a ∷ 0xfb ∷ 0xf4 ∷ 0xc8 ∷ 0x99 ∷ 0x6f
    ∷ 0xb9 ∷ 0x24 ∷ 0x27 ∷ 0xae ∷ 0x41 ∷ 0xe4 ∷ 0x64 ∷ 0x9b ∷ 0x93 ∷ 0x4c ∷ 0xa4 ∷ 0x95 ∷ 0x99
    ∷ 0x1b ∷ 0x78 ∷ 0x52 ∷ 0xb8 ∷ 0x55 ∷ []

module _ {T : Type 0} (o : Oracle T) where
  -- The new stakers for a confirmed root, or the error of the request.
  unfoldable pub confirm_root : EventNstBalance → TwoPhases T → Stakers → Stakers × Option Failure
  confirm_root info t s =
      let with_error = λ (r : Stakers × Option Error).
        let (s', e) = r in
        elim e as (λ _. Stakers × Option Failure) [
          | none ↦ (s', none)
          | some x ↦ (s', some (stakers_error x))
        ] in
      if info.root_hash == empty_raw_data_changes_root_hash
      then with_error (grow_versions_from_cache info.version info.withdraw_version s)
      else elim (finalized_raw_data_by_root_hash o info.root_hash t) [
        | none ↦ (s, some no_raw_data)
        | some raw ↦ elim (o.unmarshal raw) [
          | none ↦ (s, some bad_raw_data)
          | some changes ↦
              with_error (apply_balance_changes changes info.version info.withdraw_version s)
        ]
      ]

  -- `applyNSTBalanceUpdate`.
  unfoldable pub apply_nst_balance_update :
      EventNstBalance → Feeder T → Feeder T × List Effect × Option Failure
  apply_nst_balance_update info f = elim f.two_phases_info [
    | none ↦ (f, [], some no_two_phases)
    | some t ↦
        let (s, refused) = confirm_root info t f.stakers in
        let f' = record f { stakers = s } in
        elim refused [
          | some e ↦ (f', [], some e)
          | none ↦ (f', publish info.version info.withdraw_version f' ∷ [], none)
        ]
  ]

  unfoldable pub handle_nst_balance : EventNstBalance → Feeder T → Outcome T
  handle_nst_balance info f =
      let (f', effects, refused) = apply_nst_balance_update info f in
      runs f' (effects ++ (reply refused ∷ []))

  unfoldable pub handle_nst_piece : (Message → Response) → ℕ → Feeder T → Outcome T
  handle_nst_piece submit index f =
      let (info, done) = update_nst_piece_index o index f.two_phases_info in
      after (reply (if done then none else some bad_piece_index) ∷ [])
        (then_second_phase o submit (record f { two_phases_info = info }))

  -- `f.FinalizeRawData`.
  unfoldable pub finalize : Bytes → TwoPhases T → Feeder T → Feeder T
  finalize root t f = record f { two_phases_info = some (finalize_raw_data o f.round_id root t).0 }

  unfoldable pub handle_price : (Message → Response) → UpdatePrice → Feeder T → Outcome T
  handle_price submit p f = elim f.two_phases_info [
    | none ↦ elim (update_price o p false f.last_price) [
      | stored lp _ ↦ runs (record f { last_price = lp }) []
      | decode_error ↦ runs f []
      | out_of_range ↦ panics
    ]
    | some t ↦ elim (update_price o p true f.last_price) [
      | decode_error ↦ runs f []
      | out_of_range ↦ panics
      | stored lp root ↦
          let f' = record f { last_price = lp } in
          if length root == 0 then runs f' [] else then_second_phase o submit (finalize root t f')
    ]
  ]
