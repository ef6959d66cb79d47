-- ===== src/Feeder/Trigger.antt =====
-- internal/feeder/types.go: the branch of a feeder's routine for a new height. It sends pieces of
-- a finalized root, or the price of the round in its first three blocks.
pub mod Plain
pub mod Tests
use price_feeder.Prelude.{
  ℕ, [], ◌∷◌, ◌++◌, Option, none, some, ◌&&◌, ltb, leb, if◌then◌else◌, length, get_elem?, Bytes,
  ◌==◌, nat_eq, bytes_eq,
}
use price_feeder.Prelude.Int.{ℤ, pos, ltb_ℤ, int_eq}
use price_feeder.Oracle.{Oracle}
use price_feeder.Text.{split, parse_uint, format_uint}
use price_feeder.Feeder.Sign.{get_next_nonce_and_update, revert_nonce}
use price_feeder.Feeder.Round.{Round, calculate_round}
use price_feeder.Feeder.Decimal.{convert_decimal}
use price_feeder.Feeder.Price.{PriceInfo, is_zero}
use price_feeder.Feeder.TwoPhases.{TwoPhases, add_mt, set_round_id, get_latest_root_hash}
use price_feeder.Feeder.State.{
  Feeder, Message, plain, phase_one, Response, failed, code, sent, add_token_for_source, Outcome,
  runs, panics,
}
use price_feeder.Feeder.Second.{not_second, second, send_2nd_phase_tx}

-- `triggerHeights`.
pub record TriggerHeights : Type 0 where
  pub commit_height : ℤ
  pub price_height : ℤ

-- The results of `GetLatestPrice`.
pub data Fetched : Type 0 where
  fetched : PriceInfo → Fetched
  token_not_configured : Fetched
  fetch_error : Fetched

-- `strconv.ParseUint(strings.Split(s, "|")[i], 10, 64)`.
pub data Field : Type 0 where
  number : ℕ → Field
  not_a_number : Field
  no_field : Field

unfoldable pub field_at : ℕ → Bytes → Field
unfolding split parse_uint
field_at i s = elim (get_elem? (split b'|' s) i) [
  | none ↦ no_field
  | some part ↦ elim (parse_uint 64 part) [ none ↦ not_a_number | some n ↦ number n ]
]

-- The price that is to be submitted, a `continue`, or a panic.
pub data Prepared (T : Type 0) : Type 0 where
  submits : Feeder T → PriceInfo → Prepared T
  skips : Feeder T → Prepared T
  faults : Prepared T

module _ {T : Type 0} (o : Oracle T) where
  -- `AddRawData`: the root is empty if there is no tree.
  unfoldable pub add_raw_data : ℕ → Bytes → ℕ → TwoPhases T → TwoPhases T × Bytes
  add_raw_data round_id raw piece_size t = elim (o.derive_mt piece_size raw) [
    | none ↦ (t, [])
    | some mt ↦ ((add_mt o round_id mt t).0, o.root_hash mt)
  ]

  -- The comparison with the last root: an unchanged root is not sent again, unless the raw data
  -- has a newer withdraw version.
  compare_root : Bytes → PriceInfo → Feeder T → Prepared T
  compare_root root price f =
      let last = f.last_price.price in
      if ltb 0 (length last.price)
      then elim (field_at 2 price.round_id) [
        | no_field ↦ faults
        | not_a_number ↦ skips f
        | number v ↦ elim (field_at 3 last.round_id) [
          | no_field ↦ faults
          | not_a_number ↦ skips f
          | number latest ↦ if root == last.price && leb v latest then skips f else submits f price
        ]
      ]
      else submits f price

  unfoldable pub prepare_two_phases : ℕ → PriceInfo → TwoPhases T → Feeder T → Prepared T
  unfolding compare_root
  prepare_two_phases round_id price t f =
      let (t', root) = add_raw_data round_id price.price f.two_phases_piece_size t in
      compare_root root price (record f { two_phases_info = some t' })

  -- The price in the decimals of the oracle module.
  unfoldable pub convert_price : PriceInfo → ℤ → Option PriceInfo
  convert_price price decimal =
      if price.decimal == decimal
      then some price
      else elim (convert_decimal price.price price.decimal decimal) [
        | none ↦ none
        | some text ↦ some (record price { price = text; decimal = decimal })
      ]

  unfoldable pub prepare_plain : PriceInfo → Feeder T → Prepared T
  prepare_plain price f = elim (convert_price price f.decimal) [
    | none ↦ faults
    | some p ↦ if f.last_price.price.price == p.price then skips f else submits f p
  ]

  unfoldable pub prepare : ℕ → PriceInfo → Feeder T → Prepared T
  prepare round_id price f = elim f.two_phases_info [
    | none ↦ prepare_plain price f
    | some t ↦ prepare_two_phases round_id price t f
  ]

  -- The message of the first phase; `none` where there is no root to send.
  unfoldable pub first_message : ℕ → PriceInfo → ℤ → Feeder T → Option Message
  first_message base_block price nonce f = elim f.two_phases_info [
    | none ↦ some (plain f.feeder_id base_block price nonce)
    | some t ↦
        let (root, count) = get_latest_root_hash o t in
        if ltb 0 count
        then some (
            phase_one f.feeder_id base_block
              (record price { price = root ++ format_uint count; decimal = f.decimal }) nonce)
        else none
  ]

  -- A send that fails gives its nonce back.
  unfoldable pub finish_send : ℕ → Message → Response → Feeder T → Outcome T
  finish_send round_id message response f =
      let reverted = record f { last_sent = revert_nonce round_id f.last_sent } in
      elim response [
        | failed ↦ runs reverted (sent message ∷ [])
        | code c ↦ runs (if c == 0 then f else reverted) (sent message ∷ [])
      ]

  unfoldable pub submit_price : (Message → Response) → Round → PriceInfo → Feeder T → Outcome T
  submit_price submit r price f =
      let (last_sent, nonce) = get_next_nonce_and_update r.round_id f.last_sent in
      let f' = record f { last_sent = last_sent } in
      if ltb_ℤ nonce (pos 0) then runs f' [] else elim (first_message r.base_block price nonce f') [
        | none ↦ runs f' []
        | some message ↦ finish_send r.round_id message (submit message) f'
      ]

  -- `f.SetRoundID`.
  unfoldable pub set_feeder_round : ℕ → Feeder T → Feeder T
  set_feeder_round round_id f = elim f.two_phases_info [
    | none ↦ f
    | some t ↦ record f { two_phases_info = some (set_round_id o round_id t).0 }
  ]

  unfoldable pub first_phase : (Message → Response) → Fetched → Round → Feeder T → Outcome T
  first_phase submit latest r f = elim latest [
    | fetch_error ↦ runs f []
    | token_not_configured ↦ runs f (add_token_for_source f.source f.token ∷ [])
    | fetched price ↦ if is_zero price then runs f [] else elim (prepare r.round_id price f) [
      | faults ↦ panics
      | skips f' ↦ runs f' []
      | submits f' p ↦ submit_price submit r p f'
    ]
  ]

  unfoldable pub active_round : (Message → Response) → Fetched → Round → Feeder T → Outcome T
  active_round submit latest r f = elim (send_2nd_phase_tx o submit f) [
    | second out ↦ out
    | not_second ↦
        if ltb_ℤ r.delta (pos 3)
        then first_phase submit latest r (set_feeder_round r.round_id f)
        else runs f []
  ]

  unfoldable pub handle_trigger :
      (Message → Response) → Fetched → TriggerHeights → Feeder T → Outcome T
  handle_trigger submit latest h f =
      if ltb_ℤ f.last_price.height h.price_height
      then runs f []
      else elim (calculate_round f.schedule h.commit_height) [
        | none ↦ panics
        | some r ↦
            let f' = record f { round_id = r.round_id; base_block = r.base_block } in
            if r.active then active_round submit latest r f' else runs f' []
      ]
