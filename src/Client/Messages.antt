-- ===== src/Client/Messages.antt =====
-- imuaclient/tx.go: the messages that are signed and sent. Signing, encoding and the clients of the
-- node are parameters.
use price_feeder.Prelude.{
  ℕ, List, [], ◌∷◌, Option, none, some, Bool, ltb, ◌||◌, if◌then◌else◌, length, map, Bytes, nat_eq,
}
use price_feeder.Prelude.Int.{ℤ, pos}
use price_feeder.Feeder.Price.{PriceInfo}
use price_feeder.Feeder.State.{Message, plain, phase_one, phase_two, Response, failed}

-- `PriceTimeDetID` with the time of the clock, and the message of one source, Chainlink.
pub record PriceTimeDetId : Type 0 where
  pub price : Bytes
  pub decimal : ℤ
  pub timestamp : Bytes
  pub det_id : Bytes

pub data Kind : Type 0 where
  one_phase first_phase second_phase : Kind

pub record MsgCreatePrice : Type 0 where
  pub kind : Kind
  pub creator : Bytes
  pub feeder_id : ℕ
  pub source_id : ℕ
  pub prices : List PriceTimeDetId
  pub base_block : ℕ
  pub nonce : ℤ

-- `AggregationPhase`, of the oracle module.
pub data Phase : Type 0 where
  phase_one_agg phase_two_agg other_phase : Phase

pub record Signer : Type 0 where
  pub address : Bytes
  pub now : Bytes
  -- `getSignedTxBytesFromMsg`; `none` is an error.
  pub sign : MsgCreatePrice → Option Bytes
  -- `GetTxClient` and `BroadcastTx`; the code of the response.
  pub connected : Bool
  pub broadcast : Bytes → Response

abbrev chainlink_id : ℕ
chainlink_id = 1

module _ (s : Signer) where
  unfoldable pub with_decimal : PriceInfo → PriceTimeDetId
  with_decimal p = record {
    price = p.price;
    decimal = p.decimal;
    timestamp = s.now;
    det_id = p.round_id;
  }

  unfoldable pub without_decimal : PriceInfo → PriceTimeDetId
  without_decimal p = record {
    price = p.price;
    decimal = pos 0;
    timestamp = s.now;
    det_id = p.round_id;
  }

  abbrev pub message : Kind → ℕ → ℕ → List PriceTimeDetId → ℤ → MsgCreatePrice
  message kind feeder_id base_block prices nonce = record {
    kind = kind;
    creator = s.address;
    feeder_id = feeder_id;
    source_id = chainlink_id;
    prices = prices;
    base_block = base_block;
    nonce = nonce;
  }

  -- `getSignedTxBytes`: the message.
  unfoldable pub create_price : ℕ → ℕ → PriceInfo → ℤ → MsgCreatePrice
  unfolding with_decimal
  create_price feeder_id base_block price nonce =
      message one_phase feeder_id base_block (with_decimal price ∷ []) nonce

  -- `getSignedTxBytes2Phases`: the message, or `none` for a wrong phase or number of prices.
  unfoldable pub create_price_2_phases : ℕ → ℕ → List PriceInfo → Phase → ℤ → Option MsgCreatePrice
  unfolding with_decimal without_decimal
  create_price_2_phases feeder_id base_block (price ∷ []) phase_one_agg nonce =
      some (message first_phase feeder_id base_block (with_decimal price ∷ []) nonce)
  create_price_2_phases feeder_id base_block prices phase_one_agg nonce = none
  create_price_2_phases feeder_id base_block prices phase_two_agg nonce =
      if ltb (length prices) 1 || ltb 2 (length prices)
      then none
      else some (message second_phase feeder_id base_block (map without_decimal prices) nonce)
  create_price_2_phases feeder_id base_block prices other_phase nonce = none

  -- Signing and sending.
  unfoldable pub send_msg : MsgCreatePrice → Response
  send_msg msg = elim (s.sign msg) [
    | none ↦ failed
    | some bytes ↦ if s.connected then s.broadcast bytes else failed
  ]

  unfoldable pub send_tx : ℕ → ℕ → PriceInfo → ℤ → Response
  unfolding create_price send_msg
  send_tx feeder_id base_block price nonce =
      send_msg (create_price feeder_id base_block price nonce)

  unfoldable pub send_tx_2_phases : ℕ → ℕ → List PriceInfo → Phase → ℤ → Response
  unfolding create_price_2_phases send_msg
  send_tx_2_phases feeder_id base_block prices phase nonce =
      elim (create_price_2_phases feeder_id base_block prices phase nonce) [
        | none ↦ failed
        | some msg ↦ send_msg msg
      ]

  -- The client as the submitter of a feeder.
  unfoldable pub submit : Message → Response
  unfolding send_tx send_tx_2_phases
  submit (plain feeder_id base_block price nonce) = send_tx feeder_id base_block price nonce
  submit (phase_one feeder_id base_block price nonce) =
      send_tx_2_phases feeder_id base_block (price ∷ []) phase_one_agg nonce
  submit (phase_two feeder_id base_block prices nonce) =
      send_tx_2_phases feeder_id base_block prices phase_two_agg nonce
