-- ===== src/Feeder/State.antt =====
-- internal/feeder/types.go: the state of one feeder, and what it does to the world. A step of the
-- feeder's routine returns the state, and the effects in order, or panics.
use price_feeder.Prelude.{ℕ, List, ◌++◌, Option, Bytes}
use price_feeder.Prelude.Int.{ℤ}
use price_feeder.Stakers.{Error, StakerInfos, Stakers}
use price_feeder.Feeder.Sign.{SignInfo}
use price_feeder.Feeder.Round.{Schedule}
use price_feeder.Feeder.Price.{PriceInfo, LocalPrice}
use price_feeder.Feeder.TwoPhases.{TwoPhases}

pub record Feeder (T : Type 0) : Type 0 where
  pub source : Bytes
  pub token : Bytes
  pub decimal : ℤ  -- int32
  pub token_id : ℕ
  pub feeder_id : ℕ
  pub schedule : Schedule
  pub round_id : ℕ  -- uint64
  pub base_block : ℕ  -- uint64
  pub last_price : LocalPrice
  pub last_sent : SignInfo
  pub two_phases_info : Option (TwoPhases T)
  pub two_phases_piece_size : ℕ
  pub stakers : Stakers

-- What `SendTx` and `SendTx2Phases` are called with.
pub data Message : Type 0 where
  plain : (feeder_id base_block : ℕ) → PriceInfo → ℤ → Message
  phase_one : (feeder_id base_block : ℕ) → PriceInfo → ℤ → Message
  phase_two : (feeder_id base_block : ℕ) → List PriceInfo → ℤ → Message

-- What they return: an error and a nil response, or the code of the response.
pub data Response : Type 0 where
  failed : Response
  code : ℕ → Response

-- The errors of the feeder's own requests.
pub data Failure : Type 0 where
  stakers_error : Error → Failure
  no_two_phases no_raw_data bad_raw_data bad_piece_index : Failure

pub data Effect : Type 0 where
  sent : Message → Effect
  set_nst_stakers : (source : Bytes) → StakerInfos → (version withdraw_version : ℕ) → Effect
  add_token_for_source : (source token : Bytes) → Effect
  -- A value on the request's result channel; `none` is a nil error.
  reply : Option Failure → Effect

pub data Outcome (T : Type 0) : Type 0 where
  runs : Feeder T → List Effect → Outcome T
  panics : Outcome T

-- What one part of a step did before the rest of it.
abbrev pub after : {T : Type 0} → List Effect → Outcome T → Outcome T
after done (runs f effects) = runs f (done ++ effects)
after done panics = panics
