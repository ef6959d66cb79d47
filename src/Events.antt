-- ===== src/Events.antt =====
-- imuaclient/types.go: the events of the chain, as the feeders receive them.
pub mod Parse
pub mod Changes
pub mod Block
pub mod NewBlock
pub mod Tests
use price_feeder.Prelude.{ℕ, List, Bytes}
use price_feeder.Stakers.{DepositInfo, WithdrawInfo}

pub record EventNstStaker : Type 0 where
  pub withdraws : List WithdrawInfo
  pub deposits : List (ℕ × DepositInfo)
  pub next_version : ℕ
  pub latest_version : ℕ

pub record EventNstBalance : Type 0 where
  pub root_hash : Bytes
  pub version : ℕ
  pub withdraw_version : ℕ
