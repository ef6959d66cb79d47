-- ===== src/Oracle.antt =====
-- What the feeder uses of code outside the repository, as a parameter of the model: the Merkle
-- trees and messages of the oracle module (`oracletypes`), the decoder of its balance changes, and
-- Go's base64 decoder.
use price_feeder.Prelude.{ℕ, Option, Bytes}
use price_feeder.Stakers.Apply.{RawData}

pub record Oracle (T : Type 0) : Type 0 where
  pub root_hash : T → Bytes
  pub leaf_count : T → ℕ
  pub complete_raw_data : T → Option Bytes
  pub piece_by_index : T → ℕ → Option Bytes
  -- The strings of `MinimalProofByIndex(i).FlattenString()`: indexes and hashes.
  pub proof_by_index : T → ℕ → Bytes × Bytes
  -- `DeriveMT(pieceSize, rawData)`.
  pub derive_mt : ℕ → Bytes → Option T
  -- `proto.Unmarshal` into `RawDataNST`.
  pub unmarshal : Bytes → Option RawData
  -- `base64.StdEncoding.DecodeString`.
  pub decode_base64 : Bytes → Option Bytes
