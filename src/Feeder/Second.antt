-- ===== src/Feeder/Second.antt =====
-- internal/feeder/types.go: `send2ndPhaseTx`, which submits the pieces of the finalized raw data.
pub mod Sends
use price_feeder.Prelude.{
  List, [], ◌∷◌, none, some, true, false, ◌&&◌, ltb, if◌then◌else◌, length, ◌==◌, nat_eq,
}
use price_feeder.Prelude.Int.{ℤ, pos, negsuc}
use price_feeder.Oracle.{Oracle}
use price_feeder.Text.{format_uint}
use price_feeder.Feeder.Price.{PriceInfo}
use price_feeder.Feeder.TwoPhases.{PieceWithProof}
use price_feeder.Feeder.Pieces.{
  pieces, no_next_index, not_sendable, next_sendable_piece_with_proofs,
  update_sent_latest_piece_index,
}
use price_feeder.Feeder.State.{
  Feeder, Message, phase_two, Response, failed, code, sent, Outcome, runs, panics, after,
}

-- The price infos of a piece: the piece under its index, and its proof if that is not empty.
unfoldable pub piece_infos : PieceWithProof → List PriceInfo
piece_infos pwf =
    record {
      price = pwf.piece;
      decimal = pos 0;
      timestamp = [];
      round_id = format_uint pwf.piece_index;
    }
    ∷ (if ltb 0 (length pwf.indexes_str) && ltb 0 (length pwf.hashes_str)
        then record {
          price = pwf.hashes_str;
          decimal = pos 0;
          timestamp = [];
          round_id = pwf.indexes_str;
        }
          ∷ []
        else [])

-- The results of `send2ndPhaseTx`: the second one is `false`, or `true` after the sends.
pub data SecondPhase (T : Type 0) : Type 0 where
  not_second : SecondPhase T
  second : Outcome T → SecondPhase T

module _ {T : Type 0} where
  -- `UpdateSentLatestPieceIndex` on the feeder, which has a `twoPhasesInfo` here.
  unfoldable pub mark_sent : ℤ → Feeder T → Feeder T × ℤ
  unfolding update_sent_latest_piece_index
  mark_sent index f = elim f.two_phases_info [
    | none ↦ (f, negsuc 0)
    | some t ↦
        let (t', old) = update_sent_latest_piece_index f.round_id index t in
        (record f { two_phases_info = some t' }, old)
  ]

  abbrev pub piece_message : PieceWithProof → Feeder T → Message
  piece_message pwf f = phase_two f.feeder_id f.base_block (piece_infos pwf) (pos 1)

  -- The log line after an error of the submitter reads a field of the nil response.
  unfoldable pub send_pieces : (Message → Response) → List PieceWithProof → Feeder T → Outcome T
  send_pieces submit [] f = runs f []
  send_pieces submit (pwf ∷ pwfs) f =
      let (marked, old) = mark_sent (pos pwf.piece_index) f in
      let message = piece_message pwf f in
      elim (submit message) [
        | failed ↦ panics
        | code c ↦ elim (c == 0) [
          | true ↦ after (sent message ∷ []) (send_pieces submit pwfs marked)
          | false ↦ runs (mark_sent old marked).0 (sent message ∷ [])
        ]
      ]

  unfoldable pub send_2nd_phase_tx : Oracle T → (Message → Response) → Feeder T → SecondPhase T
  send_2nd_phase_tx o submit f =
      elim (next_sendable_piece_with_proofs o f.round_id f.two_phases_info) [
        | pieces pwfs ↦ second (send_pieces submit pwfs f)
        | no_next_index ↦ second (runs f [])
        | not_sendable ↦ not_second
      ]

  -- Where the caller goes on in the same way after either result.
  unfoldable pub then_second_phase : Oracle T → (Message → Response) → Feeder T → Outcome T
  then_second_phase o submit f = elim (send_2nd_phase_tx o submit f) [
    | not_second ↦ runs f []
    | second out ↦ out
  ]
