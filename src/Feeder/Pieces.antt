-- ===== src/Feeder/Pieces.antt =====
-- internal/feeder/types.go: which pieces of the finalized raw data may be sent
-- (`NextSendablePieceWithProofs`), and how the chain's progress is followed
-- (`updateNSTPieceIndex`, `UpdateSentLatestPieceIndex`).
pub mod Progress
pub mod Due
pub mod Reachable
pub mod Steps
use price_feeder.Prelude.{
  ℕ, ◌+◌, ◌%◌, ◌^◌, List, [], ◌∷◌, ◌++◌, Option, none, some, Bool, true, false, ltb, leb,
  if◌then◌else◌, ◌==◌, nat_eq,
}
use price_feeder.Prelude.Int.{ℤ, pos, negsuc, ltb_ℤ}
use price_feeder.Oracle.{Oracle}
use price_feeder.Feeder.TwoPhases.{
  TwoPhases, PieceWithProof, last_index, next_index_is_last_or_more, get_raw_data_piece_and_proof,
}

-- The results of `NextSendablePieceWithProofs`: pieces, `ErrNoAvailableNextIndex`, another error.
pub data Sendable : Type 0 where
  pieces : List PieceWithProof → Sendable
  no_next_index : Sendable
  not_sendable : Sendable

abbrev pub seen : ℕ → List ℕ → Bool
seen i [] = false
seen i (j ∷ js) = if j == i then true else seen i js

module _ {T : Type 0} (o : Oracle T) where
  -- The piece after the next one, if there is one; its error is ignored.
  unfoldable pub second_piece : ℕ → T → TwoPhases T → List PieceWithProof → Sendable
  second_piece round_id mt t ret =
      elim (get_raw_data_piece_and_proof o round_id ((t.next_piece_index + 1) % 2 ^ 32) mt t) [
        | none ↦ pieces ret
        | some pwf ↦ pieces (ret ++ (pwf ∷ []))
      ]

  -- The choice for a round with the finalized tree `mt`.
  unfoldable pub choose_pieces : ℕ → T → TwoPhases T → Sendable
  unfolding second_piece
  choose_pieces round_id mt t =
      let next = pos t.next_piece_index in
      let last = (next_index_is_last_or_more o t).0 in
      if ltb_ℤ next t.sent_latest_piece_index
      then no_next_index
      else if ltb_ℤ t.sent_latest_piece_index next
      then elim (get_raw_data_piece_and_proof o round_id t.next_piece_index mt t) [
        | none ↦ not_sendable
        | some pwf ↦ if last then pieces (pwf ∷ []) else second_piece round_id mt t (pwf ∷ [])
      ]
      else if last
      then no_next_index
      else second_piece round_id mt t []

  unfoldable pub next_sendable_piece_with_proofs : ℕ → Option (TwoPhases T) → Sendable
  next_sendable_piece_with_proofs round_id none = not_sendable
  next_sendable_piece_with_proofs round_id (some t) =
      if t.round_id == round_id
      then elim t.finalized_tree [ none ↦ not_sendable | some mt ↦ choose_pieces round_id mt t ]
      else not_sendable

  -- The second result is false for an error, which changes nothing.
  unfoldable pub advance_piece_index : ℕ → T → TwoPhases T → TwoPhases T × Bool
  advance_piece_index index mt t =
      if leb (last_index o mt) t.next_piece_index
      then (t, false)
      else if seen index t.seen_index
      then (t, false)
      else if leb index t.next_piece_index
      then (
        record t {
          next_piece_index = (t.next_piece_index + 1) % 2 ^ 32;
          seen_index = index ∷ t.seen_index;
        },
        true,
      )
      else if ltb index (last_index o mt)
      then (
        record t { next_piece_index = (index + 1) % 2 ^ 32; seen_index = index ∷ t.seen_index },
        true,
      )
      else (t, false)

  unfoldable pub update_nst_piece_index : ℕ → Option (TwoPhases T) → Option (TwoPhases T) × Bool
  update_nst_piece_index index none = (none, false)
  update_nst_piece_index index (some t) = elim t.finalized_tree [
    | none ↦ (some t, false)
    | some mt ↦ let (t', done) = advance_piece_index index mt t in (some t', done)
  ]

-- The old index is returned, or -1 for another round.
unfoldable pub update_sent_latest_piece_index : {T : Type 0} → ℕ → ℤ → TwoPhases T → TwoPhases T × ℤ
update_sent_latest_piece_index round_id index t =
    if t.round_id == round_id
    then (record t { sent_latest_piece_index = index }, t.sent_latest_piece_index)
    else (t, negsuc 0)
