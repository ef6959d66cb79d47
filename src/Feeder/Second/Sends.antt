-- ===== src/Feeder/Second/Sends.antt =====
-- internal/feeder/types.go: what `send2ndPhaseTx` has sent, and what it remembers of it.
use price_feeder.Prelude.{
  ℕ, ◌≡◌, ◌≢◌, ◌⊎◌, refl, ap, ◌∙◌, inl, inr, List, [], ◌∷◌, some, Bool, true, false, Bool-cases,
  map, if◌then◌else◌, ◌==◌, nat_eq, nat_beq_iff, arith,
}
use price_feeder.Prelude.Int.{ℤ, pos}
use price_feeder.Feeder.TwoPhases.{TwoPhases, PieceWithProof}
use price_feeder.Feeder.Pieces.{update_sent_latest_piece_index}
use price_feeder.Feeder.State.{Feeder, Message, Response, failed, code, sent, runs, after}
use price_feeder.Feeder.Second.{mark_sent, piece_message, send_pieces}

abbrev pub is_ok : Response → Bool
is_ok failed = false
is_ok (code c) = c == 0

Response-cases : (r : Response) → (r ≡ failed) ⊎ ((c : ℕ) × (r ≡ code c))
Response-cases failed = inl refl
Response-cases (code c) = inr (c, refl)

module _ {T : Type 0} (submit : Message → Response) (p : PieceWithProof)
    (ps : List PieceWithProof) where
  send_accepted :
      (g g' : Feeder T) (old : ℤ) (c : ℕ)
      → submit (piece_message p g) ≡ code c
      → (c == 0) ≡ true
      → mark_sent (pos p.piece_index) g ≡ (g', old)
      → send_pieces submit (p ∷ ps) g
        ≡ after (sent (piece_message p g) ∷ []) (send_pieces submit ps g')
  unfolding send_pieces
  send_accepted g g' old c came ok marked = ground (arith, came, ok, marked)

  send_rejected :
      (g g' : Feeder T) (old : ℤ) (c : ℕ)
      → submit (piece_message p g) ≡ code c
      → (c == 0) ≡ false
      → mark_sent (pos p.piece_index) g ≡ (g', old)
      → send_pieces submit (p ∷ ps) g ≡ runs (mark_sent old g').0 (sent (piece_message p g) ∷ [])
  unfolding send_pieces
  send_rejected g g' old c came rejected marked = ground (arith, came, rejected, marked)

module _ {T : Type 0} (submit : Message → Response) (f : Feeder T) (t : TwoPhases T) where
  -- The pieces up to the first one that is rejected, that one included.
  abbrev pub tried : List PieceWithProof → List PieceWithProof
  tried [] = []
  tried (p ∷ ps) = p ∷ (if is_ok (submit (piece_message p f)) then tried ps else [])

  -- The index of the last piece before the first one that is rejected, or the old index.
  abbrev pub latest_accepted : List PieceWithProof → ℤ → ℤ
  latest_accepted [] old = old
  latest_accepted (p ∷ ps) old =
      if is_ok (submit (piece_message p f)) then latest_accepted ps (pos p.piece_index) else old

  abbrev pub with_latest : ℤ → Feeder T
  with_latest index = record f {
    two_phases_info = some (record t { sent_latest_piece_index = index });
  }

  mark_sent_lem :
      (old index : ℤ)
      → t.round_id ≡ f.round_id
      → mark_sent index (with_latest old) ≡ (with_latest index, old)
  unfolding mark_sent update_sent_latest_piece_index
  mark_sent_lem old index same = ground (arith, same, nat_beq_iff t.round_id f.round_id)

  -- Where the submitter always returns a response: the pieces are sent in order up to the first
  -- one that is rejected, and the index that is kept is that of the last accepted piece.
  pub send_pieces_lem :
      (ps : List PieceWithProof) (old : ℤ)
      → ((m : Message) → submit m ≢ failed)
      → t.round_id ≡ f.round_id
      → send_pieces submit ps (with_latest old)
        ≡ runs
            (with_latest (latest_accepted ps old))
            (map (λ p. sent (piece_message p f)) (tried ps))
  unfolding send_pieces
  send_pieces_lem [] old responds same = refl
  send_pieces_lem (p ∷ ps) old responds same = elim (Response-cases (submit (piece_message p f))) [
    | inl none_came ↦ absurd (responds (piece_message p f) none_came)
    | inr (c, came) ↦
        let marked = mark_sent_lem old (pos p.piece_index) same in
        elim (Bool-cases (c == 0)) [
          | inl ok ↦
              send_accepted submit p ps (with_latest old) (with_latest (pos p.piece_index)) old c
                came ok marked
              ∙ ap (after (sent (piece_message p f) ∷ []))
                  (send_pieces_lem ps (pos p.piece_index) responds same)
              ∙ rw (came, ok) refl
          | inr rejected ↦
              send_rejected submit p ps (with_latest old) (with_latest (pos p.piece_index)) old c
                came rejected marked
              ∙ rw (came, rejected, mark_sent_lem (pos p.piece_index) old same) refl
        ]
  ]
