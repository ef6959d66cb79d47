-- ===== src/Feeder/Pieces/Due.antt =====
-- internal/feeder/types.go: which pieces `NextSendablePieceWithProofs` gives.
use price_feeder.Prelude.{
  ℕ, ◌+◌, ◌%◌, ◌^◌, ◌≤◌, ◌<◌, ◌≡◌, subst, inl, inr, List, [], ◌∷◌, ◌++◌, some, Bool-cases,
  Option-cases, leb, All, All-append, arith,
}
use price_feeder.Prelude.Int.{ℤ, pos, ◌<ℤ◌, ltb_ℤ}
use price_feeder.Oracle.{Oracle}
use price_feeder.Feeder.TwoPhases.{
  TwoPhases, PieceWithProof, last_index, next_index_is_last_or_more, get_raw_data_piece_and_proof,
}
use price_feeder.Feeder.Pieces.{pieces, second_piece, choose_pieces}

-- The piece stands in the tree under its index, and comes after the recorded latest piece. It is
-- the next piece for the chain, or the one after that.
pub record IsDue {T : Type 0} (o : Oracle T) (mt : T) (t : TwoPhases T) (p : PieceWithProof)
    : Type 0 where
  pub in_tree : o.piece_by_index mt p.piece_index ≡ some p.piece
  pub proved : (p.indexes_str, p.hashes_str) ≡ o.proof_by_index mt p.piece_index
  pub after_sent : t.sent_latest_piece_index <ℤ pos p.piece_index
  pub in_range : p.piece_index ≤ last_index o mt
  pub due : t.next_piece_index ≤ p.piece_index
  pub soon : p.piece_index ≤ t.next_piece_index + 1

module _ {T : Type 0} (o : Oracle T) (mt : T) (round_id : ℕ) where
  get_piece-inv :
      (i : ℕ) (t : TwoPhases T) (p : PieceWithProof)
      → get_raw_data_piece_and_proof o round_id i mt t ≡ some p
      → (p.piece_index ≡ i)
        × (o.piece_by_index mt i ≡ some p.piece)
        × ((p.indexes_str, p.hashes_str) ≡ o.proof_by_index mt i)
  unfolding get_raw_data_piece_and_proof
  get_piece-inv i t p h = ground arith

  get_piece-IsDue :
      (i : ℕ) (t : TwoPhases T) (p : PieceWithProof)
      → get_raw_data_piece_and_proof o round_id i mt t ≡ some p
      → t.sent_latest_piece_index <ℤ pos i
      → i ≤ last_index o mt
      → t.next_piece_index ≤ i
      → i ≤ t.next_piece_index + 1
      → IsDue o mt t p
  get_piece-IsDue i t p h sent most low high =
      let (same, piece, proof) = get_piece-inv i t p h in
      record {
        in_tree = rw same piece;
        proved = rw same proof;
        after_sent = rw same sent;
        in_range = rw same most;
        due = rw same low;
        soon = rw same high;
      }

  second_piece-IsDue :
      (t : TwoPhases T) (ret ps : List PieceWithProof)
      → t.next_piece_index < last_index o mt
      → t.sent_latest_piece_index <ℤ pos (t.next_piece_index + 1)
      → All (IsDue o mt t) ret
      → second_piece o round_id mt t ret ≡ pieces ps
      → All (IsDue o mt t) ps
  unfolding second_piece
  second_piece-IsDue t ret ps more sent dues h =
      elim (Option-cases (get_raw_data_piece_and_proof o round_id (t.next_piece_index + 1) mt t)) [
        | inl absent ↦ subst (All (IsDue o mt t)) (ground (arith, h, absent, no_wrap)) dues
        | inr (p, found) ↦ subst (All (IsDue o mt t)) (ground (arith, h, found, no_wrap)) (
            All-append (IsDue o mt t) ret (p ∷ []) dues (
              get_piece-IsDue (t.next_piece_index + 1) t p found sent (omega (arith, more))
                  (omega arith) (omega arith),
              tt,
            ))
      ]
    where
      no_wrap : (t.next_piece_index + 1) % 2 ^ 32 ≡ t.next_piece_index + 1
      no_wrap = omega (arith, more)

  -- Every piece that may be sent stands in the tree under its index with its proof, comes after the
  -- recorded latest piece, and is the next one for the chain or the one after it.
  pub choose_pieces-IsDue :
      (t : TwoPhases T) (ps : List PieceWithProof)
      → t.finalized_tree ≡ some mt
      → t.next_piece_index ≤ last_index o mt
      → choose_pieces o round_id mt t ≡ pieces ps
      → All (IsDue o mt t) ps
  unfolding choose_pieces next_index_is_last_or_more
  choose_pieces-IsDue t ps tree le h =
      elim (Bool-cases (ltb_ℤ t.sent_latest_piece_index (pos t.next_piece_index))) [
        | inr sent ↦ elim (Bool-cases (leb (last_index o mt) t.next_piece_index)) [
          | inl last ↦ absurd (ground arith)
          | inr more ↦ second_piece-IsDue t [] ps (ground arith) (ground arith) tt (ground arith)
        ]
        | inl unsent ↦
            elim (Option-cases (get_raw_data_piece_and_proof o round_id t.next_piece_index mt t)) [
              | inl absent ↦ absurd (ground arith)
              | inr (p, found) ↦
                  let due : IsDue o mt t p =
                    get_piece-IsDue t.next_piece_index t p found (ground arith) le (omega arith)
                      (omega arith) in
                  elim (Bool-cases (leb (last_index o mt) t.next_piece_index)) [
                    | inl last ↦
                        let only : p ∷ [] ≡ ps = ground arith in
                        subst (All (IsDue o mt t)) only (due, tt)
                    | inr more ↦
                        second_piece-IsDue t (p ∷ []) ps (ground arith) (ground arith) (due, tt)
                          (ground arith)
                  ]
            ]
      ]

-- The indexes of pieces go up from a bound.
abbrev pub Ascends : ℤ → List PieceWithProof → Type 0
Ascends bound [] = Unit
Ascends bound (p ∷ ps) = (bound <ℤ pos p.piece_index) × Ascends (pos p.piece_index) ps

module _ {T : Type 0} (o : Oracle T) (mt : T) (round_id : ℕ) where
  second_piece-Ascends :
      (t : TwoPhases T) (first ps : List PieceWithProof)
      → t.next_piece_index < last_index o mt
      → ((p : PieceWithProof)
          → p.piece_index ≡ t.next_piece_index + 1
          → Ascends t.sent_latest_piece_index (first ++ (p ∷ [])))
      → Ascends t.sent_latest_piece_index first
      → second_piece o round_id mt t first ≡ pieces ps
      → Ascends t.sent_latest_piece_index ps
  unfolding second_piece
  second_piece-Ascends t first ps more both one h =
      elim (Option-cases (get_raw_data_piece_and_proof o round_id (t.next_piece_index + 1) mt t)) [
        | inl absent ↦
            subst (Ascends t.sent_latest_piece_index) (ground (arith, h, absent, no_wrap)) one
        | inr (p, found) ↦
            let (same, _, _) = get_piece-inv o mt round_id (t.next_piece_index + 1) t p found in
            subst (Ascends t.sent_latest_piece_index) (ground (arith, h, found, no_wrap))
              (both p same)
      ]
    where
      no_wrap : (t.next_piece_index + 1) % 2 ^ 32 ≡ t.next_piece_index + 1
      no_wrap = omega (arith, more)

  -- The pieces that may be sent go up from the latest one that was sent.
  pub choose_pieces-Ascends :
      (t : TwoPhases T) (ps : List PieceWithProof)
      → t.finalized_tree ≡ some mt
      → t.next_piece_index ≤ last_index o mt
      → choose_pieces o round_id mt t ≡ pieces ps
      → Ascends t.sent_latest_piece_index ps
  unfolding choose_pieces next_index_is_last_or_more
  choose_pieces-Ascends t ps tree le h =
      elim (Bool-cases (ltb_ℤ t.sent_latest_piece_index (pos t.next_piece_index))) [
        | inr sent ↦ elim (Bool-cases (leb (last_index o mt) t.next_piece_index)) [
          | inl last ↦ absurd (ground arith)
          | inr more ↦
              second_piece-Ascends t [] ps (ground arith) (λ p at. (ground (arith, at), tt)) tt
                (ground arith)
        ]
        | inl unsent ↦
            elim (Option-cases (get_raw_data_piece_and_proof o round_id t.next_piece_index mt t)) [
              | inl absent ↦ absurd (ground arith)
              | inr (p, found) ↦
                  let (same, _, _) = get_piece-inv o mt round_id t.next_piece_index t p found in
                  let first : t.sent_latest_piece_index <ℤ pos p.piece_index =
                    rw same (ground arith) in
                  elim (Bool-cases (leb (last_index o mt) t.next_piece_index)) [
                    | inl last ↦
                        let only : p ∷ [] ≡ ps = ground arith in
                        subst (Ascends t.sent_latest_piece_index) only (first, tt)
                    | inr more ↦
                        second_piece-Ascends t (p ∷ []) ps (ground arith)
                          (λ p2 at. (first, (ground (arith, at, same), tt))) (first, tt)
                          (ground arith)
                  ]
            ]
      ]
