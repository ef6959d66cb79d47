-- ===== src/Feeder/Pieces/Progress.antt =====
-- internal/feeder/types.go: how the piece index follows the chain, and which pieces are sent.
use price_feeder.Prelude.{
  ℕ, ◌+◌, ◌≤◌, ◌<◌, ◌≡◌, inl, inr, List, [], ◌∷◌, true, false, Bool-cases, if◌then◌else◌, arith,
}
use price_feeder.Oracle.{Oracle}
use price_feeder.Feeder.TwoPhases.{TwoPhases, last_index}
use price_feeder.Feeder.Pieces.{seen, advance_piece_index}

module _ {T : Type 0} (o : Oracle T) (mt : T) where
  -- An index that is accepted was not accepted before; the next index moves forward, but not past
  -- the last piece, and the rest of the state stays.
  pub advance-forward :
      (index : ℕ) (t t' : TwoPhases T)
      → advance_piece_index o index mt t ≡ (t', true)
      → (t.next_piece_index < t'.next_piece_index)
        × (t'.next_piece_index ≤ last_index o mt)
        × (index < t'.next_piece_index)
        × (seen index t.seen_index ≡ false)
        × (t' ≡ record t {
          next_piece_index = t'.next_piece_index;
          seen_index = index ∷ t.seen_index;
        })
  unfolding advance_piece_index
  advance-forward index t t' h = ground arith

  -- The state after updates for the indexes, and how many of them were accepted.
  pub advances : List ℕ → TwoPhases T → TwoPhases T × ℕ
  advances [] t = (t, 0)
  advances (index ∷ indexes) t =
      let (t', done) = advance_piece_index o index mt t in
      let (t'', n) = advances indexes t' in (t'', (if done then 1 else 0) + n)

  advance-refused :
      (index : ℕ) (t t' : TwoPhases T) → advance_piece_index o index mt t ≡ (t', false) → t' ≡ t
  unfolding advance_piece_index
  advance-refused index t t' h = ground arith

  -- Whatever indexes the chain reports, in whatever order and how often: the next index stays at
  -- most the last one, and no more updates are accepted than pieces lie between.
  pub advances-bounded :
      (indexes : List ℕ) (t : TwoPhases T)
      → t.next_piece_index ≤ last_index o mt
      → ((advances indexes t).0.next_piece_index ≤ last_index o mt)
        × (t.next_piece_index + (advances indexes t).1 ≤ (advances indexes t).0.next_piece_index)
  unfolding advances
  advances-bounded [] t le = (le, omega arith)
  advances-bounded (index ∷ indexes) t le =
      let t' = (advance_piece_index o index mt t).0 in
      elim (Bool-cases (advance_piece_index o index mt t).1) [
        | inl done ↦
            let (more, most, _, _, _) = advance-forward index t t' (ground arith) in
            let (low, high) = advances-bounded indexes t' most in (low, ground arith)
        | inr refused ↦
            let same = advance-refused index t t' (ground arith) in
            let (low, high) = advances-bounded indexes t' (rw same le) in (low, ground arith)
      ]
