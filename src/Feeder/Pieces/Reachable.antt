-- ===== src/Feeder/Pieces/Reachable.antt =====
-- internal/feeder/types.go: an invariant of `twoPhasesInfo` over any sequence of its operations.
use price_feeder.Prelude.{
  ℕ, ◌≤◌, ◌<◌, ◌≡◌, ◌≢◌, ◌⊎◌, refl, inl, inr, List, [], ◌∷◌, Option, none, some, Option-cases,
  Bool-cases, All, ltb, nat_eq, nat_beq_iff, Bytes, arith,
}
use price_feeder.Prelude.Int.{ℤ, pos, ◌<ℤ◌}
use price_feeder.Oracle.{Oracle}
use price_feeder.Feeder.TwoPhases.{
  TwoPhases, PieceWithProof, last_index, new_two_phases_info, add_mt, finalize_raw_data,
  reset_finalize, set_round_id,
}
use price_feeder.Feeder.Pieces.{
  pieces, choose_pieces, next_sendable_piece_with_proofs, advance_piece_index,
}
use price_feeder.Feeder.Pieces.Due.{IsDue, choose_pieces-IsDue, choose_pieces-Ascends}
use price_feeder.Feeder.State.{Feeder, Message, Response, failed, Effect, runs}
use price_feeder.Feeder.Second.{send_pieces}
use price_feeder.Feeder.Pieces.Steps.{
  kept, accepted, Reached, starts, adds, finalizes, sets_round, sends, reports, Below,
  accepted-Below, sends-latest,
}

module _ {T : Type 0} (o : Oracle T) where
  -- The next piece is not past the end of the finalized tree.
  abbrev IsTracked : TwoPhases T → Type 0
  IsTracked t = (mt : T) → t.finalized_tree ≡ some mt → t.next_piece_index ≤ last_index o mt

  add_mt-IsTracked :
      (round_id : ℕ) (mt : T) (t : TwoPhases T) → IsTracked t → IsTracked (add_mt o round_id mt t).0
  unfolding add_mt
  add_mt-IsTracked round_id mt t tracked = λ f is_tree. ground (arith, is_tree, tracked f)

  finalize-IsTracked :
      (round_id : ℕ) (root : Bytes) (t : TwoPhases T)
      → IsTracked t
      → IsTracked (finalize_raw_data o round_id root t).0
  unfolding finalize_raw_data reset_finalize
  finalize-IsTracked round_id root t tracked = λ f is_tree. ground (arith, is_tree, tracked f)

  set_round-IsTracked :
      (round_id : ℕ) (t : TwoPhases T) → IsTracked t → IsTracked (set_round_id o round_id t).0
  unfolding set_round_id reset_finalize
  set_round-IsTracked round_id t tracked = λ f is_tree. ground (arith, is_tree, tracked f)

  -- The invariant of a state and the accepted pieces.
  record Inv (t : TwoPhases T) (log : List ℕ) : Type 0 where
    tracked : IsTracked t
    below : Below t.sent_latest_piece_index log
    none_before : t.finalized_tree ≡ none → log ≡ []

  advance-IsTracked :
      (index : ℕ) (mt : T) (t : TwoPhases T)
      → t.finalized_tree ≡ some mt
      → IsTracked t
      → IsTracked (advance_piece_index o index mt t).0
  unfolding advance_piece_index
  advance-IsTracked index mt t here tracked = λ f is_tree. ground (arith, is_tree, here, tracked f)

  next_sendable-inv :
      (round_id : ℕ) (t : TwoPhases T) (ps : List PieceWithProof)
      → next_sendable_piece_with_proofs o round_id (some t) ≡ pieces ps
      → (mt : T) × (t.round_id ≡ round_id)
        × (t.finalized_tree ≡ some mt)
        × (choose_pieces o round_id mt t ≡ pieces ps)
  unfolding next_sendable_piece_with_proofs
  next_sendable-inv round_id t ps h = elim (Option-cases t.finalized_tree) [
    | inl absent ↦ absurd (ground arith)
    | inr (mt, here) ↦
        (mt, ground (arith, nat_beq_iff t.round_id round_id), here, ground (arith, here))
  ]

  kept-none : (tree : Option T) (log : List ℕ) → tree ≡ none → kept tree log ≡ []
  kept-none none log e = refl
  kept-none (some mt) log e = absurd (ground arith)

  kept-nothing : (tree : Option T) → kept tree [] ≡ []
  kept-nothing none = refl
  kept-nothing (some mt) = refl

  kept-All : (tree : Option T) (old : ℤ) (log : List ℕ) → Below old log → Below old (kept tree log)
  kept-All none old log below = tt
  kept-All (some mt) old log below = below

  kept-Below :
      (t' : TwoPhases T) (log : List ℕ) (old : ℤ)
      → Below old log
      → (t'.finalized_tree ≡ none) ⊎ (log ≡ []) ⊎ (t'.sent_latest_piece_index ≡ old)
      → Below t'.sent_latest_piece_index (kept t'.finalized_tree log)
  kept-Below t' log old below cases = elim cases [
    | inl no_tree ↦ rw (kept-none t'.finalized_tree log no_tree) tt
    | inr rest ↦ elim rest [
      | inl nothing ↦ rw (nothing, kept-nothing t'.finalized_tree) tt
      | inr same ↦ rw same (kept-All t'.finalized_tree old log below)
    ]
  ]

  add_mt-kept :
      (round_id : ℕ) (mt : T) (t : TwoPhases T) (log : List ℕ)
      → Inv t log
      → Inv (add_mt o round_id mt t).0 (kept (add_mt o round_id mt t).0.finalized_tree log)
  unfolding add_mt
  add_mt-kept round_id mt t log inv = record {
    tracked = add_mt-IsTracked round_id mt t inv.tracked;
    below =
        kept-Below (add_mt o round_id mt t).0 log t.sent_latest_piece_index inv.below
          (inr (inr (ground arith)));
    none_before = kept-none (add_mt o round_id mt t).0.finalized_tree log;
  }

  finalize-kept :
      (round_id : ℕ) (root : Bytes) (t : TwoPhases T) (log : List ℕ)
      → Inv t log
      → Inv
          (finalize_raw_data o round_id root t).0
          (kept (finalize_raw_data o round_id root t).0.finalized_tree log)
  unfolding finalize_raw_data
  finalize-kept round_id root t log inv = record {
    tracked = finalize-IsTracked round_id root t inv.tracked;
    below =
        kept-Below (finalize_raw_data o round_id root t).0 log t.sent_latest_piece_index inv.below
          (elim (Option-cases t.finalized_tree) [
            | inl absent ↦ inr (inl (inv.none_before absent))
            | inr (mt, here) ↦ inr (inr (ground (arith, here)))
          ]);
    none_before = kept-none (finalize_raw_data o round_id root t).0.finalized_tree log;
  }

  set_round-kept :
      (round_id : ℕ) (t : TwoPhases T) (log : List ℕ)
      → Inv t log
      → Inv (set_round_id o round_id t).0 (kept (set_round_id o round_id t).0.finalized_tree log)
  unfolding set_round_id reset_finalize
  set_round-kept round_id t log inv = record {
    tracked = set_round-IsTracked round_id t inv.tracked;
    below =
        kept-Below (set_round_id o round_id t).0 log t.sent_latest_piece_index inv.below
          (elim (Bool-cases (ltb t.round_id round_id)) [
            | inl newer ↦ inl (ground (arith, newer))
            | inr same ↦ inr (inr (ground (arith, same)))
          ]);
    none_before = kept-none (set_round_id o round_id t).0.finalized_tree log;
  }

  sends-kept :
      (t t' : TwoPhases T) (log : List ℕ) (f f' : Feeder T) (submit : Message → Response)
      (ps : List PieceWithProof) (effects : List Effect)
      → f.two_phases_info ≡ some t
      → ((m : Message) → submit m ≢ failed)
      → next_sendable_piece_with_proofs o f.round_id (some t) ≡ pieces ps
      → send_pieces submit ps f ≡ runs f' effects
      → f'.two_phases_info ≡ some t'
      → Inv t log
      → Inv t' (accepted submit f ps log)
  sends-kept t t' log f f' submit ps effects has responds sendable sent has' inv =
      let (mt, in_round, here, chosen) = next_sendable-inv f.round_id t ps sendable in
      let up = choose_pieces-Ascends o mt f.round_id t ps here (inv.tracked mt here) chosen in
      let latest = sends-latest submit f t t' f' ps effects has responds in_round sent has' in
      record {
        tracked = λ tree is_tree. ground (arith, latest, is_tree, inv.tracked tree);
        below = rw latest (accepted-Below submit f t ps t.sent_latest_piece_index log up inv.below);
        none_before = λ absent. absurd (ground (arith, latest, here));
      }

  advance-kept :
      (index : ℕ) (mt : T) (t : TwoPhases T) (log : List ℕ)
      → t.finalized_tree ≡ some mt
      → Inv t log
      → Inv (advance_piece_index o index mt t).0 log
  unfolding advance_piece_index
  advance-kept index mt t log here inv =
      let same : (advance_piece_index o index mt t).0.sent_latest_piece_index
          ≡ t.sent_latest_piece_index =
        ground arith in
      record {
        tracked = advance-IsTracked index mt t here inv.tracked;
        below = rw same inv.below;
        none_before = λ absent. absurd (ground (arith, here));
      }

  Reached-Inv : (t : TwoPhases T) (log : List ℕ) → Reached o t log → Inv t log
  unfolding new_two_phases_info
  Reached-Inv _ _ starts = record {
    tracked = λ f is_tree. ground (arith, is_tree);
    below = tt;
    none_before = λ e. refl;
  }
  Reached-Inv _ _ (adds t log round_id mt before) =
      add_mt-kept round_id mt t log (Reached-Inv t log before)
  Reached-Inv _ _ (finalizes t log round_id root before) =
      finalize-kept round_id root t log (Reached-Inv t log before)
  Reached-Inv _ _ (sets_round t log round_id before) =
      set_round-kept round_id t log (Reached-Inv t log before)
  Reached-Inv _ _ (sends t t' log f f' submit ps effects has responds sendable sent has' before) =
      sends-kept t t' log f f' submit ps effects has responds sendable sent has'
        (Reached-Inv t log before)
  Reached-Inv _ _ (reports t log mt index here before) =
      advance-kept index mt t log here (Reached-Inv t log before)

  Below-All :
      (bound : ℤ) (i : ℕ) (log : List ℕ) → bound <ℤ pos i → Below bound log → All (λ j. j < i) log
  Below-All bound i [] lt below = tt
  Below-All bound i (j ∷ log) lt (first, below) =
      (omega (arith, lt, first), Below-All bound i log lt below)

  IsDue-unsent :
      (mt : T) (t : TwoPhases T) (log : List ℕ) (ps : List PieceWithProof)
      → Below t.sent_latest_piece_index log
      → All (IsDue o mt t) ps
      → All (λ p. All (λ j. j < p.piece_index) log) ps
  IsDue-unsent mt t log [] below dues = tt
  IsDue-unsent mt t log (p ∷ ps) below (due, dues) = (
    Below-All t.sent_latest_piece_index p.piece_index log due.after_sent below,
    IsDue-unsent mt t log ps below dues,
  )

  -- In whatever state the operations reach, every piece that may be sent belongs to the finalized
  -- tree of the round: it stands there under its index with its proof, comes after every piece of the
  -- tree that the chain has accepted, so that none of these is sent again, and is the next one for the
  -- chain or the one after it. Pieces that were rejected may be sent again.
  pub Reached-IsDue :
      (round_id : ℕ) (t : TwoPhases T) (log : List ℕ) (ps : List PieceWithProof)
      → Reached o t log
      → next_sendable_piece_with_proofs o round_id (some t) ≡ pieces ps
      → (mt : T) × (t.round_id ≡ round_id)
        × (t.finalized_tree ≡ some mt)
        × All (IsDue o mt t) ps
        × All (λ p. All (λ j. j < p.piece_index) log) ps
  Reached-IsDue round_id t log ps reached h =
      let (mt, in_round, here, chosen) = next_sendable-inv round_id t ps h in
      let inv = Reached-Inv t log reached in
      let dues = choose_pieces-IsDue o mt round_id t ps here (inv.tracked mt here) chosen in
      (mt, in_round, here, dues, IsDue-unsent mt t log ps inv.below dues)
