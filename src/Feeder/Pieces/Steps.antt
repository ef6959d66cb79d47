-- ===== src/Feeder/Pieces/Steps.antt =====
-- internal/feeder/types.go: the sequences of operations of `twoPhasesInfo`, with the pieces that were
-- accepted.
use price_feeder.Prelude.{
  ℕ, ◌≡◌, ◌≢◌, sym, ap, ◌∙◌, inl, inr, List, [], ◌∷◌, Option, none, some, Bool-cases, All, nat_eq,
  Bytes, arith, if◌then◌else◌,
}
use price_feeder.Prelude.Int.{ℤ, pos, ◌≤ℤ◌}
use price_feeder.Oracle.{Oracle}
use price_feeder.Feeder.TwoPhases.{
  TwoPhases, PieceWithProof, new_two_phases_info, add_mt, finalize_raw_data, set_round_id,
}
use price_feeder.Feeder.Pieces.{pieces, next_sendable_piece_with_proofs, advance_piece_index}
use price_feeder.Feeder.Pieces.Due.{Ascends}
use price_feeder.Feeder.State.{Feeder, Message, Response, failed, Effect, Outcome, runs}
use price_feeder.Feeder.Second.{piece_message, send_pieces}
use price_feeder.Feeder.Second.Sends.{is_ok, latest_accepted, with_latest, send_pieces_lem}

-- The pieces that were accepted for the finalized tree: none without a tree, and a new tree has none
-- before it.
abbrev pub kept : {T : Type 0} → Option T → List ℕ → List ℕ
kept none log = []
kept (some mt) log = log

-- The indexes of the pieces that a run of sends has accepted, up to the first one that is rejected.
abbrev pub accepted :
    {T : Type 0} → (Message → Response) → Feeder T → List PieceWithProof → List ℕ → List ℕ
accepted submit f [] log = log
accepted submit f (p ∷ ps) log =
    if is_ok (submit (piece_message p f)) then accepted submit f ps (p.piece_index ∷ log) else log

-- The states that the operations reach from a new one, in any order and with any arguments, with the
-- indexes of the pieces that the chain has accepted for the finalized tree. The pieces are sent by a
-- feeder with the state, to a submitter that always returns a response.
pub data Reached {T : Type 0} (o : Oracle T) : TwoPhases T → List ℕ → Type 0 where
  starts : Reached o (new_two_phases_info o) []
  adds :
      (t : TwoPhases T) (log : List ℕ) (round_id : ℕ) (mt : T)
      → Reached o t log
      → Reached o (add_mt o round_id mt t).0 (kept (add_mt o round_id mt t).0.finalized_tree log)
  finalizes :
      (t : TwoPhases T) (log : List ℕ) (round_id : ℕ) (root : Bytes)
      → Reached o t log
      → Reached o
          (finalize_raw_data o round_id root t).0
          (kept (finalize_raw_data o round_id root t).0.finalized_tree log)
  sets_round :
      (t : TwoPhases T) (log : List ℕ) (round_id : ℕ)
      → Reached o t log
      → Reached o
          (set_round_id o round_id t).0
          (kept (set_round_id o round_id t).0.finalized_tree log)
  sends :
      (t t' : TwoPhases T) (log : List ℕ) (f f' : Feeder T) (submit : Message → Response)
      (ps : List PieceWithProof) (effects : List Effect)
      → f.two_phases_info ≡ some t
      → ((m : Message) → submit m ≢ failed)
      → next_sendable_piece_with_proofs o f.round_id (some t) ≡ pieces ps
      → send_pieces submit ps f ≡ runs f' effects
      → f'.two_phases_info ≡ some t'
      → Reached o t log
      → Reached o t' (accepted submit f ps log)
  reports :
      (t : TwoPhases T) (log : List ℕ) (mt : T) (index : ℕ)
      → t.finalized_tree ≡ some mt
      → Reached o t log
      → Reached o (advance_piece_index o index mt t).0 log

-- Every index is at most the bound.
abbrev pub Below : ℤ → List ℕ → Type 0
Below bound log = All (λ i. pos i ≤ℤ bound) log

Below-le : (old new : ℤ) (log : List ℕ) → old ≤ℤ new → Below old log → Below new log
Below-le old new [] le below = tt
Below-le old new (i ∷ log) le (first, below) =
    (omega (arith, le, first), Below-le old new log le below)

-- The outcome's state of two phases.
abbrev state_of : {T : Type 0} → Outcome T → Option (TwoPhases T)
state_of (runs f effects) = f.two_phases_info
state_of Outcome.panics = none

module _ {T : Type 0} (submit : Message → Response) (f : Feeder T) (t : TwoPhases T) where
  pub accepted-Below :
      (ps : List PieceWithProof) (old : ℤ) (log : List ℕ)
      → Ascends old ps
      → Below old log
      → Below (latest_accepted submit f t ps old) (accepted submit f ps log)
  accepted-Below [] old log up below = below
  accepted-Below (p ∷ ps) old log (first, up) below =
      elim (Bool-cases (is_ok (submit (piece_message p f)))) [
        | inl ok ↦ rw ok (
            accepted-Below ps (pos p.piece_index) (p.piece_index ∷ log) up
              (omega arith, Below-le old (pos p.piece_index) log (omega (arith, first)) below))
        | inr rejected ↦ rw rejected below
      ]

  -- What a run of sends leaves.
  pub sends-latest :
      (t' : TwoPhases T) (f' : Feeder T) (ps : List PieceWithProof) (effects : List Effect)
      → f.two_phases_info ≡ some t
      → ((m : Message) → submit m ≢ failed)
      → t.round_id ≡ f.round_id
      → send_pieces submit ps f ≡ runs f' effects
      → f'.two_phases_info ≡ some t'
      → t' ≡ record t {
        sent_latest_piece_index = latest_accepted submit f t ps t.sent_latest_piece_index;
      }
  sends-latest t' f' ps effects has responds same sent has' =
      let whole : with_latest submit f t t.sent_latest_piece_index ≡ f =
        ap (λ info. record f { two_phases_info = info }) (sym has) in
      let ran =
        ap (send_pieces submit ps) (sym whole)
        ∙ send_pieces_lem submit f t ps t.sent_latest_piece_index responds same in
      let states = ap state_of (sym sent ∙ ran) in ground (arith, has', states)
