-- ===== src/Feeder/Tests.antt =====
-- internal/feeder/types.go: the theorems on a feeder at concrete feeders. A tree is its number of
-- pieces, and the piece at an index is the index.
use price_feeder.Prelude.{
  inl, ◌<◌, ℕ, ◌+◌, ◌-◌, ◌*◌, ◌/◌, ◌^◌, ◌≤◌, ◌≡◌, ◌≢◌, refl, [], ◌∷◌, none, some, codes, nat_eq,
  if◌then◌else◌, ltb, length, map, All, arith, Bytes,
}
use price_feeder.Prelude.Int.{pos, negsuc, ◌≤ℤ◌}
use price_feeder.Oracle.{Oracle}
use price_feeder.Stakers.{new_stakers}
use price_feeder.Feeder.Sign.{SignInfo, get_next_nonce_and_update}
use price_feeder.Feeder.Sign.Nonces.{IsValid, issued, nonces_of_round}
use price_feeder.Feeder.Round.{Round, calculate_round}
use price_feeder.Feeder.Round.Blocks.{schedule, IsRoundOf, calculate_round-IsRoundOf}
use price_feeder.Feeder.Decimal.{convert_decimal}
use price_feeder.Feeder.Decimal.Value.{value, value-convert}
use price_feeder.Feeder.Price.{empty_price}
use price_feeder.Feeder.TwoPhases.{
  TwoPhases, PieceWithProof, last_index, next_index_is_last_or_more, get_raw_data_piece_and_proof,
}
use price_feeder.Feeder.Pieces.{
  pieces, second_piece, choose_pieces, advance_piece_index, next_sendable_piece_with_proofs,
  update_sent_latest_piece_index,
}
use price_feeder.Feeder.TwoPhases.{
  new_two_phases_info, add_mt, has_root, finalize_raw_data, find_root, reset_finalize,
}
use price_feeder.Feeder.Pieces.Progress.{advances, advances-bounded}
use price_feeder.Feeder.Pieces.Due.{IsDue}
use price_feeder.Feeder.Pieces.Steps.{Reached, starts, adds, finalizes, sends, reports}
use price_feeder.Feeder.Pieces.Reachable.{Reached-IsDue}
use price_feeder.Feeder.State.{Feeder, Message, Response, failed, code, sent, runs}
use price_feeder.Feeder.Second.{mark_sent, send_pieces, piece_message}
use price_feeder.Feeder.Second.Sends.{with_latest, latest_accepted, tried, send_pieces_lem}

abbrev pub oracle : Oracle ℕ
oracle = record {
  root_hash = λ t. t ∷ [];
  leaf_count = λ t. t;
  complete_raw_data = λ t. some (t ∷ []);
  piece_by_index = λ t i. if ltb i t then some (i ∷ []) else none;
  proof_by_index = λ t i. ([], []);
  derive_mt = λ size raw. some (length raw);
  unmarshal = λ raw. none;
  decode_base64 = λ text. some text;
}

abbrev pub submit : Message → Response
submit m = code 0

abbrev signs : SignInfo
signs = record { max_nonce = pos 3; round_id = 0; nonce = pos 0 }

abbrev pub feeder : Feeder ℕ
feeder = record {
  source = codes "chainlink";
  token = codes "ethusdt";
  decimal = pos 0;
  token_id = 1;
  feeder_id = 1;
  schedule = schedule 1 10 10 100;
  round_id = 0;
  base_block = 0;
  last_price = record { price = empty_price; height = pos 0 };
  last_sent = signs;
  two_phases_info = none;
  two_phases_piece_size = 0;
  stakers = new_stakers;
}

signs-IsValid : IsValid signs
signs-IsValid = record {
  max_pos = ground arith;
  max_int32 = ground arith;
  nonce_pos = ground arith;
  nonce_le = ground arith;
}

nonces_of_round_example : (get_next_nonce_and_update 1 (issued 1 3 signs)).1 ≡ negsuc 0
nonces_of_round_example = nonces_of_round 1 3 signs (omega arith) (omega arith) (omega arith) refl 3

first_nonce : pos 1 ≤ℤ (get_next_nonce_and_update 1 signs).1
unfolding get_next_nonce_and_update
first_nonce = omega arith

calculate_round-IsRoundOf_example :
    (r : Round) × (calculate_round (schedule 1 10 10 0) (pos 37) ≡ some r) × IsRoundOf 1 10 10 37 r
calculate_round-IsRoundOf_example =
    calculate_round-IsRoundOf 1 10 10 0 37 (omega arith) (omega arith) (omega arith) (omega arith)
      (inl refl)

value-convert_example :
    (q : Bytes) × (convert_decimal (codes "125") (pos 2) (pos 0) ≡ some q)
    × (value q ≡ value (codes "125") * 10 ^ (0 - 2) / 10 ^ (2 - 0))
value-convert_example = value-convert (codes "125") 2 0 (omega arith) (omega arith) (ground arith)

abbrev two_phases : TwoPhases ℕ
two_phases = record {
  round_id = 3;
  cached_tree = [];
  finalized_tree = some 4;
  sent_latest_piece_index = negsuc 0;
  next_piece_index = 1;
  seen_index = 0 ∷ [];
}

advances-bounded_example :
    ((advances oracle 4 (1 ∷ 1 ∷ 2 ∷ []) two_phases).0.next_piece_index ≤ last_index oracle 4)
    × (1 + (advances oracle 4 (1 ∷ 1 ∷ 2 ∷ []) two_phases).1
        ≤ (advances oracle 4 (1 ∷ 1 ∷ 2 ∷ []) two_phases).0.next_piece_index)
advances-bounded_example = advances-bounded oracle 4 (1 ∷ 1 ∷ 2 ∷ []) two_phases (omega arith)

abbrev piece_at : ℕ → PieceWithProof
piece_at i = record { piece = i ∷ []; piece_index = i; indexes_str = []; hashes_str = [] }

chooses : choose_pieces oracle 3 4 two_phases ≡ pieces (piece_at 1 ∷ piece_at 2 ∷ [])
unfolding choose_pieces second_piece next_index_is_last_or_more get_raw_data_piece_and_proof
chooses = refl

sendable :
    next_sendable_piece_with_proofs oracle 3 (some two_phases)
    ≡ pieces (piece_at 1 ∷ piece_at 2 ∷ [])
unfolding next_sendable_piece_with_proofs
sendable = chooses

abbrev pub nst_feeder : Feeder ℕ
nst_feeder = record feeder { round_id = 3; two_phases_info = some two_phases }

responds : (m : Message) → submit m ≢ failed
responds m = ground arith

-- The two pieces that a new tree of four leaves starts with are sent and accepted; then the chain
-- reports the first one.
abbrev unsent : TwoPhases ℕ
unsent = record two_phases { next_piece_index = 0; seen_index = [] }

abbrev feeder_with : TwoPhases ℕ → Feeder ℕ
feeder_with t = record nst_feeder { two_phases_info = some t }

abbrev sent_two : TwoPhases ℕ
sent_two = record unsent { sent_latest_piece_index = pos 1 }

abbrev reported : TwoPhases ℕ
reported = record two_phases { sent_latest_piece_index = pos 1 }

sends_two :
    next_sendable_piece_with_proofs oracle 3 (some unsent) ≡ pieces (piece_at 0 ∷ piece_at 1 ∷ [])
unfolding next_sendable_piece_with_proofs choose_pieces second_piece next_index_is_last_or_more
    get_raw_data_piece_and_proof
sends_two = refl

reached : Reached oracle reported (1 ∷ 0 ∷ [])
unfolding new_two_phases_info add_mt has_root finalize_raw_data find_root reset_finalize
    advance_piece_index send_pieces mark_sent update_sent_latest_piece_index
reached = reports _ _ 4 0 refl (
    sends unsent sent_two [] (feeder_with unsent) (feeder_with sent_two) submit
      (piece_at 0 ∷ piece_at 1 ∷ [])
      (sent (piece_message (piece_at 0) (feeder_with unsent))
        ∷ sent (piece_message (piece_at 1) (feeder_with unsent))
        ∷ [])
      refl responds sends_two refl refl
      (finalizes _ [] 3 (4 ∷ []) (adds (new_two_phases_info oracle) [] 3 4 starts)))

next_sendable : next_sendable_piece_with_proofs oracle 3 (some reported) ≡ pieces (piece_at 2 ∷ [])
unfolding next_sendable_piece_with_proofs choose_pieces second_piece next_index_is_last_or_more
    get_raw_data_piece_and_proof
next_sendable = refl

Reached-IsDue_example :
    (mt : ℕ) × ◌≡◌ {A = ℕ} 3 3
    × (reported.finalized_tree ≡ some mt)
    × All (IsDue oracle mt reported) (piece_at 2 ∷ [])
    × All (λ p. All (λ j. j < p.piece_index) (1 ∷ 0 ∷ [])) (piece_at 2 ∷ [])
Reached-IsDue_example =
    Reached-IsDue oracle 3 reported (1 ∷ 0 ∷ []) (piece_at 2 ∷ []) reached next_sendable

send_pieces_lem_example :
    send_pieces submit
      (piece_at 1 ∷ piece_at 2 ∷ [])
      (with_latest submit nst_feeder two_phases (negsuc 0))
    ≡ runs
        (with_latest submit nst_feeder two_phases
          (latest_accepted submit nst_feeder two_phases (piece_at 1 ∷ piece_at 2 ∷ []) (negsuc 0)))
        (map
          (λ p. sent (piece_message p nst_feeder))
          (tried submit nst_feeder two_phases (piece_at 1 ∷ piece_at 2 ∷ [])))
send_pieces_lem_example =
    send_pieces_lem submit nst_feeder two_phases (piece_at 1 ∷ piece_at 2 ∷ []) (negsuc 0) responds
      refl
