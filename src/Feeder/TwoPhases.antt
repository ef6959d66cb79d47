-- ===== src/Feeder/TwoPhases.antt =====
-- internal/feeder/types.go: `twoPhasesInfo`. A price of two phases is raw data behind the root of
-- a Merkle tree: the root is agreed on first, then the pieces are submitted one by one.
use price_feeder.Prelude.{
  ℕ, ◌+◌, ◌-◌, ◌^◌, ◌%◌, List, [], ◌∷◌, ◌++◌, Option, none, some, Bool, true, false, ltb, leb,
  if◌then◌else◌, get_last?, Bytes, ◌==◌, nat_eq, bytes_eq,
}
use price_feeder.Prelude.Int.{ℤ, negsuc}
use price_feeder.Oracle.{Oracle}

pub record TwoPhases (T : Type 0) : Type 0 where
  pub round_id : ℕ  -- uint64
  pub cached_tree : List T
  pub finalized_tree : Option T
  pub sent_latest_piece_index : ℤ  -- int64, -1 for none
  pub next_piece_index : ℕ  -- uint32
  pub seen_index : List ℕ

pub record PieceWithProof : Type 0 where
  pub piece : Bytes
  pub piece_index : ℕ
  pub indexes_str : Bytes
  pub hashes_str : Bytes

module _ {T : Type 0} (o : Oracle T) where
  unfoldable pub new_two_phases_info : TwoPhases T
  new_two_phases_info = record {
    round_id = 0;
    cached_tree = [];
    finalized_tree = none;
    sent_latest_piece_index = negsuc 0;
    next_piece_index = 0;
    seen_index = [];
  }

  -- `LeafCount() - 1`, a uint32.
  abbrev pub last_index : T → ℕ
  last_index mt = (o.leaf_count mt + (2 ^ 32 - 1)) % 2 ^ 32

  -- `nextIndexIsLastOrMore`: the second result is false for a round with no finalized tree.
  unfoldable pub next_index_is_last_or_more : TwoPhases T → Bool × Bool
  next_index_is_last_or_more t = elim t.finalized_tree [
    | none ↦ (false, false)
    | some mt ↦ (leb (last_index mt) t.next_piece_index, true)
  ]

  -- A tree with the root is among the cached ones.
  unfoldable pub has_root : Bytes → List T → Bool
  has_root root [] = false
  has_root root (mt ∷ mts) = if o.root_hash mt == root then true else has_root root mts

  unfoldable pub add_mt : ℕ → T → TwoPhases T → TwoPhases T × Bool
  add_mt round_id mt t =
      if ltb round_id t.round_id
      then (t, false)
      else if ltb t.round_id round_id
      then (record t { round_id = round_id; cached_tree = mt ∷ []; finalized_tree = none }, true)
      else elim t.finalized_tree [
        | some f ↦ (t, false)
        | none ↦
            if has_root (o.root_hash mt) t.cached_tree
            then (t, false)
            else (record t { cached_tree = t.cached_tree ++ (mt ∷ []) }, true)
      ]

  unfoldable pub finalized_raw_data_by_root_hash : Bytes → TwoPhases T → Option Bytes
  finalized_raw_data_by_root_hash root t = elim t.finalized_tree [
    | none ↦ none
    | some mt ↦ if o.root_hash mt == root then o.complete_raw_data mt else none
  ]

  unfoldable pub reset_finalize : TwoPhases T → TwoPhases T
  reset_finalize t = record t {
    finalized_tree = none;
    sent_latest_piece_index = negsuc 0;
    next_piece_index = 0;
    seen_index = [];
  }

  unfoldable pub find_root : Bytes → List T → Option T
  find_root root [] = none
  find_root root (mt ∷ mts) = if o.root_hash mt == root then some mt else find_root root mts

  unfoldable pub finalize_raw_data : ℕ → Bytes → TwoPhases T → TwoPhases T × Bool
  unfolding reset_finalize
  finalize_raw_data round_id root t =
      if t.round_id == round_id
      then elim t.finalized_tree [
        | some f ↦ (t, false)
        | none ↦ elim (find_root root t.cached_tree) [
          | some mt ↦
              (record (reset_finalize t) { finalized_tree = some mt; cached_tree = [] }, true)
          | none ↦ (reset_finalize t, false)
        ]
      ]
      else (t, false)

  -- The caller has checked that there is a finalized tree; `none` is an error.
  unfoldable pub get_raw_data_piece_and_proof : ℕ → ℕ → T → TwoPhases T → Option PieceWithProof
  get_raw_data_piece_and_proof round_id index mt t =
      let (indexes, hashes) = o.proof_by_index mt index in
      if t.round_id == round_id
      then elim (o.piece_by_index mt index) [
        | none ↦ none
        | some piece ↦ some (record {
          piece = piece;
          piece_index = index;
          indexes_str = indexes;
          hashes_str = hashes;
        })
      ]
      else none

  unfoldable pub get_latest_root_hash : TwoPhases T → Bytes × ℕ
  get_latest_root_hash t = elim (get_last? t.cached_tree) [
    | none ↦ ([], 0)
    | some mt ↦ (o.root_hash mt, o.leaf_count mt)
  ]

  unfoldable pub set_round_id : ℕ → TwoPhases T → TwoPhases T × Bool
  unfolding reset_finalize
  set_round_id round_id t =
      if ltb t.round_id round_id
      then (reset_finalize (record t { round_id = round_id; cached_tree = [] }), true)
      else (t, false)
