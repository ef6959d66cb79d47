-- ===== src/Main/Start.antt =====
-- internal/feeder/feeder.go: `RunPriceFeeder` up to its main loop, and `Start` of internal/feeder/types.go.
use price_feeder.Prelude.{
  ℕ, suc, ◌≡◌, refl, List, [], ◌∷◌, Option, none, some, Bool, true, false, if◌then◌else◌, length,
  get_elem?, Bytes, ◌==◌, nat_eq, bytes_eq, arith, not, ◌++◌, codes, Option-cases, Bool-cases, inl,
  inr,
}
use price_feeder.Prelude.Map.{lookup, insert}
use price_feeder.Feeder.Handlers.{TokenFeeder, Token, Params}
use price_feeder.Feeders.{Running, Feeders, new_feeders, start_feeder}
use price_feeder.Feeders.Setup.{
  is_nst_token, get_nst_source, to_lower, has_suffix, source_and_name, Setup, new_feeder,
  setup_feeder, setup_of, add_feeders,
}
use price_feeder.Main.{reset_nst_stakers, done, skipped, failed, panics, hangs}
use price_feeder.Main.Loop.{Env, Loop, continues, loop_panics, loop_blocks, before}
use price_feeder.Main.Retry.{
  ParamsResult, params, params_error, no_attempt, InitResult, init_error, returns_nil,
}

-- `Feeders.Start`, whose routines are the steps of the feeders.
unfoldable pub run_feeders : {T : Type 0} → Feeders T → Feeders T
run_feeders fs = if fs.running then fs else record fs { running = true }

-- The source and the name of a token; `none` is the panic of a native-restaking token without a source.
unfoldable pub start_source : Bytes → Option (Bytes × Bytes)
start_source name =
    if is_nst_token name
    then (if length (get_nst_source name) == 0 then none else some (get_nst_source name, name))
    else if not (has_suffix name (codes "usdt"))
    then some (codes "chainlink", name ++ codes "usdt")
    else some (codes "chainlink", name)

module _ {T : Type 0} (env : Env T) where
  -- A token feeder of index `id`; the feeders of native-restaking tokens are collected with their names.
  -- `none` is a panic, of an index of `Tokens` out of range or of a token without a source.
  unfoldable pub setup_token :
      Params
      → ℕ
      → TokenFeeder
      → Feeders T
      → List (ℕ × Bytes)
      → Option (Feeders T × List (ℕ × Bytes))
  setup_token p id tf fs two_phases =
      if id == 0 then some (fs, two_phases) else elim (get_elem? p.tokens tf.token_id) [
        | none ↦ none
        | some token ↦ elim (start_source (to_lower token.name)) [
          | none ↦ none
          | some (source, name) ↦
              let c : Setup = record {
                feeder_id = id;
                source = source;
                token = name;
                max_nonce = p.max_nonce;
                decimal = token.decimal;
                piece_size = p.piece_size_byte;
                is_two_phases = p.is_rule_2_phases id;
              } in
              some (
                setup_feeder env.oracle env.nst_fetcher tf c fs,
                if is_nst_token (to_lower token.name)
                    then insert id (to_lower token.name) two_phases
                    else two_phases,
              )
        ]
      ]

  -- The loop over the token feeders from index `id` on.
  unfoldable pub setup_feeders :
      Params
      → ℕ
      → List TokenFeeder
      → Feeders T
      → List (ℕ × Bytes)
      → Option (Feeders T × List (ℕ × Bytes))
  setup_feeders p id [] fs two_phases = some (fs, two_phases)
  setup_feeders p id (tf ∷ tfs) fs two_phases = elim (setup_token p id tf fs two_phases) [
    | none ↦ none
    | some (fs', two_phases') ↦ setup_feeders p (suc id) tfs fs' two_phases'
  ]

  -- The first reset of the stakers, in the order of the list; the source's order is that of a map.
  unfoldable pub init_stakers : List (ℕ × Bytes) → Feeders T → Loop T
  init_stakers [] fs = continues fs []
  init_stakers ((id, name) ∷ rest) fs = elim (lookup id fs.feeder_map) [
    | none ↦ loop_panics
    | some r ↦ elim (reset_nst_stakers env.decode_hex (env.staker_infos name) true r) [
      | done r' effects ↦
          before (continues (record fs { feeder_map = insert id r' fs.feeder_map }) effects)
            (init_stakers rest)
      | skipped ↦ init_stakers rest fs
      | failed ↦ loop_panics
      | panics ↦ loop_panics
      | hangs ↦ loop_blocks
    ]
  ]

  -- With the parameters: the feeders are made, started, and get their stakers.
  unfoldable pub start_feeders : Params → Loop T
  unfolding setup_feeders init_stakers run_feeders
  start_feeders p = elim (setup_feeders p 0 p.token_feeders new_feeders []) [
    | none ↦ loop_panics
    | some (fs, two_phases) ↦ init_stakers two_phases (run_feeders fs)
  ]

  -- `RunPriceFeeder` before the loop, with a logger, the result of `initComponents`, that of the
  -- fetcher's start, and the parameters. Without a client the query for the parameters panics, and
  -- nil parameters are read through.
  unfoldable pub run_price_feeder : Bool → InitResult → Bool → ParamsResult → Loop T
  unfolding start_feeders
  run_price_feeder false init fetcher_starts answer = loop_panics
  run_price_feeder true init_error fetcher_starts answer = loop_panics
  run_price_feeder true (returns_nil client) false answer = loop_panics
  run_price_feeder true (returns_nil false) true answer = loop_panics
  run_price_feeder true (returns_nil true) true (params p) = start_feeders p
  run_price_feeder true (returns_nil true) true params_error = loop_panics
  run_price_feeder true (returns_nil true) true no_attempt = loop_panics

  -- A native-restaking token has a source.
  source_is_set :
      (name : Bytes) → is_nst_token name ≡ true → (length (get_nst_source name) == 0) ≡ false
  unfolding is_nst_token get_nst_source
  source_is_set name nst = ground arith

  -- Both loops give a token the same source and name.
  start_source-same : (name : Bytes) → start_source name ≡ some (source_and_name env.oracle name)
  unfolding start_source source_and_name
  start_source-same name = elim (Bool-cases (is_nst_token name)) [
    | inl nst ↦ ground (arith, source_is_set name nst)
    | inr plain ↦ ground arith
  ]

  -- The feeders of a set-up.
  abbrev pub map_of : Option (Feeders T × List (ℕ × Bytes)) → Option (List (ℕ × Running T))
  map_of none = none
  map_of (some (fs, two_phases)) = some fs.feeder_map

  setup_token-zero :
      (p : Params) (id : ℕ) (tf : TokenFeeder) (fs : Feeders T) (two_phases : List (ℕ × Bytes))
      → (id == 0) ≡ true
      → setup_token p id tf fs two_phases ≡ some (fs, two_phases)
  unfolding setup_token
  setup_token-zero p id tf fs two_phases first = ground (arith, first)

  setup_token-unknown :
      (p : Params) (id : ℕ) (tf : TokenFeeder) (fs : Feeders T) (two_phases : List (ℕ × Bytes))
      → (id == 0) ≡ false
      → get_elem? p.tokens tf.token_id ≡ none
      → setup_token p id tf fs two_phases ≡ none
  unfolding setup_token
  setup_token-unknown p id tf fs two_phases later unknown = ground (arith, unknown)

  setup_token-ready :
      (p : Params) (id : ℕ) (tf : TokenFeeder) (token : Token) (fs : Feeders T)
      (two_phases : List (ℕ × Bytes))
      → (id == 0) ≡ false
      → get_elem? p.tokens tf.token_id ≡ some token
      → (all : List (ℕ × Bytes)) × (setup_token p id tf fs two_phases
          ≡ some
              (setup_feeder env.oracle env.nst_fetcher tf (setup_of env.oracle id token p) fs, all))
  unfolding setup_token
  setup_token-ready p id tf token fs two_phases later found =
      let name = to_lower token.name in
      (
        (if is_nst_token name then insert id name two_phases else two_phases),
        ground (arith, found, start_source-same name),
      )

  -- While the feeders do not run, the start's loop over token feeders makes the same feeders as the
  -- loop for new parameters does where no feeder is there, and panics where that loop panics.
  pub setup_feeders-add_feeders :
      (p : Params) (id : ℕ) (tfs : List TokenFeeder) (fs : Feeders T)
      (two_phases : List (ℕ × Bytes))
      → fs.running ≡ false
      → map_of (setup_feeders p id tfs fs two_phases)
        ≡ add_feeders env.oracle env.nst_fetcher p [] id tfs fs.feeder_map
  unfolding setup_feeders add_feeders setup_feeder
  setup_feeders-add_feeders p id [] fs two_phases new = refl
  setup_feeders-add_feeders p id (tf ∷ tfs) fs two_phases new = elim (Bool-cases (id == 0)) [
    | inl first ↦ ground (
      arith,
      setup_token-zero p id tf fs two_phases first,
      setup_feeders-add_feeders p (suc id) tfs fs two_phases new,
    )
    | inr later ↦ elim (Option-cases (get_elem? p.tokens tf.token_id)) [
      | inl unknown ↦ ground (arith, setup_token-unknown p id tf fs two_phases later unknown)
      | inr (token, found) ↦
          let (all, ready) = setup_token-ready p id tf token fs two_phases later found in
          elim (Option-cases
            (new_feeder env.oracle env.nst_fetcher tf (setup_of env.oracle id token p))) [
              | inl refused ↦
                  ground (arith, ready, setup_feeders-add_feeders p (suc id) tfs fs all new)
              | inr (f, made) ↦ ground (
                arith,
                ready,
                setup_feeders-add_feeders p (suc id) tfs
                    (record fs { feeder_map = insert id (start_feeder f) fs.feeder_map }) all new,
              )
            ]
    ]
  ]
