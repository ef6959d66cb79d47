-- ===== src/Feeders/Setup.antt =====
-- internal/feeder/types.go: `newFeeder`, `SetupFeeder`, and the branch for new oracle parameters,
-- which makes feeders for the token feeders that have none.
use price_feeder.Prelude.{
  ℕ, suc, ◌+◌, ◌-◌, List, [], ◌∷◌, ◌++◌, Option, none, some, Bool, true, false, ◌&&◌, ltb, leb,
  if◌then◌else◌, length, get_elem?, drop, map, Bytes, ◌==◌, nat_eq, bytes_eq, codes,
}
use price_feeder.Prelude.Int.{ℤ, pos, to_signed}
use price_feeder.Prelude.Map.{insert}
use price_feeder.Oracle.{Oracle}
use price_feeder.Stakers.{new_stakers}
use price_feeder.Feeder.Price.{empty_price}
use price_feeder.Feeder.TwoPhases.{TwoPhases, new_two_phases_info}
use price_feeder.Feeder.Pieces.{seen}
use price_feeder.Feeder.State.{Feeder}
use price_feeder.Feeder.Handlers.{TokenFeeder, Token, Params, update_feeder_params}
use price_feeder.Feeders.{Running, Feeders, Dispatched, goes, crashes, blocks, start_feeder}

-- The arguments of `newFeeder` beside the token feeder.
pub record Setup : Type 0 where
  pub feeder_id : ℕ
  pub source : Bytes
  pub token : Bytes
  pub max_nonce : ℤ
  pub decimal : ℤ
  pub piece_size : ℕ
  pub is_two_phases : Bool

-- `IsNSTToken` and `GetNSTSource`.
unfoldable pub is_nst_token : Bytes → Bool
is_nst_token name = if name == codes "nsteth" then true else name == codes "nstsol"

unfoldable pub get_nst_source : Bytes → Bytes
get_nst_source name =
    if name == codes "nsteth"
    then codes "beaconchain"
    else if name == codes "nstsol"
    then codes "solana"
    else []

-- `strings.ToLower` and `strings.HasSuffix`, for names in ASCII.
unfoldable pub to_lower : Bytes → Bytes
to_lower [] = []
to_lower (c ∷ s) = (if leb b'A' c && leb c b'Z' then c + 32 else c) ∷ to_lower s

unfoldable pub has_suffix : Bytes → Bytes → Bool
has_suffix s suffix = leb (length suffix) (length s) && drop (length s - length suffix) s == suffix

module _ {T : Type 0} (o : Oracle T) where
  -- `nst_fetcher` is the answer of the cast to `PriceFetcherNST`; `none` is an error.
  unfoldable pub new_feeder : Bool → TokenFeeder → Setup → Option (Feeder T)
  new_feeder nst_fetcher tf c =
      let two_phases_info : Option (TwoPhases T) =
        if c.is_two_phases then some (new_two_phases_info o) else none in
      let f : Feeder T = record {
        source = c.source;
        token = c.token;
        decimal = c.decimal;
        token_id = tf.token_id;
        feeder_id = c.feeder_id;
        schedule = record {
          start_round_id = to_signed 64 tf.start_round_id;
          start_base_block = to_signed 64 tf.start_base_block;
          interval = to_signed 64 tf.interval;
          end_block = to_signed 64 tf.end_block;
        };
        round_id = 0;
        base_block = 0;
        last_price = record { price = empty_price; height = pos 0 };
        last_sent = record { max_nonce = c.max_nonce; round_id = 0; nonce = pos 0 };
        two_phases_info = two_phases_info;
        two_phases_piece_size = if c.is_two_phases then c.piece_size else 0;
        stakers = new_stakers;
      } in
      if c.is_two_phases then (if nst_fetcher then some f else none) else some f

  -- Running feeders, or an error of `newFeeder`, leave the map as it is.
  unfoldable pub setup_feeder : Bool → TokenFeeder → Setup → Feeders T → Feeders T
  setup_feeder nst_fetcher tf c fs = if fs.running then fs else elim (new_feeder nst_fetcher tf c) [
    | none ↦ fs
    | some f ↦ record fs { feeder_map = insert c.feeder_id (start_feeder f) fs.feeder_map }
  ]

  -- The source and the name under which a token's prices are fetched.
  unfoldable pub source_and_name : Bytes → Bytes × Bytes
  source_and_name name =
      if is_nst_token name
      then (get_nst_source name, name)
      else if has_suffix name (codes "usdt")
      then (codes "chainlink", name)
      else (codes "chainlink", name ++ codes "usdt")

  abbrev pub setup_of : ℕ → Token → Params → Setup
  setup_of id token p =
      let (source, name) = source_and_name (to_lower token.name) in
      record {
        feeder_id = id;
        source = source;
        token = name;
        max_nonce = p.max_nonce;
        decimal = token.decimal;
        piece_size = p.piece_size_byte;
        is_two_phases = p.is_rule_2_phases id;
      }

  -- The loop over the token feeders from index `id` on; `none` is the panic of an index of
  -- `params.Tokens` out of range.
  unfoldable pub add_feeders :
      Bool
      → Params
      → List ℕ
      → ℕ
      → List TokenFeeder
      → List (ℕ × Running T)
      → Option (List (ℕ × Running T))
  add_feeders nst_fetcher p existing id [] fs = some fs
  add_feeders nst_fetcher p existing id (tf ∷ tfs) fs =
      if id == 0
      then add_feeders nst_fetcher p existing (suc id) tfs fs
      else if seen id existing
      then add_feeders nst_fetcher p existing (suc id) tfs fs
      else elim (get_elem? p.tokens tf.token_id) [
        | none ↦ none
        | some token ↦ elim (new_feeder nst_fetcher tf (setup_of id token p)) [
          | none ↦ add_feeders nst_fetcher p existing (suc id) tfs fs
          | some f ↦ add_feeders nst_fetcher p existing (suc id) tfs (insert id (start_feeder f) fs)
        ]
      ]

-- `updateParams` on every feeder and the wait for the answers.
unfoldable pub update_all :
    {T : Type 0} → Params → List (ℕ × Running T) → Option (List (ℕ × Running T))
update_all p [] = some []
update_all p ((id, r) ∷ rs) =
    let rest = update_all p rs in
    if r.blocked then none else elim rest [
      | none ↦ none
      | some rs' ↦
          some ((id, record r { feeder = (update_feeder_params (some p) r.feeder).0 }) ∷ rs')
    ]

-- The branch for new parameters.
unfoldable pub update_params : {T : Type 0} → Oracle T → Bool → Params → Feeders T → Dispatched T
update_params o nst_fetcher p fs =
    let existing = map (λ (e : ℕ × Running _). e.1.feeder.feeder_id) fs.feeder_map in
    elim (update_all p fs.feeder_map) [
      | none ↦ blocks
      | some updated ↦ elim (add_feeders o nst_fetcher p existing 0 p.token_feeders updated) [
        | none ↦ crashes
        | some all ↦ goes (record fs { feeder_map = all }) [] []
      ]
    ]

-- `UpdateOracleParams` refuses nil parameters and those without a token feeder.
unfoldable pub accepts_params : Option Params → Bool
accepts_params none = false
accepts_params (some p) = ltb 0 (length p.token_feeders)
