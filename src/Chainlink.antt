-- ===== src/Chainlink.antt =====
-- fetcher/chainlink: the source of prices in contracts on chains, with `IsContractAddress` of
-- fetcher/types/types.go. The clients of chains and the bindings of contracts are parameters.
pub mod Added
pub mod Reload
pub mod Tests
use price_feeder.Prelude.{
  ℕ, List, [], ◌∷◌, ◌++◌, Option, none, some, Bool, true, false, ◌&&◌, ◌||◌, ltb, leb,
  if◌then◌else◌, length, Bytes, ◌==◌, nat_eq, bytes_eq, codes,
}
use price_feeder.Prelude.Int.{ℤ, pos}
use price_feeder.Prelude.Map.{lookup, insert}
use price_feeder.Text.{split, trim_space, big_string}
use price_feeder.Feeder.Price.{PriceInfo}
use price_feeder.Source.{Fetch, got, not_configured, fetch_fails}
use price_feeder.Feeders.Setup.{to_lower, has_suffix}

-- What a call of a client or a binding does; both may be nil.
pub data Call (A : Type 0) : Type 0 where
  answers : A → Call A
  call_fails : Call A
  call_panics : Call A

-- The fields that are read of `LatestRoundData`.
pub record RoundData : Type 0 where
  pub round_id : ℤ
  pub answer : ℤ

-- The libraries: `C` are the clients of chains and `A` the bindings of aggregators.
pub record Chains (C A : Type 0) : Type 0 where
  pub dial : (url : Bytes) → Option C
  -- The length of the code at an address.
  pub code_at : (client : Option C) → (address : Bytes) → Call ℕ
  -- `NewAggregatorV3Interface` at the address of a text.
  pub new_aggregator : (address : Bytes) → (client : Option C) → Option A
  pub latest_round_data : Option A → Call RoundData
  pub decimals : Option A → Call ℕ  -- uint8
  -- `time.Now` as a text.
  pub now : Bytes

pub record Config : Type 0 where
  pub urls : List (Bytes × Bytes)
  pub tokens : List (Bytes × Bytes)

-- The entries of a failed call are nil.
pub record Proxy (C A : Type 0) : Type 0 where
  pub clients : List (Bytes × Option C)
  pub aggregators : List (Bytes × Option A)

unfoldable pub new_proxy : {C A : Type 0} → Proxy C A
new_proxy = record { clients = []; aggregators = [] }

-- A result with the proxy that it leaves, an error, or a panic.
pub data Outcome (C A : Type 0) : Type 0 where
  succeeds : Proxy C A → Outcome C A
  fails : Proxy C A → Outcome C A
  panics : Outcome C A

unfoldable pub is_hex : Bytes → Bool
is_hex [] = true
is_hex (c ∷ s) =
    (leb b'0' c && leb c b'9' || leb b'a' c && leb c b'f' || leb b'A' c && leb c b'F') && is_hex s

-- The regular expression `^0x[0-9a-fA-F]{40}$`.
unfoldable pub is_address : Bytes → Bool
unfolding is_hex
is_address (z ∷ x ∷ s) = z == b'0' && x == b'x' && length s == 40 && is_hex s
is_address _ = false

abbrev pub client_of : {C : Type 0} → Bytes → List (Bytes × Option C) → Option C
client_of network clients = elim (lookup network clients) [ none ↦ none | some client ↦ client ]

-- The name that a token is looked up by.
unfoldable pub full_name : Bytes → Bytes
unfolding has_suffix
full_name token = if has_suffix token (codes "usdt") then token else token ++ codes "usdt"

module _ {C A : Type 0} (chains : Chains C A) where
  -- An error of the client is no contract.
  unfoldable pub is_contract_address : Bytes → Option C → Call Bool
  unfolding is_address
  is_contract_address address client =
      if length address == 0
      then answers false
      else if is_address address
      then elim (chains.code_at client address) [
        | answers size ↦ answers (ltb 0 size)
        | call_fails ↦ answers false
        | call_panics ↦ call_panics
      ]
      else answers false

  -- The second result is false for an error. A client that could not dial is stored as nil.
  unfoldable pub add_client : Bytes → Bytes → Proxy C A → Proxy C A × Bool
  add_client network url p = elim (lookup network p.clients) [
    | some client ↦ (p, true)
    | none ↦ if length url == 0 then (p, false) else elim (chains.dial url) [
      | none ↦ (record p { clients = insert network none p.clients }, false)
      | some client ↦ (record p { clients = insert network (some client) p.clients }, true)
    ]
  ]

  -- A token whose address and network are known; the new binding is stored, nil with an error.
  unfoldable pub bind : Bytes → Bytes → Bytes → Proxy C A → Outcome C A
  bind token address network p =
      let client = client_of network p.clients in
      elim (is_contract_address address client) [
        | call_panics ↦ panics
        | call_fails ↦ fails p
        | answers contract ↦
            if contract
            then (let aggregator = chains.new_aggregator address client in
                let p' = record p {
                  aggregators = insert (to_lower token) aggregator p.aggregators;
                } in
                elim aggregator [ none ↦ fails p' | some a ↦ succeeds p' ])
            else fails p
      ]

  -- The loop's body: an address without a network is an index out of range.
  unfoldable pub add_one : Bytes → List Bytes → Proxy C A → Outcome C A
  unfolding bind
  add_one token (address ∷ network ∷ _) p = bind token address network p
  add_one token _ p = panics

  unfoldable pub add_tokens : List (Bytes × Bytes) → Proxy C A → Outcome C A
  unfolding add_one trim_space split
  add_tokens [] p = succeeds p
  add_tokens ((token, address) ∷ rest) p =
      elim (add_one token (split b'_' (trim_space address)) p) [
        | succeeds p' ↦ add_tokens rest p'
        | fails p' ↦ fails p'
        | panics ↦ panics
      ]

  -- The loops over the networks of a configuration: `initChainlink` refuses an empty URL first, which
  -- `addClient` does as well.
  unfoldable pub add_clients : List (Bytes × Bytes) → Proxy C A → Proxy C A × Bool
  add_clients [] p = (p, true)
  add_clients ((network, url) ∷ rest) p =
      let (p', ok) = add_client (to_lower network) url p in
      if ok then add_clients rest p' else (p', false)

  unfoldable pub init_clients : List (Bytes × Bytes) → Proxy C A → Proxy C A × Bool
  unfolding add_client to_lower
  init_clients [] p = (p, true)
  init_clients ((network, url) ∷ rest) p =
      let (p', ok) = add_client (to_lower network) url p in
      if length url == 0 then (p, false) else if ok then init_clients rest p' else (p', false)

  -- `initChainlink`; no configuration is one that cannot be read.
  unfoldable pub init_chainlink : Option Config → Outcome C A
  unfolding init_clients add_tokens new_proxy
  init_chainlink none = fails new_proxy
  init_chainlink (some cfg) =
      let (p, ok) = init_clients cfg.urls new_proxy in
      if ok then add_tokens cfg.tokens p else fails p

  -- The search of `reload`: a token whose addition fails is logged only.
  unfoldable pub reload_token : Bytes → List (Bytes × Bytes) → Proxy C A → Outcome C A
  unfolding add_tokens to_lower
  reload_token token [] p = fails p
  reload_token token ((name, address) ∷ rest) p =
      if to_lower name == to_lower token
      then elim (add_tokens ((to_lower name, address) ∷ []) p) [
        | succeeds p' ↦ succeeds p'
        | fails p' ↦ succeeds p'
        | panics ↦ panics
      ]
      else reload_token token rest p

  unfoldable pub reload : Option Config → Bytes → Proxy C A → Outcome C A
  unfolding add_clients reload_token
  reload none token p = fails p
  reload (some cfg) token p =
      let (p', ok) = add_clients cfg.urls p in
      if ok then reload_token token cfg.tokens p' else fails p'

  -- The price of a binding; `none` is a panic.
  unfoldable pub price_of_aggregator : Option A → Option Fetch
  unfolding big_string
  price_of_aggregator aggregator = elim (chains.latest_round_data aggregator) [
    | call_panics ↦ none
    | call_fails ↦ some fetch_fails
    | answers data' ↦ elim (chains.decimals aggregator) [
      | call_panics ↦ none
      | call_fails ↦ some fetch_fails
      | answers decimals ↦ some (
          got (record {
            price = big_string data'.answer;
            decimal = pos decimals;
            timestamp = chains.now;
            round_id = big_string data'.round_id;
          }))
    ]
  ]

  unfoldable pub fetch : Bytes → Proxy C A → Option Fetch
  unfolding price_of_aggregator full_name
  fetch token p = elim (lookup (full_name token) p.aggregators) [
    | none ↦ some not_configured
    | some aggregator ↦ price_of_aggregator aggregator
  ]
