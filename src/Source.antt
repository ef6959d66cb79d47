-- ===== src/Source.antt =====
-- fetcher/types/types.go: `PriceSync`, `tokenInfo` and `Source`, which keeps the prices of its tokens
-- up to date. Every token has a routine of its own, whose rounds are steps of the source.
pub mod Active
pub mod Tests
use price_feeder.Prelude.{
  ℕ, ◌+◌, ◌-◌, List, [], ◌∷◌, Option, none, some, Bool, true, false, if◌then◌else◌, length, map,
  Bytes, ◌==◌, bytes_eq, nat_eq,
}
use price_feeder.Prelude.Map.{lookup, insert}
use price_feeder.Feeder.Price.{PriceInfo, empty_price, equal_price}
use price_feeder.Feeders.Setup.{to_lower}

pub record TokenInfo : Type 0 where
  pub name : Bytes
  pub price : PriceInfo
  pub active : Bool

-- `activeTokenCount` is an int32 that counts routines and is never negative.
pub record Source : Type 0 where
  pub running : Bool
  pub stopped : Bool
  pub tokens : List (Bytes × TokenInfo)
  pub price_update : Bool
  pub active_token_count : ℕ
  pub token_not_configured : Option Bytes

-- `PriceSync.Update`: the price, and whether it was updated. A price that differs in its timestamp
-- or round only is not taken.
unfoldable pub update_sync : PriceInfo → PriceInfo → PriceInfo × Bool
update_sync price old = if equal_price price old then (old, false) else (price, true)

abbrev pub new_token_info : Bytes → TokenInfo
new_token_info name = record { name = name; price = empty_price; active = false }

unfoldable pub new_source : Source
new_source = record {
  running = false;
  stopped = false;
  tokens = [];
  price_update = false;
  active_token_count = 0;
  token_not_configured = none;
}

unfoldable pub init_token_list : List Bytes → List (Bytes × TokenInfo) → List (Bytes × TokenInfo)
unfolding to_lower
init_token_list [] tokens = tokens
init_token_list (token ∷ rest) tokens =
    init_token_list rest (insert (to_lower token) (new_token_info (to_lower token)) tokens)

-- The second result is false for a source that runs, which stays as it is.
unfoldable pub init_tokens : List Bytes → Source → Source × Bool
init_tokens names s =
    if s.running then (s, false) else (record s { tokens = init_token_list names [] }, true)

-- `startFetchToken` on a token of the source.
unfoldable pub start_fetch_token : Bytes → TokenInfo → Source → Source
start_fetch_token name token s = record s {
  tokens = insert name (record token { active = true }) s.tokens;
  active_token_count = s.active_token_count + 1;
}

unfoldable pub start_all : List (Bytes × TokenInfo) → Source → Source
start_all [] s = s
start_all ((name, token) ∷ rest) s = start_all rest (start_fetch_token name token s)

-- The second result is false for a source that runs or has no tokens.
unfoldable pub start : Source → Source × Bool
start s =
    if s.running
    then (s, false)
    else if length s.tokens == 0
    then (s, false)
    else (start_all s.tokens (record s { running = true }), true)

-- The answers to `AddTokenAndStart`: a price, an error, or none, where the source's routine is gone.
pub data Added : Type 0 where
  added : Source → PriceInfo → Added
  not_running : Added
  waits : Added

-- A token that is there is left alone.
unfoldable pub add_token : Bytes → Source → Source × PriceInfo
add_token name s = elim (lookup name s.tokens) [
  | none ↦ (start_fetch_token name (new_token_info name) s, empty_price)
  | some token ↦ (s, token.price)
]

unfoldable pub add_token_and_start : Bytes → Source → Added
add_token_and_start name s =
    let (s', price) = add_token name s in
    if s.running then (if s.stopped then waits else added s' price) else not_running

unfoldable pub stop : Source → Source
stop s = record s { stopped = true }

-- What `fetch` returns.
pub data Fetch : Type 0 where
  got : PriceInfo → Fetch
  not_configured : Fetch
  fetch_fails : Fetch

-- A round of a token's routine on its ticker. The channel of tokens without a configuration has one
-- place; a routine that finds it full waits, which is a round that does nothing.
unfoldable pub tick : Bytes → Fetch → Source → Source
unfolding update_sync
tick name (got price) s = elim (lookup name s.tokens) [
  | none ↦ s
  | some token ↦
      let (price', updated) = update_sync price token.price in
      record s {
        tokens = insert name (record token { price = price' }) s.tokens;
        price_update = if updated then true else s.price_update;
      }
]
tick name not_configured s = elim s.token_not_configured [
  | none ↦ record s { token_not_configured = some name }
  | some waiting ↦ s
]
tick name fetch_fails s = s

-- The source's routine takes the token without a configuration: the second result is the token that
-- the configuration is reloaded for, which the source's `reload` does; its error is logged only.
unfoldable pub reload_config : Source → Source × Option Bytes
reload_config s = (record s { token_not_configured = none }, s.token_not_configured)

-- A token's routine ends when the source is stopped.
unfoldable pub exit_token : Bytes → Source → Source
exit_token name s = elim (lookup name s.tokens) [
  | none ↦ s
  | some token ↦
      if token.active
      then (if s.stopped
          then record s {
            tokens = insert name (record token { active = false }) s.tokens;
            active_token_count = s.active_token_count - 1;
          }
          else s)
      else s
]

-- The source's routine ends after its tokens' routines.
unfoldable pub finish_stop : Source → Source
finish_stop s =
    if s.stopped then (if s.active_token_count == 0 then record s { running = false } else s) else s
