-- ===== src/Fetcher/Tests.antt =====
-- fetcher/fetcher.go: the theorems on the fetcher at two sources, of which one changed a price.
use price_feeder.Prelude.{
  ◌≡◌, refl, List, [], ◌∷◌, none, some, true, false, Bytes, bytes_eq, codes, ◌==◌, ◌&&◌,
  if◌then◌else◌,
}
use price_feeder.Prelude.Map.{lookup, insert, IsMap}
use price_feeder.Prelude.Int.{pos}
use price_feeder.Feeder.Price.{PriceInfo, empty_price}
use price_feeder.Source.{Source, add_token, add_token_and_start, start_fetch_token}
use price_feeder.Fetcher.{
  FetchSource, TokenStatus, Fetcher, served, add_token_for_source, handle_add, get_latest_price,
  latest, handle_latest, shared_price, token_price, contains, add_name,
}
use price_feeder.Fetcher.Snapshot.{price_update, tick_status}
use price_feeder.Fetcher.Snapshot.Shown.{status_in, status_of, tick_status-shown}
use price_feeder.Fetcher.Readable.{add_token_for_source-insert}

abbrev price : PriceInfo
price = record { price = codes "7"; decimal = pos 0; timestamp = []; round_id = codes "1" }

abbrev running_source : Source
running_source = record {
  running = true;
  stopped = false;
  tokens = (codes "eth", record { name = codes "eth"; price = price; active = true }) ∷ [];
  price_update = true;
  active_token_count = 1;
  token_not_configured = none;
}

abbrev fetch_source : FetchSource
fetch_source = record { source = running_source; stakers = none }

abbrev quiet_source : FetchSource
quiet_source = record { source = record running_source { price_update = false }; stakers = none }

abbrev fetcher : Fetcher
fetcher = record {
  running = true;
  serving = true;
  sources = (codes "a", fetch_source) ∷ (codes "b", quiet_source) ∷ [];
  price_read_list =
      (codes "a", some (codes "eth" ∷ [])) ∷ (codes "b", some (codes "eth" ∷ [])) ∷ [];
  tokens_status = none;
}

distinct : IsMap fetcher.price_read_list
unfolding lookup
distinct = (refl, (refl, tt))

readable : lookup (codes "a") fetcher.price_read_list ≡ some (some (codes "eth" ∷ []))
unfolding lookup
readable = refl

has_eth : contains (codes "eth") (codes "eth" ∷ []) ≡ true
unfolding contains
has_eth = refl

shared : shared_price (codes "a") (codes "eth") fetcher ≡ some price
unfolding shared_price token_price lookup
shared = refl

changed : price_update (codes "a") fetcher.sources ≡ true
unfolding price_update lookup
changed = refl

unchanged : price_update (codes "b") fetcher.sources ≡ false
unfolding price_update lookup
unchanged = refl

tick_status-shown_example :
    (cpy : List (Bytes × List (Bytes × TokenStatus))) × ((tick_status fetcher).tokens_status
      ≡ some cpy)
    × (status_in (codes "a") (codes "eth") cpy ≡ some (status_of (codes "eth") price))
    × (lookup (codes "b") cpy ≡ none)
tick_status-shown_example =
    tick_status-shown fetcher (codes "a") (codes "eth") (codes "b") (codes "eth" ∷ []) price refl
      distinct readable has_eth shared changed unchanged

abbrev with_btc : Fetcher
with_btc = record fetcher {
  sources =
      (
        codes "a",
        record fetch_source {
          source = record running_source {
            tokens =
                (codes "eth", record { name = codes "eth"; price = price; active = true })
                ∷ (codes "btc", record { name = codes "btc"; price = empty_price; active = true })
                ∷ [];
            active_token_count = 2;
          };
        },
      )
      ∷ (codes "b", quiet_source)
      ∷ [];
  price_read_list =
      (codes "a", some (codes "btc" ∷ codes "eth" ∷ []))
      ∷ (codes "b", some (codes "eth" ∷ []))
      ∷ [];
}

adds : add_token_for_source (codes "a") (codes "btc") fetcher ≡ served with_btc true
unfolding add_token_for_source handle_add add_token_and_start add_token start_fetch_token add_name
    contains lookup insert
adds = refl

add_token_for_source-insert_example :
    (s : FetchSource) × (lookup (codes "a") fetcher.sources ≡ some s)
    × (handle_latest (codes "a") (codes "eth") with_btc ≡ (
        if codes "a" == codes "a" && codes "btc" == codes "eth"
        then latest (add_token (codes "btc") s.source).1
        else handle_latest (codes "a") (codes "eth") fetcher))
    × (get_latest_price (codes "a") (codes "eth") with_btc
        ≡ served with_btc (handle_latest (codes "a") (codes "eth") with_btc))
add_token_for_source-insert_example =
    add_token_for_source-insert (codes "a") (codes "btc") (codes "a") (codes "eth") fetcher with_btc
      adds
