-- ===== src/Source/Tests.antt =====
-- fetcher/types/types.go: the theorem on a source at a source with one token.
use price_feeder.Prelude.{◌≡◌, refl, List, [], ◌∷◌, none, true, false, codes}
use price_feeder.Feeder.Price.{empty_price}
use price_feeder.Source.{Source, got}
use price_feeder.Source.Active.{
  active_tokens, SourceEvent, adds, ticks, exits, stops, ends, handle_all, handle_all-IsCounted,
}

abbrev source : Source
source = record {
  running = true;
  stopped = false;
  tokens =
      (codes "ethusdt", record { name = codes "ethusdt"; price = empty_price; active = true }) ∷ [];
  price_update = false;
  active_token_count = 1;
  token_not_configured = none;
}

abbrev events : List SourceEvent
events =
    adds (codes "btcusdt")
    ∷ ticks (codes "ethusdt") (got empty_price)
    ∷ stops
    ∷ exits (codes "ethusdt")
    ∷ ends
    ∷ []

one_active : source.active_token_count ≡ active_tokens (source.tokens)
unfolding active_tokens
one_active = refl

handle_all-IsCounted_example :
    (handle_all events source).active_token_count
    ≡ active_tokens ((handle_all events source).tokens)
handle_all-IsCounted_example = handle_all-IsCounted events source one_active
