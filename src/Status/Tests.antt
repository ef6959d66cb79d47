-- ===== src/Status/Tests.antt =====
-- internal/status/service.go: the theorem at the status of one source.
use price_feeder.Prelude.{◌≡◌, refl, List, [], ◌∷◌, some, map, Bytes, codes, true}
use price_feeder.Prelude.Int.{pos}
use price_feeder.Fetcher.{TokenStatus}
use price_feeder.Status.{
  TokenReply, is_nst, encode_status, token_info, read_tokens, read_sources, get_all_tokens,
}
use price_feeder.Status.Repeated.{encode_again, repeated_call}

abbrev encode : Bytes → Bytes
encode s = b'x' ∷ s

abbrev status : List (Bytes × List (Bytes × TokenStatus))
status =
    (
      codes "beaconchain",
      (
        codes "nsteth",
        record {
          name = codes "nsteth";
          price = record { price = codes "a"; decimal = pos 0; timestamp = []; round_id = [] };
          active = true;
        },
      )
          ∷ [],
    )
    ∷ []

abbrev info : TokenReply
info = record {
  source = codes "beaconchain";
  token = codes "nsteth";
  price = codes "xa";
  decimals = pos 0;
  timestamp = [];
}

answers : (get_all_tokens encode (some status)).1 ≡ some (info ∷ [])
unfolding get_all_tokens read_sources read_tokens encode_status token_info is_nst
answers = refl

repeated_call_example :
    (get_all_tokens encode (get_all_tokens encode (some status)).0).1
    ≡ some (map (encode_again encode) (info ∷ []))
repeated_call_example = repeated_call encode status (info ∷ []) answers
