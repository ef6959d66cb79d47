-- ===== src/Status.antt =====
-- internal/status/service.go: `GetAllTokens`, over the status that the fetcher shares. The base64
-- encoder is a parameter.
pub mod Repeated
pub mod Tests
use price_feeder.Prelude.{
  ℕ, List, [], ◌∷◌, ◌++◌, Option, none, some, if◌then◌else◌, Bool, length, take, Bytes, ◌==◌,
  nat_eq, bytes_eq, codes,
}
use price_feeder.Prelude.Int.{ℤ}
use price_feeder.Fetcher.{TokenStatus}

-- `TokenInfo` of the answer.
pub record TokenReply : Type 0 where
  pub source : Bytes
  pub token : Bytes
  pub price : Bytes
  pub decimals : ℤ  -- int32
  pub timestamp : Bytes

-- `strings.HasPrefix` with `nstPrefix`.
unfoldable pub is_nst : Bytes → Bool
is_nst name = take 3 name == codes "nst"

module _ (encode : Bytes → Bytes) where
  -- The price of a native-restaking token, which is bytes, becomes a text, in the status itself.
  unfoldable pub encode_status : Bytes → TokenStatus → TokenStatus
  unfolding is_nst
  encode_status name status =
      if is_nst name
      then record status { price = record (status.price) { price = encode status.price.price } }
      else status

  unfoldable pub token_info : Bytes → Bytes → TokenStatus → TokenReply
  token_info source name status = record {
    source = source;
    token = name;
    price = status.price.price;
    decimals = status.price.decimal;
    timestamp = status.price.timestamp;
  }

  -- The loop over the tokens of a source: the status that it leaves and the answer.
  unfoldable pub read_tokens :
      Bytes → List (Bytes × TokenStatus) → List (Bytes × TokenStatus) × List TokenReply
  unfolding encode_status token_info
  read_tokens source [] = ([], [])
  read_tokens source ((name, status) ∷ rest) =
      let (rest', infos) = read_tokens source rest in
      let status' = encode_status name status in
      ((name, status') ∷ rest', token_info source name status' ∷ infos)

  unfoldable pub read_sources :
      List (Bytes × List (Bytes × TokenStatus))
      → List (Bytes × List (Bytes × TokenStatus)) × List TokenReply
  unfolding read_tokens
  read_sources [] = ([], [])
  read_sources ((source, tokens) ∷ rest) =
      let (tokens', infos) = read_tokens source tokens in
      let (rest', more) = read_sources rest in ((source, tokens') ∷ rest', infos ++ more)

  -- The status that the call leaves, and its answer; `none` is the error `NotFound`.
  unfoldable pub get_all_tokens :
      Option (List (Bytes × List (Bytes × TokenStatus)))
      → Option (List (Bytes × List (Bytes × TokenStatus))) × Option (List TokenReply)
  unfolding read_sources
  get_all_tokens none = (none, none)
  get_all_tokens (some []) = (some [], none)
  get_all_tokens (some (s ∷ ss)) =
      let (status, infos) = read_sources (s ∷ ss) in (some status, some infos)
