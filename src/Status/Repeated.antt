-- ===== src/Status/Repeated.antt =====
-- internal/status/service.go: calls of `GetAllTokens` between two ticks of the fetcher.
use price_feeder.Prelude.{
  ◌≡◌, refl, ap, List, [], ◌∷◌, ◌++◌, some, if◌then◌else◌, map, Bytes, arith,
}
use price_feeder.Fetcher.{TokenStatus}
use price_feeder.Status.{
  TokenReply, is_nst, encode_status, token_info, read_tokens, read_sources, get_all_tokens,
}

map-append {ℓ κ} :
    {A : Type ℓ} {B : Type κ} (f : A → B) (xs ys : List A) → map f (xs ++ ys) ≡ map f xs ++ map f ys
map-append f [] ys = refl
map-append f (x ∷ xs) ys = ap (λ zs. f x ∷ zs) (map-append f xs ys)

module _ (encode : Bytes → Bytes) where
  -- An info with the price of a native-restaking token encoded once more.
  abbrev pub encode_again : TokenReply → TokenReply
  encode_again info = if is_nst info.token then record info { price = encode info.price } else info

  read_tokens-twice :
      (source : Bytes) (tokens : List (Bytes × TokenStatus))
      → (read_tokens encode source (read_tokens encode source tokens).0).1
        ≡ map encode_again (read_tokens encode source tokens).1
  unfolding read_tokens encode_status token_info
  read_tokens-twice source [] = refl
  read_tokens-twice source ((name, status) ∷ rest) = ground (arith, read_tokens-twice source rest)

  read_sources-twice :
      (status : List (Bytes × List (Bytes × TokenStatus)))
      → (read_sources encode (read_sources encode status).0).1
        ≡ map encode_again (read_sources encode status).1
  unfolding read_sources
  read_sources-twice [] = refl
  read_sources-twice ((source, tokens) ∷ rest) =
      rw
        (
          map-append encode_again (read_tokens encode source tokens).1 (read_sources encode rest).1,
          read_tokens-twice source tokens,
          read_sources-twice rest,
        )
        refl

  -- Two calls without a tick of the fetcher between them: the second answer has the price of every
  -- native-restaking token encoded once more than the first one, and all else alike.
  pub repeated_call :
      (status : List (Bytes × List (Bytes × TokenStatus))) (infos : List TokenReply)
      → (get_all_tokens encode (some status)).1 ≡ some infos
      → (get_all_tokens encode (get_all_tokens encode (some status)).0).1
        ≡ some (map encode_again infos)
  unfolding get_all_tokens
  repeated_call [] infos h = absurd (ground arith)
  repeated_call (s ∷ ss) infos h = ground (arith, read_sources-twice (s ∷ ss))
