-- ===== src/Fetcher/Readable.antt =====
-- fetcher/fetcher.go: the prices of added tokens.
use price_feeder.Prelude.{
  ◌≡◌, inl, inr, List, none, some, true, false, ◌&&◌, if◌then◌else◌, Bytes, ◌==◌, bytes_eq,
  Option-cases, arith,
}
use price_feeder.Prelude.Map.{lookup, insert, lookup-insert}
use price_feeder.Source.{Source, add_token, add_token_and_start, start_fetch_token, new_token_info}
use price_feeder.Fetcher.{
  FetchSource, Fetcher, served, handle_add, add_token_for_source, latest, handle_latest,
  get_latest_price, shared_price, token_price, contains, add_name,
}

contains-add_name : (name : Bytes) (names : List Bytes) → contains name (add_name name names) ≡ true
unfolding contains add_name
contains-add_name name names = ground (arith, bytes_eq.beq_iff name name)

token_price-add_token :
    (token : Bytes) (s : Source)
    → token_price token (add_token token s).0 ≡ some (add_token token s).1
unfolding token_price add_token start_fetch_token
token_price-add_token token s = elim (Option-cases (lookup token s.tokens)) [
  | inl absent ↦ ground (
    arith,
    bytes_eq.beq_iff token token,
    lookup-insert token token (record (new_token_info token) { active = true }) s.tokens,
  )
  | inr (info, found) ↦ ground arith
]

token_price-others :
    (token other : Bytes) (s : Source)
    → (token == other) ≡ false
    → token_price other (add_token token s).0 ≡ token_price other s
unfolding token_price add_token start_fetch_token
token_price-others token other s differs = elim (Option-cases (lookup token s.tokens)) [
  | inl absent ↦
      ground (
        arith,
        lookup-insert token other (record (new_token_info token) { active = true }) s.tokens,
      )
  | inr (info, found) ↦ ground arith
]

-- The fetcher after an addition.
abbrev with_token : Bytes → Bytes → FetchSource → List Bytes → Fetcher → Fetcher
with_token source token s names f = record f {
  sources = insert source (record s { source = (add_token token s.source).0 }) f.sources;
  price_read_list = insert source (some (add_name token names)) f.price_read_list;
}

handle_add-inv :
    (source token : Bytes) (f f' : Fetcher)
    → handle_add source token f ≡ served f' true
    → (s : FetchSource) × (names : List Bytes) × (lookup source f.sources ≡ some s)
      × (lookup source f.price_read_list ≡ some (some names))
      × (f' ≡ with_token source token s names f)
unfolding handle_add add_token_and_start
handle_add-inv source token f f' h = elim (Option-cases (lookup source f.sources)) [
  | inl absent ↦ absurd (ground arith)
  | inr (s, found) ↦ elim (Option-cases (lookup source f.price_read_list)) [
    | inl absent ↦ absurd (ground arith)
    | inr (none, readable) ↦ absurd (ground arith)
    | inr (some names, readable) ↦ (s, names, found, readable, ground arith)
  ]
]

shared_price-with_token :
    (source token : Bytes) (s : FetchSource) (names : List Bytes) (f : Fetcher)
    → shared_price source token (with_token source token s names f)
      ≡ some (add_token token s.source).1
unfolding shared_price
shared_price-with_token source token s names f = ground (
  arith,
  bytes_eq.beq_iff source source,
  lookup-insert source source (record s { source = (add_token token s.source).0 }) f.sources,
  token_price-add_token token s.source,
)

handle_latest-with_token :
    (source token : Bytes) (s : FetchSource) (names : List Bytes) (f : Fetcher)
    → handle_latest source token (with_token source token s names f)
      ≡ latest (add_token token s.source).1
unfolding handle_latest
handle_latest-with_token source token s names f = ground (
  arith,
  bytes_eq.beq_iff source source,
  contains-add_name token names,
  lookup-insert source source (some (add_name token names)) f.price_read_list,
  shared_price-with_token source token s names f,
)

contains-others :
    (token other : Bytes) (names : List Bytes)
    → (token == other) ≡ false
    → contains other (add_name token names) ≡ contains other names
unfolding add_name contains
contains-others token other names differs = ground arith

handle_latest-others :
    (source token other : Bytes) (s : FetchSource) (names : List Bytes) (f : Fetcher)
    → (token == other) ≡ false
    → lookup source f.sources ≡ some s
    → lookup source f.price_read_list ≡ some (some names)
    → handle_latest source other (with_token source token s names f) ≡ handle_latest source other f
unfolding handle_latest shared_price
handle_latest-others source token other s names f differs found readable = ground (
  arith,
  bytes_eq.beq_iff source source,
  contains-others token other names differs,
  lookup-insert source source (some (add_name token names)) f.price_read_list,
  lookup-insert source source (record s { source = (add_token token s.source).0 }) f.sources,
  token_price-others token other s.source differs,
)

handle_latest-elsewhere :
    (source token asked other : Bytes) (s : FetchSource) (names : List Bytes) (f : Fetcher)
    → (source == asked) ≡ false
    → handle_latest asked other (with_token source token s names f) ≡ handle_latest asked other f
unfolding handle_latest shared_price
handle_latest-elsewhere source token asked other s names f differs = ground (
  arith,
  lookup-insert source asked (some (add_name token names)) f.price_read_list,
  lookup-insert source asked (record s { source = (add_token token s.source).0 }) f.sources,
)

-- The prices that the fetcher answers are a map from sources and tokens: a call of
-- `AddTokenForSource` that answers `true` is an insertion. The token has the price that the source
-- has for it, or an empty one where the source did not have the token, and every other token of
-- every source is answered as before. The next `GetLatestPrice` reads that map.
pub add_token_for_source-insert :
    (source token asked other : Bytes) (f f' : Fetcher)
    → add_token_for_source source token f ≡ served f' true
    → (s : FetchSource) × (lookup source f.sources ≡ some s)
      × (handle_latest asked other f' ≡ (
          if source == asked && token == other
          then latest (add_token token s.source).1
          else handle_latest asked other f))
      × (get_latest_price asked other f' ≡ served f' (handle_latest asked other f'))
unfolding add_token_for_source get_latest_price
add_token_for_source-insert source token asked other f f' h =
    let (s, names, found, readable, same) = handle_add-inv source token f f' (ground arith) in
    (
      s,
      found,
      ground (
        arith,
        bytes_eq.beq_iff source asked,
        bytes_eq.beq_iff token other,
        handle_latest-with_token source token s names f,
        handle_latest-others source token other s names f,
        handle_latest-elsewhere source token asked other s names f,
      ),
      ground arith,
    )
