-- ===== src/Fetcher/Snapshot/Shown.antt =====
-- fetcher/fetcher.go: what `GetTokensStatus` shows after a tick.
use price_feeder.Prelude.{
  ◌≡◌, refl, inl, inr, List, [], ◌∷◌, Option, none, some, Bool, true, false, Bytes, bytes_eq,
  Option-cases, arith,
}
use price_feeder.Prelude.Map.{lookup, IsMap, lookup-insert}
use price_feeder.Feeder.Price.{PriceInfo}
use price_feeder.Fetcher.{FetchSource, TokenStatus, ReadList, Fetcher, shared_price, contains}
use price_feeder.Fetcher.Snapshot.{
  token_statuses, put_tokens, copy_source, price_update, reset_price_update, reset_source,
  copy_status, tick_status, any_update, price_update-reset, copy_source-others, copy_status-stale,
  copy_status-update,
}

abbrev pub status_of : Bytes → PriceInfo → TokenStatus
status_of token p = record { name = token; price = p; active = true }

shared_price-reset :
    (name source token : Bytes) (f : Fetcher)
    → shared_price source token (reset_source name f) ≡ shared_price source token f
unfolding shared_price reset_price_update
shared_price-reset name source token f = elim (Option-cases (lookup name f.sources)) [
  | inl absent ↦ ground arith
  | inr (s, found) ↦ ground (
    arith,
    bytes_eq.beq_iff name source,
    lookup-insert name source (record s { source = record s.source { price_update = false } })
        f.sources,
  )
]

lookup-token_statuses :
    (source token : Bytes) (p : PriceInfo) (f : Fetcher) (tokens : List Bytes)
    → contains token tokens ≡ true
    → shared_price source token f ≡ some p
    → lookup token (token_statuses source f tokens) ≡ some (status_of token p)
unfolding contains token_statuses
lookup-token_statuses source token p f [] has_token shared = ground arith
lookup-token_statuses source token p f (first ∷ tokens) has_token shared =
    elim (Option-cases (shared_price source first f)) [
      | inl absent ↦
          ground
            (arith, bytes_eq.beq_iff first token, lookup-token_statuses source token p f tokens)
      | inr (q, found) ↦ ground (
        arith,
        bytes_eq.beq_iff first token,
        lookup-token_statuses source token p f tokens,
        lookup-insert first token (status_of first q) (token_statuses source f tokens),
      )
    ]

lookup-put_tokens :
    (source token : Bytes) (status : TokenStatus) (statuses : List (Bytes × TokenStatus))
    (cpy : List (Bytes × List (Bytes × TokenStatus)))
    → lookup token statuses ≡ some status
    → lookup source (put_tokens source statuses cpy) ≡ some statuses
unfolding put_tokens lookup
lookup-put_tokens source token status [] cpy found = ground arith
lookup-put_tokens source token status (first ∷ more) cpy found =
    ground (arith, bytes_eq.beq_iff source source, lookup-insert source source (first ∷ more) cpy)

copy_status-absent :
    (source : Bytes) (read_list : ReadList) (f : Fetcher)
    (cpy : List (Bytes × List (Bytes × TokenStatus))) (update : Bool)
    → lookup source read_list ≡ none
    → lookup source (copy_status read_list f cpy update).1 ≡ lookup source cpy
unfolding copy_status lookup
copy_status-absent source [] f cpy update absent = refl
copy_status-absent source ((name, names) ∷ rest) f cpy update absent = ground (
  arith,
  copy_source-others name source names f cpy,
  copy_status-absent source rest f cpy update,
  copy_status-absent source rest (reset_source name f) (copy_source name names f cpy) true,
)

copy_source-shown :
    (source token : Bytes) (p : PriceInfo) (tokens : List Bytes) (f : Fetcher)
    (cpy : List (Bytes × List (Bytes × TokenStatus)))
    → contains token tokens ≡ true
    → shared_price source token f ≡ some p
    → lookup source (copy_source source (some tokens) f cpy) ≡ some (token_statuses source f tokens)
unfolding copy_source
copy_source-shown source token p tokens f cpy has_token shared =
    lookup-put_tokens source token (status_of token p) (token_statuses source f tokens) cpy
      (lookup-token_statuses source token p f tokens has_token shared)

-- The status of a token in a copy.
abbrev pub status_in :
    Bytes → Bytes → List (Bytes × List (Bytes × TokenStatus)) → Option TokenStatus
status_in source token cpy = elim (lookup source cpy) [
  | none ↦ none
  | some statuses ↦ lookup token statuses
]

copy_status-shown :
    (source token : Bytes) (p : PriceInfo) (tokens : List Bytes) (read_list : ReadList)
    (f : Fetcher) (cpy : List (Bytes × List (Bytes × TokenStatus))) (update : Bool)
    → IsMap read_list
    → lookup source read_list ≡ some (some tokens)
    → contains token tokens ≡ true
    → shared_price source token f ≡ some p
    → price_update source f.sources ≡ true
    → status_in source token (copy_status read_list f cpy update).1 ≡ some (status_of token p)
unfolding copy_status lookup
copy_status-shown source token p tokens [] f cpy update distinct found has_token shared changed =
    ground arith
copy_status-shown source token p tokens ((name, names) ∷ rest) f cpy update distinct found has_token
      shared changed =
    ground (
      arith,
      bytes_eq.beq_iff name source,
      distinct.0,
      copy_source-shown source token p tokens f cpy has_token shared,
      lookup-token_statuses source token p f tokens has_token shared,
      copy_status-absent source rest (reset_source name f) (copy_source name names f cpy) true,
      shared_price-reset name source token f,
      price_update-reset name source f.sources,
      copy_status-shown source token p tokens rest f cpy update distinct.1,
      copy_status-shown source token p tokens rest (reset_source name f)
          (copy_source name names f cpy) true distinct.1,
    )

any_update-lookup :
    (source : Bytes) (names : Option (List Bytes)) (read_list : ReadList)
    (sources : List (Bytes × FetchSource))
    → lookup source read_list ≡ some names
    → price_update source sources ≡ true
    → any_update read_list sources ≡ true
unfolding any_update lookup
any_update-lookup source names [] sources found changed = ground arith
any_update-lookup source names ((name, first) ∷ rest) sources found changed =
    ground (arith, bytes_eq.beq_iff name source, any_update-lookup source names rest sources)

-- A tick of a fetcher that serves, where a source that can be read changed a price, stores a new
-- status: a token that can be read from that source is shown with the price that the source holds,
-- and a source that changed no price is missing from the status.
pub tick_status-shown :
    (f : Fetcher) (source token stale : Bytes) (tokens : List Bytes) (p : PriceInfo)
    → f.serving ≡ true
    → IsMap f.price_read_list
    → lookup source f.price_read_list ≡ some (some tokens)
    → contains token tokens ≡ true
    → shared_price source token f ≡ some p
    → price_update source f.sources ≡ true
    → price_update stale f.sources ≡ false
    → (cpy : List (Bytes × List (Bytes × TokenStatus))) × ((tick_status f).tokens_status ≡ some cpy)
      × (status_in source token cpy ≡ some (status_of token p))
      × (lookup stale cpy ≡ none)
unfolding tick_status lookup
tick_status-shown f source token stale tokens p serving distinct found has_token shared changed
      unchanged =
    (
      (copy_status f.price_read_list f [] false).1,
      ground (
        arith,
        any_update-lookup source (some tokens) f.price_read_list f.sources found changed,
        copy_status-update f.price_read_list f [] false,
      ),
      copy_status-shown source token p tokens f.price_read_list f [] false distinct found has_token
          shared changed,
      copy_status-stale stale f.price_read_list f [] false unchanged,
    )
