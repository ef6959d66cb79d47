-- ===== src/Fetcher/Snapshot.antt =====
-- fetcher/fetcher.go: the branch for the ticker, which stores what `GetTokensStatus` shows.
pub mod Shown
use price_feeder.Prelude.{
  ◌≡◌, refl, inl, inr, List, [], ◌∷◌, Option, none, some, Bool, true, false, ◌||◌, if◌then◌else◌,
  Bytes, ◌==◌, bytes_eq, Option-cases, arith,
}
use price_feeder.Prelude.Map.{lookup, insert, lookup-insert}
use price_feeder.Fetcher.{FetchSource, TokenStatus, ReadList, Fetcher, shared_price}

-- The loop over the tokens of a source.
unfoldable pub token_statuses : Bytes → Fetcher → List Bytes → List (Bytes × TokenStatus)
token_statuses source f [] = []
token_statuses source f (token ∷ tokens) =
    let rest = token_statuses source f tokens in
    elim (shared_price source token f) [
      | none ↦ rest
      | some price ↦ insert token (record { name = token; price = price; active = true }) rest
    ]

-- `PriceUpdate` of a source; a missing one is a call on nil, which does not happen to a name of
-- the read list.
unfoldable pub price_update : Bytes → List (Bytes × FetchSource) → Bool
price_update name sources = elim (lookup name sources) [
  | none ↦ false
  | some s ↦ s.source.price_update
]

unfoldable pub reset_price_update : Bytes → List (Bytes × FetchSource) → List (Bytes × FetchSource)
reset_price_update name sources = elim (lookup name sources) [
  | none ↦ sources
  | some s ↦ insert name (record s { source = record s.source { price_update = false } }) sources
]

-- The tokens of a source go into the copy where there are any.
unfoldable put_tokens :
    Bytes
    → List (Bytes × TokenStatus)
    → List (Bytes × List (Bytes × TokenStatus))
    → List (Bytes × List (Bytes × TokenStatus))
put_tokens name [] cpy = cpy
put_tokens name (status ∷ more) cpy = insert name (status ∷ more) cpy

unfoldable pub copy_source :
    Bytes
    → Option (List Bytes)
    → Fetcher
    → List (Bytes × List (Bytes × TokenStatus))
    → List (Bytes × List (Bytes × TokenStatus))
unfolding token_statuses put_tokens
copy_source name none f cpy = cpy
copy_source name (some tokens) f cpy = put_tokens name (token_statuses name f tokens) cpy

abbrev reset_source : Bytes → Fetcher → Fetcher
reset_source name f = record f { sources = reset_price_update name f.sources }

-- The loop over the read list: the copy that is being filled, and whether a source was updated.
unfoldable pub copy_status :
    ReadList
    → Fetcher
    → List (Bytes × List (Bytes × TokenStatus))
    → Bool
    → Fetcher × List (Bytes × List (Bytes × TokenStatus)) × Bool
unfolding copy_source price_update reset_price_update
copy_status [] f cpy update = (f, cpy, update)
copy_status ((name, names) ∷ rest) f cpy update =
    let skipped = copy_status rest f cpy update in
    let copied = copy_status rest (reset_source name f) (copy_source name names f cpy) true in
    if price_update name f.sources then copied else skipped

unfoldable pub tick_status : Fetcher → Fetcher
unfolding copy_status
tick_status f =
    let (f', cpy, update) = copy_status f.price_read_list f [] false in
    if f.serving then (if update then record f' { tokens_status = some cpy } else f') else f

-- Whether a source of the read list changed a price.
unfoldable pub any_update : ReadList → List (Bytes × FetchSource) → Bool
unfolding price_update
any_update [] sources = false
any_update ((name, names) ∷ rest) sources = price_update name sources || any_update rest sources

price_update-reset :
    (name asked : Bytes) (sources : List (Bytes × FetchSource))
    → price_update asked (reset_price_update name sources)
      ≡ (if name == asked then false else price_update asked sources)
unfolding price_update reset_price_update
price_update-reset name asked sources = elim (Option-cases (lookup name sources)) [
  | inl absent ↦ ground (arith, bytes_eq.beq_iff name asked)
  | inr (s, found) ↦ ground (
    arith,
    bytes_eq.beq_iff name asked,
    lookup-insert name asked (record s { source = record s.source { price_update = false } })
        sources,
  )
]

put_tokens-others :
    (name asked : Bytes) (statuses : List (Bytes × TokenStatus))
    (cpy : List (Bytes × List (Bytes × TokenStatus)))
    → (name == asked) ≡ false
    → lookup asked (put_tokens name statuses cpy) ≡ lookup asked cpy
unfolding put_tokens
put_tokens-others name asked [] cpy other = refl
put_tokens-others name asked (status ∷ more) cpy other =
    ground (arith, lookup-insert name asked (status ∷ more) cpy)

copy_source-others :
    (name asked : Bytes) (names : Option (List Bytes)) (f : Fetcher)
    (cpy : List (Bytes × List (Bytes × TokenStatus)))
    → (name == asked) ≡ false
    → lookup asked (copy_source name names f cpy) ≡ lookup asked cpy
unfolding copy_source
copy_source-others name asked none f cpy other = refl
copy_source-others name asked (some tokens) f cpy other =
    put_tokens-others name asked (token_statuses name f tokens) cpy other

copy_status-stale :
    (asked : Bytes) (read_list : ReadList) (f : Fetcher)
    (cpy : List (Bytes × List (Bytes × TokenStatus))) (update : Bool)
    → price_update asked f.sources ≡ false
    → lookup asked (copy_status read_list f cpy update).1 ≡ lookup asked cpy
unfolding copy_status
copy_status-stale asked [] f cpy update stale = refl
copy_status-stale asked ((name, names) ∷ rest) f cpy update stale = ground (
  arith,
  bytes_eq.beq_iff name asked,
  price_update-reset name asked f.sources,
  copy_source-others name asked names f cpy,
  copy_status-stale asked rest f cpy update stale,
  copy_status-stale asked rest (reset_source name f) (copy_source name names f cpy) true,
)

copy_status-update :
    (read_list : ReadList) (f : Fetcher) (cpy : List (Bytes × List (Bytes × TokenStatus)))
    (update : Bool)
    → any_update read_list f.sources || update ≡ true
    → (copy_status read_list f cpy update).2 ≡ true
unfolding copy_status any_update
copy_status-update [] f cpy update h = h
copy_status-update ((name, names) ∷ rest) f cpy update h = ground (
  arith,
  copy_status-update rest f cpy update,
  copy_status-update rest (reset_source name f) (copy_source name names f cpy) true,
)
