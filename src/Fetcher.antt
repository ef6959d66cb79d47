-- ===== src/Fetcher.antt =====
-- fetcher/fetcher.go: `Fetcher`, the routine that owns the price sources. A source's prices are shared
-- with it by pointer, so the list of readable tokens holds names, whose prices stand in the source.
-- The timers of ten seconds are made where they are read and never fire.
pub mod Snapshot
pub mod Readable
pub mod Init
pub mod Tests
use price_feeder.Prelude.{
  ℕ, List, [], ◌∷◌, Option, none, some, Bool, true, false, ◌||◌, if◌then◌else◌, length, map, Bytes,
  ◌==◌, bytes_eq, nat_eq,
}
use price_feeder.Prelude.Map.{lookup, insert}
use price_feeder.Stakers.{StakerInfos, Stakers}
use price_feeder.Feeder.Price.{PriceInfo}
use price_feeder.Source.{Source, added, not_running, waits, add_token_and_start, start, stop}

-- A source; `stakers` is there for a `SourceNSTInf`.
pub record FetchSource : Type 0 where
  pub source : Source
  pub stakers : Option Stakers

pub record TokenStatus : Type 0 where
  pub name : Bytes
  pub price : PriceInfo
  pub active : Bool

-- The tokens that can be read from a source; `none` is a nil map.
abbrev pub ReadList : Type 0
ReadList = List (Bytes × Option (List Bytes))

-- `serving` tells that the routine runs and waits for requests.
pub record Fetcher : Type 0 where
  pub running : Bool
  pub serving : Bool
  pub sources : List (Bytes × FetchSource)
  pub price_read_list : ReadList
  pub tokens_status : Option (List (Bytes × List (Bytes × TokenStatus)))

-- A request's answer with the new state, the panic of the routine, or no answer.
pub data Served (A : Type 0) : Type 0 where
  served : Fetcher → A → Served A
  crashes : Served A
  no_answer : Served A

unfoldable pub new_fetcher : List (Bytes × FetchSource) → Fetcher
new_fetcher sources = record {
  running = false;
  serving = false;
  sources = sources;
  price_read_list = [];
  tokens_status = none;
}

-- `source.Start` on every source; it gives a nil map where it fails.
unfoldable pub start_sources : List (Bytes × FetchSource) → List (Bytes × FetchSource) × ReadList
start_sources [] = ([], [])
start_sources ((name, s) ∷ rest) =
    let (source, ok) = start s.source in
    let (rest', read_list) = start_sources rest in
    let names = map (λ (entry : Bytes × _). entry.0) source.tokens in
    (
      (name, record s { source = source }) ∷ rest',
      (name, if ok then some names else none) ∷ read_list,
    )

-- `none` is an error: the fetcher runs, or has no sources.
unfoldable pub start_fetcher : Fetcher → Option Fetcher
start_fetcher f =
    let (sources, read_list) = start_sources f.sources in
    if f.running
    then none
    else if length f.sources == 0
    then none
    else some (record f {
      running = true;
      serving = true;
      sources = sources;
      price_read_list = read_list;
    })

unfoldable pub contains : Bytes → List Bytes → Bool
contains name [] = false
contains name (first ∷ names) = first == name || contains name names

-- A name is in a read list once.
unfoldable pub add_name : Bytes → List Bytes → List Bytes
unfolding contains
add_name name names = if contains name names then names else name ∷ names

-- The branch for an added token: the answer, where the routine neither panics nor waits.
unfoldable pub handle_add : Bytes → Bytes → Fetcher → Served Bool
handle_add source token f = elim (lookup source f.sources) [
  | none ↦ served f false
  | some s ↦ elim (add_token_and_start token s.source) [
    | not_running ↦ served f false
    | waits ↦ no_answer
    | added source' price ↦ elim (lookup source f.price_read_list) [
      | some (some names) ↦
          served
            (record f {
              sources = insert source (record s { source = source' }) f.sources;
              price_read_list = insert source (some (add_name token names)) f.price_read_list;
            })
            true
      | _ ↦ crashes
    ]
  ]
]

unfoldable pub add_token_for_source : Bytes → Bytes → Fetcher → Served Bool
unfolding handle_add
add_token_for_source source token f = if f.serving then handle_add source token f else no_answer

-- The channel of the result has no place and no reader: the routine waits for ever.
unfoldable pub add_token_for_source_unblocked : Bytes → Bytes → Fetcher → Served Unit
unfolding handle_add
add_token_for_source_unblocked source token f =
    if f.serving
    then elim (handle_add source token f) [
      | served f' answer ↦ served (record f' { serving = false }) tt
      | crashes ↦ crashes
      | no_answer ↦ no_answer
    ]
    else no_answer

pub data Latest : Type 0 where
  latest : PriceInfo → Latest
  source_not_found : Latest
  token_not_found : Latest

unfoldable pub token_price : Bytes → Source → Option PriceInfo
token_price token s = elim (lookup token s.tokens) [ none ↦ none | some info ↦ some info.price ]

-- `*PriceSync.Get` on the price that the fetcher and the source share.
unfoldable pub shared_price : Bytes → Bytes → Fetcher → Option PriceInfo
unfolding token_price
shared_price source token f = elim (lookup source f.sources) [
  | none ↦ none
  | some s ↦ token_price token s.source
]

unfoldable pub handle_latest : Bytes → Bytes → Fetcher → Latest
unfolding contains shared_price
handle_latest source token f = elim (lookup source f.price_read_list) [
  | some (some names) ↦
      if contains token names
      then elim (shared_price source token f) [ none ↦ token_not_found | some p ↦ latest p ]
      else token_not_found
  | _ ↦ source_not_found
]

unfoldable pub get_latest_price : Bytes → Bytes → Fetcher → Served Latest
unfolding handle_latest
get_latest_price source token f =
    if f.serving then served f (handle_latest source token f) else no_answer

-- The call of a missing source, or of one without stakers, is a call on nil.
unfoldable pub set_nst_stakers : Bytes → StakerInfos → ℕ → ℕ → Fetcher → Served Unit
set_nst_stakers name s_infos version withdraw_version f =
    if f.serving
    then elim (lookup name f.sources) [
      | none ↦ crashes
      | some s ↦ elim s.stakers [
        | none ↦ crashes
        | some stakers ↦
            let stakers' = record stakers {
              s_infos = s_infos;
              version = version;
              withdraw_version = withdraw_version;
            } in
            served
              (record f { sources = insert name (record s { stakers = some stakers' }) f.sources })
              tt
      ]
    ]
    else no_answer

unfoldable pub stop_sources : List (Bytes × FetchSource) → List (Bytes × FetchSource)
stop_sources [] = []
stop_sources ((name, s) ∷ rest) = (name, record s { source = stop s.source }) ∷ stop_sources rest

-- The branch for the stop signal, which ends the routine.
unfoldable pub handle_stop : Fetcher → Fetcher
unfolding stop_sources
handle_stop f =
    if f.serving
    then record f { running = false; serving = false; sources = stop_sources f.sources }
    else f
