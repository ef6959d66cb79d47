-- ===== src/Fetcher/Init.antt =====
-- fetcher/fetcher.go: `Init`, which makes the sources that the configuration names and gives each of
-- them its tokens.
use price_feeder.Prelude.{List, [], ◌∷◌, ◌++◌, none, some, if◌then◌else◌, Bytes, nat_eq, bytes_eq}
use price_feeder.Prelude.Map.{lookup, insert}
use price_feeder.Text.{split, is_space}
use price_feeder.Source.{init_tokens}
use price_feeder.Fetcher.{FetchSource, Fetcher, new_fetcher}

pub record TokenSources : Type 0 where
  pub token : Bytes
  pub sources : Bytes

-- What `SourceInitializers` does for a name: a source, an error, or no entry, whose call panics.
pub data NewSource : Type 0 where
  made : FetchSource → NewSource
  init_error : NewSource
  not_registered : NewSource

unfoldable remove_spaces : Bytes → Bytes
unfolding is_space
remove_spaces [] = []
remove_spaces (c ∷ s) = if is_space c then remove_spaces s else c ∷ remove_spaces s

-- The maps that the loops fill.
pub record Plan : Type 0 where
  pub sources : List (Bytes × FetchSource)
  pub source_tokens : List (Bytes × List Bytes)

pub data Planned : Type 0 where
  planned : Plan → Planned
  plan_error : Planned
  plan_panics : Planned

-- `sourceTokens[sName] = append(sourceTokens[sName], token)`.
unfoldable pub append_token : Bytes → Bytes → Plan → Plan
append_token token name p = elim (lookup name p.source_tokens) [
  | none ↦ record p { source_tokens = insert name (token ∷ []) p.source_tokens }
  | some tokens ↦ record p { source_tokens = insert name (tokens ++ (token ∷ [])) p.source_tokens }
]

module _ (initializers : Bytes → NewSource) where
  -- The loop over the sources of a token.
  unfoldable pub plan_names : Bytes → List Bytes → Plan → Planned
  unfolding append_token
  plan_names token [] p = planned p
  plan_names token (name ∷ names) p = elim (lookup name p.sources) [
    | some source ↦ plan_names token names (append_token token name p)
    | none ↦ elim (initializers name) [
      | init_error ↦ plan_error
      | not_registered ↦ plan_panics
      | made source ↦
          plan_names token names
            (append_token token name (record p { sources = insert name source p.sources }))
    ]
  ]

  unfoldable pub plan_tokens : List TokenSources → Plan → Planned
  unfolding plan_names remove_spaces
  plan_tokens [] p = planned p
  plan_tokens (ts ∷ rest) p = elim (plan_names ts.token (split b',' (remove_spaces ts.sources)) p) [
    | plan_error ↦ plan_error
    | plan_panics ↦ plan_panics
    | planned p' ↦ plan_tokens rest p'
  ]

-- `InitTokens` on every source; a missing one does not happen.
unfoldable pub give_tokens :
    List (Bytes × List Bytes) → List (Bytes × FetchSource) → List (Bytes × FetchSource)
give_tokens [] sources = sources
give_tokens ((name, tokens) ∷ rest) sources = elim (lookup name sources) [
  | none ↦ give_tokens rest sources
  | some s ↦
      give_tokens rest (insert name (record s { source = (init_tokens tokens s.source).0 }) sources)
]

pub data Inited : Type 0 where
  inited : Fetcher → Inited
  fails panics : Inited

unfoldable pub init_fetcher : (Bytes → NewSource) → List TokenSources → Inited
init_fetcher initializers tokens =
    elim (plan_tokens initializers tokens (record { sources = []; source_tokens = [] })) [
      | plan_error ↦ fails
      | plan_panics ↦ panics
      | planned p ↦ inited (new_fetcher (give_tokens p.source_tokens p.sources))
    ]
