-- ===== src/Source/Active.antt =====
-- fetcher/types/types.go: the count of a source's routines.
use price_feeder.Prelude.{
  ℕ, ◌+◌, ◌≡◌, inl, inr, List, [], ◌∷◌, none, some, Bool, true, false, Option-cases, Bytes,
  bytes_eq, arith,
}
use price_feeder.Prelude.Map.{lookup, insert}
use price_feeder.Feeder.Price.{empty_price}
use price_feeder.Source.{
  TokenInfo, Source, Fetch, got, not_configured, fetch_fails, start_fetch_token, add_token, tick,
  reload_config, exit_token, update_sync, stop, finish_stop,
}

abbrev one : Bool → ℕ
one true = 1
one false = 0

-- The tokens whose routine runs.
unfoldable pub active_tokens : List (Bytes × TokenInfo) → ℕ
active_tokens [] = 0
active_tokens ((name, token) ∷ tokens) = one token.active + active_tokens tokens

active_tokens-new :
    (name : Bytes) (token : TokenInfo) (tokens : List (Bytes × TokenInfo))
    → lookup name tokens ≡ none
    → active_tokens (insert name token tokens) ≡ active_tokens tokens + one token.active
unfolding active_tokens lookup insert
active_tokens-new name token [] h = omega arith
active_tokens-new name token ((other, old) ∷ tokens) h =
    ground (arith, active_tokens-new name token tokens)

active_tokens-old :
    (name : Bytes) (token old : TokenInfo) (tokens : List (Bytes × TokenInfo))
    → lookup name tokens ≡ some old
    → active_tokens (insert name token tokens) + one old.active
      ≡ active_tokens tokens + one token.active
unfolding active_tokens lookup insert
active_tokens-old name token old [] h = ground arith
active_tokens-old name token old ((other, x) ∷ tokens) h =
    ground (arith, active_tokens-old name token old tokens)

-- What happens to a source that was started: a token is added, a token's routine ticks or ends, a
-- configuration is reloaded, and the source is stopped and ends.
pub data SourceEvent : Type 0 where
  adds : Bytes → SourceEvent
  ticks : Bytes → Fetch → SourceEvent
  exits : Bytes → SourceEvent
  reloads stops ends : SourceEvent

pub handle : SourceEvent → Source → Source
handle (adds name) s = (add_token name s).0
handle (ticks name fetch) s = tick name fetch s
handle (exits name) s = exit_token name s
handle reloads s = (reload_config s).0
handle stops s = stop s
handle ends s = finish_stop s

pub handle_all : List SourceEvent → Source → Source
handle_all [] s = s
handle_all (e ∷ es) s = handle_all es (handle e s)

abbrev pub IsCounted : Source → Type 0
IsCounted s = s.active_token_count ≡ active_tokens s.tokens

tick-IsCounted :
    (name : Bytes) (fetch : Fetch) (s : Source) → IsCounted s → IsCounted (tick name fetch s)
unfolding tick
tick-IsCounted name (got price) s counted = elim (Option-cases (lookup name s.tokens)) [
  | inl absent ↦ ground arith
  | inr (token, found) ↦ ground (
    arith,
    active_tokens-old name (record token { price = (update_sync price token.price).0 }) token
        s.tokens found,
  )
]
tick-IsCounted name not_configured s counted = ground arith
tick-IsCounted name fetch_fails s counted = counted

handle-IsCounted : (e : SourceEvent) (s : Source) → IsCounted s → IsCounted (handle e s)
unfolding handle add_token start_fetch_token reload_config exit_token stop finish_stop
handle-IsCounted (adds name) s counted = elim (Option-cases (lookup name s.tokens)) [
  | inl absent ↦ ground (
    arith,
    active_tokens-new name (record { name = name; price = empty_price; active = true }) s.tokens
        absent,
  )
  | inr (token, found) ↦ ground arith
]
handle-IsCounted (ticks name fetch) s counted = tick-IsCounted name fetch s counted
handle-IsCounted (exits name) s counted = elim (Option-cases (lookup name s.tokens)) [
  | inl absent ↦ ground arith
  | inr (token, found) ↦
      ground (arith, active_tokens-old name (record token { active = false }) token s.tokens found)
]
handle-IsCounted reloads s counted = counted
handle-IsCounted stops s counted = counted
handle-IsCounted ends s counted = ground arith

-- Whatever happens to a source: where the count of the routines was that of the active tokens, it
-- still is.
pub handle_all-IsCounted :
    (es : List SourceEvent) (s : Source)
    → s.active_token_count ≡ active_tokens s.tokens
    → (handle_all es s).active_token_count ≡ active_tokens (handle_all es s).tokens
unfolding handle_all
handle_all-IsCounted [] s counted = counted
handle_all-IsCounted (e ∷ es) s counted =
    handle_all-IsCounted es (handle e s) (handle-IsCounted e s counted)
