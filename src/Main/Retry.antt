-- ===== src/Main/Retry.antt =====
-- internal/feeder/feeder.go, internal/types/types.go and internal/debugger/feeder_debug.go: the
-- retries at the start. The interval between two attempts is left aside.
use price_feeder.Prelude.{
  ℕ, zero, suc, ◌+◌, ◌-◌, ◌<◌, ◌≤◌, ◌≡◌, refl, Option, none, some, Bool, true, false, ltb,
  if◌then◌else◌, arith, Bool-cases, inl, inr,
}
use price_feeder.Prelude.Int.{ℤ, pos}
use price_feeder.Feeder.Handlers.{Params}

-- What `GetOracleParamsWithMaxRetry` returns: parameters, the last error, or nil for both where it
-- made no attempt.
pub data ParamsResult : Type 0 where
  params : Params → ParamsResult
  params_error : ParamsResult
  no_attempt : ParamsResult

-- The loop with the attempts that are left and the result so far; `get` numbers the attempts.
unfoldable pub get_params_loop : (ℕ → Option Params) → ℕ → ℕ → ParamsResult → ParamsResult
get_params_loop get zero i last = last
get_params_loop get (suc left) i last =
    let again = get_params_loop get left (suc i) params_error in
    elim (get i) [ some p ↦ params p | none ↦ again ]

-- A limit that is not positive stands for the configured one, which is not negative here.
unfoldable pub get_oracle_params_with_max_retry : ℤ → ℕ → (ℕ → Option Params) → ParamsResult
unfolding get_params_loop
get_oracle_params_with_max_retry (pos (suc n)) configured get =
    get_params_loop get (suc n) 0 no_attempt
get_oracle_params_with_max_retry z configured get = get_params_loop get configured 0 no_attempt

-- What `imuaclient.Init` does at an attempt.
pub data ClientInit : Type 0 where
  client_ready : ClientInit
  connection_failed : ClientInit
  client_error : ClientInit

-- What `initComponents` returns: an error, or nil, and whether there is a client then.
pub data InitResult : Type 0 where
  init_error : InitResult
  returns_nil : (client : Bool) → InitResult

-- `limit` is `DefaultRetryConfig.MaxAttempts`.
module _ (limit : ℕ) (fetcher_init : ℕ → Bool) (client_init : ℕ → ClientInit)
    (get : ℕ → Option Params) where
  -- After the client: the parameters must be there.
  unfoldable pub check_params : InitResult
  unfolding get_oracle_params_with_max_retry
  check_params = elim (get_oracle_params_with_max_retry (pos limit) limit get) [
    | params p ↦ returns_nil true
    | params_error ↦ init_error
    | no_attempt ↦ returns_nil true
  ]

  -- The loop, with the attempts that are left and their count.
  unfoldable pub init_attempts : ℕ → ℕ → InitResult
  unfolding check_params
  init_attempts zero count = returns_nil false
  init_attempts (suc left) count =
      let again = init_attempts left (suc count) in
      if fetcher_init count
      then elim (client_init count) [
        | client_ready ↦ check_params
        | connection_failed ↦ again
        | client_error ↦ init_error
      ]
      else init_error

  unfoldable pub init_components : InitResult
  unfolding init_attempts
  init_components = init_attempts limit 0

  init_attempts-failed :
      (k total left count next : ℕ)
      → total ≡ k + left
      → next ≡ count + k
      → ((i : ℕ) → count ≤ i → i < next → fetcher_init i ≡ true)
      → ((i : ℕ) → count ≤ i → i < next → client_init i ≡ connection_failed)
      → init_attempts total count ≡ init_attempts left next
  unfolding init_attempts
  init_attempts-failed zero total left count next e f fetchers connections =
      let same_total : total ≡ left = omega arith in
      let same_count : next ≡ count = omega arith in cc
  init_attempts-failed (suc k) zero left count next e f fetchers connections = absurd (omega arith)
  init_attempts-failed (suc k) (suc total) left count next e f fetchers connections = ground (
    arith,
    fetchers count (omega arith) (omega arith),
    connections count (omega arith) (omega arith),
    init_attempts-failed k total left (suc count) next (omega arith) (omega arith)
        (λ i from to. fetchers i (omega arith) to) (λ i from to. connections i (omega arith) to),
  )

  get_params-first :
      (p : Params) (n : ℕ)
      → 0 < n
      → get 0 ≡ some p
      → get_oracle_params_with_max_retry (pos n) n get ≡ params p
  unfolding get_oracle_params_with_max_retry get_params_loop
  get_params-first p zero positive answer = absurd (omega arith)
  get_params-first p (suc n) positive answer = ground (arith, answer)

  check_params-ready : (p : Params) → 0 < limit → get 0 ≡ some p → check_params ≡ returns_nil true
  unfolding check_params
  check_params-ready p positive answer = ground (arith, get_params-first p limit positive answer)

  init_attempts-none : (left next : ℕ) → left ≡ 0 → init_attempts left next ≡ returns_nil false
  unfolding init_attempts
  init_attempts-none zero next e = refl
  init_attempts-none (suc left) next e = absurd (omega arith)

  init_attempts-ready :
      (p : Params) (left next : ℕ)
      → 0 < left
      → 0 < limit
      → fetcher_init next ≡ true
      → client_init next ≡ client_ready
      → get 0 ≡ some p
      → init_attempts left next ≡ returns_nil true
  unfolding init_attempts
  init_attempts-ready p zero next positive some_attempt made ready answer = absurd (omega arith)
  init_attempts-ready p (suc left) next positive some_attempt made ready answer =
      ground (arith, check_params-ready p some_attempt answer)

  -- The fetcher is made at every attempt, the first `k` attempts fail to connect, and the next one, if
  -- the limit leaves it, gets a client and the parameters at once: `initComponents` returns without an
  -- error, and there is a client exactly where fewer attempts than the limit failed.
  pub init_components-connections :
      (k : ℕ) (p : Params)
      → k ≤ limit
      → ((i : ℕ) → 0 ≤ i → i ≤ k → fetcher_init i ≡ true)
      → ((i : ℕ) → 0 ≤ i → i < k → client_init i ≡ connection_failed)
      → client_init k ≡ client_ready
      → get 0 ≡ some p
      → init_components ≡ returns_nil (ltb k limit)
  unfolding init_components
  init_components-connections k p few fetchers connections ready answer =
      let skip =
        init_attempts-failed k limit (limit - k) 0 k (omega arith) (omega arith)
          (λ i from to. fetchers i from (omega arith)) connections in
      elim (Bool-cases (ltb k limit)) [
        | inl more ↦ ground (
          arith,
          skip,
          init_attempts-ready p (limit - k) k (ground arith) (ground arith)
              (fetchers k (omega arith) (omega arith)) ready answer,
        )
        | inr last ↦ ground (arith, skip, init_attempts-none (limit - k) k (ground arith))
      ]
