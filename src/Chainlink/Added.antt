-- ===== src/Chainlink/Added.antt =====
-- fetcher/chainlink: what `addToken` leaves for `fetch`, and what a failed dial leaves for `reload`.
use price_feeder.Prelude.{
  ◌≡◌, refl, sym, subst, List, [], ◌∷◌, Option, none, some, true, false, if◌then◌else◌, length,
  Bytes, ◌==◌, nat_eq, bytes_eq, arith, Option-cases, inl, inr,
}
use price_feeder.Prelude.Map.{lookup, insert, lookup-insert}
use price_feeder.Text.{split, trim_space}
use price_feeder.Feeders.Setup.{to_lower}
use price_feeder.Chainlink.{
  call_panics, Chains, Proxy, Outcome, succeeds, fails, panics, client_of, is_address,
  is_contract_address, add_client, bind, add_one, add_tokens, price_of_aggregator, full_name, fetch,
}

-- The last address that the tokens give a name.
abbrev pub last_address : Bytes → List (Bytes × Bytes) → Option Bytes
last_address name [] = none
last_address name ((token, address) ∷ rest) = elim (last_address name rest) [
  | some later ↦ some later
  | none ↦ if to_lower token == name then some address else none
]

module _ {C A : Type 0} (chains : Chains C A) where
  -- The binding of an address and a network.
  abbrev pub binding_at : List Bytes → List (Bytes × Option C) → Option A
  binding_at (address ∷ network ∷ _) clients =
      chains.new_aggregator address (client_of network clients)
  binding_at _ clients = none

  bind_lem :
      (token address network : Bytes) (p p' : Proxy C A) (made : Option A)
      → chains.new_aggregator address (client_of network p.clients) ≡ made
      → bind chains token address network p ≡ succeeds p'
      → (a : A) × (made ≡ some a)
        × (p' ≡ record p { aggregators = insert (to_lower token) (some a) p.aggregators })
  unfolding bind
  bind_lem token address network p p' none e h = absurd (ground arith)
  bind_lem token address network p p' (some a) e h = (a, refl, ground arith)

  add_one_lem :
      (token : Bytes) (parts : List Bytes) (p p' : Proxy C A)
      → add_one chains token parts p ≡ succeeds p'
      → (a : A) × (binding_at parts p.clients ≡ some a)
        × (p' ≡ record p { aggregators = insert (to_lower token) (some a) p.aggregators })
  unfolding add_one
  add_one_lem token [] p p' h = absurd (ground arith)
  add_one_lem token (address ∷ []) p p' h = absurd (ground arith)
  add_one_lem token (address ∷ network ∷ rest) p p' h =
      bind_lem token address network p p'
        (chains.new_aggregator address (client_of network p.clients)) refl h

  first_added :
      (token address : Bytes) (rest : List (Bytes × Bytes)) (p p' : Proxy C A) (first : Outcome C A)
      → add_one chains token (split b'_' (trim_space address)) p ≡ first
      → add_tokens chains ((token, address) ∷ rest) p ≡ succeeds p'
      → (q : Proxy C A) × (first ≡ succeeds q) × (add_tokens chains rest q ≡ succeeds p')
  unfolding add_tokens
  first_added token address rest p p' (succeeds q) e h = (q, refl, ground arith)
  first_added token address rest p p' (fails q) e h = absurd (ground arith)
  first_added token address rest p p' panics e h = absurd (ground arith)

  add_tokens-cons :
      (token address : Bytes) (rest : List (Bytes × Bytes)) (p p' : Proxy C A)
      → add_tokens chains ((token, address) ∷ rest) p ≡ succeeds p'
      → (a : A) × (binding_at (split b'_' (trim_space address)) p.clients ≡ some a)
        × (add_tokens chains rest
              (record p { aggregators = insert (to_lower token) (some a) p.aggregators })
            ≡ succeeds p')
  add_tokens-cons token address rest p p' h =
      let parts = split b'_' (trim_space address) in
      let (q, added, more) =
        first_added token address rest p p' (add_one chains token parts p) refl h in
      let (a, bound, stored) = add_one_lem token parts p q added in
      (a, bound, subst (λ q'. add_tokens chains rest q' ≡ succeeds p') stored more)

  add_tokens-others :
      (tokens : List (Bytes × Bytes)) (p p' : Proxy C A) (name : Bytes)
      → add_tokens chains tokens p ≡ succeeds p'
      → last_address name tokens ≡ none
      → lookup name p'.aggregators ≡ lookup name p.aggregators
  unfolding add_tokens
  add_tokens-others [] p p' name h absent = ground arith
  add_tokens-others ((token, address) ∷ rest) p p' name h absent =
      let (a, bound, more) = add_tokens-cons token address rest p p' h in
      let q = record p { aggregators = insert (to_lower token) (some a) p.aggregators } in
      ground (
        arith,
        add_tokens-others rest q p' name more (ground arith),
        lookup-insert (to_lower token) name (some a) p.aggregators,
      )

  add_tokens-stored :
      (tokens : List (Bytes × Bytes)) (p p' : Proxy C A) (name address : Bytes)
      → add_tokens chains tokens p ≡ succeeds p'
      → last_address name tokens ≡ some address
      → (a : A) × (binding_at (split b'_' (trim_space address)) p.clients ≡ some a)
        × (lookup name p'.aggregators ≡ some (some a))
  unfolding add_tokens
  add_tokens-stored [] p p' name address h given = absurd (ground arith)
  add_tokens-stored ((token, first) ∷ rest) p p' name address h given =
      let (a, bound, more) = add_tokens-cons token first rest p p' h in
      let q = record p { aggregators = insert (to_lower token) (some a) p.aggregators } in
      elim (Option-cases (last_address name rest)) [
        | inr (later, found) ↦ add_tokens-stored rest q p' name address more (ground arith)
        | inl absent ↦
            let same : first ≡ address = ground arith in
            (
              a,
              rw (sym same) bound,
              ground (
                arith,
                add_tokens-others rest q p' name more absent,
                lookup-insert (to_lower token) name (some a) p.aggregators,
              ),
            )
      ]

  -- Where all tokens are added and a token's full name has an address among them, a binding was made at
  -- the last of these addresses, and a fetch of the token gives its price.
  pub added_price :
      (tokens : List (Bytes × Bytes)) (p p' : Proxy C A) (token address : Bytes)
      → add_tokens chains tokens p ≡ succeeds p'
      → last_address (full_name token) tokens ≡ some address
      → (a : A) × (binding_at (split b'_' (trim_space address)) p.clients ≡ some a)
        × (fetch chains token p' ≡ price_of_aggregator chains (some a))
  unfolding fetch
  added_price tokens p p' token address h given =
      let (a, bound, stored) = add_tokens-stored tokens p p' (full_name token) address h given in
      (a, bound, ground (arith, stored))

  is_contract_address-nil :
      (address : Bytes)
      → is_address address ≡ true
      → chains.code_at none address ≡ call_panics
      → is_contract_address chains address none ≡ call_panics
  unfolding is_contract_address is_address
  is_contract_address-nil [] valid nil_panics = absurd (ground arith)
  is_contract_address-nil (c ∷ s) valid nil_panics =
      ground (arith, nat_eq.beq_iff (length (c ∷ s)) 0)

  bind-nil :
      (token address network : Bytes) (p : Proxy C A)
      → client_of network p.clients ≡ none
      → is_address address ≡ true
      → chains.code_at none address ≡ call_panics
      → bind chains token address network p ≡ panics
  unfolding bind
  bind-nil token address network p missing valid nil_panics =
      let checked : is_contract_address chains address (client_of network p.clients) ≡ call_panics =
        rw missing (is_contract_address-nil address valid nil_panics) in
      ground (arith, checked)

  -- A new network with a URL whose dial fails is an error and is stored as nil; a second attempt with any
  -- URL then succeeds without a dial, and the binding of a token to an address of the network panics
  -- where the query for the code at that address panics on a nil client.
  pub failed_dial :
      (network url again address : Bytes) (p : Proxy C A)
      → lookup network p.clients ≡ none
      → (length url == 0) ≡ false
      → chains.dial url ≡ none
      → is_address address ≡ true
      → chains.code_at none address ≡ call_panics
      → (p' : Proxy C A) × (add_client chains network url p ≡ (p', false))
        × (add_client chains network again p' ≡ (p', true))
        × ((token : Bytes) → bind chains token address network p' ≡ panics)
  unfolding add_client
  failed_dial network url again address p unknown set fails_dial valid nil_panics =
      let p' = record p { clients = insert network none p.clients } in
      let stored = lookup-insert network network none p.clients in
      let same = bytes_eq.beq_iff network network in
      (
        p',
        ground arith,
        ground (arith, stored, same),
        λ token. bind-nil token address network p' (ground (arith, stored, same)) valid nil_panics,
      )
