-- ===== src/Chainlink/Reload.antt =====
-- fetcher/chainlink: the name that `reload` looks for and the one that `fetch` looks up.
use price_feeder.Prelude.{
  suc, ◌≡◌, refl, ap, List, [], ◌∷◌, ◌++◌, Option, none, some, true, false, length, Bytes, ◌==◌,
  length-append, nat_eq, bytes_eq, arith, Bool-cases, inl, inr, codes,
}
use price_feeder.Prelude.Map.{lookup, insert, lookup-insert}
use price_feeder.Text.{split, trim_space}
use price_feeder.Source.{not_configured}
use price_feeder.Feeders.Setup.{to_lower, has_suffix}
use price_feeder.Chainlink.{
  Chains, Proxy, Config, Outcome, succeeds, fails, panics, client_of, add_client, add_clients, bind,
  add_one, add_tokens, reload_token, reload, full_name, fetch,
}

length-to_lower : (s : Bytes) → length (to_lower s) ≡ length s
unfolding to_lower
length-to_lower [] = refl
length-to_lower (c ∷ s) = ap suc (length-to_lower s)

-- A name without the suffix is no lower-case form of the full name.
lower-full_name :
    (name token : Bytes)
    → has_suffix token (codes "usdt") ≡ false
    → to_lower name ≡ to_lower token
    → (to_lower (to_lower name) == full_name token) ≡ false
unfolding full_name
lower-full_name name token bare same =
    elim (Bool-cases (to_lower (to_lower name) == full_name token)) [
      | inr other ↦ other
      | inl equal ↦
          let texts : to_lower (to_lower name) ≡ token ++ codes "usdt" =
            ground (arith, bytes_eq.beq_iff (to_lower (to_lower name)) (full_name token)) in
          let lengths = ap length texts in
          absurd (
            omega (
              arith,
              lengths,
              ap length same,
              length-to_lower (to_lower name),
              length-to_lower name,
              length-to_lower token,
              length-append token (codes "usdt"),
            ))
    ]

module _ {C A : Type 0} (chains : Chains C A) where
  add_client-aggregators :
      (network url : Bytes) (p : Proxy C A)
      → (add_client chains network url p).0.aggregators ≡ p.aggregators
  unfolding add_client
  add_client-aggregators network url p = ground arith

  add_clients-aggregators :
      (urls : List (Bytes × Bytes)) (p : Proxy C A)
      → (add_clients chains urls p).0.aggregators ≡ p.aggregators
  unfolding add_clients
  add_clients-aggregators [] p = refl
  add_clients-aggregators ((network, url) ∷ rest) p =
      let next = add_client chains (to_lower network) url p in
      elim (Bool-cases next.1) [
        | inl ok ↦ ground (
          arith,
          add_client-aggregators (to_lower network) url p,
          add_clients-aggregators rest next.0,
        )
        | inr failed ↦ ground (arith, add_client-aggregators (to_lower network) url p)
      ]

  -- The proxy that an outcome leaves under a name; a panic leaves none.
  Left : Bytes → Proxy C A → Outcome C A → Type 0
  Left name p (succeeds q) = lookup name q.aggregators ≡ lookup name p.aggregators
  Left name p (fails q) = lookup name q.aggregators ≡ lookup name p.aggregators
  Left name p panics = Unit

  stores-Left :
      (token name : Bytes) (p : Proxy C A) (made : Option A)
      → (to_lower token == name) ≡ false
      → lookup name (insert (to_lower token) made p.aggregators) ≡ lookup name p.aggregators
  stores-Left token name p made other =
      ground (arith, lookup-insert (to_lower token) name made p.aggregators)

  checked-Left :
      (token address network name : Bytes) (p : Proxy C A) (o : Outcome C A)
      → (to_lower token == name) ≡ false
      → bind chains token address network p ≡ o
      → Left name p o
  unfolding bind Left
  checked-Left token address network name p (succeeds q) other h = ground (
    arith,
    stores-Left token name p (chains.new_aggregator address (client_of network p.clients)) other,
  )
  checked-Left token address network name p (fails q) other h = ground (
    arith,
    stores-Left token name p (chains.new_aggregator address (client_of network p.clients)) other,
  )
  checked-Left token address network name p panics other h = tt

  add_one-Left :
      (token name : Bytes) (parts : List Bytes) (p : Proxy C A)
      → (to_lower token == name) ≡ false
      → Left name p (add_one chains token parts p)
  unfolding add_one Left
  add_one-Left token name [] p other = tt
  add_one-Left token name (address ∷ []) p other = tt
  add_one-Left token name (address ∷ network ∷ rest) p other =
      checked-Left token address network name p (bind chains token address network p) other refl

  found-Left :
      (token name address full : Bytes) (rest : List (Bytes × Bytes)) (p q : Proxy C A)
      (o : Outcome C A)
      → (to_lower name == to_lower token) ≡ true
      → add_one chains (to_lower name) (split b'_' (trim_space address)) p ≡ o
      → Left full p o
      → reload_token chains token ((name, address) ∷ rest) p ≡ succeeds q
      → lookup full q.aggregators ≡ lookup full p.aggregators
  unfolding reload_token add_tokens Left
  found-Left token name address full rest p q (succeeds r) same e left h = ground (arith, left)
  found-Left token name address full rest p q (fails r) same e left h = ground (arith, left)
  found-Left token name address full rest p q panics same e left h = absurd (ground arith)

  reload_token-bare :
      (token : Bytes) (tokens : List (Bytes × Bytes)) (p q : Proxy C A)
      → has_suffix token (codes "usdt") ≡ false
      → reload_token chains token tokens p ≡ succeeds q
      → lookup (full_name token) q.aggregators ≡ lookup (full_name token) p.aggregators
  unfolding reload_token
  reload_token-bare token [] p q bare h = absurd (ground arith)
  reload_token-bare token ((name, address) ∷ rest) p q bare h =
      elim (Bool-cases (to_lower name == to_lower token)) [
        | inr other ↦ reload_token-bare token rest p q bare (ground arith)
        | inl same ↦
            let parts = split b'_' (trim_space address) in
            let texts : to_lower name ≡ to_lower token =
              ground (arith, bytes_eq.beq_iff (to_lower name) (to_lower token)) in
            found-Left token name address (full_name token) rest p q
              (add_one chains (to_lower name) parts p) same refl
              (add_one-Left (to_lower name) (full_name token) parts p
                (lower-full_name name token bare texts))
              h
      ]

  -- A token without the suffix `usdt` is fetched by the name with it. Where that name has no binding, a
  -- reload for the token that succeeds, whatever the configuration has, leaves the token not
  -- configured.
  pub reload-not_configured :
      (cfg : Config) (token : Bytes) (p q : Proxy C A)
      → has_suffix token (codes "usdt") ≡ false
      → lookup (full_name token) p.aggregators ≡ none
      → reload chains (some cfg) token p ≡ succeeds q
      → fetch chains token q ≡ some not_configured
  unfolding reload fetch
  reload-not_configured cfg token p q bare missing h =
      let next = add_clients chains cfg.urls p in
      elim (Bool-cases next.1) [
        | inr failed ↦ absurd (ground arith)
        | inl ok ↦ ground (
          arith,
          missing,
          reload_token-bare token cfg.tokens next.0 q bare (ground arith),
          add_clients-aggregators cfg.urls p,
        )
      ]
