-- ===== src/Chainlink/Tests.antt =====
-- fetcher/chainlink: the theorems at a chain with one contract.
use price_feeder.Prelude.{◌≡◌, refl, [], ◌∷◌, none, some, true, false, codes, Bytes, bytes_eq}
use price_feeder.Prelude.Int.{pos}
use price_feeder.Prelude.Map.{lookup, insert}
use price_feeder.Text.{split, trim_space, trim_left, trim_right, is_space}
use price_feeder.Feeders.Setup.{to_lower, has_suffix}
use price_feeder.Chainlink.{
  Config, add_clients, reload_token, reload, Chains, Proxy, answers, call_panics, succeeds, panics,
  is_address, is_hex, is_contract_address, add_client, bind, add_one, add_tokens,
  price_of_aggregator, full_name, fetch,
}
use price_feeder.Source.{not_configured}
use price_feeder.Chainlink.Reload.{reload-not_configured}
use price_feeder.Chainlink.Added.{last_address, binding_at, added_price, failed_dial}

abbrev contract : Bytes
contract = codes "0x00112233445566778899aabbccddeeff00112233"

-- One client is known, that of the first dial; the binding at an address is the address.
abbrev chains : Chains Bytes Bytes
chains = record {
  dial = λ url. none;
  code_at = λ client address. elim client [ none ↦ call_panics | some c ↦ answers 7 ];
  new_aggregator = λ address client. some address;
  latest_round_data = λ a. answers (record { round_id = pos 5; answer = pos 300 });
  decimals = λ a. answers 8;
  now = codes "2024";
}

abbrev proxy : Proxy Bytes Bytes
proxy = record { clients = (codes "eth", some (codes "c")) ∷ []; aggregators = [] }

abbrev with_token : Proxy Bytes Bytes
with_token = record proxy { aggregators = (codes "ethusdt", some contract) ∷ [] }

adds :
    add_tokens chains
      ((codes "ethusdt", codes "0x00112233445566778899aabbccddeeff00112233_eth ") ∷ [])
      proxy
    ≡ succeeds with_token
unfolding add_tokens add_one bind is_contract_address is_address is_hex split trim_space trim_left
    trim_right is_space to_lower lookup insert
adds = refl

named :
    last_address
      (full_name (codes "eth"))
      ((codes "ethusdt", codes "0x00112233445566778899aabbccddeeff00112233_eth ") ∷ [])
    ≡ some (codes "0x00112233445566778899aabbccddeeff00112233_eth ")
unfolding full_name has_suffix to_lower
named = refl

added_price_example :
    (a : Bytes) × (binding_at chains
        (split b'_' (trim_space (codes "0x00112233445566778899aabbccddeeff00112233_eth ")))
        proxy.clients
      ≡ some a)
    × (fetch chains (codes "eth") with_token ≡ price_of_aggregator chains (some a))
added_price_example =
    added_price chains
      ((codes "ethusdt", codes "0x00112233445566778899aabbccddeeff00112233_eth ") ∷ []) proxy
      with_token (codes "eth") (codes "0x00112233445566778899aabbccddeeff00112233_eth ") adds named

unknown : lookup (codes "bsc") proxy.clients ≡ none
unfolding lookup
unknown = refl

valid : is_address contract ≡ true
unfolding is_address is_hex
valid = refl

failed_dial_example :
    (p : Proxy Bytes Bytes) × (add_client chains (codes "bsc") (codes "wss://a") proxy ≡ (p, false))
    × (add_client chains (codes "bsc") (codes "wss://b") p ≡ (p, true))
    × ((token : Bytes) → bind chains token contract (codes "bsc") p ≡ panics)
failed_dial_example =
    failed_dial chains (codes "bsc") (codes "wss://a") (codes "wss://b") contract proxy unknown refl
      refl valid refl

-- A configuration that has the token without the suffix.
abbrev config : Config
config = record {
  urls = [];
  tokens = (codes "ETH", codes "0x00112233445566778899aabbccddeeff00112233_eth ") ∷ [];
}

abbrev reloaded : Proxy Bytes Bytes
reloaded = record proxy { aggregators = (codes "eth", some contract) ∷ [] }

bare : has_suffix (codes "eth") (codes "usdt") ≡ false
unfolding has_suffix
bare = refl

missing : lookup (full_name (codes "eth")) proxy.aggregators ≡ none
unfolding lookup
missing = refl

reloads : reload chains (some config) (codes "eth") proxy ≡ succeeds reloaded
unfolding reload add_clients reload_token add_tokens add_one bind is_contract_address is_address
    is_hex split trim_space trim_left trim_right is_space to_lower lookup insert
reloads = refl

reload-not_configured_example : fetch chains (codes "eth") reloaded ≡ some not_configured
reload-not_configured_example =
    reload-not_configured chains config (codes "eth") proxy reloaded bare missing reloads
