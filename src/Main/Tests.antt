-- ===== src/Main/Tests.antt =====
-- internal/feeder/feeder.go: the theorems on the main loop at a feeder of one token.
use price_feeder.Prelude.{
  if◌then◌else◌, ltb, ℕ, zero, suc, ◌≤◌, ◌<◌, ◌≡◌, refl, [], ◌∷◌, Option, none, some, true, false,
  Bytes, codes, arith, bytes_eq, nat_eq, ◌==◌,
}
use price_feeder.Prelude.Int.{pos}
use price_feeder.Stakers.{Stakers, new_stakers}
use price_feeder.Stakers.Reset.{NstVersion, load_stakers, sort_withdraws, install, reset}
use price_feeder.Feeder.Tests.{oracle, submit, feeder}
use price_feeder.Feeders.{Running, new_feeders, start_feeder}
use price_feeder.Client.Pages.{Page, Answer, StakerList, page, got, get_error, get_staker_infos}
use price_feeder.Client.Pages.Collected.{Answers, same_version}
use price_feeder.Main.{done, panics, convert_infos, reset_nst_stakers}
use price_feeder.Main.Reset.{asked_reset, published, reset_retried, changed_version_panics}
use price_feeder.Main.Loop.{Env}
use price_feeder.Feeder.Handlers.{TokenFeeder, Params}
use price_feeder.Feeders.Setup.{add_feeders}
use price_feeder.Main.Retry.{
  connection_failed, client_ready, returns_nil, init_components, init_components-connections,
}
use price_feeder.Main.Start.{map_of, setup_feeders, setup_feeders-add_feeders}

abbrev decode : Bytes → Option Bytes
decode text = some text

abbrev running : Running ℕ
running = start_feeder feeder

abbrev feeds : NstVersion
feeds = record { feed_version = 2; feed_withdraw_version = 0 }

abbrev page_of : ℕ → Option Bytes → Page
page_of version next = record {
  staker_infos = [];
  version = version;
  feeds = feeds;
  next_key = next;
}

abbrev ask : ℕ → Bytes → Answer
ask zero key = page (page_of 3 (some (codes "k")))
ask (suc n) key = page (page_of 4 none)

answers : Answers ask 0 [] (page_of 3 (some (codes "k"))) (page_of 4 none ∷ [])
answers = (codes "k", refl, refl, (refl, refl))

differs : same_version 3 (page_of 3 (some (codes "k")) ∷ page_of 4 none ∷ []) ≡ false
unfolding same_version
differs = refl

changed_version_panics_example :
    reset_nst_stakers decode (λ i. get_staker_infos ask true 2) true running ≡ panics
changed_version_panics_example =
    changed_version_panics decode ask true 2 (page_of 3 (some (codes "k"))) (page_of 4 none ∷ [])
      running answers (omega arith) differs

-- The first attempt fails.
abbrev get : ℕ → StakerList
get zero = get_error false
get (suc n) = got [] (some feeds)

abbrev loaded : Stakers
loaded = record new_stakers { version = 2 }

resets : reset (convert_infos decode running []) feeds true new_stakers ≡ (loaded, none)
unfolding convert_infos reset load_stakers install sort_withdraws new_stakers
resets = refl

errors : (i : ℕ) → 0 ≤ i → i < 1 → get i ≡ get_error false
errors zero from to = refl
errors (suc i) from to = absurd (omega arith)

reset_retried_example :
    reset_nst_stakers decode get true running
    ≡ done
        (record running {
          feeder = record (running.feeder) { stakers = loaded };
          price_ch = asked_reset running.price_ch;
        })
        (published running.feeder.source loaded)
reset_retried_example =
    reset_retried decode get true 1 running [] feeds loaded (omega arith) errors refl resets

abbrev env : Env ℕ
env = record {
  oracle = oracle;
  submit = submit;
  nst_fetcher = true;
  decode_hex = decode;
  new_params = none;
  staker_infos = λ token. get;
  feeder_ids_by_token_id = λ id. [];
  stakers_full = false;
  balances_full = false;
  pieces_full = false;
}

abbrev token_feeder : ℕ → TokenFeeder
token_feeder token = record {
  token_id = token;
  start_round_id = 1;
  start_base_block = 10;
  interval = 10;
  end_block = 0;
}

-- A token on chainlink and a native-restaking token.
abbrev oracle_params : Params
oracle_params = record {
  tokens =
      record { name = codes "ETH"; decimal = pos 18 }
      ∷ record { name = codes "NSTETH"; decimal = pos 0 }
      ∷ [];
  piece_size_byte = 48;
  is_rule_2_phases = λ id. id == 2;
  token_feeders = token_feeder 0 ∷ token_feeder 0 ∷ token_feeder 1 ∷ [];
  max_nonce = pos 3;
}

setup_feeders-add_feeders_example :
    map_of env (setup_feeders env oracle_params 0 oracle_params.token_feeders new_feeders [])
    ≡ add_feeders oracle true oracle_params [] 0 oracle_params.token_feeders []
unfolding new_feeders
setup_feeders-add_feeders_example =
    setup_feeders-add_feeders env oracle_params 0 oracle_params.token_feeders new_feeders [] refl

-- Every attempt to connect fails.
failures :
    (i : ℕ)
    → 0 ≤ i
    → i < 2
    → (if ltb i 2 then connection_failed else client_ready) ≡ connection_failed
failures i from to = ground arith

init_components-connections_example :
    init_components 2
      (λ i. true)
      (λ i. if ltb i 2 then connection_failed else client_ready)
      (λ i. some oracle_params)
    ≡ returns_nil false
init_components-connections_example =
    init_components-connections 2 (λ i. true)
      (λ i. if ltb i 2 then connection_failed else client_ready) (λ i. some oracle_params) 2
      oracle_params (omega arith) (λ i from to. refl) failures refl refl
