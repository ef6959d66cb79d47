-- ===== src/Beacon/Init.antt =====
-- fetcher/beaconchain/types.go: `initBeaconchain`, and the stakers that the fetcher hands to the source.
-- The configuration file, URLs and the endpoint's answer are parameters.
use price_feeder.Prelude.{
  ℕ, ◌+◌, ◌-◌, ◌*◌, ◌^◌, ◌≡◌, refl, List, [], ◌∷◌, Option, none, some, Bool, true, ◌&&◌, ◌||◌, ltb,
  leb, if◌then◌else◌, length, Bytes, ◌==◌, nat_eq, bytes_eq, arith,
}
use price_feeder.Text.{split, parse_uint}
use price_feeder.Stakers.{StakerInfos, new_stakers}
use price_feeder.Chainlink.{Chains, answers, call_fails, call_panics, is_contract_address}
use price_feeder.Beacon.{World}
use price_feeder.Beacon.Fetch.{BeaconSource, fetch}

pub record BeaconConfig : Type 0 where
  pub beaconchain : Bytes
  pub eth : Bytes
  pub nst_id : Bytes
  pub bootstrap : Bytes

unfoldable pub hex_value : ℕ → Option ℕ
hex_value c =
    if leb b'0' c && leb c b'9'
    then some (c - b'0')
    else if leb b'a' c && leb c b'f'
    then some (c - b'a' + 10)
    else if leb b'A' c && leb c b'F'
    then some (c - b'A' + 10)
    else none

-- The digits after those with the value `acc`.
unfoldable pub parse_hex_digits : ℕ → Bytes → Option ℕ
unfolding hex_value
parse_hex_digits acc [] = some acc
parse_hex_digits acc (c ∷ s) = elim (hex_value c) [
  | none ↦ none
  | some d ↦
      let rest = parse_hex_digits (acc * 16 + d) s in
      if ltb (acc * 16 + d) (2 ^ 64) then rest else none
]

-- `strconv.ParseUint(s, 16, 64)`; `none` is an error.
unfoldable pub parse_hex : Bytes → Option ℕ
unfolding parse_hex_digits
parse_hex [] = none
parse_hex (c ∷ s) = parse_hex_digits 0 (c ∷ s)

-- `strings.TrimPrefix` of `0x`.
unfoldable pub trim_hex_prefix : Bytes → Bytes
trim_hex_prefix (z ∷ x ∷ s) = if z == b'0' && x == b'x' then s else z ∷ x ∷ s
trim_hex_prefix s = s

-- `ChainToSlotsPerEpoch`.
unfoldable pub chain_to_slots_per_epoch : ℕ → Option ℕ
chain_to_slots_per_epoch lz_id =
    if lz_id == 101 || lz_id == 40161 || lz_id == 40217 then some 32 else none

-- The id of the chain in the second part of `nstid`.
unfoldable pub lz_id_of : List Bytes → Option ℕ
unfolding parse_hex trim_hex_prefix
lz_id_of (asset ∷ chain ∷ []) = parse_hex (trim_hex_prefix chain)
lz_id_of _ = none

-- The slots of a known chain, or those that the endpoint answers; no answer is any error of it.
unfoldable pub init_slots : Option Bytes → Option ℕ → Option ℕ
unfolding chain_to_slots_per_epoch parse_uint
init_slots response none = none
init_slots response (some lz_id) = elim (chain_to_slots_per_epoch lz_id) [
  | some slots ↦ some slots
  | none ↦ elim response [ none ↦ none | some text ↦ parse_uint 64 text ]
]

-- The source as it is made, with the first values of the variables beside it.
unfoldable pub beacon_source : ℕ → BeaconSource
unfolding new_stakers
beacon_source slots = record {
  stakers = new_stakers;
  slots_per_epoch = slots;
  finalized_epoch = 0;
  finalized_version = 0;
  finalized_withdraw_version = 0;
  latest_changes_bytes = [];
}

-- `none` is an error. That the id of the asset is stored for queries is left out. A nil client is not asked for code, since a dial that fails is an error.
unfoldable pub init_beaconchain :
    {C A : Type 0}
    → Chains C A
    → (url_parses : Bytes → Bool) → (slots_response : Bytes → Option Bytes) → Option BeaconConfig
    → Option BeaconSource
unfolding lz_id_of init_slots beacon_source split is_contract_address
init_beaconchain chains url_parses slots_response none = none
init_beaconchain chains url_parses slots_response (some cfg) =
    if url_parses cfg.beaconchain
    then elim (init_slots (slots_response cfg.beaconchain) (lz_id_of (split b'_' cfg.nst_id))) [
      | none ↦ none
      | some slots ↦ elim (chains.dial cfg.eth) [
        | none ↦ none
        | some client ↦
            if length cfg.bootstrap == 0
            then none
            else elim (is_contract_address chains cfg.bootstrap (some client)) [
              | answers contract ↦ if contract then some (beacon_source slots) else none
              | call_fails ↦ none
              | call_panics ↦ none
            ]
      ]
    ]
    else none

-- `SetNSTStakers`.
unfoldable pub set_source_stakers : StakerInfos → ℕ → ℕ → BeaconSource → BeaconSource
set_source_stakers sis version withdraw_version s = record s {
  stakers = record (s.stakers) {
    s_infos = sis;
    version = version;
    withdraw_version = withdraw_version;
  };
}

init_slots-known :
    (response : Option Bytes) (lz_id slots : ℕ) (known : Option ℕ)
    → chain_to_slots_per_epoch lz_id ≡ known
    → known ≡ some slots
    → init_slots response (some lz_id) ≡ some 32
unfolding init_slots chain_to_slots_per_epoch
init_slots-known response lz_id slots known e h = ground arith

-- Only a division by zero slots makes a fetch panic.
fetch-panics :
    (w : World) (token : Bytes) (s : BeaconSource)
    → fetch w token s ≡ none
    → (s.slots_per_epoch == 0) ≡ true
unfolding fetch
fetch-panics w token s h = ground arith

init_beaconchain-slots :
    {C A : Type 0} (chains : Chains C A) (url_parses : Bytes → Bool)
    (slots_response : Bytes → Option Bytes) (cfg : BeaconConfig) (s : BeaconSource)
    → init_beaconchain chains url_parses slots_response (some cfg) ≡ some s
    → init_slots (slots_response cfg.beaconchain) (lz_id_of (split b'_' cfg.nst_id))
      ≡ some s.slots_per_epoch
unfolding init_beaconchain beacon_source
init_beaconchain-slots chains url_parses slots_response cfg s h = ground arith

pub known_chain-fetch :
    {C A : Type 0} (chains : Chains C A) (url_parses : Bytes → Bool)
    (slots_response : Bytes → Option Bytes) (cfg : BeaconConfig) (s : BeaconSource)
    (lz_id slots : ℕ) (w : World) (token : Bytes) (sis : StakerInfos) (version withdraw_version : ℕ)
    → init_beaconchain chains url_parses slots_response (some cfg) ≡ some s
    → lz_id_of (split b'_' cfg.nst_id) ≡ some lz_id
    → chain_to_slots_per_epoch lz_id ≡ some slots
    → ¬ (fetch w token (set_source_stakers sis version withdraw_version s) ≡ none)
unfolding set_source_stakers
known_chain-fetch chains url_parses slots_response cfg s lz_id slots w token sis version
      withdraw_version made id known panicked =
    let t = set_source_stakers sis version withdraw_version s in
    let response = slots_response cfg.beaconchain in
    absurd (
      ground (
        arith,
        fetch-panics w token t panicked,
        init_beaconchain-slots chains url_parses slots_response cfg s made,
        init_slots-known response lz_id slots (some slots) known refl,
        nat_eq.beq_iff s.slots_per_epoch 0,
      ))
