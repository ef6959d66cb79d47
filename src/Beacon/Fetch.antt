-- ===== src/Beacon/Fetch.antt =====
-- fetcher/beaconchain/beaconchain_fetch.go: `fetch`, with the variables that it keeps.
use price_feeder.Prelude.{
  ℕ, ◌/◌, List, [], ◌∷◌, Option, none, some, Bool, ◌&&◌, leb, if◌then◌else◌, length, Bytes, ◌==◌,
  nat_eq, bytes_eq, codes,
}
use price_feeder.Prelude.Int.{pos}
use price_feeder.Text.{parse_uint_value, format_uint, join}
use price_feeder.Stakers.{Stakers}
use price_feeder.Stakers.Apply.{BalanceChange, RawData}
use price_feeder.Feeder.Price.{PriceInfo, empty_price}
use price_feeder.Source.{Fetch, got, fetch_fails}
use price_feeder.Beacon.{World, FinalizedBlock, collect_changes, sort_changes}

pub record BeaconSource : Type 0 where
  pub stakers : Stakers
  pub slots_per_epoch : ℕ
  pub finalized_epoch : ℕ
  pub finalized_version : ℕ
  pub finalized_withdraw_version : ℕ
  pub latest_changes_bytes : Bytes

abbrev pub price_of : Bytes → Bytes → PriceInfo
price_of price round_id = record {
  price = price;
  decimal = pos 0;
  timestamp = [];
  round_id = round_id;
}

-- The round of an answer without a new query, and that of a new one.
unfoldable pub kept_round : BeaconSource → Bytes
unfolding join format_uint
kept_round s = join b'_' (format_uint s.finalized_epoch ∷ format_uint s.stakers.version ∷ [])

unfoldable pub new_round : ℕ → Stakers → Bytes
unfolding join format_uint
new_round epoch stakers =
    join b'|'
      (format_uint epoch ∷ format_uint stakers.version ∷ format_uint stakers.withdraw_version ∷ [])

unfoldable pub raw_data : Stakers → List BalanceChange → RawData
unfolding sort_changes
raw_data stakers changes = record {
  version = stakers.version;
  withdraw_version = stakers.withdraw_version;
  nst_balance_changes = sort_changes changes;
}

-- The bytes of the changes; no change has none.
unfoldable pub changes_bytes : World → Stakers → List BalanceChange → Option Bytes
unfolding raw_data
changes_bytes w stakers [] = some []
changes_bytes w stakers (c ∷ cs) = w.marshal (raw_data stakers (c ∷ cs))

-- The fetch at a new epoch or version.
unfoldable pub fetch_changes : World → FinalizedBlock → ℕ → BeaconSource → BeaconSource × Fetch
unfolding collect_changes changes_bytes new_round
fetch_changes w block epoch s =
    elim (collect_changes w block s.finalized_withdraw_version s.stakers.s_infos) [
      | none ↦ (s, fetch_fails)
      | some changes ↦ elim (changes_bytes w s.stakers changes) [
        | none ↦ (s, fetch_fails)
        | some bytes ↦ (
          record s {
            finalized_epoch = epoch;
            finalized_version = s.stakers.version;
            finalized_withdraw_version = s.stakers.withdraw_version;
            latest_changes_bytes = bytes;
          },
          got (price_of bytes (new_round epoch s.stakers)),
        )
      ]
    ]

-- Neither the epoch nor a version is new.
unfoldable pub is_known : ℕ → BeaconSource → Bool
is_known epoch s =
    leb epoch s.finalized_epoch
    && leb s.stakers.version s.finalized_version
    && leb s.stakers.withdraw_version s.finalized_withdraw_version

-- `none` is the panic of a division by zero slots per epoch.
unfoldable pub fetch : World → Bytes → BeaconSource → Option (BeaconSource × Fetch)
unfolding fetch_changes is_known kept_round
fetch w token s =
    if token == codes "nsteth"
    then (if length s.stakers.s_infos == 0
        then some (s, got empty_price)
        else elim w.finalized_block [
          | none ↦ some (s, fetch_fails)
          | some block ↦
              let epoch = parse_uint_value 64 block.slot / s.slots_per_epoch in
              if s.slots_per_epoch == 0
              then none
              else if is_known epoch s
              then some (s, got (price_of s.latest_changes_bytes (kept_round s)))
              else some (fetch_changes w block epoch s)
        ])
    else some (s, fetch_fails)
