-- ===== src/Events/Parse/RoundTrip.antt =====
-- imuaclient/types.go: the feed versions of an event against the text that the chain makes of them:
-- three decimal numbers joined by `_`.
use price_feeder.Prelude.{
  ℕ, ◌^◌, ◌<◌, ◌≡◌, refl, List, [], ◌∷◌, some, map, Bytes, nat_eq, All, arith,
}
use price_feeder.Prelude.Map.{insert}
use price_feeder.Text.{is_digit, join, format_uint}
use price_feeder.Text.RoundTrip.{parse_uint-format_uint, format_uint-without, split-join}
use price_feeder.Events.Parse.{FeedVersion, parse_feed_version, collect, get_feed_versions}

abbrev pub print_feed_version : ℕ × FeedVersion → Bytes
print_feed_version (feeder_id, v) =
    join b'_' (format_uint feeder_id ∷ format_uint v.version ∷ format_uint v.withdraw_version ∷ [])

-- The three numbers are uint64s.
abbrev pub FitsUint64 : ℕ × FeedVersion → Type 0
FitsUint64 (feeder_id, v) =
    (feeder_id < 2 ^ 64) × (v.version < 2 ^ 64) × (v.withdraw_version < 2 ^ 64)

parse-print :
    (entry : ℕ × FeedVersion)
    → FitsUint64 entry
    → parse_feed_version (print_feed_version entry) ≡ some entry
unfolding parse_feed_version is_digit
parse-print (feeder_id, v) (fits_id, fits_version, fits_withdraw) = ground (
  arith,
  split-join b'_' (format_uint feeder_id)
      (format_uint v.version ∷ format_uint v.withdraw_version ∷ [])
      (
        format_uint-without feeder_id b'_' refl,
        (
          format_uint-without v.version b'_' refl,
          (format_uint-without v.withdraw_version b'_' refl, tt),
        ),
      ),
  parse_uint-format_uint 64 feeder_id fits_id fits_id,
  parse_uint-format_uint 64 v.version fits_version fits_version,
  parse_uint-format_uint 64 v.withdraw_version fits_withdraw fits_withdraw,
)

-- The entries in a map, a later one over an earlier one.
abbrev pub insert_all : {V : Type 0} → List (ℕ × V) → List (ℕ × V) → List (ℕ × V)
insert_all [] ret = ret
insert_all ((key, v) ∷ entries) ret = insert_all entries (insert key v ret)

collect-print :
    (entries ret : List (ℕ × FeedVersion))
    → All FitsUint64 entries
    → collect parse_feed_version (map print_feed_version entries) ret
      ≡ some (insert_all entries ret)
unfolding collect
collect-print [] ret fit = refl
collect-print ((feeder_id, v) ∷ entries) ret (fits, more) =
    ground
      (arith, parse-print (feeder_id, v) fits, collect-print entries (insert feeder_id v ret) more)

-- The event that lists the printed feed versions, at least one, is parsed into the map of these feed
-- versions: each feeder has the last one that is listed for it.
pub get_feed_versions-print :
    (entry : ℕ × FeedVersion) (entries : List (ℕ × FeedVersion))
    → All FitsUint64 (entry ∷ entries)
    → get_feed_versions (map print_feed_version (entry ∷ entries))
      ≡ some (insert_all (entry ∷ entries) [])
unfolding get_feed_versions
get_feed_versions-print entry entries fit = collect-print (entry ∷ entries) [] fit
