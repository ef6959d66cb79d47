-- ===== src/Events/Parse/Tests.antt =====
-- imuaclient/types.go: the theorem on printed feed versions at two versions of a feeder.
use price_feeder.Prelude.{◌≡◌, [], ◌∷◌, some, map, arith}
use price_feeder.Events.Parse.{FeedVersion, get_feed_versions}
use price_feeder.Events.Parse.RoundTrip.{print_feed_version, insert_all, get_feed_versions-print}

abbrev first : FeedVersion
first = record { version = 12; withdraw_version = 0 }

abbrev second : FeedVersion
second = record { version = 13; withdraw_version = 4 }

get_feed_versions-print_example :
    get_feed_versions (map print_feed_version ((7, first) ∷ (7, second) ∷ []))
    ≡ some (insert_all ((7, first) ∷ (7, second) ∷ []) [])
get_feed_versions-print_example =
    get_feed_versions-print (7, first) ((7, second) ∷ [])
      ((omega arith, omega arith, omega arith), ((omega arith, omega arith, omega arith), tt))
