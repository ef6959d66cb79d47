-- ===== src/Client/Subscribe.antt =====
-- imuaclient/subscribe.go: `sendAllSubscribeMsgs`, which asks for the four kinds of events. An
-- iteration over the map of events takes the order of the list.
pub mod Lost
use price_feeder.Prelude.{
  ℕ, zero, suc, List, [], ◌∷◌, Option, none, some, Bool, true, false, if◌then◌else◌, map, Bytes,
  ltb, bytes_eq,
}
use price_feeder.Prelude.Map.{lookup}

-- The messages with their flags: true where a message must still be sent.
abbrev pub Events : Type 0
Events = List (Bytes × Bool)

unfoldable pub reset_events : Events → Events
reset_events [] = []
reset_events ((message, pending) ∷ es) = (message, true) ∷ reset_events es

-- A round over the events, whose writes succeed or fail: the new flags and `allSet`.
unfoldable pub send_round : (Bytes → Bool) → Events → Bool → Events × Bool
send_round writes [] all_set = ([], all_set)
send_round writes ((message, pending) ∷ es) all_set =
    let so_far = if pending then false else all_set in
    let (sent, after_sent) = send_round writes es true in
    let (kept, after_kept) = send_round writes es so_far in
    if writes message
    then ((message, false) ∷ sent, after_sent)
    else ((message, pending) ∷ kept, after_kept)

-- The rounds that are left, numbered by `n`: the flags, and whether the result is nil.
unfoldable pub send_rounds : (ℕ → Bytes → Bool) → ℕ → ℕ → Events → Events × Bool
unfolding send_round
send_rounds writes zero n es = (es, false)
send_rounds writes (suc left) n es =
    let (es', all_set) = send_round (writes n) es true in
    let again = send_rounds writes left (suc n) es' in if all_set then (es', true) else again

unfoldable pub send_all_subscribe_msgs : (ℕ → Bytes → Bool) → ℕ → Events → Events × Bool
unfolding send_rounds reset_events
send_all_subscribe_msgs writes zero es = send_rounds writes 1 0 (reset_events es)
send_all_subscribe_msgs writes (suc retries) es =
    send_rounds writes (suc retries) 0 (reset_events es)
