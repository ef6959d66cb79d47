-- ===== src/Client/Subscribe/Lost.antt =====
-- imuaclient/subscribe.go: the subscriptions that a round leaves out.
use price_feeder.Prelude.{
  ℕ, zero, suc, ◌≡◌, refl, [], ◌∷◌, some, Bool, true, false, if◌then◌else◌, Bytes, bytes_eq, arith,
}
use price_feeder.Prelude.Map.{lookup}
use price_feeder.Client.Subscribe.{
  Events, reset_events, send_round, send_rounds, send_all_subscribe_msgs,
}

-- The last message of the list.
abbrev pub last_of : Bytes → Events → Bytes
last_of message [] = message
last_of message ((next, pending) ∷ es) = last_of next es

send_round-last :
    (writes : Bytes → Bool) (message : Bytes) (pending : Bool) (es : Events) (all_set : Bool)
    → writes (last_of message es) ≡ true
    → (send_round writes ((message, pending) ∷ es) all_set).1 ≡ true
unfolding send_round
send_round-last writes message pending [] all_set last = ground arith
send_round-last writes message pending ((next, flag) ∷ es) all_set last = ground (
  arith,
  send_round-last writes next flag es true last,
  send_round-last writes next flag es (if pending then false else all_set) last,
)

send_round-failed :
    (writes : Bytes → Bool) (asked : Bytes) (es : Events) (all_set : Bool)
    → writes asked ≡ false
    → lookup asked (send_round writes es all_set).0 ≡ lookup asked es
unfolding send_round lookup
send_round-failed writes asked [] all_set failed = refl
send_round-failed writes asked ((message, pending) ∷ es) all_set failed = ground (
  arith,
  bytes_eq.beq_iff message asked,
  send_round-failed writes asked es true failed,
  send_round-failed writes asked es (if pending then false else all_set) failed,
)

lookup-reset_events :
    (asked : Bytes) (flag : Bool) (es : Events)
    → lookup asked es ≡ some flag
    → lookup asked (reset_events es) ≡ some true
unfolding reset_events lookup
lookup-reset_events asked flag [] found = ground arith
lookup-reset_events asked flag ((message, pending) ∷ es) found =
    ground (arith, lookup-reset_events asked flag es)

last_of-reset_events :
    (message : Bytes) (es : Events) → last_of message (reset_events es) ≡ last_of message es
unfolding reset_events
last_of-reset_events message [] = refl
last_of-reset_events message ((next, pending) ∷ es) = last_of-reset_events next es

one_round :
    (writes : ℕ → Bytes → Bool) (more : ℕ) (message asked : Bytes) (pending flag : Bool)
    (es : Events)
    → writes 0 (last_of message es) ≡ true
    → lookup asked ((message, pending) ∷ es) ≡ some flag
    → writes 0 asked ≡ false
    → ((send_rounds writes (suc more) 0 (reset_events ((message, pending) ∷ es))).1 ≡ true)
      × (lookup asked (send_rounds writes (suc more) 0 (reset_events ((message, pending) ∷ es))).0
          ≡ some true)
unfolding send_rounds reset_events
one_round writes more message asked pending flag es last found failed =
    let events : Events = (message, true) ∷ reset_events es in
    let all_set =
      send_round-last (writes 0) message true (reset_events es) true
        (ground (arith, last_of-reset_events message es)) in
    let kept = send_round-failed (writes 0) asked events true failed in
    let flagged = lookup-reset_events asked flag ((message, pending) ∷ es) found in
    (ground (arith, all_set), ground (arith, all_set, kept, flagged))

-- The last message of the first round is written and the message `asked` is not: the call returns
-- without an error after that round, and `asked` is still marked as not sent.
pub subscription_lost :
    (writes : ℕ → Bytes → Bool) (retries : ℕ) (message asked : Bytes) (pending flag : Bool)
    (es : Events)
    → writes 0 (last_of message es) ≡ true
    → lookup asked ((message, pending) ∷ es) ≡ some flag
    → writes 0 asked ≡ false
    → ((send_all_subscribe_msgs writes retries ((message, pending) ∷ es)).1 ≡ true)
      × (lookup asked (send_all_subscribe_msgs writes retries ((message, pending) ∷ es)).0
          ≡ some true)
unfolding send_all_subscribe_msgs send_rounds reset_events
subscription_lost writes zero message asked pending flag es last found failed =
    one_round writes 0 message asked pending flag es last found failed
subscription_lost writes (suc retries) message asked pending flag es last found failed =
    one_round writes retries message asked pending flag es last found failed
