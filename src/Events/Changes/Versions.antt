-- ===== src/Events/Changes/Versions.antt =====
-- imuaclient/types.go: the versions of the events that `getEventNSTStakers` parses.
use price_feeder.Prelude.{
  ℕ, ◌-◌, ◌^◌, ◌<◌, ◌≤◌, ◌≡◌, ◌≢◌, ◌⊎◌, refl, sym, subst, inl, inr, List, [], ◌∷◌, ◌++◌, Option,
  none, some, Bool-cases, Option-cases, ◌==◌, nat_eq, nat_beq_iff, bytes_eq, Bytes, arith,
}
use price_feeder.Prelude.Map.{lookup, insert, lookup-insert}
use price_feeder.Text.{parse_uint, split}
use price_feeder.Stakers.{Error, DepositInfo, WithdrawInfo, Stakers}
use price_feeder.Stakers.Cache.{cache_deposits_withdraws}
use price_feeder.Stakers.Cache.Deposits.{withdraws_alone_refused}
use price_feeder.Events.{EventNstStaker}
use price_feeder.Events.Changes.{
  Change, withdraw_validator, new_event, event_or_new, add_deposit, add_version, add_change,
  add_changes, parse_change, get_event_nst_stakers,
}

-- The deposits lie between the two versions, which are 0 without deposits. A deposit under version
-- 0 is the exception that breaks the range.
pub record IsRange (e : EventNstStaker) : Type 0 where
  pub within :
      lookup 0 e.deposits ≡ none
      → (v : ℕ) (d : DepositInfo) → lookup v e.deposits ≡ some d
      → (e.next_version ≤ v) × (v ≤ e.latest_version)
  pub zero_empty :
      lookup 0 e.deposits ≡ none → e.next_version ≡ 0 → (v : ℕ) → lookup v e.deposits ≡ none
  pub without : e.deposits ≡ [] → (e.next_version ≡ 0) × (e.latest_version ≡ 0)

insert-nonempty : (k : ℕ) (d : DepositInfo) (m : List (ℕ × DepositInfo)) → insert k d m ≢ []
unfolding insert
insert-nonempty k d [] h = ground arith
insert-nonempty k d ((j, w) ∷ m) h = ground arith

-- Neither the new version nor an old one is 0.
no_zero :
    (version : ℕ) (d : DepositInfo) (m : List (ℕ × DepositInfo))
    → lookup 0 (insert version d m) ≡ none
    → (1 ≤ version) × (lookup 0 m ≡ none)
no_zero version d m h = ground (arith, lookup-insert version 0 d m, nat_beq_iff version 0)

add_deposit-within :
    (version v : ℕ) (d w : DepositInfo) (e : EventNstStaker)
    → IsRange e
    → lookup 0 (insert version d e.deposits) ≡ none
    → lookup v (insert version d e.deposits) ≡ some w
    → ((add_deposit version d e).next_version ≤ v) × (v ≤ (add_deposit version d e).latest_version)
unfolding add_deposit
add_deposit-within version v d w e r clear found =
    let (positive, old_clear) = no_zero version d e.deposits clear in
    elim (Option-cases (lookup v e.deposits)) [
      | inl absent ↦
          ground (arith, found, absent, lookup-insert version v d e.deposits, nat_beq_iff version v)
      | inr (old, present) ↦
          let (low, high) = r.within old_clear v old present in
          let seen_before : e.next_version ≢ 0 =
            λ is_zero. ground (arith, present, r.zero_empty old_clear is_zero v) in
          ground (arith, low, high, seen_before)
    ]

add_deposit-IsRange :
    (version : ℕ) (d : DepositInfo) (e : EventNstStaker)
    → IsRange e
    → IsRange (add_deposit version d e)
unfolding add_deposit
add_deposit-IsRange version d e r = record {
  within = λ clear v w found. add_deposit-within version v d w e r clear found;
  zero_empty =
      λ clear is_zero v. absurd (ground (arith, is_zero, no_zero version d e.deposits clear));
  without = λ empty. absurd (insert-nonempty version d e.deposits empty);
}

-- What a change does to the event: it appends a withdrawal, or it adds a deposit.
add_version-cases :
    (decode_hex : Bytes → Option Bytes) (version : ℕ) (c : Change) (e e' : EventNstStaker)
    → add_version decode_hex version c e ≡ some e'
    → ((w : WithdrawInfo) × (e' ≡ record e { withdraws = e.withdraws ++ (w ∷ []) }))
      ⊎ ((d : DepositInfo) × (e' ≡ add_deposit version d e))
unfolding add_version
add_version-cases decode_hex version c e e' h =
    elim (Bool-cases (c.validator == withdraw_validator)) [
      | inl withdraws ↦
          inl (record { staker_index = c.staker_index; withdraw_version = version }, ground arith)
      | inr deposits ↦ elim (Option-cases (parse_uint 64 c.amount_text)) [
        | inl bad ↦ absurd (ground arith)
        | inr (amount, is_amount) ↦ elim (Option-cases (decode_hex c.validator)) [
          | inl bad ↦ absurd (ground arith)
          | inr (validator, is_validator) ↦ inr (
            record {
              staker_index = c.staker_index;
              staker_addr = c.staker_addr;
              validator = validator;
              amount = amount;
            },
            ground arith,
          )
        ]
      ]
    ]

add_version-IsRange :
    (decode_hex : Bytes → Option Bytes) (version : ℕ) (c : Change) (e e' : EventNstStaker)
    → IsRange e
    → add_version decode_hex version c e ≡ some e'
    → IsRange e'
add_version-IsRange decode_hex version c e e' r h =
    elim (add_version-cases decode_hex version c e e' h) [
      | inl (w, same) ↦
          subst (λ x. IsRange x) (sym same)
            (record { within = r.within; zero_empty = r.zero_empty; without = r.without })
      | inr (d, added) ↦ subst (λ x. IsRange x) (sym added) (add_deposit-IsRange version d e r)
    ]

new_event-IsRange : IsRange new_event
unfolding lookup
new_event-IsRange = record {
  within = λ clear v d found. absurd (ground arith);
  zero_empty = λ clear is_zero v. refl;
  without = λ empty. (refl, refl);
}

-- Every event of the map is in range.
abbrev AllRange : List (ℕ × EventNstStaker) → Type 0
AllRange ret = (id : ℕ) (e : EventNstStaker) → lookup id ret ≡ some e → IsRange e

event_or_new-IsRange :
    (id : ℕ) (ret : List (ℕ × EventNstStaker))
    → AllRange ret
    → IsRange (event_or_new (lookup id ret))
event_or_new-IsRange id ret r = elim (Option-cases (lookup id ret)) [
  | inl absent ↦ subst (λ x. IsRange (event_or_new x)) (sym absent) new_event-IsRange
  | inr (e, found) ↦ subst (λ x. IsRange (event_or_new x)) (sym found) (r id e found)
]

AllRange-insert :
    (id : ℕ) (e : EventNstStaker) (ret : List (ℕ × EventNstStaker))
    → AllRange ret
    → IsRange e
    → AllRange (insert id e ret)
AllRange-insert id e ret r new = λ j x found. elim (Bool-cases (id == j)) [
  | inl same ↦ subst (λ y. IsRange y) (ground (arith, found, lookup-insert id j e ret)) new
  | inr other ↦ r j x (ground (arith, found, lookup-insert id j e ret))
]

-- A round of the loop that goes on.
add_changes_step :
    (decode_hex : Bytes → Option Bytes) (text : Bytes) (texts : List Bytes)
    (ret evs : List (ℕ × EventNstStaker))
    → add_changes decode_hex (text ∷ texts) ret ≡ some evs
    → (c : Change) × (version : ℕ) × (e : EventNstStaker) × (add_version decode_hex version c
          (event_or_new (lookup c.feeder_id ret))
        ≡ some e)
      × (add_changes decode_hex texts (insert c.feeder_id e ret) ≡ some evs)
unfolding add_changes add_change
add_changes_step decode_hex text texts ret evs h = elim (Option-cases (parse_change text)) [
  | inl bad ↦ absurd (ground arith)
  | inr (c, parsed) ↦ elim (Option-cases (parse_uint 64 c.version_text)) [
    | inl bad ↦ absurd (ground arith)
    | inr (version, is_version) ↦
        elim (Option-cases
          (add_version decode_hex version c (event_or_new (lookup c.feeder_id ret)))) [
            | inl bad ↦ absurd (ground arith)
            | inr (e, added) ↦ (c, version, e, added, ground arith)
          ]
  ]
]

add_changes-AllRange :
    (decode_hex : Bytes → Option Bytes) (texts : List Bytes) (ret evs : List (ℕ × EventNstStaker))
    → AllRange ret
    → add_changes decode_hex texts ret ≡ some evs
    → AllRange evs
unfolding add_changes
add_changes-AllRange decode_hex [] ret evs r h = subst (λ x. AllRange x) (ground arith) r
add_changes-AllRange decode_hex (text ∷ texts) ret evs r h =
    let (c, version, e, added, rest) = add_changes_step decode_hex text texts ret evs h in
    add_changes-AllRange decode_hex texts (insert c.feeder_id e ret) evs
      (AllRange-insert c.feeder_id e ret r (
        add_version-IsRange decode_hex version c (event_or_new (lookup c.feeder_id ret)) e
          (event_or_new-IsRange c.feeder_id ret r) added))
      rest

get_event-AllRange :
    (decode_hex : Bytes → Option Bytes) (texts : List Bytes) (evs : List (ℕ × EventNstStaker))
    → get_event_nst_stakers decode_hex texts ≡ some evs
    → AllRange evs
unfolding get_event_nst_stakers lookup
get_event-AllRange decode_hex [] evs h = absurd (ground arith)
get_event-AllRange decode_hex (text ∷ texts) evs h =
    add_changes-AllRange decode_hex (split b'|' text) [] evs (λ id e found. absurd (ground arith))
      (ground arith)

-- In a parsed event each deposit of a feeder lies between the next and the latest version of that
-- feeder, if none of the feeder's deposits has version 0.
pub parsed_range :
    (decode_hex : Bytes → Option Bytes) (texts : List Bytes) (evs : List (ℕ × EventNstStaker))
    (id v : ℕ) (e : EventNstStaker) (d : DepositInfo)
    → get_event_nst_stakers decode_hex texts ≡ some evs
    → lookup id evs ≡ some e
    → lookup 0 e.deposits ≡ none
    → lookup v e.deposits ≡ some d
    → (e.next_version ≤ v) × (v ≤ e.latest_version)
parsed_range decode_hex texts evs id v e d h found clear cached =
    (get_event-AllRange decode_hex texts evs h id e found).within clear v d cached

-- The withdrawals of an event without deposits are refused by the stakers, as the event is parsed.
pub parsed_withdraws_refused :
    (decode_hex : Bytes → Option Bytes) (texts : List Bytes) (evs : List (ℕ × EventNstStaker))
    (id : ℕ) (e : EventNstStaker) (s : Stakers)
    → get_event_nst_stakers decode_hex texts ≡ some evs
    → lookup id evs ≡ some e
    → e.deposits ≡ []
    → s.version < 2 ^ 64 - 1
    → lookup (2 ^ 64 - 1) s.s_infos_add ≡ none
    → (x : Error) × (cache_deposits_withdraws e.deposits e.next_version e.withdraws s ≡ (s, some x))
parsed_withdraws_refused decode_hex texts evs id e s h found alone small top =
    let (is_zero, _) = (get_event-AllRange decode_hex texts evs h id e found).without alone in
    rw (alone, is_zero) (withdraws_alone_refused e.withdraws s small top)
