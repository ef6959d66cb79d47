-- ===== src/Debugger.antt =====
-- internal/debugger/feeder_debug.go: the requests of the debugger, which wait for the height that they
-- name, and the check of a price from the command line.
pub mod Tests
use price_feeder.Prelude.{
  ℕ, ◌+◌, ◌≡◌, refl, inl, inr, List, [], ◌∷◌, ◌++◌, Option, none, some, Bool, true, false, not,
  ◌&&◌, if◌then◌else◌, length, map, Bytes, ◌==◌, nat_eq, arith, ap, All, All-append, Bool-cases,
}
use price_feeder.Prelude.Int.{ℤ, pos, ltb_ℤ, int_eq}
use price_feeder.Prelude.Map.{lookup, insert, IsMap}
use price_feeder.Feeder.Price.{PriceInfo}

-- A request's price message and its height; the result channel has one place and is the request's.
pub record SendReq : Type 0 where
  pub height : ℤ
  pub feeder_id : ℕ
  pub base_block : ℕ
  pub price : PriceInfo
  pub nonce : ℤ  -- int32

-- The fields that are read of `ResultBroadcastTxCommit`.
pub record Committed : Type 0 where
  pub check_code : ℕ
  pub check_log : Bytes
  pub deliver_code : ℕ
  pub deliver_log : Bytes
  pub hash : Bytes
  pub height : ℤ

pub data SubmitPriceResponse : Type 0 where
  submit_error : SubmitPriceResponse
  submitted :
      (check_success : Bool)
      → (check_log : Bytes) → (deliver_success : Bool) → (deliver_log hash : Bytes) → (height : ℤ)
      → SubmitPriceResponse

abbrev pub Pending : Type 0
Pending = List (ℤ × List SendReq)

-- `pendingRequestManager.add`.
unfoldable pub add_pending : ℤ → SendReq → Pending → Pending
unfolding lookup insert
add_pending height req p = elim (lookup height p) [
  | none ↦ insert height (req ∷ []) p
  | some pendings ↦ insert height (pendings ++ (req ∷ [])) p
]

-- The answer to a request; `none` of the chain is an error of `SendTxDebug`.
unfoldable pub response_of : Option Committed → SubmitPriceResponse
response_of none = submit_error
response_of (some c) =
    submitted (c.check_code == 0) c.check_log (c.check_code == 0 && c.deliver_code == 0)
      c.deliver_log c.hash c.height

-- How many of the requests are in a class.
abbrev pub count : (SendReq → Bool) → List SendReq → ℕ
count q [] = 0
count q (req ∷ reqs) = (if q req then 1 else 0) + count q reqs

-- How many of the requests that wait are in a class.
abbrev pub waiting : (SendReq → Bool) → Pending → ℕ
waiting q [] = 0
waiting q ((h, pendings) ∷ p) = count q pendings + waiting q p

count-append :
    (q : SendReq → Bool) (xs ys : List SendReq) → count q (xs ++ ys) ≡ count q xs + count q ys
count-append q [] ys = omega arith
count-append q (x ∷ xs) ys = omega (arith, count-append q xs ys)

module _ (send : SendReq → Option Committed) where
  abbrev pub answer : SendReq → SendReq × SubmitPriceResponse
  answer req = (req, response_of (send req))

  -- `pendingRequestManager.process` on a committed height: the requests that are left, and the answers.
  unfoldable pub process_pending : ℤ → Pending → Pending × List (SendReq × SubmitPriceResponse)
  process_pending height [] = ([], [])
  process_pending height ((h, pendings) ∷ p) =
      let (rest, answers) = process_pending height p in
      if not (ltb_ℤ height h)
      then (rest, map answer pendings ++ answers)
      else ((h, pendings) ∷ rest, answers)

  -- The requests of answers.
  abbrev pub asked_by : List (SendReq × SubmitPriceResponse) → List SendReq
  asked_by [] = []
  asked_by (a ∷ answers) = a.0 ∷ asked_by answers

  asked_by-append :
      (reqs : List SendReq) (answers : List (SendReq × SubmitPriceResponse))
      → asked_by (map answer reqs ++ answers) ≡ reqs ++ asked_by answers
  asked_by-append [] answers = refl
  asked_by-append (req ∷ reqs) answers = ap (λ rest. req ∷ rest) (asked_by-append reqs answers)

  abbrev pub IsOwn : SendReq × SubmitPriceResponse → Type 0
  IsOwn a = a.1 ≡ response_of (send a.0)

  answers-IsOwn : (reqs : List SendReq) → All IsOwn (map answer reqs)
  answers-IsOwn [] = tt
  answers-IsOwn (req ∷ reqs) = (refl, answers-IsOwn reqs)

  process-IsOwn : (height : ℤ) (p : Pending) → All IsOwn (process_pending height p).1
  unfolding process_pending
  process-IsOwn height [] = tt
  process-IsOwn height ((h, pendings) ∷ p) = elim (Bool-cases (ltb_ℤ height h)) [
    | inl later ↦ rw (later, process_pending) (process-IsOwn height p)
    | inr due ↦
        rw (due, process_pending)
          (All-append IsOwn (map answer pendings) (process_pending height p).1
            (answers-IsOwn pendings) (process-IsOwn height p))
  ]

  waiting-process :
      (q : SendReq → Bool) (height : ℤ) (p : Pending)
      → count q (asked_by (process_pending height p).1) + waiting q (process_pending height p).0
        ≡ waiting q p
  unfolding process_pending
  waiting-process q height [] = refl
  waiting-process q height ((h, pendings) ∷ p) = ground (
    arith,
    asked_by-append pendings (process_pending height p).1,
    count-append q pendings (asked_by (process_pending height p).1),
    waiting-process q height p,
  )

  lookup-process :
      (height asked : ℤ) (p : Pending)
      → IsMap p
      → lookup asked (process_pending height p).0
        ≡ (if ltb_ℤ height asked then lookup asked p else none)
  unfolding process_pending lookup
  lookup-process height asked [] distinct = ground arith
  lookup-process height asked ((h, pendings) ∷ p) (fresh, distinct) =
      ground (arith, int_eq.beq_iff h asked, lookup-process height asked p distinct)

  -- On a new height every waiting request is answered once or goes on waiting: of every class of
  -- requests, the answered ones and the waiting ones are as many as waited before. Every answer is the
  -- chain's response to its own request. The requests for later heights are left as they were, and
  -- none is left for the height or one before it.
  pub process_pending_lem :
      (q : SendReq → Bool) (height asked : ℤ) (p : Pending)
      → IsMap p
      → (count q (asked_by (process_pending height p).1) + waiting q (process_pending height p).0
          ≡ waiting q p)
        × All IsOwn (process_pending height p).1
        × (lookup asked (process_pending height p).0
            ≡ (if ltb_ℤ height asked then lookup asked p else none))
  process_pending_lem q height asked p distinct =
      (waiting-process q height p, process-IsOwn height p, lookup-process height asked p distinct)

-- `PriceJSON.Validate`, whose price is a price info, with the nonce; true for no error.
unfoldable validate : PriceInfo → ℤ → Bool
validate price nonce =
    not (length price.price == 0) && not (length price.round_id == 0) && not (nonce == pos 0)
