-- ===== src/Stakers/Validators.antt =====
-- fetcher/types/types.go: `AddValidator`, and `RemoveValidator` after it.
use price_feeder.Prelude.{
  ℕ, ◌+◌, ◌^◌, ◌<◌, ◌≡◌, List, [], ◌∷◌, ◌++◌, some, false, Bytes, bytes_eq, beq_refl, arith,
}
use price_feeder.Stakers.{u64, StakerInfo, contains, delete_first, add_validator, remove_validator}

delete_first-append :
    (v : Bytes) (vs : List Bytes)
    → contains v vs ≡ false
    → delete_first v (vs ++ (v ∷ [])) ≡ some vs
unfolding contains delete_first
delete_first-append v [] h = rw (beq_refl v)
delete_first-append v (w ∷ ws) h = ground (arith, delete_first-append v ws)

-- What a staker must be for a deposit to be added to it.
pub add_validator-inv :
    (v : Bytes) (amount : ℕ) (s t : StakerInfo)
    → add_validator v amount s ≡ some t
    → (contains v s.validators ≡ false)
      × (t ≡ record s { validators = s.validators ++ (v ∷ []); balance = u64 (s.balance + amount) })
unfolding add_validator
add_validator-inv v amount s t h = ground arith

-- Removing the validator that was added gives the staker back, unless the balance wrapped.
pub remove-add_validator :
    (v : Bytes) (amount : ℕ) (s t : StakerInfo)
    → add_validator v amount s ≡ some t
    → s.balance + amount < 2 ^ 64
    → remove_validator v amount t ≡ some s
unfolding remove_validator
remove-add_validator v amount s t h fits =
    let (fresh, grown) = add_validator-inv v amount s t h in
    rw (grown, delete_first-append v s.validators fresh) (ground arith)
