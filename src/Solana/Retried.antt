-- ===== src/Solana/Retried.antt =====
-- fetcher/solana/solana_fetch.go: the queries that are made again when an epoch ends meanwhile.
use price_feeder.Prelude.{ℕ, zero, suc, ◌+◌, ◌<◌, ◌≤◌, ◌≡◌, List, false, arith}
use price_feeder.Stakers.Apply.{BalanceChange}
use price_feeder.Solana.{
  Node, Epoch, ok, exceeds_max_slot, get_finalized_epoch, fetch_staker_balance_changes,
  SolanaSource, is_known, report, fetch_epoch,
}

-- Epochs that end while their stakes are read, `k` of them, and one that does not, none of them known
-- with the version: a fetch with fuel for all of them returns what the last epoch's stakes give.
pub fetch_epoch-retried :
    (node : Node) (k fuel n : ℕ) (s : SolanaSource) (epochs : ℕ → Epoch)
    (changes : List BalanceChange)
    → k < fuel
    → ((i : ℕ) → n ≤ i → i ≤ n + k → get_finalized_epoch node i ≡ ok (epochs i))
    → ((i : ℕ) → n ≤ i → i ≤ n + k → is_known (epochs i) s ≡ false)
    → ((i : ℕ)
        → n ≤ i
        → i < n + k
        → fetch_staker_balance_changes node (epochs i) s.stakers.s_infos ≡ exceeds_max_slot)
    → fetch_staker_balance_changes node (epochs (n + k)) s.stakers.s_infos ≡ ok changes
    → fetch_epoch node fuel n s ≡ report node (epochs (n + k)) changes s
unfolding fetch_epoch
fetch_epoch-retried node k zero n s epochs changes enough answered fresh ended last =
    absurd (omega arith)
fetch_epoch-retried node zero (suc fuel) n s epochs changes enough answered fresh ended last =
    let here : n + 0 ≡ n = omega arith in
    ground
      (arith, here, answered n (omega arith) (omega arith), fresh n (omega arith) (omega arith))
fetch_epoch-retried node (suc k) (suc fuel) n s epochs changes enough answered fresh ended last =
    let shift : n + suc k ≡ suc n + k = omega arith in
    ground (
      arith,
      shift,
      answered n (omega arith) (omega arith),
      fresh n (omega arith) (omega arith),
      ended n (omega arith) (omega arith),
      fetch_epoch-retried node k fuel (suc n) s epochs changes (omega arith)
          (λ i from to. answered i (omega arith) (omega arith))
          (λ i from to. fresh i (omega arith) (omega arith))
          (λ i from to. ended i (omega arith) (omega arith)),
    )
