-- ===== src/Feeder/Round/Blocks.antt =====
-- internal/feeder/types.go: what `calculateRound` gives for heights that are not negative.
use price_feeder.Prelude.{
  ℕ, ◌+◌, ◌-◌, ◌*◌, ◌/◌, ◌%◌, ◌^◌, ◌≤◌, ◌<◌, ◌≡◌, ◌⊎◌, refl, sym, ap, ◌∙◌, some, true, arith,
}
use price_feeder.Prelude.Int.{pos, elapsed_64, quot_pos, bits-sub, bits-add}
use price_feeder.Feeder.Round.{Schedule, Round, calculate_round}

abbrev pub schedule : (start_round start interval end : ℕ) → Schedule
schedule start_round start interval end = record {
  start_round_id = pos start_round;
  start_base_block = pos start;
  interval = pos interval;
  end_block = pos end;
}

calculate_round_lem :
    (start_round start interval end h : ℕ)
    → h < 2 ^ 63
    → 0 < interval
    → start_round + h < 2 ^ 63
    → start ≤ h
    → (end ≡ 0) ⊎ (h ≤ end)
    → calculate_round (schedule start_round start interval end) (pos h)
      ≡ some (record {
        base_block = h - (h - start) % interval;
        round_id = (h - start) / interval + start_round;
        delta = pos ((h - start) % interval);
        active = true;
      })
unfolding calculate_round
calculate_round_lem start_round start interval end h hh hi hr hs he =
    rw
      (
        elapsed_64 h start hh hs,
        quot_pos,
        bits-sub h ((h - start) % interval) (omega arith) (grind arith),
        bits-add ((h - start) / interval) start_round (grind arith),
      )
      (ground arith)

-- A round of the schedule that holds the height `h`: `interval` blocks from its base block on.
pub record IsRoundOf (start_round start interval h : ℕ) (r : Round) : Type 0 where
  pub is_active : r.active ≡ true
  pub from_start : start_round ≤ r.round_id
  pub begins : r.base_block ≡ start + (r.round_id - start_round) * interval
  pub begun : r.base_block ≤ h
  pub not_over : h < r.base_block + interval
  pub offset : r.delta ≡ pos (h - r.base_block)

div_mul : (a b : ℕ) → 0 < b → (a ≡ a / b * b + a % b) × (a % b < b)
div_mul a b h = grind arith

add_sub : (a b : ℕ) → a + b - b ≡ a
add_sub a b = omega arith

block_IsRoundOf :
    (start_round start interval h : ℕ)
    → 0 < interval
    → start ≤ h
    → IsRoundOf start_round start interval h (record {
      base_block = h - (h - start) % interval;
      round_id = (h - start) / interval + start_round;
      delta = pos ((h - start) % interval);
      active = true;
    })
block_IsRoundOf start_round start interval h hi hs = record {
  is_active = refl;
  from_start = omega arith;
  begins =
      start_of_block
      ∙ ap (λ (k : ℕ). start + k * interval) (sym (add_sub ((h - start) / interval) start_round));
  begun = omega arith;
  not_over = omega (arith, div_mul (h - start) interval hi);
  offset = ap pos (omega (arith, div_mul (h - start) interval hi));
}
  where
    start_of_block : h - (h - start) % interval ≡ start + (h - start) / interval * interval
    start_of_block = omega (arith, div_mul (h - start) interval hi)

-- A height from the start of the schedule on, and not after its end where there is one (an end of 0 is
-- none), gets the one round that holds it, with the offset in the round. The interval is not 0, and
-- the height and its sum with the first round are below 2^63.
pub calculate_round-IsRoundOf :
    (start_round start interval end h : ℕ)
    → h < 2 ^ 63
    → 0 < interval
    → start_round + h < 2 ^ 63
    → start ≤ h
    → (end ≡ 0) ⊎ (h ≤ end)
    → (r : Round) × (calculate_round (schedule start_round start interval end) (pos h) ≡ some r)
      × IsRoundOf start_round start interval h r
calculate_round-IsRoundOf start_round start interval end h hh hi hr hs he = (
  _,
  calculate_round_lem start_round start interval end h hh hi hr hs he,
  block_IsRoundOf start_round start interval h hi hs,
)
