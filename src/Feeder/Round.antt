-- ===== src/Feeder/Round.antt =====
-- internal/feeder/types.go: `calculateRound`. Heights are int64, rounds and base blocks uint64.
pub mod Blocks
use price_feeder.Prelude.{ℕ, Option, none, some, Bool, true, false, ◌&&◌, ◌||◌, if◌then◌else◌, ◌==◌}
use price_feeder.Prelude.Int.{ℤ, pos, ◌+ℤ◌, ◌-ℤ◌, ltb_ℤ, int_eq, bits, wrap, quot, rem}

-- The schedule of a token feeder.
pub record Schedule : Type 0 where
  pub start_round_id : ℤ
  pub start_base_block : ℤ
  pub interval : ℤ
  pub end_block : ℤ

-- The four results.
pub record Round : Type 0 where
  pub base_block : ℕ
  pub round_id : ℕ
  pub delta : ℤ
  pub active : Bool

abbrev inactive : Round
inactive = record { base_block = 0; round_id = 0; delta = pos 0; active = false }

-- `none` is the panic of a division by 0.
unfoldable pub calculate_round : Schedule → ℤ → Option Round
calculate_round f h =
    let elapsed = wrap 64 (h -ℤ f.start_base_block) in
    let delta = rem elapsed f.interval in
    if ltb_ℤ h f.start_base_block || (ltb_ℤ (pos 0) f.end_block && ltb_ℤ f.end_block h)
    then some inactive
    else if f.interval == pos 0
    then none
    else some (record {
      base_block = bits 64 (h -ℤ delta);
      round_id = bits 64 (wrap 64 (quot elapsed f.interval) +ℤ f.start_round_id);
      delta = delta;
      active = true;
    })
