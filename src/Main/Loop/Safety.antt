-- ===== src/Main/Loop/Safety.antt =====
-- internal/feeder/feeder.go and imuaclient/subscribe.go: a new block that cannot be parsed, and the
-- feeders that a reset leaves alone.
use price_feeder.Prelude.{
  ℕ, ◌≡◌, refl, inl, inr, List, [], ◌∷◌, Option, Bool, true, false, if◌then◌else◌, ◌==◌, nat_eq,
  bytes_eq, Bytes, arith, codes, Option-cases,
}
use price_feeder.Prelude.Map.{lookup, lookup-insert}
use price_feeder.Events.Block.{SubscribeResult, refused}
use price_feeder.Events.NewBlock.{get_event_new_block, read_event}
use price_feeder.Feeder.State.{Effect}
use price_feeder.Feeders.{Feeders, FeederError}
use price_feeder.Main.{ResetResult, done, skipped, failed, panics, hangs, reset_nst_stakers}
use price_feeder.Main.Loop.{
  Env, Loop, continues, exits, loop_panics, loop_blocks, before, after_attempts, reset_feeder,
  reset_failed, handle_event,
}

-- A message of the subscription to new blocks that the parser of new blocks refuses: the reading
-- routine hands a nil event to the main loop, which panics.
bad_block_panics :
    {T : Type 0} (env : Env T) (decode_base64 decode_hex : Bytes → Option Bytes)
    (s : SubscribeResult) (fs : Feeders T)
    → s.query ≡ codes "tm.event='NewBlock'"
    → get_event_new_block decode_base64 decode_hex s ≡ refused
    → handle_event env (read_event decode_base64 decode_hex s) fs ≡ loop_panics
unfolding handle_event read_event
bad_block_panics env decode_base64 decode_hex s fs query bad =
    ground (arith, bytes_eq.beq_iff s.query (codes "tm.event='NewBlock'"))

-- The feeder is not among the failed ones.
abbrev pub not_failed : ℕ → List (ℕ × FeederError) → Bool
not_failed other [] = true
not_failed other ((id, e) ∷ es) = if id == other then false else not_failed other es

module _ {T : Type 0} where
  before-inv :
      (first : Loop T) (next : Feeders T → Loop T) (fs' : Feeders T) (effects' : List Effect)
      → before first next ≡ continues fs' effects'
      → (fs : Feeders T) × (effects : List Effect) × (more : List Effect) × (first
          ≡ continues fs effects)
        × (next fs ≡ continues fs' more)
  before-inv (continues fs effects) next fs' effects' h = go (next fs) refl
    where
      go :
          (l : Loop T)
          → next fs ≡ l
          → (fs₁ : Feeders T) × (effects₁ : List Effect) × (more : List Effect) × (continues fs
                effects
              ≡ continues fs₁ effects₁)
            × (next fs₁ ≡ continues fs' more)
      go (continues g more) e = (fs, effects, more, refl, ground (arith, e))
      go exits e = absurd (ground (arith, e))
      go loop_panics e = absurd (ground (arith, e))
      go loop_blocks e = absurd (ground (arith, e))
  before-inv exits next fs' effects' h = absurd (ground arith)
  before-inv loop_panics next fs' effects' h = absurd (ground arith)
  before-inv loop_blocks next fs' effects' h = absurd (ground arith)

  after_attempts-others :
      (env : Env T) (id other : ℕ) (result : ResetResult T) (fs fs' : Feeders T)
      (effects : List Effect)
      → (id == other) ≡ false
      → after_attempts env id result fs ≡ continues fs' effects
      → lookup other fs'.feeder_map ≡ lookup other fs.feeder_map
  unfolding after_attempts
  after_attempts-others env id other (done r more) fs fs' effects apart h =
      ground (arith, lookup-insert id other r fs.feeder_map)
  after_attempts-others env id other skipped fs fs' effects apart h = ground arith
  after_attempts-others env id other failed fs fs' effects apart h = ground arith
  after_attempts-others env id other panics fs fs' effects apart h = absurd (ground arith)
  after_attempts-others env id other hangs fs fs' effects apart h = absurd (ground arith)

  reset_feeder-others :
      (env : Env T) (id other : ℕ) (fs fs' : Feeders T) (effects : List Effect)
      → (id == other) ≡ false
      → reset_feeder env id fs ≡ continues fs' effects
      → lookup other fs'.feeder_map ≡ lookup other fs.feeder_map
  unfolding reset_feeder
  reset_feeder-others env id other fs fs' effects apart h =
      elim (Option-cases (lookup id fs.feeder_map)) [
        | inl absent ↦ absurd (ground arith)
        | inr (r, found) ↦
            after_attempts-others env id other
              (reset_nst_stakers env.decode_hex (env.staker_infos r.feeder.token) true r) fs fs'
              effects apart (ground arith)
      ]

  -- The resets after failed updates, where they all return, leave every other feeder as it is.
  pub reset_failed-others :
      (env : Env T) (failures : List (ℕ × FeederError)) (fs fs' : Feeders T) (effects : List Effect)
      (other : ℕ)
      → not_failed other failures ≡ true
      → reset_failed env failures fs ≡ continues fs' effects
      → lookup other fs'.feeder_map ≡ lookup other fs.feeder_map
  unfolding reset_failed
  reset_failed-others env [] fs fs' effects other apart h = ground arith
  reset_failed-others env ((id, e) ∷ es) fs fs' effects other apart h =
      let (fs₁, first, more, one, rest) =
        before-inv (reset_feeder env id fs) (reset_failed env es) fs' effects h in
      ground (
        arith,
        reset_feeder-others env id other fs fs₁ first (ground arith) one,
        reset_failed-others env es fs₁ fs' more other (ground arith) rest,
      )
