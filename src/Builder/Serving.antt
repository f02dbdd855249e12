-- ===== src/Builder/Serving.antt =====
-- What the builds that a poll of bin/builder/src/service.rs starts are answered by the bundle pool, which that
-- poll prunes.
use rs_block_builder.Builder.{
  Attributes, ChainClient, BlockBuilderService, Started, waiting, build_configs, new_config,
  prune_bundle_pool, start_builds, last_event, process, poll,
}
use rs_block_builder.Bundles.Bundle.{is_within_timestamp}
use rs_block_builder.Bundles.Inner.{bundles}
use rs_block_builder.Bundles.Inner.Invariant.{IsValid, prune-IsValid}
use rs_block_builder.Bundles.Inner.Pruning.{bundles-prune_at}
use rs_block_builder.Bundles.Pool.{prune}
use rs_block_builder.Common.{
  ℕ, ◌-◌, ◌≤◌, ◌<◌, ◌≡◌, refl, sym, ap, Bool, true, false, List, Option, none, some, retain, arith,
  leb, ◌==◌, Bool-cases, inl, inr,
}
use rs_block_builder.Common.Words.{u64_mod}
use rs_block_builder.Primitives.Validator.{sub_u64}
use rs_block_builder.Payload.State.{BuildConfig}

-- The service `t` that has started `started` from `s` at the time `now`: the slot is a new one and its
-- time is ahead, the auction is for the configuration's slot and block, the pool is valid, and of
-- the bundles that it answered for the block and its time it answers those that also admit the time
-- twelve seconds before.
pub record Starts (s t : BlockBuilderService) (now : ℕ) (started : Started) : Type 0 where
  pub slot : t.slot ≡ started.config.slot
  pub is_new : (s.slot == started.config.slot) ≡ false
  pub ahead : now < started.config.timestamp
  pub auction : started.auction ≡ (started.config.slot, started.config.block_number)
  pub valid : IsValid t.mev_bundles_pool.inner
  pub served :
      bundles t.mev_bundles_pool.inner started.config.block_number started.config.timestamp
      ≡ retain
          (λ b. is_within_timestamp b (started.config.timestamp - 12))
          (bundles s.mev_bundles_pool.inner started.config.block_number started.config.timestamp)

sub_u64_le : (a b : ℕ) → b ≤ a → a < u64_mod → sub_u64 a b ≡ a - b
unfolding sub_u64 u64_mod
sub_u64_le a b le w = omega arith

-- The words that the pruning subtracts from.
abbrev pub InRange : BuildConfig → Type 0
InRange config =
    (1 ≤ config.block_number)
    × (config.block_number < u64_mod)
    × (12 ≤ config.timestamp)
    × (config.timestamp < u64_mod)

module _ {Block Sealed : Type 0} (client : ChainClient Block Sealed) (s : BlockBuilderService)
    (valid : IsValid s.mev_bundles_pool.inner) where
  -- The configuration is for the slot and the time of the event.
  build_configs-slot :
      (attributes : Attributes) (slot : ℕ) (config : BuildConfig)
      → build_configs client s attributes slot ≡ some config
      → (config.slot ≡ slot) × (config.timestamp ≡ attributes.timestamp)
  unfolding build_configs new_config
  build_configs-slot attributes slot config e = ground arith

  pruned-Starts :
      (now slot : ℕ) (config : BuildConfig)
      → InRange config
      → config.slot ≡ slot
      → (s.slot == slot) ≡ false
      → now < config.timestamp
      → Starts s
          (prune_bundle_pool client true (record s { slot = slot }) config)
          now
          (record { config = config; auction = (slot, config.block_number) })
  unfolding prune_bundle_pool prune
  pruned-Starts now slot config (b, bw, h, hw) same is_new ahead = record {
    slot = sym same;
    is_new = rw (same) is_new;
    ahead = ahead;
    auction = rw (same) refl;
    valid = prune-IsValid s.mev_bundles_pool.inner _ _ valid;
    served =
        rw (sub_u64_le config.block_number 1 b bw, sub_u64_le config.timestamp 12 h hw)
          (bundles-prune_at s.mev_bundles_pool.inner (config.block_number - 1) config.block_number
            (config.timestamp - 12) config.timestamp valid (omega arith));
  }

  start_builds-Starts :
      (t : BlockBuilderService) (now slot : ℕ) (configs : Option BuildConfig) (started : Started)
      → InRange started.config
      → ((config : BuildConfig)
          → configs ≡ some config
          → (config.slot ≡ slot) × (now < config.timestamp))
      → (s.slot == slot) ≡ false
      → start_builds client true (record s { slot = slot }) slot configs ≡ waiting t (some started)
      → Starts s t now started
  unfolding start_builds
  start_builds-Starts t now slot none started range facts is_new e = cc
  start_builds-Starts t now slot (some config) started range facts is_new e =
      let same_t : prune_bundle_pool client true (record s { slot = slot }) config ≡ t = cc in
      let same_started : ◌≡◌ {A = Started}
          (record { config = config; auction = (slot, config.block_number) }) started =
        cc in
      let (same, ahead) = facts config refl in
      let in_range : InRange config = rw (ap (λ q. q.config) same_started) range in
      rw (sym same_t, sym same_started) (pruned-Starts now slot config in_range same is_new ahead)

  process-Starts :
      (t : BlockBuilderService) (now : ℕ) (event : Option (Attributes × ℕ)) (started : Started)
      → InRange started.config
      → process client true s now event ≡ waiting t (some started)
      → Starts s t now started
  unfolding process
  process-Starts t now none started range e = cc
  process-Starts t now (some (attributes, slot)) started range e =
      elim (Bool-cases (s.slot == slot)) [
        | inl known ↦ ground arith
        | inr is_new ↦ elim (Bool-cases (leb attributes.timestamp now)) [
          | inl past ↦ ground arith
          | inr ahead ↦
              start_builds-Starts t now slot (build_configs client s attributes slot) started range
                (λ config c.
                  let (same, time) = build_configs-slot attributes slot config c in
                  (same, rw (time) (ground arith)))
                is_new (ground arith)
        ]
      ]

  -- If the pool is valid and its lock is got, a poll of the main loop that starts a build, with a
  -- block number from 1 and a time from 12 on, both `u64`, does so for a new slot and a time ahead,
  -- starts the auction of the same slot and block, and leaves a valid pool; of the bundles that it
  -- answered for the block and its time, it answers from then on those that also admit the time
  -- twelve seconds before, where a bundle without a minimum or maximum admits every time on that
  -- side.
  pub poll-Starts :
      (t : BlockBuilderService) (now : ℕ) (events : List (Attributes × ℕ)) (closed : Bool)
      (started : Started)
      → InRange started.config
      → poll client true s events closed now ≡ waiting t (some started)
      → Starts s t now started
  unfolding poll
  poll-Starts t now events true started range e = cc
  poll-Starts t now events false started range e =
      process-Starts t now (last_event client none events) started range e
