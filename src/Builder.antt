-- ===== src/Builder.antt =====
-- bin/builder/src/service.rs: the main loop, which turns an event of the consensus layer into a new payload
-- job and an auction, after pruning the bundle pool. One poll is a function of the events that are
-- ready; what it starts is handed to the payload service and the bidder. Logs are left out.
pub mod Serving
use rs_block_builder.Bundles.Pool
use rs_block_builder.Bundles.Pool.{BundlePool}
use rs_block_builder.Common.{ℕ, Bool, List, [], ◌∷◌, Option, none, some, leb, ◌==◌, if◌then◌else◌}
use rs_block_builder.Common.Results.{Result, ok, err, ◌>>=◌}
use rs_block_builder.Payload.Evm.{PayloadBuilderError, other_payload_error}
use rs_block_builder.Payload.State.{BuildConfig, BlockEnv}
use rs_block_builder.Primitives.Validator.{
  ValidatorSchedule, ValidatorScheduleSlotInfo, get_by_slot, sub_u64, suggest_gas_limit,
}

-- What the source reads of reth's payload attributes.
pub record Attributes : Type 0 where
  pub parent : ℕ
  pub timestamp : ℕ

-- The client's reads of blocks, and what `BuildConfig::new` takes from reth: the chain id, the number
-- and the environment of the block behind a parent.
pub record ChainClient (Block Sealed : Type 0) : Type 0 where
  pub latest_block : Result PayloadBuilderError (Option Block)
  pub find_block_by_hash : ℕ → Result PayloadBuilderError (Option Block)
  pub seal_slow : Block → Sealed
  pub seal : Block → ℕ → Sealed
  pub gas_limit : Sealed → ℕ
  pub cfg_and_block_env : Attributes → Sealed → ℕ × ℕ × BlockEnv

pub record BlockBuilderService : Type 0 where
  pub slot : ℕ
  pub validator_schedule : ValidatorSchedule
  pub mev_bundles_pool : BundlePool

-- What a poll starts: the payload of the configuration, and the auction of the slot and the block.
pub record Started : Type 0 where
  pub config : BuildConfig
  pub auction : ℕ × ℕ

pub data Polled : Type 0 where
  waiting : BlockBuilderService → Option Started → Polled
  terminated : Polled

unfoldable pub found : {A : Type 0} → Option A → Result PayloadBuilderError A
found none = err other_payload_error
found (some a) = ok a

module _ {Block Sealed : Type 0} (client : ChainClient Block Sealed) where
  -- A parent of zero stands for the latest block.
  unfoldable pub parent_block : Attributes → Result PayloadBuilderError Sealed
  unfolding found
  parent_block attributes =
      if attributes.parent == 0
      then (client.latest_block >>= found) >>= (λ block. ok (client.seal_slow block))
      else (client.find_block_by_hash attributes.parent >>= found)
        >>= (λ block. ok (client.seal block attributes.parent))

  -- `BuildConfig::new` of crates/primitives/src/payload.rs.
  unfoldable pub new_config : Attributes → Sealed → ℕ → ValidatorScheduleSlotInfo → BuildConfig
  new_config attributes parent slot info =
      let (chain_id, number, env) = client.cfg_and_block_env attributes parent in
      record {
        slot = slot;
        block_number = number;
        timestamp = attributes.timestamp;
        chain_id = chain_id;
        initialized_block_env = env;
        block_gas_limit = suggest_gas_limit info (client.gas_limit parent);
        basefee = env.basefee;
      }

  unfoldable pub build_configs : BlockBuilderService → Attributes → ℕ → Option BuildConfig
  unfolding parent_block new_config
  build_configs s attributes slot = elim (parent_block attributes) [
    | err e ↦ none
    | ok parent ↦ elim (get_by_slot s.validator_schedule slot) [
      | none ↦ none
      | some info ↦ some (new_config attributes parent slot info)
    ]
  ]

  -- The first argument tells whether the pool's lock is got in time.
  unfoldable pub prune_bundle_pool : Bool → BlockBuilderService → BuildConfig → BlockBuilderService
  prune_bundle_pool locked s config = record s {
    mev_bundles_pool =
        Pool.prune locked s.mev_bundles_pool (sub_u64 config.block_number 1)
          (sub_u64 config.timestamp 12);
  }

  -- The last event that is ready.
  unfoldable pub last_event :
      Option (Attributes × ℕ) → List (Attributes × ℕ) → Option (Attributes × ℕ)
  last_event event [] = event
  last_event event (next ∷ events) = last_event (some next) events

  unfoldable pub start_builds : Bool → BlockBuilderService → ℕ → Option BuildConfig → Polled
  unfolding prune_bundle_pool
  start_builds locked s slot none = waiting s none
  start_builds locked s slot (some config) =
      waiting (prune_bundle_pool locked s config)
        (some (record { config = config; auction = (slot, config.block_number) }))

  unfoldable pub process : Bool → BlockBuilderService → ℕ → Option (Attributes × ℕ) → Polled
  unfolding start_builds build_configs
  process locked s now none = waiting s none
  process locked s now (some (attributes, slot)) =
      if s.slot == slot
      then waiting s none
      else if leb attributes.timestamp now
      then waiting s none
      else start_builds locked (record s { slot = slot }) slot (build_configs s attributes slot)

  -- `closed`: the stream of events has ended behind those that are ready.
  unfoldable pub poll : Bool → BlockBuilderService → List (Attributes × ℕ) → Bool → ℕ → Polled
  unfolding process last_event
  poll locked s events closed now =
      if closed then terminated else process locked s now (last_event none events)
