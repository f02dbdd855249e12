-- ===== src/Payload/Jobs/Resolve.antt =====
-- The future of a resolved payload in crates/payload/src/job, and the empty strategy of
-- strategy/empty.rs. Sealing and the pre-block call are parameters.
use rs_block_builder.Common.{ℕ, Bool, true, false, Option, none, some, if◌then◌else◌}
use rs_block_builder.Common.Results.{Result, ok, err, ◌>>=◌}
use rs_block_builder.Payload.Evm.{PayloadBuilderError}
use rs_block_builder.Payload.Jobs.{BuildJob, Poll, not_ready, ready, Task, poll_pending}
use rs_block_builder.Payload.State.{BuildConfig, BuildState, new}
use rs_block_builder.Payload.Strategy.{BuildOutcome, better, aborted, cancelled, no_outcome}

-- `ResolveBestPayload`; nothing ever sets its third field.
pub record ResolveBestPayload (Build : Type 0) : Type 0 where
  pub best_payload : Option Build
  pub empty_payload : Bool

-- A poll of the future: pending, its answer, or the panic of a poll after its completion.
pub data Resolved (Build : Type 0) : Type 0 where
  still_waiting : ResolveBestPayload Build → Resolved Build
  resolved : Result PayloadBuilderError Build → Resolved Build
  polled_after_completion : Resolved Build

module _ {Build : Type 0} where
  unfoldable pub poll_empty : Poll (Result PayloadBuilderError Build) → Resolved Build
  poll_empty not_ready = still_waiting (record { best_payload = none; empty_payload = true })
  poll_empty (ready r) = resolved r

  unfoldable pub poll_resolve :
      ResolveBestPayload Build → Task (Result PayloadBuilderError Build) → Resolved Build
  unfolding poll_empty poll_pending
  poll_resolve future task = elim future.best_payload [
    | some best ↦ resolved (ok best)
    | none ↦
        if future.empty_payload then poll_empty (poll_pending task) else polled_after_completion
  ]

-- `EmptyStrat::try_build`, with the result of the pre-block call.
unfoldable pub try_build_empty :
    {Tx ExecDb : Type 0}
    → (BuildState Tx → Result PayloadBuilderError ExecDb)
    → BuildConfig
    → ℕ
    → Result PayloadBuilderError (BuildOutcome Tx)
try_build_empty pre_block config builder = do
  let s = new config builder
  db ← pre_block s
  ok (better s)

-- What sealing takes from outside.
module _ {Tx Build : Type 0}
    (into_empty_build : BuildState Tx → Result PayloadBuilderError Build) where
  -- Nothing for the `unreachable!`.
  unfoldable pub seal_empty :
      Result PayloadBuilderError (BuildOutcome Tx) → Option (Result PayloadBuilderError Build)
  seal_empty (ok (better s)) = some (into_empty_build s)
  seal_empty (err e) = some (err e)
  seal_empty (ok (aborted value)) = none
  seal_empty (ok cancelled) = none
  seal_empty (ok no_outcome) = none

  unfoldable pub build_empty_payload :
      {ExecDb : Type 0}
      → (BuildState Tx → Result PayloadBuilderError ExecDb)
      → BuildConfig
      → ℕ
      → Option (Result PayloadBuilderError Build)
  unfolding try_build_empty seal_empty
  build_empty_payload pre_block config builder =
      seal_empty (try_build_empty pre_block config builder)

  -- `IntervalBuildJob::best_payload`: the best build sealed, or an empty payload.
  unfoldable pub interval_best_payload :
      {Cache ExecDb : Type 0}
      → (BuildState Tx → Result PayloadBuilderError ExecDb)
      → ℕ
      → BuildJob Tx Cache
      → Option (Result PayloadBuilderError Build)
  unfolding build_empty_payload
  interval_best_payload pre_block builder job = elim job.best_build [
    | some s ↦ some (into_empty_build s)
    | none ↦ build_empty_payload pre_block job.build_config builder
  ]

  unfoldable pub sealed : Option (BuildState Tx) → Option Build
  sealed none = none
  sealed (some s) = elim (into_empty_build s) [ ok build ↦ some build | err e ↦ none ]

  -- `IntervalBuildJob::resolve`: the job without its best build, and the future. The empty payload is
  -- asked for when there is nothing else.
  unfoldable pub resolve :
      {Cache : Type 0} → BuildJob Tx Cache → BuildJob Tx Cache × ResolveBestPayload Build
  unfolding sealed
  resolve job =
      let best = sealed job.best_build in
      (
        record job { best_build = none },
        record {
          best_payload = best;
          empty_payload = elim best [ none ↦ true | some build ↦ false ];
        },
      )
