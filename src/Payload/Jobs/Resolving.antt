-- ===== src/Payload/Jobs/Resolving.antt =====
-- The future that answers for a resolved job of crates/payload/src/job, and the empty payload that it
-- waits for.
use rs_block_builder.Common.{ℕ, ◌≡◌, refl, true, false, List, [], ◌∷◌, Option, none, some, arith}
use rs_block_builder.Common.Results.{Result, ok, err, ◌>>=◌}
use rs_block_builder.Payload.Evm.{PayloadBuilderError, other_payload_error}
use rs_block_builder.Payload.Jobs.{BuildJob, Task, running, dropped, sent, poll_pending}
use rs_block_builder.Payload.Jobs.Resolve.{
  ResolveBestPayload, Resolved, still_waiting, resolved, polled_after_completion, poll_empty,
  poll_resolve, try_build_empty, seal_empty, build_empty_payload, sealed, resolve,
}
use rs_block_builder.Payload.State.{BuildConfig, BuildState, new}

module _ {Build : Type 0} where
  abbrev proceed : (ResolveBestPayload Build → Resolved Build) → Resolved Build → Resolved Build
  proceed continue (still_waiting future) = continue future
  proceed continue (resolved r) = resolved r
  proceed continue polled_after_completion = polled_after_completion

  -- Polls until the future is done; each finds the task of the empty payload as it stands.
  unfoldable pub poll_all :
      ResolveBestPayload Build → List (Task (Result PayloadBuilderError Build)) → Resolved Build
  poll_all future [] = still_waiting future
  poll_all future (task ∷ tasks) = proceed (λ next. poll_all next tasks) (poll_resolve future task)

  abbrev pub waiting_for_empty : ResolveBestPayload Build
  waiting_for_empty = record { best_payload = none; empty_payload = true }

  -- The first task that is not running any more decides; a lost answer is an error.
  abbrev pub first_answer : List (Task (Result PayloadBuilderError Build)) → Resolved Build
  first_answer [] = still_waiting waiting_for_empty
  first_answer (running ∷ tasks) = first_answer tasks
  first_answer (dropped ∷ tasks) = resolved (err other_payload_error)
  first_answer (sent r ∷ tasks) = resolved r

  poll_all-empty :
      (tasks : List (Task (Result PayloadBuilderError Build)))
      → poll_all waiting_for_empty tasks ≡ first_answer tasks
  unfolding poll_all poll_resolve poll_empty poll_pending
  poll_all-empty [] = refl
  poll_all-empty (running ∷ tasks) = poll_all-empty tasks
  poll_all-empty (dropped ∷ tasks) = refl
  poll_all-empty (sent r ∷ tasks) = refl

module _ {Tx Build : Type 0}
    (into_empty_build : BuildState Tx → Result PayloadBuilderError Build) where
  -- The future of a resolved interval job answers at its first poll with the best build if that can
  -- be sealed. Otherwise it answers with the empty payload's task, or an error if that is lost, at
  -- the first poll that finds it ended, and is never polled after its completion.
  pub poll_all-resolve :
      {Cache : Type 0} (job : BuildJob Tx Cache) (task : Task (Result PayloadBuilderError Build))
      (tasks : List (Task (Result PayloadBuilderError Build)))
      → poll_all (resolve into_empty_build job).1 (task ∷ tasks)
        ≡ elim (sealed into_empty_build job.best_build) [
          | some build ↦ resolved (ok build)
          | none ↦ first_answer (task ∷ tasks)
        ]
  unfolding resolve poll_all poll_resolve
  poll_all-resolve job task tasks = go (sealed into_empty_build job.best_build)
    where
      go :
          (o : Option Build)
          → poll_all
              (record {
                best_payload = o;
                empty_payload = elim o [ none ↦ true | some build ↦ false ];
              })
              (task ∷ tasks)
            ≡ elim o [ some build ↦ resolved (ok build) | none ↦ first_answer (task ∷ tasks) ]
      go none = poll_all-empty (task ∷ tasks)
      go (some build) = refl

  -- Without the pre-block call's error the empty payload is a sealed new state of the configuration,
  -- with it that error; the `unreachable!` is not reached.
  pub build_empty_payload_lem :
      {ExecDb : Type 0} (pre_block : BuildState Tx → Result PayloadBuilderError ExecDb)
      (config : BuildConfig) (builder : ℕ)
      → build_empty_payload into_empty_build pre_block config builder
        ≡ some (pre_block (new config builder) >>= (λ db. into_empty_build (new config builder)))
  unfolding build_empty_payload try_build_empty seal_empty
  build_empty_payload_lem pre_block config builder = ground arith
