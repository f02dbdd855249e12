-- ===== src/Payload/Jobs.antt =====
-- crates/payload/src/job: the interval job and the stream job. One poll is a function of what it
-- finds: whether the deadline is reached, how many ticks of the interval are ready, and whether the task
-- of the pending build has ended.
pub mod Improving
pub mod Streaming
pub mod Resolve
pub mod Resolving
pub mod Polling
use rs_block_builder.Common.{
  ℕ, zero, suc, ◌+◌, Bool, true, false, Option, none, some, if◌then◌else◌,
}
use rs_block_builder.Common.Results.{Result, ok, err, ◌>>=◌}
use rs_block_builder.Payload.Evm.{PayloadBuilderError, other_payload_error}
use rs_block_builder.Payload.State.{BuildConfig, BuildState, new}
use rs_block_builder.Payload.Strategy.{BuildOutcome, better, aborted, cancelled, no_outcome}

-- `PayloadBuilderMetrics` without the histogram.
pub record PayloadBuilderMetrics : Type 0 where
  pub initiated_payload_builds : ℕ
  pub successful_payload_builds : ℕ
  pub failed_payload_builds : ℕ

unfoldable pub inc_initiated_payload_builds : PayloadBuilderMetrics → PayloadBuilderMetrics
inc_initiated_payload_builds m = record m {
  initiated_payload_builds = m.initiated_payload_builds + 1;
}

unfoldable pub inc_successful_payload_builds : PayloadBuilderMetrics → PayloadBuilderMetrics
inc_successful_payload_builds m = record m {
  successful_payload_builds = m.successful_payload_builds + 1;
}

unfoldable pub inc_failed_payload_builds : PayloadBuilderMetrics → PayloadBuilderMetrics
inc_failed_payload_builds m = record m { failed_payload_builds = m.failed_payload_builds + 1 }

-- What a poll of a future gives.
pub data Poll (A : Type 0) : Type 0 where
  not_ready : Poll A
  ready : A → Poll A

-- The task behind a oneshot channel: it runs, it is gone without an answer, or it has answered.
pub data Task (A : Type 0) : Type 0 where
  running dropped : Task A
  sent : A → Task A

-- What the jobs hand to a strategy. `shared` is what the handles `client`, `pool` and `bundle_pool` lead
-- to while the build runs, which can be another thing for each build.
pub record BuildArguments (Tx Cache Shared : Type 0) : Type 0 where
  pub shared : Shared
  pub cached_reads : Cache
  pub build_config : BuildConfig
  pub cancel : Bool
  pub best_build : Option (BuildState Tx)

-- The arguments of a pending build that are fixed when it is spawned.
pub record PendingBuild (Tx Cache : Type 0) : Type 0 where
  pub cached_reads : Cache
  pub build_config : BuildConfig
  pub cancel : Bool
  pub best_build : Option (BuildState Tx)

unfoldable pub arguments :
    {Tx Cache Shared : Type 0} → Shared → PendingBuild Tx Cache → BuildArguments Tx Cache Shared
arguments shared args = record {
  shared = shared;
  cached_reads = args.cached_reads;
  build_config = args.build_config;
  cancel = args.cancel;
  best_build = args.best_build;
}

-- The fields that `IntervalBuildJob` and `StreamBuildJob` change.
pub record BuildJob (Tx Cache : Type 0) : Type 0 where
  pub build_config : BuildConfig
  pub best_build : Option (BuildState Tx)
  pub pending_build : Option (PendingBuild Tx Cache)
  pub cached_reads : Option Cache
  pub metrics : PayloadBuilderMetrics

-- `Poll::Ready(Ok(()))` at the deadline, `Poll::Pending` with what a poll does besides, or the
-- `unreachable!` of a cancelled build.
pub data JobPoll (Job Effect : Type 0) : Type 0 where
  deadline_reached : JobPoll Job Effect
  waiting : Job → Effect → JobPoll Job Effect
  cancel_fired : JobPoll Job Effect

-- `PendingBuild::poll`: a lost answer is an error like one of the build.
unfoldable pub poll_pending :
    {A : Type 0} → Task (Result PayloadBuilderError A) → Poll (Result PayloadBuilderError A)
poll_pending running = not_ready
poll_pending dropped = ready (err other_payload_error)
poll_pending (sent r) = ready r

-- What a stream job does besides: the build sent to the bidder, and whether it wakes itself.
pub record StreamEffect (Tx : Type 0) : Type 0 where
  pub make_bid : Option (BuildState Tx)
  pub wakes : Bool

-- A strategy, with what its build has cached.
abbrev pub Strategy : Type 0 → Type 0 → Type 0 → Type 0
Strategy Tx Cache Shared =
    BuildArguments Tx Cache Shared → Result PayloadBuilderError (BuildOutcome Tx × Cache)

module _ {Tx Cache : Type 0} where
  -- The answer of a pending build; a panic in the strategy drops the channel.
  unfoldable pub answer :
      Result PayloadBuilderError (BuildOutcome Tx × Cache)
      → Task (Result PayloadBuilderError (BuildOutcome Tx × Cache))
  answer (ok (better s, cached)) = sent (ok (better s, cached))
  answer (ok (aborted value, cached)) = sent (ok (aborted value, cached))
  answer (ok (cancelled, cached)) = sent (ok (cancelled, cached))
  answer (ok (no_outcome, cached)) = dropped
  answer (err e) = sent (err e)

  -- The end of a poll of the interval job, from a job without its pending build; the effect tells
  -- whether the interval is reset.
  unfoldable pub finish_interval :
      PendingBuild Tx Cache
      → BuildJob Tx Cache
      → Poll (Result PayloadBuilderError (BuildOutcome Tx × Cache))
      → JobPoll (BuildJob Tx Cache) Bool
  finish_interval args job not_ready = waiting (record job { pending_build = some args }) false
  finish_interval args job (ready (err e)) =
      waiting (record job { metrics = inc_failed_payload_builds job.metrics }) false
  finish_interval args job (ready (ok (better s, cached))) =
      waiting
        (record job {
          metrics = inc_successful_payload_builds job.metrics;
          cached_reads = some cached;
          best_build = some s;
        })
        true
  finish_interval args job (ready (ok (aborted value, cached))) =
      waiting
        (record job {
          metrics = inc_successful_payload_builds job.metrics;
          cached_reads = some cached;
        })
        true
  finish_interval args job (ready (ok (cancelled, cached))) = cancel_fired
  finish_interval args job (ready (ok (no_outcome, cached))) = cancel_fired

  -- The end of a poll of the stream job.
  unfoldable pub finish_stream :
      PendingBuild Tx Cache
      → BuildJob Tx Cache
      → Poll (Result PayloadBuilderError (BuildOutcome Tx × Cache))
      → JobPoll (BuildJob Tx Cache) (StreamEffect Tx)
  finish_stream args job not_ready =
      waiting (record job { pending_build = some args }) (record { make_bid = none; wakes = false })
  finish_stream args job (ready (err e)) =
      waiting (record job { metrics = inc_failed_payload_builds job.metrics })
        (record { make_bid = none; wakes = false })
  finish_stream args job (ready (ok (better s, cached))) =
      waiting
        (record job {
          metrics = inc_successful_payload_builds job.metrics;
          cached_reads = some cached;
          best_build = some s;
        })
        (record { make_bid = some s; wakes = true })
  finish_stream args job (ready (ok (aborted value, cached))) =
      waiting (record job { cached_reads = some cached }) (record { make_bid = none; wakes = true })
  finish_stream args job (ready (ok (cancelled, cached))) = cancel_fired
  finish_stream args job (ready (ok (no_outcome, cached))) = cancel_fired

module _ {Tx Cache : Type 0} (default : Cache) where
  -- The spawning of a build, which both jobs have.
  unfoldable pub spawn_build : BuildJob Tx Cache → BuildJob Tx Cache
  spawn_build job = record job {
    metrics = inc_initiated_payload_builds job.metrics;
    cached_reads = none;
    pending_build = some (record {
      cached_reads = elim job.cached_reads [ none ↦ default | some cached ↦ cached ];
      build_config = job.build_config;
      cancel = false;
      best_build = job.best_build;
    });
  }

  unfoldable pub start_build : BuildJob Tx Cache → BuildJob Tx Cache
  unfolding spawn_build
  start_build job = elim job.pending_build [ none ↦ spawn_build job | some args ↦ job ]

  -- The loop over the ticks that are ready.
  unfoldable pub on_ticks : ℕ → BuildJob Tx Cache → BuildJob Tx Cache
  unfolding start_build
  on_ticks zero job = job
  on_ticks (suc ticks) job = on_ticks ticks (start_build job)

  module _ {Shared : Type 0} (try_build : Strategy Tx Cache Shared) where
    -- The task of the pending build: it runs, it is lost, or it has ended with the answer of the strategy
    -- for what it found behind the handles.
    unfoldable pub task_of :
        Task Shared
        → PendingBuild Tx Cache
        → Task (Result PayloadBuilderError (BuildOutcome Tx × Cache))
    unfolding answer arguments
    task_of running args = running
    task_of dropped args = dropped
    task_of (sent shared) args = answer (try_build (arguments shared args))

    unfoldable pub poll_interval :
        BuildJob Tx Cache → Bool → ℕ → Task Shared → JobPoll (BuildJob Tx Cache) Bool
    unfolding on_ticks finish_interval poll_pending task_of
    poll_interval job deadline ticks task =
        let ticked = on_ticks ticks job in
        if deadline then deadline_reached else elim ticked.pending_build [
          | none ↦ waiting ticked false
          | some args ↦
              finish_interval args (record ticked { pending_build = none })
                (poll_pending (task_of task args))
        ]

    unfoldable pub poll_stream :
        BuildJob Tx Cache → Bool → Task Shared → JobPoll (BuildJob Tx Cache) (StreamEffect Tx)
    unfolding start_build finish_stream poll_pending task_of
    poll_stream job deadline task =
        let started = start_build job in
        if deadline then deadline_reached else elim started.pending_build [
          | none ↦ waiting started (record { make_bid = none; wakes = false })
          | some args ↦
              finish_stream args (record started { pending_build = none })
                (poll_pending (task_of task args))
        ]
