-- ===== src/Payload/Jobs/Improving.antt =====
-- The best build of a job of crates/payload/src/job only improves, and a stream job sends the bidder
-- exactly its improvements.
use rs_block_builder.Common.{
  ℕ, zero, suc, ◌<◌, ◌≡◌, ◌≢◌, ◌⊎◌, refl, ◌∙◌, Bool, false, Option, none, some, arith,
}
use rs_block_builder.Common.Results.{Result, ok, err}
use rs_block_builder.Payload.Evm.{PayloadBuilderError}
use rs_block_builder.Payload.Jobs.{
  BuildArguments, PendingBuild, arguments, BuildJob, JobPoll, deadline_reached, waiting,
  cancel_fired, poll_pending, StreamEffect, Strategy, answer, finish_interval, finish_stream,
  spawn_build, start_build, on_ticks,
}
use rs_block_builder.Payload.State.{BuildConfig, BuildState, block_value}
use rs_block_builder.Payload.Strategy.{BuildOutcome, better, aborted, cancelled, no_outcome}

-- The value of the best build, 0 without one.
abbrev pub best_value : {Tx : Type 0} → Option (BuildState Tx) → ℕ
best_value none = 0
best_value (some s) = block_value s

module _ {Tx Cache : Type 0} where
  -- What a strategy does, whatever it finds behind the handles: a better build is for the slot that was
  -- asked for and worth more than the best one it was given, and without the flag the build is not
  -- cancelled.
  pub record Improves {Shared : Type 0} (config : BuildConfig)
      (try_build : Strategy Tx Cache Shared) : Type 0 where
    pub higher :
        (args : BuildArguments Tx Cache Shared) (s : BuildState Tx) (cached : Cache)
        → args.build_config ≡ config
        → try_build args ≡ ok (better s, cached)
        → (best_value args.best_build < block_value s) × (s.build_config.slot ≡ config.slot)
    pub not_cancelled :
        (args : BuildArguments Tx Cache Shared) (cached : Cache)
        → args.build_config ≡ config
        → args.cancel ≡ false
        → try_build args ≢ ok (cancelled, cached)

  -- The pending build of a job was given the job's configuration, its best build and an unset flag.
  abbrev pub IsPending : BuildJob Tx Cache → Option (PendingBuild Tx Cache) → Type 0
  IsPending job none = Unit
  IsPending job (some args) =
      (args.best_build ≡ job.best_build)
      × (args.build_config ≡ job.build_config)
      × (args.cancel ≡ false)

  abbrev pub IsJob : BuildJob Tx Cache → Type 0
  IsJob job = IsPending job job.pending_build

  -- A job after some polls: the best build is the same, or one for the slot that is worth more.
  abbrev pub GoesOn : BuildJob Tx Cache → BuildJob Tx Cache → Type 0
  GoesOn job later =
      IsJob later
      × (later.build_config ≡ job.build_config)
      × ((later.best_build ≡ job.best_build)
          ⊎ ((s : BuildState Tx) × (later.best_build ≡ some s)
              × (best_value job.best_build < block_value s)
              × (s.build_config.slot ≡ job.build_config.slot)))

  -- A build that is sent is the new best one, and without one the best build stays.
  abbrev pub IsSent : BuildJob Tx Cache → BuildJob Tx Cache → Option (BuildState Tx) → Type 0
  IsSent job later none = later.best_build ≡ job.best_build
  IsSent job later (some s) =
      (later.best_build ≡ some s)
      × (best_value job.best_build < block_value s)
      × (s.build_config.slot ≡ job.build_config.slot)

  abbrev pub StreamsOn : BuildJob Tx Cache → JobPoll (BuildJob Tx Cache) (StreamEffect Tx) → Type 0
  StreamsOn job deadline_reached = Unit
  StreamsOn job cancel_fired = ⊥
  StreamsOn job (waiting later effect) =
      IsJob later × (later.build_config ≡ job.build_config) × IsSent job later effect.make_bid

  abbrev pub TicksOn : BuildJob Tx Cache → JobPoll (BuildJob Tx Cache) Bool → Type 0
  TicksOn job deadline_reached = Unit
  TicksOn job cancel_fired = ⊥
  TicksOn job (waiting later reset) = GoesOn job later

  module _ {Shared : Type 0} (default : Cache) (try_build : Strategy Tx Cache Shared) where
    pub finish_stream-StreamsOn :
        (job : BuildJob Tx Cache) (improves : Improves job.build_config try_build) (shared : Shared)
        (args : PendingBuild Tx Cache) (r : Result PayloadBuilderError (BuildOutcome Tx × Cache))
        → try_build (arguments shared args) ≡ r
        → job.pending_build ≡ none
        → IsPending job (some args)
        → StreamsOn job (finish_stream args job (poll_pending (answer r)))
    unfolding finish_stream poll_pending answer arguments
    finish_stream-StreamsOn job improves shared args (ok (better s, cached)) e p same =
        ground (arith, improves.higher (arguments shared args) s cached same.1 e)
    finish_stream-StreamsOn job improves shared args (ok (aborted value, cached)) e p same =
        ground arith
    finish_stream-StreamsOn job improves shared args (ok (cancelled, cached)) e p same =
        absurd (improves.not_cancelled (arguments shared args) cached same.1 same.2 e)
    finish_stream-StreamsOn job improves shared args (ok (no_outcome, cached)) e p same =
        ground arith
    finish_stream-StreamsOn job improves shared args (err x) e p same = ground arith

    pub finish_interval-TicksOn :
        (job : BuildJob Tx Cache) (improves : Improves job.build_config try_build) (shared : Shared)
        (args : PendingBuild Tx Cache) (r : Result PayloadBuilderError (BuildOutcome Tx × Cache))
        → try_build (arguments shared args) ≡ r
        → job.pending_build ≡ none
        → IsPending job (some args)
        → TicksOn job (finish_interval args job (poll_pending (answer r)))
    unfolding finish_interval poll_pending answer arguments
    finish_interval-TicksOn job improves shared args (ok (better s, cached)) e p same =
        ground (arith, improves.higher (arguments shared args) s cached same.1 e)
    finish_interval-TicksOn job improves shared args (ok (aborted value, cached)) e p same =
        ground arith
    finish_interval-TicksOn job improves shared args (ok (cancelled, cached)) e p same =
        absurd (improves.not_cancelled (arguments shared args) cached same.1 same.2 e)
    finish_interval-TicksOn job improves shared args (ok (no_outcome, cached)) e p same =
        ground arith
    finish_interval-TicksOn job improves shared args (err x) e p same = ground arith

    -- A started build, and nothing else.
    abbrev pub Starts : BuildJob Tx Cache → BuildJob Tx Cache → Type 0
    Starts job later =
        (later.best_build ≡ job.best_build) × (later.build_config ≡ job.build_config) × IsJob later

    -- A started job has a pending build.
    abbrev pub Started : BuildJob Tx Cache → BuildJob Tx Cache → Type 0
    Started job later =
        Starts job later × ((args : PendingBuild Tx Cache) × (later.pending_build ≡ some args))

    pub start_build-Started :
        (job : BuildJob Tx Cache) → IsJob job → Started job (start_build default job)
    unfolding start_build spawn_build
    start_build-Started job h = go job.pending_build refl
      where
        go :
            (o : Option (PendingBuild Tx Cache))
            → job.pending_build ≡ o
            → Started job (elim o [ none ↦ spawn_build default job | some args ↦ job ])
        go none e = ((refl, refl, (refl, refl, refl)), (_, refl))
        go (some args) e = ((refl, refl, h), (args, e))

    pub on_ticks-Starts :
        (ticks : ℕ) (job : BuildJob Tx Cache) → IsJob job → Starts job (on_ticks default ticks job)
    unfolding on_ticks
    on_ticks-Starts zero job h = (refl, refl, h)
    on_ticks-Starts (suc ticks) job h =
        let (best, config, now) = (start_build-Started job h).0 in
        let (best_later, config_later, later) =
          on_ticks-Starts ticks (start_build default job) now in
        (best_later ∙ best, config_later ∙ config, later)
