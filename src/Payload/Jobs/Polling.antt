-- ===== src/Payload/Jobs/Polling.antt =====
-- One poll of a job of crates/payload/src/job, from a valid job on.
use mathlib.Core.Path.{subst}
use rs_block_builder.Common.{
  ℕ, ◌≡◌, refl, sym, ◌∙◌, Bool, true, false, Option, none, some, inl, inr,
}
use rs_block_builder.Payload.Jobs.{
  PendingBuild, arguments, Task, running, dropped, sent, BuildJob, JobPoll, deadline_reached,
  waiting, cancel_fired, poll_pending, StreamEffect, Strategy, finish_interval, finish_stream,
  start_build, on_ticks, task_of, poll_interval, poll_stream,
}
use rs_block_builder.Payload.State.{BuildState}
use rs_block_builder.Payload.Jobs.Improving.{
  Improves, IsPending, IsJob, IsSent, StreamsOn, TicksOn, finish_stream-StreamsOn,
  finish_interval-TicksOn, start_build-Started, on_ticks-Starts,
}

module _ {Tx Cache Shared : Type 0} (default : Cache) (try_build : Strategy Tx Cache Shared) where
  -- The polls after a start go on from the job before it.
  StreamsOn-Starts :
      (job later : BuildJob Tx Cache) (p : JobPoll (BuildJob Tx Cache) (StreamEffect Tx))
      → later.best_build ≡ job.best_build
      → later.build_config ≡ job.build_config
      → StreamsOn later p
      → StreamsOn job p
  StreamsOn-Starts job later deadline_reached best config h = tt
  StreamsOn-Starts job later cancel_fired best config h = h
  StreamsOn-Starts job later (waiting last effect) best config (now, same, sends) =
      (now, same ∙ config, go effect.make_bid sends)
    where
      go : (o : Option (BuildState Tx)) → IsSent later last o → IsSent job last o
      go none e = e ∙ best
      go (some s) (e, higher, slot) = (e, rw (sym best) higher, rw (sym config) slot)

  TicksOn-Starts :
      (job later : BuildJob Tx Cache) (p : JobPoll (BuildJob Tx Cache) Bool)
      → later.best_build ≡ job.best_build
      → later.build_config ≡ job.build_config
      → TicksOn later p
      → TicksOn job p
  TicksOn-Starts job later deadline_reached best config h = tt
  TicksOn-Starts job later cancel_fired best config h = h
  TicksOn-Starts job later (waiting last reset) best config (now, same, inl e) =
      (now, same ∙ config, inl (e ∙ best))
  TicksOn-Starts job later (waiting last reset) best config (now, same, inr (s, e, higher, slot)) =
      (now, same ∙ config, inr (s, e, rw (sym best) higher, rw (sym config) slot))

  module _ (job : BuildJob Tx Cache) (improves : Improves job.build_config try_build)
      (args : PendingBuild Tx Cache) (same : IsPending job (some args)) where
    ended_stream :
        (task : Task Shared)
        → StreamsOn job (
            finish_stream args
              (record job { pending_build = none })
              (poll_pending (task_of default try_build task args)))
    unfolding task_of finish_stream poll_pending arguments
    ended_stream (sent shared) =
        finish_stream-StreamsOn default try_build (record job { pending_build = none }) improves
          shared args (try_build (arguments shared args)) refl refl same
    ended_stream running = (same, refl, refl)
    ended_stream dropped = (tt, refl, refl)

    ended_interval :
        (task : Task Shared)
        → TicksOn job (
            finish_interval args
              (record job { pending_build = none })
              (poll_pending (task_of default try_build task args)))
    unfolding task_of finish_interval poll_pending arguments
    ended_interval (sent shared) =
        finish_interval-TicksOn default try_build (record job { pending_build = none }) improves
          shared args (try_build (arguments shared args)) refl refl same
    ended_interval running = (same, refl, inl refl)
    ended_interval dropped = (tt, refl, inl refl)

  -- With a strategy that improves whatever it finds behind its handles, and that is not cancelled
  -- without the flag, a poll of a valid stream job before its deadline does not reach the
  -- `unreachable!` and leaves a valid job; a build that it sends to the bidder is the new best
  -- build, for the slot and worth more than the one before, and without one the best build stays.
  pub poll_stream-StreamsOn :
      (job : BuildJob Tx Cache) (improves : Improves job.build_config try_build) (deadline : Bool)
      (task : Task Shared)
      → IsJob job
      → StreamsOn job (poll_stream default try_build job deadline task)
  unfolding poll_stream
  poll_stream-StreamsOn job improves true task h = tt
  poll_stream-StreamsOn job improves false task h =
      let ((best, config, now), (args, e)) = start_build-Started default try_build job h in
      let started = start_build default job in
      StreamsOn-Starts job started _ best config (
        go started started.pending_build refl now
          (subst (λ c. Improves c try_build) (sym config) improves))
    where
      go :
          (u : BuildJob Tx Cache) (o : Option (PendingBuild Tx Cache))
          → u.pending_build ≡ o
          → IsJob u
          → Improves u.build_config try_build
          → StreamsOn u (elim o [
            | none ↦ waiting u (record { make_bid = none; wakes = false })
            | some args ↦
                finish_stream args
                  (record u { pending_build = none })
                  (poll_pending (task_of default try_build task args))
          ])
      go u none e v w = (v, refl, refl)
      go u (some args) e v w = ended_stream u w args (subst (IsPending u) e v) task

  -- With a strategy that improves whatever it finds behind its handles, and that is not cancelled
  -- without the flag, a poll of a valid interval job before its deadline, with any number of ticks
  -- ready, does not reach the `unreachable!` and leaves a valid job with the same best build or one
  -- for the slot that is worth more.
  pub poll_interval-TicksOn :
      (job : BuildJob Tx Cache) (improves : Improves job.build_config try_build) (deadline : Bool)
      (ticks : ℕ) (task : Task Shared)
      → IsJob job
      → TicksOn job (poll_interval default try_build job deadline ticks task)
  unfolding poll_interval
  poll_interval-TicksOn job improves true ticks task h = tt
  poll_interval-TicksOn job improves false ticks task h =
      let (best, config, now) = on_ticks-Starts default try_build ticks job h in
      let ticked = on_ticks default ticks job in
      TicksOn-Starts job ticked _ best config (
        go ticked ticked.pending_build refl now
          (subst (λ c. Improves c try_build) (sym config) improves))
    where
      go :
          (u : BuildJob Tx Cache) (o : Option (PendingBuild Tx Cache))
          → u.pending_build ≡ o
          → IsJob u
          → Improves u.build_config try_build
          → TicksOn u (elim o [
            | none ↦ waiting u false
            | some args ↦
                finish_interval args
                  (record u { pending_build = none })
                  (poll_pending (task_of default try_build task args))
          ])
      go u none e v w = (v, refl, inl refl)
      go u (some args) e v w = ended_interval u w args (subst (IsPending u) e v) task
