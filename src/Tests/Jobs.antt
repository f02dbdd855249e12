-- ===== src/Tests/Jobs.antt =====
-- The theorems about crates/payload/src/job, applied to jobs that run the bundle strategy on the chain
-- of the tests.
use rs_block_builder.Common.{ℕ, ◌≡◌, refl, Bool, true, false, List, [], ◌∷◌, none, some, arith}
use rs_block_builder.Common.Results.{Result, ok, err}
use rs_block_builder.Payload.Bidder.{receive_builds}
use rs_block_builder.Payload.Evm.{PayloadBuilderError, other_payload_error}
use rs_block_builder.Payload.Jobs.{
  BuildJob, Strategy, Task, running, dropped, sent, poll_interval, poll_stream,
}
use rs_block_builder.Payload.Jobs.Improving.{Improves, StreamsOn, TicksOn}
use rs_block_builder.Payload.Jobs.Polling.{poll_stream-StreamsOn, poll_interval-TicksOn}
use rs_block_builder.Payload.Jobs.Resolve.{resolve, sealed, resolved}
use rs_block_builder.Payload.Jobs.Resolving.{poll_all, first_answer, poll_all-resolve}
use rs_block_builder.Payload.Jobs.Streaming.{
  IsIncreasing, last_of, sent_builds, sent_builds-IsIncreasing, receive_builds-sent_builds,
}
use rs_block_builder.Payload.Policy.{AuctionBidInfo, new, devnet_policy}
use rs_block_builder.Payload.Strategy.Jobs.{Handles, bundles_strategy, bundles_strategy-Improves}
use rs_block_builder.Tests.Data.{one_byte, chain, config, best, finite, pool}

abbrev pub strategy : Strategy ℕ ℕ (Handles ℕ ℕ ℕ (List ℕ))
strategy = bundles_strategy chain best finite one_byte 77

bundles_strategy-Improves_example : Improves config strategy
bundles_strategy-Improves_example =
    bundles_strategy-Improves chain best finite one_byte 77 config (omega arith)

improves : Improves config strategy
improves = bundles_strategy-Improves chain best finite one_byte 77 config (omega arith)

-- Two states of the pools, and a client whose pre-block call fails.
abbrev early : Handles ℕ ℕ ℕ (List ℕ)
early = record {
  client = λ s. ok 0;
  pool = 20 ∷ 40 ∷ 13 ∷ [];
  bundle_pool = pool;
  locked = true;
  reads = 3;
}

abbrev late : Handles ℕ ℕ ℕ (List ℕ)
late = record early { pool = 20 ∷ 21 ∷ [] }

abbrev failing : Handles ℕ ℕ ℕ (List ℕ)
failing = record early { client = λ s. err other_payload_error }

abbrev pub job : BuildJob ℕ ℕ
job = record {
  build_config = config;
  best_build = none;
  pending_build = none;
  cached_reads = none;
  metrics = record {
    initiated_payload_builds = 0;
    successful_payload_builds = 0;
    failed_payload_builds = 0;
  };
}

poll_stream-StreamsOn_example : StreamsOn job (poll_stream 0 strategy job false (sent early))
poll_stream-StreamsOn_example = poll_stream-StreamsOn 0 strategy job improves false (sent early) tt

poll_interval-TicksOn_example : TicksOn job (poll_interval 0 strategy job false 2 (sent early))
poll_interval-TicksOn_example =
    poll_interval-TicksOn 0 strategy job improves false 2 (sent early) tt

-- A build that is not done and then fails, one that is retried on the same pools, one that is lost, one on
-- other pools, and the deadline.
abbrev pub polls : List (Bool × Task (Handles ℕ ℕ ℕ (List ℕ)))
polls =
    (false, running)
    ∷ (false, sent failing)
    ∷ (false, sent early)
    ∷ (false, dropped)
    ∷ (false, sent late)
    ∷ (true, running)
    ∷ []

sent_builds-IsIncreasing_example : IsIncreasing 7 0 (sent_builds 0 strategy job polls)
sent_builds-IsIncreasing_example = sent_builds-IsIncreasing 0 strategy polls job improves tt

receive_builds-sent_builds_example :
    (info : AuctionBidInfo ℕ) × (receive_builds devnet_policy
        (some (new 7 10))
        (sent_builds 0 strategy job polls)
      ≡ some info)
    × (info.best_block ≡ last_of none (sent_builds 0 strategy job polls))
receive_builds-sent_builds_example =
    receive_builds-sent_builds 0 strategy job devnet_policy 10 polls improves refl refl

abbrev tasks : List (Task (Result PayloadBuilderError ℕ))
tasks = sent (ok 5) ∷ []

poll_all-resolve_example :
    poll_all (resolve (λ s. ok 1) job).1 (running ∷ tasks)
    ≡ elim (sealed (λ s. ok 1) job.best_build) [
      | some build ↦ resolved (ok build)
      | none ↦ first_answer (running ∷ tasks)
    ]
poll_all-resolve_example = poll_all-resolve (λ s. ok 1) job running tasks
