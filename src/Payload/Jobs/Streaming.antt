-- ===== src/Payload/Jobs/Streaming.antt =====
-- The builds that a stream job of crates/payload/src/job/stream_job.rs sends to the bidder of
-- bidder/service.rs over any number of polls.
use mathlib.Core.Path.{subst}
use rs_block_builder.Common.{
  ℕ, ◌<◌, ◌≡◌, refl, ap, sym, ◌∙◌, Bool, true, List, [], ◌∷◌, Option, none, some, arith,
}
use rs_block_builder.Payload.Bidder.{is_better, receive_build, receive_builds}
use rs_block_builder.Payload.Jobs.{
  BuildJob, Task, JobPoll, deadline_reached, waiting, cancel_fired, StreamEffect, Strategy,
  poll_stream,
}
use rs_block_builder.Payload.Jobs.Improving.{best_value, Improves, IsJob, IsSent, StreamsOn}
use rs_block_builder.Payload.Jobs.Polling.{poll_stream-StreamsOn}
use rs_block_builder.Payload.Policy.{
  AuctionBidInfo, new, update_block_info, BidSelectionPolicies, policy_block_value,
  is_better_block_value,
}
use rs_block_builder.Payload.State.{BuildState, block_value}

module _ {Tx : Type 0} where
  -- Builds for a slot, each worth more than the one before it and than `floor`.
  abbrev pub IsIncreasing : ℕ → ℕ → List (BuildState Tx) → Type 0
  IsIncreasing slot floor [] = Unit
  IsIncreasing slot floor (s ∷ rest) =
      (s.build_config.slot ≡ slot)
      × (floor < block_value s)
      × IsIncreasing slot (block_value s) rest

  abbrev pub last_of : Option (BuildState Tx) → List (BuildState Tx) → Option (BuildState Tx)
  last_of best [] = best
  last_of best (s ∷ rest) = last_of (some s) rest

  abbrev pub sent_first : Option (BuildState Tx) → List (BuildState Tx) → List (BuildState Tx)
  sent_first none rest = rest
  sent_first (some s) rest = s ∷ rest

module _ {Tx Cache Shared : Type 0} (default : Cache) (try_build : Strategy Tx Cache Shared) where
  -- The builds sent over some polls, each with whether the deadline is reached and how the task of the
  -- pending build stands, which may find other pools in each build; nothing after the end of the job.
  unfoldable pub sent_builds : BuildJob Tx Cache → List (Bool × Task Shared) → List (BuildState Tx)
  sent_builds job [] = []
  sent_builds job ((deadline, task) ∷ rest) =
      elim (poll_stream default try_build job deadline task) [
        | deadline_reached ↦ []
        | cancel_fired ↦ []
        | waiting later effect ↦ sent_first effect.make_bid (sent_builds later rest)
      ]

  -- With a strategy that improves whatever the client and the pools hold in each of its builds, and
  -- that is not cancelled without the flag, the builds that a valid stream job sends over any
  -- polls, between which its tasks may run on, be lost, fail or find other pools, are for its slot,
  -- and each is worth strictly more than the one before it, the first more than the job's best
  -- build.
  pub sent_builds-IsIncreasing :
      (polls : List (Bool × Task Shared)) (job : BuildJob Tx Cache)
      → Improves job.build_config try_build
      → IsJob job
      → IsIncreasing job.build_config.slot (best_value job.best_build) (sent_builds job polls)
  unfolding sent_builds
  sent_builds-IsIncreasing [] job improves h = tt
  sent_builds-IsIncreasing ((deadline, task) ∷ rest) job improves h =
      go (poll_stream default try_build job deadline task)
        (poll_stream-StreamsOn default try_build job improves deadline task h)
        (λ later config now.
          sent_builds-IsIncreasing rest later
            (subst (λ c. Improves c try_build) (sym config) improves) now)
    where
      on :
          (later : BuildJob Tx Cache) (o : Option (BuildState Tx))
          → later.build_config ≡ job.build_config
          → IsSent job later o
          → IsIncreasing later.build_config.slot
              (best_value later.best_build)
              (sent_builds later rest)
          → IsIncreasing job.build_config.slot
              (best_value job.best_build)
              (sent_first o (sent_builds later rest))
      on later none config e r =
          subst (λ b. IsIncreasing job.build_config.slot (best_value b) (sent_builds later rest)) e
            (subst (λ c. IsIncreasing c.slot (best_value later.best_build) (sent_builds later rest))
              config r)
      on later (some s) config (e, higher, slot) r = (
        slot,
        higher,
        subst (λ b. IsIncreasing job.build_config.slot (best_value b) (sent_builds later rest)) e
            (subst (λ c. IsIncreasing c.slot (best_value later.best_build) (sent_builds later rest))
              config r),
      )

      go :
          (p : JobPoll (BuildJob Tx Cache) (StreamEffect Tx))
          → StreamsOn job p
          → ((later : BuildJob Tx Cache)
              → later.build_config ≡ job.build_config
              → IsJob later
              → IsIncreasing later.build_config.slot
                  (best_value later.best_build)
                  (sent_builds later rest))
          → IsIncreasing job.build_config.slot (best_value job.best_build) (elim p [
            | deadline_reached ↦ []
            | cancel_fired ↦ []
            | waiting later effect ↦ sent_first effect.make_bid (sent_builds later rest)
          ])
      go deadline_reached v others = tt
      go cancel_fired v others = tt
      go (waiting later effect) (now, same, sends) others =
          on later effect.make_bid same sends (others later same now)

module _ {Tx : Type 0} (policy : BidSelectionPolicies) where
  is_better-higher :
      (s : BuildState Tx) (o : Option (BuildState Tx))
      → best_value o < block_value s
      → is_better policy o s ≡ true
  unfolding is_better is_better_block_value policy_block_value block_value
  is_better-higher s none h = refl
  is_better-higher s (some best) h = ground arith

  receive_build-higher :
      (s : BuildState Tx) (info : AuctionBidInfo Tx)
      → info.best_block_value ≡ best_value info.best_block
      → s.build_config.slot ≡ info.slot
      → info.best_block_value < block_value s
      → receive_build policy (some info) s
        ≡ some (record info { best_block = some s; best_block_value = block_value s })
  unfolding receive_build update_block_info policy_block_value block_value
  receive_build-higher s info v slot higher =
      let wins = is_better-higher s info.best_block (omega (arith, v, higher)) in
      ground (arith, wins, slot, higher)

  -- A bidder that receives improving builds for its slot ends with the last one.
  receive_builds-IsIncreasing :
      (builds : List (BuildState Tx)) (info : AuctionBidInfo Tx)
      → info.best_block_value ≡ best_value info.best_block
      → IsIncreasing info.slot info.best_block_value builds
      → (later : AuctionBidInfo Tx) × (receive_builds policy (some info) builds ≡ some later)
        × (later.best_block ≡ last_of info.best_block builds)
        × (later.best_block_value ≡ best_value (last_of info.best_block builds))
  unfolding receive_builds
  receive_builds-IsIncreasing [] info v h = (info, refl, refl, v)
  receive_builds-IsIncreasing (s ∷ rest) info v (slot, higher, others) =
      let next = record info { best_block = some s; best_block_value = block_value s } in
      let (later, e, best, value) = receive_builds-IsIncreasing rest next refl others in
      (
        later,
        ap (λ o. receive_builds policy o rest) (receive_build-higher s info v slot higher) ∙ e,
        best,
        value,
      )

-- With a strategy that improves whatever the client and the pools hold in each of its builds, and
-- that is not cancelled without the flag, whatever builds a new stream job sends over any polls,
-- between which its tasks may run on, be lost, fail or find other pools, a bidder that receives
-- them in a new auction for the job's slot ends with the last one sent as its best block.
pub receive_builds-sent_builds :
    {Tx Cache Shared : Type 0} (default : Cache) (try_build : Strategy Tx Cache Shared)
    (job : BuildJob Tx Cache) (policy : BidSelectionPolicies) (block_number : ℕ)
    (polls : List (Bool × Task Shared))
    → Improves job.build_config try_build
    → job.best_build ≡ none
    → job.pending_build ≡ none
    → (info : AuctionBidInfo Tx) × (receive_builds policy
          (some (new job.build_config.slot block_number))
          (sent_builds default try_build job polls)
        ≡ some info)
      × (info.best_block ≡ last_of none (sent_builds default try_build job polls))
unfolding new
receive_builds-sent_builds default try_build job policy block_number polls improves fresh idle =
    let grows =
      subst
        (λ o.
          IsIncreasing job.build_config.slot (best_value o)
            (sent_builds default try_build job polls))
        fresh (sent_builds-IsIncreasing default try_build polls job improves (rw (idle) tt)) in
    let (info, e, best, value) =
      receive_builds-IsIncreasing policy (sent_builds default try_build job polls)
        (new job.build_config.slot block_number) refl grows in
    (info, e, best)
