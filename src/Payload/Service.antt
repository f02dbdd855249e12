-- ===== src/Payload/Service.antt =====
-- crates/payload/src/service/mod.rs: the service that runs the payload jobs and answers commands about
-- them. The jobs and their generator are parameters (`PayloadJob`), by the trait of traits.rs; a job
-- that is polled goes on or ends.
pub mod Polling
pub mod Commands
use rs_block_builder.Common.{
  ℕ, zero, suc, ◌+◌, Bool, true, false, not, ◌||◌, List, [], ◌∷◌, ◌++◌, any, length, Option, none,
  some, ◌==◌, if◌then◌else◌,
}
use rs_block_builder.Common.Results.{Result, ok, err}

-- The end of a poll of a job: it goes on, is done, or has failed.
pub data JobEnd : Type 0 where
  goes_on finished failed : JobEnd

-- `PayloadJob` and `PayloadJobGenerator`; `resolve` returns the job, the future and whether the job is
-- kept alive.
pub record PayloadJob (Config Job Build Attributes Future E : Type 0) : Type 0 where
  pub id : Config → ℕ
  pub new_payload_job : Config → Result E Job
  pub poll : Job → Job × JobEnd
  pub best_payload : Job → Result E Build
  pub payload_attributes : Job → Result E Attributes
  pub resolve : Job → Job × Future × Bool

pub record PayloadBuilderServiceMetrics : Type 0 where
  pub initiated_jobs : ℕ
  pub failed_jobs : ℕ
  pub active_jobs : ℕ

pub record PayloadBuilderService (Job : Type 0) : Type 0 where
  pub payload_jobs : List (Job × ℕ)
  pub metrics : PayloadBuilderServiceMetrics

unfoldable pub new_service : {Job : Type 0} → PayloadBuilderService Job
new_service = record {
  payload_jobs = [];
  metrics = record { initiated_jobs = 0; failed_jobs = 0; active_jobs = 0 };
}

unfoldable pub set_active_jobs : ℕ → PayloadBuilderServiceMetrics → PayloadBuilderServiceMetrics
set_active_jobs n m = record m { active_jobs = n }

unfoldable pub inc_failed_jobs : PayloadBuilderServiceMetrics → PayloadBuilderServiceMetrics
inc_failed_jobs m = record m { failed_jobs = m.failed_jobs + 1 }

unfoldable pub inc_initiated_jobs : PayloadBuilderServiceMetrics → PayloadBuilderServiceMetrics
inc_initiated_jobs m = record m { initiated_jobs = m.initiated_jobs + 1 }

module _ {ℓ} {A : Type ℓ} where
  -- The last element moved to the front, as it fills the gap of a removed one.
  unfoldable pub last_to_front : List A → List A
  last_to_front [] = []
  last_to_front (x ∷ xs) = elim (last_to_front xs) [ [] ↦ x ∷ [] | y ∷ ys ↦ y ∷ x ∷ ys ]

  -- `Vec::swap_remove`; nothing where it panics.
  unfoldable pub swap_remove : List A → ℕ → Option (A × List A)
  unfolding last_to_front
  swap_remove [] i = none
  swap_remove (x ∷ xs) zero = some (x, last_to_front xs)
  swap_remove (x ∷ xs) (suc i) = elim (swap_remove xs i) [
    | none ↦ none
    | some (y, rest) ↦ some (y, x ∷ rest)
  ]

-- The commands of the service's handle, without the channels of the answers.
pub data PayloadServiceCommand (Config : Type 0) : Type 0 where
  build_new_payload : Config → PayloadServiceCommand Config
  best_payload : ℕ → PayloadServiceCommand Config
  payload_attributes : ℕ → PayloadServiceCommand Config
  resolve : ℕ → PayloadServiceCommand Config

pub data Reply (Build Attributes Future E : Type 0) : Type 0 where
  built : Result E ℕ → Reply Build Attributes Future E
  best : Option (Result E Build) → Reply Build Attributes Future E
  attributes : Option (Result E Attributes) → Reply Build Attributes Future E
  future : Option Future → Reply Build Attributes Future E

module _ {Config Job Build Attributes Future E : Type 0}
    (jobs : PayloadJob Config Job Build Attributes Future E) where
  -- A polled job is put back at the end unless it has ended.
  unfoldable pub after_poll :
      PayloadBuilderService Job → List (Job × ℕ) → ℕ → Job × JobEnd → PayloadBuilderService Job
  after_poll s rest id (job, goes_on) = record s { payload_jobs = rest ++ (job, id) ∷ [] }
  after_poll s rest id (job, finished) = record s {
    payload_jobs = rest;
    metrics = set_active_jobs (length rest) s.metrics;
  }
  after_poll s rest id (job, failed) = record s {
    payload_jobs = rest;
    metrics = set_active_jobs (length rest) (inc_failed_jobs s.metrics);
  }

  -- `for idx in (0..n).rev()`; nothing where an index is out of bounds.
  unfoldable pub poll_jobs : ℕ → PayloadBuilderService Job → Option (PayloadBuilderService Job)
  unfolding swap_remove after_poll
  poll_jobs zero s = some s
  poll_jobs (suc idx) s = elim (swap_remove s.payload_jobs idx) [
    | none ↦ none
    | some ((job, id), rest) ↦ poll_jobs idx (after_poll s rest id (jobs.poll job))
  ]

  unfoldable pub contains_payload : PayloadBuilderService Job → ℕ → Bool
  contains_payload s id = any (λ entry. entry.1 == id) s.payload_jobs

  -- `iter().find`
  unfoldable pub find_job : ℕ → List (Job × ℕ) → Option Job
  find_job id [] = none
  find_job id ((job, job_id) ∷ rest) = if job_id == id then some job else find_job id rest

  -- `position`, `resolve` of the job there, and its removal unless it is kept alive.
  unfoldable pub resolve_in : ℕ → List (Job × ℕ) → List (Job × ℕ) × Option Future
  resolve_in id [] = ([], none)
  resolve_in id ((job, job_id) ∷ rest) =
      let (others, found) = resolve_in id rest in
      let (next, fut, keep_alive) = jobs.resolve job in
      if job_id == id
      then (if keep_alive then (next, job_id) ∷ rest else rest, some fut)
      else ((job, job_id) ∷ others, found)

  -- The service after `BuildNewPayload`, the answer, and whether there is a new job.
  unfoldable pub create_job :
      PayloadBuilderService Job → ℕ → Result E Job → PayloadBuilderService Job × Result E ℕ × Bool
  create_job s id (ok job) = (
    record s {
      payload_jobs = s.payload_jobs ++ (job, id) ∷ [];
      metrics = inc_initiated_jobs s.metrics;
    },
    ok id,
    true,
  )
  create_job s id (err e) = (record s { metrics = inc_failed_jobs s.metrics }, err e, false)

  unfoldable pub build_new :
      PayloadBuilderService Job → Config → PayloadBuilderService Job × Result E ℕ × Bool
  unfolding create_job contains_payload
  build_new s config =
      if contains_payload s (jobs.id config)
      then (s, ok (jobs.id config), false)
      else create_job s (jobs.id config) (jobs.new_payload_job config)

  unfoldable pub handle :
      PayloadBuilderService Job
      → PayloadServiceCommand Config
      → PayloadBuilderService Job × Reply Build Attributes Future E × Bool
  unfolding build_new find_job resolve_in
  handle s (build_new_payload config) =
      let (next, answer, new_job) = build_new s config in (next, built answer, new_job)
  handle s (best_payload id) = (
    s,
    best (elim (find_job id s.payload_jobs) [
      | none ↦ none
      | some job ↦ some (jobs.best_payload job)
    ]),
    false,
  )
  handle s (payload_attributes id) = (
    s,
    attributes (elim (find_job id s.payload_jobs) [
      | none ↦ none
      | some job ↦ some (jobs.payload_attributes job)
    ]),
    false,
  )
  handle s (resolve id) =
      let (rest, fut) = resolve_in id s.payload_jobs in
      (record s { payload_jobs = rest }, future fut, false)

  -- The commands that are ready, with whether one of them made a job.
  unfoldable pub drain :
      PayloadBuilderService Job
      → List (PayloadServiceCommand Config)
      → PayloadBuilderService Job × Bool
  unfolding handle
  drain s [] = (s, false)
  drain s (command ∷ commands) =
      let (next, reply, new_job) = handle s command in
      let (last, later) = drain next commands in (last, new_job || later)

  -- One poll of the service: the jobs are polled and the commands drained, again while there is a new
  -- job. Each round finds the commands that have come since; nothing where an index is out of bounds.
  unfoldable pub poll :
      PayloadBuilderService Job
      → List (List (PayloadServiceCommand Config))
      → Option (PayloadBuilderService Job)
  unfolding poll_jobs drain
  poll s [] = poll_jobs (length s.payload_jobs) s
  poll s (commands ∷ rounds) = elim (poll_jobs (length s.payload_jobs) s) [
    | none ↦ none
    | some polled ↦
        let (drained, new_job) = drain polled commands in
        let again = poll drained rounds in if new_job then again else some drained
  ]
