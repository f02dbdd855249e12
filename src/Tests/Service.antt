-- ===== src/Tests/Service.antt =====
-- The theorems about crates/payload/src/service/mod.rs, applied to jobs that are numbers: a job of 0
-- fails, one of 1 finishes, and every other counts down.
use mathlib.Core.List.{Perm}
use rs_block_builder.Common.{
  ℕ, ◌+◌, ◌-◌, ◌≡◌, List, [], ◌∷◌, filter_map, none, some, ◌==◌, if◌then◌else◌, arith, ltb,
}
use rs_block_builder.Common.Results.{ok, err}
use rs_block_builder.Payload.Service.{
  goes_on, finished, failed, PayloadJob, PayloadBuilderService, PayloadServiceCommand,
  build_new_payload, best_payload, resolve, new_service, poll_jobs, find_job, resolve_in, poll,
}
use rs_block_builder.Payload.Service.Commands.{IsDistinct, poll-IsDistinct, find_job-resolve_in}
use rs_block_builder.Payload.Service.Polling.{polled_once, poll_jobs-Perm}

abbrev counting : PayloadJob ℕ ℕ ℕ ℕ ℕ Unit
counting = record {
  id = λ config. config + 100;
  new_payload_job = λ config. if config == 9 then err tt else ok config;
  poll = λ job. (job - 1, if job == 0 then failed else if job == 1 then finished else goes_on);
  best_payload = λ job. ok job;
  payload_attributes = λ job. ok job;
  resolve = λ job. (job, job, ltb 5 job);
}

abbrev three_jobs : PayloadBuilderService ℕ
three_jobs = record new_service { payload_jobs = (1, 101) ∷ (7, 107) ∷ (3, 103) ∷ [] }

poll_jobs-Perm_example :
    (t : PayloadBuilderService ℕ) × (poll_jobs counting 3 three_jobs ≡ some t)
    × Perm t.payload_jobs (filter_map (polled_once counting) three_jobs.payload_jobs)
poll_jobs-Perm_example = poll_jobs-Perm counting three_jobs

three_jobs-IsDistinct : IsDistinct three_jobs.payload_jobs
three_jobs-IsDistinct id = ground arith

abbrev rounds : List (List (PayloadServiceCommand ℕ))
rounds =
    (build_new_payload 4 ∷ build_new_payload 7 ∷ resolve 103 ∷ []) ∷ (best_payload 104 ∷ []) ∷ []

poll-IsDistinct_example :
    (t : PayloadBuilderService ℕ) × (poll counting three_jobs rounds ≡ some t)
    × IsDistinct t.payload_jobs
poll-IsDistinct_example = poll-IsDistinct counting rounds three_jobs three_jobs-IsDistinct

find_job-resolve_in_example :
    ((resolve_in counting 107 three_jobs.payload_jobs).1
      ≡ elim (find_job counting 107 three_jobs.payload_jobs) [
        | none ↦ none
        | some job ↦ some ((counting.resolve job).1)
      ])
    × (find_job counting 103 (resolve_in counting 107 three_jobs.payload_jobs).0 ≡ (
        if 103 == 107
        then elim (find_job counting 107 three_jobs.payload_jobs) [
          | none ↦ none
          | some job ↦ if (counting.resolve job).2 then some ((counting.resolve job).0) else none
        ]
        else find_job counting 103 three_jobs.payload_jobs))
find_job-resolve_in_example =
    find_job-resolve_in counting 103 107 three_jobs.payload_jobs three_jobs-IsDistinct
