-- ===== src/Payload/Service/Commands.antt =====
-- No id has two jobs in the service of crates/payload/src/service/mod.rs, and a command concerns the
-- job of its id only.
use mathlib.Core.List.{Perm, Permᴰ}
use mathlib.Core.Logic.{∥∥₁_elim}
use native.Mathlib.Bridge.{le_prop}
use rs_block_builder.Common.{
  ℕ, ◌+◌, ◌≤◌, ◌≡◌, refl, ap, ◌∙◌, false, List, [], ◌∷◌, ◌++◌, any, filter_map, none, some, ◌==◌,
  if◌then◌else◌, arith, Bool-cases, inl, inr,
}
use rs_block_builder.Common.Results.{Result, ok, err}
use rs_block_builder.Payload.Service.{
  PayloadJob, PayloadBuilderService, PayloadServiceCommand, build_new_payload, best_payload,
  payload_attributes, resolve, contains_payload, find_job, resolve_in, create_job, build_new,
  handle, drain, poll,
}
use rs_block_builder.Payload.Service.Polling.{polled_once, poll_jobs-Perm}

module _ {Job : Type 0} where
  abbrev pub count_id : ℕ → List (Job × ℕ) → ℕ
  count_id id [] = 0
  count_id id ((job, job_id) ∷ rest) = (if job_id == id then 1 else 0) + count_id id rest

  -- No id has two jobs.
  abbrev pub IsDistinct : List (Job × ℕ) → Type 0
  IsDistinct entries = (id : ℕ) → count_id id entries ≤ 1

  count_id-append :
      (id : ℕ) (xs ys : List (Job × ℕ)) → count_id id (xs ++ ys) ≡ count_id id xs + count_id id ys
  count_id-append id [] ys = omega arith
  count_id-append id ((job, job_id) ∷ xs) ys = omega (arith, count_id-append id xs ys)

  count_id-Permᴰ : (id : ℕ) {xs ys : List (Job × ℕ)} → Permᴰ xs ys → count_id id xs ≡ count_id id ys
  count_id-Permᴰ id Permᴰ.nil = refl
  count_id-Permᴰ id (Permᴰ.cons e d) =
      ground (arith, count_id-Permᴰ id d, ap (λ x. count_id id (x ∷ [])) e)
  count_id-Permᴰ id (Permᴰ.swap e f) =
      ground (arith, ap (λ x. count_id id (x ∷ [])) e, ap (λ x. count_id id (x ∷ [])) f)
  count_id-Permᴰ id (Permᴰ.trans d e) = count_id-Permᴰ id d ∙ count_id-Permᴰ id e

  IsDistinct-Perm : {xs ys : List (Job × ℕ)} → Perm xs ys → IsDistinct ys → IsDistinct xs
  IsDistinct-Perm p h id =
      ∥∥₁_elim p le_prop (λ d. let same = count_id-Permᴰ id d in omega (arith, h id))

  count_id-any :
      (id : ℕ) (xs : List (Job × ℕ)) → any (λ entry. entry.1 == id) xs ≡ false → count_id id xs ≡ 0
  count_id-any id [] e = refl
  count_id-any id ((job, job_id) ∷ xs) e = ground (arith, count_id-any id xs)

module _ {Config Job Build Attributes Future E : Type 0}
    (jobs : PayloadJob Config Job Build Attributes Future E) where
  polled-count :
      (id : ℕ) (xs : List (Job × ℕ))
      → count_id id (filter_map (polled_once jobs) xs) ≤ count_id id xs
  unfolding polled_once
  polled-count id [] = ground arith
  polled-count id ((job, job_id) ∷ xs) = ground (arith, polled-count id xs)

  resolve_in-count :
      (asked id : ℕ) (xs : List (Job × ℕ))
      → count_id id (resolve_in jobs asked xs).0 ≤ count_id id xs
  unfolding resolve_in
  resolve_in-count asked id [] = ground arith
  resolve_in-count asked id ((job, job_id) ∷ xs) = ground (arith, resolve_in-count asked id xs)

  create_job-IsDistinct :
      (s : PayloadBuilderService Job) (new_id : ℕ) (r : Result E Job)
      → any (λ entry. entry.1 == new_id) s.payload_jobs ≡ false
      → IsDistinct s.payload_jobs
      → IsDistinct (create_job jobs s new_id r).0.payload_jobs
  unfolding create_job
  create_job-IsDistinct s new_id (err e) fresh h id = h id
  create_job-IsDistinct s new_id (ok job) fresh h id =
      let none_yet = count_id-any new_id s.payload_jobs fresh in
      let more = count_id-append id s.payload_jobs ((job, new_id) ∷ []) in
      elim (Bool-cases (new_id == id)) [
        | inl y ↦
            let same : new_id ≡ id = ground arith in
            ground (arith, more, ap (λ i. count_id i s.payload_jobs) same, none_yet)
        | inr n ↦ ground (arith, more, h id)
      ]

  handle-IsDistinct :
      (s : PayloadBuilderService Job) (command : PayloadServiceCommand Config)
      → IsDistinct s.payload_jobs
      → IsDistinct (handle jobs s command).0.payload_jobs
  unfolding handle build_new contains_payload
  handle-IsDistinct s (build_new_payload config) h =
      elim (Bool-cases (contains_payload jobs s (jobs.id config))) [
        | inl y ↦ rw (build_new, contains_payload, y) h
        | inr n ↦
            rw (build_new, contains_payload, n)
              (create_job-IsDistinct s (jobs.id config) (jobs.new_payload_job config) n h)
      ]
  handle-IsDistinct s (best_payload id) h = h
  handle-IsDistinct s (payload_attributes id) h = h
  handle-IsDistinct s (resolve asked) h =
      λ id. omega (arith, h id, resolve_in-count asked id s.payload_jobs)

  drain-IsDistinct :
      (commands : List (PayloadServiceCommand Config)) (s : PayloadBuilderService Job)
      → IsDistinct s.payload_jobs
      → IsDistinct (drain jobs s commands).0.payload_jobs
  unfolding drain
  drain-IsDistinct [] s h = h
  drain-IsDistinct (command ∷ commands) s h =
      drain-IsDistinct commands (handle jobs s command).0 (handle-IsDistinct s command h)

  -- If no payload id has two jobs, a poll of the payload service, whatever commands come in its
  -- rounds, runs to its end without an index out of bounds, and again no id has two jobs.
  pub poll-IsDistinct :
      (rounds : List (List (PayloadServiceCommand Config))) (s : PayloadBuilderService Job)
      → IsDistinct s.payload_jobs
      → (t : PayloadBuilderService Job) × (poll jobs s rounds ≡ some t) × IsDistinct t.payload_jobs
  unfolding poll
  poll-IsDistinct [] s h =
      let (t, run, perm) = poll_jobs-Perm jobs s in
      (t, run, IsDistinct-Perm perm (λ id. omega (arith, h id, polled-count id s.payload_jobs)))
  poll-IsDistinct (commands ∷ rounds) s h =
      let (t, run, perm) = poll_jobs-Perm jobs s in
      let kept : IsDistinct t.payload_jobs =
        IsDistinct-Perm perm (λ id. omega (arith, h id, polled-count id s.payload_jobs)) in
      let drained = drain-IsDistinct commands t kept in
      let (u, later, distinct) = poll-IsDistinct rounds (drain jobs t commands).0 drained in
      elim (Bool-cases (drain jobs t commands).1) [
        | inl y ↦ (u, rw (poll, run, y) later, distinct)
        | inr n ↦ ((drain jobs t commands).0, rw (poll, run, n) refl, drained)
      ]

  find_job-absent : (id : ℕ) (xs : List (Job × ℕ)) → count_id id xs ≡ 0 → find_job jobs id xs ≡ none
  unfolding find_job
  find_job-absent id [] e = refl
  find_job-absent id ((job, job_id) ∷ xs) e = ground (arith, find_job-absent id xs)

  -- If no id has two jobs, resolving an id answers with the future of its job, or nothing without
  -- one; the job is then gone unless it is kept alive, and the job of every other id is as it was.
  pub find_job-resolve_in :
      (asked id : ℕ) (xs : List (Job × ℕ))
      → IsDistinct xs
      → ((resolve_in jobs id xs).1
          ≡ elim (find_job jobs id xs) [ none ↦ none | some job ↦ some ((jobs.resolve job).1) ])
        × (find_job jobs asked (resolve_in jobs id xs).0 ≡ (
            if asked == id
            then elim (find_job jobs id xs) [
              | none ↦ none
              | some job ↦ if (jobs.resolve job).2 then some ((jobs.resolve job).0) else none
            ]
            else find_job jobs asked xs))
  unfolding resolve_in find_job
  find_job-resolve_in asked id [] h = ground arith
  find_job-resolve_in asked id ((job, job_id) ∷ xs) h =
      let distinct : IsDistinct xs = λ i. omega (arith, h i) in
      let (answer, others) = find_job-resolve_in asked id xs distinct in
      elim (Bool-cases (job_id == id)) [
        | inl y ↦
            let gone : find_job jobs id xs ≡ none =
              find_job-absent id xs (ground (arith, h id, y)) in
            elim (Bool-cases (asked == id)) [
              | inl z ↦
                  let same : asked ≡ id = ground arith in
                  ground (arith, y, z, gone, ap (λ i. find_job jobs i xs) same)
              | inr z ↦ ground (arith, y, z)
            ]
        | inr n ↦ ground (arith, n, answer, others)
      ]
