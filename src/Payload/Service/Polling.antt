-- ===== src/Payload/Service/Polling.antt =====
-- The loop over the jobs of crates/payload/src/service/mod.rs polls every job once: it removes by
-- swapping and puts back at the end, from the last index on.
use mathlib.Core.List.{Perm, perm_middle, perm_append_comm}
use mathlib.Core.List.Perm
use rs_block_builder.Common.{
  ℕ, suc, ◌≡◌, refl, ap, sym, ◌∙◌, List, [], ◌∷◌, ◌++◌, length, length-append, filter_map,
  filter_map-append, append_assoc, append-nil, Option, none, some, arith,
}
use rs_block_builder.Payload.Service.{
  JobEnd, goes_on, finished, failed, PayloadJob, PayloadBuilderService, last_to_front, swap_remove,
  after_poll, poll_jobs,
}

module _ {A : Type 0} where
  last_to_front-Perm : (xs : List A) → Perm (last_to_front xs) xs
  unfolding last_to_front
  last_to_front-Perm [] = Perm.refl []
  last_to_front-Perm (x ∷ xs) = go (last_to_front xs) (last_to_front-Perm xs)
    where
      go :
          (ys : List A) → Perm ys xs → Perm (elim ys [ [] ↦ x ∷ [] | z ∷ zs ↦ z ∷ x ∷ zs ]) (x ∷ xs)
      go [] p = Perm.cons x p
      go (z ∷ zs) p = Perm.trans (Perm.swap x z zs) (Perm.cons x p)

  swap_remove-append :
      (front : List A) (x : A) (back : List A)
      → swap_remove (front ++ x ∷ back) (length front) ≡ some (x, front ++ last_to_front back)
  unfolding swap_remove
  swap_remove-append [] x back = refl
  swap_remove-append (y ∷ front) x back = rw (swap_remove-append front x back) refl

  -- A list from its end.
  rev : List A → List A
  rev [] = []
  rev (x ∷ xs) = rev xs ++ x ∷ []

  rev-snoc : (xs : List A) (x : A) → rev (xs ++ x ∷ []) ≡ x ∷ rev xs
  unfolding rev
  rev-snoc [] x = refl
  rev-snoc (y ∷ xs) x = rw (rev-snoc xs x) refl

  rev-rev : (xs : List A) → rev (rev xs) ≡ xs
  unfolding rev
  rev-rev [] = refl
  rev-rev (x ∷ xs) = rev-snoc (rev xs) x ∙ ap (λ ys. x ∷ ys) (rev-rev xs)

  length-rev : (xs : List A) → length (rev xs) ≡ length xs
  unfolding rev
  length-rev [] = refl
  length-rev (x ∷ xs) = omega (arith, length-append (rev xs) (x ∷ []), length-rev xs)

  rev-Perm : (xs : List A) → Perm (rev xs) xs
  unfolding rev
  rev-Perm [] = Perm.refl []
  rev-Perm (x ∷ xs) =
      Perm.trans (perm_middle (rev xs) []) (rw (append-nil (rev xs)) (Perm.cons x (rev-Perm xs)))

module _ {Config Job Build Attributes Future E : Type 0}
    (jobs : PayloadJob Config Job Build Attributes Future E) where
  abbrev outlives : ℕ → Job × JobEnd → Option (Job × ℕ)
  outlives id (next, goes_on) = some (next, id)
  outlives id (next, finished) = none
  outlives id (next, failed) = none

  -- A job after one poll, or nothing if it has ended.
  unfoldable pub polled_once : Job × ℕ → Option (Job × ℕ)
  polled_once (job, id) = outlives id (jobs.poll job)

  -- What is put back behind the others.
  abbrev kept : Option (Job × ℕ) → List (Job × ℕ)
  kept none = []
  kept (some entry) = entry ∷ []

  after_poll-jobs :
      (s : PayloadBuilderService Job) (rest : List (Job × ℕ)) (job : Job) (id : ℕ)
      → (after_poll jobs s rest id (jobs.poll job)).payload_jobs
        ≡ rest ++ kept (polled_once (job, id))
  unfolding after_poll polled_once
  after_poll-jobs s rest job id = go (jobs.poll job)
    where
      go :
          (p : Job × JobEnd)
          → (after_poll jobs s rest id p).payload_jobs ≡ rest ++ kept (outlives id p)
      go (next, goes_on) = refl
      go (next, finished) = sym (append-nil rest)
      go (next, failed) = sym (append-nil rest)

  -- One index of the loop.
  poll_jobs-suc :
      (idx : ℕ) (s : PayloadBuilderService Job) (job : Job) (id : ℕ) (rest : List (Job × ℕ))
      → swap_remove s.payload_jobs idx ≡ some ((job, id), rest)
      → poll_jobs jobs (suc idx) s ≡ poll_jobs jobs idx (after_poll jobs s rest id (jobs.poll job))
  unfolding poll_jobs
  poll_jobs-suc idx s job id rest e = rw (poll_jobs, e) refl

  put_back-Perm :
      (fs done : List (Job × ℕ)) (o : Option (Job × ℕ))
      → Perm
          (fs ++ (last_to_front done ++ kept o))
          (elim o [ none ↦ fs | some entry ↦ entry ∷ fs ] ++ done)
  put_back-Perm fs done none =
      rw (append-nil (last_to_front done)) (Perm.append_left fs (last_to_front-Perm done))
  put_back-Perm fs done (some entry) =
      Perm.trans
        (Perm.append_left fs (
          Perm.trans (perm_middle (last_to_front done) [])
            (Perm.cons entry (rw (append-nil (last_to_front done)) (last_to_front-Perm done)))))
        (perm_middle fs done)

  poll_jobs-rev :
      (rs : List (Job × ℕ)) (done : List (Job × ℕ)) (s : PayloadBuilderService Job)
      → s.payload_jobs ≡ rev rs ++ done
      → (t : PayloadBuilderService Job) × (poll_jobs jobs (length rs) s ≡ some t)
        × Perm t.payload_jobs (filter_map polled_once rs ++ done)
  unfolding poll_jobs rev
  poll_jobs-rev [] done s e = (s, refl, rw (e) (Perm.refl done))
  poll_jobs-rev ((job, id) ∷ rs) done s e =
      let rest = rev rs ++ last_to_front done in
      let split : s.payload_jobs ≡ rev rs ++ (job, id) ∷ done =
        e ∙ append_assoc (rev rs) ((job, id) ∷ []) done in
      let removed : swap_remove s.payload_jobs (length rs) ≡ some ((job, id), rest) =
        rw (split, sym (length-rev rs)) (swap_remove-append (rev rs) (job, id) done) in
      let next = after_poll jobs s rest id (jobs.poll job) in
      let back = last_to_front done ++ kept (polled_once (job, id)) in
      let (t, run, perm) = poll_jobs-rev rs back next (
        after_poll-jobs s rest job id
        ∙ append_assoc (rev rs) (last_to_front done) (kept (polled_once (job, id)))) in
      (
        t,
        poll_jobs-suc (length rs) s job id rest removed ∙ run,
        Perm.trans perm (put_back-Perm (filter_map polled_once rs) done (polled_once (job, id))),
      )

  filter_map-rev :
      (xs : List (Job × ℕ)) → Perm (filter_map polled_once (rev xs)) (filter_map polled_once xs)
  unfolding rev
  filter_map-rev [] = Perm.refl []
  filter_map-rev (x ∷ xs) =
      let first = filter_map polled_once (x ∷ []) in
      rw
        (filter_map-append polled_once (rev xs) (x ∷ []), filter_map-append polled_once (x ∷ []) xs)
        (Perm.trans (perm_append_comm (filter_map polled_once (rev xs)) first)
          (Perm.append_left first (filter_map-rev xs)))

  -- The loop over the jobs by `swap_remove` from the last index on never has an index out of
  -- bounds, polls every job exactly once, and leaves, in some order, the jobs that go on, with
  -- their ids.
  pub poll_jobs-Perm :
      (s : PayloadBuilderService Job)
      → (t : PayloadBuilderService Job) × (poll_jobs jobs (length s.payload_jobs) s ≡ some t)
        × Perm t.payload_jobs (filter_map polled_once s.payload_jobs)
  poll_jobs-Perm s =
      let rs = rev s.payload_jobs in
      let (t, run, perm) =
        poll_jobs-rev rs [] s (sym (rev-rev s.payload_jobs) ∙ sym (append-nil (rev rs))) in
      (
        t,
        ap (λ n. poll_jobs jobs n s) (sym (length-rev s.payload_jobs)) ∙ run,
        Perm.trans (rw (sym (append-nil (filter_map polled_once rs))) perm)
            (filter_map-rev s.payload_jobs),
      )
