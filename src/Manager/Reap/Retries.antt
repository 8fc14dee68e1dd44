-- ===== src/Manager/Reap/Retries.antt =====
-- What one round of `EvaluationManager.reap` does to the counts of the table of jobs, and what
-- constraints the retries meet.
use mathlib.Core.List.{append-nil, append_assoc}
use agent_bench_x.Prelude.{
  ℕ, suc, ◌+◌, ◌≤◌, ◌<◌, ◌≡◌, refl, Bool, true, false, List, [], ◌∷◌, ◌++◌, arith, count_if,
  count_if-append, find_first-none_of_count, ◌∙◌, ap, ==→≡,
}
use agent_bench_x.Models.{RunnerJob, Settings, Moment}
use agent_bench_x.Manager.Tables.{ok, has_id, is_attempt, insert_jobs}
use agent_bench_x.Manager.Invariant.{is_open_attempt}
use agent_bench_x.Manager.Reap.{may_retry, expired_job, next_round, expire, retry_job, retry_jobs}

-- Rows with distinct ids and attempts violate no constraint when they are inserted.
pub insert_jobs-distinct :
    (jobs new : List RunnerJob)
    → ((i : ℕ) → count_if (has_id i) (jobs ++ new) ≤ 1)
    → ((s a : ℕ) → count_if (is_attempt s a) (jobs ++ new) ≤ 1)
    → insert_jobs jobs new ≡ ok (jobs ++ new)
unfolding insert_jobs count_if
insert_jobs-distinct jobs [] ids attempts = rw (append-nil jobs)
insert_jobs-distinct jobs (job ∷ rest) ids attempts =
    let no_id =
      find_first-none_of_count (has_id job.id) jobs
        (ground (arith, ids job.id, count_if-append (has_id job.id) jobs (job ∷ rest))) in
    let no_attempt = find_first-none_of_count (is_attempt job.submission_id job.attempt) jobs (
      ground (
        arith,
        attempts job.submission_id job.attempt,
        count_if-append (is_attempt job.submission_id job.attempt) jobs (job ∷ rest),
      )) in
    let moved = append_assoc jobs (job ∷ []) rest in
    rw (no_id, no_attempt)
      (insert_jobs-distinct (jobs ++ job ∷ []) rest (λ i. rw moved (ids i))
          (λ s a. rw moved (attempts s a))
        ∙ ap ok moved)

module _ (settings : Settings) (locked : ℕ → Bool) (uid : ℕ → ℕ) (now : ℕ → Moment) where
  -- A test that reads only what `reap` leaves alone counts as before.
  pub count_if-expire :
      (q : RunnerJob → Bool)
      → ((k : ℕ) (job : RunnerJob) → q (expired_job settings locked uid now k job) ≡ q job)
      → (k : ℕ) (jobs : List RunnerJob)
      → count_if q (expire settings locked uid now k jobs) ≡ count_if q jobs
  unfolding expire count_if
  count_if-expire q same k [] = refl
  count_if-expire q same k (job ∷ jobs) =
      ground
        (arith, same k job, count_if-expire q same (next_round settings locked uid now k job) jobs)

  -- A test that an ended job does not pass counts no more than before.
  pub count_if-expire-le :
      (q : RunnerJob → Bool)
      → ((k : ℕ) (job : RunnerJob) → q (expired_job settings locked uid now k job) ≡ false)
      → (k : ℕ) (jobs : List RunnerJob)
      → count_if q (expire settings locked uid now k jobs) ≤ count_if q jobs
  unfolding expire count_if
  count_if-expire-le q ended k [] = omega arith
  count_if-expire-le q ended k (job ∷ jobs) = ground (
    arith,
    ended k job,
    count_if-expire-le q ended (next_round settings locked uid now k job) jobs,
  )

  -- Each retry takes the place of an open job of the attempt before it.
  pub retries-counted :
      (s a k : ℕ) (jobs : List RunnerJob)
      → count_if (is_attempt s (suc a)) (retry_jobs settings locked uid now k jobs)
          + count_if (is_open_attempt s a) (expire settings locked uid now k jobs)
        ≤ count_if (is_open_attempt s a) jobs
  unfolding expire retry_jobs count_if
  retries-counted s a k [] = omega arith
  retries-counted s a k (job ∷ jobs) =
      ground (arith, retries-counted s a (next_round settings locked uid now k job) jobs)

  -- A test that only a retry could fail to pass, counted over the retries.
  pub count_if-retries :
      (q : RunnerJob → Bool)
      → ((k : ℕ) (job : RunnerJob)
          → may_retry settings locked uid now job ≡ true
          → q (retry_job settings locked uid now k job) ≡ false)
      → (k : ℕ) (jobs : List RunnerJob) → count_if q (retry_jobs settings locked uid now k jobs) ≡ 0
  unfolding retry_jobs count_if
  count_if-retries q never k [] = refl
  count_if-retries q never k (job ∷ jobs) =
      ground (
        arith,
        never k job,
        count_if-retries q never (next_round settings locked uid now k job) jobs,
      )

  -- The retries are open.
  pub open-retries :
      (s a k : ℕ) (jobs : List RunnerJob)
      → count_if (is_open_attempt s a) (retry_jobs settings locked uid now k jobs)
        ≡ count_if (is_attempt s a) (retry_jobs settings locked uid now k jobs)
  unfolding retry_jobs count_if
  open-retries s a k [] = refl
  open-retries s a k (job ∷ jobs) =
      ground (arith, open-retries s a (next_round settings locked uid now k job) jobs)

  module _ (distinct : (j k : ℕ) → uid j ≡ uid k → j ≡ k) where
    retries-later :
        (m k : ℕ) (jobs : List RunnerJob)
        → m < k
        → count_if (has_id (uid m)) (retry_jobs settings locked uid now k jobs) ≡ 0
    unfolding retry_jobs count_if
    retries-later m k [] h = refl
    retries-later m k (job ∷ jobs) h = ground (
      arith,
      distinct k m,
      ==→≡ (uid k) (uid m),
      retries-later m (next_round settings locked uid now k job) jobs,
    )

    pub retries-ids :
        (i k : ℕ) (jobs : List RunnerJob)
        → count_if (has_id i) (retry_jobs settings locked uid now k jobs) ≤ 1
    unfolding retry_jobs count_if
    retries-ids i k [] = omega arith
    retries-ids i k (job ∷ jobs) = ground (
      arith,
      ==→≡ (uid k) i,
      retries-later k (next_round settings locked uid now k job) jobs,
      retries-ids i (next_round settings locked uid now k job) jobs,
    )
