-- ===== src/Dashboard/Latest.antt =====
-- The jobs that the dashboard shows (apps/api/agentbenchx/main.py): of each submission its last attempt.
use agent_bench_x.Prelude.{
  ℕ, zero, suc, ◌+◌, ◌≡◌, refl, sym, ap, subst, ◌∙◌, inl, inr, Bool, true, false, ◌&&◌, some, List,
  [], ◌∷◌, arith, ◌==◌, ltb, leb, one_if, find_first, count_if, count_if_mono, Bool-cases, ==→≡,
  min,
}
use agent_bench_x.Models.{JobStatus, RunnerJob, Evaluation}
use agent_bench_x.Manager.Links.{of_submission}
use agent_bench_x.Process.{take}
use agent_bench_x.Dashboard.Counts.{
  has_status, count_both, running_both, failed_both, count_same, completed_same, queued_same,
}
use agent_bench_x.Dashboard.{insert_job, by_attempt, has_submission, first_jobs, current, summary}

count_if-insert_job :
    (p : RunnerJob → Bool) (job : RunnerJob) (jobs : List RunnerJob)
    → count_if p (insert_job job jobs) ≡ one_if (p job) + count_if p jobs
unfolding insert_job count_if
count_if-insert_job p job [] = refl
count_if-insert_job p job (j ∷ jobs) = ground (arith, count_if-insert_job p job jobs)

count_if-by_attempt :
    (p : RunnerJob → Bool) (jobs : List RunnerJob) → count_if p (by_attempt jobs) ≡ count_if p jobs
unfolding by_attempt count_if
count_if-by_attempt p [] = refl
count_if-by_attempt p (j ∷ jobs) =
    omega (arith, count_if-insert_job p j (by_attempt jobs), count_if-by_attempt p jobs)

-- A later attempt than `a` of any submission.
abbrev is_above : ℕ → RunnerJob → Bool
is_above a job = ltb a job.attempt

-- No row is behind one with an earlier attempt.
abbrev IsSorted : List RunnerJob → Type 0
IsSorted [] = Unit {0}
IsSorted (j ∷ jobs) = (count_if (is_above j.attempt) jobs ≡ 0) × IsSorted jobs

insert_job-IsSorted :
    (job : RunnerJob) (jobs : List RunnerJob) → IsSorted jobs → IsSorted (insert_job job jobs)
unfolding insert_job count_if
insert_job-IsSorted job [] s = (refl, tt)
insert_job-IsSorted job (j ∷ jobs) (above, s) = elim (Bool-cases (leb j.attempt job.attempt)) [
  | inl first ↦
      let rest : count_if (is_above job.attempt) jobs ≡ 0 = omega (
        arith,
        above,
        count_if_mono (is_above job.attempt) (is_above j.attempt) jobs (λ k t. ground arith),
      ) in
      rw (first) (ground (arith, rest), (above, s))
  | inr later ↦ rw (later) (
    ground (arith, above, count_if-insert_job (is_above j.attempt) job jobs),
    insert_job-IsSorted job jobs s,
  )
]

by_attempt-IsSorted : (jobs : List RunnerJob) → IsSorted (by_attempt jobs)
unfolding by_attempt
by_attempt-IsSorted [] = tt
by_attempt-IsSorted (j ∷ jobs) = insert_job-IsSorted j (by_attempt jobs) (by_attempt-IsSorted jobs)

-- What `first_jobs` finds of a submission is the first row of it, unless it is known.
first_jobs-find :
    (s : ℕ) (keys : List ℕ) (jobs : List RunnerJob)
    → has_submission s keys ≡ false
    → find_first (of_submission s) (first_jobs keys jobs) ≡ find_first (of_submission s) jobs
unfolding first_jobs find_first
first_jobs-find s keys [] h = refl
first_jobs-find s keys (j ∷ jobs) h = elim (Bool-cases (j.submission_id == s)) [
  | inl same ↦
      let same_key = ap (λ k. has_submission k keys) (==→≡ j.submission_id s same) in ground arith
  | inr other ↦ ground (
    arith,
    first_jobs-find s keys jobs h,
    first_jobs-find s (j.submission_id ∷ keys) jobs (ground arith),
  )
]

first_jobs-known :
    (s : ℕ) (keys : List ℕ) (jobs : List RunnerJob)
    → has_submission s keys ≡ true
    → count_if (of_submission s) (first_jobs keys jobs) ≡ 0
unfolding first_jobs count_if
first_jobs-known s keys [] h = refl
first_jobs-known s keys (j ∷ jobs) h = elim (Bool-cases (j.submission_id == s)) [
  | inl same ↦
      let same_key = ap (λ k. has_submission k keys) (==→≡ j.submission_id s same) in
      ground (arith, first_jobs-known s keys jobs h)
  | inr other ↦ ground (
    arith,
    first_jobs-known s keys jobs h,
    first_jobs-known s (j.submission_id ∷ keys) jobs (ground arith),
  )
]

-- A submission with a row has one row in `first_jobs`, unless it is known.
first_jobs-counts :
    (s : ℕ) (keys : List ℕ) (jobs : List RunnerJob)
    → has_submission s keys ≡ false
    → count_if (of_submission s) (first_jobs keys jobs) ≡ min 1 (count_if (of_submission s) jobs)
unfolding first_jobs count_if
first_jobs-counts s keys [] h = omega arith
first_jobs-counts s keys (j ∷ jobs) h = elim (Bool-cases (j.submission_id == s)) [
  | inl same ↦
      let same_key = ap (λ k. has_submission k keys) (==→≡ j.submission_id s same) in
      ground (arith, first_jobs-known s (j.submission_id ∷ keys) jobs (ground arith))
  | inr other ↦ ground (
    arith,
    first_jobs-counts s keys jobs h,
    first_jobs-counts s (j.submission_id ∷ keys) jobs (ground arith),
  )
]

-- The first row of a submission in sorted rows has its last attempt.
sorted-last :
    (s : ℕ) (jobs : List RunnerJob) (j : RunnerJob)
    → IsSorted jobs
    → find_first (of_submission s) jobs ≡ some j
    → count_if (λ job. of_submission s job && ltb j.attempt job.attempt) jobs ≡ 0
unfolding find_first count_if
sorted-last s [] j sorted h = refl
sorted-last s (k ∷ jobs) j (above, sorted) h = elim (Bool-cases (k.submission_id == s)) [
  | inl same ↦
      let found : k ≡ j = ground arith in
      let same_attempt : k.attempt ≡ j.attempt = ap (λ x. x.attempt) found in
      let none_above : count_if (is_above j.attempt) jobs ≡ 0 =
        subst (λ a. count_if (is_above a) jobs ≡ 0) same_attempt above in
      ground (
        arith,
        same_attempt,
        none_above,
        count_if_mono (λ job. of_submission s job && ltb j.attempt job.attempt) (is_above j.attempt)
            jobs (λ job t. ground arith),
      )
  | inr other ↦ ground (arith, sorted-last s jobs j sorted)
]

-- What is found in a part of the rows from their start is found in all of them.
find_first-take :
    (p : RunnerJob → Bool) (n : ℕ) (jobs : List RunnerJob) (j : RunnerJob)
    → find_first p (take n jobs) ≡ some j
    → find_first p jobs ≡ some j
unfolding take find_first
find_first-take p zero jobs j h = absurd (ground arith)
find_first-take p (suc n) [] j h = absurd (ground arith)
find_first-take p (suc n) (k ∷ jobs) j h = ground (arith, find_first-take p n jobs j)

-- The dashboard counts one job for each submission that has a job, and a job that it counts is a last
-- attempt of its submission; so is each of the 200 at most that it lists. Its four counts are those of
-- the completed jobs, of the claimed and the running ones, of the queued ones, and of the failed and
-- the timed out ones among them.
pub current-last :
    (jobs : List RunnerJob) (evaluations : List Evaluation) (s : ℕ)
    → (count_if (of_submission s) (current jobs) ≡ min 1 (count_if (of_submission s) jobs))
      × ((j : RunnerJob)
          → find_first (of_submission s) (current jobs) ≡ some j
          → count_if (λ job. of_submission s job && ltb j.attempt job.attempt) jobs ≡ 0)
      × ((j : RunnerJob)
          → find_first (of_submission s) (take 200 (current jobs)) ≡ some j
          → count_if (λ job. of_submission s job && ltb j.attempt job.attempt) jobs ≡ 0)
      × ((summary jobs evaluations).completed
          ≡ count_if (has_status JobStatus.completed) (current jobs))
      × ((summary jobs evaluations).running
          ≡ count_if (has_status JobStatus.claimed) (current jobs)
            + count_if (has_status JobStatus.running) (current jobs))
      × ((summary jobs evaluations).queued ≡ count_if (has_status JobStatus.queued) (current jobs))
      × ((summary jobs evaluations).failed
          ≡ count_if (has_status JobStatus.failed) (current jobs)
            + count_if (has_status JobStatus.timeout) (current jobs))
unfolding current summary
current-last jobs evaluations s = (
  first_jobs-counts s [] (by_attempt jobs) refl
      ∙ ap (min 1) (count_if-by_attempt (of_submission s) jobs),
  last,
  (λ j h. last j (find_first-take (of_submission s) 200 (current jobs) j h)),
  count_same _ _ (current jobs) (λ j. completed_same j.status j),
  count_both _ _ _ (current jobs) (λ j. running_both j.status j),
  count_same _ _ (current jobs) (λ j. queued_same j.status j),
  count_both _ _ _ (current jobs) (λ j. failed_both j.status j),
)
  where
    last :
        (j : RunnerJob)
        → find_first (of_submission s) (current jobs) ≡ some j
        → count_if (λ job. of_submission s job && ltb j.attempt job.attempt) jobs ≡ 0
    last j h =
        sym (count_if-by_attempt (λ job. of_submission s job && ltb j.attempt job.attempt) jobs)
        ∙ sorted-last s (by_attempt jobs) j (by_attempt-IsSorted jobs)
            (sym (first_jobs-find s [] (by_attempt jobs) refl) ∙ h)
