-- ===== src/Manager/Links.antt =====
-- The foreign key `RunnerJob.submission_id`: a job belongs to a submission of the table.
use agent_bench_x.Prelude.{
  ℕ, ◌≤◌, ◌≡◌, refl, Bool, ◌==◌, some, List, [], ◌∷◌, ◌++◌, arith, find_first, count_if,
  count_if-append, count_if-replace_first, find_first-counted,
}
use agent_bench_x.Models.{RunnerJob, Submission, Settings, Moment}
use agent_bench_x.Manager.Tables.{has_id, put_job}
use agent_bench_x.Manager.Reap.{expire, retry_jobs, next_round}
use agent_bench_x.Manager.Reap.Retries.{count_if-expire}

abbrev pub is_submission : ℕ → Submission → Bool
is_submission s submission = submission.id == s

abbrev pub of_submission : ℕ → RunnerJob → Bool
of_submission s job = job.submission_id == s

abbrev pub IsLinked : List Submission → List RunnerJob → Type 0
IsLinked submissions jobs =
    (s : ℕ) → count_if (is_submission s) submissions ≡ 0 → count_if (of_submission s) jobs ≡ 0

pub put_job-IsLinked :
    (submissions : List Submission) (jobs : List RunnerJob) (old new : RunnerJob)
    → IsLinked submissions jobs
    → find_first (has_id new.id) jobs ≡ some old
    → new.submission_id ≡ old.submission_id
    → IsLinked submissions (put_job new jobs)
put_job-IsLinked submissions jobs old new l found same s none =
    ground
      (arith, l s none, count_if-replace_first (of_submission s) (has_id new.id) new old jobs found)

-- A job of a submission that is there already.
pub append-IsLinked :
    (submissions : List Submission) (jobs : List RunnerJob) (old new : RunnerJob) (i : ℕ)
    → IsLinked submissions jobs
    → find_first (has_id i) jobs ≡ some old
    → new.submission_id ≡ old.submission_id
    → IsLinked submissions (jobs ++ new ∷ [])
unfolding count_if
append-IsLinked submissions jobs old new i l found same s none = ground (
  arith,
  l s none,
  count_if-append (of_submission s) jobs (new ∷ []),
  find_first-counted (has_id i) (of_submission s) jobs old found,
)

-- A new submission with its first job.
pub submit-IsLinked :
    (submissions : List Submission) (jobs : List RunnerJob) (submission : Submission)
    (new : RunnerJob)
    → IsLinked submissions jobs
    → new.submission_id ≡ submission.id
    → IsLinked (submissions ++ submission ∷ []) (jobs ++ new ∷ [])
unfolding count_if
submit-IsLinked submissions jobs submission new l same s none = ground (
  arith,
  l s,
  count_if-append (is_submission s) submissions (submission ∷ []),
  count_if-append (of_submission s) jobs (new ∷ []),
)

module _ (settings : Settings) (locked : ℕ → Bool) (uid : ℕ → ℕ) (now : ℕ → Moment) where
  retries-of_submission :
      (s k : ℕ) (jobs : List RunnerJob)
      → count_if (of_submission s) (retry_jobs settings locked uid now k jobs)
        ≤ count_if (of_submission s) jobs
  unfolding retry_jobs count_if
  retries-of_submission s k [] = omega arith
  retries-of_submission s k (job ∷ jobs) =
      ground (arith, retries-of_submission s (next_round settings locked uid now k job) jobs)

  pub reap-IsLinked :
      (submissions : List Submission) (jobs : List RunnerJob)
      → IsLinked submissions jobs
      → IsLinked submissions
          (expire settings locked uid now 0 jobs ++ retry_jobs settings locked uid now 0 jobs)
  reap-IsLinked submissions jobs l s none = ground (
    arith,
    l s none,
    count_if-append (of_submission s) (expire settings locked uid now 0 jobs)
        (retry_jobs settings locked uid now 0 jobs),
    count_if-expire settings locked uid now (of_submission s) (λ k job. refl) 0 jobs,
    retries-of_submission s 0 jobs,
  )
