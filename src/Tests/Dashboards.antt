-- ===== src/Tests/Dashboards.antt =====
-- A dashboard of one submission that was tried twice.
use agent_bench_x.Prelude.{
  ◌+◌, ◌≡◌, refl, ◌&&◌, some, List, [], ◌∷◌, ltb, min, find_first, count_if,
}
use agent_bench_x.Models.{JobStatus, RunnerJob}
use agent_bench_x.Manager.Links.{of_submission}
use agent_bench_x.Dashboard.{current, by_attempt, insert_job, first_jobs, summary}
use agent_bench_x.Dashboard.Counts.{has_status}
use agent_bench_x.Dashboard.Latest.{current-last}
use agent_bench_x.Process.{take}
use agent_bench_x.Tests.Data.{claimed_job}

abbrev retry : RunnerJob
retry = record claimed_job { id = 77; attempt = 2; status = JobStatus.completed }

abbrev jobs : List RunnerJob
jobs = claimed_job ∷ retry ∷ []

current-run : current jobs ≡ retry ∷ []
unfolding current by_attempt insert_job first_jobs
current-run = refl

current-last_example :
    (count_if (of_submission claimed_job.submission_id) (current jobs)
      ≡ min 1 (count_if (of_submission claimed_job.submission_id) jobs))
    × ((j : RunnerJob)
        → find_first (of_submission claimed_job.submission_id) (current jobs) ≡ some j
        → count_if
            (λ job. of_submission claimed_job.submission_id job && ltb j.attempt job.attempt)
            jobs
          ≡ 0)
    × ((j : RunnerJob)
        → find_first (of_submission claimed_job.submission_id) (take 200 (current jobs)) ≡ some j
        → count_if
            (λ job. of_submission claimed_job.submission_id job && ltb j.attempt job.attempt)
            jobs
          ≡ 0)
    × ((summary jobs []).completed ≡ count_if (has_status JobStatus.completed) (current jobs))
    × ((summary jobs []).running
        ≡ count_if (has_status JobStatus.claimed) (current jobs)
          + count_if (has_status JobStatus.running) (current jobs))
    × ((summary jobs []).queued ≡ count_if (has_status JobStatus.queued) (current jobs))
    × ((summary jobs []).failed
        ≡ count_if (has_status JobStatus.failed) (current jobs)
          + count_if (has_status JobStatus.timeout) (current jobs))
current-last_example = current-last jobs [] claimed_job.submission_id
