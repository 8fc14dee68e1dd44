-- ===== src/Tests/Recovery.antt =====
-- The reaper finds a job whose lease is over, and one that is queued.
use agent_bench_x.Prelude.{
  ℕ, ◌+◌, ◌<◌, ◌≤◌, ◌≡◌, refl, Bool, true, if◌then◌else◌, some, [], ◌∷◌, ◌++◌, arith, ltb, count_if,
  find_first, inr,
}
use agent_bench_x.Models.{RunnerJob, JobStatus, Moment}
use agent_bench_x.Manager.Tables.{Tables, ok, Notice, Event, new_job, has_id, get_job, insert_jobs}
use agent_bench_x.Manager.Invariant.{Consistent}
use agent_bench_x.Manager.Reap.{
  expire, retry_jobs, ended_jobs, failed_notices, retry_notices, reap_jobs,
}
use agent_bench_x.Manager.Reap.Consistency.{reap_jobs-Consistent}
use agent_bench_x.Manager.Reap.Recovery.{is_queued_attempt, reap_recovers, reap_spares}
use agent_bench_x.Tests.Data.{settings, fresh, unlocked, renewed, running_job}
use agent_bench_x.Tests.Requests.{renewed-Consistent}

abbrev late : ℕ → Moment
late k = 70000000 + k

abbrev ended_job : RunnerJob
ended_job = record running_job {
  status = JobStatus.timeout;
  finished_at = some 70000001;
  error_message = some "Worker lease expired; execution outcome unknown";
}

abbrev retry : RunnerJob
retry = new_job 20 10 2 70000001

abbrev reaped : Tables
reaped = record renewed { jobs = ended_job ∷ retry ∷ [] }

reap_jobs-run :
    reap_jobs settings unlocked fresh late renewed
    ≡ ok (
      Notice.publish (Event.job_failed 11 JobStatus.timeout) ∷ [],
      reaped,
      Notice.enqueue 20 ∷ Notice.publish (Event.job_queued 20) ∷ [],
    )
unfolding reap_jobs expire retry_jobs ended_jobs insert_jobs find_first
reap_jobs-run = refl

fresh-distinct : (j k : ℕ) → fresh j ≡ fresh k → j ≡ k
fresh-distinct j k h = omega arith

fresh-unused : (k : ℕ) → count_if (has_id (fresh k)) renewed.jobs ≡ 0
unfolding count_if
fresh-unused k = ground arith

reap_jobs-Consistent_example :
    (db' : Tables) × (reap_jobs settings unlocked fresh late renewed
      ≡ ok (
        failed_notices settings unlocked fresh late
            (ended_jobs settings unlocked fresh late 0 renewed.jobs),
        db',
        retry_notices settings unlocked fresh late
            (retry_jobs settings unlocked fresh late 0 renewed.jobs),
      ))
    × (db' ≡ record renewed {
      jobs =
          expire settings unlocked fresh late 0 renewed.jobs
          ++ retry_jobs settings unlocked fresh late 0 renewed.jobs;
    })
    × Consistent 2 db'
reap_jobs-Consistent_example =
    reap_jobs-Consistent settings unlocked fresh late 2 renewed (omega arith) fresh-distinct
      fresh-unused renewed-Consistent

reap_recovers_example :
    ((ended : RunnerJob) × (get_job 11 reaped ≡ some ended)
      × (ended.status ≡ (if ltb 1 2 then JobStatus.timeout else JobStatus.failed))
      × (ended.worker_id ≡ some 7))
    × (1 < 2 → 1 ≤ count_if (is_queued_attempt 10 2) reaped.jobs)
unfolding find_first
reap_recovers_example =
    reap_recovers settings unlocked fresh late renewed reaped _ _ 11 running_job 60000103
      reap_jobs-run refl (inr refl) refl (omega arith) refl

-- Another transaction holds the row.
abbrev held : ℕ → Bool
held id = true

reap_jobs-held : reap_jobs settings held fresh late renewed ≡ ok ([], renewed, [])
unfolding reap_jobs expire retry_jobs ended_jobs insert_jobs find_first
reap_jobs-held = refl

reap_spares_example : get_job 11 renewed ≡ some running_job
unfolding find_first
reap_spares_example =
    reap_spares settings held fresh late renewed renewed _ _ 11 running_job reap_jobs-held refl
      (inr (inr (inr refl)))
