-- ===== src/Manager/Reap.antt =====
-- `EvaluationManager.reap`, the maintenance of apps/api/agentbenchx/main.py, in its two
-- transactions: expired jobs end and are queued again while attempts are left, and workers that
-- have been silent for too long go offline. Between the two, requests may run.
pub mod Retries
pub mod Consistency
pub mod Recovery
use agent_bench_x.Prelude.{
  ℕ, suc, ◌+◌, Bool, false, not, ◌&&◌, Option, none, some, List, [], ◌∷◌, ltb, leb, if◌then◌else◌,
}
use agent_bench_x.Models.{
  RunnerJob, Worker, WorkerStatus, JobStatus, Settings, Moment, seconds, is_active,
}
use agent_bench_x.Manager.Tables.{ok, ◌>>=◌, Tables, Notice, Reply, Event, insert_jobs, new_job}

-- In SQL an order with NULL does not hold.
abbrev pub is_before_now : Option Moment → Moment → Bool
is_before_now none now = false
is_before_now (some t) now = ltb t now

-- The rows of the first query, less those that `skip_locked` passes over.
abbrev pub is_expired : (ℕ → Bool) → Moment → RunnerJob → Bool
is_expired locked now job =
    is_active job.status && is_before_now job.lease_expires_at now && not (locked job.id)

-- `now 0` is the moment of the query, `now (k + 1)` the one at which round `k` ends its job, and
-- `uid k` the id of the row that round `k` may add.
module _ (settings : Settings) (locked : ℕ → Bool) (uid : ℕ → ℕ) (now : ℕ → Moment) where
  abbrev pub may_retry : RunnerJob → Bool
  may_retry job = ltb job.attempt settings.max_attempts

  abbrev pub expired_job : ℕ → RunnerJob → RunnerJob
  expired_job k job = record job {
    status = if leb settings.max_attempts job.attempt then JobStatus.failed else JobStatus.timeout;
    finished_at = some (now (suc k));
    error_message = some "Worker lease expired; execution outcome unknown";
  }

  abbrev pub next_round : ℕ → RunnerJob → ℕ
  next_round k job = if is_expired locked (now 0) job then suc k else k

  -- The table after the loop, and the rows that the loop adds. `k` counts the rounds.
  unfoldable pub expire : ℕ → List RunnerJob → List RunnerJob
  expire k [] = []
  expire k (job ∷ jobs) =
      (if is_expired locked (now 0) job then expired_job k job else job)
      ∷ expire (next_round k job) jobs

  -- `queued_at` has a default that reads the clock when the row is written, for which the moment of the
  -- round stands here.
  abbrev pub retry_job : ℕ → RunnerJob → RunnerJob
  retry_job k job = new_job (uid k) job.submission_id (job.attempt + 1) (now (suc k))

  unfoldable pub retry_jobs : ℕ → List RunnerJob → List RunnerJob
  retry_jobs k [] = []
  retry_jobs k (job ∷ jobs) =
      let rest = retry_jobs (next_round k job) jobs in
      if is_expired locked (now 0) job && may_retry job then retry_job k job ∷ rest else rest

  -- The jobs that ended, as they are after the loop.
  unfoldable pub ended_jobs : ℕ → List RunnerJob → List RunnerJob
  ended_jobs k [] = []
  ended_jobs k (job ∷ jobs) =
      let rest = ended_jobs (next_round k job) jobs in
      if is_expired locked (now 0) job then expired_job k job ∷ rest else rest

  abbrev pub failed_notices : List RunnerJob → List Notice
  failed_notices [] = []
  failed_notices (job ∷ jobs) =
      Notice.publish (Event.job_failed job.id job.status) ∷ failed_notices jobs

  abbrev pub retry_notices : List RunnerJob → List Notice
  retry_notices [] = []
  retry_notices (job ∷ jobs) =
      Notice.enqueue job.id ∷ Notice.publish (Event.job_queued job.id) ∷ retry_notices jobs

  -- The first transaction, with the notices that the end of `reap` sends before and after those
  -- about workers.
  unfoldable pub reap_jobs : Tables → Reply (List Notice)
  reap_jobs db = do
    let retries = retry_jobs 0 db.jobs
    jobs ← insert_jobs (expire 0 db.jobs) retries
    ok (failed_notices (ended_jobs 0 db.jobs), record db { jobs = jobs }, retry_notices retries)

abbrev pub is_online : WorkerStatus → Bool
is_online WorkerStatus.online = Bool.true
is_online WorkerStatus.busy = Bool.true
is_online _ = false

-- The second query: `last_heartbeat < now() - timedelta(…)`, with the difference moved over.
abbrev pub is_silent : Settings → (ℕ → Bool) → Moment → Worker → Bool
is_silent settings locked now worker =
    ltb (worker.last_heartbeat + seconds settings.worker_offline_seconds) now
    && is_online worker.status
    && not (locked worker.id)

module _ (settings : Settings) (locked : ℕ → Bool) (now : Moment) where
  unfoldable pub put_offline : List Worker → List Worker
  put_offline [] = []
  put_offline (worker ∷ workers) =
      (if is_silent settings locked now worker
        then record worker { status = WorkerStatus.offline }
        else worker)
      ∷ put_offline workers

  unfoldable pub offline_notices : List Worker → List Notice
  offline_notices [] = []
  offline_notices (worker ∷ workers) =
      let rest = offline_notices workers in
      if is_silent settings locked now worker
      then Notice.publish (Event.worker_status worker.id WorkerStatus.offline) ∷ rest
      else rest

  -- The second transaction.
  unfoldable pub reap_workers : Tables → Tables × List Notice
  unfolding put_offline offline_notices
  reap_workers db = (record db { workers = put_offline db.workers }, offline_notices db.workers)
