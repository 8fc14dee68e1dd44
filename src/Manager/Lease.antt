-- ===== src/Manager/Lease.antt =====
-- The lease of a job: `EvaluationManager.owned_job`, which fences every write of a worker, and
-- `EvaluationManager.heartbeat`, which extends the lease.
pub mod Fence
pub mod Renewal
use agent_bench_x.Prelude.{
  ℕ, ◌+◌, String, Bool, not, ◌&&◌, Option, none, some, [], ◌∷◌, leb, if◌then◌else◌, str_eq,
}
use agent_bench_x.Models.{
  RunnerJob, Worker, JobStatus, JobHeartbeat, Settings, Moment, seconds, is_active, is_terminal,
}
use agent_bench_x.Manager.Tables.{
  Result, ok, err, http, type_error, ◌>>=◌, ◌>>◌, raise_if, Tables, Notice, Reply, Event, worker_is,
  get_job, put_job, put_worker,
}

-- `value or ""` on an optional text, and `value or default` on an optional moment.
abbrev pub or_empty : Option String → String
or_empty none = ""
or_empty (some s) = s

abbrev pub or_else : Option Moment → Moment → Moment
or_else none d = d
or_else (some t) d = t

-- `lease_expires_at <= now()`
abbrev pub is_over : Option Moment → Moment → Result Bool
is_over none now = err type_error
is_over (some t) now = ok (leb t now)

abbrev pub owns : Worker → String → RunnerJob → Bool
owns worker token job = worker_is worker.id job.worker_id && str_eq (or_empty job.lease_token) token

-- `job.status not in {"CLAIMED", "RUNNING"} or job.lease_expires_at <= now()`, then `raise`.
unfoldable pub require_live : RunnerJob → Moment → String → Result RunnerJob
require_live job now detail = do
  raise_if (not (is_active job.status)) (http 409 detail)
  over ← is_over job.lease_expires_at now
  raise_if over (http 409 detail)
  ok job

abbrev pub found_job : Option RunnerJob → Result RunnerJob
found_job none = err (http 403 "Invalid job lease")
found_job (some job) = ok job

unfoldable pub owned_job : Worker → ℕ → String → Bool → Moment → Tables → Result RunnerJob
unfolding require_live
owned_job worker job_id token allow_terminal now db = do
  job ← found_job (get_job job_id db)
  raise_if (not (owns worker token job)) (http 403 "Invalid job lease")
  if allow_terminal && is_terminal job.status
      then ok job
      else require_live job now "Job lease expired or job is terminal"

-- `job.last_event != event`
abbrev pub is_new_event : Option String → String → Bool
is_new_event none event = Bool.true
is_new_event (some e) event = not (str_eq e event)

module _ (settings : Settings) (now : ℕ → Moment) where
  abbrev pub renewed_job : JobHeartbeat → RunnerJob → RunnerJob
  renewed_job heartbeat job = record job {
    last_event = some heartbeat.event;
    status = JobStatus.running;
    heartbeat_at = some (now 1);
    started_at = some (or_else job.started_at (now 2));
    lease_expires_at = some (now 3 + seconds settings.lease_seconds);
  }

  unfoldable pub heartbeat : Worker → ℕ → JobHeartbeat → Tables → Reply RunnerJob
  heartbeat worker job_id beat db = do
    found ← owned_job worker job_id beat.lease_token Bool.false (now 0) db
    let job = renewed_job beat found
    let worker' = record worker { last_heartbeat = now 4 }
    let db' = record db { jobs = put_job job db.jobs; workers = put_worker worker' db.workers }
    let event = Notice.publish (Event.job_event beat.event worker.id job.id)
    ok (job, db', (if is_new_event found.last_event beat.event then event ∷ [] else []))
