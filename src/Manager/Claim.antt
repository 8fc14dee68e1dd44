-- ===== src/Manager/Claim.antt =====
-- `EvaluationManager.claim`: the oldest queued job that no other transaction holds goes to the
-- worker under a new lease. The caller holds the lock on the worker's row (`worker_auth`).
pub mod Order
pub mod Effect
use agent_bench_x.Prelude.{
  ℕ, ◌+◌, String, Bool, true, false, not, ◌&&◌, ◌||◌, Option, none, some, List, [], ◌∷◌, ltb, ◌==◌,
  is_some, if◌then◌else◌, find_first,
}
use agent_bench_x.Models.{
  RunnerJob, Worker, WorkerStatus, JobStatus, ProblemVersion, AgentVersion, Settings, Moment,
  seconds, is_queued,
}
use agent_bench_x.Manager.Tables.{
  ok, http, ◌>>=◌, ◌>>◌, raise_if, require, Tables, Notice, Reply, Event, is_active_of, put_job,
  put_worker, get_submission, get_problem_version, get_agent_version,
}

-- `worker.status in {"DRAINING", "ERROR", "OFFLINE"}`
abbrev pub cannot_claim : WorkerStatus → Bool
cannot_claim WorkerStatus.draining = true
cannot_claim WorkerStatus.error = true
cannot_claim WorkerStatus.offline = true
cannot_claim _ = false

-- `order_by(RunnerJob.queued_at, RunnerJob.id)`
abbrev pub is_before : RunnerJob → RunnerJob → Bool
is_before a b = ltb a.queued_at b.queued_at || (a.queued_at == b.queued_at && ltb a.id b.id)

abbrev pub earlier : RunnerJob → Option RunnerJob → RunnerJob
earlier job none = job
earlier job (some other) = if is_before other job then other else job

-- A queued row that `skip_locked` does not pass over.
abbrev pub is_available : (ℕ → Bool) → RunnerJob → Bool
is_available locked job = is_queued job.status && not (locked job.id)

unfoldable pub next_queued : (ℕ → Bool) → List RunnerJob → Option RunnerJob
next_queued locked [] = none
next_queued locked (job ∷ jobs) =
    let rest = next_queued locked jobs in
    if is_available locked job then some (earlier job rest) else rest

-- What the worker receives; the URL of the agent is made of the two ids.
pub record ClaimReply : Type 0 where
  pub job : RunnerJob
  pub lease_token : String
  pub lease_seconds : ℕ
  pub problem_version : ProblemVersion
  pub agent_version : AgentVersion

module _ (settings : Settings) (locked : ℕ → Bool) (token : String) (now : ℕ → Moment) where
  abbrev pub claimed_job : Worker → RunnerJob → RunnerJob
  claimed_job worker job = record job {
    worker_id = some worker.id;
    status = JobStatus.claimed;
    lease_token = some token;
    heartbeat_at = some (now 0);
    lease_expires_at = some (now 1 + seconds settings.lease_seconds);
  }

  abbrev pub busy_worker : Worker → Worker
  busy_worker worker = record worker { status = WorkerStatus.busy; last_heartbeat = now 2 }

  unfoldable pub assign : Worker → RunnerJob → Tables → Reply (Option ClaimReply)
  assign worker found db = do
    let job = claimed_job worker found
    let worker' = busy_worker worker
    submission ← require (get_submission job.submission_id db) "Submission not found"
    problem ←
        require (get_problem_version submission.problem_version_id db) "ProblemVersion not found"
    agent ← require (get_agent_version submission.agent_version_id db) "AgentVersion not found"
    let reply : ClaimReply = record {
      job = job;
      lease_token = token;
      lease_seconds = settings.lease_seconds;
      problem_version = problem;
      agent_version = agent;
    }
    let db' = record db { jobs = put_job job db.jobs; workers = put_worker worker' db.workers }
    ok (
      some reply,
      db',
      Notice.claimed job.id ∷ Notice.publish (Event.worker_status worker'.id worker'.status) ∷ [],
    )

  unfoldable pub claim : Worker → Tables → Reply (Option ClaimReply)
  claim worker db = do
    raise_if (cannot_claim worker.status) (http 409 "Worker must be online to claim")
    raise_if (is_some (find_first (is_active_of worker.id) db.jobs))
        (http 409 "Worker already has an active job")
    elim (next_queued locked db.jobs) [
      | none ↦ ok (none, db, [])
      | some found ↦ assign worker found db
    ]
