-- ===== src/Tests/Requests.antt =====
-- The requests of one job: submit, claim, heartbeat, result, and the result once more.
use agent_bench_x.Prelude.{
  ℕ, ◌≡◌, refl, String, true, false, some, inr, [], ◌∷◌, arith, count_if, find_first, replace_first,
  ◌⊎◌, ◌+◌, ◌<◌, ◌≤◌, ◌/◌, ◌↔◌,
}
use agent_bench_x.Models.{
  RunnerJob, Worker, JobStatus, Moment, WorkerStatus, seconds, is_active, is_terminal,
}
use agent_bench_x.Manager.Tables.{
  Tables, ok, insert_jobs, Notice, Event, put_job, get_job, get_worker,
}
use agent_bench_x.Manager.Submit.{
  submit, fromkeys_from, fromkeys, require_problems, insert_submissions, new_submissions, new_jobs,
}
use agent_bench_x.Manager.Submit.Consistency.{submit-Consistent}
use agent_bench_x.Manager.Workers.{bearer_token, worker_auth}
use agent_bench_x.Manager.Workers.Access.{worker_auth_iff}
use agent_bench_x.Manager.Claim.{ClaimReply, claim, assign, next_queued}
use agent_bench_x.Manager.Claim.Effect.{claim-oldest, claim-Consistent}
use agent_bench_x.Manager.Lease.{owned_job, or_else, require_live, heartbeat}
use agent_bench_x.Manager.Lease.Fence.{IsLive, IsOwnedBy, owned_job_iff}
use agent_bench_x.Manager.Lease.Renewal.{heartbeat_extends, heartbeat-Consistent}
use agent_bench_x.Manager.Results.{result, admit, record_result, accept, context_of}
use agent_bench_x.Manager.Results.Replay.{result_idempotent}
use agent_bench_x.Manager.Results.Rejection.{is_err, result_refused, result_overrun}
use agent_bench_x.Manager.Invariant.{Consistent}
use agent_bench_x.Manager.History.{
  IsValid, Reach, here, next, submits, claims, renews, delivers, Reach-IsValid,
}
use agent_bench_x.Artifacts.{artifacts, put_all, collect_artifacts}
use agent_bench_x.Costs.{calculate}
use agent_bench_x.Tests.Data.{
  settings, sha256, uid, clock, unlocked, agent, problem, worker, initial, initial-Consistent,
  initial-IsLinked, submission, submitted, claimed_job, busy_worker, assigned, beat, running_job,
  renewed, renewed_worker, input, fresh, put, evaluation, delivered,
}

submit-run :
    submit uid clock 1 (3 ∷ 3 ∷ []) initial
    ≡ ok (submission ∷ [], submitted, Notice.enqueue 11 ∷ Notice.publish (Event.job_queued 11) ∷ [])
unfolding submit fromkeys fromkeys_from require_problems insert_submissions new_submissions new_jobs
    insert_jobs find_first
submit-run = refl

submitted-Valid : IsValid 2 submitted
submitted-Valid =
    submit-Consistent uid clock 2 (omega arith) 1 (3 ∷ 3 ∷ []) initial submitted (submission ∷ []) _
      initial-Consistent initial-IsLinked submit-run

worker_auth_iff_example : (worker_auth sha256 7 (bearer_token "secret") initial ≡ ok worker) ↔ (
    (get_worker 7 initial ≡ some worker)
    × ((token : String) × (bearer_token "secret" ≡ bearer_token token)
        × (sha256 token ≡ worker.token_hash)))
worker_auth_iff_example = worker_auth_iff sha256 7 (bearer_token "secret") initial worker

abbrev reply : ClaimReply
reply = record {
  job = claimed_job;
  lease_token = "t";
  lease_seconds = 60;
  problem_version = problem;
  agent_version = agent;
}

claim-run :
    claim settings unlocked "t" clock worker submitted
    ≡ ok (
      some reply,
      assigned,
      Notice.claimed 11 ∷ Notice.publish (Event.worker_status 7 WorkerStatus.busy) ∷ [],
    )
unfolding claim assign next_queued find_first replace_first
claim-run = refl

claim-oldest_example :
    (found : RunnerJob) × (get_job found.id submitted ≡ some found)
    × (found.status ≡ JobStatus.queued)
    × (unlocked found.id ≡ false)
    × ((i : ℕ) (other : RunnerJob)
        → get_job i submitted ≡ some other
        → other.status ≡ JobStatus.queued
        → unlocked other.id ≡ false
        → (found.queued_at < other.queued_at)
          ⊎ ((found.queued_at ≡ other.queued_at) × (found.id ≤ other.id)))
    × ((i : ℕ) (other : RunnerJob)
        → get_job i submitted ≡ some other
        → other.worker_id ≡ some 7
        → is_active other.status ≡ false)
    × ((WorkerStatus.online ≡ WorkerStatus.online) ⊎ (WorkerStatus.online ≡ WorkerStatus.busy))
    × (claimed_job ≡ record found {
      worker_id = some 7;
      status = JobStatus.claimed;
      lease_token = some "t";
      heartbeat_at = some (clock 0);
      lease_expires_at = some (clock 1 + seconds settings.lease_seconds);
    })
    × (assigned.jobs ≡ put_job claimed_job submitted.jobs)
claim-oldest_example =
    claim-oldest settings unlocked "t" clock 2 worker submitted assigned reply _ submitted-Valid.0
      claim-run

assigned-Consistent : Consistent 2 assigned
assigned-Consistent =
    claim-Consistent settings unlocked "t" clock 2 worker submitted assigned (some reply) _
      submitted-Valid.0 claim-run

owned_job_iff_example : (owned_job busy_worker 11 "t" false 100 assigned ≡ ok claimed_job) ↔ (
    (get_job 11 assigned ≡ some claimed_job)
    × IsOwnedBy busy_worker "t" claimed_job
    × (((false ≡ true) × (is_terminal claimed_job.status ≡ true)) ⊎ IsLive claimed_job 100))
owned_job_iff_example = owned_job_iff busy_worker 11 "t" false 100 assigned claimed_job

pub heartbeat-run :
    heartbeat settings clock busy_worker 11 beat assigned
    ≡ ok (running_job, renewed, Notice.publish (Event.job_event "test.started" 7 11) ∷ [])
unfolding heartbeat owned_job require_live find_first replace_first
heartbeat-run = refl

heartbeat_extends_example :
    (found : RunnerJob) × (get_job 11 assigned ≡ some found)
    × IsOwnedBy busy_worker "t" found
    × IsLive found 100
    × (running_job.status ≡ JobStatus.running)
    × (running_job.lease_expires_at ≡ some 60000103)
    × (running_job.lease_token ≡ found.lease_token)
    × (running_job.attempt ≡ found.attempt)
    × (running_job.started_at ≡ some (or_else found.started_at 102))
    × (renewed.jobs ≡ put_job running_job assigned.jobs)
heartbeat_extends_example =
    heartbeat_extends settings clock busy_worker 11 beat assigned renewed running_job _
      heartbeat-run

pub renewed-Consistent : Consistent 2 renewed
renewed-Consistent =
    heartbeat-Consistent settings clock 2 busy_worker 11 beat assigned renewed running_job _
      assigned-Consistent heartbeat-run

result-run :
    (result settings sha256 fresh clock put renewed_worker 11 input renewed []).0
    ≡ ok (
      evaluation,
      delivered,
      Notice.enqueue 21
          ∷ Notice.publish (Event.job_queued 21)
          ∷ Notice.publish (Event.evaluation_failed 20 11)
          ∷ Notice.publish (Event.worker_status 7 WorkerStatus.online)
          ∷ [],
    )
unfolding result admit record_result owned_job require_live find_first replace_first
    collect_artifacts artifacts put_all calculate insert_jobs count_if
result-run = refl

-- The second delivery comes when the lease is over, with other contents, from the worker's row as
-- a heartbeat has left it.
abbrev freed_worker : Worker
freed_worker = record renewed_worker { status = WorkerStatus.online; last_heartbeat = 69999999 }

abbrev later : Tables
later = record delivered { workers = freed_worker ∷ [] }

result_idempotent_example :
    result settings sha256 fresh
      (λ k. 70000000)
      put
      freed_worker
      11
      (record input { stdout = "more" })
      later
      []
    ≡ (ok (evaluation, later, []), [])
result_idempotent_example =
    result_idempotent settings sha256 put 2 fresh fresh clock (λ k. 70000000) renewed_worker
      freed_worker 11 input (record input { stdout = "more" }) renewed delivered later [] []
      evaluation _ renewed-Consistent result-run refl refl refl (λ i e h. h)

-- The lease was over when the request arrived.
result_refused_example :
    (is_err (result settings sha256 fresh (λ k. 70000000) put renewed_worker 11 input renewed []).0
      ≡ true)
    × ((result settings sha256 fresh (λ k. 70000000) put renewed_worker 11 input renewed []).1 ≡ [])
unfolding find_first
result_refused_example =
    result_refused settings sha256 fresh (λ k. 70000000) put renewed_worker 11 input renewed []
      running_job refl (inr (refl, inr (60000103, refl, omega arith)))

-- The lease ends while the artifacts are stored.
abbrev slow : ℕ → Moment
slow k = 60000102 + k / 2

slow-admit :
    admit settings sha256 fresh slow renewed_worker 11 input renewed
    ≡ ok (accept running_job submission problem)
unfolding admit owned_job require_live find_first
slow-admit = refl

result_overrun_example :
    (is_err (result settings sha256 fresh slow put renewed_worker 11 input renewed []).0 ≡ true)
    × ((result settings sha256 fresh slow put renewed_worker 11 input renewed []).1
        ≡ (collect_artifacts put 20 4 input (context_of renewed_worker running_job problem) []).1)
result_overrun_example =
    result_overrun settings sha256 fresh slow put renewed_worker 11 input renewed [] running_job
      submission problem slow-admit (inr (60000103, refl, omega arith))

-- The job's way as a history.
abbrev history : Reach settings sha256 put initial delivered
history =
    next
      (next
        (next
          (next here
            (submits uid clock 1 (3 ∷ 3 ∷ []) initial submitted (submission ∷ []) _ submit-run))
          (claims unlocked "t" clock worker submitted assigned (some reply) _ claim-run))
        (renews clock busy_worker 11 beat assigned renewed running_job _ heartbeat-run))
      (delivers fresh clock renewed_worker 11 input [] renewed delivered evaluation _ result-run)

Reach-IsValid_example : IsValid 2 delivered
Reach-IsValid_example =
    Reach-IsValid settings sha256 put 2 (omega arith) (omega arith)
      (initial-Consistent, initial-IsLinked) history
