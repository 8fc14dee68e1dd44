-- ===== src/Manager/Tables.antt =====
-- The tables of apps/api/agentbenchx/models.py with their constraints, the errors of a request,
-- and the messages for Redis (apps/api/agentbenchx/events.py).
use mathlib.Core.List.{append-nil, append_assoc}
use agent_bench_x.Prelude.{
  ℕ, String, ◌≡◌, refl, sym, subst, ◌⊎◌, inl, inr, Bool, false, ◌&&◌, ◌||◌, Option, none, some,
  List, [], ◌∷◌, ◌++◌, arith, ◌==◌, is_some, if◌then◌else◌, ==→≡, find_first, replace_first,
  find_first-passes,
}
use agent_bench_x.Models.{
  AgentVersion, ProblemVersion, Submission, Worker, RunnerJob, Evaluation, TestResult,
  EvaluationLog, Patch, Score, WorkerStatus, JobStatus, is_active,
}

pub data Error : Type 0 where
  -- `HTTPException(status_code, detail)`
  http : ℕ → String → Error
  -- `IntegrityError`: a primary key or a unique constraint is violated.
  integrity : Error
  -- An order between `None` and a moment.
  type_error : Error
  -- What a storage backend raises.
  storage_error : Error

pub data Result {ℓ} (A : Type ℓ) : Type ℓ where
  ok : A → Result A
  err : Error → Result A

infixl 5 ◌>>=◌ ◌>>◌
abbrev pub ◌>>=◌ {ℓ κ} : {A : Type ℓ} {B : Type κ} → Result A → (A → Result B) → Result B
ok a >>= f = f a
err e >>= f = err e

abbrev pub ◌>>◌ {ℓ κ} : {A : Type ℓ} {B : Type κ} → Result A → Result B → Result B
m >> k = m >>= λ _. k

pub Result-cases {ℓ} :
    {A : Type ℓ} (r : Result A) → ((a : A) × (r ≡ ok a)) ⊎ ((e : Error) × (r ≡ err e))
Result-cases (ok a) = inl (a, refl)
Result-cases (err e) = inr (e, refl)

-- `if test: raise error`
abbrev pub raise_if : Bool → Error → Result (Unit {0})
raise_if test error = if test then err error else ok tt

-- `require(db, model, identifier)` of services.py, on the row that `db.get` returned.
abbrev pub require {ℓ} : {A : Type ℓ} → Option A → String → Result A
require none detail = err (http 404 detail)
require (some row) detail = ok row

pub record Tables : Type 0 where
  pub agent_versions : List AgentVersion
  pub problem_versions : List ProblemVersion
  pub workers : List Worker
  pub submissions : List Submission
  pub jobs : List RunnerJob
  pub evaluations : List Evaluation
  pub test_results : List TestResult
  pub logs : List EvaluationLog
  pub patches : List Patch
  pub scores : List Score

pub data Event : Type 0 where
  job_queued : ℕ → Event
  job_failed : ℕ → JobStatus → Event
  worker_status : ℕ → WorkerStatus → Event
  -- `publish(data.event, worker_id=…, job_id=…)`
  job_event : String → ℕ → ℕ → Event
  evaluation_completed evaluation_failed : ℕ → ℕ → Event

-- The calls of `RedisQueue`; none of them raises, whether Redis answers or not.
pub data Notice : Type 0 where
  enqueue claimed : ℕ → Notice
  publish : Event → Notice

-- A reply, the tables as committed, and the notices.
abbrev pub Reply {ℓ} : Type ℓ → Type ℓ
Reply A = Result (A × Tables × List Notice)

abbrev pub has_id : ℕ → RunnerJob → Bool
has_id i job = job.id == i

abbrev pub is_attempt : ℕ → ℕ → RunnerJob → Bool
is_attempt s a job = job.submission_id == s && job.attempt == a

abbrev pub worker_is : ℕ → Option ℕ → Bool
worker_is w none = false
worker_is w (some v) = v == w

-- The query `RunnerJob.worker_id == worker.id, RunnerJob.status.in_(["CLAIMED", "RUNNING"])`.
abbrev pub is_active_of : ℕ → RunnerJob → Bool
is_active_of w job = worker_is w job.worker_id && is_active job.status

abbrev pub of_job : ℕ → Evaluation → Bool
of_job i evaluation = evaluation.job_id == i

abbrev pub get_job : ℕ → Tables → Option RunnerJob
get_job i db = find_first (has_id i) db.jobs

abbrev pub put_job : RunnerJob → List RunnerJob → List RunnerJob
put_job job = replace_first (has_id job.id) job

-- A job that its id finds is found under the id that it bears.
pub get_job_self :
    (i : ℕ) (db : Tables) (job : RunnerJob)
    → get_job i db ≡ some job
    → find_first (has_id job.id) db.jobs ≡ some job
get_job_self i db job h =
    subst (λ k. find_first (has_id k) db.jobs ≡ some job)
      (sym (==→≡ job.id i (find_first-passes (has_id i) db.jobs job h))) h

abbrev pub get_worker : ℕ → Tables → Option Worker
get_worker i db = find_first (λ w. w.id == i) db.workers

abbrev pub put_worker : Worker → List Worker → List Worker
put_worker worker = replace_first (λ w. w.id == worker.id) worker

abbrev pub get_submission : ℕ → Tables → Option Submission
get_submission i db = find_first (λ s. s.id == i) db.submissions

abbrev pub get_problem_version : ℕ → Tables → Option ProblemVersion
get_problem_version i db = find_first (λ p. p.id == i) db.problem_versions

abbrev pub get_agent_version : ℕ → Tables → Option AgentVersion
get_agent_version i db = find_first (λ v. v.id == i) db.agent_versions

-- The primary key and `UniqueConstraint("submission_id", "attempt")` of `RunnerJob`.
abbrev pub is_taken : RunnerJob → List RunnerJob → Bool
is_taken job jobs =
    is_some (find_first (has_id job.id) jobs)
    || is_some (find_first (is_attempt job.submission_id job.attempt) jobs)

unfoldable pub insert_jobs : List RunnerJob → List RunnerJob → Result (List RunnerJob)
insert_jobs jobs [] = ok jobs
insert_jobs jobs (job ∷ rest) =
    if is_taken job jobs then err integrity else insert_jobs (jobs ++ job ∷ []) rest

-- What is inserted stands behind what was there.
pub insert_jobs-append :
    (jobs new rows : List RunnerJob) → insert_jobs jobs new ≡ ok rows → rows ≡ jobs ++ new
unfolding insert_jobs
insert_jobs-append jobs [] rows h = ground (arith, append-nil jobs)
insert_jobs-append jobs (job ∷ rest) rows h =
    ground
      (arith, insert_jobs-append (jobs ++ job ∷ []) rest rows, append_assoc jobs (job ∷ []) rest)

pub insert_jobs-head :
    (jobs rest rows : List RunnerJob) (job : RunnerJob)
    → insert_jobs jobs (job ∷ rest) ≡ ok rows
    → (find_first (has_id job.id) jobs ≡ none) × (insert_jobs (jobs ++ job ∷ []) rest ≡ ok rows)
unfolding insert_jobs
insert_jobs-head jobs rest rows job h = (ground arith, ground arith)

-- `RunnerJob(submission_id=…, attempt=…)` with the column defaults.
abbrev pub new_job : ℕ → ℕ → ℕ → ℕ → RunnerJob
new_job id submission_id attempt queued_at = record {
  id = id;
  submission_id = submission_id;
  worker_id = none;
  status = JobStatus.queued;
  attempt = attempt;
  queued_at = queued_at;
  started_at = none;
  finished_at = none;
  heartbeat_at = none;
  lease_expires_at = none;
  last_event = none;
  lease_token = none;
  error_message = none;
}
