-- ===== src/Manager/Results.antt =====
-- `EvaluationManager.result`: a worker delivers the result of its job. The handler reads the job,
-- stores the artifacts, reads the clock again and then writes the evaluation with its rows.
pub mod Delivery
pub mod Effect
pub mod Consistency
pub mod Replay
pub mod Rejection
use agent_bench_x.Prelude.{
  ℕ, ◌+◌, String, Bool, ◌&&◌, Option, none, some, List, [], ◌∷◌, ◌++◌, map, ltb, ◌==◌, is_some,
  if◌then◌else◌, find_first,
}
use agent_bench_x.Models.{
  StorageKey, RunnerJob, Worker, WorkerStatus, Submission, ProblemVersion, Evaluation, TestResult,
  EvaluationLog, Patch, Score, ResultStatus, FailureType, TestInput, ResultInput, Settings, Moment,
  job_status,
}
use agent_bench_x.Manager.Tables.{
  Result, ok, err, http, integrity, ◌>>=◌, ◌>>◌, raise_if, require, Tables, Notice, Reply, Event,
  get_submission, get_problem_version, put_job, put_worker, insert_jobs, new_job, of_job,
}
use agent_bench_x.Manager.Lease.{is_over, owned_job, require_live}
use agent_bench_x.Costs.{calculate}
use agent_bench_x.Artifacts.{Context, Content, collect_artifacts}

-- What the handler knows before it stores anything: an evaluation that is already there, or the
-- live job with its submission and its problem.
pub data Admission : Type 0 where
  replay : Evaluation → Admission
  accept : RunnerJob → Submission → ProblemVersion → Admission

abbrev pub is_infrastructure : Option FailureType → Bool
is_infrastructure (some FailureType.infrastructure_failure) = Bool.true
is_infrastructure _ = Bool.false

abbrev failure_text : FailureType → String
failure_text FailureType.infrastructure_failure = "INFRASTRUCTURE_FAILURE"
failure_text FailureType.agent_failure = "AGENT_FAILURE"
failure_text FailureType.test_failure = "TEST_FAILURE"
failure_text FailureType.timeout = "TIMEOUT"
failure_text FailureType.security_failure = "SECURITY_FAILURE"

abbrev failure_message : Option FailureType → Option String
failure_message none = none
failure_message (some failure) = some (failure_text failure)

-- `"DRAINING" if worker.status == "DRAINING" else "ONLINE"`
abbrev pub released_status : WorkerStatus → WorkerStatus
released_status WorkerStatus.draining = WorkerStatus.draining
released_status _ = WorkerStatus.online

abbrev pub result_event : ResultStatus → ℕ → ℕ → Event
result_event ResultStatus.completed evaluation job = Event.evaluation_completed evaluation job
result_event _ evaluation job = Event.evaluation_failed evaluation job

abbrev test_rows : ℕ → List TestInput → List TestResult
test_rows evaluation = map λ test. record { evaluation_id = evaluation; test = test }

abbrev log_row : ℕ → ℕ → String → String → EvaluationLog
log_row evaluation problem kind file = record {
  evaluation_id = evaluation;
  kind = kind;
  storage_path = StorageKey.artifact_key evaluation problem file;
}

abbrev log_rows : ℕ → ℕ → List EvaluationLog
log_rows evaluation problem =
    log_row evaluation problem "stdout" "stdout.log"
    ∷ log_row evaluation problem "stderr" "stderr.log"
    ∷ log_row evaluation problem "agent_output" "agent_output.log"
    ∷ []

abbrev pub context_of : Worker → RunnerJob → ProblemVersion → Context
context_of worker job problem = record {
  worker = worker.name;
  worker_id = worker.id;
  problem = problem.problem_path;
  problem_id = problem.problem_id;
  problem_version = problem.id;
  commit_sha = problem.commit_sha;
  attempt = job.attempt;
}

-- `sha256` is the digest in hexadecimal. `uid 0` is the id of the evaluation, `uid 1` that of the
-- retry.
module _ (settings : Settings) (sha256 : String → String) (uid : ℕ → ℕ) (now : ℕ → Moment) where
  unfoldable pub admit : Worker → ℕ → ResultInput → Tables → Result Admission
  admit worker job_id result db = do
    job ← owned_job worker job_id result.lease_token Bool.true (now 0) db
    elim (find_first (of_job job.id) db.evaluations) [
      | some previous ↦ ok (replay previous)
      | none ↦ do
        require_live job (now 1) "Stale result; lease no longer valid"
        submission ← require (get_submission job.submission_id db) "Submission not found"
        problem ←
            require (get_problem_version submission.problem_version_id db)
              "ProblemVersion not found"
        ok (accept job submission problem)
    ]

  abbrev pub evaluation_of : Worker → RunnerJob → Submission → ResultInput → ℕ × ℕ → Evaluation
  evaluation_of worker job submission result path = record {
    id = uid 0;
    job_id = job.id;
    submission_id = submission.id;
    worker_id = worker.id;
    status = result.status;
    failure_type = result.failure_type;
    metrics = calculate result;
    artifact_path = path;
  }

  abbrev pub finished_job : RunnerJob → ResultInput → RunnerJob
  finished_job job result = record job {
    status = job_status result.status;
    finished_at = some (now 3);
    error_message = failure_message result.failure_type;
  }

  abbrev pub released_worker : Worker → Worker
  released_worker worker = record worker {
    status = released_status worker.status;
    last_heartbeat = now 4;
  }

  -- The retry of an attempt that failed for reasons of infrastructure.
  abbrev pub result_retry : RunnerJob → Submission → ResultInput → List RunnerJob
  result_retry job submission result =
      if is_infrastructure result.failure_type && ltb job.attempt settings.max_attempts
      then new_job (uid 1) submission.id (job.attempt + 1) (now 5) ∷ []
      else []

  abbrev queued_notices : List RunnerJob → List Notice
  queued_notices [] = []
  queued_notices (job ∷ jobs) =
      Notice.enqueue job.id ∷ Notice.publish (Event.job_queued job.id) ∷ queued_notices jobs

  -- The part after the upload: everything that the transaction writes.
  unfoldable pub record_result :
      Worker → RunnerJob → Submission → ResultInput → ℕ × ℕ → Tables → Reply Evaluation
  record_result worker job submission result path db = do
    over ← is_over job.lease_expires_at (now 2)
    raise_if over (http 409 "Result storage exceeded job lease")
    let evaluation = evaluation_of worker job submission result path
    -- `Evaluation.id` is the primary key, and `Evaluation.job_id` is unique.
    raise_if (is_some (find_first (λ e. e.id == uid 0) db.evaluations)) integrity
    raise_if (is_some (find_first (of_job job.id) db.evaluations)) integrity
    let retries = result_retry job submission result
    let worker' = released_worker worker
    jobs ← insert_jobs (put_job (finished_job job result) db.jobs) retries
    let patch : Patch = record {
      evaluation_id = uid 0;
      storage_path = StorageKey.artifact_key path.0 path.1 "patch.diff";
      sha256 = sha256 result.patch;
    }
    let score : Score = record { evaluation_id = uid 0; value = evaluation.metrics.score }
    let db' = record db {
      jobs = jobs;
      workers = put_worker worker' db.workers;
      evaluations = db.evaluations ++ evaluation ∷ [];
      test_results = db.test_results ++ test_rows (uid 0) result.tests;
      logs = db.logs ++ log_rows path.0 path.1;
      patches = db.patches ++ patch ∷ [];
      scores = db.scores ++ score ∷ [];
    }
    ok (
      evaluation,
      db',
      queued_notices retries
          ++ (Notice.publish (result_event result.status (uid 0) job.id)
              ∷ Notice.publish (Event.worker_status worker'.id worker'.status)
              ∷ []),
    )

  module _ {S : Type 0} (put : StorageKey → Content → S → Option S) where
    abbrev pub after_upload :
        Worker
        → RunnerJob
        → Submission
        → ResultInput
        → Tables
        → Result (ℕ × ℕ) × S
        → Reply Evaluation × S
    after_upload worker job submission result db (uploaded, objects) =
        (uploaded >>= (λ path. record_result worker job submission result path db), objects)

    abbrev pub deliver : Worker → ResultInput → Tables → S → Result Admission → Reply Evaluation × S
    deliver worker result db objects (err e) = (err e, objects)
    deliver worker result db objects (ok (replay previous)) = (ok (previous, db, []), objects)
    deliver worker result db objects (ok (accept job submission problem)) =
        after_upload worker job submission result db (
          collect_artifacts put (uid 0) problem.problem_id result (context_of worker job problem)
            objects)

    unfoldable pub result : Worker → ℕ → ResultInput → Tables → S → Reply Evaluation × S
    result worker job_id input db objects =
        deliver worker input db objects (admit worker job_id input db)
