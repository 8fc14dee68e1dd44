-- ===== src/Models.antt =====
-- The durable records of the control plane (apps/api/agentbenchx/models.py) and the validated
-- requests (apps/api/agentbenchx/schemas.py). Rows refer to one another by id; an id is compared
-- and ordered only, so it is a number. Moments are whole microseconds. Money is counted in units of
-- 10⁻⁸ USD, the precision that `CostCalculator` rounds to.
use agent_bench_x.Prelude.{ℕ, ◌*◌, String, Bool, Option, List}

abbrev pub Moment : Type 0
Moment = ℕ

-- One second, in microseconds.
abbrev pub second : ℕ
second = 1000000

pub data JobStatus : Type 0 where
  queued claimed running completed failed timeout : JobStatus

pub data WorkerStatus : Type 0 where
  online busy draining error offline : WorkerStatus

pub data ResultStatus : Type 0 where
  completed failed timeout : ResultStatus

pub data FailureType : Type 0 where
  infrastructure_failure agent_failure test_failure timeout security_failure : FailureType

pub data TestStatus : Type 0 where
  passed failed skipped : TestStatus

-- The keys of stored objects: `agents/<agent id>/<version id>/agent.py` and
-- `evaluations/<evaluation id>/<problem id>/<name>`.
pub data StorageKey : Type 0 where
  agent_key : ℕ → ℕ → StorageKey
  artifact_key : ℕ → ℕ → String → StorageKey

pub record AgentVersion : Type 0 where
  pub id : ℕ
  pub agent_id : ℕ
  pub filename : String
  pub sha256 : String
  pub size : ℕ
  pub version : ℕ
  pub storage_path : StorageKey

pub record ProblemVersion : Type 0 where
  pub id : ℕ
  pub problem_id : ℕ
  pub problem_path : String
  pub commit_sha : String
  -- `status == "READY"`
  pub is_ready : Bool

pub record Submission : Type 0 where
  pub id : ℕ
  pub agent_version_id : ℕ
  pub problem_version_id : ℕ

pub record Worker : Type 0 where
  pub id : ℕ
  pub name : String
  pub status : WorkerStatus
  pub last_heartbeat : Moment
  pub token_hash : String

pub record RunnerJob : Type 0 where
  pub id : ℕ
  pub submission_id : ℕ
  pub worker_id : Option ℕ
  pub status : JobStatus
  pub attempt : ℕ
  pub queued_at : Moment
  pub started_at : Option Moment
  pub finished_at : Option Moment
  pub heartbeat_at : Option Moment
  pub lease_expires_at : Option Moment
  pub last_event : Option String
  pub lease_token : Option String
  pub error_message : Option String

-- `passed / (passed + failed)` as an exact fraction.
pub record Ratio : Type 0 where
  pub numerator : ℕ
  pub denominator : ℕ

-- `ProcessEvidence` and `ExecutionEvidence`, less the texts of clock readings.
pub record ProcessEvidence : Type 0 where
  pub exit_code : ℕ
  pub timed_out : Bool
  pub cancelled : Bool

pub record ExecutionEvidence : Type 0 where
  pub agent : Option ProcessEvidence
  pub test : Option ProcessEvidence
  pub image_id : Option String
  pub error : Option String

-- What a worker measures (`schemas.Metrics`); runtime in microseconds.
pub record Metrics : Type 0 where
  pub runtime_seconds : ℕ
  pub input_tokens : Option ℕ
  pub output_tokens : Option ℕ
  pub llm_cost : Option ℕ
  pub compute_cost : Option ℕ
  pub files_changed : ℕ
  pub insertions : ℕ
  pub deletions : ℕ

-- What `CostCalculator.calculate` adds to them.
pub record EvaluationMetrics : Type 0 where
  pub metrics : Metrics
  pub total_tokens : Option ℕ
  pub total_cost : Option ℕ
  pub total_tests : ℕ
  pub tests_passed : ℕ
  pub tests_failed : ℕ
  pub tests_skipped : ℕ
  pub score : Ratio
  pub execution : Option ExecutionEvidence

pub record TestInput : Type 0 where
  pub name : String
  pub status : TestStatus
  pub duration_seconds : ℕ
  pub message : String

pub record ResultInput : Type 0 where
  pub lease_token : String
  pub status : ResultStatus
  pub failure_type : Option FailureType
  pub metrics : Metrics
  pub execution : Option ExecutionEvidence
  pub tests : List TestInput
  pub stdout : String
  pub stderr : String
  pub agent_output : String
  pub patch : String

pub record JobHeartbeat : Type 0 where
  pub lease_token : String
  pub event : String

pub record Evaluation : Type 0 where
  pub id : ℕ
  pub job_id : ℕ
  pub submission_id : ℕ
  pub worker_id : ℕ
  pub status : ResultStatus
  pub failure_type : Option FailureType
  pub metrics : EvaluationMetrics
  -- `evaluations/<evaluation id>/<problem id>`
  pub artifact_path : ℕ × ℕ

pub record TestResult : Type 0 where
  pub evaluation_id : ℕ
  pub test : TestInput

pub record EvaluationLog : Type 0 where
  pub evaluation_id : ℕ
  pub kind : String
  pub storage_path : StorageKey

pub record Patch : Type 0 where
  pub evaluation_id : ℕ
  pub storage_path : StorageKey
  pub sha256 : String

pub record Score : Type 0 where
  pub evaluation_id : ℕ
  pub value : Ratio

-- The fields of `Settings` that the manager reads (apps/api/agentbenchx/config.py).
pub record Settings : Type 0 where
  pub lease_seconds : ℕ
  pub worker_offline_seconds : ℕ
  pub max_attempts : ℕ
  pub upload_limit : ℕ

-- `timedelta(seconds=…)`
abbrev pub seconds : ℕ → ℕ
seconds n = n * second

abbrev pub is_queued : JobStatus → Bool
is_queued JobStatus.queued = Bool.true
is_queued _ = Bool.false

-- `status in {"CLAIMED", "RUNNING"}`
abbrev pub is_active : JobStatus → Bool
is_active JobStatus.claimed = Bool.true
is_active JobStatus.running = Bool.true
is_active _ = Bool.false

-- `status in {"COMPLETED", "FAILED", "TIMEOUT"}`
abbrev pub is_terminal : JobStatus → Bool
is_terminal JobStatus.completed = Bool.true
is_terminal JobStatus.failed = Bool.true
is_terminal JobStatus.timeout = Bool.true
is_terminal _ = Bool.false

-- The statuses of results are also statuses of jobs.
abbrev pub job_status : ResultStatus → JobStatus
job_status ResultStatus.completed = JobStatus.completed
job_status ResultStatus.failed = JobStatus.failed
job_status ResultStatus.timeout = JobStatus.timeout
