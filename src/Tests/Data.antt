-- ===== src/Tests/Data.antt =====
-- A job's way through the tables: submitted, claimed, renewed and evaluated.
use agent_bench_x.Prelude.{
  ℕ, ◌+◌, refl, String, Option, none, some, inl, List, [], ◌∷◌, arith, count_if, Bool,
}
use agent_bench_x.Models.{
  AgentVersion, ProblemVersion, StorageKey, Submission, Worker, WorkerStatus, RunnerJob, JobStatus,
  Metrics, ResultStatus, FailureType, TestInput, TestStatus, ResultInput, JobHeartbeat, Evaluation,
  Settings, Moment,
}
use agent_bench_x.Manager.Tables.{Tables, new_job}
use agent_bench_x.Manager.Invariant.{Consistent}
use agent_bench_x.Artifacts.{Content}
use agent_bench_x.Manager.Links.{IsLinked}

abbrev pub settings : Settings
settings = record {
  lease_seconds = 60;
  worker_offline_seconds = 90;
  max_attempts = 2;
  upload_limit = 1000;
}

abbrev pub sha256 : String → String
sha256 s = s

abbrev pub uid : ℕ → ℕ
uid k = 10 + k

abbrev pub clock : ℕ → Moment
clock k = 100 + k

abbrev pub unlocked : ℕ → Bool
unlocked id = Bool.false

abbrev pub agent : AgentVersion
agent = record {
  id = 1;
  agent_id = 2;
  filename = "agent.py";
  sha256 = "digest";
  size = 5;
  version = 1;
  storage_path = StorageKey.agent_key 2 1;
}

abbrev pub problem : ProblemVersion
problem = record {
  id = 3;
  problem_id = 4;
  problem_path = "p/one";
  commit_sha = "c0ffee";
  is_ready = Bool.true;
}

abbrev pub worker : Worker
worker = record {
  id = 7;
  name = "w";
  status = WorkerStatus.online;
  last_heartbeat = 50;
  token_hash = "secret";
}

abbrev pub initial : Tables
initial = record {
  agent_versions = agent ∷ [];
  problem_versions = problem ∷ [];
  workers = worker ∷ [];
  submissions = [];
  jobs = [];
  evaluations = [];
  test_results = [];
  logs = [];
  patches = [];
  scores = [];
}

pub initial-Consistent : Consistent 2 initial
unfolding count_if
initial-Consistent = record {
  ids = λ i. omega arith;
  attempts = λ s a. omega arith;
  last_open = λ s a b h. inl refl;
  one_active = λ w. omega arith;
  leased = refl;
  limited = refl;
  unevaluated = λ i. inl refl;
  evaluated_once = λ i. omega arith;
  evaluated_jobs = λ i h. refl;
}

pub initial-IsLinked : IsLinked initial.submissions initial.jobs
unfolding count_if
initial-IsLinked = λ s h. refl

abbrev pub submission : Submission
submission = record { id = 10; agent_version_id = 1; problem_version_id = 3 }

abbrev pub queued_job : RunnerJob
queued_job = new_job 11 10 1 100

abbrev pub submitted : Tables
submitted = record initial { submissions = submission ∷ []; jobs = queued_job ∷ [] }

abbrev pub claimed_job : RunnerJob
claimed_job = record queued_job {
  worker_id = some 7;
  status = JobStatus.claimed;
  lease_token = some "t";
  heartbeat_at = some 100;
  lease_expires_at = some 60000101;
}

abbrev pub busy_worker : Worker
busy_worker = record worker { status = WorkerStatus.busy; last_heartbeat = 102 }

abbrev pub assigned : Tables
assigned = record submitted { jobs = claimed_job ∷ []; workers = busy_worker ∷ [] }

abbrev pub beat : JobHeartbeat
beat = record { lease_token = "t"; event = "test.started" }

abbrev pub running_job : RunnerJob
running_job = record claimed_job {
  last_event = some "test.started";
  status = JobStatus.running;
  heartbeat_at = some 101;
  started_at = some 102;
  lease_expires_at = some 60000103;
}

abbrev pub renewed_worker : Worker
renewed_worker = record busy_worker { last_heartbeat = 104 }

abbrev pub renewed : Tables
renewed = record assigned { jobs = running_job ∷ []; workers = renewed_worker ∷ [] }

abbrev pub metrics : Metrics
metrics = record {
  runtime_seconds = 9;
  input_tokens = some 3;
  output_tokens = some 4;
  llm_cost = none;
  compute_cost = some 6;
  files_changed = 1;
  insertions = 2;
  deletions = 0;
}

abbrev pub test : TestInput
test = record { name = "t"; status = TestStatus.passed; duration_seconds = 1; message = "" }

-- A sandbox that failed, after one test.
abbrev pub input : ResultInput
input = record {
  lease_token = "t";
  status = ResultStatus.failed;
  failure_type = some FailureType.infrastructure_failure;
  metrics = metrics;
  execution = none;
  tests = test ∷ [];
  stdout = "out";
  stderr = "";
  agent_output = "";
  patch = "diff";
}

abbrev pub fresh : ℕ → ℕ
fresh k = 20 + k

-- A store that takes everything.
abbrev pub Objects : Type 0
Objects = List (StorageKey × Content)

abbrev pub put : StorageKey → Content → Objects → Option Objects
put key content objects = some ((key, content) ∷ objects)

abbrev pub finished_job : RunnerJob
finished_job = record running_job {
  status = JobStatus.failed;
  finished_at = some 103;
  error_message = some "INFRASTRUCTURE_FAILURE";
}

abbrev pub evaluation : Evaluation
evaluation = record {
  id = 20;
  job_id = 11;
  submission_id = 10;
  worker_id = 7;
  status = ResultStatus.failed;
  failure_type = some FailureType.infrastructure_failure;
  metrics = record {
    metrics = metrics;
    total_tokens = some 7;
    total_cost = none;
    total_tests = 1;
    tests_passed = 1;
    tests_failed = 0;
    tests_skipped = 0;
    score = record { numerator = 1; denominator = 1 };
    execution = none;
  };
  artifact_path = (20, 4);
}

abbrev pub artifact : String → StorageKey
artifact = StorageKey.artifact_key 20 4

abbrev pub delivered : Tables
delivered = record renewed {
  jobs = finished_job ∷ new_job 21 10 2 105 ∷ [];
  workers = record renewed_worker { status = WorkerStatus.online; last_heartbeat = 104 } ∷ [];
  evaluations = evaluation ∷ [];
  test_results = record { evaluation_id = 20; test = test } ∷ [];
  logs =
      record { evaluation_id = 20; kind = "stdout"; storage_path = artifact "stdout.log" }
      ∷ record { evaluation_id = 20; kind = "stderr"; storage_path = artifact "stderr.log" }
      ∷ record {
        evaluation_id = 20;
        kind = "agent_output";
        storage_path = artifact "agent_output.log";
      }
      ∷ [];
  patches =
      record { evaluation_id = 20; storage_path = artifact "patch.diff"; sha256 = "diff" } ∷ [];
  scores = record { evaluation_id = 20; value = record { numerator = 1; denominator = 1 } } ∷ [];
}
