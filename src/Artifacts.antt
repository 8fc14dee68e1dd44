-- ===== src/Artifacts.antt =====
-- `FailureAnalysisService` of apps/api/agentbenchx/services.py: the six objects that are stored for
-- an evaluation. An object's content is the text of a log, or the value that `json.dumps` or
-- the report's template prints.
pub mod Stored
use agent_bench_x.Prelude.{ℕ, String, Option, none, some, List, [], ◌∷◌, count_if}
use agent_bench_x.Models.{
  StorageKey, ResultStatus, FailureType, TestInput, ResultInput, ExecutionEvidence,
}
use agent_bench_x.Manager.Tables.{Result, ok, err, storage_error}
use agent_bench_x.Costs.{is_passed, is_failed, is_skipped}

-- The context that `EvaluationManager.result` hands to the report.
pub record Context : Type 0 where
  pub worker : String
  pub worker_id : ℕ
  pub problem : String
  pub problem_id : ℕ
  pub problem_version : ℕ
  pub commit_sha : String
  pub attempt : ℕ

-- The values of `generate_basic_report`, in the order of its lines.
pub record Report : Type 0 where
  pub status : ResultStatus
  pub context : Context
  pub runtime : ℕ
  pub failure_type : Option FailureType
  pub passed_tests : ℕ
  pub failed_tests : ℕ
  pub skipped_tests : ℕ
  pub execution : Option ExecutionEvidence

pub data Content : Type 0 where
  text : String → Content
  test_json : List TestInput → Content
  report : Report → Content

pub generate_basic_report : ResultInput → Context → Report
generate_basic_report result context = record {
  status = result.status;
  context = context;
  runtime = result.metrics.runtime_seconds;
  failure_type = result.failure_type;
  passed_tests = count_if is_passed result.tests;
  failed_tests = count_if is_failed result.tests;
  skipped_tests = count_if is_skipped result.tests;
  execution = result.execution;
}

-- `artifacts` in `collect_artifacts`, in the order in which it is stored.
unfoldable pub artifacts : ResultInput → Context → List (String × Content)
unfolding generate_basic_report
artifacts result context =
    ("stdout.log", text result.stdout)
    ∷ ("stderr.log", text result.stderr)
    ∷ ("agent_output.log", text result.agent_output)
    ∷ ("patch.diff", text result.patch)
    ∷ ("test_result.json", test_json result.tests)
    ∷ ("analysis.md", report (generate_basic_report result context))
    ∷ []

-- `put` is a storage backend's; `none` means that it raises, and then nothing is stored.
module _ {S : Type 0} (put : StorageKey → Content → S → Option S) where
  -- What is stored before an error stays stored.
  unfoldable pub put_all : ℕ → ℕ → List (String × Content) → S → Result (ℕ × ℕ) × S
  put_all evaluation problem [] objects = (ok (evaluation, problem), objects)
  put_all evaluation problem ((name, content) ∷ rest) objects =
      elim (put (StorageKey.artifact_key evaluation problem name) content objects) [
        | none ↦ (err storage_error, objects)
        | some objects' ↦ put_all evaluation problem rest objects'
      ]

  unfoldable pub collect_artifacts : ℕ → ℕ → ResultInput → Context → S → Result (ℕ × ℕ) × S
  unfolding artifacts put_all
  collect_artifacts evaluation problem result context =
      put_all evaluation problem (artifacts result context)
