-- ===== src/Downloads.antt =====
-- Stored bytes on their way out: `download`, `artifact` and `stored_response` of
-- apps/api/agentbenchx/main.py, and `download_agent` of workers/evaluator/client.py, which reads what the
-- first of them sends. What the storage backend answers is a parameter.
pub mod Reads
use agent_bench_x.Prelude.{
  ℕ, String, Bool, true, false, not, ◌||◌, Option, none, some, List, [], ◌∷◌, ◌++◌, ◌==◌, ltb,
  str_eq, find_first, length, if◌then◌else◌,
}
use agent_bench_x.Models.{StorageKey, Worker, Evaluation, Moment}
use agent_bench_x.Manager.Tables.{
  Result, ok, err, http, storage_error, ◌>>=◌, ◌>>◌, raise_if, require, Tables, get_submission,
  get_agent_version,
}
use agent_bench_x.Manager.Lease.{owned_job}

-- What `storage.open` does: a stream of bytes, `FileNotFoundError`, or `StorageError`.
pub data Opened : Type 0 where
  stream : List ℕ → Opened
  missing unavailable : Opened

abbrev pub get_evaluation : ℕ → List Evaluation → Option Evaluation
get_evaluation i = find_first λ e. e.id == i

-- The names that an artifact may have.
abbrev pub is_artifact : String → Bool
is_artifact name =
    str_eq name "stdout.log"
    || str_eq name "stderr.log"
    || str_eq name "agent_output.log"
    || str_eq name "patch.diff"
    || str_eq name "test_result.json"
    || str_eq name "analysis.md"

abbrev pub key_of : ℕ × ℕ → String → StorageKey
key_of (evaluation, problem) name = StorageKey.artifact_key evaluation problem name

abbrev pub response : Opened → Result (List ℕ)
response (stream bytes) = ok bytes
response missing = err (http 404 "Artifact unavailable")
response unavailable = err storage_error

module _ (open_key : StorageKey → Opened) where
  -- `stored_response`: the bytes that are sent.
  unfoldable pub stored_response : StorageKey → Result (List ℕ)
  stored_response key = response (open_key key)

  -- `download`
  unfoldable pub download : Worker → ℕ → String → Moment → Tables → Result (List ℕ)
  download worker job_id token now db = do
    job ← owned_job worker job_id token false now db
    submission ← require (get_submission job.submission_id db) "Submission not found"
    version ← require (get_agent_version submission.agent_version_id db) "AgentVersion not found"
    stored_response version.storage_path

  -- `artifact`
  unfoldable pub artifact : ℕ → String → Tables → Result (List ℕ)
  artifact id name db = do
    raise_if (not (is_artifact name)) (http 404 "Artifact not found")
    evaluation ← require (get_evaluation id db.evaluations) "Evaluation not found"
    stored_response (key_of evaluation.artifact_path name)

-- The loop of `download_agent`, on the bytes so far; `none` is the `ValueError`.
unfoldable pub read_chunks : List ℕ → List (List ℕ) → Option (List ℕ)
read_chunks bytes [] = some bytes
read_chunks bytes (chunk ∷ chunks) =
    let rest = read_chunks (bytes ++ chunk) chunks in
    if ltb 2000000 (length (bytes ++ chunk)) then none else rest

-- `download_agent`, on the status and the chunks of the response; `none` is `HTTPStatusError`, which
-- `raise_for_status` raises for every status outside 200 to 299, or `ValueError`.
unfoldable pub download_agent : ℕ → List (List ℕ) → Option (List ℕ)
download_agent status chunks =
    let read = read_chunks [] chunks in if ltb status 200 || ltb 299 status then none else read
