-- ===== src/Manager/Submit.antt =====
-- `EvaluationManager.submit`: one submission with a queued job for each distinct problem version.
pub mod Consistency
use agent_bench_x.Prelude.{
  ℕ, suc, ◌+◌, ◌*◌, Bool, false, not, ◌||◌, List, [], ◌∷◌, ◌++◌, ◌==◌, is_some, if◌then◌else◌,
  find_first,
}
use agent_bench_x.Models.{Submission, RunnerJob, ProblemVersion, Moment}
use agent_bench_x.Manager.Tables.{
  Result, ok, err, http, integrity, ◌>>=◌, ◌>>◌, raise_if, require, Tables, Notice, Reply, Event,
  get_agent_version, get_problem_version, insert_jobs, new_job,
}

abbrev pub mem : ℕ → List ℕ → Bool
mem a [] = false
mem a (x ∷ xs) = x == a || mem a xs

-- `dict.fromkeys`: the distinct keys, each at its first place. The first argument is what the
-- dictionary holds already.
unfoldable pub fromkeys_from : List ℕ → List ℕ → List ℕ
fromkeys_from seen [] = []
fromkeys_from seen (x ∷ xs) =
    let rest = fromkeys_from (x ∷ seen) xs in
    let skipped = fromkeys_from seen xs in if mem x seen then skipped else x ∷ rest

unfoldable pub fromkeys : List ℕ → List ℕ
unfolding fromkeys_from
fromkeys = fromkeys_from []

-- `[require(self.db, ProblemVersion, p) for p in …]`
unfoldable pub require_problems : Tables → List ℕ → Result (List ProblemVersion)
require_problems db [] = ok []
require_problems db (p ∷ ps) = do
  problem ← require (get_problem_version p db) "ProblemVersion not found"
  problems ← require_problems db ps
  ok (problem ∷ problems)

abbrev pub any_not_ready : List ProblemVersion → Bool
any_not_ready [] = false
any_not_ready (p ∷ ps) = not p.is_ready || any_not_ready ps

-- The primary key of `Submission`.
unfoldable pub insert_submissions : List Submission → List Submission → Result (List Submission)
insert_submissions rows [] = ok rows
insert_submissions rows (s ∷ rest) =
    if is_some (find_first (λ r. r.id == s.id) rows)
    then err integrity
    else insert_submissions (rows ++ s ∷ []) rest

abbrev pub queued_notices : List RunnerJob → List Notice
queued_notices [] = []
queued_notices (job ∷ jobs) =
    Notice.enqueue job.id ∷ Notice.publish (Event.job_queued job.id) ∷ queued_notices jobs

-- The rows of the loop; round `k` draws the ids `uid (2 * k)` and `uid (2 * k + 1)`.
module _ (uid : ℕ → ℕ) (now : ℕ → Moment) where
  unfoldable pub new_submissions : ℕ → ℕ → List ProblemVersion → List Submission
  new_submissions k agent [] = []
  new_submissions k agent (p ∷ ps) =
      record { id = uid (2 * k); agent_version_id = agent; problem_version_id = p.id }
      ∷ new_submissions (suc k) agent ps

  unfoldable pub new_jobs : ℕ → List ProblemVersion → List RunnerJob
  new_jobs k [] = []
  new_jobs k (p ∷ ps) = new_job (uid (2 * k + 1)) (uid (2 * k)) 1 (now k) ∷ new_jobs (suc k) ps

  unfoldable pub submit : ℕ → List ℕ → Tables → Reply (List Submission)
  submit agent_version_id problem_version_ids db = do
    require (get_agent_version agent_version_id db) "AgentVersion not found"
    problems ← require_problems db (fromkeys problem_version_ids)
    raise_if (any_not_ready problems) (http 409 "Problem version is not ready")
    let submissions = new_submissions 0 agent_version_id problems
    let jobs = new_jobs 0 problems
    all_submissions ← insert_submissions db.submissions submissions
    all_jobs ← insert_jobs db.jobs jobs
    let db' = record db { submissions = all_submissions; jobs = all_jobs }
    ok (submissions, db', queued_notices jobs)
