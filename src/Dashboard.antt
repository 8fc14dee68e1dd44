-- ===== src/Dashboard.antt =====
-- The dashboard of apps/api/agentbenchx/main.py: the last attempt of each submission, and what is
-- counted of them. Averages are exact fractions.
pub mod Counts
pub mod Latest
use agent_bench_x.Prelude.{
  ℕ, suc, ◌+◌, ◌-◌, String, Bool, true, false, not, ◌&&◌, ◌||◌, Option, none, some, List, [], ◌∷◌,
  ◌==◌, ltb, leb, if◌then◌else◌, length, find_first, count_if,
}
use agent_bench_x.Junit.Text.{codes}
use agent_bench_x.Models.{
  Moment, JobStatus, RunnerJob, Evaluation, Submission, ProblemVersion, AgentVersion, Ratio,
  is_active,
}
use agent_bench_x.Manager.Tables.{
  Tables, of_job, get_submission, get_problem_version, get_agent_version,
}
use agent_bench_x.Process.{take}
use agent_bench_x.Sources.Names.{base_name}

-- `order_by(RunnerJob.attempt.desc())`: of rows with one attempt, those of the table's order come first.
unfoldable pub insert_job : RunnerJob → List RunnerJob → List RunnerJob
insert_job job [] = job ∷ []
insert_job job (j ∷ jobs) =
    let rest = insert_job job jobs in if leb j.attempt job.attempt then job ∷ j ∷ jobs else j ∷ rest

unfoldable pub by_attempt : List RunnerJob → List RunnerJob
by_attempt [] = []
by_attempt (j ∷ jobs) = insert_job j (by_attempt jobs)

abbrev pub has_submission : ℕ → List ℕ → Bool
has_submission s [] = false
has_submission s (k ∷ keys) = k == s || has_submission s keys

-- The values of the dictionary that `setdefault` fills; the first argument is its keys so far.
unfoldable pub first_jobs : List ℕ → List RunnerJob → List RunnerJob
first_jobs keys [] = []
first_jobs keys (j ∷ jobs) =
    let known = first_jobs keys jobs in
    let next = first_jobs (j.submission_id ∷ keys) jobs in
    if has_submission j.submission_id keys then known else j ∷ next

-- `current`
unfoldable pub current : List RunnerJob → List RunnerJob
current jobs = first_jobs [] (by_attempt jobs)

abbrev pub is_completed : RunnerJob → Bool
is_completed job = elim job.status [ JobStatus.completed ↦ true | _ ↦ false ]

abbrev pub is_failed : RunnerJob → Bool
is_failed job = elim job.status [ JobStatus.failed ↦ true | JobStatus.timeout ↦ true | _ ↦ false ]

abbrev pub is_queued : RunnerJob → Bool
is_queued job = elim job.status [ JobStatus.queued ↦ true | _ ↦ false ]

abbrev pub is_running : RunnerJob → Bool
is_running job = is_active job.status

-- The sum of known values: `None` if there is no value, or one is not known.
unfoldable pub sum_known : List (Option ℕ) → Option ℕ
sum_known [] = some 0
sum_known (none ∷ values) = none
sum_known (some v ∷ values) = plus v (sum_known values)
  where
    plus : ℕ → Option ℕ → Option ℕ
    plus v none = none
    plus v (some total) = some (v + total)

abbrev pub sum_if_any : List (Option ℕ) → Option ℕ
sum_if_any [] = none
sum_if_any (v ∷ values) = sum_known (v ∷ values)

abbrev pub costs : List Evaluation → List (Option ℕ)
costs [] = []
costs (e ∷ evaluations) = e.metrics.total_cost ∷ costs evaluations

abbrev pub tokens : List Evaluation → List (Option ℕ)
tokens [] = []
tokens (e ∷ evaluations) = e.metrics.total_tokens ∷ tokens evaluations

abbrev pub runtime : List Evaluation → ℕ
runtime [] = 0
runtime (e ∷ evaluations) = e.metrics.metrics.runtime_seconds + runtime evaluations

abbrev pub has_job : ℕ → List RunnerJob → Bool
has_job i [] = false
has_job i (j ∷ jobs) = j.id == i || has_job i jobs

-- The scores of the evaluations of current jobs; the dashboard shows their mean, or 0.
unfoldable pub final_scores : List RunnerJob → List Evaluation → List Ratio
final_scores jobs [] = []
final_scores jobs (e ∷ evaluations) =
    let rest = final_scores jobs evaluations in
    if has_job e.job_id jobs then e.metrics.score ∷ rest else rest

-- A fraction, or 0 where there is nothing to divide by.
abbrev pub fraction : ℕ → ℕ → Ratio
fraction n d =
    if d == 0
    then record { numerator = 0; denominator = 1 }
    else record { numerator = n; denominator = d }

abbrev pub average : Option ℕ → ℕ → Option Ratio
average none n = none
average (some total) n =
    if n == 0 then none else some (record { numerator = total; denominator = n })

pub record Summary : Type 0 where
  pub total_problems : ℕ
  pub completed : ℕ
  pub running : ℕ
  pub queued : ℕ
  pub failed : ℕ
  pub success_rate : Ratio
  pub total_runtime : ℕ
  pub average_runtime : Ratio
  pub total_cost : Option ℕ
  pub average_cost : Option Ratio
  pub total_tokens : Option ℕ
  pub scores : List Ratio

unfoldable pub summary : List RunnerJob → List Evaluation → Summary
summary jobs evaluations =
    let latest = current jobs in
    let completed = count_if is_completed latest in
    let failed = count_if is_failed latest in
    let cost = sum_if_any (costs evaluations) in
    record {
      total_problems = length latest;
      completed = completed;
      running = count_if is_running latest;
      queued = count_if is_queued latest;
      failed = failed;
      success_rate = fraction completed (completed + failed);
      total_runtime = runtime evaluations;
      average_runtime = fraction (runtime evaluations) (length evaluations);
      total_cost = cost;
      average_cost = average cost (length evaluations);
      total_tokens = sum_if_any (tokens evaluations);
      scores = final_scores latest evaluations;
    }

pub record Agent : Type 0 where
  pub id : ℕ
  pub name : String

pub record JobRow : Type 0 where
  pub job : RunnerJob
  pub problem_name : List ℕ
  pub agent_name : String
  pub agent_version : ℕ
  pub runtime_seconds : ℕ

abbrev pub or_now : Moment → Option Moment → Moment
or_now now none = now
or_now now (some t) = t

-- The difference of ℕ is `max(0, …)`.
abbrev pub elapsed : Moment → RunnerJob → ℕ
elapsed now job = since job.started_at
  where
    since : Option Moment → ℕ
    since none = 0
    since (some t) = or_now now job.finished_at - t

abbrev pub measured : ℕ → Option Evaluation → ℕ
measured other none = other
measured other (some e) = e.metrics.metrics.runtime_seconds

abbrev pub get_agent : ℕ → List Agent → Option Agent
get_agent i = find_first λ a. a.id == i

-- A row of the table of jobs; `none` is the `AttributeError` of a row that is not there.
module _ (db : Tables) (agents : List Agent) (now : Moment) where
  abbrev pub row_of : RunnerJob → ProblemVersion → AgentVersion → Option Agent → Option JobRow
  row_of job problem version none = none
  row_of job problem version (some agent) = some (record {
    job = job;
    problem_name = base_name (codes problem.problem_path);
    agent_name = agent.name;
    agent_version = version.version;
    runtime_seconds = measured (elapsed now job) (find_first (of_job job.id) db.evaluations);
  })

  abbrev pub with_agent : RunnerJob → ProblemVersion → Option AgentVersion → Option JobRow
  with_agent job problem none = none
  with_agent job problem (some version) =
      row_of job problem version (get_agent version.agent_id agents)

  abbrev pub with_problem : RunnerJob → Submission → Option ProblemVersion → Option JobRow
  with_problem job submission none = none
  with_problem job submission (some problem) =
      with_agent job problem (get_agent_version submission.agent_version_id db)

  abbrev pub with_submission : RunnerJob → Option Submission → Option JobRow
  with_submission job none = none
  with_submission job (some submission) =
      with_problem job submission (get_problem_version submission.problem_version_id db)

  unfoldable pub job_row : RunnerJob → Option JobRow
  job_row job = with_submission job (get_submission job.submission_id db)

  abbrev pub and_row : Option JobRow → Option (List JobRow) → Option (List JobRow)
  and_row none rows = none
  and_row (some row) none = none
  and_row (some row) (some rows) = some (row ∷ rows)

  unfoldable pub job_rows : List RunnerJob → Option (List JobRow)
  job_rows [] = some []
  job_rows (j ∷ jobs) = and_row (job_row j) (job_rows jobs)

  abbrev pub and_summary : Summary → Option (List JobRow) → Option (Summary × List JobRow)
  and_summary s none = none
  and_summary s (some rows) = some (s, rows)

  -- `dashboard`, less the listings of workers and evaluations.
  unfoldable pub dashboard : Option (Summary × List JobRow)
  dashboard = and_summary (summary db.jobs db.evaluations) (job_rows (take 200 (current db.jobs)))
