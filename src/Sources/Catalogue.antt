-- ===== src/Sources/Catalogue.antt =====
-- The tables of `ProblemSourceManager` (apps/api/agentbenchx/git_sources.py, models.py), and the loop of
-- `sync` that takes a commit's tasks into them.
use agent_bench_x.Prelude.{
  ℕ, suc, String, Bool, not, ◌&&◌, ◌||◌, Option, none, some, List, [], ◌∷◌, ◌++◌, ◌==◌, is_some,
  if◌then◌else◌, find_first,
}
use agent_bench_x.Models.{Moment}
use agent_bench_x.Storage.{same}
use agent_bench_x.Sources.Tasks.{Field, Task}
use agent_bench_x.Sources.Discovery.{Skipped}

pub data SyncStatus : Type 0 where
  pending ready empty failed : SyncStatus

pub data SyncReport : Type 0 where
  nothing : SyncReport
  synced : (discovered versions_created : ℕ) (skipped : List Skipped) → SyncReport
  error : String → SyncReport

pub record ProblemSource : Type 0 where
  pub id : ℕ
  pub name : List ℕ
  pub repository_url : List ℕ
  pub default_branch : Option (List ℕ)
  pub enabled : Bool
  pub sync_status : SyncStatus
  pub last_synced_at : Option Moment
  pub last_commit_sha : Option (List ℕ)
  pub sync_report : SyncReport

pub record Problem : Type 0 where
  pub id : ℕ
  pub source_id : ℕ
  pub problem_key : List ℕ
  pub name : List ℕ
  pub category : List ℕ
  pub kind : Field
  pub difficulty : List ℕ

-- A row of `problem_versions` as `sync` writes it; the columns `metadata` and `test_command` are
-- those of the task.
pub record VersionRow : Type 0 where
  pub id : ℕ
  pub problem_id : ℕ
  pub repository_url : List ℕ
  pub branch : List ℕ
  pub commit_sha : List ℕ
  pub task : Task

-- The path and the time limit of a version are its task's.
abbrev pub problem_path : VersionRow → List ℕ
problem_path row = row.task.path

pub record Catalogue : Type 0 where
  pub sources : List ProblemSource
  pub problems : List Problem
  pub versions : List VersionRow

abbrev pub is_source : ℕ → ProblemSource → Bool
is_source id source = source.id == id

-- The two queries of the loop, which are also the tables' unique constraints.
abbrev pub is_problem : ℕ → List ℕ → Problem → Bool
is_problem source path problem = problem.source_id == source && same path problem.problem_key

abbrev pub is_version : List ℕ → List ℕ → List ℕ → VersionRow → Bool
is_version url sha path row =
    same url row.repository_url && same sha row.commit_sha && same path row.task.path

-- What the database takes beside keys and constraints: the types and the lengths of the columns.
pub record Columns : Type 0 where
  pub fit_source : ProblemSource → Bool
  pub fit_problem : Problem → Bool
  pub fit_version : VersionRow → Bool

abbrev pub made_problem : ℕ → ℕ → Task → Problem
made_problem id source task = record {
  id = id;
  source_id = source;
  problem_key = task.path;
  name = task.name;
  category = task.category;
  kind = task.kind;
  difficulty = task.difficulty;
}

abbrev pub made_version : ℕ → ℕ → List ℕ → List ℕ → List ℕ → Task → VersionRow
made_version id problem url branch sha task = record {
  id = id;
  problem_id = problem;
  repository_url = url;
  branch = branch;
  commit_sha = sha;
  task = task;
}

-- The two tables that the loop writes, and what it counts in `created`.
pub record Taken : Type 0 where
  pub problems : List Problem
  pub versions : List VersionRow
  pub created : ℕ

module _ (columns : Columns) where
  -- The row that is added, unless its id is taken or it does not fit.
  unfoldable pub add_problem : Problem → List Problem → Option (List Problem)
  add_problem problem rows =
      if is_some (find_first (λ p. p.id == problem.id) rows) || not (columns.fit_problem problem)
      then none
      else some (rows ++ problem ∷ [])

  unfoldable pub add_version : VersionRow → List VersionRow → Option (List VersionRow)
  add_version row rows =
      if is_some (find_first (λ v. v.id == row.id) rows) || not (columns.fit_version row)
      then none
      else some (rows ++ row ∷ [])

-- The loop for one source at one commit. Round `k` draws the ids `uid k` and `vid k`; `none` is an
-- exception of the database.
module _ (columns : Columns) (uid vid : ℕ → ℕ) (source : ℕ) (url branch sha : List ℕ) where
  -- The task's problem, which is added if the source has none under this key.
  abbrev pub added : Problem → Option (List Problem) → Option (Problem × List Problem)
  added problem none = none
  added problem (some rows) = some (problem, rows)

  abbrev pub kept_problem :
      ℕ → Task → List Problem → Option Problem → Option (Problem × List Problem)
  kept_problem k task rows (some problem) = some (problem, rows)
  kept_problem k task rows none =
      added (made_problem (uid k) source task)
        (add_problem columns (made_problem (uid k) source task) rows)

  -- The version of the task at the commit, which is added if there is none.
  abbrev pub counted : ℕ → List Problem → Option (List VersionRow) → Option Taken
  counted created problems none = none
  counted created problems (some versions) =
      some (record { problems = problems; versions = versions; created = suc created })

  abbrev pub with_version : ℕ → Task → Taken → Option (Problem × List Problem) → Option Taken
  with_version k task t none = none
  with_version k task t (some (problem, problems)) =
      if is_some (find_first (is_version url sha task.path) t.versions)
      then some (record t { problems = problems })
      else counted t.created problems
          (add_version columns (made_version (vid k) problem.id url branch sha task) t.versions)

  unfoldable pub take_task : ℕ → Task → Taken → Option Taken
  take_task k task t =
      with_version k task t
        (kept_problem k task t.problems (find_first (is_problem source task.path) t.problems))

  abbrev pub and_then : Option Taken → (Taken → Option Taken) → Option Taken
  and_then none next = none
  and_then (some t) next = next t

  unfoldable pub take_tasks : ℕ → List Task → Taken → Option Taken
  take_tasks k [] t = some t
  take_tasks k (task ∷ tasks) t = and_then (take_task k task t) (take_tasks (suc k) tasks)

  -- The tables as the session has them when a round of the loop raises: with the rows of the rounds
  -- before it.
  unfoldable pub flushed : ℕ → List Task → Taken → Taken
  flushed k [] t = t
  flushed k (task ∷ tasks) t = elim (take_task k task t) [
    | none ↦ t
    | some t' ↦ flushed (suc k) tasks t'
  ]
