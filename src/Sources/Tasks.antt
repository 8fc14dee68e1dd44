-- ===== src/Sources/Tasks.antt =====
-- A manifest, the task that it makes, and `ProblemValidationService.validate`
-- (apps/api/agentbenchx/git_sources.py). Texts are lists of code points.
use agent_bench_x.Prelude.{
  ℕ, String, Bool, not, ◌&&◌, ◌||◌, Option, none, some, List, [], ◌∷◌, leb, if◌then◌else◌,
}
use agent_bench_x.Junit.Text.{codes, starts_with}
use agent_bench_x.Storage.{split}
use agent_bench_x.Sources.Names.{holds}

-- A value under a key of a TOML table: absent, a text, a list of texts, or any other value.
pub data Field : Type 0 where
  absent other : Field
  text : List ℕ → Field
  texts : List (List ℕ) → Field

-- `int(raw.get("verifier", {}).get("timeout_sec", 300))`: a number (one below zero counts as 0,
-- which `validate` refuses alike), a value that `int` refuses with `ValueError` or `TypeError`, an
-- infinite one, which it refuses with `OverflowError`, or a `verifier` that is no table.
pub data Timeout : Type 0 where
  number : ℕ → Timeout
  refused infinite no_table : Timeout

-- `tomllib.loads`
pub record Manifest : Type 0 where
  -- Whether `metadata` is a table, or is absent.
  pub has_table : Bool
  pub tags : Field
  pub category : Field
  pub kind : Field
  pub difficulty : Field
  pub timeout : Timeout

-- What `tomllib.loads` of a text in UTF-8 does: it gives a table, it raises `ValueError`, as do the
-- decoder and git, or its recursion on nested arrays goes too deep, which is no `ValueError`.
pub data Parsed : Type 0 where
  table : Manifest → Parsed
  unreadable too_deep : Parsed

pub record Task : Type 0 where
  pub path : List ℕ
  pub name : List ℕ
  pub category : List ℕ
  -- The type is kept as the manifest has it.
  pub kind : Field
  pub difficulty : List ℕ
  pub timeout : ℕ
  pub tags : List (List ℕ)
  pub language : List ℕ
  pub framework : List ℕ
  pub instruction : List ℕ
  pub source : Manifest

abbrev pub categories : List (List ℕ)
categories = codes "CODING" ∷ codes "DATABASE" ∷ codes "DATA" ∷ codes "API_BACKEND" ∷ []

abbrev pub difficulties : List (List ℕ)
difficulties = codes "EASY" ∷ codes "MEDIUM" ∷ codes "HARD" ∷ codes "EXPERT" ∷ []

-- `validate`: the message of the `SourceError` that it raises, or `none` if it returns the task.
unfoldable pub validate : Task → Option String
validate task =
    if starts_with (codes "/") task.path || holds (codes "..") (split task.path)
    then some "Unsafe problem path"
    else if not (holds task.category categories)
    then some "Unsupported category"
    else if not (leb 1 task.timeout && leb task.timeout 86400)
    then some "Timeout must be between 1 and 86400 seconds"
    else if not (holds task.difficulty difficulties)
    then some "Unsupported difficulty"
    else none
