-- ===== src/Sources/Repository.antt =====
-- A source's repository (`GitRepositoryManager` of apps/api/agentbenchx/git_sources.py): it is cloned
-- or fetched, and read at one commit. What git does is a parameter with a state of its own, `W`.
use agent_bench_x.Prelude.{
  ℕ, Bool, true, false, ◌&&◌, Option, none, some, List, ◌++◌, if◌then◌else◌,
}
use agent_bench_x.Junit.Text.{codes, contains}
use agent_bench_x.Git.{Url, behind, validate_url, checkout, is_filled}
use agent_bench_x.Sources.Names.{files}
use agent_bench_x.Sources.Tasks.{Task}
use agent_bench_x.Sources.Discovery.{Skipped, Commit, discover}

-- What git does, for one repository. A command that fails answers `false` or `none`.
pub record Git (W : Type 0) : Type 0 where
  pub exists : W → Bool
  pub fetch : W → Bool × W
  pub make_folder : W → Bool × W
  pub ls_remote : List ℕ → W → Bool × W
  pub config : W → Bool × W
  pub init : W → Bool × W
  pub remote_add : List ℕ → W → Bool × W
  pub remote_set_url : List ℕ → W → Bool × W
  pub fetch_origin : W → Bool × W
  pub symbolic_ref : W → Option (List ℕ)
  pub rev_parse : W → List ℕ → Option (List ℕ)
  pub ls_tree : W → List ℕ → Option (List ℕ)
  pub commit : W → List ℕ → Commit
  pub update_ref : List ℕ → W → Bool × W

-- The URL with the token; one that passes `validate_url` has its host's name at the start only.
abbrev pub with_prefix : List ℕ → List ℕ → Option (List ℕ) → List ℕ
with_prefix token url none = url
with_prefix token url (some path) =
    codes "https://x-access-token:" ++ token ++ codes "@github.com/" ++ path

abbrev pub with_token : Option (List ℕ) → List ℕ → List ℕ
with_token none url = url
with_token (some token) url =
    if is_filled token && contains (codes "github.com") url
    then with_prefix token url (behind (codes "https://github.com/") url)
    else url

-- Branch, commit, tasks and folders passed over.
pub record Snapshot : Type 0 where
  pub branch : List ℕ
  pub sha : List ℕ
  pub tasks : List Task
  pub skipped : List Skipped

module _ {W : Type 0} (git : Git W) where
  infixl 5 ◌then◌
  abbrev pub ◌then◌ : Bool × W → (W → Bool × W) → Bool × W
  (true, w) then next = next w
  (false, w) then next = (false, w)

  -- `clone`, on the URL that git gets.
  unfoldable pub clone : Bool → List ℕ → W → Bool × W
  clone valid url w =
      if valid
      then git.make_folder w
      then git.ls_remote url
      then git.config
      then git.init
      then git.remote_add url
      then git.remote_set_url url
      then git.fetch_origin
      else (false, w)

  abbrev pub fetched :
      (List ℕ → Option Url) → List (List ℕ) → Option (List ℕ) → List ℕ → W → Bool × W
  fetched urlsplit hosts token url w =
      if git.exists w
      then git.fetch w
      else clone (validate_url urlsplit hosts url) (with_token token url) w

  -- `source.default_branch or self.git.get_branch(path)`
  abbrev pub branch_of : Option (List ℕ) → W → Option (List ℕ)
  branch_of none w = git.symbolic_ref w
  branch_of (some branch) w = if is_filled branch then some branch else git.symbolic_ref w

  abbrev pub snapshot_of : List ℕ → List ℕ → Option (List Task × List Skipped) → Option Snapshot
  snapshot_of branch sha none = none
  snapshot_of branch sha (some (tasks, skipped)) =
      some (record { branch = branch; sha = sha; tasks = tasks; skipped = skipped })

  abbrev pub listed : W → List ℕ → List ℕ → Option (List (List ℕ)) → Option Snapshot
  listed w branch sha none = none
  listed w branch sha (some names) = snapshot_of branch sha (discover (git.commit w sha) names)

  abbrev pub discovered : W → List ℕ → List ℕ → Option (List ℕ) → Option Snapshot
  discovered w branch sha none = none
  discovered w branch sha (some listing) = listed w branch sha (files listing)

  abbrev pub at_commit : W → List ℕ → Option (List ℕ) → Option Snapshot
  at_commit w branch none = none
  at_commit w branch (some sha) = discovered w branch sha (git.ls_tree w sha)

  abbrev pub at_branch : W → Option (List ℕ) → Option Snapshot
  at_branch w none = none
  at_branch w (some branch) = at_commit w branch (checkout (git.rev_parse w) branch)

  -- What a repository that is ready offers for a source.
  unfoldable pub snapshot : Option (List ℕ) → W → Option Snapshot
  snapshot default w = at_branch w (branch_of default w)
