-- ===== src/Sources/Sync.antt =====
-- `register` and `sync` of `ProblemSourceManager` (apps/api/agentbenchx/git_sources.py).
use agent_bench_x.Prelude.{
  ℕ, String, Bool, true, false, not, ◌||◌, Option, none, some, List, [], ◌∷◌, ◌++◌, ◌==◌, is_some,
  if◌then◌else◌, length, find_first, replace_first,
}
use agent_bench_x.Models.{Moment}
use agent_bench_x.Storage.{same}
use agent_bench_x.Git.{Url, validate_url}
use agent_bench_x.Sources.Tasks.{Task}
use agent_bench_x.Sources.Catalogue.{
  SyncStatus, SyncReport, ProblemSource, Catalogue, Columns, Taken, is_source, take_tasks, flushed,
}
use agent_bench_x.Sources.Repository.{Git, Snapshot, fetched, snapshot}

-- `SourceError` with its message, or as `validate_url` raises it; `IntegrityError`; or the exception
-- of a `sync` that failed.
pub data Failure : Type 0 where
  source_error : String → Failure
  invalid_url integrity : Failure
  sync_failed : Failure

pub data Answer {ℓ} (A : Type ℓ) : Type ℓ where
  returns : A → Answer A
  raises : Failure → Answer A

abbrev pub is_registered : ProblemSource → ProblemSource → Bool
is_registered new row = row.id == new.id || same row.repository_url new.repository_url

-- `SourceCreate`
pub record SourceCreate : Type 0 where
  pub name : List ℕ
  pub repository_url : List ℕ
  pub default_branch : Option (List ℕ)
  pub enabled : Bool

abbrev pub new_source : ℕ → SourceCreate → ProblemSource
new_source id data_in = record {
  id = id;
  name = data_in.name;
  repository_url = data_in.repository_url;
  default_branch = data_in.default_branch;
  enabled = data_in.enabled;
  sync_status = SyncStatus.pending;
  last_synced_at = none;
  last_commit_sha = none;
  sync_report = SyncReport.nothing;
}

abbrev pub put_source : ProblemSource → List ProblemSource → List ProblemSource
put_source source = replace_first (is_source source.id) source

abbrev pub status_of : List Task → SyncStatus
status_of [] = SyncStatus.empty
status_of (t ∷ tasks) = SyncStatus.ready

abbrev pub synced_source : ProblemSource → Snapshot → ℕ → Moment → ProblemSource
synced_source source s created now = record source {
  default_branch = some s.branch;
  last_commit_sha = some s.sha;
  last_synced_at = some now;
  sync_status = status_of s.tasks;
  sync_report = SyncReport.synced (length s.tasks) created s.skipped;
}

abbrev pub failed_source : ProblemSource → ProblemSource
failed_source source = record source {
  sync_status = SyncStatus.failed;
  sync_report = SyncReport.error "Sync failed; verify Git access and repository metadata";
}

-- The session of the database: the tables as they were committed, and as it has changed them since.
pub record Session : Type 0 where
  pub committed : Catalogue
  pub pending : Catalogue

abbrev pub rollback : Session → Session
rollback session = record session { pending = session.committed }

abbrev pub commit : Session → Session
commit session = record session { committed = session.pending }

abbrev pub mark_failed : ProblemSource → Catalogue → Catalogue
mark_failed source db = record db { sources = put_source (failed_source source) db.sources }

-- The `except` clause, with the tables that it commits.
abbrev pub rolled_back : ProblemSource → Session → Answer ProblemSource × Catalogue
rolled_back source session =
    let clean = rollback session in
    let marked = record clean { pending = mark_failed source clean.pending } in
    (raises sync_failed, (commit marked).committed)

-- A session that has changed nothing yet.
abbrev pub opened : Catalogue → Session
opened db = record { committed = db; pending = db }

abbrev pub changed : Catalogue → Taken → Session
changed db t = record {
  committed = db;
  pending = record db { problems = t.problems; versions = t.versions };
}

module _ (urlsplit : List ℕ → Option Url) (hosts : List (List ℕ)) where
  -- `register`
  unfoldable pub register : ℕ → SourceCreate → Catalogue → Answer ProblemSource × Catalogue
  register id data_in db =
      let source = new_source id data_in in
      if not (validate_url urlsplit hosts data_in.repository_url)
      then (raises invalid_url, db)
      else if is_some (find_first (is_registered source) db.sources)
      then (raises integrity, db)
      else (returns source, record db { sources = db.sources ++ source ∷ [] })

  module _ {W : Type 0} (git : Git W) (columns : Columns) (uid vid : ℕ → ℕ) where
    -- The end of the `try` block, after the loop has left the tables `t`.
    abbrev pub commit_sync :
        ProblemSource → Catalogue → Snapshot → Moment → Taken → Answer ProblemSource × Catalogue
    commit_sync source db s now t =
        let source' = synced_source source s t.created now in
        let session : Session = record {
          committed = db;
          pending = record {
            sources = put_source source' db.sources;
            problems = t.problems;
            versions = t.versions;
          };
        } in
        if columns.fit_source source'
        then (returns source', (commit session).committed)
        else rolled_back source session

    -- The loop, and what follows it: `partial` is what it had done when it raised.
    abbrev pub after_loop :
        ProblemSource
        → Catalogue
        → Snapshot
        → Moment
        → Taken
        → Option Taken
        → Answer ProblemSource × Catalogue
    after_loop source db s now partial none = rolled_back source (changed db partial)
    after_loop source db s now partial (some t) = commit_sync source db s now t

    abbrev pub after_pin :
        ProblemSource
        → Catalogue
        → Snapshot
        → Moment
        → Bool × W
        → (Answer ProblemSource × Catalogue) × W
    after_pin source db s now (false, w) = (rolled_back source (opened db), w)
    after_pin source db s now (true, w) =
        let start : Taken = record {
          problems = db.problems;
          versions = db.versions;
          created = 0;
        } in
        let taken =
          take_tasks columns uid vid source.id source.repository_url s.branch s.sha 0 s.tasks
            start in
        let partial =
          flushed columns uid vid source.id source.repository_url s.branch s.sha 0 s.tasks start in
        (after_loop source db s now partial taken, w)

    abbrev pub after_snapshot :
        ProblemSource
        → Catalogue
        → Moment
        → W
        → Option Snapshot
        → (Answer ProblemSource × Catalogue) × W
    after_snapshot source db now w none = (rolled_back source (opened db), w)
    after_snapshot source db now w (some s) = after_pin source db s now (git.update_ref s.sha w)

    abbrev pub after_fetch :
        ProblemSource → Catalogue → Moment → Bool × W → (Answer ProblemSource × Catalogue) × W
    after_fetch source db now (false, w) = (rolled_back source (opened db), w)
    after_fetch source db now (true, w) =
        after_snapshot source db now w (snapshot git source.default_branch w)

    abbrev pub sync_source :
        Option (List ℕ)
        → Catalogue
        → Moment
        → W
        → Option ProblemSource
        → (Answer ProblemSource × Catalogue) × W
    sync_source token db now w none = ((raises (source_error "Source not found"), db), w)
    sync_source token db now w (some source) =
        if source.enabled
        then after_fetch source db now (fetched git urlsplit hosts token source.repository_url w)
        else ((raises (source_error "Source is disabled"), db), w)

    -- `sync`, with the token of the environment and the moment of its clock reading.
    unfoldable pub sync :
        Option (List ℕ) → ℕ → Moment → Catalogue → W → (Answer ProblemSource × Catalogue) × W
    sync token id now db w = sync_source token db now w (find_first (is_source id) db.sources)
