-- ===== src/Sources/Repeated.antt =====
-- Syncs that return, and syncs that are repeated (`ProblemSourceManager.sync` of
-- apps/api/agentbenchx/git_sources.py).
use agent_bench_x.Prelude.{ℕ, ◌≡◌, refl, true, Option, some, List, ◌++◌, arith, length, find_first}
use agent_bench_x.Models.{Moment}
use agent_bench_x.Git.{Url}
use agent_bench_x.Sources.Catalogue.{
  SyncReport, ProblemSource, VersionRow, Problem, Catalogue, Columns, is_source,
}
use agent_bench_x.Sources.Repository.{Git, Snapshot, fetched, snapshot}
use agent_bench_x.Sources.Rows.{IsUnique, HasAll}
use agent_bench_x.Sources.Growth.{take_tasks-Grown, take_tasks-again}
use agent_bench_x.Sources.Sync.{returns, synced_source, status_of, after_fetch, sync}
use agent_bench_x.Sources.Synced.{
  at_start, committed, put_source-found, run, takes, Synced, sync-Synced,
}

module _ {W : Type 0} (urlsplit : List ℕ → Option Url) (hosts : List (List ℕ)) (git : Git W)
    (columns : Columns) (token : Option (List ℕ)) (id : ℕ) where
  -- What a sync has done to the tables: it took in the tasks of one commit.
  pub record TakenIn (db db' : Catalogue) (source source' : ProblemSource) (s : Snapshot)
      : Type 0 where
    pub more : List Problem
    pub problems : db'.problems ≡ db.problems ++ more
    pub rows : List VersionRow
    pub versions : db'.versions ≡ db.versions ++ rows
    pub unique : IsUnique db.problems db.versions → IsUnique db'.problems db'.versions
    pub status : source'.sync_status ≡ status_of s.tasks
    pub report : source'.sync_report ≡ SyncReport.synced (length s.tasks) (length rows) s.skipped
    pub last_commit : source'.last_commit_sha ≡ some s.sha
    pub complete : HasAll source.id source.repository_url s.sha s.tasks db'.problems db'.versions
    pub stored : find_first (is_source id) db'.sources ≡ some source'

  module _ (uid vid : ℕ → ℕ) (now : Moment) where
    -- A sync that returns has taken in the tasks of one commit of an enabled source: rows are added
    -- to problems and versions and no row is changed; the unique constraints still hold if they held;
    -- the report counts the tasks and the new versions; the source is READY, or EMPTY if there are no
    -- tasks, at that commit; and every task has its problem and its version.
    pub sync-TakenIn :
        (db db' : Catalogue) (w w' : W) (source' : ProblemSource)
        → run urlsplit hosts git columns uid vid token id now db w ≡ ((returns source', db'), w')
        → (source : ProblemSource) × (s : Snapshot) × (ready : W) × (find_first
              (is_source id)
              db.sources
            ≡ some source)
          × (source.enabled ≡ true)
          × (fetched git urlsplit hosts token source.repository_url w ≡ (true, ready))
          × (snapshot git source.default_branch ready ≡ some s)
          × TakenIn db db' source source' s
    sync-TakenIn db db' w w' source' h =
        let y = sync-Synced urlsplit hosts git columns uid vid token id now db db' w w' source' h in
        let (grown, all) =
          take_tasks-Grown columns uid vid y.source.id y.source.repository_url y.s.branch y.s.sha 0
            y.s.tasks (at_start db) y.t y.taken in
        (
          y.source,
          y.s,
          y.ready,
          y.found,
          y.enabled,
          y.is_ready,
          y.offered,
          rw (y.tables, y.answer)
              (record {
                more = grown.more;
                problems = grown.problems;
                rows = grown.rows;
                versions = grown.versions;
                unique = grown.unique;
                status = refl;
                report = ground (arith, grown.created);
                last_commit = refl;
                stored =
                    put_source-found id y.source (synced_source y.source y.s y.t.created now)
                      db.sources y.found refl;
                complete = all;
              }),
        )

    -- A sync of an enabled source at a commit whose tasks all have their problem and version.
    sync_complete :
        (db : Catalogue) (w ready : W) (source : ProblemSource) (s : Snapshot)
        → find_first (is_source id) db.sources ≡ some source
        → source.enabled ≡ true
        → HasAll source.id source.repository_url s.sha s.tasks db.problems db.versions
        → fetched git urlsplit hosts token source.repository_url w ≡ (true, ready)
        → snapshot git source.default_branch ready ≡ some s
        → (w' : W) → git.update_ref s.sha ready ≡ (true, w')
        → columns.fit_source (synced_source source s 0 now) ≡ true
        → run urlsplit hosts git columns uid vid token id now db w
          ≡ ((returns (synced_source source s 0 now), committed source db s now (at_start db)), w')
    unfolding sync
    sync_complete db w ready source s found enabled all is_ready offered w' pinned fits =
        let taken : takes urlsplit hosts git columns uid vid token id now source s db
            ≡ some (at_start db) =
          take_tasks-again columns uid vid source.id source.repository_url s.branch s.sha 0 s.tasks
            (at_start db) all in
        let attempt : after_fetch urlsplit hosts git columns uid vid source db now
              (fetched git urlsplit hosts token source.repository_url w)
            ≡ (
              (returns (synced_source source s 0 now), committed source db s now (at_start db)),
              w',
            ) =
          rw (is_ready, offered, pinned, taken, fits) refl in
        rw (found) ground arith

  -- Syncs are idempotent: after a sync that has returned, another one that finds the repository at the
  -- same commit, with the same tasks, returns and adds no problem and no version, whatever ids it
  -- draws; it overwrites the source's row, and reports no new version.
  pub sync_twice :
      (uid vid uid' vid' : ℕ → ℕ) (now now' : Moment) (db db' : Catalogue) (w w' ready ready' : W)
      (source' : ProblemSource)
      (y : Synced urlsplit hosts git columns uid vid token id now db db' w source')
      → fetched git urlsplit hosts token source'.repository_url w' ≡ (true, ready)
      → snapshot git source'.default_branch ready ≡ some y.s
      → git.update_ref y.s.sha ready ≡ (true, ready')
      → columns.fit_source (synced_source source' y.s 0 now') ≡ true
      → run urlsplit hosts git columns uid' vid' token id now' db' w' ≡ (
        (returns (synced_source source' y.s 0 now'), committed source' db' y.s now' (at_start db')),
        ready',
      )
  sync_twice uid vid uid' vid' now now' db db' w w' ready ready' source' y is_ready offered pinned
        fits =
      let (grown, all) =
        take_tasks-Grown columns uid vid y.source.id y.source.repository_url y.s.branch y.s.sha 0
          y.s.tasks (at_start db) y.t y.taken in
      sync_complete uid' vid' now' db' w' ready source' y.s
        (rw (y.tables, y.answer)
          (put_source-found id y.source (synced_source y.source y.s y.t.created now) db.sources
            y.found refl))
        (rw (y.answer) y.enabled) (rw (y.tables, y.answer) all) is_ready offered ready' pinned fits
