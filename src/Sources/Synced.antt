-- ===== src/Sources/Synced.antt =====
-- What `ProblemSourceManager.sync` (apps/api/agentbenchx/git_sources.py) leaves behind on each branch.
use agent_bench_x.Prelude.{
  ℕ, ◌≡◌, ◌⊎◌, refl, sym, subst, inl, inr, Bool, true, false, Option, none, some, List, arith,
  find_first, find_first-passes, replace_first, find_first-replace_first, Option-cases, Bool-cases,
  ==→≡,
}
use agent_bench_x.Models.{Moment}
use agent_bench_x.Git.{Url}
use agent_bench_x.Sources.Catalogue.{
  ProblemSource, Catalogue, Columns, Taken, is_source, take_tasks,
}
use agent_bench_x.Sources.Repository.{Git, Snapshot, fetched, snapshot}
use agent_bench_x.Sources.Sync.{
  Failure, source_error, sync_failed, Answer, returns, raises, put_source, synced_source,
  failed_source, rolled_back, opened, after_pin, after_snapshot, after_fetch, sync,
}

-- The tables at the start of the loop.
abbrev pub at_start : Catalogue → Taken
at_start db = record { problems = db.problems; versions = db.versions; created = 0 }

abbrev pub committed : ProblemSource → Catalogue → Snapshot → Moment → Taken → Catalogue
committed source db s now t = record {
  sources = put_source (synced_source source s t.created now) db.sources;
  problems = t.problems;
  versions = t.versions;
}

pub put_source-found :
    (id : ℕ) (old new : ProblemSource) (rows : List ProblemSource)
    → find_first (is_source id) rows ≡ some old
    → new.id ≡ old.id
    → find_first (is_source id) (put_source new rows) ≡ some new
put_source-found id old new rows found same_id =
    let old_id : old.id ≡ id = ==→≡ old.id id (find_first-passes (is_source id) rows old found) in
    let new_id : new.id ≡ id = ground arith in
    subst (λ k. find_first (is_source id) (replace_first (is_source k) new rows) ≡ some new)
      (sym new_id) (find_first-replace_first (is_source id) new old rows found (ground arith))

module _ {W : Type 0} (urlsplit : List ℕ → Option Url) (hosts : List (List ℕ)) (git : Git W)
    (columns : Columns) (uid vid : ℕ → ℕ) (token : Option (List ℕ)) (id : ℕ) (now : Moment) where
  -- There is no such source, or it is disabled.
  abbrev pub IsIdle : Catalogue → Type 0
  IsIdle db =
      (find_first (is_source id) db.sources ≡ none)
      ⊎ ((source : ProblemSource) × (find_first (is_source id) db.sources ≡ some source)
          × (source.enabled ≡ false))

  -- A sync that raises: the problems and the versions are those before. Without an enabled source
  -- nothing has changed; otherwise its row alone is overwritten, as FAILED.
  pub record Refused (db db' : Catalogue) (f : Failure) : Type 0 where
    pub problems : db'.problems ≡ db.problems
    pub versions : db'.versions ≡ db.versions
    pub reason :
        (IsIdle db × (db' ≡ db))
        ⊎ ((source : ProblemSource) × (find_first (is_source id) db.sources ≡ some source)
            × (source.enabled ≡ true)
            × (f ≡ sync_failed)
            × (db'.sources ≡ put_source (failed_source source) db.sources))

  abbrev pub Outcome : Type 0
  Outcome = (Answer ProblemSource × Catalogue) × W

  abbrev pub run : Catalogue → W → Outcome
  run = sync urlsplit hosts git columns uid vid token id now

  abbrev pub takes : ProblemSource → Snapshot → Catalogue → Option Taken
  takes source s db =
      take_tasks columns uid vid source.id source.repository_url s.branch s.sha 0 s.tasks
        (at_start db)

  -- A sync that returns: what it found, and what it has committed.
  pub record Synced (db db' : Catalogue) (w : W) (source' : ProblemSource) : Type 0 where
    pub source : ProblemSource
    pub found : find_first (is_source id) db.sources ≡ some source
    pub enabled : source.enabled ≡ true
    pub ready : W
    pub is_ready : fetched git urlsplit hosts token source.repository_url w ≡ (true, ready)
    pub s : Snapshot
    pub offered : snapshot git source.default_branch ready ≡ some s
    pub t : Taken
    pub taken : takes source s db ≡ some t
    pub tables : db' ≡ committed source db s now t
    pub answer : source' ≡ synced_source source s t.created now

  -- The attempt for a source that is found and enabled is rolled back or committed.
  abbrev Attempted : ProblemSource → Catalogue → W → Outcome → Type 0
  Attempted source db w out =
      ((w' : W) × (out ≡ (rolled_back source (opened db), w')))
      ⊎ ((ready : W) × (s : Snapshot) × (t : Taken) × (w' : W) × (fetched git urlsplit hosts token
              source.repository_url w
            ≡ (true, ready))
          × (snapshot git source.default_branch ready ≡ some s)
          × (takes source s db ≡ some t)
          × (out ≡ (
            (returns (synced_source source s t.created now), committed source db s now t),
            w',
          )))

  attempt-Attempted :
      (source : ProblemSource) (db : Catalogue) (w : W) (f : Bool × W)
      → fetched git urlsplit hosts token source.repository_url w ≡ f
      → Attempted source db w (after_fetch urlsplit hosts git columns uid vid source db now f)
  attempt-Attempted source db w (false, ready) e = inl (ready, refl)
  attempt-Attempted source db w (true, ready) e =
      elim (Option-cases (snapshot git source.default_branch ready)) [
        | inl nothing ↦ inl (ready, rw (nothing) refl)
        | inr (s, offered) ↦
            subst
              (λ o.
                Attempted source db w
                  (after_snapshot urlsplit hosts git columns uid vid source db now ready o))
              (sym offered) (pinned s offered (git.update_ref s.sha ready))
      ]
    where
      pinned :
          (s : Snapshot)
          → snapshot git source.default_branch ready ≡ some s
          → (p : Bool × W)
          → Attempted source db w (after_pin urlsplit hosts git columns uid vid source db s now p)
      pinned s offered (false, w') = inl (w', refl)
      pinned s offered (true, w') = elim (Option-cases (takes source s db)) [
        | inl lost ↦ inl (w', rw (lost) refl)
        | inr (t, taken) ↦
            elim (Bool-cases (columns.fit_source (synced_source source s t.created now))) [
              | inl fits ↦ inr (ready, s, t, w', e, offered, taken, ground arith)
              | inr wide ↦ inl (w', ground arith)
            ]
      ]

  sync_source-cases :
      (db : Catalogue) (w : W) (out : Outcome)
      → run db w ≡ out
      → ((f : Failure) × IsIdle db × (out ≡ ((raises f, db), w)))
        ⊎ ((source : ProblemSource) × (find_first (is_source id) db.sources ≡ some source)
            × (source.enabled ≡ true)
            × Attempted source db w out)
  unfolding sync
  sync_source-cases db w out h = elim (Option-cases (find_first (is_source id) db.sources)) [
    | inl missing ↦ inl (source_error "Source not found", inl missing, ground arith)
    | inr (source, found) ↦ elim (Bool-cases source.enabled) [
      | inl enabled ↦
          let ran : after_fetch urlsplit hosts git columns uid vid source db now
                (fetched git urlsplit hosts token source.repository_url w)
              ≡ out =
            ground arith in
          inr (
            source,
            found,
            enabled,
            subst (Attempted source db w) ran (attempt-Attempted source db w _ refl),
          )
      | inr disabled ↦
          inl (source_error "Source is disabled", inr (source, found, disabled), ground arith)
    ]
  ]

  -- A sync that raises leaves the problems and the versions as they were, also those that its loop had
  -- added before it raised. If there is no such source or it is disabled, nothing has changed at all;
  -- otherwise the row of the source, and no other, is overwritten, as FAILED.
  pub sync-raises :
      (db db' : Catalogue) (w w' : W) (f : Failure)
      → run db w ≡ ((raises f, db'), w')
      → Refused db db' f
  sync-raises db db' w w' f h = elim (sync_source-cases db w _ h) [
    | inl (g, idle, out) ↦
        let same_tables : db ≡ db' = ground arith in
        rw (← same_tables) (record { problems = refl; versions = refl; reason = inl (idle, refl) })
    | inr (source, found, enabled, inl (w1, out)) ↦
        let failed : record db { sources = put_source (failed_source source) db.sources } ≡ db' =
          ground arith in
        let same_failure : f ≡ sync_failed = ground arith in
        rw (← failed) (record {
          problems = refl;
          versions = refl;
          reason = inr (source, found, enabled, same_failure, refl);
        })
    | inr (source, found, enabled, inr (ready, s, t, w1, e, offered, taken, out)) ↦
        absurd (ground arith)
  ]

  pub sync-Synced :
      (db db' : Catalogue) (w w' : W) (source' : ProblemSource)
      → run db w ≡ ((returns source', db'), w')
      → Synced db db' w source'
  sync-Synced db db' w w' source' h = elim (sync_source-cases db w _ h) [
    | inl (g, idle, out) ↦ absurd (ground arith)
    | inr (source, found, enabled, inl (w1, out)) ↦ absurd (ground arith)
    | inr (source, found, enabled, inr (ready, s, t, w1, e, offered, taken, out)) ↦ record {
      source = source;
      found = found;
      enabled = enabled;
      ready = ready;
      is_ready = e;
      s = s;
      offered = offered;
      t = t;
      taken = taken;
      tables = ground arith;
      answer = ground arith;
    }
  ]
