-- ===== src/Sources/Growth.antt =====
-- What the loop of `ProblemSourceManager.sync` (apps/api/agentbenchx/git_sources.py) does to the tables of
-- problems and versions.
use mathlib.Core.List.{append-nil}
use agent_bench_x.Prelude.{
  ℕ, suc, ◌≤◌, ◌≡◌, refl, sym, inl, inr, true, some, List, [], ◌∷◌, ◌++◌, arith, is_some,
  find_first, count_if, Option-cases,
}
use agent_bench_x.Storage.Keys.{same_refl}
use agent_bench_x.Sources.Tasks.{Task}
use agent_bench_x.Sources.Catalogue.{
  Problem, VersionRow, Columns, Taken, is_problem, is_version, made_problem, made_version,
  add_problem, add_version, kept_problem, with_version, take_task, take_tasks,
}
use agent_bench_x.Sources.Rows.{
  new_problem-counted, new_version-counted, Grown, refl-Grown, trans-Grown, Has, HasAll, Grown-Has,
  appended_found,
}

module _ (columns : Columns) (uid vid : ℕ → ℕ) (source : ℕ) (url branch sha : List ℕ) where
  add_problem-appends :
      (problem : Problem) (rows rows' : List Problem)
      → add_problem columns problem rows ≡ some rows'
      → rows' ≡ rows ++ problem ∷ []
  unfolding add_problem
  add_problem-appends problem rows rows' h = ground arith

  add_version-appends :
      (row : VersionRow) (rows rows' : List VersionRow)
      → add_version columns row rows ≡ some rows'
      → rows' ≡ rows ++ row ∷ []
  unfolding add_version
  add_version-appends row rows rows' h = ground arith

  -- The problem of a task is kept or added; then its version is there or is added.
  record Kept (task : Task) (rows rows' : List Problem) : Type 0 where
    more : List Problem
    grown : rows' ≡ rows ++ more
    found : is_some (find_first (is_problem source task.path) rows') ≡ true
    one :
        (s : ℕ) (path : List ℕ)
        → count_if (is_problem s path) rows ≤ 1
        → count_if (is_problem s path) rows' ≤ 1

  kept_problem-Kept :
      (k : ℕ) (task : Task) (rows rows' : List Problem) (problem : Problem)
      → kept_problem columns uid vid source url branch sha k task rows
          (find_first (is_problem source task.path) rows)
        ≡ some (problem, rows')
      → Kept task rows rows'
  kept_problem-Kept k task rows rows' problem h =
      elim (Option-cases (find_first (is_problem source task.path) rows)) [
        | inl missing ↦
            let new = made_problem (uid k) source task in
            elim (Option-cases (add_problem columns new rows)) [
              | inl refused ↦ absurd (ground arith)
              | inr (rows2, inserted) ↦
                  let same_rows : rows2 ≡ rows' = ground arith in
                  let grown : rows' ≡ rows ++ new ∷ [] =
                    rw (← same_rows) (add_problem-appends new rows rows2 inserted) in
                  record {
                    more = new ∷ [];
                    grown = grown;
                    found = rw (grown) (
                        appended_found (is_problem source task.path) rows new missing
                          (ground (arith, same_refl task.path)));
                    one = λ s path at_most.
                        rw (grown) (new_problem-counted new rows s path missing at_most);
                  }
            ]
        | inr (old, present) ↦
            let same_rows : rows ≡ rows' = ground arith in
            record {
              more = [];
              grown = rw (← same_rows) (sym (append-nil rows));
              found = rw (← same_rows, present) refl;
              one = λ s path at_most. rw (← same_rows) at_most;
            }
      ]

  with_version-Grown :
      (k : ℕ) (task : Task) (t t' : Taken) (problem : Problem) (problems : List Problem)
      → Kept task t.problems problems
      → with_version columns uid vid source url branch sha k task t (some (problem, problems))
        ≡ some t'
      → Grown t t' × Has source url sha task t'.problems t'.versions
  with_version-Grown k task t t' problem problems kept h =
      elim (Option-cases (find_first (is_version url sha task.path) t.versions)) [
        | inl missing ↦
            let new = made_version (vid k) problem.id url branch sha task in
            elim (Option-cases (add_version columns new t.versions)) [
              | inl refused ↦ absurd (ground arith)
              | inr (rows, inserted) ↦
                  let appended = add_version-appends new t.versions rows inserted in
                  let same_taken : record {
                    problems = problems;
                    versions = rows;
                    created = suc t.created;
                  }
                      ≡ t' =
                    ground arith in
                  rw (← same_taken) (
                    record {
                      more = kept.more;
                      problems = kept.grown;
                      rows = new ∷ [];
                      versions = appended;
                      created = omega arith;
                      unique = λ u. record {
                        one_problem = λ s path. kept.one s path (u.one_problem s path);
                        one_version = λ r c path. rw (appended) (
                            new_version-counted new t.versions r c path missing
                              (u.one_version r c path));
                      };
                    },
                    (
                      kept.found,
                      rw (appended) (
                          appended_found (is_version url sha task.path) t.versions new missing
                            (ground (arith, same_refl url, same_refl sha, same_refl task.path))),
                    ),
                  )
            ]
        | inr (old, present) ↦
            let same_taken : record t { problems = problems } ≡ t' = ground arith in
            rw (← same_taken) (
              record {
                more = kept.more;
                problems = kept.grown;
                rows = [];
                versions = sym (append-nil t.versions);
                created = omega arith;
                unique = λ u. record {
                  one_problem = λ s path. kept.one s path (u.one_problem s path);
                  one_version = u.one_version;
                };
              },
              (kept.found, rw (present) refl),
            )
      ]

  take_task-Grown :
      (k : ℕ) (task : Task) (t t' : Taken)
      → take_task columns uid vid source url branch sha k task t ≡ some t'
      → Grown t t' × Has source url sha task t'.problems t'.versions
  unfolding take_task
  take_task-Grown k task t t' h =
      let kept =
        kept_problem columns uid vid source url branch sha k task t.problems
          (find_first (is_problem source task.path) t.problems) in
      elim (Option-cases kept) [
        | inl lost ↦ absurd (ground arith)
        | inr ((problem, problems), e) ↦
            with_version-Grown k task t t' problem problems
              (kept_problem-Kept k task t.problems problems problem e) (ground arith)
      ]

  -- The loop adds rows and changes none: it never has two problems of one source under one key, or
  -- two versions of one path at one commit, if there were none before, it counts the versions that it
  -- adds, and every task has its problem and its version then.
  pub take_tasks-Grown :
      (k : ℕ) (tasks : List Task) (t t' : Taken)
      → take_tasks columns uid vid source url branch sha k tasks t ≡ some t'
      → Grown t t' × HasAll source url sha tasks t'.problems t'.versions
  unfolding take_tasks
  take_tasks-Grown k [] t t' h =
      let same_taken : t ≡ t' = ground arith in rw (← same_taken) (refl-Grown t, tt)
  take_tasks-Grown k (task ∷ tasks) t t' h =
      elim (Option-cases (take_task columns uid vid source url branch sha k task t)) [
        | inl lost ↦ absurd (ground arith)
        | inr (u, e) ↦
            let (first, has) = take_task-Grown k task t u e in
            let (rest, all) = take_tasks-Grown (suc k) tasks u t' (ground arith) in
            (trans-Grown t u t' first rest, (Grown-Has source url sha task u t' rest has, all))
      ]

  take_task-again :
      (k : ℕ) (task : Task) (t : Taken)
      → Has source url sha task t.problems t.versions
      → take_task columns uid vid source url branch sha k task t ≡ some t
  unfolding take_task
  take_task-again k task t (p, v) =
      elim (Option-cases (find_first (is_problem source task.path) t.problems)) [
        | inl missing ↦ absurd (ground arith)
        | inr (problem, found) ↦ rw (found, v) refl
      ]

  -- A commit is taken in once: with all its tasks' problems and versions there, the loop changes
  -- nothing, whatever ids it draws, and counts nothing.
  pub take_tasks-again :
      (k : ℕ) (tasks : List Task) (t : Taken)
      → HasAll source url sha tasks t.problems t.versions
      → take_tasks columns uid vid source url branch sha k tasks t ≡ some t
  unfolding take_tasks
  take_tasks-again k [] t all = refl
  take_tasks-again k (task ∷ tasks) t (has, all) =
      rw (take_task-again k task t has, take_tasks-again (suc k) tasks t all) refl
