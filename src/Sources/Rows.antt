-- ===== src/Sources/Rows.antt =====
-- Rows that are added to the tables of problems and versions, by the loop of `ProblemSourceManager.sync`
-- (apps/api/agentbenchx/git_sources.py).
use mathlib.Core.List.{append-nil, append_assoc}
use agent_bench_x.Prelude.{
  ℕ, ◌+◌, ◌≤◌, ◌≡◌, refl, sym, ap, inl, inr, Bool, true, none, List, [], ◌∷◌, ◌++◌, arith, is_some,
  length, length-append, one_if, find_first, count_if, count_if-append, find_first-none,
  find_first-append_left, find_first-append_right, Option-cases, Bool-cases, ==→≡,
}
use agent_bench_x.Storage.Keys.{same→≡}
use agent_bench_x.Sources.Tasks.{Task}
use agent_bench_x.Sources.Catalogue.{Problem, VersionRow, Taken, is_problem, is_version}

-- No two rows agree in what a unique constraint names.
pub record IsUnique (problems : List Problem) (versions : List VersionRow) : Type 0 where
  pub one_problem : (s : ℕ) (path : List ℕ) → count_if (is_problem s path) problems ≤ 1
  pub one_version : (url sha path : List ℕ) → count_if (is_version url sha path) versions ≤ 1

pub new_problem-counted :
    (problem : Problem) (rows : List Problem) (s : ℕ) (path : List ℕ)
    → find_first (is_problem problem.source_id problem.problem_key) rows ≡ none
    → count_if (is_problem s path) rows ≤ 1
    → count_if (is_problem s path) (rows ++ problem ∷ []) ≤ 1
unfolding count_if
new_problem-counted problem rows s path new at_most =
    elim (Bool-cases (is_problem s path problem)) [
      | inl hit ↦
          let same_source : problem.source_id ≡ s = ==→≡ problem.source_id s (ground arith) in
          let same_key : path ≡ problem.problem_key =
            same→≡ path problem.problem_key (ground arith) in
          let zero_before : count_if (is_problem s path) rows ≡ 0 =
            rw (← same_source, same_key) (find_first-none _ rows new) in
          omega (
            arith,
            count_if-append (is_problem s path) rows (problem ∷ []),
            ap one_if hit,
            zero_before,
          )
      | inr other ↦
          omega (
            arith,
            count_if-append (is_problem s path) rows (problem ∷ []),
            ap one_if other,
            at_most,
          )
    ]

pub new_version-counted :
    (row : VersionRow) (rows : List VersionRow) (url sha path : List ℕ)
    → find_first (is_version row.repository_url row.commit_sha row.task.path) rows ≡ none
    → count_if (is_version url sha path) rows ≤ 1
    → count_if (is_version url sha path) (rows ++ row ∷ []) ≤ 1
unfolding count_if
new_version-counted row rows url sha path new at_most =
    elim (Bool-cases (is_version url sha path row)) [
      | inl hit ↦
          let same_url : url ≡ row.repository_url = same→≡ url row.repository_url (ground arith) in
          let same_sha : sha ≡ row.commit_sha = same→≡ sha row.commit_sha (ground arith) in
          let same_path : path ≡ row.task.path = same→≡ path row.task.path (ground arith) in
          let zero_before : count_if (is_version url sha path) rows ≡ 0 =
            rw (same_url, same_sha, same_path) (find_first-none _ rows new) in
          omega (
            arith,
            count_if-append (is_version url sha path) rows (row ∷ []),
            ap one_if hit,
            zero_before,
          )
      | inr other ↦ omega (
        arith,
        count_if-append (is_version url sha path) rows (row ∷ []),
        ap one_if other,
        at_most,
      )
    ]

-- Rows are added and none is changed, and `created` counts the versions that are added.
pub record Grown (t t' : Taken) : Type 0 where
  pub more : List Problem
  pub problems : t'.problems ≡ t.problems ++ more
  pub rows : List VersionRow
  pub versions : t'.versions ≡ t.versions ++ rows
  pub created : t'.created ≡ t.created + length rows
  pub unique : IsUnique t.problems t.versions → IsUnique t'.problems t'.versions

pub refl-Grown : (t : Taken) → Grown t t
refl-Grown t = record {
  more = [];
  problems = sym (append-nil t.problems);
  rows = [];
  versions = sym (append-nil t.versions);
  created = omega arith;
  unique = λ u. u;
}

pub trans-Grown : (t u v : Taken) → Grown t u → Grown u v → Grown t v
trans-Grown t u v g h = record {
  more = g.more ++ h.more;
  problems = rw (h.problems, g.problems) (append_assoc t.problems g.more h.more);
  rows = g.rows ++ h.rows;
  versions = rw (h.versions, g.versions) (append_assoc t.versions g.rows h.rows);
  created = omega (arith, g.created, h.created, length-append g.rows h.rows);
  unique = λ e. h.unique (g.unique e);
}

found_still {ℓ} :
    {A : Type ℓ} (p : A → Bool) (xs ys zs : List A)
    → ys ≡ xs ++ zs
    → is_some (find_first p xs) ≡ true
    → is_some (find_first p ys) ≡ true
found_still p xs ys zs e h = elim (Option-cases (find_first p xs)) [
  | inl missing ↦ ground arith
  | inr (a, found) ↦ rw (e, find_first-append_left p xs zs a found) refl
]

pub appended_found {ℓ} :
    {A : Type ℓ} (p : A → Bool) (rows : List A) (a : A)
    → find_first p rows ≡ none
    → p a ≡ true
    → is_some (find_first p (rows ++ a ∷ [])) ≡ true
unfolding find_first
appended_found p rows a missing h =
    rw (find_first-append_right p rows (a ∷ []) missing) ground arith

module _ (source : ℕ) (url sha : List ℕ) where
  -- The task's problem and its version at the commit are there.
  abbrev pub Has : Task → List Problem → List VersionRow → Type 0
  Has task problems versions =
      (is_some (find_first (is_problem source task.path) problems) ≡ true)
      × (is_some (find_first (is_version url sha task.path) versions) ≡ true)

  abbrev pub HasAll : List Task → List Problem → List VersionRow → Type 0
  HasAll [] problems versions = Unit {0}
  HasAll (task ∷ tasks) problems versions =
      Has task problems versions × HasAll tasks problems versions

  pub Grown-Has :
      (task : Task) (t t' : Taken)
      → Grown t t'
      → Has task t.problems t.versions
      → Has task t'.problems t'.versions
  Grown-Has task t t' g (p, v) = (
    found_still (is_problem source task.path) t.problems t'.problems g.more g.problems p,
    found_still (is_version url sha task.path) t.versions t'.versions g.rows g.versions v,
  )
