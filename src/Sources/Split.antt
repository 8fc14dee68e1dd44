-- ===== src/Sources/Split.antt =====
-- What `discover` (apps/api/agentbenchx/git_sources.py) returns: the folders of a commit, split into
-- tasks and folders passed over.
use agent_bench_x.Prelude.{
  ℕ, ◌+◌, ◌≤◌, ◌≡◌, refl, sym, ap, subst, inl, inr, Bool, true, false, Option, none, some, List, [],
  ◌∷◌, ◌++◌, arith, one_if, count_if, Bool-cases,
}
use agent_bench_x.Junit.Text.{codes, lower, contains, starts_with}
use agent_bench_x.Sources.Names.{insert_sorted, sorted, manifests, parent}
use agent_bench_x.Sources.Tasks.{
  Field, Timeout, Manifest, Parsed, table, unreadable, too_deep, Task, validate,
}
use agent_bench_x.Sources.Names.{holds}
use agent_bench_x.Storage.{split}
use agent_bench_x.Sources.Discovery.{
  Round, found, skip, aborts, Mapped, known, unmapped, normalize, any_gis, is_gis, has_files,
  checked, with_instruction, with_timeout, with_difficulty, with_kind, inspect_tagged, with_tags,
  tags_of, category_of, Commit, with_manifest, manifest_of, instruction_of, inspect, Skipped,
  and_round, inspect_all, discover,
}

-- The order of the folders does not change how many pass a test.
count_if-insert_sorted :
    (p : List ℕ → Bool) (n : List ℕ) (names : List (List ℕ))
    → count_if p (insert_sorted n names) ≡ one_if (p n) + count_if p names
unfolding insert_sorted count_if
count_if-insert_sorted p n [] = refl
count_if-insert_sorted p n (m ∷ names) = ground (arith, count_if-insert_sorted p n names)

pub count_if-sorted :
    (p : List ℕ → Bool) (names : List (List ℕ)) → count_if p (sorted names) ≡ count_if p names
unfolding sorted count_if
count_if-sorted p [] = refl
count_if-sorted p (n ∷ names) =
    omega (arith, count_if-insert_sorted p n (sorted names), count_if-sorted p names)

checked-found :
    (task t : Task) (answer : Option _)
    → checked task answer ≡ found t
    → (answer ≡ none) × (task ≡ t)
checked-found task t none h = (refl, ground arith)
checked-found task t (some reason) h = ground arith

with_instruction-found :
    (answer : Option (List ℕ)) (make : List ℕ → Task) (t : Task)
    → with_instruction answer make ≡ found t
    → (i : List ℕ) × (validate (make i) ≡ none) × (make i ≡ t)
with_instruction-found none make t h = ground arith
with_instruction-found (some i) make t h =
    let (valid, made) = checked-found (make i) t (validate (make i)) h in (i, valid, made)

with_timeout-found :
    (timeout : Timeout) (next : ℕ → Round) (t : Task)
    → with_timeout timeout next ≡ found t
    → (seconds : ℕ) × (next seconds ≡ found t)
with_timeout-found (Timeout.number seconds) next t h = (seconds, h)
with_timeout-found Timeout.refused next t h = ground arith
with_timeout-found Timeout.infinite next t h = ground arith
with_timeout-found Timeout.no_table next t h = ground arith

with_difficulty-found :
    (difficulty : Field) (next : List ℕ → Round) (t : Task)
    → with_difficulty difficulty next ≡ found t
    → (d : List ℕ) × (next d ≡ found t)
with_difficulty-found Field.absent next t h = (codes "MEDIUM", h)
with_difficulty-found (Field.text d) next t h = (_, h)
with_difficulty-found (Field.texts ts) next t h = ground arith
with_difficulty-found Field.other next t h = ground arith

-- A task of a known category is validated, under the folder and the tags that it was made for.
with_kind-found :
    (m : Mapped) (folder : List ℕ) (tags : List (List ℕ)) (raw : Manifest)
    (instruction : Option (List ℕ)) (t : Task)
    → with_kind m folder tags raw instruction ≡ found t
    → (validate t ≡ none) × (t.path ≡ folder) × (t.tags ≡ tags)
with_kind-found unmapped folder tags raw instruction t h = ground arith
with_kind-found (known category kind) folder tags raw instruction t h =
    let (d, h1) = with_difficulty-found raw.difficulty _ t h in
    let (seconds, h2) = with_timeout-found raw.timeout _ t h1 in
    let (i, valid, made) = with_instruction-found instruction _ t h2 in
    rw (← made) (valid, refl, refl)

-- A path that does not lead out of the repository, and values from the fixed sets.
pub record IsSound (task : Task) : Type 0 where
  pub relative : starts_with (codes "/") task.path ≡ false
  pub no_climb : holds (codes "..") (split task.path) ≡ false
  pub category :
      holds task.category
        (codes "CODING" ∷ codes "DATABASE" ∷ codes "DATA" ∷ codes "API_BACKEND" ∷ [])
      ≡ true
  pub difficulty :
      holds task.difficulty (codes "EASY" ∷ codes "MEDIUM" ∷ codes "HARD" ∷ codes "EXPERT" ∷ [])
      ≡ true
  pub timeout : (1 ≤ task.timeout) × (task.timeout ≤ 86400)

validate-IsSound : (task : Task) → validate task ≡ none → IsSound task
unfolding validate
validate-IsSound task h = record {
  relative = ground arith;
  no_climb = ground arith;
  category = ground arith;
  difficulty = ground arith;
  timeout = (ground arith, ground arith);
}

-- What a task of a commit with these files has: it is sound, under the folder of a manifest, with the
-- three files that a run needs, and it is not about GIS.
pub record Offered (files : List (List ℕ)) (folder : List ℕ) (task : Task) : Type 0 where
  pub sound : IsSound task
  pub at_folder : task.path ≡ folder
  pub instruction : holds (folder ++ codes "/instruction.md") files ≡ true
  pub verifier : holds (folder ++ codes "/tests/test.sh") files ≡ true
  pub dockerfile : holds (folder ++ codes "/environment/Dockerfile") files ≡ true
  pub in_scope :
      (contains (codes "xarray-spatial") (lower folder) ≡ false) × (any_gis task.tags ≡ false)

is_gis-false :
    (folder category : List ℕ) (tags : List (List ℕ))
    → is_gis folder category tags ≡ false
    → (contains (codes "xarray-spatial") (lower folder) ≡ false) × (any_gis tags ≡ false)
is_gis-false folder category tags h = (ground arith, ground arith)

inspect_tagged-found :
    (files : List (List ℕ)) (folder category : List ℕ) (tags : List (List ℕ)) (raw : Manifest)
    (instruction : Option (List ℕ)) (t : Task)
    → inspect_tagged files folder category tags raw instruction ≡ found t
    → Offered files folder t
unfolding inspect_tagged
inspect_tagged-found files folder category tags raw instruction t h =
    elim (Bool-cases (is_gis folder category tags)) [
      | inl gis ↦ ground arith
      | inr scope ↦ elim (Bool-cases (has_files folder files)) [
        | inl has ↦
            let kind = normalize category tags raw.kind in
            let reached : with_kind kind folder tags raw instruction ≡ found t = ground arith in
            let (valid, at_folder, same_tags) =
              with_kind-found kind folder tags raw instruction t reached in
            record {
              sound = validate-IsSound t valid;
              at_folder = at_folder;
              instruction = ground arith;
              verifier = ground arith;
              dockerfile = ground arith;
              in_scope = rw (same_tags) (is_gis-false folder category tags scope);
            }
        | inr lacks ↦ ground arith
      ]
    ]

with_tags-found :
    (files : List (List ℕ)) (folder : List ℕ) (tags : Option (List (List ℕ)))
    (category : Option (List ℕ)) (raw : Manifest) (instruction : Option (List ℕ)) (t : Task)
    → with_tags files folder tags category raw instruction ≡ found t
    → Offered files folder t
with_tags-found files folder none category raw instruction t h = ground arith
with_tags-found files folder (some tags) none raw instruction t h = ground arith
with_tags-found files folder (some tags) (some category) raw instruction t h =
    inspect_tagged-found files folder category tags raw instruction t h

with_manifest-found :
    (commit : Commit) (files : List (List ℕ)) (folder : List ℕ) (answer : Parsed) (t : Task)
    → with_manifest commit files folder answer ≡ found t
    → Offered files folder t
with_manifest-found commit files folder unreadable t h = ground arith
with_manifest-found commit files folder too_deep t h = ground arith
with_manifest-found commit files folder (table raw) t h = elim (Bool-cases raw.has_table) [
  | inl tabular ↦
      with_tags-found files folder (tags_of raw.tags) (category_of raw.category) raw
        (instruction_of commit (folder ++ codes "/instruction.md")) t (ground arith)
  | inr no_table ↦ ground arith
]

inspect-found :
    (commit : Commit) (files : List (List ℕ)) (name : List ℕ) (t : Task)
    → inspect commit files name ≡ found t
    → Offered files (parent name) t
unfolding inspect
inspect-found commit files name t h =
    with_manifest-found commit files (parent name) (manifest_of commit name) t h

abbrev pub AllOffered : List (List ℕ) → List Task → Type 0
AllOffered files [] = Unit {0}
AllOffered files (t ∷ tasks) = Offered files t.path t × AllOffered files tasks

abbrev pub task_count : (List ℕ → Bool) → List Task → ℕ
task_count p tasks = count_if (λ t. p t.path) tasks

abbrev pub skip_count : (List ℕ → Bool) → List Skipped → ℕ
skip_count p skipped = count_if (λ s. p s.path) skipped

abbrev pub folder_count : (List ℕ → Bool) → List (List ℕ) → ℕ
folder_count p names = count_if (λ n. p (parent n)) names

module _ (p : List ℕ → Bool) (commit : Commit) (files : List (List ℕ)) where
  -- What a result says of the names that it comes from.
  abbrev Splits : List (List ℕ) → List Task → List Skipped → Type 0
  Splits names tasks skipped =
      (task_count p tasks + skip_count p skipped ≡ folder_count p names) × AllOffered files tasks

  and_round-Splits :
      (name : List ℕ) (names : List (List ℕ)) (r : Round) (rest : Option (List Task × List Skipped))
      (tasks : List Task) (skipped : List Skipped)
      → ((t : Task) → r ≡ found t → Offered files (parent name) t)
      → ((ts : List Task) (ss : List Skipped) → rest ≡ some (ts, ss) → Splits names ts ss)
      → and_round (parent name) r rest ≡ some (tasks, skipped)
      → Splits (name ∷ names) tasks skipped
  unfolding count_if
  and_round-Splits name names aborts rest tasks skipped o s h = ground arith
  and_round-Splits name names (found t) none tasks skipped o s h = ground arith
  and_round-Splits name names (skip reason) none tasks skipped o s h = ground arith
  and_round-Splits name names (found t) (some (ts, ss)) tasks skipped o s h =
      let offered = o t refl in
      let (counts, all) = s ts ss refl in
      let more : t ∷ ts ≡ tasks = ground arith in
      let same_skips : ss ≡ skipped = ground arith in
      rw (← more, ← same_skips)
        (
          omega (arith, counts, ap (λ f. one_if (p f)) offered.at_folder),
          (subst (λ f. Offered files f t) (sym offered.at_folder) offered, all),
        )
  and_round-Splits name names (skip reason) (some (ts, ss)) tasks skipped o s h =
      let (counts, all) = s ts ss refl in
      let same_tasks : ts ≡ tasks = ground arith in
      let more : record { path = parent name; reason = reason } ∷ ss ≡ skipped = ground arith in
      rw (← more, ← same_tasks) (omega (arith, counts), all)

  inspect_all-Splits :
      (names : List (List ℕ)) (tasks : List Task) (skipped : List Skipped)
      → inspect_all commit files names ≡ some (tasks, skipped)
      → Splits names tasks skipped
  unfolding inspect_all count_if
  inspect_all-Splits [] tasks skipped h =
      let no_tasks : [] ≡ tasks = ground arith in
      let no_skips : [] ≡ skipped = ground arith in rw (← no_tasks, ← no_skips) (refl, tt)
  inspect_all-Splits (name ∷ names) tasks skipped h =
      and_round-Splits name names (inspect commit files name) (inspect_all commit files names) tasks
        skipped (inspect-found commit files name) (inspect_all-Splits names) h

  -- Every folder of a commit that has a manifest is accounted for: when a discovery returns, each
  -- such folder is as often among the tasks and the folders passed over together as it has manifests.
  -- Each task has a relative path without "..", a category and a difficulty from the fixed sets and a
  -- timeout between a second and a day; its folder has an instruction, a verifier and a Dockerfile; and
  -- neither the folder nor a tag says GIS.
  pub discover-Splits :
      (tasks : List Task) (skipped : List Skipped)
      → discover commit files ≡ some (tasks, skipped)
      → (task_count p tasks + skip_count p skipped ≡ folder_count p (manifests files))
        × AllOffered files tasks
  unfolding discover
  discover-Splits tasks skipped h =
      let (counts, all) = inspect_all-Splits (sorted (manifests files)) tasks skipped h in
      (rw (← count_if-sorted (λ n. p (parent n)) (manifests files)) counts, all)
