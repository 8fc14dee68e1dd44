-- ===== src/Tests/Store.antt =====
-- A store of objects that refuses to overwrite, and the artifacts of an evaluation in it.
use agent_bench_x.Prelude.{
  ℕ, ◌≡◌, refl, String, count_if, Bool, true, false, ◌&&◌, Option, none, some, List, [], ◌∷◌, arith,
  is_some, ◌==◌, str_eq, str_eq_iff, str_eq_refl, if◌then◌else◌, Bool-cases, inl, inr,
}
use agent_bench_x.Models.{StorageKey}
use agent_bench_x.Manager.Tables.{ok}
use agent_bench_x.Manager.Results.{context_of}
use agent_bench_x.Costs.{is_passed, is_failed, is_skipped}
use agent_bench_x.Artifacts.{Content, Report, artifacts, put_all, collect_artifacts}
use agent_bench_x.Artifacts.Stored.{collect_artifacts-AreStored}
use agent_bench_x.Tests.Data.{renewed_worker, running_job, problem, input}

abbrev same_key : StorageKey → StorageKey → Bool
same_key (StorageKey.agent_key a v) (StorageKey.agent_key b w) = a == b && v == w
same_key (StorageKey.artifact_key e p n) (StorageKey.artifact_key f q m) =
    e == f && p == q && str_eq n m
same_key _ _ = false

same_key_refl : (k : StorageKey) → same_key k k ≡ true
same_key_refl (StorageKey.agent_key a v) = ground arith
same_key_refl (StorageKey.artifact_key e p n) = ground (arith, str_eq_refl n)

abbrev Store : Type 0
Store = List (StorageKey × Content)

abbrev get : StorageKey → Store → Option Content
get k [] = none
get k ((l, content) ∷ store) = if same_key l k then some content else get k store

abbrev put : StorageKey → Content → Store → Option Store
put k content store = if is_some (get k store) then none else some ((k, content) ∷ store)

reads :
    (k : StorageKey) (content : Content) (s s' : Store)
    → put k content s ≡ some s'
    → get k s' ≡ some content
reads k content s s' h =
    let added : s' ≡ (k, content) ∷ s = ground arith in rw (added, same_key_refl k) refl

same_key_eq : (k l : StorageKey) → same_key k l ≡ true → k ≡ l
same_key_eq (StorageKey.agent_key a v) (StorageKey.agent_key b w) h = ground arith
same_key_eq (StorageKey.artifact_key e p n) (StorageKey.artifact_key f q m) h =
    ground (arith, str_eq_iff n m)
same_key_eq (StorageKey.agent_key a v) (StorageKey.artifact_key f q m) h = absurd (ground arith)
same_key_eq (StorageKey.artifact_key e p n) (StorageKey.agent_key b w) h = absurd (ground arith)

keeps :
    (k : StorageKey) (content : Content) (s s' : Store) (l : StorageKey) (old : Content)
    → put k content s ≡ some s'
    → get l s ≡ some old
    → get l s' ≡ some old
keeps k content s s' l old h was =
    let added : s' ≡ (k, content) ∷ s = ground arith in
    let absent : get k s ≡ none = ground arith in
    elim (Bool-cases (same_key k l)) [
      | inl here ↦ let e = same_key_eq k l here in absurd (ground arith)
      | inr elsewhere ↦ rw (added, elsewhere) was
    ]

abbrev shelf : Store
shelf = (collect_artifacts put 20 4 input (context_of renewed_worker running_job problem) []).1

collect-run :
    collect_artifacts put 20 4 input (context_of renewed_worker running_job problem) []
    ≡ (ok (20, 4), shelf)
unfolding collect_artifacts artifacts put_all
collect-run = refl

abbrev key_of : String → StorageKey
key_of name = StorageKey.artifact_key 20 4 name

collect_artifacts-AreStored_example :
    (◌≡◌ {A = ℕ × ℕ} (20, 4) (20, 4))
    × (get (key_of "stdout.log") shelf ≡ some (Content.text input.stdout))
    × (get (key_of "stderr.log") shelf ≡ some (Content.text input.stderr))
    × (get (key_of "agent_output.log") shelf ≡ some (Content.text input.agent_output))
    × (get (key_of "patch.diff") shelf ≡ some (Content.text input.patch))
    × (get (key_of "test_result.json") shelf ≡ some (Content.test_json input.tests))
    × ((r : Report) × (get (key_of "analysis.md") shelf ≡ some (Content.report r))
        × (r.status ≡ input.status)
        × (r.context ≡ context_of renewed_worker running_job problem)
        × (r.passed_tests ≡ count_if is_passed input.tests)
        × (r.failed_tests ≡ count_if is_failed input.tests)
        × (r.skipped_tests ≡ count_if is_skipped input.tests))
collect_artifacts-AreStored_example =
    collect_artifacts-AreStored put get reads keeps 20 4 input
      (context_of renewed_worker running_job problem) [] shelf (20, 4) collect-run
