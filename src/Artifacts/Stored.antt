-- ===== src/Artifacts/Stored.antt =====
-- Over a backend that gives back what it stores and never overwrites, all artifacts are stored.
use agent_bench_x.Prelude.{
  ℕ, ◌≡◌, refl, count_if, String, Option, some, List, [], ◌∷◌, arith, Option-cases, inl, inr,
}
use agent_bench_x.Models.{StorageKey, ResultInput}
use agent_bench_x.Manager.Tables.{ok}
use agent_bench_x.Costs.{is_passed, is_failed, is_skipped}
use agent_bench_x.Artifacts.{
  Context, Content, text, test_json, report, Report, generate_basic_report, artifacts, put_all,
  collect_artifacts,
}

module _ {S : Type 0} (put : StorageKey → Content → S → Option S)
    (get : StorageKey → S → Option Content)
    (reads : (key : StorageKey) (content : Content) (s s' : S)
      → put key content s ≡ some s'
      → get key s' ≡ some content)
    (keeps : (key : StorageKey) (content : Content) (s s' : S) (other : StorageKey) (old : Content)
      → put key content s ≡ some s'
      → get other s ≡ some old
      → get other s' ≡ some old) where
  abbrev pub AreStored : ℕ → ℕ → List (String × Content) → S → Type 0
  AreStored evaluation problem [] s = Unit {0}
  AreStored evaluation problem ((name, content) ∷ rest) s =
      (get (StorageKey.artifact_key evaluation problem name) s ≡ some content)
      × AreStored evaluation problem rest s

  put_all-keeps :
      (evaluation problem : ℕ) (rows : List (String × Content)) (s : S) (other : StorageKey)
      (old : Content)
      → get other s ≡ some old
      → get other (put_all put evaluation problem rows s).1 ≡ some old
  unfolding put_all
  put_all-keeps evaluation problem [] s other old h = h
  put_all-keeps evaluation problem ((name, content) ∷ rest) s other old h =
      elim (Option-cases (put (StorageKey.artifact_key evaluation problem name) content s)) [
        | inl failed ↦ rw (put_all, failed) h
        | inr (t, stored) ↦
            rw (put_all, stored)
              (put_all-keeps evaluation problem rest t other old (
                keeps (StorageKey.artifact_key evaluation problem name) content s t other old stored
                  h))
      ]

  put_all-AreStored :
      (evaluation problem : ℕ) (rows : List (String × Content)) (s s' : S) (path : ℕ × ℕ)
      → put_all put evaluation problem rows s ≡ (ok path, s')
      → (path ≡ (evaluation, problem)) × AreStored evaluation problem rows s'
  unfolding put_all
  put_all-AreStored evaluation problem [] s s' path h = (ground arith, tt)
  put_all-AreStored evaluation problem ((name, content) ∷ rest) s s' path h =
      elim (Option-cases (put (StorageKey.artifact_key evaluation problem name) content s)) [
        | inl failed ↦ absurd (ground arith)
        | inr (t, stored) ↦
            let key = StorageKey.artifact_key evaluation problem name in
            let h' : put_all put evaluation problem rest t ≡ (ok path, s') =
              rw (put_all, stored) at h in
            let (same, others) = put_all-AreStored evaluation problem rest t s' path h' in
            let kept =
              put_all-keeps evaluation problem rest t key content (reads key content s t stored) in
            (same, (rw h' at kept, others))
      ]

  -- Over a backend that gives back what it has stored and never overwrites: if the artifacts of an
  -- evaluation are collected without an error, its three logs, its patch, its tests and a report that
  -- counts the passed, failed and skipped tests are stored, each under its own name.
  pub collect_artifacts-AreStored :
      (evaluation problem : ℕ) (result : ResultInput) (context : Context) (s s' : S) (path : ℕ × ℕ)
      → collect_artifacts put evaluation problem result context s ≡ (ok path, s')
      → (path ≡ (evaluation, problem))
        × (get (StorageKey.artifact_key evaluation problem "stdout.log") s'
            ≡ some (text result.stdout))
        × (get (StorageKey.artifact_key evaluation problem "stderr.log") s'
            ≡ some (text result.stderr))
        × (get (StorageKey.artifact_key evaluation problem "agent_output.log") s'
            ≡ some (text result.agent_output))
        × (get (StorageKey.artifact_key evaluation problem "patch.diff") s'
            ≡ some (text result.patch))
        × (get (StorageKey.artifact_key evaluation problem "test_result.json") s'
            ≡ some (test_json result.tests))
        × ((r : Report) × (get (StorageKey.artifact_key evaluation problem "analysis.md") s'
              ≡ some (report r))
            × (r.status ≡ result.status)
            × (r.context ≡ context)
            × (r.passed_tests ≡ count_if is_passed result.tests)
            × (r.failed_tests ≡ count_if is_failed result.tests)
            × (r.skipped_tests ≡ count_if is_skipped result.tests))
  unfolding collect_artifacts artifacts generate_basic_report
  collect_artifacts-AreStored evaluation problem result context s s' path h =
      let (same, rows) =
        put_all-AreStored evaluation problem (artifacts result context) s s' path h in
      (
        same,
        rows.0,
        rows.1.0,
        rows.1.1.0,
        rows.1.1.1.0,
        rows.1.1.1.1.0,
        (generate_basic_report result context, rows.1.1.1.1.1.0, refl, refl, refl, refl, refl),
      )
