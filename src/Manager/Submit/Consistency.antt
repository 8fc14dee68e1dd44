-- ===== src/Manager/Submit/Consistency.antt =====
-- `EvaluationManager.submit` keeps the tables consistent.
use agent_bench_x.Prelude.{
  ℕ, suc, ◌+◌, ◌*◌, ◌≤◌, ◌≡◌, refl, inl, inr, Bool, none, List, [], ◌∷◌, ◌++◌, arith, find_first,
  count_if, find_first-none, count_if_mono, Option-cases,
}
use agent_bench_x.Models.{RunnerJob, Submission, ProblemVersion, Evaluation, Moment}
use agent_bench_x.Manager.Tables.{
  Tables, Notice, ok, Result-cases, has_id, is_attempt, insert_jobs, insert_jobs-head,
  get_agent_version,
}
use agent_bench_x.Manager.Invariant.{
  IsConsistent, Consistent, IsNext, is_open_attempt, append-IsConsistent,
}
use agent_bench_x.Manager.Links.{IsLinked, is_submission, of_submission, submit-IsLinked}
use agent_bench_x.Manager.Submit.{
  new_submissions, new_jobs, insert_submissions, require_problems, fromkeys, any_not_ready, submit,
}

insert_submissions-head :
    (rows rest rows' : List Submission) (s : Submission)
    → insert_submissions rows (s ∷ rest) ≡ ok rows'
    → (find_first (is_submission s.id) rows ≡ none)
      × (insert_submissions (rows ++ s ∷ []) rest ≡ ok rows')
unfolding insert_submissions
insert_submissions-head rows rest rows' s h = (ground arith, ground arith)

-- A submission that is not in the table has no job yet.
first_IsNext :
    (limit id s : ℕ) (rows : List Submission) (jobs : List RunnerJob)
    → 1 ≤ limit
    → IsLinked rows jobs
    → find_first (is_submission s) rows ≡ none
    → find_first (has_id id) jobs ≡ none
    → IsNext limit jobs id s 1
first_IsNext limit id s rows jobs within l new_submission new_id = record {
  fresh = find_first-none (has_id id) jobs new_id;
  last = λ b h. ground (
    arith,
    unused,
    count_if_mono (is_attempt s b) (of_submission s) jobs (λ job t. ground arith),
  );
  ended = λ b. ground (
    arith,
    unused,
    count_if_mono (is_open_attempt s b) (of_submission s) jobs (λ job t. ground arith),
  );
  within = within;
}
  where
    unused : count_if (of_submission s) jobs ≡ 0
    unused = l s (find_first-none (is_submission s) rows new_submission)

module _ (uid : ℕ → ℕ) (now : ℕ → Moment) (limit : ℕ) (within : 1 ≤ limit) where
  rounds-IsConsistent :
      (evaluations : List Evaluation) (agent k : ℕ) (problems : List ProblemVersion)
      (rows rows' : List Submission) (jobs jobs' : List RunnerJob)
      → insert_submissions rows (new_submissions uid now k agent problems) ≡ ok rows'
      → insert_jobs jobs (new_jobs uid now k problems) ≡ ok jobs'
      → IsConsistent limit jobs evaluations
      → IsLinked rows jobs
      → IsConsistent limit jobs' evaluations × IsLinked rows' jobs'
  unfolding new_submissions new_jobs insert_submissions insert_jobs
  rounds-IsConsistent evaluations agent k [] rows rows' jobs jobs' hs hj v l =
      let same_rows : rows ≡ rows' = ground arith in
      let same_jobs : jobs ≡ jobs' = ground arith in rw (← same_rows, ← same_jobs) (v, l)
  rounds-IsConsistent evaluations agent k (p ∷ ps) rows rows' jobs jobs' hs hj v l =
      let (new_submission, hs') = insert_submissions-head rows _ rows' _ hs in
      let (new_id, hj') = insert_jobs-head jobs _ jobs' _ hj in
      rounds-IsConsistent evaluations agent (suc k) ps _ rows' _ jobs' hs' hj'
        (append-IsConsistent limit jobs evaluations v (uid (2 * k + 1)) (uid (2 * k)) 1 (now k) (
          first_IsNext limit (uid (2 * k + 1)) (uid (2 * k)) rows jobs within l new_submission
            new_id))
        (submit-IsLinked rows jobs _ _ l refl)

  -- What a submission that succeeds has written.
  pub record Submitted (agent : ℕ) (ids : List ℕ) (db db' : Tables) (submissions : List Submission)
      : Type 0 where
    pub problems : List ProblemVersion
    pub found : require_problems db (fromkeys ids) ≡ ok problems
    pub ready : any_not_ready problems ≡ Bool.false
    pub returned : submissions ≡ new_submissions uid now 0 agent problems
    pub rows : insert_submissions db.submissions submissions ≡ ok db'.submissions
    pub jobs : insert_jobs db.jobs (new_jobs uid now 0 problems) ≡ ok db'.jobs
    pub evaluations : db'.evaluations ≡ db.evaluations

  pub submit-writes :
      (agent : ℕ) (ids : List ℕ) (db db' : Tables) (submissions : List Submission)
      (ns : List Notice)
      → submit uid now agent ids db ≡ ok (submissions, db', ns)
      → Submitted agent ids db db' submissions
  unfolding submit
  submit-writes agent ids db db' submissions ns h =
      elim (Option-cases (get_agent_version agent db)) [
        | inl e ↦ absurd (ground arith)
        | inr (version, e) ↦ elim (Result-cases (require_problems db (fromkeys ids))) [
          | inr (raised, p) ↦ absurd (ground arith)
          | inl (problems, p) ↦
              elim (Result-cases
                (insert_submissions db.submissions (new_submissions uid now 0 agent problems))) [
                  | inr (raised, q) ↦ absurd (ground arith)
                  | inl (rows, q) ↦
                      elim (Result-cases (insert_jobs db.jobs (new_jobs uid now 0 problems))) [
                        | inr (raised, r) ↦ absurd (ground arith)
                        | inl (jobs, r) ↦ record {
                          problems = problems;
                          found = p;
                          ready = ground arith;
                          returned = ground arith;
                          rows = ground arith;
                          jobs = ground arith;
                          evaluations = ground arith;
                        }
                      ]
                ]
        ]
      ]

  -- A submission that succeeds keeps the tables consistent, for a limit of at least one attempt,
  -- and each job in a submission.
  pub submit-Consistent :
      (agent : ℕ) (ids : List ℕ) (db db' : Tables) (submissions : List Submission)
      (ns : List Notice)
      → Consistent limit db
      → IsLinked db.submissions db.jobs
      → submit uid now agent ids db ≡ ok (submissions, db', ns)
      → Consistent limit db' × IsLinked db'.submissions db'.jobs
  submit-Consistent agent ids db db' submissions ns v l h =
      let w = submit-writes agent ids db db' submissions ns h in
      rw w.evaluations (
        rounds-IsConsistent db.evaluations agent 0 w.problems db.submissions db'.submissions db.jobs
          db'.jobs (rw w.returned at w.rows) w.jobs v l)
