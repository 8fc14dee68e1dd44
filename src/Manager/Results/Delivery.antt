-- ===== src/Manager/Results/Delivery.antt =====
-- What a successful `EvaluationManager.result` has done.
use agent_bench_x.Prelude.{
  ℕ, ◌≡◌, ◌<◌, inl, inr, String, true, none, some, List, [], ◌∷◌, ◌++◌, arith, Option-cases,
  find_first,
}
use agent_bench_x.Models.{
  RunnerJob, Worker, Submission, ProblemVersion, Evaluation, ResultInput, Settings, Moment,
}
use agent_bench_x.Manager.Tables.{
  Tables, Notice, ok, Result-cases, get_submission, of_job, put_job, insert_jobs,
}
use agent_bench_x.Manager.Lease.{owned_job, require_live}
use agent_bench_x.Manager.Lease.Fence.{IsLive, require_live-eq-ok}
use agent_bench_x.Manager.Results.{
  Admission, replay, accept, admit, evaluation_of, finished_job, result_retry, record_result,
}

module _ (settings : Settings) (sha256 : String → String) (uid : ℕ → ℕ) (now : ℕ → Moment) where
  -- The handler goes on only with a job that the worker owns.
  pub admit-owned :
      (worker : Worker) (id : ℕ) (input : ResultInput) (db : Tables) (a : Admission)
      → admit settings sha256 uid now worker id input db ≡ ok a
      → (job : RunnerJob) × (owned_job worker id input.lease_token true (now 0) db ≡ ok job)
  unfolding admit
  admit-owned worker id input db a h =
      elim (Result-cases (owned_job worker id input.lease_token true (now 0) db)) [
        | inl (job, e) ↦ (job, e)
        | inr (raised, e) ↦ absurd (ground arith)
      ]

  pub admit-replay :
      (worker : Worker) (id : ℕ) (input : ResultInput) (db : Tables) (job : RunnerJob)
      (previous : Evaluation)
      → owned_job worker id input.lease_token true (now 0) db ≡ ok job
      → find_first (of_job job.id) db.evaluations ≡ some previous
      → admit settings sha256 uid now worker id input db ≡ ok (replay previous)
  unfolding admit
  admit-replay worker id input db job previous h e = ground arith

  pub admit-replayed :
      (worker : Worker) (id : ℕ) (input : ResultInput) (db : Tables) (job : RunnerJob)
      (previous : Evaluation)
      → owned_job worker id input.lease_token true (now 0) db ≡ ok job
      → admit settings sha256 uid now worker id input db ≡ ok (replay previous)
      → find_first (of_job job.id) db.evaluations ≡ some previous
  unfolding admit
  admit-replayed worker id input db job previous e h =
      elim (Option-cases (find_first (of_job job.id) db.evaluations)) [
        | inl p ↦ absurd (ground arith)
        | inr (found, p) ↦ ground arith
      ]

  pub admit-accept :
      (worker : Worker) (id : ℕ) (input : ResultInput) (db : Tables) (job : RunnerJob)
      (submission : Submission) (problem : ProblemVersion)
      → admit settings sha256 uid now worker id input db ≡ ok (accept job submission problem)
      → (owned_job worker id input.lease_token true (now 0) db ≡ ok job)
        × (find_first (of_job job.id) db.evaluations ≡ none)
        × IsLive job (now 1)
        × (get_submission job.submission_id db ≡ some submission)
  unfolding admit
  admit-accept worker id input db job submission problem h =
      let (row, e) = admit-owned worker id input db (accept job submission problem) h in
      elim (Option-cases (find_first (of_job row.id) db.evaluations)) [
        | inr (previous, p) ↦ absurd (ground arith)
        | inl p ↦
            elim (Result-cases (require_live row (now 1) "Stale result; lease no longer valid")) [
              | inr (raised, q) ↦ absurd (ground arith)
              | inl (same, q) ↦ admitted row same e p q
            ]
      ]
    where
      admitted :
          (row same : RunnerJob)
          → owned_job worker id input.lease_token true (now 0) db ≡ ok row
          → find_first (of_job row.id) db.evaluations ≡ none
          → require_live row (now 1) "Stale result; lease no longer valid" ≡ ok same
          → (owned_job worker id input.lease_token true (now 0) db ≡ ok job)
            × (find_first (of_job job.id) db.evaluations ≡ none)
            × IsLive job (now 1)
            × (get_submission job.submission_id db ≡ some submission)
      admitted row same e p q =
          let (_, live) =
            require_live-eq-ok row same (now 1) "Stale result; lease no longer valid" q in
          let is_row : row ≡ job = ground arith in rw (← is_row) (e, p, live, ground arith)

  -- What the transaction has written.
  pub record_result-writes :
      (worker : Worker) (job : RunnerJob) (submission : Submission) (input : ResultInput)
      (path : ℕ × ℕ) (db db' : Tables) (evaluation : Evaluation) (ns : List Notice)
      → record_result settings sha256 uid now worker job submission input path db
        ≡ ok (evaluation, db', ns)
      → ((t : Moment) × (job.lease_expires_at ≡ some t) × (now 2 < t))
        × (evaluation ≡ evaluation_of settings sha256 uid now worker job submission input path)
        × (insert_jobs
              (put_job (finished_job settings sha256 uid now job input) db.jobs)
              (result_retry settings sha256 uid now job submission input)
            ≡ ok db'.jobs)
        × (db'.evaluations ≡ db.evaluations ++ evaluation ∷ [])
        × (db'.submissions ≡ db.submissions)
  unfolding record_result
  record_result-writes worker job submission input path db db' evaluation ns h =
      elim (Option-cases job.lease_expires_at) [
        | inl e ↦ absurd (ground arith)
        | inr (t, e) ↦ elim (Result-cases (insert_jobs (put_job finished db.jobs) retries)) [
          | inr (raised, i) ↦ absurd (ground arith)
          | inl (jobs, i) ↦
              ((t, e, ground arith), ground arith, ground arith, ground arith, ground arith)
        ]
      ]
    where
      finished : RunnerJob
      finished = finished_job settings sha256 uid now job input

      retries : List RunnerJob
      retries = result_retry settings sha256 uid now job submission input
