-- ===== src/Manager/Results/Consistency.antt =====
-- `EvaluationManager.result` keeps the tables consistent.
use mathlib.Core.List.{append-nil}
use agent_bench_x.Prelude.{
  ℕ, ◌+◌, ◌≤◌, ◌≡◌, inl, inr, String, true, Option, some, List, [], ◌∷◌, ◌&&◌, arith, sym, refl,
  Bool-cases, ltb, find_first, count_if, find_first-none, find_first-replace_first,
  count_if-replace_first, find_first-counted,
}
use agent_bench_x.Models.{
  StorageKey, RunnerJob, Worker, Evaluation, ResultInput, Settings, Moment, is_active,
}
use agent_bench_x.Manager.Tables.{
  Tables, Notice, ok, of_job, get_job_self, put_job, insert_jobs, insert_jobs-append,
  insert_jobs-head, has_id, is_active_of, new_job,
}
use agent_bench_x.Manager.Invariant.{
  IsConsistent, Consistent, IsUpdate, IsNext, put_job-IsConsistent, append-IsConsistent,
  evaluate-IsConsistent, put_job-last, put_job-ended, put_job-closed,
}
use agent_bench_x.Manager.Links.{IsLinked, put_job-IsLinked, append-IsLinked}
use agent_bench_x.Artifacts.{Content}
use agent_bench_x.Manager.Results.{finished_job, is_infrastructure, result}
use agent_bench_x.Manager.Results.Effect.{Accepted, result-cases}

module _ (settings : Settings) (sha256 : String → String) (uid : ℕ → ℕ) (now : ℕ → Moment) where
  finished_job-IsUpdate :
      (job : RunnerJob) (input : ResultInput)
      → is_active job.status ≡ true
      → IsUpdate job (finished_job settings sha256 uid now job input)
  finished_job-IsUpdate job input active = ground arith

  -- The tables after an accepted delivery, less the retry.
  module _ (limit : ℕ) (worker : Worker) (id : ℕ) (input : ResultInput) (db db' : Tables)
      (evaluation : Evaluation) (v : Consistent limit db)
      (a : Accepted settings sha256 uid now worker id input db db' evaluation) where
    abbrev finished : RunnerJob
    finished = finished_job settings sha256 uid now a.job input

    abbrev ended_jobs : List RunnerJob
    ended_jobs = put_job finished db.jobs

    at : find_first (has_id a.job.id) db.jobs ≡ some a.job
    at = get_job_self id db a.job a.at

    update : IsUpdate a.job finished
    update = finished_job-IsUpdate a.job input a.live.1

    ended-one_active : (w : ℕ) → count_if (is_active_of w) ended_jobs ≤ 1
    ended-one_active w = ground (
      arith,
      v.one_active w,
      count_if-replace_first (is_active_of w) (has_id a.job.id) finished a.job db.jobs at,
    )

    ended-IsConsistent : IsConsistent limit ended_jobs db.evaluations
    ended-IsConsistent =
        put_job-IsConsistent limit db.jobs db.evaluations v a.job finished at update
          ended-one_active

    job-counted : 1 ≤ count_if (has_id a.job.id) ended_jobs
    job-counted = ground (
      arith,
      find_first-counted (has_id a.job.id) (has_id a.job.id) db.jobs a.job at,
      count_if-replace_first (has_id a.job.id) (has_id a.job.id) finished a.job db.jobs at,
    )

    evaluated-IsConsistent : IsConsistent limit ended_jobs db'.evaluations
    evaluated-IsConsistent = rw a.evaluations (
        evaluate-IsConsistent limit ended_jobs db.evaluations ended-IsConsistent evaluation
          (rw a.evaluated (
            put_job-closed limit db.jobs db.evaluations v a.job finished at update
              (ground (arith, a.live)) (ground arith)))
          (rw a.evaluated (find_first-none (of_job a.job.id) db.evaluations a.fresh))
          (rw a.evaluated job-counted))

    retried_IsNext :
        ltb a.job.attempt settings.max_attempts ≡ true
        → settings.max_attempts ≤ limit
        → count_if (has_id (uid 1)) ended_jobs ≡ 0
        → IsNext limit ended_jobs (uid 1) a.submission.id (a.job.attempt + 1)
    retried_IsNext left within fresh = rw (← a.of_submission) (record {
      fresh = fresh;
      last = λ b h.
          put_job-last limit db.jobs db.evaluations v a.job finished at update
            (ground (arith, a.live)) (ground arith) b (omega arith);
      ended =
          put_job-ended limit db.jobs db.evaluations v a.job finished at update
            (ground (arith, a.live)) (ground arith);
      within = ground arith;
    })

    accepted-Consistent : settings.max_attempts ≤ limit → Consistent limit db'
    accepted-Consistent within =
        elim (Bool-cases
          (is_infrastructure input.failure_type && ltb a.job.attempt settings.max_attempts)) [
            | inr stays ↦
                let same : insert_jobs ended_jobs [] ≡ ok db'.jobs = rw stays at a.jobs in
                rw (insert_jobs-append ended_jobs [] db'.jobs same, append-nil ended_jobs)
                  evaluated-IsConsistent
            | inl again ↦
                let new = new_job (uid 1) a.submission.id (a.job.attempt + 1) (now 5) in
                let added : insert_jobs ended_jobs (new ∷ []) ≡ ok db'.jobs = rw again at a.jobs in
                let fresh =
                  find_first-none (has_id (uid 1)) ended_jobs
                    (insert_jobs-head ended_jobs [] db'.jobs new added).0 in
                rw (insert_jobs-append ended_jobs (new ∷ []) db'.jobs added) (
                  append-IsConsistent limit ended_jobs db'.evaluations evaluated-IsConsistent
                    (uid 1) a.submission.id (a.job.attempt + 1) (now 5)
                    (retried_IsNext (ground arith) within fresh))
          ]

    ended-IsLinked : IsLinked db.submissions db.jobs → IsLinked db.submissions ended_jobs
    ended-IsLinked l = put_job-IsLinked db.submissions db.jobs a.job finished l at refl

    accepted-IsLinked : IsLinked db.submissions db.jobs → IsLinked db'.submissions db'.jobs
    accepted-IsLinked l =
        rw a.submissions
          (elim (Bool-cases
            (is_infrastructure input.failure_type && ltb a.job.attempt settings.max_attempts)) [
              | inr stays ↦
                  let same : insert_jobs ended_jobs [] ≡ ok db'.jobs = rw stays at a.jobs in
                  rw (insert_jobs-append ended_jobs [] db'.jobs same, append-nil ended_jobs)
                    (ended-IsLinked l)
              | inl again ↦
                  let new = new_job (uid 1) a.submission.id (a.job.attempt + 1) (now 5) in
                  let added : insert_jobs ended_jobs (new ∷ []) ≡ ok db'.jobs =
                    rw again at a.jobs in
                  rw (insert_jobs-append ended_jobs (new ∷ []) db'.jobs added) (
                    append-IsLinked db.submissions ended_jobs finished new a.job.id
                      (ended-IsLinked l)
                      (find_first-replace_first (has_id a.job.id) finished a.job db.jobs at
                        (ground arith))
                      (sym a.of_submission))
            ])

  module _ {S : Type 0} (put : StorageKey → Content → S → Option S) where
    -- With settings that keep the limit on attempts, a delivery that succeeds keeps the tables
    -- consistent, whether it is a replay or is accepted, and whether it adds a retry or not.
    pub result-Consistent :
        (limit : ℕ) (worker : Worker) (id : ℕ) (input : ResultInput) (db db' : Tables) (objects : S)
        (evaluation : Evaluation) (ns : List Notice)
        → settings.max_attempts ≤ limit
        → Consistent limit db
        → (result settings sha256 uid now put worker id input db objects).0
          ≡ ok (evaluation, db', ns)
        → Consistent limit db'
    result-Consistent limit worker id input db db' objects evaluation ns within v h =
        elim (result-cases settings sha256 uid now put worker id input db db' objects evaluation ns
          h) [
            | inl (job, passed, found, same, quiet) ↦ rw same v
            | inr a ↦ accepted-Consistent limit worker id input db db' evaluation v a within
          ]

    -- A delivery leaves every job in its submission.
    pub result-IsLinked :
        (limit : ℕ) (worker : Worker) (id : ℕ) (input : ResultInput) (db db' : Tables) (objects : S)
        (evaluation : Evaluation) (ns : List Notice)
        → Consistent limit db
        → IsLinked db.submissions db.jobs
        → (result settings sha256 uid now put worker id input db objects).0
          ≡ ok (evaluation, db', ns)
        → IsLinked db'.submissions db'.jobs
    result-IsLinked limit worker id input db db' objects evaluation ns v l h =
        elim (result-cases settings sha256 uid now put worker id input db db' objects evaluation ns
          h) [
            | inl (job, passed, found, same, quiet) ↦ rw same l
            | inr a ↦ accepted-IsLinked limit worker id input db db' evaluation v a l
          ]
