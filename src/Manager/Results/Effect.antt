-- ===== src/Manager/Results/Effect.antt =====
-- The whole handler `EvaluationManager.result`: what it writes, its replay, and its consistency.
use agent_bench_x.Prelude.{
  ℕ, ◌≡◌, ◌<◌, ◌⊎◌, inl, inr, String, true, Option, none, some, List, [], ◌∷◌, ◌++◌, arith, sym,
  refl, ==→≡, ◌==◌, find_first, find_first-passes,
}
use agent_bench_x.Models.{
  StorageKey, RunnerJob, Worker, Submission, ProblemVersion, Evaluation, ResultInput, Settings,
  Moment,
}
use agent_bench_x.Manager.Tables.{
  Tables, Notice, Result, ◌>>=◌, ok, err, of_job, get_job, put_job, insert_jobs,
}
use agent_bench_x.Manager.Lease.{owns, owned_job}
use agent_bench_x.Manager.Lease.Fence.{IsLive, owned_job-found}
use agent_bench_x.Artifacts.{Content, collect_artifacts}
use agent_bench_x.Manager.Results.{
  Admission, replay, accept, admit, evaluation_of, finished_job, result_retry, record_result,
  deliver, result, context_of,
}
use agent_bench_x.Manager.Results.Delivery.{
  admit-owned, admit-replayed, admit-accept, record_result-writes,
}

module _ (settings : Settings) (sha256 : String → String) (uid : ℕ → ℕ) (now : ℕ → Moment) where
  -- A delivery that is accepted: the job that it ends, under a lease that is live before and after
  -- the upload, and the rows that it writes.
  pub record Accepted (worker : Worker) (id : ℕ) (input : ResultInput) (db db' : Tables)
      (evaluation : Evaluation) : Type 0 where
    pub job : RunnerJob
    pub submission : Submission
    pub path : ℕ × ℕ
    pub at : get_job id db ≡ some job
    pub mine : owns worker input.lease_token job ≡ true
    pub fresh : find_first (of_job job.id) db.evaluations ≡ none
    pub live : IsLive job (now 1)
    pub of_submission : job.submission_id ≡ submission.id
    pub still_live : (t : Moment) × (job.lease_expires_at ≡ some t) × (now 2 < t)
    pub evaluated :
        evaluation ≡ evaluation_of settings sha256 uid now worker job submission input path
    pub jobs :
        insert_jobs
          (put_job (finished_job settings sha256 uid now job input) db.jobs)
          (result_retry settings sha256 uid now job submission input)
        ≡ ok db'.jobs
    pub evaluations : db'.evaluations ≡ db.evaluations ++ evaluation ∷ []
    pub submissions : db'.submissions ≡ db.submissions

  module _ {S : Type 0} (put : StorageKey → Content → S → Option S) where
    -- A delivery that succeeds is a replay, which writes nothing, or it is accepted.
    pub result-cases :
        (worker : Worker) (id : ℕ) (input : ResultInput) (db db' : Tables) (objects : S)
        (evaluation : Evaluation) (ns : List Notice)
        → (result settings sha256 uid now put worker id input db objects).0
          ≡ ok (evaluation, db', ns)
        → ((job : RunnerJob) × (owned_job worker id input.lease_token true (now 0) db ≡ ok job)
            × (find_first (of_job job.id) db.evaluations ≡ some evaluation)
            × (db' ≡ db)
            × (ns ≡ []))
          ⊎ Accepted worker id input db db' evaluation
    unfolding result
    result-cases worker id input db db' objects evaluation ns h =
        split (admit settings sha256 uid now worker id input db) refl h
      where
        uploaded : RunnerJob → ProblemVersion → Result (ℕ × ℕ) × S
        uploaded job problem =
            collect_artifacts put (uid 0) problem.problem_id input (context_of worker job problem)
              objects

        written :
            (job : RunnerJob) (submission : Submission) (problem : ProblemVersion)
            → admit settings sha256 uid now worker id input db ≡ ok (accept job submission problem)
            → (r : Result (ℕ × ℕ))
            → (r >>= (λ path.
                record_result settings sha256 uid now worker job submission input path db))
              ≡ ok (evaluation, db', ns)
            → Accepted worker id input db db' evaluation
        written job submission problem e (err raised) w = absurd (ground arith)
        written job submission problem e (ok path) w =
            let (passed, fresh, live, sub) =
              admit-accept settings sha256 uid now worker id input db job submission problem e in
            let (at, mine, _) =
              owned_job-found worker id input.lease_token true (now 0) db job passed in
            let (still, evaluated, jobs, evaluations, submissions) =
              record_result-writes settings sha256 uid now worker job submission input path db db'
                evaluation ns w in
            record {
              job = job;
              submission = submission;
              path = path;
              at = at;
              mine = mine;
              fresh = fresh;
              live = live;
              of_submission = sym (
                  ==→≡ submission.id job.submission_id (
                    find_first-passes (λ s. s.id == job.submission_id) db.submissions submission
                      sub));
              still_live = still;
              evaluated = evaluated;
              jobs = jobs;
              evaluations = evaluations;
              submissions = submissions;
            }

        split :
            (r : Result Admission)
            → admit settings sha256 uid now worker id input db ≡ r
            → (deliver settings sha256 uid now put worker input db objects r).0
              ≡ ok (evaluation, db', ns)
            → ((job : RunnerJob) × (owned_job worker id input.lease_token true (now 0) db ≡ ok job)
                × (find_first (of_job job.id) db.evaluations ≡ some evaluation)
                × (db' ≡ db)
                × (ns ≡ []))
              ⊎ Accepted worker id input db db' evaluation
        split (err raised) e w = absurd (ground arith)
        split (ok (replay previous)) e w =
            let (job, passed) =
              admit-owned settings sha256 uid now worker id input db (replay previous) e in
            let found =
              admit-replayed settings sha256 uid now worker id input db job previous passed e in
            inl (job, passed, ground arith, ground arith, ground arith)
        split (ok (accept job submission problem)) e w =
            inr (written job submission problem e (uploaded job problem).0 w)
