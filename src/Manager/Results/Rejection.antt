-- ===== src/Manager/Results/Rejection.antt =====
-- Deliveries that `EvaluationManager.result` refuses.
use agent_bench_x.Prelude.{
  ℕ, ◌≤◌, ◌≡◌, inl, inr, String, Bool, true, false, Option, none, some, ◌⊎◌, arith, refl,
  find_first, Bool-cases,
}
use agent_bench_x.Models.{
  StorageKey, RunnerJob, Worker, Submission, ProblemVersion, ResultInput, Settings, Moment,
  is_active,
}
use agent_bench_x.Manager.Tables.{Tables, Result, ok, err, ◌>>=◌, Result-cases, of_job, get_job}
use agent_bench_x.Manager.Lease.{owns, owned_job, require_live}
use agent_bench_x.Manager.Lease.Fence.{IsOwnedBy, owns_iff}
use agent_bench_x.Artifacts.{Content, collect_artifacts}
use agent_bench_x.Manager.Results.{accept, admit, record_result, context_of, result}

abbrev pub is_err {ℓ} : {A : Type ℓ} → Result A → Bool
is_err (ok a) = false
is_err (err e) = true

module _ (settings : Settings) (sha256 : String → String) (uid : ℕ → ℕ) (now : ℕ → Moment)
    {S : Type 0} (put : StorageKey → Content → S → Option S) where
  result-fenced :
      (worker : Worker) (id : ℕ) (input : ResultInput) (db : Tables) (objects : S)
      → is_err (admit settings sha256 uid now worker id input db) ≡ true
      → (is_err (result settings sha256 uid now put worker id input db objects).0 ≡ true)
        × ((result settings sha256 uid now put worker id input db objects).1 ≡ objects)
  unfolding result
  result-fenced worker id input db objects h =
      elim (Result-cases (admit settings sha256 uid now worker id input db)) [
        | inl (a, e) ↦ absurd (ground arith)
        | inr (raised, e) ↦ rw e (refl, refl)
      ]

  admit-refuses :
      (worker : Worker) (id : ℕ) (input : ResultInput) (db : Tables) (job : RunnerJob)
      → get_job id db ≡ some job
      → (owns worker input.lease_token job ≡ false)
        ⊎ ((find_first (of_job job.id) db.evaluations ≡ none)
            × ((is_active job.status ≡ false)
                ⊎ ((t : Moment) × (job.lease_expires_at ≡ some t) × (t ≤ now 0))))
      → is_err (admit settings sha256 uid now worker id input db) ≡ true
  unfolding admit owned_job require_live
  admit-refuses worker id input db job at (inl stranger) = ground arith
  admit-refuses worker id input db job at (inr (fresh, inl ended)) = ground arith
  admit-refuses worker id input db job at (inr (fresh, inr (t, lease, over))) = ground arith

  -- A delivery is refused, and nothing is stored, if the job's row does not name this worker or its
  -- lease has another token, or if the job has no evaluation yet and has ended, is still queued, or its lease
  -- was over when the request arrived.
  pub result_refused :
      (worker : Worker) (id : ℕ) (input : ResultInput) (db : Tables) (objects : S) (job : RunnerJob)
      → get_job id db ≡ some job
      → (¬ IsOwnedBy worker input.lease_token job)
        ⊎ ((find_first (of_job job.id) db.evaluations ≡ none)
            × ((is_active job.status ≡ false)
                ⊎ ((t : Moment) × (job.lease_expires_at ≡ some t) × (t ≤ now 0))))
      → (is_err (result settings sha256 uid now put worker id input db objects).0 ≡ true)
        × ((result settings sha256 uid now put worker id input db objects).1 ≡ objects)
  result_refused worker id input db objects job at why = result-fenced worker id input db objects (
      admit-refuses worker id input db job at
        (elim why [ inl stranger ↦ inl (not_owned stranger) | inr late ↦ inr late ]))
    where
      not_owned :
          (¬ IsOwnedBy worker input.lease_token job) → owns worker input.lease_token job ≡ false
      not_owned stranger = elim (Bool-cases (owns worker input.lease_token job)) [
        | inl mine ↦ absurd (stranger ((owns_iff worker input.lease_token job).0 mine))
        | inr other ↦ other
      ]

  record_result-over :
      (worker : Worker) (job : RunnerJob) (submission : Submission) (input : ResultInput)
      (db : Tables) (r : Result (ℕ × ℕ))
      → (is_err r ≡ true) ⊎ ((t : Moment) × (job.lease_expires_at ≡ some t) × (t ≤ now 2))
      → is_err (
          r >>= (λ path. record_result settings sha256 uid now worker job submission input path db))
        ≡ true
  unfolding record_result
  record_result-over worker job submission input db (err raised) why = refl
  record_result-over worker job submission input db (ok path) (inl failed) = ground arith
  record_result-over worker job submission input db (ok path) (inr (t, lease, over)) = ground arith

  -- A delivery that was admitted is refused all the same if the storage of an artifact failed, even
  -- under a live lease, or if the lease was over once the artifacts were stored. The reply is then
  -- an error, which has no tables to commit, though the artifacts that were put stay stored.
  pub result_overrun :
      (worker : Worker) (id : ℕ) (input : ResultInput) (db : Tables) (objects : S) (job : RunnerJob)
      (submission : Submission) (problem : ProblemVersion)
      → admit settings sha256 uid now worker id input db ≡ ok (accept job submission problem)
      → (is_err
            (collect_artifacts put
              (uid 0)
              problem.problem_id
              input
              (context_of worker job problem)
              objects).0
          ≡ true)
        ⊎ ((t : Moment) × (job.lease_expires_at ≡ some t) × (t ≤ now 2))
      → (is_err (result settings sha256 uid now put worker id input db objects).0 ≡ true)
        × ((result settings sha256 uid now put worker id input db objects).1
            ≡ (collect_artifacts put
                (uid 0)
                problem.problem_id
                input
                (context_of worker job problem)
                objects).1)
  unfolding result
  result_overrun worker id input db objects job submission problem e why =
      rw e (record_result-over worker job submission input db _ why, refl)
