-- ===== src/Manager/Results/Replay.antt =====
-- A worker may lose the response to a delivery and deliver again: `EvaluationManager.result` is
-- idempotent. And a delivery that does not own a live lease stores nothing.
use agent_bench_x.Prelude.{
  ℕ, ◌≡◌, inl, inr, String, true, Option, some, List, [], ◌∷◌, ◌&&◌, ◌⊎◌, arith, subst, refl, ==→≡,
  find_first, find_first-passes, find_first-append_left, find_first-append_right,
  find_first-replace_first, find_first-counted,
}
use agent_bench_x.Models.{
  StorageKey, RunnerJob, Worker, Evaluation, ResultInput, Settings, Moment, ResultStatus,
  is_terminal, job_status,
}
use agent_bench_x.Manager.Tables.{
  Tables, Notice, ok, of_job, get_job, get_job_self, put_job, insert_jobs-append, has_id,
}
use agent_bench_x.Manager.Invariant.{Consistent, is_open_id}
use agent_bench_x.Manager.Lease.{owns}
use agent_bench_x.Manager.Lease.Fence.{IsLive, owned_job-found, owned_job-passes}
use agent_bench_x.Artifacts.{Content}
use agent_bench_x.Manager.Results.{finished_job, result}
use agent_bench_x.Manager.Results.Delivery.{admit-replay}
use agent_bench_x.Manager.Results.Effect.{Accepted, result-cases}

module _ (settings : Settings) (sha256 : String → String) (uid : ℕ → ℕ) (now : ℕ → Moment)
    {S : Type 0} (put : StorageKey → Content → S → Option S) where
  -- A job that has ended and that is evaluated replays its evaluation.
  result-replays :
      (worker : Worker) (id : ℕ) (input : ResultInput) (db : Tables) (objects : S) (job : RunnerJob)
      (evaluation : Evaluation)
      → get_job id db ≡ some job
      → owns worker input.lease_token job ≡ true
      → is_terminal job.status ≡ true
      → find_first (of_job job.id) db.evaluations ≡ some evaluation
      → result settings sha256 uid now put worker id input db objects
        ≡ (ok (evaluation, db, []), objects)
  unfolding result
  result-replays worker id input db objects job evaluation at mine ended found =
      let passed =
        owned_job-passes worker id input.lease_token true (now 0) db job at mine (inl ended) in
      rw (admit-replay settings sha256 uid now worker id input db job evaluation passed found)

last :
    (i : ℕ) (evaluation : Evaluation)
    → evaluation.job_id ≡ i
    → find_first (of_job i) (evaluation ∷ []) ≡ some evaluation
unfolding find_first
last i evaluation h = ground arith

job_status-ended : (s : ResultStatus) → is_terminal (job_status s) ≡ true
job_status-ended s = ground arith

-- In consistent tables an evaluated job has ended.
evaluated-ended :
    (limit : ℕ) (db : Tables) (v : Consistent limit db) (id : ℕ) (t : Moment) (job : RunnerJob)
    (evaluation : Evaluation)
    → get_job id db ≡ some job
    → find_first (of_job job.id) db.evaluations ≡ some evaluation
    → ((true && is_terminal job.status) ≡ true) ⊎ IsLive job t
    → is_terminal job.status ≡ true
evaluated-ended limit db v id t job evaluation at found (inl ended) = ended
evaluated-ended limit db v id t job evaluation at found (inr live) = absurd (
    ground (
      arith,
      live.1,
      v.unevaluated job.id,
      find_first-counted (has_id job.id) (is_open_id job.id) db.jobs job
          (get_job_self id db job at),
      find_first-counted (of_job job.id) (of_job job.id) db.evaluations evaluation found,
      find_first-passes (of_job job.id) db.evaluations evaluation found,
    ))

module _ (settings : Settings) (sha256 : String → String) where
  -- The row of an accepted delivery, read back.
  Accepted-job :
      (uid : ℕ → ℕ) (now : ℕ → Moment) (worker : Worker) (id : ℕ) (input : ResultInput)
      (db db' : Tables) (evaluation : Evaluation)
      (a : Accepted settings sha256 uid now worker id input db db' evaluation)
      → get_job id db' ≡ some (finished_job settings sha256 uid now a.job input)
  Accepted-job uid now worker id input db db' evaluation a =
      let finished = finished_job settings sha256 uid now a.job input in
      let same : a.job.id ≡ id =
        ==→≡ a.job.id id (find_first-passes (has_id id) db.jobs a.job a.at) in
      let written =
        find_first-replace_first (has_id a.job.id) finished a.job db.jobs
          (get_job_self id db a.job a.at) (ground arith) in
      subst (λ k. find_first (has_id k) db'.jobs ≡ some finished) same
        (rw (insert_jobs-append (put_job finished db.jobs) _ db'.jobs a.jobs)
          (find_first-append_left (has_id a.job.id) (put_job finished db.jobs) _ finished written))

  Accepted-evaluation :
      (uid : ℕ → ℕ) (now : ℕ → Moment) (worker : Worker) (id : ℕ) (input : ResultInput)
      (db db' : Tables) (evaluation : Evaluation)
      (a : Accepted settings sha256 uid now worker id input db db' evaluation)
      → find_first (of_job a.job.id) db'.evaluations ≡ some evaluation
  Accepted-evaluation uid now worker id input db db' evaluation a =
      rw
        (
          a.evaluations,
          find_first-append_right (of_job a.job.id) db.evaluations (evaluation ∷ []) a.fresh,
        )
        (last a.job.id evaluation (rw a.evaluated refl))

  -- What an accepted or replayed delivery leaves behind: the job has ended, is still the worker's
  -- under its token, and has its evaluation.
  result-leaves :
      {S : Type 0} (put : StorageKey → Content → S → Option S) (limit : ℕ) (uid : ℕ → ℕ)
      (now : ℕ → Moment) (worker : Worker) (id : ℕ) (input : ResultInput) (db db' : Tables)
      (objects : S) (evaluation : Evaluation) (ns : List Notice)
      → Consistent limit db
      → (result settings sha256 uid now put worker id input db objects).0 ≡ ok (evaluation, db', ns)
      → (job : RunnerJob) × (get_job id db' ≡ some job)
        × (owns worker input.lease_token job ≡ true)
        × (is_terminal job.status ≡ true)
        × (find_first (of_job job.id) db'.evaluations ≡ some evaluation)
  result-leaves put limit uid now worker id input db db' objects evaluation ns v h =
      elim (result-cases settings sha256 uid now put worker id input db db' objects evaluation ns
        h) [
          | inl (job, passed, found, same, _) ↦
              let (at, mine, state) =
                owned_job-found worker id input.lease_token true (now 0) db job passed in
              let ended = evaluated-ended limit db v id (now 0) job evaluation at found state in
              rw same (job, at, mine, ended, found)
          | inr a ↦ (
            finished_job settings sha256 uid now a.job input,
            Accepted-job uid now worker id input db db' evaluation a,
            a.mine,
            job_status-ended input.status,
            Accepted-evaluation uid now worker id input db db' evaluation a,
          )
        ]

  -- Deliveries are idempotent. After a delivery to consistent tables has succeeded, the same worker,
  -- whatever its row says by then, gets the same evaluation back when it delivers again for the same
  -- job under the same token, whatever else it sends: no table changes, nothing is stored and no
  -- notice goes out. Other transactions may have run in between, as long as they have kept the row
  -- of the job and the first evaluation of each job.
  pub result_idempotent :
      {S : Type 0} (put : StorageKey → Content → S → Option S) (limit : ℕ) (uid uid' : ℕ → ℕ)
      (now now' : ℕ → Moment) (worker worker' : Worker) (id : ℕ) (input input' : ResultInput)
      (db db' later : Tables) (objects objects' : S) (evaluation : Evaluation) (ns : List Notice)
      → Consistent limit db
      → (result settings sha256 uid now put worker id input db objects).0 ≡ ok (evaluation, db', ns)
      → worker'.id ≡ worker.id
      → input'.lease_token ≡ input.lease_token
      → get_job id later ≡ get_job id db'
      → ((i : ℕ) (e : Evaluation)
          → find_first (of_job i) db'.evaluations ≡ some e
          → find_first (of_job i) later.evaluations ≡ some e)
      → result settings sha256 uid' now' put worker' id input' later objects'
        ≡ (ok (evaluation, later, []), objects')
  result_idempotent put limit uid uid' now now' worker worker' id input input' db db' later objects
        objects' evaluation ns v h same_worker same_token kept evaluated =
      let (job, at, mine, ended, found) =
        result-leaves put limit uid now worker id input db db' objects evaluation ns v h in
      let mine' : owns worker' input'.lease_token job ≡ true = rw (same_worker, same_token) mine in
      result-replays settings sha256 uid' now' put worker' id input' later objects' job evaluation
        (rw kept at) mine' ended (evaluated job.id evaluation found)
