-- ===== src/Manager/Lease/Renewal.antt =====
-- What a successful job heartbeat has done, and that it keeps the tables consistent.
use agent_bench_x.Prelude.{
  ℕ, ◌+◌, ◌≤◌, ◌≡◌, true, false, some, List, refl, arith, inl, inr, find_first, count_if,
  count_if-replace_first,
}
use agent_bench_x.Models.{
  RunnerJob, Worker, JobHeartbeat, Settings, Moment, is_active, JobStatus, seconds,
}
use agent_bench_x.Manager.Tables.{
  Tables, Notice, ok, Result-cases, get_job_self, has_id, is_active_of, put_job, get_job,
}
use agent_bench_x.Manager.Invariant.{
  Consistent, IsUpdate, is_unleased, leased-found, put_job-IsConsistent,
}
use agent_bench_x.Manager.Links.{IsLinked, put_job-IsLinked}
use agent_bench_x.Manager.Lease.{owns, owned_job, renewed_job, heartbeat, or_else}
use agent_bench_x.Manager.Lease.Fence.{IsLive, IsOwnedBy, owns_iff, owned_job-found}

module _ (settings : Settings) (now : ℕ → Moment) where
  heartbeat-owned :
      (worker : Worker) (id : ℕ) (beat : JobHeartbeat) (db db' : Tables) (job : RunnerJob)
      (ns : List Notice)
      → heartbeat settings now worker id beat db ≡ ok (job, db', ns)
      → (found : RunnerJob) × (owned_job worker id beat.lease_token false (now 0) db ≡ ok found)
        × (job ≡ renewed_job settings now beat found)
        × (db'.jobs ≡ put_job job db.jobs)
        × (db'.evaluations ≡ db.evaluations)
        × (db'.submissions ≡ db.submissions)
  unfolding heartbeat
  heartbeat-owned worker id beat db db' job ns h =
      elim (Result-cases (owned_job worker id beat.lease_token false (now 0) db)) [
        | inl (found, e) ↦ (found, e, ground arith, ground arith, ground arith, ground arith)
        | inr (raised, e) ↦ absurd (ground arith)
      ]

  -- A heartbeat that is accepted comes from the owner of a live lease. The job is running after it,
  -- with a lease that lasts in full from the handler's last clock reading for the job; the moment
  -- at which it started is kept once it is set; no other row of the table changes.
  pub heartbeat_extends :
      (worker : Worker) (id : ℕ) (beat : JobHeartbeat) (db db' : Tables) (job : RunnerJob)
      (ns : List Notice)
      → heartbeat settings now worker id beat db ≡ ok (job, db', ns)
      → (found : RunnerJob) × (get_job id db ≡ some found)
        × IsOwnedBy worker beat.lease_token found
        × IsLive found (now 0)
        × (job.status ≡ JobStatus.running)
        × (job.lease_expires_at ≡ some (now 3 + seconds settings.lease_seconds))
        × (job.lease_token ≡ found.lease_token)
        × (job.attempt ≡ found.attempt)
        × (job.started_at ≡ some (or_else found.started_at (now 2)))
        × (db'.jobs ≡ put_job job db.jobs)
  heartbeat_extends worker id beat db db' job ns h =
      let (found, e, renewed, jobs, _, _) = heartbeat-owned worker id beat db db' job ns h in
      let (at, mine, live) = owned_job-found worker id beat.lease_token false (now 0) db found e in
      (
        found,
        at,
        (owns_iff worker beat.lease_token found).0 mine,
        ground arith,
        ground arith,
        ground arith,
        ground arith,
        ground arith,
        ground arith,
        jobs,
      )

  renewed_job-IsUpdate :
      (worker : Worker) (beat : JobHeartbeat) (found : RunnerJob)
      → owns worker beat.lease_token found ≡ true
      → is_active found.status ≡ true
      → is_unleased found ≡ false
      → IsUpdate found (renewed_job settings now beat found)
  renewed_job-IsUpdate worker beat found mine active leased = ground arith

  renewed_job-one_active :
      (beat : JobHeartbeat) (found : RunnerJob) (jobs : List RunnerJob) (w : ℕ)
      → is_active found.status ≡ true
      → find_first (has_id found.id) jobs ≡ some found
      → count_if (is_active_of w) jobs ≤ 1
      → count_if (is_active_of w) (put_job (renewed_job settings now beat found) jobs) ≤ 1
  renewed_job-one_active beat found jobs w active at one = ground (
    arith,
    count_if-replace_first (is_active_of w) (has_id found.id) (renewed_job settings now beat found)
        found jobs at,
  )

  -- A heartbeat keeps the tables consistent.
  pub heartbeat-Consistent :
      (limit : ℕ) (worker : Worker) (id : ℕ) (beat : JobHeartbeat) (db db' : Tables)
      (job : RunnerJob) (ns : List Notice)
      → Consistent limit db
      → heartbeat settings now worker id beat db ≡ ok (job, db', ns)
      → Consistent limit db'
  heartbeat-Consistent limit worker id beat db db' job ns v h =
      let (found, e, renewed, jobs, evaluations, _) =
        heartbeat-owned worker id beat db db' job ns h in
      let (at, mine, live) = owned_job-found worker id beat.lease_token false (now 0) db found e in
      let active : is_active found.status ≡ true = ground arith in
      let at' = get_job_self id db found at in
      rw (evaluations, jobs, renewed)
        (put_job-IsConsistent limit db.jobs db.evaluations v found
          (renewed_job settings now beat found) at'
          (renewed_job-IsUpdate worker beat found mine active
            (leased-found limit db v found.id found at'))
          λ w. renewed_job-one_active beat found db.jobs w active at' (v.one_active w))

  -- A heartbeat leaves every job in its submission.
  pub heartbeat-IsLinked :
      (worker : Worker) (id : ℕ) (beat : JobHeartbeat) (db db' : Tables) (job : RunnerJob)
      (ns : List Notice)
      → IsLinked db.submissions db.jobs
      → heartbeat settings now worker id beat db ≡ ok (job, db', ns)
      → IsLinked db'.submissions db'.jobs
  heartbeat-IsLinked worker id beat db db' job ns l h =
      let (found, e, renewed, jobs, _, submissions) =
        heartbeat-owned worker id beat db db' job ns h in
      let (at, _, _) = owned_job-found worker id beat.lease_token false (now 0) db found e in
      rw (submissions, jobs, renewed)
        (put_job-IsLinked db.submissions db.jobs found (renewed_job settings now beat found) l
          (get_job_self id db found at) refl)
