-- ===== src/Manager/Reap/Recovery.antt =====
-- A job whose worker has vanished is not lost: `EvaluationManager.reap` ends it and queues it again
-- while attempts are left. And only silent workers go offline.
use agent_bench_x.Prelude.{
  ℕ, ◌+◌, ◌≤◌, ◌<◌, ◌≡◌, refl, Bool, true, false, ◌&&◌, some, List, [], ◌∷◌, ◌++◌, arith, ltb,
  if◌then◌else◌, find_first, count_if, count_if-append, find_first-append_left, Bool-cases, inl,
  inr, ◌⊎◌, false, none,
}
use agent_bench_x.Models.{RunnerJob, JobStatus, Settings, Moment, is_queued, is_active}
use agent_bench_x.Manager.Tables.{
  Tables, Notice, Result-cases, ok, get_job, has_id, is_attempt, insert_jobs, insert_jobs-append,
}
use agent_bench_x.Manager.Reap.{is_expired, expired_job, next_round, expire, retry_jobs, reap_jobs}

-- A queued job of attempt `a` of submission `s`.
abbrev pub is_queued_attempt : ℕ → ℕ → RunnerJob → Bool
is_queued_attempt s a job = is_attempt s a job && is_queued job.status

module _ (settings : Settings) (locked : ℕ → Bool) (uid : ℕ → ℕ) (now : ℕ → Moment) where
  -- The row of a job after the loop, in the round `k'` in which the loop met it.
  expire-found :
      (i k : ℕ) (jobs : List RunnerJob) (job : RunnerJob)
      → find_first (has_id i) jobs ≡ some job
      → (k' : ℕ) × (find_first (has_id i) (expire settings locked uid now k jobs)
          ≡ some (
              if is_expired locked (now 0) job
              then expired_job settings locked uid now k' job
              else job))
  unfolding find_first expire
  expire-found i k [] job h = absurd (ground arith)
  expire-found i k (x ∷ xs) job h = elim (Bool-cases (has_id i x)) [
    | inl here ↦ (k, ground arith)
    | inr later ↦
        let (k', e) =
          expire-found i (next_round settings locked uid now k x) xs job (ground arith) in
        (k', ground arith)
  ]

  retried :
      (i k : ℕ) (jobs : List RunnerJob) (job : RunnerJob)
      → find_first (has_id i) jobs ≡ some job
      → is_expired locked (now 0) job ≡ true
      → job.attempt < settings.max_attempts
      → 1
        ≤ count_if
            (is_queued_attempt job.submission_id (job.attempt + 1))
            (retry_jobs settings locked uid now k jobs)
  unfolding find_first retry_jobs count_if
  retried i k [] job h e left = absurd (ground arith)
  retried i k (x ∷ xs) job h e left =
      ground (arith, retried i (next_round settings locked uid now k x) xs job)

  reap_jobs-jobs :
      (db db' : Tables) (ns ns' : List Notice)
      → reap_jobs settings locked uid now db ≡ ok (ns, db', ns')
      → db'.jobs
        ≡ expire settings locked uid now 0 db.jobs ++ retry_jobs settings locked uid now 0 db.jobs
  unfolding reap_jobs
  reap_jobs-jobs db db' ns ns' h =
      elim (Result-cases (
        insert_jobs (expire settings locked uid now 0 db.jobs)
          (retry_jobs settings locked uid now 0 db.jobs))) [
            | inl (rows, e) ↦ ground (
              arith,
              insert_jobs-append (expire settings locked uid now 0 db.jobs)
                  (retry_jobs settings locked uid now 0 db.jobs) rows,
            )
            | inr (raised, e) ↦ absurd (ground arith)
          ]

  expired_after :
      (job : RunnerJob) (t : Moment)
      → (job.status ≡ JobStatus.claimed) ⊎ (job.status ≡ JobStatus.running)
      → job.lease_expires_at ≡ some t
      → t < now 0
      → locked job.id ≡ false
      → is_expired locked (now 0) job ≡ true
  expired_after job t (inl claimed) lease passed free = ground arith
  expired_after job t (inr running) lease passed free = ground arith

  -- What the reaper does to a job that is claimed or running, whose lease ended before the reaper's
  -- query and that no other transaction holds: the job ends as TIMEOUT while attempts are left and as FAILED after the last one, and keeps its
  -- owner; while attempts are left, the next attempt of its submission is queued.
  pub reap_recovers :
      (db db' : Tables) (ns ns' : List Notice) (i : ℕ) (job : RunnerJob) (t : Moment)
      → reap_jobs settings locked uid now db ≡ ok (ns, db', ns')
      → get_job i db ≡ some job
      → (job.status ≡ JobStatus.claimed) ⊎ (job.status ≡ JobStatus.running)
      → job.lease_expires_at ≡ some t
      → t < now 0
      → locked job.id ≡ false
      → ((ended : RunnerJob) × (get_job i db' ≡ some ended)
          × (ended.status ≡ (
              if ltb job.attempt settings.max_attempts
              then JobStatus.timeout
              else JobStatus.failed))
          × (ended.worker_id ≡ job.worker_id))
        × (job.attempt < settings.max_attempts
            → 1 ≤ count_if (is_queued_attempt job.submission_id (job.attempt + 1)) db'.jobs)
  reap_recovers db db' ns ns' i job t h at active lease passed free =
      let over = expired_after job t active lease passed free in
      let jobs = reap_jobs-jobs db db' ns ns' h in
      let (k, e) = expire-found i 0 db.jobs job at in
      let row : find_first (has_id i) (expire settings locked uid now 0 db.jobs)
          ≡ some (expired_job settings locked uid now k job) =
        rw over at e in
      (
        (
          expired_job settings locked uid now k job,
          rw jobs (
              find_first-append_left (has_id i) (expire settings locked uid now 0 db.jobs) _ _ row),
          ground arith,
          refl,
        ),
        λ left. ground (
          arith,
          jobs,
          retried i 0 db.jobs job at over left,
          count_if-append (is_queued_attempt job.submission_id (job.attempt + 1))
              (expire settings locked uid now 0 db.jobs)
              (retry_jobs settings locked uid now 0 db.jobs),
        ),
      )

  -- Why the reaper passes a job over: it is not under way, it has no lease, its lease is not over, or
  -- another transaction holds its row.
  abbrev pub IsSpared : RunnerJob → Type 0
  IsSpared job =
      ((¬ (job.status ≡ JobStatus.claimed)) × (¬ (job.status ≡ JobStatus.running)))
      ⊎ ((job.lease_expires_at ≡ none)
          ⊎ (((t : Moment) × (job.lease_expires_at ≡ some t) × (now 0 ≤ t))
              ⊎ (locked job.id ≡ true)))

  under_way :
      (status : JobStatus)
      → is_active status ≡ true
      → (status ≡ JobStatus.claimed) ⊎ (status ≡ JobStatus.running)
  under_way JobStatus.claimed h = inl refl
  under_way JobStatus.running h = inr refl
  under_way JobStatus.queued h = ground arith
  under_way JobStatus.completed h = ground arith
  under_way JobStatus.failed h = ground arith
  under_way JobStatus.timeout h = ground arith

  spared-stays : (job : RunnerJob) → IsSpared job → is_expired locked (now 0) job ≡ false
  spared-stays job (inl (unclaimed, stopped)) = elim (Bool-cases (is_active job.status)) [
    | inl active ↦ absurd (elim (under_way job.status active) [
      | inl claimed ↦ unclaimed claimed
      | inr running ↦ stopped running
    ])
    | inr ended ↦ ground arith
  ]
  spared-stays job (inr (inl unleased)) = ground arith
  spared-stays job (inr (inr (inl (t, lease, lasts)))) = ground arith
  spared-stays job (inr (inr (inr held))) = ground arith

  -- The reaper leaves a job as it is that is neither claimed nor running, that has no lease or one
  -- that lasts to the moment of its query, or whose row another transaction holds.
  pub reap_spares :
      (db db' : Tables) (ns ns' : List Notice) (i : ℕ) (job : RunnerJob)
      → reap_jobs settings locked uid now db ≡ ok (ns, db', ns')
      → get_job i db ≡ some job
      → IsSpared job
      → get_job i db' ≡ some job
  reap_spares db db' ns ns' i job h at spared =
      let live = spared-stays job spared in
      let (k, e) = expire-found i 0 db.jobs job at in
      let row : find_first (has_id i) (expire settings locked uid now 0 db.jobs) ≡ some job =
        rw live at e in
      rw (reap_jobs-jobs db db' ns ns' h)
        (find_first-append_left (has_id i) (expire settings locked uid now 0 db.jobs) _ job row)
