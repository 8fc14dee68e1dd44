-- ===== src/Manager/Claim/Effect.antt =====
-- What a successful `EvaluationManager.claim` has done, and that it keeps the tables consistent.
use agent_bench_x.Prelude.{
  ℕ, ◌+◌, ◌<◌, ◌≤◌, ◌≡◌, ◌⊎◌, ltb, one_if, Bool-cases, find_first-counted, String, Bool, true,
  false, none, some, List, refl, arith, inl, inr, Option-cases, find_first, count_if,
  count_if-replace_first, find_first-none, Option, ==→≡,
}
use agent_bench_x.Models.{
  RunnerJob, Worker, WorkerStatus, JobStatus, Settings, Moment, seconds, is_active,
}
use agent_bench_x.Manager.Tables.{Tables, Notice, ok, has_id, is_active_of, get_job, put_job}
use agent_bench_x.Manager.Invariant.{Consistent, IsUpdate, put_job-IsConsistent}
use agent_bench_x.Manager.Links.{IsLinked, put_job-IsLinked}
use agent_bench_x.Manager.Claim.{
  ClaimReply, cannot_claim, is_available, next_queued, claimed_job, assign, claim,
}
use agent_bench_x.Manager.Claim.Order.{
  next_queued-available, next_queued-found, next_queued-first, is_available_before,
}

module _ (settings : Settings) (locked : ℕ → Bool) (token : String) (now : ℕ → Moment) where
  assign-writes :
      (worker : Worker) (found : RunnerJob) (db db' : Tables) (reply : ClaimReply)
      (ns : List Notice)
      → assign settings locked token now worker found db ≡ ok (some reply, db', ns)
      → (reply.job ≡ claimed_job settings locked token now worker found)
        × (db'.jobs ≡ put_job reply.job db.jobs)
        × (db'.evaluations ≡ db.evaluations)
        × (db'.submissions ≡ db.submissions)
  unfolding assign
  assign-writes worker found db db' reply ns h = ground arith

  claim-selected :
      (worker : Worker) (db db' : Tables) (reply : ClaimReply) (ns : List Notice)
      → claim settings locked token now worker db ≡ ok (some reply, db', ns)
      → (found : RunnerJob) × (next_queued locked db.jobs ≡ some found)
        × (assign settings locked token now worker found db ≡ ok (some reply, db', ns))
        × (find_first (is_active_of worker.id) db.jobs ≡ none)
        × (cannot_claim worker.status ≡ false)
  unfolding claim
  claim-selected worker db db' reply ns h = elim (Option-cases (next_queued locked db.jobs)) [
    | inl e ↦ absurd (ground arith)
    | inr (found, e) ↦ (found, e, ground arith, ground arith, ground arith)
  ]

  claimed_job-IsUpdate :
      (worker : Worker) (found : RunnerJob)
      → is_available locked found ≡ true
      → IsUpdate found (claimed_job settings locked token now worker found)
  claimed_job-IsUpdate worker found h = ground arith

  claimed_job-one_active :
      (worker : Worker) (found : RunnerJob) (jobs : List RunnerJob) (w : ℕ)
      → is_available locked found ≡ true
      → find_first (has_id found.id) jobs ≡ some found
      → find_first (is_active_of worker.id) jobs ≡ none
      → count_if (is_active_of w) jobs ≤ 1
      → count_if
          (is_active_of w)
          (put_job (claimed_job settings locked token now worker found) jobs)
        ≤ 1
  claimed_job-one_active worker found jobs w available at idle one = ground (
    arith,
    find_first-none (is_active_of worker.id) jobs idle,
    ==→≡ worker.id w,
    count_if-replace_first (is_active_of w) (has_id found.id)
        (claimed_job settings locked token now worker found) found jobs at,
  )

  -- No available row comes before the selected one, in the order of queue times and then of ids.
  selected-oldest :
      (found other : RunnerJob) (i : ℕ) (db : Tables)
      → count_if (is_available_before locked found) db.jobs ≡ 0
      → get_job i db ≡ some other
      → other.status ≡ JobStatus.queued
      → locked other.id ≡ false
      → (found.queued_at < other.queued_at)
        ⊎ ((found.queued_at ≡ other.queued_at) × (found.id ≤ other.id))
  selected-oldest found other i db none_before at queued free =
      let here : one_if (is_available_before locked found other) ≡ 0 = omega (
        arith,
        none_before,
        find_first-counted (has_id i) (is_available_before locked found) db.jobs other at,
      ) in
      elim (Bool-cases (ltb found.queued_at other.queued_at)) [
        | inl earlier ↦ inl (ground arith)
        | inr later ↦ inr (ground arith, ground arith)
      ]

  idle-ended :
      (worker : Worker) (i : ℕ) (other : RunnerJob) (db : Tables)
      → find_first (is_active_of worker.id) db.jobs ≡ none
      → get_job i db ≡ some other
      → other.worker_id ≡ some worker.id
      → is_active other.status ≡ false
  idle-ended worker i other db idle at mine = ground (
    arith,
    find_first-none (is_active_of worker.id) db.jobs idle,
    find_first-counted (has_id i) (is_active_of worker.id) db.jobs other at,
  )

  can_claim :
      (status : WorkerStatus)
      → cannot_claim status ≡ false
      → (status ≡ WorkerStatus.online) ⊎ (status ≡ WorkerStatus.busy)
  can_claim WorkerStatus.online h = inl refl
  can_claim WorkerStatus.busy h = inr refl
  can_claim WorkerStatus.offline h = ground arith
  can_claim WorkerStatus.draining h = ground arith
  can_claim WorkerStatus.error h = ground arith

  -- From consistent tables, a claim that hands out a job hands out the oldest one: it is queued and
  -- no other transaction holds it, and every other such row was queued later, or at the same moment
  -- and has a greater id. The worker was online or busy, and no job of its own was active. The job's
  -- row, and no other, is overwritten: it is claimed by this worker, under the new token and for the
  -- full lease, and the rest of it is kept.
  pub claim-oldest :
      (limit : ℕ) (worker : Worker) (db db' : Tables) (reply : ClaimReply) (ns : List Notice)
      → Consistent limit db
      → claim settings locked token now worker db ≡ ok (some reply, db', ns)
      → (found : RunnerJob) × (get_job found.id db ≡ some found)
        × (found.status ≡ JobStatus.queued)
        × (locked found.id ≡ false)
        × ((i : ℕ) (other : RunnerJob)
            → get_job i db ≡ some other
            → other.status ≡ JobStatus.queued
            → locked other.id ≡ false
            → (found.queued_at < other.queued_at)
              ⊎ ((found.queued_at ≡ other.queued_at) × (found.id ≤ other.id)))
        × ((i : ℕ) (other : RunnerJob)
            → get_job i db ≡ some other
            → other.worker_id ≡ some worker.id
            → is_active other.status ≡ false)
        × ((worker.status ≡ WorkerStatus.online) ⊎ (worker.status ≡ WorkerStatus.busy))
        × (reply.job ≡ record found {
          worker_id = some worker.id;
          status = JobStatus.claimed;
          lease_token = some token;
          heartbeat_at = some (now 0);
          lease_expires_at = some (now 1 + seconds settings.lease_seconds);
        })
        × (db'.jobs ≡ put_job reply.job db.jobs)
  claim-oldest limit worker db db' reply ns v h =
      let (found, e, written, idle, online) = claim-selected worker db db' reply ns h in
      let writes = assign-writes worker found db db' reply ns written in
      let available = next_queued-available locked db.jobs found e in
      let first = next_queued-first locked db.jobs found e in
      (
        found,
        next_queued-found locked db.jobs found e (v.ids found.id),
        ground arith,
        ground arith,
        (λ i other. selected-oldest found other i db first),
        (λ i other. idle-ended worker i other db idle),
        can_claim worker.status online,
        writes.0,
        writes.1,
      )

  claim-nothing :
      (worker : Worker) (db db' : Tables) (ns : List Notice)
      → claim settings locked token now worker db ≡ ok (none, db', ns)
      → db' ≡ db
  unfolding claim assign
  claim-nothing worker db db' ns h = elim (Option-cases (next_queued locked db.jobs)) [
    | inl e ↦ ground arith
    | inr (found, e) ↦ ground arith
  ]

  claim-some-Consistent :
      (limit : ℕ) (worker : Worker) (db db' : Tables) (reply : ClaimReply) (ns : List Notice)
      → Consistent limit db
      → claim settings locked token now worker db ≡ ok (some reply, db', ns)
      → Consistent limit db'
  claim-some-Consistent limit worker db db' reply ns v h =
      let (found, e, written, idle, online) = claim-selected worker db db' reply ns h in
      let writes = assign-writes worker found db db' reply ns written in
      let available = next_queued-available locked db.jobs found e in
      let at = next_queued-found locked db.jobs found e (v.ids found.id) in
      rw (writes.2, writes.1, writes.0)
        (put_job-IsConsistent limit db.jobs db.evaluations v found
          (claimed_job settings locked token now worker found) at
          (claimed_job-IsUpdate worker found available)
          λ w. claimed_job-one_active worker found db.jobs w available at idle (v.one_active w))

  -- A claim keeps the tables consistent, whether it hands out a job or finds none.
  pub claim-Consistent :
      (limit : ℕ) (worker : Worker) (db db' : Tables) (reply : Option ClaimReply) (ns : List Notice)
      → Consistent limit db
      → claim settings locked token now worker db ≡ ok (reply, db', ns)
      → Consistent limit db'
  claim-Consistent limit worker db db' none ns v h = rw (claim-nothing worker db db' ns h) v
  claim-Consistent limit worker db db' (some reply) ns v h =
      claim-some-Consistent limit worker db db' reply ns v h

  -- A claim leaves every job in its submission.
  pub claim-IsLinked :
      (limit : ℕ) (worker : Worker) (db db' : Tables) (reply : Option ClaimReply) (ns : List Notice)
      → Consistent limit db
      → IsLinked db.submissions db.jobs
      → claim settings locked token now worker db ≡ ok (reply, db', ns)
      → IsLinked db'.submissions db'.jobs
  claim-IsLinked limit worker db db' none ns v l h = rw (claim-nothing worker db db' ns h) l
  claim-IsLinked limit worker db db' (some reply) ns v l h =
      let (found, e, written, idle, online) = claim-selected worker db db' reply ns h in
      let writes = assign-writes worker found db db' reply ns written in
      let at = next_queued-found locked db.jobs found e (v.ids found.id) in
      rw (writes.3, writes.1, writes.0)
        (put_job-IsLinked db.submissions db.jobs found
          (claimed_job settings locked token now worker found) l at refl)
