-- ===== src/Manager/History.antt =====
-- Histories of the control plane: requests of any workers and runs of the reaper, each at any
-- moments, in any order. A request that fails commits nothing, so it is no step.
use agent_bench_x.Prelude.{ℕ, ◌≤◌, ◌≡◌, String, Bool, Option, List, arith, count_if}
use agent_bench_x.Models.{
  StorageKey, RunnerJob, Worker, Submission, Evaluation, JobHeartbeat, ResultInput, Settings,
  Moment,
}
use agent_bench_x.Manager.Tables.{Tables, Notice, ok, has_id}
use agent_bench_x.Manager.Invariant.{Consistent}
use agent_bench_x.Manager.Links.{IsLinked, reap-IsLinked}
use agent_bench_x.Manager.Submit.{submit}
use agent_bench_x.Manager.Submit.Consistency.{submit-Consistent}
use agent_bench_x.Manager.Workers.{AskedStatus, register, worker_heartbeat}
use agent_bench_x.Manager.Claim.{ClaimReply, claim}
use agent_bench_x.Manager.Claim.Effect.{claim-Consistent, claim-IsLinked}
use agent_bench_x.Manager.Lease.{heartbeat}
use agent_bench_x.Manager.Lease.Renewal.{heartbeat-Consistent, heartbeat-IsLinked}
use agent_bench_x.Manager.Results.{result}
use agent_bench_x.Manager.Results.Consistency.{result-Consistent, result-IsLinked}
use agent_bench_x.Manager.Reap.{reap_jobs, reap_workers}
use agent_bench_x.Manager.Reap.Consistency.{reap_jobs-Consistent}
use agent_bench_x.Artifacts.{Content}

abbrev pub IsValid : ℕ → Tables → Type 0
IsValid limit db = Consistent limit db × IsLinked db.submissions db.jobs

module _ (settings : Settings) (sha256 : String → String) {S : Type 0}
    (put : StorageKey → Content → S → Option S) where
  -- One committed transaction. The ids that a run of the reaper draws are distinct and new.
  pub data Step : Tables → Tables → Type 0 where
    submits :
        (uid : ℕ → ℕ) (now : ℕ → Moment) (agent : ℕ) (ids : List ℕ) (db db' : Tables)
        (submissions : List Submission) (ns : List Notice)
        → submit uid now agent ids db ≡ ok (submissions, db', ns)
        → Step db db'
    registers :
        (uid : ℕ) (token : String) (now : Moment) (name : String) (db db' : Tables)
        (credentials : Worker × String) (ns : List Notice)
        → register sha256 uid token now name db ≡ ok (credentials, db', ns)
        → Step db db'
    beats :
        (now : Moment) (worker : Worker) (status : AskedStatus) (db : Tables)
        → Step db (worker_heartbeat now worker status db).1
    claims :
        (locked : ℕ → Bool) (token : String) (now : ℕ → Moment) (worker : Worker) (db db' : Tables)
        (reply : Option ClaimReply) (ns : List Notice)
        → claim settings locked token now worker db ≡ ok (reply, db', ns)
        → Step db db'
    renews :
        (now : ℕ → Moment) (worker : Worker) (id : ℕ) (beat : JobHeartbeat) (db db' : Tables)
        (job : RunnerJob) (ns : List Notice)
        → heartbeat settings now worker id beat db ≡ ok (job, db', ns)
        → Step db db'
    delivers :
        (uid : ℕ → ℕ) (now : ℕ → Moment) (worker : Worker) (id : ℕ) (input : ResultInput)
        (objects : S) (db db' : Tables) (evaluation : Evaluation) (ns : List Notice)
        → (result settings sha256 uid now put worker id input db objects).0
          ≡ ok (evaluation, db', ns)
        → Step db db'
    reaps :
        (locked : ℕ → Bool) (uid : ℕ → ℕ) (now : ℕ → Moment) (db db' : Tables)
        (ns ns' : List Notice)
        → ((j k : ℕ) → uid j ≡ uid k → j ≡ k)
        → ((k : ℕ) → count_if (has_id (uid k)) db.jobs ≡ 0)
        → reap_jobs settings locked uid now db ≡ ok (ns, db', ns')
        → Step db db'
    retires :
        (locked : ℕ → Bool) (now : Moment) (db : Tables)
        → Step db (reap_workers settings locked now db).0

  pub data Reach (db : Tables) : Tables → Type 0 where
    here : Reach db db
    next : {db' db'' : Tables} → Reach db db' → Step db' db'' → Reach db db''

  module _ (limit : ℕ) (some_attempt : 1 ≤ limit) (within : settings.max_attempts ≤ limit) where
    reaps-IsValid :
        (locked : ℕ → Bool) (uid : ℕ → ℕ) (now : ℕ → Moment) (db db' : Tables)
        (ns ns' : List Notice)
        → ((j k : ℕ) → uid j ≡ uid k → j ≡ k)
        → ((k : ℕ) → count_if (has_id (uid k)) db.jobs ≡ 0)
        → reap_jobs settings locked uid now db ≡ ok (ns, db', ns')
        → IsValid limit db
        → IsValid limit db'
    reaps-IsValid locked uid now db db' ns ns' distinct fresh h (v, l) =
        let (reaped, e, written, consistent) =
          reap_jobs-Consistent settings locked uid now limit db within distinct fresh v in
        let same : db' ≡ reaped = ground arith in
        rw same
          (consistent, rw written (reap-IsLinked settings locked uid now db.submissions db.jobs l))

    registers-IsValid :
        (uid : ℕ) (token : String) (now : Moment) (name : String) (db db' : Tables)
        (credentials : Worker × String) (ns : List Notice)
        → register sha256 uid token now name db ≡ ok (credentials, db', ns)
        → IsValid limit db
        → IsValid limit db'
    unfolding register
    registers-IsValid uid token now name db db' credentials ns h (v, l) =
        let jobs : db'.jobs ≡ db.jobs = ground arith in
        let evaluations : db'.evaluations ≡ db.evaluations = ground arith in
        let submissions : db'.submissions ≡ db.submissions = ground arith in
        rw (jobs, evaluations, submissions) (v, l)

    pub Step-IsValid : {db db' : Tables} → Step db db' → IsValid limit db → IsValid limit db'
    unfolding worker_heartbeat reap_workers
    Step-IsValid (submits uid now agent ids db db' submissions ns h) (v, l) =
        submit-Consistent uid now limit some_attempt agent ids db db' submissions ns v l h
    Step-IsValid (registers uid token now name db db' credentials ns h) w =
        registers-IsValid uid token now name db db' credentials ns h w
    Step-IsValid (beats now worker status db) (v, l) = (v, l)
    Step-IsValid (claims locked token now worker db db' reply ns h) (v, l) = (
      claim-Consistent settings locked token now limit worker db db' reply ns v h,
      claim-IsLinked settings locked token now limit worker db db' reply ns v l h,
    )
    Step-IsValid (renews now worker id beat db db' job ns h) (v, l) = (
      heartbeat-Consistent settings now limit worker id beat db db' job ns v h,
      heartbeat-IsLinked settings now worker id beat db db' job ns l h,
    )
    Step-IsValid (delivers uid now worker id input objects db db' evaluation ns h) (v, l) = (
      result-Consistent settings sha256 uid now put limit worker id input db db' objects evaluation
          ns within v h,
      result-IsLinked settings sha256 uid now put limit worker id input db db' objects evaluation ns
          v l h,
    )
    Step-IsValid (reaps locked uid now db db' ns ns' distinct fresh h) w =
        reaps-IsValid locked uid now db db' ns ns' distinct fresh h w
    Step-IsValid (retires locked now db) (v, l) = (v, l)

    -- With a limit on attempts that is at least 1 and that the settings keep, every history leads
    -- from valid tables to valid tables: no worker has two active jobs, of a submission only the
    -- last attempt is open, attempts are distinct and within the limit, every active job has a
    -- lease, a job is evaluated at most once and only after it has ended, and each job belongs to
    -- a submission.
    pub Reach-IsValid : {db db' : Tables} → IsValid limit db → Reach db db' → IsValid limit db'
    Reach-IsValid v here = v
    Reach-IsValid v (next r s) = Step-IsValid s (Reach-IsValid v r)
