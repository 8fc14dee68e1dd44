-- ===== src/Manager/Lease/Fence.antt =====
-- `owned_job` lets a request through exactly for the owner of a live lease.
use agent_bench_x.Prelude.{
  ℕ, ◌<◌, ◌≡◌, ◌↔◌, ◌⊎◌, inl, inr, String, Bool, true, false, ◌&&◌, Option, none, some, arith,
  Bool-cases, Option-cases, str_eq, str_eq_iff,
}
use agent_bench_x.Models.{RunnerJob, Worker, Moment, is_active, is_terminal}
use agent_bench_x.Manager.Tables.{Tables, ok, get_job, worker_is}
use agent_bench_x.Manager.Lease.{or_empty, owns, require_live, owned_job}

-- The job is active and its lease ends after `now`.
abbrev pub IsLive : RunnerJob → Moment → Type 0
IsLive job now =
    (t : Moment) × (is_active job.status ≡ true) × (job.lease_expires_at ≡ some t) × (now < t)

-- The token of a lease; a row without one has the empty token.
abbrev pub IsToken : Option String → String → Type 0
IsToken none token = "" ≡ token
IsToken (some t) token = t ≡ token

-- The job was handed to this worker, under this token.
abbrev pub IsOwnedBy : Worker → String → RunnerJob → Type 0
IsOwnedBy worker token job = (job.worker_id ≡ some worker.id) × IsToken job.lease_token token

worker_is_iff : (w : ℕ) (id : Option ℕ) → (worker_is w id ≡ true) ↔ (id ≡ some w)
worker_is_iff w id = elim (Option-cases id) [
  | inl e ↦ (ground arith, ground arith)
  | inr (v, e) ↦ (ground arith, ground arith)
]

IsToken-iff :
    (found : Option String) (token : String)
    → (str_eq (or_empty found) token ≡ true) ↔ IsToken found token
IsToken-iff none token = str_eq_iff "" token
IsToken-iff (some t) token = str_eq_iff t token

-- `owns` says just that.
pub owns_iff :
    (worker : Worker) (token : String) (job : RunnerJob)
    → (owns worker token job ≡ true) ↔ IsOwnedBy worker token job
owns_iff worker token job =
    let (is_worker, is_worker') = worker_is_iff worker.id job.worker_id in
    let (is_token, is_token') = IsToken-iff job.lease_token token in
    (
      (λ h. (is_worker (ground arith), is_token (ground arith))),
      (λ h. ground (arith, is_worker' h.0, is_token' h.1)),
    )

pub require_live-eq-ok :
    (job found : RunnerJob) (now : Moment) (detail : String)
    → require_live job now detail ≡ ok found
    → (found ≡ job) × IsLive job now
unfolding require_live
require_live-eq-ok job found now detail h = elim (Option-cases job.lease_expires_at) [
  | inl e ↦ absurd (ground arith)
  | inr (t, e) ↦ (ground arith, (t, ground arith, e, ground arith))
]

require_live-IsLive :
    (job : RunnerJob) (now : Moment) (detail : String)
    → IsLive job now
    → require_live job now detail ≡ ok job
unfolding require_live
require_live-IsLive job now detail h = ground arith

pub owned_job-found :
    (worker : Worker) (id : ℕ) (token : String) (allow : Bool) (now : Moment) (db : Tables)
    (job : RunnerJob)
    → owned_job worker id token allow now db ≡ ok job
    → (get_job id db ≡ some job)
      × (owns worker token job ≡ true)
      × (((allow && is_terminal job.status) ≡ true) ⊎ IsLive job now)
unfolding owned_job
owned_job-found worker id token allow now db job h = elim (Option-cases (get_job id db)) [
  | inl e ↦ absurd (ground arith)
  | inr (row, e) ↦ elim (Bool-cases (allow && is_terminal row.status)) [
    | inl ended ↦ (ground arith, ground arith, inl (ground arith))
    | inr live ↦ (ground arith, ground arith, inr (require_live_last row e live))
  ]
]
  where
    require_live_last :
        (row : RunnerJob)
        → get_job id db ≡ some row
        → (allow && is_terminal row.status) ≡ false
        → IsLive job now
    require_live_last row e live =
        let passed : require_live row now "Job lease expired or job is terminal" ≡ ok job =
          ground arith in
        let (same, l) =
          require_live-eq-ok row job now "Job lease expired or job is terminal" passed in
        rw same l

pub owned_job-passes :
    (worker : Worker) (id : ℕ) (token : String) (allow : Bool) (now : Moment) (db : Tables)
    (job : RunnerJob)
    → get_job id db ≡ some job
    → owns worker token job ≡ true
    → ((allow && is_terminal job.status) ≡ true) ⊎ IsLive job now
    → owned_job worker id token allow now db ≡ ok job
unfolding owned_job
owned_job-passes worker id token allow now db job e mine (inl ended) = ground arith
owned_job-passes worker id token allow now db job e mine (inr live) =
    ground (arith, require_live-IsLive job now "Job lease expired or job is terminal" live)

-- A request passes the fence exactly when the job is there, its row names this worker, the token is
-- the one of its lease (the empty one where the row has none), and the job is active under a lease
-- that ends later (or has ended, where the caller allows that).
pub owned_job_iff :
    (worker : Worker) (id : ℕ) (token : String) (allow : Bool) (now : Moment) (db : Tables)
    (job : RunnerJob)
    → (owned_job worker id token allow now db ≡ ok job) ↔ (
        (get_job id db ≡ some job)
        × IsOwnedBy worker token job
        × (((allow ≡ true) × (is_terminal job.status ≡ true)) ⊎ IsLive job now))
owned_job_iff worker id token allow now db job =
    let (owned, owned') = owns_iff worker token job in
    (
      (λ h.
          let (at, mine, state) = owned_job-found worker id token allow now db job h in
          (
            at,
            owned mine,
            elim state [ inl ended ↦ inl (ground arith, ground arith) | inr live ↦ inr live ],
          )),
      (λ (at, mine, state).
          owned_job-passes worker id token allow now db job at (owned' mine)
            (elim state [ inl ended ↦ inl (ground arith) | inr live ↦ inr live ])),
    )
