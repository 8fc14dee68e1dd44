-- ===== src/WorkerLoop/Pending.antt =====
-- No result is lost, and none is pending while the worker claims a job.
use agent_bench_x.Prelude.{ℕ, ◌≡◌, ◌≢◌, refl, Bool, true, List, [], ◌∷◌, arith, count_if, map}
use agent_bench_x.IdleSchedule.{poll_due, heartbeat_sent}
use agent_bench_x.WorkerLoop.{
  Folder, Delivery, returns, is_pending, replay_pending, Round, WorkerState, round,
}

abbrev pub is_pending_folder : Folder → Bool
is_pending_folder f = is_pending f.state

abbrev pub jobs_of : List Folder → List ℕ
jobs_of = map (λ f. f.job)

-- A replay keeps every folder. If it returns, no result is pending any more.
pub replay_pending-empties :
    (client : ℕ → Delivery) (folders : List Folder)
    → (jobs_of (replay_pending client folders).1 ≡ jobs_of folders)
      × ((replay_pending client folders).0 ≡ returns
          → count_if is_pending_folder (replay_pending client folders).1 ≡ 0)
unfolding replay_pending count_if
replay_pending-empties client [] = (refl, λ h. refl)
replay_pending-empties client (f ∷ folders) =
    let (kept, none_pending) = replay_pending-empties client folders in
    (ground arith, λ h. ground arith)

-- A round claims a job only if the replay before it has returned, so that no result is pending, and
-- a poll is due.
pub round-claims :
    (uniform : ℕ → ℕ → ℕ) (once : Bool) (r : Round) (s : WorkerState)
    → (round uniform once r s).1.claims ≢ s.claims
    → ((replay_pending r.client s.folders).0 ≡ returns)
      × (count_if is_pending_folder (replay_pending r.client s.folders).1 ≡ 0)
      × (poll_due s.schedule (r.now 2) ≡ true)
unfolding round poll_due heartbeat_sent
round-claims uniform once r s h =
    (ground arith, ground (arith, replay_pending-empties r.client s.folders), ground arith)
