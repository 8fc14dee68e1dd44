-- ===== src/Dashboard/Counts.antt =====
-- The counts of the dashboard (apps/api/agentbenchx/main.py), status by status.
use agent_bench_x.Prelude.{
  ◌+◌, ◌≡◌, refl, Bool, true, false, List, [], ◌∷◌, arith, one_if, count_if,
}
use agent_bench_x.Models.{JobStatus, RunnerJob, is_active}
use agent_bench_x.Dashboard.{is_completed, is_failed, is_queued}

-- The tests of the statuses, one by one.
abbrev pub has_status : JobStatus → RunnerJob → Bool
has_status s job = same_status s job.status
  where
    same_status : JobStatus → JobStatus → Bool
    same_status JobStatus.queued JobStatus.queued = true
    same_status JobStatus.claimed JobStatus.claimed = true
    same_status JobStatus.running JobStatus.running = true
    same_status JobStatus.completed JobStatus.completed = true
    same_status JobStatus.failed JobStatus.failed = true
    same_status JobStatus.timeout JobStatus.timeout = true
    same_status _ _ = false

-- Two statuses that are counted together.
pub count_both :
    (p q r : RunnerJob → Bool) (jobs : List RunnerJob)
    → ((job : RunnerJob) → one_if (p job) ≡ one_if (q job) + one_if (r job))
    → count_if p jobs ≡ count_if q jobs + count_if r jobs
unfolding count_if
count_both p q r [] h = refl
count_both p q r (j ∷ jobs) h = omega (arith, h j, count_both p q r jobs h)

pub running_both :
    (status : JobStatus) (j : RunnerJob)
    → one_if (is_active status)
      ≡ one_if (has_status JobStatus.claimed (record j { status = status }))
        + one_if (has_status JobStatus.running (record j { status = status }))
running_both JobStatus.queued j = refl
running_both JobStatus.claimed j = refl
running_both JobStatus.running j = refl
running_both JobStatus.completed j = refl
running_both JobStatus.failed j = refl
running_both JobStatus.timeout j = refl

pub failed_both :
    (status : JobStatus) (j : RunnerJob)
    → one_if (is_failed (record j { status = status }))
      ≡ one_if (has_status JobStatus.failed (record j { status = status }))
        + one_if (has_status JobStatus.timeout (record j { status = status }))
failed_both JobStatus.queued j = refl
failed_both JobStatus.claimed j = refl
failed_both JobStatus.running j = refl
failed_both JobStatus.completed j = refl
failed_both JobStatus.failed j = refl
failed_both JobStatus.timeout j = refl

pub count_same :
    (p q : RunnerJob → Bool) (jobs : List RunnerJob)
    → ((job : RunnerJob) → p job ≡ q job)
    → count_if p jobs ≡ count_if q jobs
unfolding count_if
count_same p q [] h = refl
count_same p q (j ∷ jobs) h = ground (arith, h j, count_same p q jobs h)

pub completed_same :
    (status : JobStatus) (j : RunnerJob)
    → is_completed (record j { status = status })
      ≡ has_status JobStatus.completed (record j { status = status })
completed_same JobStatus.queued j = refl
completed_same JobStatus.claimed j = refl
completed_same JobStatus.running j = refl
completed_same JobStatus.completed j = refl
completed_same JobStatus.failed j = refl
completed_same JobStatus.timeout j = refl

pub queued_same :
    (status : JobStatus) (j : RunnerJob)
    → is_queued (record j { status = status })
      ≡ has_status JobStatus.queued (record j { status = status })
queued_same JobStatus.queued j = refl
queued_same JobStatus.claimed j = refl
queued_same JobStatus.running j = refl
queued_same JobStatus.completed j = refl
queued_same JobStatus.failed j = refl
queued_same JobStatus.timeout j = refl
