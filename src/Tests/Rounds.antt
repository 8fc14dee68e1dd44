-- ===== src/Tests/Rounds.antt =====
-- Rounds of the worker, and a process.
use agent_bench_x.Prelude.{
  ℕ, ◌+◌, ◌≡◌, ◌⊎◌, refl, String, true, false, List, [], ◌∷◌, arith, ltb, count_if, ◌==◌,
  if◌then◌else◌,
}
use agent_bench_x.IdleSchedule.{heartbeat_due, poll_due, found}
use agent_bench_x.WorkerLoop.{
  Ending, FileState, Folder, Delivery, receipt, status_error, replay_pending, Round, claimed,
  evaluated, transport_error, acknowledged, WorkerState, round, deliver,
}
use agent_bench_x.WorkerLoop.Pending.{is_pending_folder, round-claims}
use agent_bench_x.Process
use agent_bench_x.Process.{Poll, timeout_expired, take, run, text_of}
use agent_bench_x.Process.Cap.{run_ends}
use agent_bench_x.Evaluator.{Outcome}
use agent_bench_x.Tests.Renewals.{idle, middle}

abbrev server : ℕ → Delivery
server job = if job == 1 then status_error 409 else receipt

abbrev folders : List Folder
folders =
    record { job = 1; state = FileState.pending; has_receipt = false }
    ∷ record { job = 2; state = FileState.pending; has_receipt = false }
    ∷ record { job = 3; state = FileState.accepted; has_receipt = true }
    ∷ []

abbrev busy_round : Round
busy_round = record {
  client = server;
  now = λ k. 8 + k;
  heartbeat_fails = false;
  poll = claimed 5 (evaluated false (transport_error false ∷ acknowledged ∷ []));
}

abbrev state : WorkerState
state = record { schedule = idle; folders = folders; stop = false; claims = [] }

round-run : (round middle false busy_round state).1.claims ≡ 5 ∷ []
unfolding round replay_pending heartbeat_due poll_due found deliver
round-run = refl

round-claims_example :
    ((replay_pending server folders).0 ≡ Ending.returns)
    × (count_if is_pending_folder (replay_pending server folders).1 ≡ 0)
    × (poll_due idle 10 ≡ true)
round-claims_example = round-claims middle false busy_round state λ h. ground (arith, round-run)

abbrev decode : List ℕ → String
decode bytes = "text"

-- A process that ignores signals and cancellation, polled every 50 ms for 100 ms.
abbrev first : Poll
first = record { exited = false; cancel = false; elapsed = 0 }

abbrev second : Poll
second = record first { elapsed = 50000 }

abbrev third : Poll
third = record first { elapsed = 100001 }

run_ends_example :
    ((true ≡ false)
      × (run decode 3 100000 137 true (first ∷ second ∷ third ∷ []) ((1 ∷ 2 ∷ []) ∷ []) []
          ≡ timeout_expired))
    ⊎ ((true ≡ true)
        × ((o : Outcome) × (run decode 3 100000 137 true
                (first ∷ second ∷ third ∷ [])
                ((1 ∷ 2 ∷ []) ∷ [])
                []
              ≡ Process.returns o)
            × (o.stdout
                ≡ text_of decode (record { bytes = take 3 (1 ∷ 2 ∷ []); truncated = ltb 3 2 }))
            × (o.stderr ≡ text_of decode (record { bytes = take 3 []; truncated = ltb 3 0 }))))
run_ends_example =
    run_ends decode 3 100000 137 true first (second ∷ third ∷ []) ((1 ∷ 2 ∷ []) ∷ []) []
      (omega arith, (omega arith, (omega arith, tt))) (omega arith)
