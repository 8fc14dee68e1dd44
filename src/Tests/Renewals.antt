-- ===== src/Tests/Renewals.antt =====
-- A renewal that meets a broken connection first and is acknowledged then, and an idle schedule.
use agent_bench_x.Prelude.{
  true, ◌<◌, ℕ, ◌+◌, ◌*◌, ◌/◌, ◌≤◌, ◌≡◌, inl, inr, refl, false, some, List, [], ◌∷◌, arith,
}
use agent_bench_x.Models.{Moment}
use agent_bench_x.LeaseKeeper.{
  watch, Attempt, acknowledged, transport_error, status_error, Keeper, renewed, renew_loop, renew,
}
use agent_bench_x.LeaseKeeper.Safety.{Mem, Served, renew_safe}
use agent_bench_x.IdleSchedule.{IdleSchedule, IsUniform}
use agent_bench_x.IdleSchedule.Bounds.{IsBounded}
use agent_bench_x.Tests.Data.{
  settings, clock, busy_worker, beat, assigned, renewed as renewed_tables, running_job,
}
use agent_bench_x.Tests.Requests.{heartbeat-run}

abbrev pub keeper : Keeper
keeper = record {
  lease_seconds = 60;
  interval = 10000000;
  cancel = false;
  deadline = 45000000;
  event = "job.started";
}

abbrev broken : Attempt
broken = record {
  cancelled_before = false;
  sent_at = 90;
  answer = transport_error;
  cancelled_after = false;
  received_at = 95;
}

abbrev served : Attempt
served = record broken { sent_at = 100; answer = acknowledged; received_at = 150 }

abbrev script : List Attempt
script = broken ∷ served ∷ []

abbrev extended : Keeper
extended = record keeper { deadline = 45000100; event = "test.started" }

renew-run : renew (some "test.started") script keeper ≡ (renewed, extended)
unfolding renew renew_loop
renew-run = refl

served-Served : Served 3 served 60 60000103
served-Served = record {
  settings = settings;
  now = clock;
  worker = busy_worker;
  id = 11;
  beat = beat;
  before = assigned;
  after = renewed_tables;
  job = running_job;
  notices = _;
  accepted = heartbeat-run;
  same_length = refl;
  later = omega arith;
  expiry = refl;
}

server : (a : Attempt) → Mem a script → a.answer ≡ acknowledged → (t : Moment) × Served 3 a 60 t
server a (inl first) e = absurd (ground arith)
server a (inr (inl here)) e = rw here (60000103, served-Served)
server a (inr (inr absent)) e = absurd absent

renew_safe_example :
    (a : Attempt) × (t : Moment) × Mem a script
    × Served 3 a 60 t
    × (45000100 + 60 * 250000 + 3 ≤ t)
    × ((now : Moment) → 45000100 ≤ now → (watch now extended).cancel ≡ true)
    × ((now : Moment) → now < 45000100 + 60 * 250000 → now + 3 < t)
renew_safe_example = renew_safe 3 (some "test.started") script keeper extended server renew-run

-- The server does not answer until the deadline.
abbrev last : Attempt
last = record broken { sent_at = 45000000 }

abbrev pub refused : Attempt
refused = record broken { answer = status_error 403 }

-- A draw in the middle.
abbrev pub middle : ℕ → ℕ → ℕ
middle a b = (a + b) / 2

pub middle-IsUniform : IsUniform middle
middle-IsUniform a b h = (omega arith, omega arith)

abbrev pub idle : IdleSchedule
idle = record {
  minimum = 5000000;
  maximum = 60000000;
  heartbeat_interval = 30000000;
  delay = 10000000;
  next_poll = 0;
  next_heartbeat = 7000000;
}

idle-IsBounded : IsBounded idle
idle-IsBounded = record { least = omega arith; most = omega arith }
