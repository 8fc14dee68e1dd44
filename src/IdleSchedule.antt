-- ===== src/IdleSchedule.antt =====
-- `IdleSchedule` of workers/evaluator/scheduling.py: when an idle worker polls for a job and sends a
-- heartbeat. Moments and delays are whole microseconds, and `rng.uniform` is a parameter. Its draw
-- between 0.9 and 1 is a number of thousandths.
pub mod Bounds
use agent_bench_x.Prelude.{ℕ, ◌+◌, ◌-◌, ◌*◌, ◌/◌, ◌≤◌, Bool, leb, min, max}
use agent_bench_x.Models.{Moment, second}

pub record IdleSchedule : Type 0 where
  pub minimum : ℕ
  pub maximum : ℕ
  pub heartbeat_interval : ℕ
  pub delay : ℕ
  pub next_poll : Moment
  pub next_heartbeat : Moment

-- `__init__`
unfoldable pub init : ℕ → ℕ → ℕ → IdleSchedule
init minimum maximum heartbeat_interval = record {
  minimum = minimum;
  maximum = maximum;
  heartbeat_interval = heartbeat_interval;
  delay = minimum;
  next_poll = 0;
  next_heartbeat = 0;
}

unfoldable pub heartbeat_due : IdleSchedule → Moment → Bool
heartbeat_due s now = leb s.next_heartbeat now

unfoldable pub poll_due : IdleSchedule → Moment → Bool
poll_due s now = leb s.next_poll now

unfoldable pub found : IdleSchedule → IdleSchedule
found s = record s { delay = s.minimum; next_poll = 0 }

unfoldable pub wait_seconds : IdleSchedule → Moment → ℕ
wait_seconds s now = min s.next_poll s.next_heartbeat - now

-- A draw lies between its bounds.
abbrev pub IsUniform : (ℕ → ℕ → ℕ) → Type 0
IsUniform uniform = (a b : ℕ) → a ≤ b → (a ≤ uniform a b) × (uniform a b ≤ b)

module _ (uniform : ℕ → ℕ → ℕ) where
  unfoldable pub startup_delay : IdleSchedule → ℕ
  startup_delay s = uniform 0 (min s.minimum (5 * second))

  unfoldable pub heartbeat_sent : IdleSchedule → Moment → IdleSchedule
  heartbeat_sent s now = record s {
    next_heartbeat = now + s.heartbeat_interval * uniform 900 1000 / 1000;
  }

  unfoldable pub empty : IdleSchedule → Moment → IdleSchedule
  empty s now = record s {
    next_poll = now + uniform (max s.minimum (s.delay * 4 / 5)) s.delay;
    delay = min s.maximum (s.delay * 2);
  }
