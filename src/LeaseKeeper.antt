-- ===== src/LeaseKeeper.antt =====
-- `LeaseKeeper` of workers/evaluator/lease.py: a worker renews the lease of its job and stops work
-- before the lease can end on the server. Moments are those of the worker's monotonic clock, in
-- microseconds. A script of attempts stands for the server, the network and the other threads.
pub mod Safety
use agent_bench_x.Prelude.{
  ℕ, ◌+◌, ◌-◌, ◌*◌, ◌/◌, String, Bool, true, false, ◌||◌, Option, none, some, List, [], ◌∷◌, ltb,
  leb, min, if◌then◌else◌,
}
use agent_bench_x.Models.{Moment, seconds}

-- What `client.job_heartbeat` does: it returns, or it raises `httpx.TransportError`,
-- `httpx.HTTPStatusError` or another exception.
pub data Answer : Type 0 where
  acknowledged transport_error other_error : Answer
  status_error : ℕ → Answer

-- One round of the loop: whether the event `cancel` is set when the round begins, the moment of
-- sending, the answer, whether `cancel` is set when it has come, and the moment of that test.
pub record Attempt : Type 0 where
  pub cancelled_before : Bool
  pub sent_at : Moment
  pub answer : Answer
  pub cancelled_after : Bool
  pub received_at : Moment

pub record Keeper : Type 0 where
  pub lease_seconds : ℕ
  pub interval : Moment
  pub cancel : Bool
  pub deadline : Moment
  pub event : String

-- How `renew` ends: it returns, it raises `RuntimeError`, or it passes on what the client raised.
-- `pending` means that the script ends before `renew` does.
pub data Renewal : Type 0 where
  renewed lost raised pending : Renewal

-- `job["lease_seconds"] * 0.75`
abbrev pub window : ℕ → Moment
window lease_seconds = lease_seconds * 750000

-- `__init__`, with the wanted interval in microseconds.
abbrev pub init : Moment → ℕ → Moment → Keeper
init now lease_seconds interval = record {
  lease_seconds = lease_seconds;
  interval = min interval (seconds lease_seconds / 4);
  cancel = false;
  deadline = now + window lease_seconds;
  event = "job.started";
}

abbrev pub stop : Keeper → Keeper
stop k = record k { cancel = true }

-- `isinstance(exc, httpx.HTTPStatusError) and exc.response.status_code < 500`
abbrev pub is_final : ℕ → Bool
is_final code = ltb code 500

-- The end of a round whose heartbeat was acknowledged.
abbrev pub settle : Attempt → Keeper → Renewal × Keeper
settle a k =
    if a.cancelled_after || leb k.deadline a.received_at
    then (lost, stop k)
    else (renewed, record k { deadline = a.sent_at + window k.lease_seconds })

-- The `while` loop.
unfoldable pub renew_loop : List Attempt → Keeper → Renewal × Keeper
renew_loop [] k = (pending, k)
renew_loop (a ∷ script) k =
    let again = renew_loop script k in
    if a.cancelled_before
    then (lost, stop k)
    else if leb k.deadline a.sent_at
    then (lost, stop k)
    else elim a.answer [
      | acknowledged ↦ settle a k
      | transport_error ↦ again
      | other_error ↦ (raised, k)
      | status_error code ↦ if is_final code then (raised, stop k) else again
    ]

abbrev pub set_event : Option String → Keeper → Keeper
set_event none k = k
set_event (some e) k = record k { event = e }

unfoldable pub renew : Option String → List Attempt → Keeper → Renewal × Keeper
renew event script k = if k.cancel then (lost, k) else renew_loop script (set_event event k)

-- One round of `renew_loop` of `__enter__`: any exception of `renew` cancels the job.
abbrev pub after_renewal : Renewal × Keeper → Keeper
after_renewal (renewed, k) = k
after_renewal (pending, k) = k
after_renewal (_, k) = stop k

unfoldable pub renewal_round : List Attempt → Keeper → Keeper
renewal_round script k = after_renewal (renew none script k)

-- One round of `watchdog`.
unfoldable pub watch : Moment → Keeper → Keeper
watch now k = if leb k.deadline now then stop k else k
