-- ===== src/LeaseKeeper/Safety.antt =====
-- A renewal is safe, and it ends.
use agent_bench_x.Prelude.{
  ℕ, ◌+◌, ◌*◌, ◌≤◌, ◌<◌, ◌≡◌, ◌≢◌, ◌⊎◌, inl, inr, refl, String, true, false, Option, none, some,
  List, [], ◌∷◌, arith,
}
use agent_bench_x.Models.{Moment, Worker, RunnerJob, JobHeartbeat, Settings, seconds}
use agent_bench_x.Manager.Tables.{Tables, Notice, ok}
use agent_bench_x.Manager.Lease.{heartbeat}
use agent_bench_x.Manager.Lease.Renewal.{heartbeat_extends}
use agent_bench_x.LeaseKeeper.{
  Attempt, Answer, acknowledged, transport_error, other_error, status_error, Keeper, renewed, lost,
  pending, window, renew_loop, renew, watch,
}

-- The attempt that a renewal rests on.
abbrev pub Mem : Attempt → List Attempt → Type 0
Mem a [] = ⊥
Mem a (b ∷ script) = (a ≡ b) ⊎ Mem a script

answer-cases : (a : Answer) → (a ≡ acknowledged) ⊎ (a ≢ acknowledged)
answer-cases acknowledged = inl refl
answer-cases transport_error = inr (λ e. cc)
answer-cases other_error = inr (λ e. cc)
answer-cases (status_error code) = inr (λ e. cc)

-- The attempt was sent, answered and tested before the old deadline, and the new deadline counts
-- from the moment at which it was sent.
pub record Acknowledged (a : Attempt) (k k' : Keeper) : Type 0 where
  pub answered : a.answer ≡ acknowledged
  pub sent : a.sent_at < k.deadline
  pub received : a.received_at < k.deadline
  pub uncancelled : a.cancelled_after ≡ false
  pub extended : k'.deadline ≡ a.sent_at + window k.lease_seconds
  pub working : k'.cancel ≡ k.cancel

-- The first round either ends the renewal, or leaves it to the rest of the script.
round-renewed :
    (a : Attempt) (script : List Attempt) (k k' : Keeper)
    → renew_loop (a ∷ script) k ≡ (renewed, k')
    → (renew_loop script k ≡ (renewed, k')) ⊎ Acknowledged a k k'
unfolding renew_loop
round-renewed a script k k' h = elim (answer-cases a.answer) [
  | inl e ↦ inr (ground arith)
  | inr e ↦ inl (ground arith)
]

loop-renewed :
    (script : List Attempt) (k k' : Keeper)
    → renew_loop script k ≡ (renewed, k')
    → (a : Attempt) × Mem a script × Acknowledged a k k'
unfolding renew_loop
loop-renewed [] k k' h = absurd (ground arith)
loop-renewed (a ∷ script) k k' h = elim (round-renewed a script k k' h) [
  | inr ends ↦ (a, inl refl, ends)
  | inl rest ↦ let (b, m, ends) = loop-renewed script k k' rest in (b, inr m, ends)
]

-- A renewal returns only on an acknowledged attempt of its script that was sent and received before
-- the old deadline, with `cancel` not set. The new deadline is three quarters of the lease after
-- the sending of that attempt.
pub renew-Acknowledged :
    (event : Option String) (script : List Attempt) (k k' : Keeper)
    → renew event script k ≡ (renewed, k')
    → (k.cancel ≡ false) × ((a : Attempt) × Mem a script × Acknowledged a k k')
unfolding renew
renew-Acknowledged none script k k' h = (ground arith, loop-renewed script k k' (ground arith))
renew-Acknowledged (some e) script k k' h =
    let (a, m, w) = loop-renewed script (record k { event = e }) k' (ground arith) in
    (
      ground arith,
      (
        a,
        m,
        record {
          answered = w.answered;
          sent = w.sent;
          received = w.received;
          uncancelled = w.uncancelled;
          extended = w.extended;
          working = w.working;
        },
      ),
    )

-- The attempt stands for a request that the server accepted: `heartbeat` of the control plane, with
-- a lease of the length that the worker knows, at moments after the sending. The worker reads a
-- monotonic clock and the server the UTC time; the two run alike, the server's being ahead by `offset`.
pub record Served (offset : Moment) (a : Attempt) (lease_seconds : ℕ) (expires : Moment)
    : Type 0 where
  pub settings : Settings
  pub now : ℕ → Moment
  pub worker : Worker
  pub id : ℕ
  pub beat : JobHeartbeat
  pub before : Tables
  pub after : Tables
  pub job : RunnerJob
  pub notices : List Notice
  pub accepted : heartbeat settings now worker id beat before ≡ ok (job, after, notices)
  pub same_length : settings.lease_seconds ≡ lease_seconds
  pub later : a.sent_at + offset ≤ now 3
  pub expiry : job.lease_expires_at ≡ some expires

Served-expiry :
    (offset : Moment) (a : Attempt) (lease_seconds expires : ℕ)
    → Served offset a lease_seconds expires
    → a.sent_at + offset + seconds lease_seconds ≤ expires
Served-expiry offset a lease_seconds expires s =
    let facts =
      heartbeat_extends s.settings s.now s.worker s.id s.beat s.before s.after s.job s.notices
        s.accepted in
    let until = facts.5 in ground (arith, until, s.expiry, s.same_length, s.later)

-- The safety margin of a renewal. Let each attempt that was acknowledged be a heartbeat that the
-- server accepted after it was sent, and let the server's clock be ahead of the worker's by `offset`
-- throughout. Then after a renewal the worker's deadline lies a quarter of the lease before the end of a
-- lease that the server has granted. A round of the watchdog at the deadline or later sets `cancel`,
-- and every round within that quarter comes before the server's lease is over.
pub renew_safe :
    (offset : Moment) (event : Option String) (script : List Attempt) (k k' : Keeper)
    → ((a : Attempt)
        → Mem a script
        → a.answer ≡ acknowledged
        → (t : Moment) × Served offset a k.lease_seconds t)
    → renew event script k ≡ (renewed, k')
    → (a : Attempt) × (t : Moment) × Mem a script
      × Served offset a k.lease_seconds t
      × (k'.deadline + k.lease_seconds * 250000 + offset ≤ t)
      × ((now : Moment) → k'.deadline ≤ now → (watch now k').cancel ≡ true)
      × ((now : Moment) → now < k'.deadline + k.lease_seconds * 250000 → now + offset < t)
unfolding watch
renew_safe offset event script k k' server h =
    let (_, (a, m, w)) = renew-Acknowledged event script k k' h in
    let (t, s) = server a m w.answered in
    let margin : k'.deadline + k.lease_seconds * 250000 + offset ≤ t =
      omega (arith, Served-expiry offset a k.lease_seconds t s, w.extended) in
    (a, t, m, s, margin, (λ now due. ground arith), (λ now before. omega (arith, margin, before)))

loop-ends :
    (script : List Attempt) (k : Keeper) (a : Attempt)
    → Mem a script
    → k.deadline ≤ a.sent_at
    → (renew_loop script k).0 ≢ pending
unfolding renew_loop
loop-ends [] k a m late = absurd m
loop-ends (b ∷ script) k a (inl here) late = ground arith
loop-ends (b ∷ script) k a (inr later) late = ground (arith, loop-ends script k a later late)

-- A renewal ends at the latest with the first attempt that begins at the deadline or after it.
pub renew_ends :
    (event : Option String) (script : List Attempt) (k : Keeper) (a : Attempt)
    → Mem a script
    → k.deadline ≤ a.sent_at
    → (renew event script k).0 ≢ pending
unfolding renew
renew_ends none script k a m late = ground (arith, loop-ends script k a m late)
renew_ends (some e) script k a m late =
    ground (arith, loop-ends script (record k { event = e }) a m late)

loop-fails :
    (script : List Attempt) (k : Keeper)
    → (renew_loop script k).0 ≢ renewed
    → ((renew_loop script k).1.deadline ≡ k.deadline)
      × ((renew_loop script k).0 ≡ lost → (renew_loop script k).1.cancel ≡ true)
unfolding renew_loop
loop-fails [] k h = ground arith
loop-fails (a ∷ script) k h = ground (arith, loop-fails script k)

-- A renewal that does not return never moves the deadline; where it raises because the lease is
-- lost, `cancel` is set.
pub renew_fails :
    (event : Option String) (script : List Attempt) (k : Keeper)
    → (renew event script k).0 ≢ renewed
    → ((renew event script k).1.deadline ≡ k.deadline)
      × ((renew event script k).0 ≡ lost → (renew event script k).1.cancel ≡ true)
unfolding renew
renew_fails none script k h = ground (arith, loop-fails script k)
renew_fails (some e) script k h = ground (arith, loop-fails script (record k { event = e }))
