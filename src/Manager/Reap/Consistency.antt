-- ===== src/Manager/Reap/Consistency.antt =====
-- The first transaction of `EvaluationManager.reap` always commits, and keeps the tables consistent.
use agent_bench_x.Prelude.{
  ℕ, zero, suc, ◌+◌, ◌≤◌, ◌<◌, ◌≡◌, ◌⊎◌, inl, inr, refl, Bool, true, false, List, ◌++◌, arith,
  count_if, count_if-append, count_if_mono, ==→≡,
}
use native.Mathlib.Decide.{ℕ_discrete}
use agent_bench_x.Models.{RunnerJob, Settings, Moment}
use agent_bench_x.Manager.Tables.{Tables, ok, has_id, is_attempt, is_active_of}
use agent_bench_x.Manager.Invariant.{
  IsConsistent, Consistent, is_open_attempt, is_open_id, is_unleased, is_over_limit,
  open-le-attempt,
}
use agent_bench_x.Manager.Reap.{
  expire, retry_jobs, ended_jobs, failed_notices, retry_notices, reap_jobs, may_retry, retry_job,
}
use agent_bench_x.Manager.Reap.Retries.{
  insert_jobs-distinct, count_if-expire, count_if-expire-le, retries-counted, count_if-retries,
  open-retries, retries-ids,
}

module _ (settings : Settings) (locked : ℕ → Bool) (uid : ℕ → ℕ) (now : ℕ → Moment) (limit : ℕ)
    (db : Tables) (within : settings.max_attempts ≤ limit)
    (distinct : (j k : ℕ) → uid j ≡ uid k → j ≡ k)
    (fresh : (k : ℕ) → count_if (has_id (uid k)) db.jobs ≡ 0) (v : Consistent limit db) where
  abbrev kept : List RunnerJob
  kept = expire settings locked uid now 0 db.jobs

  abbrev added : List RunnerJob
  added = retry_jobs settings locked uid now 0 db.jobs

  both : (q : RunnerJob → Bool) → count_if q (kept ++ added) ≡ count_if q kept + count_if q added
  both q = count_if-append q kept added

  kept-ids : (i : ℕ) → count_if (has_id i) kept ≡ count_if (has_id i) db.jobs
  kept-ids i = count_if-expire settings locked uid now (has_id i) (λ k job. refl) 0 db.jobs

  kept-attempts : (s a : ℕ) → count_if (is_attempt s a) kept ≡ count_if (is_attempt s a) db.jobs
  kept-attempts s a =
      count_if-expire settings locked uid now (is_attempt s a) (λ k job. refl) 0 db.jobs

  kept-open :
      (s a : ℕ) → count_if (is_open_attempt s a) kept ≤ count_if (is_open_attempt s a) db.jobs
  kept-open s a =
      count_if-expire-le settings locked uid now (is_open_attempt s a) (λ k job. ground arith) 0
        db.jobs

  kept-open_id : (i : ℕ) → count_if (is_open_id i) kept ≤ count_if (is_open_id i) db.jobs
  kept-open_id i =
      count_if-expire-le settings locked uid now (is_open_id i) (λ k job. ground arith) 0 db.jobs

  kept-active : (w : ℕ) → count_if (is_active_of w) kept ≤ count_if (is_active_of w) db.jobs
  kept-active w =
      count_if-expire-le settings locked uid now (is_active_of w) (λ k job. ground arith) 0 db.jobs

  -- A retry bears no id that the table has.
  added-new : (i : ℕ) → (count_if (has_id i) db.jobs ≡ 0) ⊎ (count_if (has_id i) added ≡ 0)
  added-new i = elim (ℕ_discrete (count_if (has_id i) db.jobs) 0) [
    | yes absent ↦ inl absent
    | no present ↦ inr (
        count_if-retries settings locked uid now (has_id i)
          (λ k job _. ground (arith, fresh k, ==→≡ (uid k) i)) 0 db.jobs)
  ]

  added-first : (s : ℕ) → count_if (is_attempt s 0) added ≡ 0
  added-first s =
      count_if-retries settings locked uid now (is_attempt s 0) (λ k job _. ground arith) 0 db.jobs

  joined-ids : (i : ℕ) → count_if (has_id i) (kept ++ added) ≤ 1
  joined-ids i = ground (
    arith,
    both (has_id i),
    kept-ids i,
    v.ids i,
    added-new i,
    retries-ids settings locked uid now distinct i 0 db.jobs,
  )

  joined-attempts : (s a : ℕ) → count_if (is_attempt s a) (kept ++ added) ≤ 1
  joined-attempts s zero =
      ground (arith, both (is_attempt s 0), kept-attempts s 0, v.attempts s 0, added-first s)
  joined-attempts s (suc b) = ground (
    arith,
    both (is_attempt s (suc b)),
    kept-attempts s (suc b),
    v.attempts s (suc b),
    v.attempts s b,
    v.last_open s b (suc b) (omega arith),
    retries-counted settings locked uid now s b 0 db.jobs,
    open-le-attempt s b db.jobs,
  )

  abbrev Ordered : ℕ → ℕ → ℕ → Type 0
  Ordered s a b =
      (count_if (is_open_attempt s a) (kept ++ added) ≡ 0)
      ⊎ (count_if (is_attempt s b) (kept ++ added) ≡ 0)

  joined-first : (s c : ℕ) → Ordered s 0 (suc c)
  joined-first s c = ground (
    arith,
    both (is_open_attempt s 0),
    both (is_attempt s (suc c)),
    kept-open s 0,
    kept-attempts s (suc c),
    added-first s,
    open-retries settings locked uid now s 0 0 db.jobs,
    retries-counted settings locked uid now s c 0 db.jobs,
    v.last_open s 0 (suc c) (omega arith),
    v.last_open s 0 c,
    v.attempts s 0,
    open-le-attempt s c db.jobs,
  )

  joined-later : (s d c : ℕ) → suc d < suc c → Ordered s (suc d) (suc c)
  joined-later s d c h = ground (
    arith,
    both (is_open_attempt s (suc d)),
    both (is_attempt s (suc c)),
    kept-open s (suc d),
    kept-attempts s (suc c),
    open-retries settings locked uid now s (suc d) 0 db.jobs,
    retries-counted settings locked uid now s c 0 db.jobs,
    retries-counted settings locked uid now s d 0 db.jobs,
    v.last_open s (suc d) (suc c) h,
    v.last_open s (suc d) c,
    v.last_open s d (suc c) (omega arith),
    v.last_open s d c (omega arith),
    v.last_open s d (suc d) (omega arith),
    v.attempts s (suc d),
    v.attempts s c,
    open-le-attempt s c db.jobs,
    open-le-attempt s (suc d) db.jobs,
  )

  joined-last_open : (s a b : ℕ) → a < b → Ordered s a b
  joined-last_open s zero zero h = absurd (omega arith)
  joined-last_open s (suc d) zero h = absurd (omega arith)
  joined-last_open s zero (suc c) h = joined-first s c
  joined-last_open s (suc d) (suc c) h = joined-later s d c h

  never :
      (q : RunnerJob → Bool)
      → ((k : ℕ) (job : RunnerJob)
          → may_retry settings locked uid now job ≡ true
          → q (retry_job settings locked uid now k job) ≡ false)
      → count_if q added ≡ 0
  never q h = count_if-retries settings locked uid now q h 0 db.jobs

  joined-IsConsistent : IsConsistent limit (kept ++ added) db.evaluations
  joined-IsConsistent = record {
    ids = joined-ids;
    attempts = joined-attempts;
    last_open = joined-last_open;
    one_active = λ w. ground (
      arith,
      both (is_active_of w),
      kept-active w,
      v.one_active w,
      never (is_active_of w) (λ k job h. refl),
    );
    leased = ground (
      arith,
      both is_unleased,
      count_if-expire-le settings locked uid now is_unleased (λ k job. ground arith) 0 db.jobs,
      v.leased,
      never is_unleased (λ k job h. refl),
    );
    limited = ground (
      arith,
      both (is_over_limit limit),
      count_if-expire settings locked uid now (is_over_limit limit) (λ k job. refl) 0 db.jobs,
      v.limited,
      never (is_over_limit limit) (λ k job h. ground arith),
    );
    unevaluated = λ i. ground (
      arith,
      both (is_open_id i),
      kept-open_id i,
      v.unevaluated i,
      v.evaluated_jobs i,
      added-new i,
      count_if_mono (is_open_id i) (has_id i) added (λ job h. ground arith),
    );
    evaluated_once = v.evaluated_once;
    evaluated_jobs = λ i h. ground (arith, both (has_id i), kept-ids i, v.evaluated_jobs i);
  }

  -- From consistent tables, and with settings that keep the limit on attempts, the first
  -- transaction of the reaper commits whenever its new ids are distinct and new: no retry meets an
  -- attempt that is there already. The table then holds every job, those that it ended included,
  -- and the retries behind them, and is consistent.
  pub reap_jobs-Consistent :
      (db' : Tables) × (reap_jobs settings locked uid now db
        ≡ ok (
          failed_notices settings locked uid now (ended_jobs settings locked uid now 0 db.jobs),
          db',
          retry_notices settings locked uid now added,
        ))
      × (db' ≡ record db { jobs = kept ++ added })
      × Consistent limit db'
  unfolding reap_jobs
  reap_jobs-Consistent = (
    record db { jobs = kept ++ added },
    rw (insert_jobs-distinct kept added joined-ids joined-attempts),
    refl,
    joined-IsConsistent,
  )
