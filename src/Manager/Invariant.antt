-- ===== src/Manager/Invariant.antt =====
-- What the tables of jobs and evaluations satisfy between transactions.
use agent_bench_x.Prelude.{
  ℕ, ◌+◌, ◌≤◌, ◌<◌, ◌≡◌, Bool, true, not, ◌&&◌, ◌⊎◌, some, List, [], ◌∷◌, ◌++◌, arith, ltb, is_some,
  one_if, find_first, count_if, count_if-append, count_if_mono, ℕ_order, inl, inr,
  count_if-replace_first, find_first-counted, find_first-none_of_count,
}
use agent_bench_x.Models.{RunnerJob, JobStatus, Evaluation, is_active}
use agent_bench_x.Manager.Tables.{
  has_id, is_attempt, is_active_of, of_job, put_job, Tables, ok, new_job, insert_jobs,
}

-- A job that has not ended.
abbrev pub is_open : JobStatus → Bool
is_open JobStatus.queued = true
is_open s = is_active s

abbrev pub is_open_attempt : ℕ → ℕ → RunnerJob → Bool
is_open_attempt s a job = is_attempt s a job && is_open job.status

abbrev pub is_open_id : ℕ → RunnerJob → Bool
is_open_id i job = has_id i job && is_open job.status

-- An active job without a worker, a token or a lease.
abbrev pub is_unleased : RunnerJob → Bool
is_unleased job =
    is_active job.status
    && not (is_some job.worker_id && is_some job.lease_token && is_some job.lease_expires_at)

abbrev pub is_over_limit : ℕ → RunnerJob → Bool
is_over_limit limit job = ltb limit job.attempt

pub record IsConsistent (limit : ℕ) (jobs : List RunnerJob) (evaluations : List Evaluation)
    : Type 0 where
  -- Ids, and attempts of one submission, are distinct.
  pub ids : (i : ℕ) → count_if (has_id i) jobs ≤ 1
  pub attempts : (s a : ℕ) → count_if (is_attempt s a) jobs ≤ 1
  -- Only the last attempt of a submission is open.
  pub last_open :
      (s a b : ℕ)
      → a < b
      → (count_if (is_open_attempt s a) jobs ≡ 0) ⊎ (count_if (is_attempt s b) jobs ≡ 0)
  pub one_active : (w : ℕ) → count_if (is_active_of w) jobs ≤ 1
  pub leased : count_if is_unleased jobs ≡ 0
  pub limited : count_if (is_over_limit limit) jobs ≡ 0
  -- An open job has no evaluation, an ended one at most one, and each belongs to a job.
  pub unevaluated :
      (i : ℕ) → (count_if (is_open_id i) jobs ≡ 0) ⊎ (count_if (of_job i) evaluations ≡ 0)
  pub evaluated_once : (i : ℕ) → count_if (of_job i) evaluations ≤ 1
  pub evaluated_jobs : (i : ℕ) → count_if (has_id i) jobs ≡ 0 → count_if (of_job i) evaluations ≡ 0

-- A row is overwritten by a row of the same job that is open or over the limit only if the old one was, and that
-- has a lease while it is active.
pub record IsUpdate (old new : RunnerJob) : Type 0 where
  pub id : new.id ≡ old.id
  pub submission_id : new.submission_id ≡ old.submission_id
  pub attempt : new.attempt ≡ old.attempt
  pub open_before : one_if (is_open new.status) ≤ one_if (is_open old.status)
  pub has_lease : is_unleased new ≡ Bool.false

pub open-le-attempt :
    (s a : ℕ) (rows : List RunnerJob)
    → count_if (is_open_attempt s a) rows ≤ count_if (is_attempt s a) rows
open-le-attempt s a rows =
    count_if_mono (is_open_attempt s a) (is_attempt s a) rows λ job h. ground arith

module _ (limit : ℕ) (jobs : List RunnerJob) (evaluations : List Evaluation)
    (v : IsConsistent limit jobs evaluations) (old new : RunnerJob)
    (found : find_first (has_id new.id) jobs ≡ some old) (u : IsUpdate old new) where
  counted :
      (q : RunnerJob → Bool)
      → count_if q (put_job new jobs) + one_if (q old) ≡ count_if q jobs + one_if (q new)
  counted q = count_if-replace_first q (has_id new.id) new old jobs found

  counted_old : (q : RunnerJob → Bool) → one_if (q old) ≤ count_if q jobs
  counted_old q = find_first-counted (has_id new.id) q jobs old found

  pub put_job-IsConsistent :
      ((w : ℕ) → count_if (is_active_of w) (put_job new jobs) ≤ 1)
      → IsConsistent limit (put_job new jobs) evaluations
  put_job-IsConsistent active = record {
    ids = λ i. ground (arith, v.ids i, counted (has_id i), u.id);
    attempts = λ s a. ground (arith, v.attempts s a, counted (is_attempt s a));
    last_open = λ s a b h. ground (
      arith,
      v.last_open s a b h,
      counted (is_open_attempt s a),
      counted (is_attempt s b),
      counted_old (is_open_attempt s a),
    );
    one_active = active;
    leased = ground (arith, v.leased, counted is_unleased);
    limited = ground (arith, v.limited, counted (is_over_limit limit));
    unevaluated =
        λ i. ground (arith, v.unevaluated i, counted (is_open_id i), counted_old (is_open_id i));
    evaluated_once = v.evaluated_once;
    evaluated_jobs = λ i h. ground (arith, v.evaluated_jobs i, counted (has_id i));
  }

  -- Once the open job of a submission has ended, the submission is ready for the next attempt.
  module _ (was_open : is_open old.status ≡ true) (ended : is_open new.status ≡ Bool.false) where
    pub put_job-last :
        (b : ℕ) → old.attempt < b → count_if (is_attempt old.submission_id b) (put_job new jobs) ≡ 0
    put_job-last b h = ground (
      arith,
      v.last_open old.submission_id old.attempt b h,
      counted (is_attempt old.submission_id b),
      counted_old (is_open_attempt old.submission_id old.attempt),
      u.submission_id,
      u.attempt,
    )

    pub put_job-ended :
        (b : ℕ) → count_if (is_open_attempt old.submission_id b) (put_job new jobs) ≡ 0
    put_job-ended b = elim (ℕ_order b old.attempt) [
      | inl before ↦ ground (
        arith,
        v.last_open old.submission_id b old.attempt before,
        counted (is_open_attempt old.submission_id b),
        counted_old (is_attempt old.submission_id old.attempt),
        u.submission_id,
        u.attempt,
      )
      | inr later ↦ ground (
        arith,
        v.attempts old.submission_id old.attempt,
        v.last_open old.submission_id old.attempt b,
        open-le-attempt old.submission_id b jobs,
        counted (is_open_attempt old.submission_id b),
        counted_old (is_open_attempt old.submission_id old.attempt),
        u.submission_id,
        u.attempt,
      )
    ]

    pub put_job-closed : count_if (is_open_id old.id) (put_job new jobs) ≡ 0
    put_job-closed = ground (
      arith,
      v.ids old.id,
      count_if_mono (is_open_id old.id) (has_id old.id) jobs (λ job h. ground arith),
      counted (is_open_id old.id),
      counted_old (is_open_id old.id),
      u.id,
    )

abbrev pub Consistent : ℕ → Tables → Type 0
Consistent limit db = IsConsistent limit db.jobs db.evaluations

-- What a new attempt needs: a fresh id, and a submission whose attempts have all ended before it.
pub record IsNext (limit : ℕ) (jobs : List RunnerJob) (id s a : ℕ) : Type 0 where
  pub fresh : count_if (has_id id) jobs ≡ 0
  pub last : (b : ℕ) → a ≤ b → count_if (is_attempt s b) jobs ≡ 0
  pub ended : (b : ℕ) → count_if (is_open_attempt s b) jobs ≡ 0
  pub within : a ≤ limit

module _ (limit : ℕ) (jobs : List RunnerJob) (evaluations : List Evaluation)
    (v : IsConsistent limit jobs evaluations) (id s a t : ℕ) (n : IsNext limit jobs id s a) where
  abbrev with_new : List RunnerJob
  with_new = jobs ++ new_job id s a t ∷ []

  counted_new :
      (q : RunnerJob → Bool) → count_if q with_new ≡ count_if q jobs + one_if (q (new_job id s a t))
  unfolding count_if
  counted_new q = omega (arith, count_if-append q jobs (new_job id s a t ∷ []))

  pub append-IsConsistent : IsConsistent limit with_new evaluations
  append-IsConsistent = record {
    ids = λ i. ground (arith, v.ids i, n.fresh, counted_new (has_id i));
    attempts = λ r b. ground (arith, v.attempts r b, n.last b, counted_new (is_attempt r b));
    last_open = λ r b c h. ground (
      arith,
      v.last_open r b c h,
      n.last c,
      n.ended b,
      counted_new (is_open_attempt r b),
      counted_new (is_attempt r c),
    );
    one_active = λ w. ground (arith, v.one_active w, counted_new (is_active_of w));
    leased = ground (arith, v.leased, counted_new is_unleased);
    limited = ground (arith, v.limited, n.within, counted_new (is_over_limit limit));
    unevaluated = λ i.
        ground (arith, v.unevaluated i, v.evaluated_jobs i, n.fresh, counted_new (is_open_id i));
    evaluated_once = v.evaluated_once;
    evaluated_jobs = λ i h. ground (arith, v.evaluated_jobs i, counted_new (has_id i));
  }

  -- No constraint is violated.
  pub insert_jobs-new : insert_jobs jobs (new_job id s a t ∷ []) ≡ ok with_new
  unfolding insert_jobs
  insert_jobs-new = ground (
    arith,
    find_first-none_of_count (has_id id) jobs n.fresh,
    find_first-none_of_count (is_attempt s a) jobs (n.last a (omega arith)),
  )

-- A row of consistent tables has a lease while it is active.
pub leased-found :
    (limit : ℕ) (db : Tables) (v : Consistent limit db) (i : ℕ) (job : RunnerJob)
    → find_first (has_id i) db.jobs ≡ some job
    → is_unleased job ≡ Bool.false
leased-found limit db v i job at =
    ground (arith, v.leased, find_first-counted (has_id i) is_unleased db.jobs job at)

-- The first evaluation of a job that has ended.
module _ (limit : ℕ) (jobs : List RunnerJob) (evaluations : List Evaluation)
    (v : IsConsistent limit jobs evaluations) (e : Evaluation)
    (ended : count_if (is_open_id e.job_id) jobs ≡ 0)
    (first : count_if (of_job e.job_id) evaluations ≡ 0)
    (exists : 1 ≤ count_if (has_id e.job_id) jobs) where
  counted_evaluation :
      (i : ℕ)
      → count_if (of_job i) (evaluations ++ e ∷ [])
        ≡ count_if (of_job i) evaluations + one_if (of_job i e)
  unfolding count_if
  counted_evaluation i = omega (arith, count_if-append (of_job i) evaluations (e ∷ []))

  pub evaluate-IsConsistent : IsConsistent limit jobs (evaluations ++ e ∷ [])
  evaluate-IsConsistent = record {
    ids = v.ids;
    attempts = v.attempts;
    last_open = v.last_open;
    one_active = v.one_active;
    leased = v.leased;
    limited = v.limited;
    unevaluated = λ i. ground (arith, v.unevaluated i, ended, counted_evaluation i);
    evaluated_once = λ i. ground (arith, v.evaluated_once i, first, counted_evaluation i);
    evaluated_jobs = λ i h. ground (arith, v.evaluated_jobs i h, exists, counted_evaluation i);
  }
