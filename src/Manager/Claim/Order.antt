-- ===== src/Manager/Claim/Order.antt =====
-- The query of `EvaluationManager.claim`: what `next_queued` selects.
use agent_bench_x.Prelude.{
  ℕ, ◌≤◌, ◌≡◌, refl, Bool, true, false, ◌&&◌, none, some, List, [], ◌∷◌, arith, inl, inr,
  Bool-cases, Option-cases, find_first, count_if, count_if_mono,
}
use agent_bench_x.Models.{RunnerJob}
use agent_bench_x.Manager.Tables.{has_id}
use agent_bench_x.Manager.Claim.{is_before, is_available, next_queued}

-- The available rows that come before `job`.
abbrev pub is_available_before : (ℕ → Bool) → RunnerJob → RunnerJob → Bool
is_available_before locked job other = is_available locked other && is_before other job

is_before_weaken :
    (a b c : RunnerJob) → is_before b a ≡ false → is_before c a ≡ true → is_before c b ≡ true
is_before_weaken a b c = ground arith

module _ (locked : ℕ → Bool) where
  -- The selected row is available.
  pub next_queued-available :
      (jobs : List RunnerJob) (job : RunnerJob)
      → next_queued locked jobs ≡ some job
      → is_available locked job ≡ true
  unfolding next_queued
  next_queued-available [] job h = ground arith
  next_queued-available (x ∷ xs) job h = elim (Option-cases (next_queued locked xs)) [
    | inl e ↦ ground arith
    | inr (y, e) ↦ ground (arith, next_queued-available xs y e)
  ]

  -- It is a row of the table: every test that it passes counts it.
  pub next_queued-counted :
      (q : RunnerJob → Bool) (jobs : List RunnerJob) (job : RunnerJob)
      → next_queued locked jobs ≡ some job
      → q job ≡ true
      → 1 ≤ count_if q jobs
  unfolding next_queued count_if
  next_queued-counted q [] job h t = ground arith
  next_queued-counted q (x ∷ xs) job h t = elim (Option-cases (next_queued locked xs)) [
    | inl e ↦ ground arith
    | inr (y, e) ↦ ground (arith, next_queued-counted q xs y e)
  ]

  -- Nothing is selected only where nothing is available.
  pub next_queued-none :
      (jobs : List RunnerJob)
      → next_queued locked jobs ≡ none
      → count_if (is_available locked) jobs ≡ 0
  unfolding next_queued count_if
  next_queued-none [] h = refl
  next_queued-none (x ∷ xs) h = ground (arith, next_queued-none xs)

  before_available :
      (job : RunnerJob) (jobs : List RunnerJob)
      → count_if (is_available_before locked job) jobs ≤ count_if (is_available locked) jobs
  before_available job jobs =
      count_if_mono (is_available_before locked job) (is_available locked) jobs
        λ other h. ground arith

  before_earlier :
      (a b : RunnerJob) (jobs : List RunnerJob)
      → is_before b a ≡ false
      → count_if (is_available_before locked a) jobs ≤ count_if (is_available_before locked b) jobs
  before_earlier a b jobs h =
      count_if_mono (is_available_before locked a) (is_available_before locked b) jobs
        λ other t. ground (arith, is_before_weaken a b other h)

  before_irrefl : (a : RunnerJob) → is_before a a ≡ false
  before_irrefl a = ground arith

  before_asym : (a b : RunnerJob) → is_before a b ≡ true → is_before b a ≡ false
  before_asym a b h = ground arith

  -- No available row comes before it.
  pub next_queued-first :
      (jobs : List RunnerJob) (job : RunnerJob)
      → next_queued locked jobs ≡ some job
      → count_if (is_available_before locked job) jobs ≡ 0
  unfolding next_queued count_if
  next_queued-first [] job h = refl
  next_queued-first (x ∷ xs) job h = elim (Option-cases (next_queued locked xs)) [
    | inl e ↦ ground (arith, next_queued-none xs e, before_available job xs, before_irrefl job)
    | inr (y, e) ↦ elim (Bool-cases (is_before y x)) [
      | inl older ↦ ground (arith, next_queued-first xs y e, before_irrefl y, before_asym y x older)
      | inr newer ↦
          ground (arith, next_queued-first xs y e, before_irrefl x, before_earlier x y xs newer)
    ]
  ]

  -- Where ids are distinct, it is the row that its id finds.
  pub next_queued-found :
      (jobs : List RunnerJob) (job : RunnerJob)
      → next_queued locked jobs ≡ some job
      → count_if (has_id job.id) jobs ≤ 1
      → find_first (has_id job.id) jobs ≡ some job
  unfolding next_queued count_if find_first
  next_queued-found [] job h u = ground arith
  next_queued-found (x ∷ xs) job h u = elim (Option-cases (next_queued locked xs)) [
    | inl e ↦ ground arith
    | inr (y, e) ↦
        ground (arith, next_queued-found xs y e, next_queued-counted (has_id y.id) xs y e)
  ]
