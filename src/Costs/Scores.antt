-- ===== src/Costs/Scores.antt =====
-- The sums and the score of `CostCalculator.calculate`.
use agent_bench_x.Prelude.{ℕ, ◌+◌, ◌≤◌, ◌<◌, ◌≡◌, ◌↔◌, refl, List, [], ◌∷◌, arith, length, count_if}
use agent_bench_x.Models.{TestInput, ResultInput}
use agent_bench_x.Costs.{is_passed, is_failed, is_skipped, score_of, calculate}

counts-length :
    (tests : List TestInput)
    → count_if is_passed tests + count_if is_failed tests + count_if is_skipped tests ≡ length tests
unfolding count_if
counts-length [] = omega arith
counts-length (t ∷ tests) = ground (arith, counts-length tests)

-- Each reported test is counted once, as passed, failed or skipped.
pub calculate-counts :
    (result : ResultInput)
    → let metrics = calculate result in
      (metrics.total_tests ≡ length result.tests)
      × (metrics.tests_passed + metrics.tests_failed + metrics.tests_skipped ≡ metrics.total_tests)
unfolding calculate
calculate-counts result = (refl, counts-length result.tests)

score_bounds :
    (p f : ℕ)
    → (0 < (score_of p f).denominator) × ((score_of p f).numerator ≤ (score_of p f).denominator)
score_bounds p f = ground arith

score_full :
    (p f : ℕ) → ((score_of p f).numerator ≡ (score_of p f).denominator) ↔ ((0 < p) × (f ≡ 0))
score_full p f = ground arith

-- The score is a fraction between 0 and 1. It is 1 exactly when a test passed and none failed.
pub calculate_score :
    (result : ResultInput)
    → let metrics = calculate result in
      (0 < metrics.score.denominator)
      × (metrics.score.numerator ≤ metrics.score.denominator)
      × ((metrics.score.numerator ≡ metrics.score.denominator)
          ↔ ((0 < metrics.tests_passed) × (metrics.tests_failed ≡ 0)))
unfolding calculate
calculate_score result =
    let p = count_if is_passed result.tests in
    let f = count_if is_failed result.tests in
    ((score_bounds p f).0, (score_bounds p f).1, score_full p f)
