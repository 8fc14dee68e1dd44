-- ===== src/Costs.antt =====
-- `CostCalculator` of apps/api/agentbenchx/services.py. Costs are exact in units of 10⁻⁸ USD, so
-- `round(…, 8)` changes nothing; the score is an exact fraction.
pub mod Scores
use agent_bench_x.Prelude.{
  ℕ, zero, suc, ◌+◌, Bool, true, false, Option, none, some, length, count_if,
}
use agent_bench_x.Models.{TestStatus, TestInput, ResultInput, Ratio, EvaluationMetrics}

abbrev pub is_passed : TestInput → Bool
is_passed test = elim test.status [ TestStatus.passed ↦ true | _ ↦ false ]

abbrev pub is_failed : TestInput → Bool
is_failed test = elim test.status [ TestStatus.failed ↦ true | _ ↦ false ]

abbrev pub is_skipped : TestInput → Bool
is_skipped test = elim test.status [ TestStatus.skipped ↦ true | _ ↦ false ]

-- `a + b if a is not None and b is not None else None`
abbrev pub add_if_known : Option ℕ → Option ℕ → Option ℕ
add_if_known (some a) (some b) = some (a + b)
add_if_known _ _ = none

-- `passed / (passed + failed) if passed + failed else 0`
abbrev pub score_of : ℕ → ℕ → Ratio
score_of passed failed = elim (passed + failed) [
  | zero ↦ record { numerator = 0; denominator = 1 }
  | suc n ↦ record { numerator = passed; denominator = suc n }
]

unfoldable pub calculate : ResultInput → EvaluationMetrics
calculate result = record {
  metrics = result.metrics;
  total_tokens = add_if_known result.metrics.input_tokens result.metrics.output_tokens;
  total_cost = add_if_known result.metrics.llm_cost result.metrics.compute_cost;
  total_tests = length result.tests;
  tests_passed = count_if is_passed result.tests;
  tests_failed = count_if is_failed result.tests;
  tests_skipped = count_if is_skipped result.tests;
  score = score_of (count_if is_passed result.tests) (count_if is_failed result.tests);
  execution = result.execution;
}
