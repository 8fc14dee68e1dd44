-- ===== src/Tests/Reports.antt =====
-- A JUnit report, a patch, the metrics of a result, and a run of the evaluator.
use agent_bench_x.Prelude.{
  ℕ, ◌++◌, ◌≤◌, ◌≡◌, refl, true, false, none, some, Option, List, [], ◌∷◌, length,
}
use agent_bench_x.Models.{ResultStatus, TestStatus, TestInput}
use agent_bench_x.Schemas.{FitsTests, any_failed, consistent_status}
use agent_bench_x.Junit.{Case, Duration, tests, parse_cases, parse_junit, is_unsafe}
use agent_bench_x.Junit.Text.{contains, upper, starts_with, last_chars, drop_chars}
use agent_bench_x.Junit.Limits.{parse_junit-fits}
use agent_bench_x.PatchMetrics.{
  diff_git, lines_from, scan, scan_line, holds, line_eq, patch_metrics,
}
use agent_bench_x.PatchMetrics.Rendered.{FileDiff, HunkLine, render, unlines, patch_metrics-render}
use agent_bench_x.Evaluator.{
  Environment, Outcome, Draft, returns, evaluate, attempt, run_tests, judge, result_input,
}
use agent_bench_x.Evaluator.Verdict.{evaluate-consistent}
use agent_bench_x.Tests.Data.{metrics}

abbrev passed_case : Case
passed_case = record {
  failure = none;
  error = none;
  skipped = none;
  time = Duration.finite 1500;
  classname = some "test_math";
  name = none;
}

-- A parser that finds the one case in whatever it is given.
abbrev one_case : List ℕ → Option (List Case)
one_case bytes = some (passed_case ∷ [])

abbrev found_test : TestInput
found_test = record {
  name = "test_math::unnamed";
  status = TestStatus.passed;
  duration_seconds = 1500;
  message = "";
}

parse_junit-run : parse_junit one_case (b'<' ∷ b'a' ∷ b'>' ∷ []) ≡ tests (found_test ∷ [])
unfolding parse_junit parse_cases contains upper starts_with last_chars drop_chars
parse_junit-run = refl

parse_junit-fits_example :
    (1 ≤ length (found_test ∷ []))
    × (length (found_test ∷ []) ≤ 10000)
    × FitsTests (found_test ∷ [])
    × (is_unsafe (b'<' ∷ b'a' ∷ b'>' ∷ []) ≡ false)
parse_junit-fits_example =
    parse_junit-fits one_case (b'<' ∷ b'a' ∷ b'>' ∷ []) (found_test ∷ []) parse_junit-run

-- "+++ b/x" in the header, and one line replaced by two.
abbrev diff : List FileDiff
diff =
    record {
      names = b'x' ∷ [];
      headers = (b'+' ∷ b'+' ∷ b'+' ∷ b' ' ∷ b'x' ∷ []) ∷ [];
      hunks =
          record {
            range = b' ' ∷ [];
            lines =
                HunkLine.removed (b'-' ∷ [])
                ∷ HunkLine.added []
                ∷ HunkLine.added (b'+' ∷ b'+' ∷ [])
                ∷ [];
          }
          ∷ [];
    }
    ∷ []

patch_metrics-render_example :
    patch_metrics (unlines (render diff))
    ≡ record { files_changed = 1; insertions = 2; deletions = 1 }
unfolding patch_metrics scan scan_line holds line_eq starts_with
patch_metrics-render_example =
    patch_metrics-render diff ((refl, refl, tt), tt) (refl, tt)
      (refl, (refl, (refl, (refl, (refl, (refl, tt))))))

-- A form feed ends a line too, so that what stands behind it in an added line is counted once more.
patch_metrics-form_feed :
    patch_metrics (diff_git ++ b'x' ∷ 10 ∷ b'@' ∷ b'@' ∷ 10 ∷ b'+' ∷ b'a' ∷ 12 ∷ b'+' ∷ 10 ∷ [])
    ≡ record { files_changed = 1; insertions = 2; deletions = 0 }
unfolding patch_metrics scan scan_line holds line_eq starts_with lines_from
patch_metrics-form_feed = refl

abbrev pub clean : Outcome
clean = record { exit_code = 0; stdout = "out"; stderr = ""; timed_out = false; cancelled = false }

abbrev pub calm : Environment
calm = record {
  create = returns tt;
  download_agent = returns tt;
  prepare_problem = returns tt;
  cancelled_early = false;
  prepare = returns "image";
  renew = λ event. none;
  execute_agent = returns clean;
  collect_patch = returns "diff";
  write_candidate = returns tt;
  execute_test = returns clean;
  collect_test = returns (record { junit = b'<' ∷ []; no_reward = false });
  cancelled_late = false;
  build_stdout = none;
  build_stderr = none;
  destroy = returns tt;
}

abbrev verdict : Draft
verdict = record {
  status = ResultStatus.completed;
  failure_type = none;
  tests = found_test ∷ [];
  stdout = "out";
  stderr = "\n";
  agent_output = "out";
  patch = "diff";
  image_id = some "image";
  agent_evidence = some clean;
  test_evidence = some clean;
  error = none;
}

evaluate-run : evaluate one_case calm ≡ returns verdict
unfolding evaluate attempt run_tests judge parse_junit parse_cases any_failed contains upper
    starts_with last_chars drop_chars
evaluate-run = refl

evaluate-consistent_example : consistent_status (result_input "t" metrics verdict) ≡ true
evaluate-consistent_example = evaluate-consistent "t" metrics one_case calm verdict evaluate-run
