-- ===== src/Junit/Limits.antt =====
-- The tests that `parse_junit` returns meet the limits of the API (apps/api/agentbenchx/schemas.py).
use Prim.Native.String.{count}
use text.Mathlib.TextLemmas.{length-nil}
use agent_bench_x.Prelude.{
  ℕ, ◌≤◌, ◌≡◌, false, Option, none, some, List, [], ◌∷◌, arith, length, inl, inr, Option-cases,
  Bool-cases,
}
use agent_bench_x.Models.{TestInput}
use agent_bench_x.Schemas.{FitsTest, FitsTests}
use agent_bench_x.Junit.{
  Node, Case, Duration, finite, negative, not_finite, not_a_number, Parsed, tests, value_error,
  parse_error, message_of, test_of, and_test, parse_cases, check_count, is_unsafe, parse_junit,
  or_node,
}
use agent_bench_x.Junit.Text.{first_chars-count, last_chars-count}

message_of-count : (n : Option Node) → count (message_of n) ≤ 10000
message_of-count none = omega (arith, length-nil)
message_of-count (some n) = first_chars-count 10000 _

test_of-FitsTest : (case : Case) (duration : ℕ) → FitsTest (test_of case duration)
test_of-FitsTest case duration = (
  last_chars-count 500 _,
  message_of-count (or_node (or_node case.failure case.error) case.skipped),
)

abbrev Fits : Parsed → Type 0
Fits (tests found) = FitsTests found
Fits _ = Unit {0}

and_test-Fits : (test : TestInput) (p : Parsed) → FitsTest test → Fits p → Fits (and_test test p)
and_test-Fits test (tests found) t f = (t, f)
and_test-Fits test (value_error e) t f = tt
and_test-Fits test parse_error t f = tt

time-Fits :
    (case : Case) (time : Duration) (rest : Parsed)
    → Fits rest
    → Fits (elim time [
      | finite duration ↦ and_test (test_of case duration) rest
      | not_a_number ↦ value_error "could not convert string to float"
      | _ ↦ value_error "Invalid JUnit duration"
    ])
time-Fits case (finite duration) rest f =
    and_test-Fits (test_of case duration) rest (test_of-FitsTest case duration) f
time-Fits case negative rest f = tt
time-Fits case not_finite rest f = tt
time-Fits case not_a_number rest f = tt

parse_cases-Fits : (cases : List Case) → Fits (parse_cases cases)
unfolding parse_cases
parse_cases-Fits [] = tt
parse_cases-Fits (case ∷ cases) =
    time-Fits case case.time (parse_cases cases) (parse_cases-Fits cases)

check_count-tests :
    (p : Parsed) (found : List TestInput)
    → check_count p ≡ tests found
    → (p ≡ tests found) × (1 ≤ length found) × (length found ≤ 10000)
check_count-tests (tests found') found h = (ground arith, ground arith, ground arith)
check_count-tests (value_error e) found h = cc
check_count-tests parse_error found h = cc

-- A report that is accepted has between 1 and 10,000 tests, and the name and the message of each
-- fit the limits of the API. Its bytes were neither empty, nor more than 5,000,000, nor did they
-- hold a document type or an entity declaration in any mix of cases.
pub parse_junit-fits :
    (fromstring : List ℕ → Option (List Case)) (bytes : List ℕ) (found : List TestInput)
    → parse_junit fromstring bytes ≡ tests found
    → (1 ≤ length found) × (length found ≤ 10000) × FitsTests found × (is_unsafe bytes ≡ false)
unfolding parse_junit
parse_junit-fits fromstring bytes found h = elim (Bool-cases (is_unsafe bytes)) [
  | inl bad ↦ absurd (ground arith)
  | inr safe ↦ elim (Option-cases (fromstring bytes)) [
    | inl e ↦ absurd (ground arith)
    | inr (cases, e) ↦
        let checked : check_count (parse_cases cases) ≡ tests found = ground arith in
        let (p, least, most) = check_count-tests (parse_cases cases) found checked in
        let fits : Fits (tests found) = rw p at (parse_cases-Fits cases) in
        (least, most, fits, safe)
  ]
]
