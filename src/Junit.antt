-- ===== src/Junit.antt =====
-- workers/evaluator/results.py: the test cases of a JUnit report, and the size of a patch.
-- `ET.fromstring` and the search for elements and attributes are the XML library's: the report is
-- taken as the list of its `testcase` elements, in document order. A duration is a number of
-- microseconds.
pub mod Text
pub mod Limits
use Prim.Native.String.{count}
use agent_bench_x.Prelude.{
  ℕ, suc, zero, String, Bool, true, false, not, ◌&&◌, ◌||◌, Option, none, some, List, [], ◌∷◌, ltb,
  leb, ◌==◌, if◌then◌else◌, length,
}
use agent_bench_x.Models.{TestStatus, TestInput}
use Text.{starts_with, contains, upper, first_chars, last_chars, append}

-- A `failure`, `error` or `skipped` element: its attribute `message` and its text.
pub record Node : Type 0 where
  pub message : Option String
  pub text : Option String

-- What `float` makes of the attribute `time`: a finite duration, or what the code refuses.
pub data Duration : Type 0 where
  finite : ℕ → Duration
  negative not_finite not_a_number : Duration

pub record Case : Type 0 where
  pub failure : Option Node
  pub error : Option Node
  pub skipped : Option Node
  pub time : Duration
  pub classname : Option String
  pub name : Option String

pub data Parsed : Type 0 where
  tests : List TestInput → Parsed
  -- `ValueError`
  value_error : String → Parsed
  -- `ET.ParseError`, which is a `SyntaxError` and no `ValueError`
  parse_error : Parsed

-- `case.find("failure")`, or else `case.find("error")`
abbrev pub or_node : Option Node → Option Node → Option Node
or_node none other = other
or_node (some n) other = some n

-- `value.get(key, default)`, and `value or ""`
abbrev pub get_or : Option String → String → String
get_or none d = d
get_or (some s) d = s

abbrev pub status_of : Option Node → Option Node → TestStatus
status_of (some n) skipped = TestStatus.failed
status_of none (some n) = TestStatus.skipped
status_of none none = TestStatus.passed

abbrev pub message_of : Option Node → String
message_of none = ""
message_of (some n) =
    first_chars 10000 (append (get_or n.message "") (append "\n" (get_or n.text "")))

abbrev pub test_of : Case → ℕ → TestInput
test_of case duration = record {
  name =
      last_chars 500 (append (get_or case.classname "") (append "::" (get_or case.name "unnamed")));
  status = status_of (or_node case.failure case.error) case.skipped;
  duration_seconds = duration;
  message = message_of (or_node (or_node case.failure case.error) case.skipped);
}

abbrev pub and_test : TestInput → Parsed → Parsed
and_test test (tests rest) = tests (test ∷ rest)
and_test test (value_error e) = value_error e
and_test test parse_error = parse_error

-- The loop over the cases.
unfoldable pub parse_cases : List Case → Parsed
parse_cases [] = tests []
parse_cases (case ∷ cases) =
    let rest = parse_cases cases in
    elim case.time [
      | finite duration ↦ and_test (test_of case duration) rest
      | not_a_number ↦ value_error "could not convert string to float"
      | _ ↦ value_error "Invalid JUnit duration"
    ]

abbrev pub check_count : Parsed → Parsed
check_count (tests found) =
    if (length found == 0) || ltb 10000 (length found)
    then value_error "Verifier did not provide a supported set of JUnit test cases"
    else tests found
check_count other = other

-- b"<!DOCTYPE" and b"<!ENTITY"
abbrev pub doctype : List ℕ
doctype = b'<' ∷ b'!' ∷ b'D' ∷ b'O' ∷ b'C' ∷ b'T' ∷ b'Y' ∷ b'P' ∷ b'E' ∷ []

abbrev pub entity : List ℕ
entity = b'<' ∷ b'!' ∷ b'E' ∷ b'N' ∷ b'T' ∷ b'I' ∷ b'T' ∷ b'Y' ∷ []

abbrev pub is_unsafe : List ℕ → Bool
is_unsafe bytes =
    (length bytes == 0)
    || ltb 5000000 (length bytes)
    || contains doctype (upper bytes)
    || contains entity (upper bytes)

-- `fromstring` is the XML parser's; `none` means `ET.ParseError`.
module _ (fromstring : List ℕ → Option (List Case)) where
  abbrev pub parse_root : Option (List Case) → Parsed
  parse_root none = parse_error
  parse_root (some cases) = check_count (parse_cases cases)

  unfoldable pub parse_junit : List ℕ → Parsed
  parse_junit bytes =
      if is_unsafe bytes
      then value_error "Missing, oversized or unsafe JUnit XML"
      else parse_root (fromstring bytes)
