-- ===== src/Evaluator.antt =====
-- `Evaluator.evaluate` of workers/evaluator/evaluator.py: the run of one job on a worker. What the
-- sandbox, the client, the lease and the file system do is given by an `Environment`, one answer
-- for each call; the result is built up as in the code, and an exception leaves what was built.
pub mod Verdict
use agent_bench_x.Prelude.{
  ℕ, zero, suc, ◌+◌, String, Bool, true, false, not, ◌&&◌, ◌||◌, Option, none, some, List, [], ◌∷◌,
  ◌==◌, if◌then◌else◌,
}
use agent_bench_x.Models.{
  ResultStatus, FailureType, TestInput, Metrics, ProcessEvidence, ResultInput,
}
use agent_bench_x.Junit.{Case, Parsed, tests, value_error, parse_error, parse_junit}
use agent_bench_x.Junit.Text.{append, last_chars}
use agent_bench_x.Schemas.{any_failed}

-- `CleanupError`, `InputError`, or the type's name of any other exception.
pub data Exception : Type 0 where
  cleanup_error : Exception
  input_error : String → Exception
  other_error : String → Exception

pub data Answer {ℓ} (A : Type ℓ) : Type ℓ where
  returns : A → Answer A
  raises : Exception → Answer A

-- `Outcome` of workers/evaluator/process.py; exit codes of containers are not negative.
pub record Outcome : Type 0 where
  pub exit_code : ℕ
  pub stdout : String
  pub stderr : String
  pub timed_out : Bool
  pub cancelled : Bool

pub record Collected : Type 0 where
  pub junit : List ℕ
  -- `reward.strip() == b"0"`
  pub no_reward : Bool

pub record Environment : Type 0 where
  pub create : Answer (Unit {0})
  -- Download and check of the agent, and the problem's files.
  pub download_agent : Answer (Unit {0})
  pub prepare_problem : Answer (Unit {0})
  -- `lease.cancel.is_set()` after the preparation, and after the tests.
  pub cancelled_early : Bool
  pub prepare : Answer String
  -- `lease.renew(event)`: the type's name of what it raises, never an `InputError` or a
  -- `CleanupError`.
  pub renew : String → Option String
  pub execute_agent : Answer Outcome
  pub collect_patch : Answer String
  pub write_candidate : Answer (Unit {0})
  pub execute_test : Answer Outcome
  pub collect_test : Answer Collected
  pub cancelled_late : Bool
  pub build_stdout : Option String
  pub build_stderr : Option String
  pub destroy : Answer (Unit {0})

-- The dictionary `result`, less the metrics.
pub record Draft : Type 0 where
  pub status : ResultStatus
  pub failure_type : Option FailureType
  pub tests : List TestInput
  pub stdout : String
  pub stderr : String
  pub agent_output : String
  pub patch : String
  pub image_id : Option String
  pub agent_evidence : Option Outcome
  pub test_evidence : Option Outcome
  pub error : Option String

abbrev pub initial : Draft
initial = record {
  status = ResultStatus.failed;
  failure_type = some FailureType.infrastructure_failure;
  tests = [];
  stdout = "";
  stderr = "";
  agent_output = "";
  patch = "";
  image_id = none;
  agent_evidence = none;
  test_evidence = none;
  error = none;
}

-- A statement of the `try` block: it updates the draft and returns or raises.
abbrev pub Run {ℓ} : Type ℓ → Type ℓ
Run A = Draft → Answer A × Draft

abbrev pub continue {ℓ κ} :
    {A : Type ℓ} {B : Type κ} → Answer A → (A → Draft → Answer B × Draft) → Draft → Answer B × Draft
continue (returns a) f d = f a d
continue (raises e) f d = (raises e, d)

infixl 5 ◌>>=◌ ◌>>◌
abbrev pub ◌>>=◌ {ℓ κ} : {A : Type ℓ} {B : Type κ} → Run A → (A → Run B) → Run B
◌>>=◌ m f d = let (a, d') = m d in continue a f d'

abbrev pub ◌>>◌ {ℓ κ} : {A : Type ℓ} {B : Type κ} → Run A → Run B → Run B
m >> k = m >>= λ _. k

abbrev pub call {ℓ} : {A : Type ℓ} → Answer A → Run A
call a d = (a, d)

abbrev pub modify : (Draft → Draft) → Run (Unit {0})
modify f d = (returns tt, f d)

abbrev pub timed_out_or_cancelled : Outcome → Bool
timed_out_or_cancelled o = o.timed_out || o.cancelled

abbrev pub set_timeout : Draft → Draft
set_timeout d = record d { status = ResultStatus.timeout; failure_type = some FailureType.timeout }

abbrev pub is_nonzero : ℕ → Bool
is_nonzero zero = false
is_nonzero (suc n) = true

abbrev pub is_empty {ℓ} : {A : Type ℓ} → List A → Bool
is_empty [] = true
is_empty (x ∷ xs) = false

-- `result["tests"] = parse_junit(…)` with its `except ValueError`.
abbrev pub record_tests : Parsed → Run (Unit {0})
record_tests (tests found) d = (returns tt, record d { tests = found })
record_tests (value_error message) d = (returns tt, record d { error = some message })
record_tests parse_error d = (raises (other_error "ParseError"), d)

-- The verdict on a test run whose report has been read.
unfoldable pub judge : Outcome → Collected → Draft → Draft
judge test collected d =
    if timed_out_or_cancelled test
    then set_timeout d
    else if is_empty d.tests
    then record d { failure_type = some FailureType.infrastructure_failure }
    else if is_nonzero test.exit_code || any_failed d.tests || collected.no_reward
    then record d { failure_type = some FailureType.test_failure }
    else record d { status = ResultStatus.completed; failure_type = none }

abbrev pub raise_if : Bool → String → Answer (Unit {0})
raise_if true name = raises (other_error name)
raise_if false name = returns tt

abbrev pub renewal : Option String → Answer (Unit {0})
renewal none = returns tt
renewal (some name) = raises (other_error name)

module _ (fromstring : List ℕ → Option (List Case)) (env : Environment) where
  -- The branch after an agent that has succeeded.
  unfoldable pub run_tests : Run (Unit {0})
  run_tests = do
    call (renewal (env.renew "agent.finished"))
    call env.write_candidate
    call (renewal (env.renew "test.started"))
    test ← call env.execute_test
    modify (λ d. record d {
      test_evidence = some test;
      stdout = test.stdout;
      stderr = last_chars 1000000 (append d.stderr (append "\n" test.stderr));
    })
    collected ← call env.collect_test
    record_tests (parse_junit fromstring collected.junit)
    modify (judge test collected)
    call (if env.cancelled_late then returns tt else renewal (env.renew "test.finished"))

  abbrev pub after_agent : Outcome → Run (Unit {0})
  after_agent outcome =
      if timed_out_or_cancelled outcome
      then modify set_timeout
      else if is_nonzero outcome.exit_code
      then modify (λ d. record d { failure_type = some FailureType.agent_failure })
      else run_tests

  -- The `try` block.
  unfoldable pub attempt : Run (Unit {0})
  attempt = do
    call env.create
    call env.download_agent
    call env.prepare_problem
    call (raise_if env.cancelled_early "RuntimeError")
    image ← call env.prepare
    modify (λ d. record d { image_id = some image })
    call (renewal (env.renew "agent.started"))
    outcome ← call env.execute_agent
    modify (λ d. record d {
      agent_evidence = some outcome;
      agent_output = outcome.stdout;
      stderr = outcome.stderr;
    })
    patch ← call env.collect_patch
    modify (λ d. record d { patch = patch })
    after_agent outcome

  -- A build log replaces the field, if it is there.
  abbrev pub build_log : Option String → String → String
  build_log none field = field
  build_log (some log) field = last_chars 500000 log

  -- The `except` clauses.
  abbrev pub handle : Answer (Unit {0}) × Draft → Answer Draft
  handle (returns _, d) = returns d
  handle (raises cleanup_error, d) = raises cleanup_error
  handle (raises (input_error message), d) =
      returns (record d { failure_type = some FailureType.security_failure; error = some message })
  handle (raises (other_error name), d) = returns (record d {
    error = some (append name ": worker preparation or execution failed");
    stdout = build_log env.build_stdout d.stdout;
    stderr = build_log env.build_stderr d.stderr;
  })

  -- `evaluate`: the `finally` block destroys the sandbox, and an exception of it wins.
  abbrev pub finish : Answer (Unit {0}) → Answer Draft → Answer Draft
  finish (raises e) r = raises e
  finish (returns _) r = r

  unfoldable pub evaluate : Answer Draft
  unfolding attempt run_tests
  evaluate = finish env.destroy (handle (attempt initial))

-- `asdict(outcome)` without the two texts.
abbrev evidence_of : Option Outcome → Option ProcessEvidence
evidence_of none = none
evidence_of (some o) =
    some (record { exit_code = o.exit_code; timed_out = o.timed_out; cancelled = o.cancelled })

-- The result as it is sent, with the token of the lease.
abbrev pub result_input : String → Metrics → Draft → ResultInput
result_input lease_token metrics d = record {
  lease_token = lease_token;
  status = d.status;
  failure_type = d.failure_type;
  metrics = metrics;
  execution = some (record {
    agent = evidence_of d.agent_evidence;
    test = evidence_of d.test_evidence;
    image_id = d.image_id;
    error = d.error;
  });
  tests = d.tests;
  stdout = d.stdout;
  stderr = d.stderr;
  agent_output = d.agent_output;
  patch = d.patch;
}
