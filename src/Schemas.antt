-- ===== src/Schemas.antt =====
-- What the API accepts (apps/api/agentbenchx/schemas.py): `ResultInput.consistent_status`, and the
-- limits of `TestInput` and of the list of tests.
use agent_bench_x.Prelude.{
  Bool, true, false, not, ◌&&◌, ◌||◌, ◌≤◌, Option, some, List, [], ◌∷◌, is_some, is_none,
  if◌then◌else◌,
}
use Prim.Native.String.{count}
use agent_bench_x.Models.{ResultStatus, FailureType, TestInput, ResultInput}
use agent_bench_x.Costs.{is_failed}

abbrev pub is_completed : ResultStatus → Bool
is_completed ResultStatus.completed = true
is_completed _ = false

abbrev pub is_timeout : ResultStatus → Bool
is_timeout ResultStatus.timeout = true
is_timeout _ = false

abbrev pub is_timeout_failure : Option FailureType → Bool
is_timeout_failure (some FailureType.timeout) = true
is_timeout_failure _ = false

-- `any(t.status == "FAILED" for t in self.tests)`
unfoldable pub any_failed : List TestInput → Bool
any_failed [] = false
any_failed (t ∷ tests) = is_failed t || any_failed tests

-- Whether the validator lets the result through.
unfoldable pub consistent_status : ResultInput → Bool
consistent_status result =
    if is_completed result.status && (is_some result.failure_type || any_failed result.tests)
    then false
    else if not (is_completed result.status) && is_none result.failure_type
    then false
    else if is_timeout result.status && not (is_timeout_failure result.failure_type)
    then false
    else true

-- `name: max_length=500`, `message: max_length=10000`.
abbrev pub FitsTest : TestInput → Type 0
FitsTest test = (count test.name ≤ 500) × (count test.message ≤ 10000)

abbrev pub FitsTests : List TestInput → Type 0
FitsTests [] = Unit {0}
FitsTests (t ∷ tests) = FitsTest t × FitsTests tests
