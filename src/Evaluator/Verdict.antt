-- ===== src/Evaluator/Verdict.antt =====
-- What results `Evaluator.evaluate` returns.
use agent_bench_x.Prelude.{
  ℕ, ◌≡◌, refl, inl, inr, String, Bool, true, false, Option, none, some, List, arith, is_some,
  if◌then◌else◌, Bool-cases,
}
use agent_bench_x.Models.{ResultStatus, Metrics}
use agent_bench_x.Schemas.{consistent_status}
use agent_bench_x.Junit.{Case, Parsed, tests, value_error, parse_error, parse_junit}
use agent_bench_x.Evaluator.{
  Exception, cleanup_error, input_error, other_error, Answer, returns, raises, Outcome, Collected,
  Environment, Draft, initial, judge, run_tests, after_agent, attempt, handle, evaluate,
  result_input, record_tests, finish, Run, continue, call, modify, renewal, raise_if,
  timed_out_or_cancelled, is_nonzero, ◌>>◌,
}

finished :
    (fromstring : List ℕ → Option (List Case)) (env : Environment) (destroyed : Answer (Unit {0}))
    (r : Answer Draft) (d : Draft)
    → finish fromstring env destroyed r ≡ returns d
    → r ≡ returns d
finished fromstring env (returns _) r d h = h
finished fromstring env (raises e) r d h = cc

module _ (token : String) (metrics : Metrics) where
  abbrev pub is_consistent : Draft → Bool
  is_consistent d = consistent_status (result_input token metrics d)

  -- Before the verdict.
  abbrev IsPending : Draft → Type 0
  IsPending d = (d.status ≡ ResultStatus.failed) × (is_some d.failure_type ≡ true)

  judge-consistent :
      (test : Outcome) (collected : Collected) (d : Draft)
      → IsPending d
      → is_consistent (judge test collected d) ≡ true
  unfolding judge consistent_status
  judge-consistent test collected d p = ground arith

  pending-consistent : (d : Draft) → IsPending d → is_consistent d ≡ true
  unfolding consistent_status
  pending-consistent d p = ground arith

  -- How the `try` block may end so that the handlers make a consistent result of it. An `InputError`
  -- comes before the verdict.
  abbrev Sound : Answer (Unit {0}) × Draft → Type 0
  Sound (returns _, d) = is_consistent d ≡ true
  Sound (raises cleanup_error, d) = Unit {0}
  Sound (raises (input_error message), d) = IsPending d
  Sound (raises (other_error name), d) = is_consistent d ≡ true

  raises-Sound : (e : Exception) (d : Draft) → IsPending d → Sound (raises e, d)
  raises-Sound cleanup_error d p = tt
  raises-Sound (input_error message) d p = p
  raises-Sound (other_error name) d p = pending-consistent d p

  -- A call before the verdict.
  call-Sound :
      {A : Type 0} (a : Answer A) (f : A → Run (Unit {0})) (d : Draft)
      → IsPending d
      → ((x : A) → Sound (f x d))
      → Sound (continue a f d)
  call-Sound (returns x) f d p h = h x
  call-Sound (raises e) f d p h = raises-Sound e d p

  -- The last renewal, after the verdict.
  renewal-Sound :
      (late : Bool) (r : Option String) (d : Draft)
      → is_consistent d ≡ true
      → Sound (if late then returns tt else renewal r, d)
  renewal-Sound true r d h = h
  renewal-Sound false none d h = h
  renewal-Sound false (some name) d h = h

  module _ (fromstring : List ℕ → Option (List Case)) (env : Environment) where
    verdict-Sound :
        (parsed : Parsed) (test : Outcome) (collected : Collected) (d : Draft)
        → IsPending d
        → Sound (
            (record_tests parsed
                >> (modify (judge test collected)
                    >> call (
                        if env.cancelled_late
                        then returns tt
                        else renewal (env.renew "test.finished"))))
              d)
    verdict-Sound (tests found) test collected d p =
        renewal-Sound env.cancelled_late (env.renew "test.finished") _
          (judge-consistent test collected (record d { tests = found }) p)
    verdict-Sound (value_error message) test collected d p =
        renewal-Sound env.cancelled_late (env.renew "test.finished") _
          (judge-consistent test collected (record d { error = some message }) p)
    verdict-Sound parse_error test collected d p = pending-consistent d p

    run_tests-Sound : (d : Draft) → IsPending d → Sound (run_tests fromstring env d)
    unfolding run_tests
    run_tests-Sound d p = call-Sound (renewal (env.renew "agent.finished")) _ d p λ _.
        call-Sound env.write_candidate _ d p λ _.
          call-Sound (renewal (env.renew "test.started")) _ d p λ _.
            call-Sound env.execute_test _ d p λ test.
              call-Sound env.collect_test _ _ p λ collected.
                verdict-Sound (parse_junit fromstring collected.junit) test collected _ p

    after_agent-Sound :
        (outcome : Outcome) (d : Draft) → IsPending d → Sound (after_agent fromstring env outcome d)
    unfolding consistent_status
    after_agent-Sound outcome d p = elim (Bool-cases (timed_out_or_cancelled outcome)) [
      | inl late ↦ rw late refl
      | inr timely ↦ elim (Bool-cases (is_nonzero outcome.exit_code)) [
        | inl bad ↦ rw (timely, bad) (ground arith)
        | inr good ↦ rw (timely, good) (run_tests-Sound d p)
      ]
    ]

    attempt-Sound : Sound (attempt fromstring env initial)
    unfolding attempt
    attempt-Sound =
        call-Sound env.create _ initial (refl, refl)
          λ _.
            call-Sound env.download_agent _ initial (refl, refl)
              λ _.
                call-Sound env.prepare_problem _ initial (refl, refl)
                  λ _.
                    call-Sound (raise_if env.cancelled_early "RuntimeError") _ initial (refl, refl)
                      λ _.
                        call-Sound env.prepare _ initial (refl, refl)
                          λ image.
                            call-Sound (renewal (env.renew "agent.started")) _ _ (refl, refl)
                              λ _.
                                call-Sound env.execute_agent _ _ (refl, refl)
                                  λ outcome.
                                    call-Sound env.collect_patch _ _ (refl, refl)
                                      λ patch. after_agent-Sound outcome _ (refl, refl)

    handle-Sound :
        (r : Answer (Unit {0}) × Draft) (d : Draft)
        → Sound r
        → handle fromstring env r ≡ returns d
        → is_consistent d ≡ true
    unfolding consistent_status
    handle-Sound (returns _, d') d s h = ground arith
    handle-Sound (raises cleanup_error, d') d s h = ground arith
    handle-Sound (raises (input_error message), d') d s h = ground arith
    handle-Sound (raises (other_error name), d') d s h = ground arith

    -- Whatever the sandbox, the network, the lease and the agent do, the result that a run returns
    -- passes the check of the API on its status, its failure type and its tests.
    pub evaluate-consistent :
        (d : Draft)
        → evaluate fromstring env ≡ returns d
        → consistent_status (result_input token metrics d) ≡ true
    unfolding evaluate
    evaluate-consistent d h = handle-Sound (attempt fromstring env initial) d attempt-Sound (
        finished fromstring env env.destroy (handle fromstring env (attempt fromstring env initial))
          d h)
