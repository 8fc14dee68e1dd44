-- ===== src/Sandbox/Stopped.antt =====
-- An `execute` that returns has stopped its container (workers/evaluator/docker_sandbox.py).
use agent_bench_x.Prelude.{
  ℕ, String, ◌≡◌, refl, subst, ◌∙◌, Bool, true, false, Option, some, List, [], ◌∷◌, arith, ◌==◌,
  str_eq,
}
use agent_bench_x.Evaluator.{Outcome}
use agent_bench_x.Sandbox.{
  Failure, other_error, Answer, returns, raises, Settings, Box, State, Docker, Act, ◌>>=◌, ◌>>◌,
  pure, raise_if, require, get, get_daemon, change, strip, run, command,
}
use agent_bench_x.Sandbox.Phases.{stop, confirm, execute_mode, execute, container_name}
use agent_bench_x.Sandbox.Rules.{
  After, Leads, bind-Leads, require-Leads, bind-returns, raise_if-returns, run-returns,
  command-Leads, run-Leads,
}

module _ {D : Type 0} (docker : Docker D) (settings : Settings) (running : String → D → Bool) where
  -- What Docker documents of `inspect`: it tells whether a container is running, and starts none.
  pub record IsInspect : Type 0 where
    pub tells :
        (n : String) (d d' : D) (o : Outcome)
        → docker.run ("inspect" ∷ "--format" ∷ "{{.State.Running}}" ∷ n ∷ []) 10 false d
          ≡ (some o, d')
        → (o.exit_code == 0) ≡ true
        → str_eq (strip o.stdout) "false" ≡ true
        → running n d' ≡ false
    pub starts_none :
        (n : String) (rest : List String) (d : D)
        → running n d ≡ false
        → running n (docker.run ("inspect" ∷ rest) 10 false d).1 ≡ false

  module _ (laws : IsInspect) where
    stop-stopped :
        (name : String) (s s' : State D)
        → stop docker settings name s ≡ (returns tt, s')
        → (running name s'.daemon ≡ false) × (s'.box ≡ s.box)
    unfolding stop ◌>>◌
    stop-stopped name s s' h =
        let (killed, s1, ran_kill, h1) =
          bind-returns (run docker ("kill" ∷ name ∷ []) 10 false)
            (λ u.
              run docker ("inspect" ∷ "--format" ∷ "{{.State.Running}}" ∷ name ∷ []) 10 false
              >>= confirm docker settings)
            s tt s' h in
        let (checked, s2, inspected, h2) =
          bind-returns
            (run docker ("inspect" ∷ "--format" ∷ "{{.State.Running}}" ∷ name ∷ []) 10 false)
            (confirm docker settings) s1 tt s' h1 in
        let (told, same_state) = raise_if-returns _ _ s2 s' tt h2 in
        let (answer1, box1) = run-returns docker _ 10 false s s1 killed ran_kill in
        let (answer2, box2) = run-returns docker _ 10 false s1 s2 checked inspected in
        rw (same_state) (
          laws.tells name s1.daemon s2.daemon checked answer2 (ground arith) (ground arith),
          box2 ∙ box1,
        )

    -- The container that was run last.
    abbrev Current : String → State D → Type 0
    Current name s = s.box.current ≡ some name

    abbrev Anything : State D → Type 0
    Anything s = Unit {0}

    abbrev Stopped : String → State D → Type 0
    Stopped name s = (s.box.current ≡ some name) × (running name s.daemon ≡ false)

    any_end : {A : Type 0} (x : Answer A × State D) → After Anything Anything x
    any_end (returns a, s) = tt
    any_end (raises f, s) = tt

    any_Leads : {A : Type 0} {m : Act D A} → Leads Anything Anything Anything m
    any_Leads {m = m} = record { leads = λ s p. any_end (m s) }

    start-Current :
        (name : String) (args : List String) (t : ℕ)
        → Leads (Current name) (Current name) Anything (command docker args t false)
    start-Current name args t =
        command-Leads docker (Current name) (Current name) Anything (λ s c. tt) args t false
          (run-Leads docker (Current name) (Current name) Anything args t true (λ s c. c) λ s c. tt)

    stop-Stopped :
        (name : String) → Leads (Current name) (Stopped name) Anything (stop docker settings name)
    stop-Stopped name = record {
      leads = λ s current. ended s current (stop docker settings name s) (stop-stopped name s);
    }
      where
        ended :
            (s : State D)
            → Current name s
            → (x : Answer (Unit {0}) × State D)
            → ((s' : State D)
                → x ≡ (returns tt, s')
                → (running name s'.daemon ≡ false) × (s'.box ≡ s.box))
            → After (Stopped name) Anything x
        ended s current (raises f, s1) k = tt
        ended s current (returns u, s1) k =
            let (not_running, same_box) = k s1 refl in (rw (same_box) current, not_running)

    inspect-Stopped :
        (name : String) (rest : List String)
        → Leads (Stopped name) (Stopped name) Anything (run docker ("inspect" ∷ rest) 10 false)
    inspect-Stopped name rest =
        run-Leads docker (Stopped name) (Stopped name) Anything ("inspect" ∷ rest) 10 false
          (λ s (current, stopped). (current, laws.starts_none name rest s.daemon stopped)) λ s c. tt

    change-Current :
        (name : String)
        → Leads Anything (Current name) Anything (change λ b. record b { current = some name })
    unfolding change
    change-Current name = record { leads = λ s p. refl }

    pure-Stopped :
        (name : String) (o : Outcome) → Leads (Stopped name) (Stopped name) Anything (pure o)
    unfolding pure
    pure-Stopped name o = record { leads = λ s p. p }

    then_any :
        {A B : Type 0} {m : Act D A} {f : A → Act D B} {name : String}
        → Leads Anything Anything Anything m
        → ((a : A) → Leads Anything (Stopped name) Anything (f a))
        → Leads Anything (Stopped name) Anything (m >>= f)
    then_any {name = name} l k = bind-Leads Anything Anything Anything (Stopped name) l k

    any_require :
        {A : Type 0} (o : Option A) (f : Failure) → Leads Anything Anything Anything (require o f)
    any_require o f = any_Leads

    any_test : (test : Bool) (f : Failure) → Leads Anything Anything Anything (raise_if test f)
    any_test test f = any_Leads

    any_change : (f : Box → Box) → Leads Anything Anything Anything (change f)
    any_change f = any_Leads

    any_command :
        (args : List String) (t : ℕ) (check : Bool)
        → Leads Anything Anything Anything (command docker args t check)
    any_command args t check = any_Leads

    execute_mode-Stopped :
        (exit_code : String → Option ℕ) (timeout : ℕ) (mode : String) (box : Box)
        → Leads Anything
            (Stopped (container_name box.job_id mode))
            Anything
            (execute_mode docker settings exit_code timeout mode box)
    unfolding execute_mode ◌>>◌
    execute_mode-Stopped exit_code timeout mode box = then_any (any_test _ _) λ u.
        then_any (any_require _ _) λ workspace. then_any (any_Leads {m = get_daemon}) λ d.
          then_any (any_test _ _) λ v. then_any (any_change _) λ w.
            then_any (any_require _ _) λ image. then_any (any_command _ 30 true) λ x.
              let name = container_name box.job_id mode in
              bind-Leads Anything (Current name) Anything (Stopped name) (change-Current name) λ y.
                bind-Leads (Current name) (Current name) Anything (Stopped name)
                  (start-Current name _ timeout)
                  λ outcome.
                    bind-Leads (Current name) (Stopped name) Anything (Stopped name)
                      (stop-Stopped name)
                      λ z.
                        bind-Leads (Stopped name) (Stopped name) Anything (Stopped name)
                          (inspect-Stopped name _)
                          λ state.
                            bind-Leads (Stopped name) (Stopped name) Anything (Stopped name)
                              (require-Leads (Stopped name) Anything (λ s c. tt) _ _)
                              λ recorded. pure-Stopped name _

    -- A phase that returns has ended: when `execute` of a mode returns an outcome, the container of this
    -- job and this mode is the current one, and it is not running any more, as long as `docker inspect`
    -- tells the truth and starts nothing. So a container that Docker could not stop makes `execute` raise.
    pub execute-stopped :
        (exit_code : String → Option ℕ) (mode : String) (rest : List String) (timeout : ℕ)
        (s s' : State D) (o : Outcome)
        → execute docker settings exit_code (mode ∷ rest) timeout s ≡ (returns o, s')
        → (s'.box.current ≡ some (container_name s.box.job_id mode))
          × (running (container_name s.box.job_id mode) s'.daemon ≡ false)
    unfolding execute require get
    execute-stopped exit_code mode rest timeout s s' o h =
        let (m, s1, asked, h1) =
          bind-returns (require (some mode) other_error)
            (λ m. get >>= λ box. execute_mode docker settings exit_code timeout m box) s o s' h in
        let (box, s2, got, h2) =
          bind-returns get (λ box. execute_mode docker settings exit_code timeout m box) s1 o s'
            h1 in
        let same_mode : m ≡ mode = ground arith in
        let same_start : s1 ≡ s = ground arith in
        let same_box : box ≡ s.box = ground arith in
        let stopped : Stopped (container_name box.job_id m) s' =
          subst (After (Stopped (container_name box.job_id m)) Anything) h2
            ((execute_mode-Stopped exit_code timeout m box).leads s2 tt) in
        subst (λ b. Stopped (container_name b.job_id mode) s') same_box
          (subst (λ x. Stopped (container_name box.job_id x) s') same_mode stopped)
