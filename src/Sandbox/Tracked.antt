-- ===== src/Sandbox/Tracked.antt =====
-- Every container that a sandbox creates is tracked, and is gone when `destroy` returns
-- (workers/evaluator/docker_sandbox.py).
use agent_bench_x.Prelude.{
  ℕ, String, ◌≡◌, ◌⊎◌, subst, inl, inr, Bool, true, false, ◌||◌, some, List, [], ◌∷◌, arith, ◌==◌,
  str_eq_refl, Bool-cases,
}
use agent_bench_x.Junit.Text.{codes, contains}
use agent_bench_x.Evaluator.{Outcome}
use agent_bench_x.Sandbox.{State, Docker, change, mem, add, run, command}
use agent_bench_x.Sandbox.Rules.{Leads, command-Leads, run-Leads}

-- The commands of a sandbox that make no container: `create` aside, and `rm`.
abbrev pub is_quiet : String → Bool
is_quiet verb =
    mem verb ("context" ∷ "info" ∷ "build" ∷ "image" ∷ "start" ∷ "kill" ∷ "inspect" ∷ "rm" ∷ [])

module _ {D : Type 0} (docker : Docker D) (exists : String → D → Bool) where
  -- What Docker documents of the commands in use: which containers there are after each. A build makes
  -- and may leave containers, though under names that Docker makes up, so that it `keeps` those with
  -- other names.
  pub record IsDocker : Type 0 where
    pub keeps :
        (verb : String) (rest : List String) (t : ℕ) (c : Bool) (d : D) (n : String)
        → is_quiet verb ≡ true
        → exists n (docker.run (verb ∷ rest) t c d).1 ≡ true
        → exists n d ≡ true
    pub creates :
        (m : String) (rest : List String) (t : ℕ) (c : Bool) (d : D) (n : String)
        → exists n (docker.run ("create" ∷ "--name" ∷ m ∷ rest) t c d).1 ≡ true
        → (exists n d ≡ true) ⊎ (m ≡ n)
    pub removes :
        (n : String) (t : ℕ) (c : Bool) (d d' : D) (o : Outcome)
        → docker.run ("rm" ∷ "--force" ∷ "--volumes" ∷ n ∷ []) t c d ≡ (some o, d')
        → (o.exit_code == 0 || contains (codes "No such container") (codes o.stderr)) ≡ true
        → exists n d' ≡ false
    pub runner :
        (d : D) (n : String) → exists n (docker.write_runner d).1 ≡ true → exists n d ≡ true
    pub logs :
        (o : Outcome) (d : D) (n : String)
        → exists n (docker.write_logs o d).1 ≡ true
        → exists n d ≡ true

mem-add : (n : String) (names : List String) → mem n (add n names) ≡ true
mem-add n names = elim (Bool-cases (mem n names)) [
  | inl there ↦ ground arith
  | inr new ↦ ground (arith, str_eq_refl n)
]

mem-add_kept :
    (m n : String) (names : List String) → mem n names ≡ true → mem n (add m names) ≡ true
mem-add_kept m n names h = ground arith

module _ {D : Type 0} (docker : Docker D) (exists : String → D → Bool) (before : String → Bool)
    (laws : IsDocker docker exists) where
  -- Every container is tracked, or was there before; `Named` has one container tracked besides.
  abbrev pub Tracked : State D → Type 0
  Tracked s =
      (n : String) → exists n s.daemon ≡ true → (before n ≡ true) ⊎ (mem n s.box.containers ≡ true)

  abbrev pub Named : String → State D → Type 0
  Named name s = Tracked s × (mem name s.box.containers ≡ true)

  -- Commands that make no container.
  module _ (verb : String) (quiet : is_quiet verb ≡ true) (rest : List String) (t : ℕ) where
    pub run-Tracked : (c : Bool) → Leads Tracked Tracked Tracked (run docker (verb ∷ rest) t c)
    run-Tracked c =
        run-Leads docker Tracked Tracked Tracked (verb ∷ rest) t c
          (λ s i n e. i n (laws.keeps verb rest t c s.daemon n quiet e)) λ s i. i

    pub command-Tracked :
        (check : Bool) → Leads Tracked Tracked Tracked (command docker (verb ∷ rest) t check)
    command-Tracked check =
        command-Leads docker Tracked Tracked Tracked (λ s i. i) (verb ∷ rest) t check
          (run-Tracked true)

  create-kept :
      (name : String) (rest : List String) (t : ℕ) (s : State D)
      → Named name s
      → Tracked
          (record s { daemon = (docker.run ("create" ∷ "--name" ∷ name ∷ rest) t true s.daemon).1 })
  create-kept name rest t s (i, tracked) n e = elim (laws.creates name rest t true s.daemon n e) [
    | inl there ↦ i n there
    | inr same_name ↦ inr (subst (λ m. mem m s.box.containers ≡ true) same_name tracked)
  ]

  pub created-Tracked :
      (name : String) (rest : List String) (t : ℕ)
      → Leads
          (Named name)
          Tracked
          Tracked
          (command docker ("create" ∷ "--name" ∷ name ∷ rest) t true)
  created-Tracked name rest t =
      command-Leads docker (Named name) Tracked Tracked (λ s i. i) _ t true
        (run-Leads docker (Named name) Tracked Tracked _ t true (create-kept name rest t) λ s i. i)

  pub add-Named :
      (name : String)
      → Leads Tracked
          (Named name)
          Tracked
          (change λ b. record b { containers = add name b.containers })
  unfolding change
  add-Named name = record {
    leads = λ s i. (
      λ n e. elim (i n e) [
        | inl there ↦ inl there
        | inr tracked ↦ inr (mem-add_kept name n s.box.containers tracked)
      ],
      mem-add name s.box.containers,
    );
  }
