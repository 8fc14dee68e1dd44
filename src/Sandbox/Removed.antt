-- ===== src/Sandbox/Removed.antt =====
-- When `destroy` (workers/evaluator/docker_sandbox.py) returns, no container of the sandbox is left.
use agent_bench_x.Prelude.{
  ℕ, String, ◌≡◌, refl, sym, subst, ◌∙◌, inl, inr, Bool, true, false, ◌&&◌, Option, none, some,
  List, [], ◌∷◌, arith, str_eq_iff, Bool-cases,
}
use agent_bench_x.Sandbox.{
  Answer, returns, raises, Settings, init, State, Docker, ◌>>=◌, ◌>>◌, pure, raise_if, get, mem,
  run,
}
use agent_bench_x.Sandbox.Phases.{
  create, prepare, execute, remove_all, remove_image, destroy, is_left, left_of, is_any, finish,
}
use agent_bench_x.Sandbox.Rules.{After, bind-returns, raise_if-returns, run-returns}
use agent_bench_x.Sandbox.Tracked.{IsDocker, Tracked}
use agent_bench_x.Sandbox.Lifecycle.{
  create-Keeps, prepare-Keeps, execute-Keeps, collect-Keeps, destroy-Keeps,
}
use agent_bench_x.Sandbox.Files.{Stream, Member, collect}
use agent_bench_x.Junit.Text.{codes, starts_with}

module _ {D : Type 0} (docker : Docker D) (settings : Settings) (exists : String → D → Bool)
    (laws : IsDocker docker exists) where
  -- No container is new, and those that are named are gone.
  record Gone (names : List String) (s s' : State D) : Type 0 where
    kept : (n : String) → exists n s'.daemon ≡ true → exists n s.daemon ≡ true
    gone : (n : String) → mem n names ≡ true → exists n s'.daemon ≡ false
    same_box : s'.box ≡ s.box

  pub false_before :
      (n : String) (d d' : D)
      → (exists n d' ≡ true → exists n d ≡ true)
      → exists n d ≡ false
      → exists n d' ≡ false
  false_before n d d' kept h = elim (Bool-cases (exists n d')) [
    | inl there ↦ let before = kept there in absurd (ground arith)
    | inr gone ↦ gone
  ]

  remove_all-Gone :
      (names : List String) (s s' : State D) (failures : List String)
      → remove_all docker settings names s ≡ (returns failures, s')
      → is_any docker settings failures ≡ false
      → Gone names s s'
  unfolding remove_all pure
  remove_all-Gone [] s s' failures h none_left =
      let same_state : s ≡ s' = ground arith in
      rw (← same_state) (record { kept = λ n e. e; gone = λ n e. ground arith; same_box = refl })
  remove_all-Gone (name ∷ names) s s' failures h none_left =
      let (o, s1, ran_rm, rest) =
        bind-returns (run docker ("rm" ∷ "--force" ∷ "--volumes" ∷ name ∷ []) 15 false)
          (λ o.
            remove_all docker settings names >>= λ left. pure (left_of docker settings name o left))
          s failures s' h in
      let (removed, box1) = run-returns docker _ 15 false s s1 o ran_rm in
      let (left, s2, ran_rest, last) =
        bind-returns (remove_all docker settings names)
          (λ left. pure (left_of docker settings name o left)) s1 failures s' rest in
      let same_state : s2 ≡ s' = ground arith in
      let same_left : left_of docker settings name o left ≡ failures = ground arith in
      let empty : is_any docker settings left ≡ false = ground arith in
      let took : is_left docker settings o ≡ false = ground arith in
      let tail = remove_all-Gone names s1 s2 left ran_rest empty in
      let head : exists name s1.daemon ≡ false =
        laws.removes name 15 false s.daemon s1.daemon o removed (ground arith) in
      rw (← same_state) (record {
        kept = λ n e.
            laws.keeps "rm" ("--force" ∷ "--volumes" ∷ name ∷ []) 15 false s.daemon n refl
              (subst (λ x. exists n x.1 ≡ true) (sym removed) (tail.kept n e));
        gone = λ n named. elim (Bool-cases (mem n names)) [
          | inl later ↦ tail.gone n later
          | inr not_later ↦
              let same_name : name ≡ n = ground (arith, str_eq_iff name n) in
              false_before n s1.daemon s2.daemon (tail.kept n)
                (subst (λ m. exists m s1.daemon ≡ false) same_name head)
        ];
        same_box = tail.same_box ∙ box1;
      })

  remove_image-kept :
      (image : Option String) (s s' : State D) (n : String)
      → remove_image docker settings image s ≡ (returns tt, s')
      → exists n s'.daemon ≡ true
      → exists n s.daemon ≡ true
  unfolding remove_image pure ◌>>◌
  remove_image-kept none s s' n h e = let same_state : s ≡ s' = ground arith in rw (same_state) e
  remove_image-kept (some image) s s' n h e =
      let (o, s1, ran_rm, last) =
        bind-returns (run docker ("image" ∷ "rm" ∷ image ∷ []) 30 false) (λ o. pure tt) s tt s' h in
      let (removed, box1) = run-returns docker _ 30 false s s1 o ran_rm in
      let same_state : s1 ≡ s' = ground arith in
      laws.keeps "image" ("rm" ∷ image ∷ []) 30 false s.daemon n refl
        (subst (λ x. exists n x.1 ≡ true) (sym removed) (rw (same_state) e))

  -- A destroy that returns has removed what is tracked, and has made nothing.
  pub destroy-Gone :
      (s s' : State D)
      → destroy docker settings s ≡ (returns tt, s')
      → ((n : String) → exists n s'.daemon ≡ true → exists n s.daemon ≡ true)
        × ((n : String) → mem n s.box.containers ≡ true → exists n s'.daemon ≡ false)
  unfolding destroy get finish ◌>>◌
  destroy-Gone s s' h =
      let (box, s0, got, h1) =
        bind-returns get
          (λ box. remove_all docker settings box.containers >>= finish docker settings box) s tt s'
          h in
      let (failures, s1, removed, h2) =
        bind-returns (remove_all docker settings box.containers) (finish docker settings box) s0 tt
          s' h1 in
      let (u, s2, tested, h3) =
        bind-returns (raise_if (is_any docker settings failures) _)
          (λ u. remove_image docker settings box.image) s1 tt s' h2 in
      let (empty, same_state) =
        raise_if-returns (is_any docker settings failures) _ s1 s2 u tested in
      let same_start : s0 ≡ s = ground arith in
      let same_box : box ≡ s.box = ground arith in
      let all_gone = remove_all-Gone box.containers s0 s1 failures removed empty in
      let still : (n : String) → exists n s'.daemon ≡ true → exists n s1.daemon ≡ true = λ n e.
        subst (λ x. exists n x.daemon ≡ true) same_state
          (remove_image-kept box.image s2 s' n h3 e) in
      (
        λ n e. subst (λ x. exists n x.daemon ≡ true) same_start (all_gone.kept n (still n e)),
        λ n named.
            false_before n s1.daemon s'.daemon (still n) (all_gone.gone n (rw (same_box) named)),
      )

  destroy-gone :
      (before : String → Bool) (s s' : State D)
      → Tracked docker exists before laws s
      → destroy docker settings s ≡ (returns tt, s')
      → (n : String) → exists n s'.daemon ≡ true
      → before n ≡ true
  destroy-gone before s s' tracked h n e =
      let (kept, gone) = destroy-Gone s s' h in
      elim (tracked n (kept n e)) [
        | inl there ↦ there
        | inr named ↦ let removed = gone n named in absurd (ground arith)
      ]

  -- The operations that a worker calls on a sandbox, in any order, each with any end.
  pub data Used (s0 : State D) : State D → Type 0 where
    start : Used s0 s0
    created :
        (s : State D) (system : String) (host : List ℕ) (uuid : String → Option String)
        (job : String)
        → Used s0 s
        → Used s0 (create docker settings system host uuid job s).1
    prepared :
        (s : State D) (workspace : String)
        → Used s0 s
        → Used s0 (prepare docker settings workspace s).1
    executed :
        (s : State D) (exit_code : String → Option ℕ) (argv : List String) (timeout : ℕ)
        → Used s0 s
        → Used s0 (execute docker settings exit_code argv timeout s).1
    gathered :
        (s : State D) (cp : String → String → ℕ → D → Option Stream × D)
        (members : List ℕ → Option (List Member)) (decode : List ℕ → Option (List ℕ))
        → ((name file : String) (k : ℕ) (d : D) (n : String)
            → exists n (cp name file k d).1 ≡ true
            → exists n d ≡ true)
        → Used s0 s
        → Used s0 (collect cp members decode s).1
    destroyed : (s : State D) → Used s0 s → Used s0 (destroy docker settings s).1

  After_same : {A : Type 0} (P : State D → Type 0) (x : Answer A × State D) → After P P x → P x.1
  After_same P (returns a, s) p = p
  After_same P (raises f, s) p = p

  -- From a new sandbox, every state that its use leads to has its containers tracked.
  Used-Tracked :
      (d : D) (s : State D)
      → Used (record { box = init; daemon = d }) s
      → Tracked docker exists (λ n. exists n d) laws s
  Used-Tracked d s start = λ n e. inl e
  Used-Tracked d s (created s1 system host uuid job used) =
      After_same (Tracked docker exists (λ n. exists n d) laws) _ (
        (create-Keeps docker settings exists (λ n. exists n d) laws system host uuid job).leads s1
          (Used-Tracked d s1 used))
  Used-Tracked d s (prepared s1 workspace used) =
      After_same (Tracked docker exists (λ n. exists n d) laws) _ (
        (prepare-Keeps docker settings exists (λ n. exists n d) laws workspace).leads s1
          (Used-Tracked d s1 used))
  Used-Tracked d s (executed s1 exit_code argv timeout used) =
      After_same (Tracked docker exists (λ n. exists n d) laws) _ (
        (execute-Keeps docker settings exists (λ n. exists n d) laws exit_code argv timeout).leads
          s1 (Used-Tracked d s1 used))
  Used-Tracked d s (gathered s1 cp members decode kept used) =
      After_same (Tracked docker exists (λ n. exists n d) laws) _ (
        (collect-Keeps docker settings exists (λ n. exists n d) laws cp members decode kept).leads
          s1 (Used-Tracked d s1 used))
  Used-Tracked d s (destroyed s1 used) =
      After_same (Tracked docker exists (λ n. exists n d) laws) _ (
        (destroy-Keeps docker settings exists (λ n. exists n d) laws).leads s1
          (Used-Tracked d s1 used))

  Used-clean :
      (d : D) (s s' : State D)
      → Used (record { box = init; daemon = d }) s
      → destroy docker settings s ≡ (returns tt, s')
      → (n : String) → exists n s'.daemon ≡ true
      → exists n d ≡ true
  Used-clean d s s' used h = destroy-gone (λ n. exists n d) s s' (Used-Tracked d s used) h

-- The names that sandboxes give their containers. A build may leave others, under names that Docker
-- makes up.
abbrev pub is_own : String → Bool
is_own name = starts_with (codes "abx-") (codes name)

abbrev pub own : {D : Type 0} → (String → D → Bool) → String → D → Bool
own exists n d = is_own n && exists n d

-- No container of a sandbox survives it. A new sandbox is used by `create`, `prepare`, `execute`,
-- `collect` and `destroy`, in whatever order and with whatever failures. When a `destroy` returns after
-- that, there is no container under a name of sandboxes ("abx-" and so on) that was not there before,
-- as long as Docker does what it documents of the commands in use for the containers with such names.
pub destroy-clean :
    {D : Type 0} (docker : Docker D) (settings : Settings) (exists : String → D → Bool)
    (laws : IsDocker docker (own exists)) (d : D) (s s' : State D)
    → Used docker settings (own exists) laws (record { box = init; daemon = d }) s
    → destroy docker settings s ≡ (returns tt, s')
    → (n : String) → is_own n ≡ true
    → exists n s'.daemon ≡ true
    → exists n d ≡ true
destroy-clean docker settings exists laws d s s' used h n named there =
    let before : own exists n d ≡ true =
      Used-clean docker settings (own exists) laws d s s' used h n (ground arith) in
    ground arith
