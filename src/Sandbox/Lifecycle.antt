-- ===== src/Sandbox/Lifecycle.antt =====
-- A sandbox from `create` to `destroy` (workers/evaluator/docker_sandbox.py): whatever happens on the
-- way, no container is left behind unseen.
use agent_bench_x.Prelude.{
  ℕ, String, ◌≡◌, ◌⊎◌, refl, sym, subst, Bool, true, false, Option, none, some, List, [], ◌∷◌, inl,
  inr, ◌==◌, Bool-cases,
}
use agent_bench_x.Sandbox.{
  Failure, Settings, Box, State, Docker, Act, ◌>>=◌, ◌>>◌, pure, raise_if, require, get, get_daemon,
  change, mem, preflight,
}
use agent_bench_x.Sandbox.Phases.{
  create, prepare, written, write, stop, execute_mode, execute, container_name, remove_all,
  remove_image, finish, destroy,
}
use agent_bench_x.Sandbox.Files.{
  Stream, Member, copied, copy, one_file, content_of, read_file, collect_from, collect_current,
  collect,
}
use agent_bench_x.Sources.Names.{ends_with}
use agent_bench_x.Junit.Text.{codes}
use agent_bench_x.Sandbox.Rules.{After, Leads, bind-Leads, raise_if-Leads, require-Leads}
use agent_bench_x.Sandbox.Tracked.{
  IsDocker, Tracked, Named, run-Tracked, command-Tracked, created-Tracked, add-Named,
}

module _ {D : Type 0} (docker : Docker D) (settings : Settings) (exists : String → D → Bool)
    (before : String → Bool) (laws : IsDocker docker exists) where
  abbrev Invariant : State D → Type 0
  Invariant = Tracked docker exists before laws

  abbrev Keeps : {A : Type 0} → Act D A → Type 0
  Keeps = Leads Invariant Invariant Invariant

  then-Keeps :
      {A B : Type 0} {m : Act D A} {f : A → Act D B}
      → Keeps m
      → ((a : A) → Keeps (f a))
      → Keeps (m >>= f)
  then-Keeps l k = bind-Leads Invariant Invariant Invariant Invariant l k

  pure-Keeps : {A : Type 0} (a : A) → Keeps (pure a)
  unfolding pure
  pure-Keeps a = record { leads = λ s i. i }

  get-Keeps : Keeps get
  unfolding get
  get-Keeps = record { leads = λ s i. i }

  daemon-Keeps : Keeps get_daemon
  unfolding get_daemon
  daemon-Keeps = record { leads = λ s i. i }

  test-Keeps : (test : Bool) (f : Failure) → Keeps (raise_if test f)
  test-Keeps = raise_if-Leads Invariant Invariant λ s i. i

  need-Keeps : {A : Type 0} (o : Option A) (f : Failure) → Keeps (require o f)
  need-Keeps = require-Leads Invariant Invariant λ s i. i

  stop-Keeps : (name : String) → Keeps (stop docker settings name)
  unfolding stop ◌>>◌
  stop-Keeps name = then-Keeps (run-Tracked docker exists before laws "kill" refl _ 10 false) λ o.
      then-Keeps (run-Tracked docker exists before laws "inspect" refl _ 10 false)
        λ checked. test-Keeps _ _

  preflight-Keeps : (system : String) (host : List ℕ) → Keeps (preflight docker system host)
  unfolding preflight ◌>>◌
  preflight-Keeps system host = then-Keeps (test-Keeps _ _) λ u. then-Keeps (test-Keeps _ _) λ v.
      then-Keeps (command-Tracked docker exists before laws "context" refl _ 15 true) λ o.
        then-Keeps (test-Keeps _ _) λ w.
          then-Keeps (command-Tracked docker exists before laws "info" refl _ 15 true)
            λ p. pure-Keeps tt

  -- Changes of the fields other than `containers`.
  change-Keeps : (f : Box → Box) → ((b : Box) → (f b).containers ≡ b.containers) → Keeps (change f)
  unfolding change
  change-Keeps f same_containers = record {
    leads = λ s i n e.
        subst (λ names. (before n ≡ true) ⊎ (mem n names ≡ true)) (sym (same_containers s.box))
          (i n e);
  }

  pub create-Keeps :
      (system : String) (host : List ℕ) (uuid : String → Option String) (job : String)
      → Keeps (create docker settings system host uuid job)
  unfolding create ◌>>◌
  create-Keeps system host uuid job = then-Keeps (preflight-Keeps system host) λ u.
      then-Keeps (need-Keeps (uuid job) _)
        λ id. then-Keeps (change-Keeps _ λ b. refl) λ v. pure-Keeps id

  write-Keeps :
      (files : D → Bool × D)
      → ((d : D) (n : String) → exists n (files d).1 ≡ true → exists n d ≡ true)
      → Keeps (write docker settings files)
  unfolding write
  write-Keeps files kept = record {
    leads = λ s i. wrote s (files s.daemon) λ n e. i n (kept s.daemon n e);
  }
    where
      wrote :
          (s : State D) (x : Bool × D)
          → Invariant (record s { daemon = x.1 })
          → After Invariant Invariant (written docker settings s x)
      wrote s (true, d) i = i
      wrote s (false, d) i = i

  pub prepare-Keeps : (workspace : String) → Keeps (prepare docker settings workspace)
  unfolding prepare ◌>>◌
  prepare-Keeps workspace = then-Keeps (change-Keeps _ λ b. refl) λ u.
      then-Keeps (write-Keeps _ laws.runner) λ v. then-Keeps get-Keeps λ box.
        then-Keeps (need-Keeps _ _) λ image.
          then-Keeps (command-Tracked docker exists before laws "build" refl _ _ false) λ build.
            then-Keeps (write-Keeps _ (laws.logs build)) λ w. then-Keeps (test-Keeps _ _) λ x.
              then-Keeps (command-Tracked docker exists before laws "image" refl _ 30 true) λ id.
                then-Keeps (change-Keeps _ λ b. refl) λ y.
                  then-Keeps (command-Tracked docker exists before laws "image" refl _ 30 true)
                    λ workdir. test-Keeps _ _

  -- Whatever happens in `execute`, what it has made is tracked: the name is added first.
  pub execute-Keeps :
      (exit_code : String → Option ℕ) (argv : List String) (timeout : ℕ)
      → Keeps (execute docker settings exit_code argv timeout)
  unfolding execute execute_mode ◌>>◌
  execute-Keeps exit_code argv timeout = then-Keeps (need-Keeps _ _) λ mode.
      then-Keeps get-Keeps λ box. then-Keeps (test-Keeps _ _) λ u.
        then-Keeps (need-Keeps _ _) λ workspace. then-Keeps daemon-Keeps λ d.
          then-Keeps (test-Keeps _ _) λ v.
            bind-Leads Invariant (Named docker exists before laws (container_name box.job_id mode))
              Invariant Invariant
              (add-Named docker exists before laws (container_name box.job_id mode))
              λ w.
                bind-Leads (Named docker exists before laws (container_name box.job_id mode))
                  (Named docker exists before laws (container_name box.job_id mode)) Invariant
                  Invariant (require-Leads _ Invariant (λ s named. named.0) _ _)
                  λ image.
                    bind-Leads (Named docker exists before laws (container_name box.job_id mode))
                      Invariant Invariant Invariant
                      (created-Tracked docker exists before laws _ _ 30)
                      λ x. then-Keeps (change-Keeps _ λ b. refl) λ y.
                        then-Keeps
                          (command-Tracked docker exists before laws "start" refl _ _ false)
                          λ o. then-Keeps (stop-Keeps _) λ z.
                            then-Keeps
                              (run-Tracked docker exists before laws "inspect" refl _ 10 false)
                              λ state. then-Keeps (need-Keeps _ _) λ recorded. pure-Keeps _

  remove_all-Keeps : (names : List String) → Keeps (remove_all docker settings names)
  unfolding remove_all ◌>>◌
  remove_all-Keeps [] = pure-Keeps _
  remove_all-Keeps (name ∷ names) =
      then-Keeps (run-Tracked docker exists before laws "rm" refl _ 15 false)
        λ o. then-Keeps (remove_all-Keeps names) λ failures. pure-Keeps _

  remove_image-Keeps : (image : Option String) → Keeps (remove_image docker settings image)
  unfolding remove_image ◌>>◌
  remove_image-Keeps none = pure-Keeps tt
  remove_image-Keeps (some image) =
      then-Keeps (run-Tracked docker exists before laws "image" refl _ 30 false) λ o. pure-Keeps tt

  -- A `destroy` that fails keeps what it has not removed tracked.
  pub destroy-Keeps : Keeps (destroy docker settings)
  unfolding destroy finish ◌>>◌
  destroy-Keeps = then-Keeps get-Keeps λ box.
      then-Keeps (remove_all-Keeps box.containers)
        λ failures. then-Keeps (test-Keeps _ _) λ u. remove_image-Keeps box.image

  module _ (cp : String → String → ℕ → D → Option Stream × D)
      (members : List ℕ → Option (List Member)) (decode : List ℕ → Option (List ℕ))
      (kept : (name file : String) (k : ℕ) (d : D) (n : String)
        → exists n (cp name file k d).1 ≡ true
        → exists n d ≡ true) where
    copy-Keeps : (name file : String) (k : ℕ) → Keeps (copy cp members decode name file k)
    unfolding copy
    copy-Keeps name file k = record {
      leads = λ s i. read s (cp name file k s.daemon) λ n e. i n (kept name file k s.daemon n e);
    }
      where
        read :
            (s : State D) (x : Option Stream × D)
            → Invariant (record s { daemon = x.1 })
            → After Invariant Invariant (copied cp members decode s x)
        read s (none, d) i = i
        read s (some stream, d) i = i

    one_file-Keeps : (limit : ℕ) (ms : List Member) → Keeps (one_file cp members decode limit ms)
    unfolding ◌>>◌
    one_file-Keeps limit [] = need-Keeps _ _
    one_file-Keeps limit (m ∷ []) = then-Keeps (test-Keeps _ _) λ u. pure-Keeps _
    one_file-Keeps limit (m ∷ n ∷ ms) = need-Keeps _ _

    content-Keeps :
        (limit : ℕ) (bytes : List ℕ) (code : ℕ)
        → Keeps (content_of cp members decode limit bytes code)
    content-Keeps limit bytes code = elim (Bool-cases (code == 0)) [
      | inl done ↦ rw done (then-Keeps (need-Keeps _ _) λ ms. one_file-Keeps limit ms)
      | inr failed ↦ rw failed (pure-Keeps [])
    ]

    read_file-Keeps :
        (name file : String) (limit : ℕ) → Keeps (read_file cp members decode name file limit)
    unfolding read_file ◌>>◌
    read_file-Keeps name file limit = then-Keeps (copy-Keeps name file _) λ stream.
        then-Keeps (test-Keeps _ _)
          λ u. then-Keeps (need-Keeps _ _) λ code. content-Keeps limit stream.bytes code

    from-Keeps : (name : String) → Keeps (collect_from cp members decode name)
    from-Keeps name = elim (Bool-cases (ends_with (codes "-agent") (codes name))) [
      | inl agent ↦ rw agent (
          then-Keeps (read_file-Keeps name _ _)
            λ bytes. then-Keeps (need-Keeps _ _) λ text. pure-Keeps _)
      | inr test ↦ rw test (
          then-Keeps (read_file-Keeps name _ _)
            λ junit. then-Keeps (read_file-Keeps name _ _) λ reward. pure-Keeps _)
    ]

    current-Keeps : (name : Option String) → Keeps (collect_current cp members decode name)
    current-Keeps none = pure-Keeps _
    current-Keeps (some name) = from-Keeps name

    -- Reading files leaves every container tracked, as long as the copying makes none.
    pub collect-Keeps : Keeps (collect cp members decode)
    unfolding collect
    collect-Keeps = then-Keeps get-Keeps λ box. current-Keeps box.current
