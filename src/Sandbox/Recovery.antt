-- ===== src/Sandbox/Recovery.antt =====
-- A worker that starts after a crash (`recover_sandboxes` of workers/evaluator/main.py): the containers
-- of every job that it has a folder of are removed before it claims another.
use agent_bench_x.Prelude.{
  String, ◌≡◌, refl, inl, inr, Bool, true, false, Option, none, some, List, [], ◌∷◌, arith,
  str_eq_refl, Option-cases,
}
use agent_bench_x.Junit.Text.{append}
use agent_bench_x.Sandbox.{
  other_error, Answer, returns, raises, Settings, Box, init, State, Docker, mem,
}
use agent_bench_x.Sandbox.Phases.{container_name, destroy}
use agent_bench_x.Sandbox.Tracked.{IsDocker}
use agent_bench_x.Sandbox.Removed.{destroy-Gone, false_before}

-- A sandbox of a job, as far as `destroy` reads it.
unfoldable pub sandbox_of : String → Box
unfolding init
sandbox_of job = record init {
  containers = container_name (some job) "agent" ∷ container_name (some job) "test" ∷ [];
  image = some (append "agentbenchx-job:" job);
}

module _ {D : Type 0} (docker : Docker D) (settings : Settings)
    (uuid : String → Option String) where
  abbrev pub and_rest :
      Answer (Unit {0}) × State D → (D → Answer (Unit {0}) × D) → Answer (Unit {0}) × D
  and_rest (returns u, s) rest = rest s.daemon
  and_rest (raises f, s) rest = (raises f, s.daemon)

  abbrev pub recover_job : Option String → D → (D → Answer (Unit {0}) × D) → Answer (Unit {0}) × D
  recover_job none d rest = (raises other_error, d)
  recover_job (some job) d rest =
      and_rest (destroy docker settings (record { box = sandbox_of job; daemon = d })) rest

  -- The loop over the names of the folders; `uuid` is `str(UUID(name))`, unless that raises.
  unfoldable pub recover_sandboxes : List String → D → Answer (Unit {0}) × D
  recover_sandboxes [] d = (returns tt, d)
  recover_sandboxes (f ∷ folders) d = recover_job (uuid f) d (recover_sandboxes folders)

  first_named :
      (job : String) → mem (container_name (some job) "agent") (sandbox_of job).containers ≡ true
  unfolding sandbox_of
  first_named job = ground (arith, str_eq_refl (container_name (some job) "agent"))

  second_named :
      (job : String) → mem (container_name (some job) "test") (sandbox_of job).containers ≡ true
  unfolding sandbox_of
  second_named job = ground (arith, str_eq_refl (container_name (some job) "test"))

  module _ (exists : String → D → Bool) (laws : IsDocker docker exists) where
    -- Both containers of a job are gone.
    abbrev pub IsClean : String → D → Type 0
    IsClean job d =
        (exists (container_name (some job) "agent") d ≡ false)
        × (exists (container_name (some job) "test") d ≡ false)

    abbrev pub AllClean : List String → D → Type 0
    AllClean [] d = Unit {0}
    AllClean (f ∷ folders) d =
        ((job : String) × (uuid f ≡ some job) × IsClean job d) × AllClean folders d

    -- A recovery that returns has removed both containers of every job that has a folder, and has made
    -- no container.
    pub recover_sandboxes-AllClean :
        (folders : List String) (d d' : D)
        → recover_sandboxes folders d ≡ (returns tt, d')
        → AllClean folders d' × ((n : String) → exists n d' ≡ true → exists n d ≡ true)
    unfolding recover_sandboxes
    recover_sandboxes-AllClean [] d d' h =
        let same_state : d ≡ d' = ground arith in rw (← same_state) (tt, λ n e. e)
    recover_sandboxes-AllClean (f ∷ folders) d d' h = elim (Option-cases (uuid f)) [
      | inl no_uuid ↦ absurd (ground arith)
      | inr (job, is_job) ↦
          destroyed job is_job
            (destroy docker settings (record { box = sandbox_of job; daemon = d })) refl
            (recover_sandboxes-AllClean folders) (ground arith)
    ]
      where
        destroyed :
            (job : String)
            → uuid f ≡ some job
            → (x : Answer (Unit {0}) × State D)
            → destroy docker settings (record { box = sandbox_of job; daemon = d }) ≡ x
            → ((d1 d2 : D)
                → recover_sandboxes folders d1 ≡ (returns tt, d2)
                → AllClean folders d2 × ((n : String) → exists n d2 ≡ true → exists n d1 ≡ true))
            → and_rest x (recover_sandboxes folders) ≡ (returns tt, d')
            → AllClean (f ∷ folders) d' × ((n : String) → exists n d' ≡ true → exists n d ≡ true)
        destroyed job is_job (raises e, s) ran next after = absurd (ground arith)
        destroyed job is_job (returns u, s) ran next after =
            let (kept, gone) =
              destroy-Gone docker settings exists laws (record { box = sandbox_of job; daemon = d })
                s ran in
            let (all, later) = next s.daemon d' after in
            let clean : (n : String)
                → mem n (sandbox_of job).containers ≡ true
                → exists n d' ≡ false =
              λ n named.
                false_before docker settings exists laws n s.daemon d' (later n) (gone n named) in
            (
              ((job, is_job, (clean _ (first_named job), clean _ (second_named job))), all),
              λ n e. kept n (later n e),
            )
