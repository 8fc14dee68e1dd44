-- ===== src/Sandbox.antt =====
-- `DockerSandbox` (workers/evaluator/docker_sandbox.py): what it keeps, the commands that it gives to
-- Docker, and its operations. Docker, the file system and the event `cancel` are a parameter with a
-- state of its own, `D`. An operation is a function of both states; what it raises leaves them as they
-- were then.
pub mod Phases
pub mod Files
pub mod Rules
pub mod Tracked
pub mod Lifecycle
pub mod Removed
pub mod Recovery
pub mod Stopped
use Prim.Native.Char.{code}
use agent_bench_x.Prelude.{
  ℕ, ◌+◌, String, Bool, true, false, not, ◌&&◌, ◌||◌, Option, none, some, List, [], ◌∷◌, ◌++◌, ◌==◌,
  leb, str_eq, if◌then◌else◌,
}
use agent_bench_x.Junit.Text.{append, codes, starts_with, contains}
use agent_bench_x.Storage.{same, reverse_onto}
use agent_bench_x.Evaluator.{Outcome}

-- `SandboxError` and `CleanupError` with their messages, and any other exception.
pub data Failure : Type 0 where
  sandbox_error cleanup_error : String → Failure
  other_error : Failure

pub data Answer {ℓ} (A : Type ℓ) : Type ℓ where
  returns : A → Answer A
  raises : Failure → Answer A

pub record Settings : Type 0 where
  pub docker_platform : String
  pub build_timeout_seconds : ℕ
  -- The numbers as their texts.
  pub sandbox_memory_mb : String
  pub sandbox_cpus : String

-- The fields of `__init__`.
pub record Box : Type 0 where
  pub workspace : Option String
  pub image : Option String
  pub image_id : Option String
  pub containers : List String
  pub job_id : Option String
  pub current : Option String

unfoldable pub init : Box
init = record {
  workspace = none;
  image = none;
  image_id = none;
  containers = [];
  job_id = none;
  current = none;
}

pub record State (D : Type 0) : Type 0 where
  pub box : Box
  pub daemon : D

-- `run(["docker", …], timeout, cancel)`, in seconds, with or without the event;
-- `none` if it raises. Exit codes below
-- zero are numbers other than 0. The other fields are the file system's, `none` or `false` if it raises.
pub record Docker (D : Type 0) : Type 0 where
  pub run : List String → ℕ → Bool → D → Option Outcome × D
  pub is_set : D → Bool
  -- The runner's folder with its three files, and the logs of the build.
  pub write_runner : D → Bool × D
  pub write_logs : Outcome → D → Bool × D

abbrev pub Act : Type 0 → Type 0 → Type 0
Act D A = State D → Answer A × State D

module _ {D : Type 0} where
  abbrev pub and_then : {A B : Type 0} → Answer A × State D → (A → Act D B) → Answer B × State D
  and_then (returns a, s) next = next a s
  and_then (raises f, s) next = (raises f, s)

  infixl 5 ◌>>=◌ ◌>>◌
  unfoldable pub ◌>>=◌ : {A B : Type 0} → Act D A → (A → Act D B) → Act D B
  (m >>= next) s = and_then (m s) next

  unfoldable pub ◌>>◌ : {A B : Type 0} → Act D A → Act D B → Act D B
  unfolding ◌>>=◌
  m >> k = m >>= λ _. k

  unfoldable pub pure : {A : Type 0} → A → Act D A
  pure a s = (returns a, s)

  unfoldable pub raise_if : Bool → Failure → Act D (Unit {0})
  raise_if test f s = if test then (raises f, s) else (returns tt, s)

  unfoldable pub require : {A : Type 0} → Option A → Failure → Act D A
  require none f s = (raises f, s)
  require (some a) f s = (returns a, s)

  unfoldable pub get : Act D Box
  get s = (returns s.box, s)

  unfoldable pub get_daemon : Act D D
  get_daemon s = (returns s.daemon, s)

  unfoldable pub change : (Box → Box) → Act D (Unit {0})
  change f s = (returns tt, record s { box = f s.box })

  abbrev pub ran : State D → Option Outcome × D → Answer Outcome × State D
  ran s (none, d) = (raises other_error, record s { daemon = d })
  ran s (some outcome, d) = (returns outcome, record s { daemon = d })

abbrev pub fails : Outcome → Bool
fails outcome = not (outcome.exit_code == 0) || outcome.timed_out || outcome.cancelled

-- `str.isspace` on a code point.
abbrev is_space : ℕ → Bool
is_space c =
    (leb 9 c && leb c 13)
    || (leb 28 c && leb c 32)
    || c == 133
    || c == 160
    || c == 5760
    || (leb 8192 c && leb c 8202)
    || c == 8232
    || c == 8233
    || c == 8239
    || c == 8287
    || c == 12288

unfoldable pub drop_spaces : String → String
drop_spaces String.[] = ""
drop_spaces (String.◌∷◌ c text) =
    let rest = drop_spaces text in if is_space (code c) then rest else String.◌∷◌ c text

abbrev pub backwards : String → String → String
backwards String.[] read = read
backwards (String.◌∷◌ c text) read = backwards text (String.◌∷◌ c read)

-- `str.strip`
abbrev pub strip : String → String
strip text = backwards (drop_spaces (backwards (drop_spaces text) "")) ""

abbrev pub mem : String → List String → Bool
mem name [] = false
mem name (n ∷ names) = str_eq n name || mem name names

-- `set.add`
abbrev pub add : String → List String → List String
add name names = if mem name names then names else name ∷ names

module _ {D : Type 0} (docker : Docker D) where
  -- `run(["docker", …], …)`
  unfoldable pub run : List String → ℕ → Bool → Act D Outcome
  run args timeout cancellable s = ran s (docker.run args timeout cancellable s.daemon)

  -- `command`; its message tells the outcome.
  unfoldable pub command : List String → ℕ → Bool → Act D Outcome
  command args timeout check = do
    outcome ← run args timeout true
    raise_if (check && fails outcome) (sandbox_error "Docker command failed")
    pure outcome

  -- `preflight`, on the system's name and `DOCKER_HOST`.
  unfoldable pub preflight : String → List ℕ → Act D (Unit {0})
  preflight system configured_host = do
    raise_if (not (str_eq system "Darwin"))
        (sandbox_error "Real evaluation is enabled only on a Mac worker; this host is not Darwin")
    raise_if (not (same configured_host []) && not (starts_with (codes "unix://") configured_host))
        (sandbox_error "DOCKER_HOST must not target a remote execution daemon")
    outcome ←
        command ("context" ∷ "inspect" ∷ "--format" ∷ "{{.Endpoints.docker.Host}}" ∷ []) 15 true
    raise_if (not (starts_with (codes "unix://") (codes (strip outcome.stdout)))) (
        sandbox_error
          "A local Docker Desktop Unix socket is required; remote daemons are forbidden")
    command ("info" ∷ "--format" ∷ "{{.OSType}}" ∷ []) 15 true
    pure tt
