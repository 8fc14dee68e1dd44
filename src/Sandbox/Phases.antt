-- ===== src/Sandbox/Phases.antt =====
-- The life of a sandbox (workers/evaluator/docker_sandbox.py): `create`, `prepare`, `execute`, `stop` and
-- `destroy`.
use agent_bench_x.Prelude.{
  ℕ, String, Bool, true, false, not, ◌&&◌, ◌||◌, Option, none, some, List, [], ◌∷◌, ◌++◌, ◌==◌,
  str_eq, if◌then◌else◌,
}
use agent_bench_x.Junit.Text.{append, codes, starts_with, contains}
use agent_bench_x.Evaluator.{Outcome}
use agent_bench_x.Sandbox.{
  sandbox_error, cleanup_error, other_error, Answer, returns, raises, Settings, Box, State, Docker,
  Act, ◌>>=◌, ◌>>◌, pure, raise_if, require, get, get_daemon, change, fails, strip, add, run,
  command, preflight,
}

abbrev none_text : Option String → String
none_text none = "None"
none_text (some text) = text

abbrev pub container_name : Option String → String → String
container_name job mode = append "abx-" (append (none_text job) (append "-" mode))

abbrev pub bind_mount : String → String → String → List String
bind_mount workspace folder target =
    "--mount"
    ∷ append "type=bind,src="
        (append workspace (append folder (append ",dst=" (append target ",readonly"))))
    ∷ []

abbrev pub mounts : String → String → List String
mounts mode workspace =
    bind_mount workspace "/runner" "/runner"
    ++ (if str_eq mode "test"
        then bind_mount workspace "/problem/tests" "/tests"
          ++ bind_mount workspace "/candidate" "/candidate"
        else [])

-- What follows `docker create --name <name>`.
abbrev pub create_args : Settings → String → String → String → List String
create_args settings mode workspace image =
    ("--init"
      ∷ "--no-healthcheck"
      ∷ "--network"
      ∷ "none"
      ∷ "--cap-drop"
      ∷ "ALL"
      ∷ "--security-opt"
      ∷ "no-new-privileges"
      ∷ "--pids-limit"
      ∷ "256"
      ∷ "--memory"
      ∷ append settings.sandbox_memory_mb "m"
      ∷ "--memory-swap"
      ∷ append settings.sandbox_memory_mb "m"
      ∷ "--cpus"
      ∷ settings.sandbox_cpus
      ∷ "--ulimit"
      ∷ "fsize=67108864:67108864"
      ∷ "--log-opt"
      ∷ "max-size=10m"
      ∷ "--log-opt"
      ∷ "max-file=1"
      ∷ "--user"
      ∷ (if str_eq mode "agent" then "agent" else "root")
      ∷ "--entrypoint"
      ∷ "python3"
      ∷ [])
    ++ (if str_eq mode "test" then "--cap-add" ∷ "DAC_OVERRIDE" ∷ [] else [])
    ++ mounts mode workspace
    ++ image ∷ "/runner/harness.py" ∷ mode ∷ []

abbrev pub first_of : List String → Option String
first_of [] = none
first_of (a ∷ argv) = some a

module _ {D : Type 0} (docker : Docker D) (settings : Settings) where
  -- `create`: `uuid` is `str(UUID(job_id))`, unless that raises `ValueError`.
  unfoldable pub create : String → List ℕ → (String → Option String) → String → Act D String
  create system configured_host uuid job_id = do
    preflight docker system configured_host
    id ← require (uuid job_id) other_error
    change λ box. record box { job_id = some id; image = some (append "agentbenchx-job:" id) }
    pure id

  abbrev pub written : State D → Bool × D → Answer (Unit {0}) × State D
  written s (true, d) = (returns tt, record s { daemon = d })
  written s (false, d) = (raises other_error, record s { daemon = d })

  unfoldable pub write : (D → Bool × D) → Act D (Unit {0})
  write files s = written s (files s.daemon)

  abbrev pub inspect_image : String → String → Act D Outcome
  inspect_image format image =
      command docker ("image" ∷ "inspect" ∷ "--format" ∷ format ∷ image ∷ []) 30 true

  -- `prepare`, in a workspace.
  unfoldable pub prepare : String → Act D (Unit {0})
  prepare workspace = do
    change λ box. record box { workspace = some workspace }
    write docker.write_runner
    box ← get
    image ← require box.image other_error
    build ←
        command docker
          ("build"
            ∷ "--platform"
            ∷ settings.docker_platform
            ∷ "--tag"
            ∷ image
            ∷ append workspace "/problem/environment"
            ∷ [])
          settings.build_timeout_seconds false
    write (docker.write_logs build)
    raise_if (fails build)
        (sandbox_error "Benchmark image build failed; inspect the preserved build logs")
    id ← inspect_image "{{.Id}}" image
    change λ b. record b { image_id = some (strip id.stdout) }
    workdir ← inspect_image "{{.Config.WorkingDir}}" image
    raise_if
        (not (starts_with (codes "/") (codes (strip workdir.stdout)))
          || str_eq (strip workdir.stdout) "/")
        (sandbox_error "Harbor image must declare a repository WORKDIR")

  abbrev pub confirm : Outcome → Act D (Unit {0})
  confirm checked =
      raise_if (not (checked.exit_code == 0) || not (str_eq (strip checked.stdout) "false"))
        (cleanup_error "Cannot confirm container termination; worker must stop")

  -- `stop`
  unfoldable pub stop : String → Act D (Unit {0})
  stop name = do
    run docker ("kill" ∷ name ∷ []) 10 false
    checked ← run docker ("inspect" ∷ "--format" ∷ "{{.State.Running}}" ∷ name ∷ []) 10 false
    confirm checked

  -- `execute` in a mode; `exit_code` reads `ExitCode` of the state that Docker tells, unless that
  -- raises.
  unfoldable pub execute_mode : (String → Option ℕ) → ℕ → String → Box → Act D Outcome
  execute_mode exit_code timeout_seconds mode box = do
    raise_if (not (str_eq mode "agent" || str_eq mode "test"))
        (sandbox_error "Invalid sandbox phase")
    workspace ← require box.workspace (sandbox_error "Invalid sandbox phase")
    d ← get_daemon
    raise_if (docker.is_set d) (sandbox_error "Execution cancelled before container creation")
    let name = container_name box.job_id mode
    change λ b. record b { containers = add name b.containers }
    image ← require box.image_id other_error
    command docker ("create" ∷ "--name" ∷ name ∷ create_args settings mode workspace image) 30 true
    change λ b. record b { current = some name }
    outcome ← command docker ("start" ∷ "--attach" ∷ name ∷ []) timeout_seconds false
    stop name
    state ← run docker ("inspect" ∷ "--format" ∷ "{{json .State}}" ∷ name ∷ []) 10 false
    recorded ← require (exit_code state.stdout) other_error
    pure (record outcome { exit_code = recorded })

  -- `execute`
  unfoldable pub execute : (String → Option ℕ) → List String → ℕ → Act D Outcome
  unfolding execute_mode
  execute exit_code argv timeout_seconds = do
    mode ← require (first_of argv) other_error
    box ← get
    execute_mode exit_code timeout_seconds mode box

  -- The loop of `destroy`: the containers that could not be removed.
  abbrev pub is_left : Outcome → Bool
  is_left removed =
      not (removed.exit_code == 0)
      && not (contains (codes "No such container") (codes removed.stderr))

  abbrev pub left_of : String → Outcome → List String → List String
  left_of name removed failures = if is_left removed then name ∷ failures else failures

  unfoldable pub remove_all : List String → Act D (List String)
  remove_all [] = pure []
  remove_all (name ∷ names) = do
    removed ← run docker ("rm" ∷ "--force" ∷ "--volumes" ∷ name ∷ []) 15 false
    failures ← remove_all names
    pure (left_of name removed failures)

  abbrev pub is_any : List String → Bool
  is_any [] = false
  is_any (n ∷ names) = true

  unfoldable pub remove_image : Option String → Act D (Unit {0})
  remove_image none = pure tt
  remove_image (some image) = run docker ("image" ∷ "rm" ∷ image ∷ []) 30 false >> pure tt

  unfoldable pub finish : Box → List String → Act D (Unit {0})
  finish box failures = do
    raise_if (is_any failures)
        (cleanup_error "Container cleanup failed; preserve workspace and stop worker")
    remove_image box.image

  -- `destroy`
  unfoldable pub destroy : Act D (Unit {0})
  destroy = do box ← get; failures ← remove_all box.containers; finish box failures
