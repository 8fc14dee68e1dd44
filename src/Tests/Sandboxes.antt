-- ===== src/Tests/Sandboxes.antt =====
-- A sandbox on a Docker whose state is the names of its containers, or of those that run.
use agent_bench_x.Prelude.{
  ℕ, ◌≤◌, ◌≡◌, ◌≢◌, ◌⊎◌, refl, inl, inr, String, true, false, subst, ◌==◌, Option, none, some, List,
  [], ◌∷◌, arith, str_eq, str_eq_iff, if◌then◌else◌, length, Bool-cases,
}
use agent_bench_x.Junit.Text.{starts_with}
use agent_bench_x.Storage.{same}
use agent_bench_x.Evaluator.{Outcome}
use agent_bench_x.Sandbox.{
  returns, Settings, Box, init, State, Docker, strip, mem, preflight, run, command, raise_if,
  require, get, get_daemon, change, pure, drop_spaces, ◌>>=◌, ◌>>◌,
}
use agent_bench_x.Sandbox.Phases.{
  container_name, create, prepare, execute_mode, execute, stop, write, remove_all, remove_image,
  finish, destroy,
}
use agent_bench_x.Sandbox.Tracked.{IsDocker, is_quiet}
use agent_bench_x.Sandbox.Removed.{own, start, created, prepared, executed, gathered, destroy-clean}
use agent_bench_x.Sandbox.Recovery.{
  sandbox_of, recover_sandboxes, AllClean, recover_sandboxes-AllClean,
}
use agent_bench_x.Sandbox.Stopped.{IsInspect, execute-stopped}
use agent_bench_x.Sandbox.Files.{
  Stream, Member, collect, copy, IsOneFile, read_file, read_file-bounded,
}

abbrev drop : String → List String → List String
drop name [] = []
drop name (n ∷ names) = let rest = drop name names in if str_eq n name then rest else n ∷ rest

-- The commands by their words; those that make a container are the ones that are not quiet.
abbrev named : List String → List String → List String
named (flag ∷ name ∷ rest) names = name ∷ names
named _ names = names

abbrev removed : List String → List String → List String
removed (force ∷ volumes ∷ name ∷ rest) names = drop name names
removed _ names = names

abbrev after : List String → List String → List String
after [] names = names
after (verb ∷ rest) names =
    let gone = removed rest names in
    let made = named rest names in
    if is_quiet verb then (if str_eq verb "rm" then gone else names) else made

abbrev told : List String → String
told [] = ""
told (verb ∷ rest) =
    if str_eq verb "context"
    then "unix://docker.sock"
    else if str_eq verb "image"
    then "/work "
    else "false\n"

abbrev outcome : List String → Outcome
outcome args = record {
  exit_code = 0;
  stdout = told args;
  stderr = "";
  timed_out = false;
  cancelled = false;
}

abbrev docker : Docker (List String)
docker = record {
  run = λ args t c names. (some (outcome args), after args names);
  is_set = λ names. false;
  write_runner = λ names. (true, names);
  write_logs = λ o names. (true, names);
}

drop-kept : (m n : String) (names : List String) → mem n (drop m names) ≡ true → mem n names ≡ true
drop-kept m n [] h = h
drop-kept m n (x ∷ names) h = ground (arith, drop-kept m n names)

drop-gone : (n : String) (names : List String) → mem n (drop n names) ≡ false
drop-gone n [] = refl
drop-gone n (x ∷ names) = ground (arith, drop-gone n names)

removed-kept :
    (rest names : List String) (n : String) → mem n (removed rest names) ≡ true → mem n names ≡ true
removed-kept [] names n h = h
removed-kept (a ∷ []) names n h = h
removed-kept (a ∷ b ∷ []) names n h = h
removed-kept (a ∷ b ∷ name ∷ rest) names n h = drop-kept name n names h

quiet-kept :
    (verb : String) (rest names : List String) (n : String)
    → is_quiet verb ≡ true
    → mem n (after (verb ∷ rest) names) ≡ true
    → mem n names ≡ true
quiet-kept verb rest names n quiet h = ground (arith, removed-kept rest names n)

made-named :
    (m : String) (names : List String) (n : String)
    → mem n (m ∷ names) ≡ true
    → (mem n names ≡ true) ⊎ (m ≡ n)
made-named m names n h = elim (Bool-cases (mem n names)) [
  | inl there ↦ inl there
  | inr new ↦ inr (ground (arith, str_eq_iff m n))
]

own_kept :
    (n : String) (names' names : List String)
    → own mem n names' ≡ true
    → (mem n names' ≡ true → mem n names ≡ true)
    → own mem n names ≡ true
own_kept n names' names e kept = ground (arith, kept)

own_made :
    (m n : String) (names : List String)
    → own mem n (m ∷ names) ≡ true
    → (own mem n names ≡ true) ⊎ (m ≡ n)
own_made m n names e = elim (made-named m names n (ground arith)) [
  | inl there ↦ inl (ground arith)
  | inr same_name ↦ inr same_name
]

own_gone : (n : String) (names : List String) → mem n names ≡ false → own mem n names ≡ false
own_gone n names h = ground arith

abbrev laws : IsDocker docker mem
laws = record {
  keeps = λ verb rest t c names n quiet e. quiet-kept verb rest names n quiet e;
  creates = λ m rest t c names n e. made-named m names n e;
  removes = λ n t c names names' o h e.
      let same_names : drop n names ≡ names' = ground arith in
      rw (← same_names) (drop-gone n names);
  runner = λ names n e. e;
  logs = λ o names n e. e;
}

-- The same laws, of the containers with names of sandboxes.
abbrev own_laws : IsDocker docker (own mem)
own_laws = record {
  keeps =
      λ verb rest t c names n quiet e. own_kept n _ names e (quiet-kept verb rest names n quiet);
  creates = λ m rest t c names n e. own_made m n names e;
  removes = λ n t c names names' o h e. own_gone n names' (laws.removes n t c names names' o h e);
  runner = λ names n e. e;
  logs = λ o names n e. e;
}

abbrev settings : Settings
settings = record {
  docker_platform = "linux/arm64";
  build_timeout_seconds = 600;
  sandbox_memory_mb = "2048";
  sandbox_cpus = "2";
}

abbrev zero_code : String → Option ℕ
zero_code state = some 0

abbrev same_id : String → Option String
same_id id = some id

-- A container of somebody else is there before.
abbrev fresh : State (List String)
fresh = record { box = init; daemon = "abx-k-agent" ∷ [] }

abbrev built : State (List String)
built = (create docker settings "Darwin" [] same_id "j" fresh).1

abbrev ready : State (List String)
ready = (prepare docker settings "/jobs/j" built).1

abbrev ended : State (List String)
ended = (execute docker settings zero_code ("agent" ∷ []) 60 ready).1

abbrev box : Box
box = record {
  workspace = some "/jobs/j";
  image = some "agentbenchx-job:j";
  image_id = some "/work";
  containers = "abx-j-agent" ∷ [];
  job_id = some "j";
  current = some "abx-j-agent";
}

execute-run : execute docker settings zero_code ("agent" ∷ []) 60 ready ≡ (
  returns (record (outcome ("start" ∷ [])) { exit_code = 0 }),
  record { box = box; daemon = "abx-j-agent" ∷ "abx-k-agent" ∷ [] },
)
unfolding execute execute_mode create prepare preflight stop write init run command raise_if require
    get get_daemon change pure drop_spaces ◌>>=◌ ◌>>◌ starts_with same
execute-run = refl

-- An archive of one file, of three bytes.
abbrev cp : String → String → ℕ → List String → Option Stream × List String
cp name filename n names = (some (record { bytes = []; exit_code = some 0 }), names)

abbrev members : List ℕ → Option (List Member)
members bytes = some (record { is_file = true; size = 3; content = 1 ∷ 2 ∷ 3 ∷ [] } ∷ [])

abbrev decode : List ℕ → Option (List ℕ)
decode bytes = some bytes

abbrev collected : State (List String)
collected = (collect cp members decode ended).1

destroy-run :
    destroy docker settings collected
    ≡ (returns tt, record { box = box; daemon = "abx-k-agent" ∷ [] })
unfolding destroy remove_all remove_image finish execute execute_mode create prepare preflight stop
    write init run command raise_if require get get_daemon change pure drop_spaces ◌>>=◌ ◌>>◌
    starts_with same collect read_file copy
destroy-run = refl

destroy-clean_example : mem "abx-k-agent" ("abx-k-agent" ∷ []) ≡ true
unfolding starts_with
destroy-clean_example =
    destroy-clean docker settings mem own_laws ("abx-k-agent" ∷ []) collected
      (record { box = box; daemon = "abx-k-agent" ∷ [] })
      (gathered ended cp members decode (λ name file k d n e. e)
        (executed ready zero_code ("agent" ∷ []) 60
          (prepared built "/jobs/j" (created fresh "Darwin" [] same_id "j" start))))
      destroy-run "abx-k-agent" refl refl

-- A Docker whose state is the names of the containers that run.
abbrev started : List String → List String → List String
started (attach ∷ name ∷ rest) names = name ∷ names
started _ names = names

abbrev killed : List String → List String → List String
killed (name ∷ rest) names = drop name names
killed [] names = names

abbrev then_runs : List String → List String → List String
then_runs [] names = names
then_runs (verb ∷ rest) names =
    let up = started rest names in
    let down = killed rest names in
    if str_eq verb "start" then up else if str_eq verb "kill" then down else names

abbrev run_state : List String → List String → String
run_state (format ∷ template ∷ name ∷ rest) names = if mem name names then "true\n" else "false\n"
run_state _ names = ""

abbrev tells : List String → List String → String
tells [] names = ""
tells (verb ∷ rest) names = if str_eq verb "inspect" then run_state rest names else ""

abbrev says : List String → List String → Outcome
says args names = record (outcome args) { stdout = tells args names }

abbrev engine : Docker (List String)
engine = record docker { run = λ args t c names. (some (says args names), then_runs args names) }

inspect-tells :
    (n : String) (names names' : List String) (o : Outcome)
    → engine.run ("inspect" ∷ "--format" ∷ "{{.State.Running}}" ∷ n ∷ []) 10 false names
      ≡ (some o, names')
    → (o.exit_code == 0) ≡ true
    → str_eq (strip o.stdout) "false" ≡ true
    → mem n names' ≡ false
unfolding drop_spaces
inspect-tells n names names' o h zero_exit stopped = elim (Bool-cases (mem n names)) [
  | inr idle ↦ ground arith
  | inl runs ↦
      let told_so : o.stdout ≡ "true\n" = ground arith in
      let false_told = subst (λ text. str_eq (strip text) "false" ≡ true) told_so stopped in
      absurd (ground arith)
]

abbrev inspects : IsInspect engine settings mem
inspects = record { tells = inspect-tells; starts_none = λ n rest names h. h }

-- Another job's container goes on running.
abbrev prepared_box : Box
prepared_box = record box { containers = []; current = none }

execute-engine-run :
    execute engine settings zero_code
      ("agent" ∷ [])
      60
      (record { box = prepared_box; daemon = "abx-k-agent" ∷ [] })
    ≡ (
      returns (record (outcome []) { exit_code = 0; stdout = "" }),
      record { box = box; daemon = "abx-k-agent" ∷ [] },
    )
unfolding execute execute_mode stop run command raise_if require get get_daemon change pure
    drop_spaces ◌>>=◌ ◌>>◌
execute-engine-run = refl

execute-stopped_example :
    (box.current ≡ some (container_name (some "j") "agent"))
    × (mem (container_name (some "j") "agent") ("abx-k-agent" ∷ []) ≡ false)
execute-stopped_example =
    execute-stopped engine settings mem inspects zero_code "agent" [] 60
      (record { box = prepared_box; daemon = "abx-k-agent" ∷ [] })
      (record { box = box; daemon = "abx-k-agent" ∷ [] })
      (record (outcome []) { exit_code = 0; stdout = "" }) execute-engine-run

read_file-run : read_file cp members decode "c" "/f" 100 fresh ≡ (returns (1 ∷ 2 ∷ 3 ∷ []), fresh)
unfolding read_file copy raise_if require pure ◌>>=◌ ◌>>◌
read_file-run = refl

read_file-bounded_example :
    (stream : Stream) × (code : ℕ) × ((cp "c" "/f" 65637 ("abx-k-agent" ∷ [])).0 ≡ some stream)
    × (length stream.bytes ≤ 65636)
    × (stream.exit_code ≡ some code)
    × (((code ≢ 0) × (◌≡◌ {A = List ℕ} (1 ∷ 2 ∷ 3 ∷ []) []))
        ⊎ ((code ≡ 0) × IsOneFile cp members decode 100 stream.bytes (1 ∷ 2 ∷ 3 ∷ [])))
read_file-bounded_example =
    read_file-bounded cp members decode "c" "/f" 100 fresh fresh (1 ∷ 2 ∷ 3 ∷ []) read_file-run

recover_sandboxes-run :
    recover_sandboxes docker settings same_id ("j" ∷ []) ("abx-j-test" ∷ "abx-k-agent" ∷ [])
    ≡ (returns tt, "abx-k-agent" ∷ [])
unfolding recover_sandboxes sandbox_of destroy remove_all remove_image finish init run raise_if get
    pure ◌>>=◌ ◌>>◌
recover_sandboxes-run = refl

recover_sandboxes-AllClean_example :
    AllClean docker settings same_id mem laws ("j" ∷ []) ("abx-k-agent" ∷ [])
    × ((n : String)
        → mem n ("abx-k-agent" ∷ []) ≡ true
        → mem n ("abx-j-test" ∷ "abx-k-agent" ∷ []) ≡ true)
recover_sandboxes-AllClean_example =
    recover_sandboxes-AllClean docker settings same_id mem laws ("j" ∷ [])
      ("abx-j-test" ∷ "abx-k-agent" ∷ []) ("abx-k-agent" ∷ []) recover_sandboxes-run
