-- ===== src/WorkerStart.antt =====
-- What a worker settles before its first round: `WorkerSettings.valid` (workers/evaluator/config.py) and
-- `identity` (workers/evaluator/main.py). Delays are whole microseconds.
pub mod Settled
use agent_bench_x.Prelude.{
  ℕ, ◌*◌, String, Bool, true, false, not, ◌&&◌, ◌||◌, Option, none, some, List, [], ◌∷◌, ◌==◌, ltb,
  max, str_eq, is_some, if◌then◌else◌,
}
use agent_bench_x.Models.{second}
use agent_bench_x.Storage.{has_char}

-- `SERVER_URL` as `urlsplit` reads it.
pub record Origin : Type 0 where
  -- The scheme is `http` or `https`.
  pub is_http : Bool
  -- Whether the part is there and is not empty.
  pub hostname : Bool
  pub username : Bool
  pub password : Bool
  pub query : Bool
  pub fragment : Bool
  -- The path is empty or `/`.
  pub is_root : Bool

pub record WorkerSettings : Type 0 where
  pub server_url : String
  pub origin : Origin
  pub worker_id : Option String
  pub worker_token : Option String
  pub worker_poll_interval : ℕ
  pub worker_idle_poll_min_seconds : Option ℕ
  pub worker_idle_poll_max_seconds : Option ℕ
  pub worker_idle_heartbeat_seconds : ℕ
  -- The path, expanded and resolved.
  pub workspace_root : List ℕ

-- A value, or the message of a `ValueError`; `failed` is any other exception.
pub data Checked {ℓ} (A : Type ℓ) : Type ℓ where
  passes : A → Checked A
  value_error : String → Checked A
  failed : Checked A

abbrev pub or_delay : Option ℕ → ℕ → ℕ
or_delay none d = d
or_delay (some n) d = n

-- The two bounds with their defaults.
abbrev pub least : WorkerSettings → ℕ
least s = or_delay s.worker_idle_poll_min_seconds s.worker_poll_interval

abbrev pub most : WorkerSettings → ℕ
most s = or_delay s.worker_idle_poll_max_seconds (max (30 * second) (least s))

abbrev is_origin : Origin → Bool
is_origin u =
    u.is_http
    && u.hostname
    && not u.username
    && not u.password
    && not u.query
    && not u.fragment
    && u.is_root

-- `bool(…)` of an optional text.
abbrev pub is_set : Option String → Bool
is_set none = false
is_set (some text) = not (str_eq text "")

abbrev is_same : Bool → Bool → Bool
is_same true b = b
is_same false b = not b

-- `valid`
unfoldable pub valid : WorkerSettings → Checked WorkerSettings
valid s =
    if ltb (most s) (least s)
    then value_error "Idle poll maximum must be at least the minimum"
    else if not (is_origin s.origin)
    then value_error "SERVER_URL must be an HTTP(S) origin without credentials"
    else if not (is_same (is_set s.worker_id) (is_set s.worker_token))
    then value_error "Set WORKER_ID and WORKER_TOKEN together, or use saved credentials"
    else if has_char b',' s.workspace_root
        || has_char 10 s.workspace_root
        || has_char 13 s.workspace_root
    then value_error "WORKSPACE_ROOT contains unsupported mount-path characters"
    else passes (record s {
      worker_idle_poll_min_seconds = some (least s);
      worker_idle_poll_max_seconds = some (most s);
    })

-- `identity.json`
pub record Saved : Type 0 where
  pub is_symlink : Bool
  -- `st_mode & 0o077 == 0`
  pub is_private : Bool
  pub id : String
  pub token : String
  pub server_url : String

-- The id and the token of the client.
abbrev pub Identity : Type 0
Identity = String × String

-- `uuid` is `str(UUID(text))`, unless that raises `ValueError`.
module _ (uuid : String → Option String) where
  abbrev pub known : Option String → String → Checked Identity
  known none token = value_error "badly formed hexadecimal UUID string"
  known (some id) token = passes (id, token)

  abbrev pub from_file : String → Saved → Checked Identity
  from_file server_url saved =
      if saved.is_symlink || not saved.is_private
      then value_error "Worker identity must be a private regular file (chmod 600)"
      else if not (str_eq saved.server_url server_url)
      then value_error "Saved identity belongs to another SERVER_URL"
      else known (uuid saved.id) saved.token

  -- The id is read before the token.
  abbrev pub from_settings : Option String → Option String → Checked Identity
  from_settings none token = value_error "badly formed hexadecimal UUID string"
  from_settings (some id) none = failed
  from_settings (some id) (some token) = passes (id, token)

  -- What `client.register` answers; it fails where the server cannot be reached. The file is created
  -- with mode 0o600 and in the mode that refuses one that is there.
  abbrev pub registered : String → Option Identity → Checked Identity × Option Saved
  registered server_url none = (failed, none)
  registered server_url (some (id, token)) = (
    passes (id, token),
    some (record {
      is_symlink = false;
      is_private = true;
      id = id;
      token = token;
      server_url = server_url;
    }),
  )

  abbrev pub without_id :
      WorkerSettings → Option Saved → Option Identity → Checked Identity × Option Saved
  without_id s (some saved) answer = (from_file s.server_url saved, some saved)
  without_id s none answer = registered s.server_url answer

  abbrev pub with_id :
      WorkerSettings
      → Option String
      → Option Saved
      → Option Identity
      → Checked Identity × Option Saved
  with_id s none file answer = without_id s file answer
  with_id s (some id) file answer =
      let stored = without_id s file answer in
      if str_eq id "" then stored else (from_settings (uuid id) s.worker_token, file)

  -- `identity`, with the file that is there and that there is after it.
  unfoldable pub identity :
      WorkerSettings → Option Saved → Option Identity → Checked Identity × Option Saved
  identity s file answer = with_id s s.worker_id file answer
