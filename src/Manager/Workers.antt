-- ===== src/Manager/Workers.antt =====
-- Workers: registration and idle heartbeats (`EvaluationManager.register` and `worker_heartbeat`),
-- and the authentication of their requests (`bearer` and `worker_auth` of
-- apps/api/agentbenchx/main.py).
pub mod Access
use agent_bench_x.Prelude.{
  ℕ, String, Bool, true, false, not, ◌&&◌, Option, none, some, List, [], ◌∷◌, ◌++◌, ◌==◌, is_some,
  if◌then◌else◌, find_first, str_eq,
}
use agent_bench_x.Models.{Worker, WorkerStatus, Moment}
use agent_bench_x.Manager.Tables.{
  Result, ok, err, http, integrity, ◌>>=◌, ◌>>◌, raise_if, require, Tables, Notice, Reply, Event,
  get_worker, put_worker, is_active_of,
}

-- The status that a worker may ask for (`WorkerHeartbeat.status`): not BUSY.
pub data AskedStatus : Type 0 where
  online draining error offline : AskedStatus

abbrev pub asked : AskedStatus → WorkerStatus
asked AskedStatus.online = WorkerStatus.online
asked AskedStatus.draining = WorkerStatus.draining
asked AskedStatus.error = WorkerStatus.error
asked AskedStatus.offline = WorkerStatus.offline

abbrev pub is_asked_online : AskedStatus → Bool
is_asked_online AskedStatus.online = true
is_asked_online _ = false

abbrev pub same_status : WorkerStatus → WorkerStatus → Bool
same_status WorkerStatus.online WorkerStatus.online = true
same_status WorkerStatus.busy WorkerStatus.busy = true
same_status WorkerStatus.draining WorkerStatus.draining = true
same_status WorkerStatus.error WorkerStatus.error = true
same_status WorkerStatus.offline WorkerStatus.offline = true
same_status _ _ = false

-- The new row of a registration; `token` is what `secrets.token_urlsafe` drew.
module _ (sha256 : String → String) (uid : ℕ) (token : String) (now : Moment) where
  abbrev pub new_worker : String → Worker
  new_worker name = record {
    id = uid;
    name = name;
    status = WorkerStatus.online;
    last_heartbeat = now;
    token_hash = sha256 token;
  }

  unfoldable pub register : String → Tables → Reply (Worker × String)
  register name db = do
    let worker = new_worker name
    raise_if (is_some (get_worker uid db)) integrity
    ok (
      (worker, token),
      record db { workers = db.workers ++ worker ∷ [] },
      Notice.publish (Event.worker_status uid worker.status) ∷ [],
    )

-- `"BUSY" if active and status == "ONLINE" else status`
abbrev pub kept_status : Bool → AskedStatus → WorkerStatus
kept_status active status =
    if active && is_asked_online status then WorkerStatus.busy else asked status

unfoldable pub worker_heartbeat :
    Moment → Worker → AskedStatus → Tables → Worker × Tables × List Notice
worker_heartbeat now worker status db =
    let active = is_some (find_first (is_active_of worker.id) db.jobs) in
    let worker' = record worker { status = kept_status active status; last_heartbeat = now } in
    (
      worker',
      record db { workers = put_worker worker' db.workers },
      (if same_status worker.status worker'.status
          then []
          else Notice.publish (Event.worker_status worker'.id worker'.status) ∷ []),
    )

-- An `Authorization` header that begins with "Bearer ", less that prefix, or any other.
pub data Authorization : Type 0 where
  bearer_token : String → Authorization
  other : Authorization

abbrev pub bearer : Authorization → Result String
bearer (bearer_token token) = ok token
bearer other = err (http 401 "Bearer authentication required")

unfoldable pub worker_auth : (String → String) → ℕ → Authorization → Tables → Result Worker
worker_auth sha256 id authorization db = do
  worker ← require (get_worker id db) "Worker not found"
  token ← bearer authorization
  raise_if (not (str_eq (sha256 token) worker.token_hash)) (http 403 "Invalid worker credentials")
  ok worker

-- `admin` of apps/api/agentbenchx/main.py.
unfoldable pub admin : String → Authorization → Result (Unit {0})
admin admin_token authorization = do
  token ← bearer authorization
  raise_if (not (str_eq token admin_token)) (http 403 "Invalid administrator token")
