-- ===== src/WorkerLoop.antt =====
-- The main loop of a worker (workers/evaluator/main.py): `replay_pending`, which delivers the results
-- that were written before a crash or a lost connection, and the rounds of `run_worker`. What the
-- server answers is a script.
pub mod Pending
use agent_bench_x.Prelude.{
  ℕ, zero, suc, String, Bool, true, false, ◌&&◌, ◌||◌, Option, none, some, List, [], ◌∷◌, ◌++◌,
  ◌==◌, if◌then◌else◌,
}
use agent_bench_x.Models.{Moment}
use agent_bench_x.IdleSchedule.{IdleSchedule, heartbeat_due, poll_due, heartbeat_sent, empty, found}

-- The folder of one evaluation: `result.pending.json`, and what becomes of it.
pub data FileState : Type 0 where
  pending accepted rejected : FileState

pub record Folder : Type 0 where
  pub job : ℕ
  pub state : FileState
  pub has_receipt : Bool

-- What `client.result` does: a receipt, an HTTP status that is an error, or another exception.
pub data Delivery : Type 0 where
  receipt : Delivery
  status_error : ℕ → Delivery
  other_error : Delivery

-- `exc.response.status_code in {403, 404, 409}`
abbrev pub is_refusal : ℕ → Bool
is_refusal code = code == 403 || code == 404 || code == 409

-- How `replay_pending` ends: it returns, or it passes an exception on.
pub data Ending : Type 0 where
  returns raises : Ending

abbrev pub is_pending : FileState → Bool
is_pending FileState.pending = true
is_pending _ = false

abbrev pub and_folder : Folder → Ending × List Folder → Ending × List Folder
and_folder folder (ending, folders) = (ending, folder ∷ folders)

-- The loop of `replay_pending` over the folders; `client` answers for each job.
unfoldable pub replay_pending : (ℕ → Delivery) → List Folder → Ending × List Folder
replay_pending client [] = (returns, [])
replay_pending client (f ∷ folders) =
    let rest = replay_pending client folders in
    if is_pending f.state
    then elim (client f.job) [
      | receipt ↦ and_folder (record f { state = FileState.accepted; has_receipt = true }) rest
      | status_error code ↦
          if is_refusal code
          then and_folder (record f { state = FileState.rejected }) rest
          else (raises, f ∷ folders)
      | other_error ↦ (raises, f ∷ folders)
    ]
    else and_folder f rest

-- What `client.result` does with the result of the current job: a receipt, `TransportError` (and
-- whether the lease is cancelled while the worker waits), or another exception.
pub data Upload : Type 0 where
  acknowledged : Upload
  transport_error : Bool → Upload
  failed : Upload

-- How the `for` loop ends: by `break` with or without a receipt, by its `else`, or by an exception.
-- A script that ends early counts as an exception.
pub data Delivered : Type 0 where
  done given_up stopped broken : Delivered

-- The first argument is the number of tries that are left.
unfoldable pub deliver : ℕ → List Upload → Delivered
deliver zero answers = stopped
deliver (suc n) [] = broken
deliver (suc n) (acknowledged ∷ answers) = done
deliver (suc n) (transport_error cancelled ∷ answers) =
    if cancelled then given_up else deliver n answers
deliver (suc n) (failed ∷ answers) = broken

-- What becomes of a job.
pub data Job : Type 0 where
  -- `CleanupError` after the result was written, and whether the heartbeat ERROR fails then.
  unclean : Bool → Job
  -- Another exception, before the result was written.
  crashed : Job
  -- `evaluate` returned; whether the lease was cancelled then, and the answers to the deliveries.
  evaluated : Bool → List Upload → Job

pub data Poll : Type 0 where
  no_job poll_failed : Poll
  claimed : ℕ → Job → Poll

pub record Round : Type 0 where
  pub client : ℕ → Delivery
  -- The clock readings, in the order of the code.
  pub now : ℕ → Moment
  pub heartbeat_fails : Bool
  pub poll : Poll

pub record WorkerState : Type 0 where
  pub schedule : IdleSchedule
  pub folders : List Folder
  -- The event `stop`.
  pub stop : Bool
  -- The jobs that the worker has claimed, the last one first.
  pub claims : List ℕ

-- How a round ends: the loop goes on, `run_worker` returns, or it raises.
pub data Next : Type 0 where
  continues leaves raises_error : Next

-- The last `except` clause.
abbrev pub fail : Bool → WorkerState → Next × WorkerState
fail once s = ((if once then raises_error else continues), s)

abbrev pub keep : ℕ → FileState → Bool → WorkerState → WorkerState
keep job state has_receipt s = record s {
  folders = s.folders ++ (record { job = job; state = state; has_receipt = has_receipt } ∷ []);
}

abbrev pub keep_pending : ℕ → WorkerState → WorkerState
keep_pending job = keep job FileState.pending false

module _ (uniform : ℕ → ℕ → ℕ) (once : Bool) (r : Round) where
  -- The end of the round, after the `with` block.
  abbrev pub finish_job : WorkerState → Next × WorkerState
  finish_job s = (
    (if once then leaves else continues),
    record s { schedule = heartbeat_sent uniform s.schedule (r.now 4) },
  )

  abbrev pub after_delivery : ℕ → Delivered → WorkerState → Next × WorkerState
  after_delivery job done s = finish_job (keep job FileState.accepted true s)
  after_delivery job given_up s = finish_job (keep_pending job s)
  after_delivery job stopped s = finish_job (record (keep_pending job s) { stop = true })
  after_delivery job broken s = fail once (keep_pending job s)

  abbrev pub run_job : ℕ → Job → WorkerState → Next × WorkerState
  run_job job (unclean fails) s =
      ((if fails then raises_error else continues), record (keep_pending job s) { stop = true })
  run_job job crashed s = fail once s
  run_job job (evaluated cancelled answers) s =
      if cancelled
      then finish_job (keep_pending job s)
      else after_delivery job (deliver 3 answers) s

  abbrev pub after_poll : Poll → WorkerState → Next × WorkerState
  after_poll poll_failed s = fail once s
  after_poll no_job s =
      if once
      then (leaves, s)
      else (continues, record s { schedule = empty uniform s.schedule (r.now 3) })
  after_poll (claimed job does) s =
      run_job job does (record s { schedule = found s.schedule; claims = job ∷ s.claims })

  abbrev pub poll_if_due : WorkerState → Next × WorkerState
  poll_if_due s = if poll_due s.schedule (r.now 2) then after_poll r.poll s else (continues, s)

  abbrev pub beat_if_due : WorkerState → Next × WorkerState
  beat_if_due s =
      if heartbeat_due s.schedule (r.now 0)
      then (if r.heartbeat_fails
          then fail once s
          else poll_if_due (record s { schedule = heartbeat_sent uniform s.schedule (r.now 1) }))
      else poll_if_due s

  abbrev pub after_replay : Ending × List Folder → WorkerState → Next × WorkerState
  after_replay (returns, folders) s = beat_if_due (record s { folders = folders })
  after_replay (raises, folders) s = fail once (record s { folders = folders })

  -- One round of the `while` loop.
  unfoldable pub round : WorkerState → Next × WorkerState
  round s = after_replay (replay_pending r.client s.folders) s

-- The rounds until the worker stops or leaves, or the script ends.
unfoldable pub run_worker : (ℕ → ℕ → ℕ) → Bool → List Round → WorkerState → Next × WorkerState
run_worker uniform once [] s = (continues, s)
run_worker uniform once (r ∷ rounds) s =
    let s' = round uniform once r s in
    let rest = run_worker uniform once rounds s'.1 in
    if s.stop then (leaves, s) else elim s'.0 [ continues ↦ rest | leaves ↦ s' | raises_error ↦ s' ]
