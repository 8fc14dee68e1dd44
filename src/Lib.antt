-- ===== src/Lib.antt =====
-- AgentBenchX: a control plane that hands evaluation jobs to workers, and the worker that runs them.
--
-- The control plane (apps/api/agentbenchx) keeps everything in database tables and changes them in
-- transactions: a submission queues jobs; a worker claims the oldest job under a lease, renews the lease with
-- heartbeats and delivers one result; a reaper ends jobs whose lease has run out and queues the next
-- attempt. The worker (workers/evaluator) polls, renews its lease with a deadline of its own, runs
-- agent and tests in a sandbox, and turns what it saw into a result that the API accepts.
--
-- Files, and the code that each is about:
--
--   Models          apps/api/agentbenchx/models.py, schemas.py, config.py: rows, inputs, settings
--   Manager.Tables  the tables with their constraints, errors of a request, notices (events.py)
--   Manager.Submit  `EvaluationManager.submit` (services.py)
--   Manager.Workers `register`, `worker_heartbeat`; `bearer`, `admin`, `worker_auth` of main.py
--   Manager.Claim   `claim`: Order is the query, Effect the transaction
--   Manager.Lease   `owned_job` and `heartbeat`: Fence and Renewal
--   Manager.Reap    `reap`, in its two transactions: Retries, Consistency, Recovery
--   Manager.Results `result`: Delivery, Effect, Consistency, Replay, Rejection
--   Manager.Invariant, Manager.Links, Manager.History
--                   what the tables satisfy, and histories of transactions
--   Costs, Artifacts
--                   `CostCalculator` and `FailureAnalysisService` (services.py)
--   Schemas         `ResultInput.consistent_status` and the limits of `TestInput` (schemas.py)
--   Agents          `AgentManager.upload` (services.py)
--   Serialization   `serialize` (services.py)
--   Storage         apps/api/agentbenchx/storage.py: Keys and Objects
--   Junit, PatchMetrics
--                   workers/evaluator/results.py
--   LeaseKeeper     workers/evaluator/lease.py
--   IdleSchedule    workers/evaluator/scheduling.py
--   Evaluator       `Evaluator.evaluate` (workers/evaluator/evaluator.py)
--   Git             checks of `GitRepositoryManager` (git_sources.py)
--   Sources         `ProblemDiscoveryService`, `ProblemValidationService` and `ProblemSourceManager`
--                   (git_sources.py): Names, Tasks and Discovery are `discover`,
--                   Catalogue the tables and the loop of `sync`, Repository `clone` and `fetch`, Sync the transaction
--   Dashboard       the dashboard of main.py
--   Downloads       `download` and `artifact` of main.py, `download_agent` of workers/evaluator/client.py
--   WorkerStart     workers/evaluator/config.py, `identity` of workers/evaluator/main.py
--   Sandbox         workers/evaluator/docker_sandbox.py: Phases is the life of a sandbox, Files what is
--                   read from a container; Rules, Tracked, Lifecycle, Removed, Stopped
--                   are proofs, Recovery is `recover_sandboxes` of workers/evaluator/main.py
--   Validation      `Settings.storage_valid` (config.py)
--   Inputs          workers/evaluator/inputs.py: Agent, Extraction and Pinned
--   Process         workers/evaluator/process.py
--   WorkerLoop      `replay_pending` and `run_worker` (workers/evaluator/main.py)
--   Prelude         names of the library, tests on numbers, lists as tables
--   Tests           concrete runs
--
-- How the model corresponds to the code:
--
--   A handler is a function from the tables to a reply, the tables as committed and the notices for
--   Redis; an error commits nothing. Row locks make each handler one step: `claim` and `reap` skip
--   the rows in `locked`, the others wait. `result` stores artifacts inside its transaction, so its
--   store is a second result that an error does not undo. A transaction's changes are the tables
--   that it returns; `sync`, which goes on after an error, has its session with what is committed
--   and what is pending. Clock readings are numbered in the order in which the handler makes them,
--   and nothing is assumed of their order unless a theorem says so; the ids that a handler draws are
--   numbered in the same way. Drawn ids need not be new, since the primary keys are checked; the
--   reaper's theorem states that they are. Ids and moments (microseconds) are numbers; costs and
--   scores are exact, so rounding is left out. The worker's monotonic clock and the server's UTC
--   time are taken to run alike, a fixed offset apart. A job that the reaper queues again is queued
--   at the moment at which its last attempt ended, where the code reads the clock once more as it
--   writes the row.
--
--   The worker's network, server and other threads are a script of attempts, one for each round of
--   the loop in `renew`; the sandbox, the client and the file system are an environment with one
--   answer for each call. A process is the script of what its polls find, at least 50 ms apart, and
--   of whether it is gone after it was killed. There is no fuel: the other loops run over lists, and
--   the three tries of a delivery count down. The main loop is a function of its rounds; what a
--   worker keeps on disk is the state of its evaluations' folders.
--
-- Not modelled: routing, streaming and WebSockets of main.py, git, Docker, the file system, Redis
-- and S3 themselves, migrations, scripts and the web console. The XML parser, SHA-256, the random
-- generator and the storage backend are parameters.
pub mod Dashboard
pub mod Prelude
pub mod Models
pub mod Manager
pub mod Costs
pub mod Artifacts
pub mod Sandbox
pub mod Schemas
pub mod Junit
pub mod PatchMetrics
pub mod LeaseKeeper
pub mod IdleSchedule
pub mod Downloads
pub mod Evaluator
pub mod Process
pub mod Inputs
pub mod WorkerLoop
pub mod Storage
pub mod Agents
pub mod Git
pub mod WorkerStart
pub mod Validation
pub mod Serialization
pub mod Sources
pub mod Tests
