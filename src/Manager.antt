-- ===== src/Manager.antt =====
-- `EvaluationManager` of apps/api/agentbenchx/services.py over the tables of the database. Each
-- handler is a function from the tables to an error, which rolls its transaction back, or to its
-- reply, the tables it commits and the notices it hands to Redis, in order. The handlers of
-- Manager/Results.antt also reach the object storage.
pub mod Tables
pub mod Submit
pub mod Workers
pub mod Claim
pub mod Lease
pub mod Reap
pub mod Results
pub mod Invariant
pub mod Links
pub mod History
