-- ===== src/Tests/Downloads.antt =====
-- The worker's download of its agent.
use agent_bench_x.Prelude.{
  ℕ, ◌≤◌, ◌≡◌, ◌↔◌, refl, false, ◌||◌, some, List, [], ◌∷◌, ltb, length, find_first,
}
use agent_bench_x.Models.{StorageKey, RunnerJob, Submission, AgentVersion}
use agent_bench_x.Manager.Tables.{ok, err, http, get_job, get_submission, get_agent_version}
use agent_bench_x.Manager.Lease.{owned_job, require_live}
use agent_bench_x.Manager.Lease.Fence.{IsLive, IsOwnedBy}
use agent_bench_x.Downloads.{
  Opened, stream, stored_response, download, artifact, read_chunks, download_agent,
}
use agent_bench_x.Downloads.Reads.{concat, download_agent_iff, download-stored}
use agent_bench_x.Tests.Data.{busy_worker, assigned}

-- Every key has three bytes.
abbrev open_key : StorageKey → Opened
open_key key = stream (1 ∷ 2 ∷ 3 ∷ [])

download-run : download open_key busy_worker 11 "t" 100 assigned ≡ ok (1 ∷ 2 ∷ 3 ∷ [])
unfolding download owned_job require_live stored_response find_first
download-run = refl

artifact-refused : artifact open_key 5 "../agent.py" assigned ≡ err (http 404 "Artifact not found")
unfolding artifact
artifact-refused = refl

download-stored_example :
    (job : RunnerJob) × (submission : Submission) × (version : AgentVersion) × (get_job 11 assigned
      ≡ some job)
    × IsOwnedBy busy_worker "t" job
    × IsLive job 100
    × (get_submission job.submission_id assigned ≡ some submission)
    × (get_agent_version submission.agent_version_id assigned ≡ some version)
    × (open_key version.storage_path ≡ stream (1 ∷ 2 ∷ 3 ∷ []))
download-stored_example =
    download-stored open_key busy_worker 11 "t" 100 assigned (1 ∷ 2 ∷ 3 ∷ []) download-run

abbrev chunks : List (List ℕ)
chunks = (1 ∷ 2 ∷ []) ∷ (3 ∷ []) ∷ []

download_agent-run : download_agent 200 chunks ≡ some (1 ∷ 2 ∷ 3 ∷ [])
unfolding download_agent read_chunks
download_agent-run = refl

download_agent_iff_example : (download_agent 200 chunks ≡ some (1 ∷ 2 ∷ 3 ∷ [])) ↔ (
    ((ltb 200 200 || ltb 299 200) ≡ false)
    × (concat chunks ≡ 1 ∷ 2 ∷ 3 ∷ [])
    × (length {A = ℕ} (1 ∷ 2 ∷ 3 ∷ []) ≤ 2000000))
download_agent_iff_example = download_agent_iff 200 chunks (1 ∷ 2 ∷ 3 ∷ [])
