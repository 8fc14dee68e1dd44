-- ===== src/Downloads/Reads.antt =====
-- Who gets which bytes (apps/api/agentbenchx/main.py, workers/evaluator/client.py).
use mathlib.Core.List.{append-nil, append_assoc}
use agent_bench_x.Prelude.{
  ℕ, ◌≤◌, ◌≡◌, ◌↔◌, sym, ap, ◌∙◌, inl, inr, String, false, ◌||◌, some, List, [], ◌∷◌, ◌++◌, arith,
  ltb, length, length-append, Bool-cases, Option-cases,
}
use agent_bench_x.Models.{StorageKey, Worker, Moment, Submission, AgentVersion, RunnerJob}
use agent_bench_x.Manager.Tables.{
  ok, Result-cases, Tables, get_submission, get_agent_version, get_job,
}
use agent_bench_x.Manager.Lease.{owned_job}
use agent_bench_x.Manager.Lease.Fence.{IsLive, owned_job-found, IsOwnedBy, owns_iff}
use agent_bench_x.Downloads.{
  Opened, stream, response, stored_response, download, read_chunks, download_agent,
}

abbrev pub concat : List (List ℕ) → List ℕ
concat [] = []
concat (chunk ∷ chunks) = chunk ++ concat chunks

read_chunks-returns :
    (bytes : List ℕ) (chunks : List (List ℕ)) (content : List ℕ)
    → length bytes ≤ 2000000
    → read_chunks bytes chunks ≡ some content
    → (bytes ++ concat chunks ≡ content) × (length content ≤ 2000000)
unfolding read_chunks
read_chunks-returns bytes [] content small h =
    let same_bytes : bytes ≡ content = ground arith in
    (append-nil bytes ∙ same_bytes, omega (arith, small, ap length same_bytes))
read_chunks-returns bytes (chunk ∷ chunks) content small h =
    let (all, most) =
      read_chunks-returns (bytes ++ chunk) chunks content (ground arith) (ground arith) in
    (sym (append_assoc bytes chunk (concat chunks)) ∙ all, most)

read_chunks-all :
    (bytes : List ℕ) (chunks : List (List ℕ))
    → length (bytes ++ concat chunks) ≤ 2000000
    → read_chunks bytes chunks ≡ some (bytes ++ concat chunks)
unfolding read_chunks
read_chunks-all bytes [] small = ap some (sym (append-nil bytes))
read_chunks-all bytes (chunk ∷ chunks) small =
    let same_bytes = append_assoc bytes chunk (concat chunks) in
    let rest =
      read_chunks-all (bytes ++ chunk) chunks (omega (arith, small, ap length same_bytes)) in
    let counts = length-append (bytes ++ chunk) (concat chunks) in
    let fits : ltb 2000000 (length (bytes ++ chunk)) ≡ false =
      ground (arith, small, ap length same_bytes, counts) in
    rw (fits) (rest ∙ ap some same_bytes)

-- However the response is cut into chunks, the worker gets the agent exactly when the status is one of
-- success and the bytes are at most 2,000,000, and then it gets all of them in order.
pub download_agent_iff :
    (status : ℕ) (chunks : List (List ℕ)) (content : List ℕ)
    → (download_agent status chunks ≡ some content) ↔ (
        ((ltb status 200 || ltb 299 status) ≡ false)
        × (concat chunks ≡ content)
        × (length content ≤ 2000000))
unfolding download_agent
download_agent_iff status chunks content = elim (Bool-cases (ltb status 200 || ltb 299 status)) [
  | inl failed ↦ (λ h. absurd (ground arith), λ h. absurd (ground arith))
  | inr success ↦ (
    λ h.
        let (all, small) = read_chunks-returns [] chunks content (omega arith) (ground arith) in
        (success, all, small),
    λ (passed, all, small).
        let read = read_chunks-all [] chunks (omega (arith, small, ap length all)) in
        rw (success) (read ∙ ap some all),
  )
]

response-stream : (o : Opened) (content : List ℕ) → response o ≡ ok content → o ≡ stream content
response-stream (stream bytes) content h = ground arith
response-stream Opened.missing content h = absurd (ground arith)
response-stream Opened.unavailable content h = absurd (ground arith)

-- What a worker gets by `download` is what the storage has under the key of the agent version of the
-- job's submission, and it gets it only if the request passes the fence of `owned_job` for an active
-- job.
pub download-stored :
    (open_key : StorageKey → Opened) (worker : Worker) (job_id : ℕ) (token : String) (now : Moment)
    (db : Tables) (content : List ℕ)
    → download open_key worker job_id token now db ≡ ok content
    → (job : RunnerJob) × (submission : Submission) × (version : AgentVersion) × (get_job job_id db
        ≡ some job)
      × IsOwnedBy worker token job
      × IsLive job now
      × (get_submission job.submission_id db ≡ some submission)
      × (get_agent_version submission.agent_version_id db ≡ some version)
      × (open_key version.storage_path ≡ stream content)
unfolding download stored_response
download-stored open_key worker job_id token now db content h =
    elim (Result-cases (owned_job worker job_id token false now db)) [
      | inr (e, refused) ↦ absurd (ground arith)
      | inl (job, owned) ↦ elim (Option-cases (get_submission job.submission_id db)) [
        | inl missing ↦ absurd (ground arith)
        | inr (submission, found) ↦
            elim (Option-cases (get_agent_version submission.agent_version_id db)) [
              | inl missing ↦ absurd (ground arith)
              | inr (version, known) ↦
                  let (at, mine, live) =
                    owned_job-found worker job_id token false now db job owned in
                  (
                    job,
                    submission,
                    version,
                    at,
                    (owns_iff worker token job).0 mine,
                    elim live [ inl ended ↦ absurd (ground arith) | inr is_live ↦ is_live ],
                    found,
                    known,
                    response-stream (open_key version.storage_path) content (ground arith),
                  )
            ]
      ]
    ]
