-- ===== src/Inputs/Agent.antt =====
-- The worker accepts what the control plane has stored.
use agent_bench_x.Prelude.{ℕ, ◌≤◌, ◌≡◌, String, Bool, true, Option, some, List, arith, str_eq_refl}
use agent_bench_x.Models.{AgentVersion, StorageKey, Settings}
use agent_bench_x.Manager.Tables.{ok}
use agent_bench_x.Agents.{upload}
use agent_bench_x.Agents.Versions.{upload-accepted}
use agent_bench_x.Inputs.{Identity, verify_agent}

-- The version as `serialize` sends it.
abbrev pub identity_of : AgentVersion → Identity
identity_of v = record {
  filename = some v.filename;
  version = some v.version;
  size = some v.size;
  sha256 = some v.sha256;
}

-- A version that an upload has made passes the worker's check with the bytes that were uploaded, as
-- long as the upload limit is at most the worker's 2,000,000 bytes.
pub upload-verify_agent :
    (settings : Settings) (sha256 : List ℕ → String) (is_source : List ℕ → Bool) (uid : ℕ)
    {S : Type 0} (put : StorageKey → List ℕ → S → Option S) (agents : ℕ → Bool) (agent : ℕ)
    (filename : String) (content : List ℕ) (versions versions' : List AgentVersion)
    (objects objects' : S) (v : AgentVersion)
    → settings.upload_limit ≤ 2000000
    → upload settings sha256 is_source uid put agents agent filename content versions objects
      ≡ (ok (v, versions'), objects')
    → verify_agent sha256 (identity_of v) content ≡ true
unfolding verify_agent
upload-verify_agent settings sha256 is_source uid put agents agent filename content versions
      versions' objects objects' v small h =
    let (name, least, most, source, stored, rows, number, size, digest, named) =
      upload-accepted settings sha256 is_source uid put agents agent filename content versions
        versions' objects objects' v h in
    rw (named, size, digest)
      (ground (arith, number, least, most, str_eq_refl (sha256 content), str_eq_refl "agent.py"))
