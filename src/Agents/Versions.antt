-- ===== src/Agents/Versions.antt =====
-- The version that an upload adds.
use agent_bench_x.Prelude.{
  ℕ, ◌+◌, ◌≤◌, ◌<◌, ◌≡◌, refl, String, Bool, true, false, Option, none, some, List, [], ◌∷◌, ◌++◌,
  arith, ◌==◌, str_eq_iff, find_first, length, Option-cases, inl, inr,
}
use agent_bench_x.Models.{AgentVersion, StorageKey, Settings}
use agent_bench_x.Manager.Tables.{ok, Result-cases}
use agent_bench_x.Agents.{last_version, is_version, is_empty, checked, new_version, upload}

-- An agent has no version after its last one.
last_version-most :
    (agent n : ℕ) (versions : List AgentVersion)
    → last_version agent versions < n
    → find_first (is_version agent n) versions ≡ none
unfolding last_version find_first
last_version-most agent n [] h = refl
last_version-most agent n (v ∷ versions) h = ground (arith, last_version-most agent n versions)

length-filled : (content : List ℕ) → is_empty content ≡ false → 1 ≤ length content
length-filled [] h = absurd (ground arith)
length-filled (c ∷ content) h = omega arith

module _ (settings : Settings) (sha256 : List ℕ → String) (is_source : List ℕ → Bool) (uid : ℕ)
    {S : Type 0} (put : StorageKey → List ℕ → S → Option S) where
  -- An upload that returns was of a nonempty `agent.py` within the limit that is Python source. It
  -- has stored the content under the key of the version, and has added one row at the end: the next
  -- version of the agent, with the name, the size and the digest of the content.
  pub upload-accepted :
      (agents : ℕ → Bool) (agent : ℕ) (filename : String) (content : List ℕ)
      (versions versions' : List AgentVersion) (objects objects' : S) (v : AgentVersion)
      → upload settings sha256 is_source uid put agents agent filename content versions objects
        ≡ (ok (v, versions'), objects')
      → (filename ≡ "agent.py")
        × (1 ≤ length content)
        × (length content ≤ settings.upload_limit)
        × (is_source content ≡ true)
        × (put v.storage_path content objects ≡ some objects')
        × (versions' ≡ versions ++ v ∷ [])
        × (v.version ≡ last_version agent versions + 1)
        × (v.size ≡ length content)
        × (v.sha256 ≡ sha256 content)
        × (v.filename ≡ "agent.py")
  unfolding upload
  upload-accepted agents agent filename content versions versions' objects objects' v h =
      elim (Result-cases
        (checked settings sha256 is_source uid put agents agent filename content)) [
          | inr (raised, e) ↦ absurd (ground arith)
          | inl (passed, e) ↦
              elim (Option-cases (put (StorageKey.agent_key agent uid) content objects)) [
                | inl failed ↦ absurd (ground arith)
                | inr (stored, e') ↦
                    let name : filename ≡ "agent.py" =
                      ground (arith, str_eq_iff filename "agent.py") in
                    let some_bytes : 1 ≤ length content = length-filled content (ground arith) in
                    let row : v
                        ≡ new_version settings sha256 is_source uid put agent content versions =
                      ground arith in
                    (
                      name,
                      some_bytes,
                      ground arith,
                      ground arith,
                      rw row (ground arith),
                      ground arith,
                      rw row refl,
                      rw row refl,
                      rw row refl,
                      rw row refl,
                    )
              ]
        ]

  -- With a new id, an upload that passes the checks and is stored always commits: its version number
  -- is one that the agent does not have yet.
  pub upload-commits :
      (agents : ℕ → Bool) (agent : ℕ) (filename : String) (content : List ℕ)
      (versions : List AgentVersion) (objects objects' : S)
      → checked settings sha256 is_source uid put agents agent filename content ≡ ok tt
      → put (StorageKey.agent_key agent uid) content objects ≡ some objects'
      → find_first (λ v. v.id == uid) versions ≡ none
      → (v : AgentVersion) × (upload settings sha256 is_source uid put agents agent filename content
            versions objects
          ≡ (ok (v, versions ++ v ∷ []), objects'))
        × (v.version ≡ last_version agent versions + 1)
  unfolding upload
  upload-commits agents agent filename content versions objects objects' passed stored fresh =
      let next = last_version-most agent (last_version agent versions + 1) versions (omega arith) in
      (
        new_version settings sha256 is_source uid put agent content versions,
        rw (passed, stored, fresh, next) refl,
        refl,
      )
