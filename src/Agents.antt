-- ===== src/Agents.antt =====
-- `AgentManager.upload` of apps/api/agentbenchx/services.py: a new version of an agent. The row of the
-- agent is locked, so uploads for one agent come one after the other. Whether a text is Python source
-- is a parameter.
pub mod Versions
use agent_bench_x.Prelude.{
  ℕ, suc, ◌+◌, String, Bool, true, false, not, ◌&&◌, ◌||◌, Option, none, some, List, [], ◌∷◌, ◌++◌,
  ◌==◌, ltb, max, is_some, str_eq, if◌then◌else◌, find_first, length,
}
use agent_bench_x.Models.{AgentVersion, StorageKey, Settings}
use agent_bench_x.Manager.Tables.{
  Result, ok, err, http, integrity, storage_error, ◌>>=◌, ◌>>◌, raise_if,
}

-- `func.max(AgentVersion.version)` over the versions of the agent, or 0.
unfoldable pub last_version : ℕ → List AgentVersion → ℕ
last_version agent [] = 0
last_version agent (v ∷ versions) =
    let rest = last_version agent versions in
    if v.agent_id == agent then max v.version rest else rest

abbrev pub is_version : ℕ → ℕ → AgentVersion → Bool
is_version agent n v = v.agent_id == agent && v.version == n

-- The primary key and `UniqueConstraint("agent_id", "version")`.
abbrev pub is_taken : AgentVersion → List AgentVersion → Bool
is_taken version versions =
    is_some (find_first (λ v. v.id == version.id) versions)
    || is_some (find_first (is_version version.agent_id version.version) versions)

abbrev pub is_empty : List ℕ → Bool
is_empty [] = true
is_empty (c ∷ content) = false

-- `agents` holds the ids of the agents that there are, `uid` is the id that is drawn, and `put`
-- stores an object or raises.
module _ (settings : Settings) (sha256 : List ℕ → String) (is_source : List ℕ → Bool) (uid : ℕ)
    {S : Type 0} (put : StorageKey → List ℕ → S → Option S) where
  abbrev pub checked : (ℕ → Bool) → ℕ → String → List ℕ → Result (Unit {0})
  checked agents agent filename content = do
    raise_if (not (agents agent)) (http 404 "Agent not found")
    raise_if
        (not (str_eq filename "agent.py")
          || is_empty content
          || ltb settings.upload_limit (length content))
        (http 422 "Upload a nonempty agent.py no larger than 2 MB")
    raise_if (not (is_source content)) (http 422 "agent.py must be valid UTF-8 Python source")

  abbrev pub new_version : ℕ → List ℕ → List AgentVersion → AgentVersion
  new_version agent content versions = record {
    id = uid;
    agent_id = agent;
    filename = "agent.py";
    sha256 = sha256 content;
    size = length content;
    version = last_version agent versions + 1;
    storage_path = StorageKey.agent_key agent uid;
  }

  abbrev pub add_version :
      AgentVersion
      → List AgentVersion
      → Option S
      → S
      → Result (AgentVersion × List AgentVersion) × S
  add_version version versions none objects = (err storage_error, objects)
  add_version version versions (some objects') objects = (
    (if is_taken version versions then err integrity else ok (version, versions ++ version ∷ [])),
    objects',
  )

  abbrev pub after_check :
      Result (Unit {0})
      → ℕ
      → List ℕ
      → List AgentVersion
      → S
      → Result (AgentVersion × List AgentVersion) × S
  after_check (err e) agent content versions objects = (err e, objects)
  after_check (ok _) agent content versions objects =
      add_version (new_version agent content versions) versions
        (put (StorageKey.agent_key agent uid) content objects) objects

  unfoldable pub upload :
      (ℕ → Bool)
      → ℕ
      → String
      → List ℕ
      → List AgentVersion
      → S
      → Result (AgentVersion × List AgentVersion) × S
  upload agents agent filename content versions objects =
      after_check (checked agents agent filename content) agent content versions objects
