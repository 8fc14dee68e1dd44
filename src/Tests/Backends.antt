-- ===== src/Tests/Backends.antt =====
-- Stored objects, uploads and keys.
use agent_bench_x.Prelude.{
  ℕ, ◌≤◌, ◌≡◌, ◌↔◌, refl, String, Bool, true, false, Option, none, some, List, [], ◌∷◌, arith,
  length, find_first, ◌==◌,
}
use agent_bench_x.Models.{AgentVersion, StorageKey}
use agent_bench_x.Manager.Tables.{ok}
use agent_bench_x.Storage.{
  File, Head, Client, Reply, replied, returns, put, open_file, s3_put, s3_head, logical_key, split,
  split_from, same, has_char,
}
use agent_bench_x.Storage.Keys.{AreParts, join, logical_key_iff}
use agent_bench_x.Storage.Objects.{put-open_file, s3_put-confirmed}
use agent_bench_x.Agents.{upload, last_version}
use agent_bench_x.Inputs.{Entry, Written, task, extract, prepare_files, verify_agent, is_complete}
use agent_bench_x.Inputs.Agent.{identity_of, upload-verify_agent}
use agent_bench_x.Inputs.Extraction.{size_of, AreSafe, prepare_files-AreSafe}
use agent_bench_x.Tests.Data.{settings, agent}

-- "a/b"
abbrev pub key : List ℕ
key = b'a' ∷ b'/' ∷ b'b' ∷ []

abbrev pub inside : List ℕ → Bool
inside path = false

abbrev other_file : File
other_file = record { key = b'c' ∷ []; content = 1 ∷ [] }

put-run :
    put inside key (7 ∷ []) (other_file ∷ [])
    ≡ (returns tt, other_file ∷ record { key = key; content = 7 ∷ [] } ∷ [])
unfolding put logical_key split split_from same find_first
put-run = refl

put-open_file_example :
    (open_file inside key (other_file ∷ record { key = key; content = 7 ∷ [] } ∷ [])
      ≡ returns (7 ∷ []))
    × ((other old : List ℕ)
        → open_file inside other (other_file ∷ []) ≡ returns old
        → open_file inside other (other_file ∷ record { key = key; content = 7 ∷ [] } ∷ [])
          ≡ returns old)
put-open_file_example =
    put-open_file inside key (7 ∷ []) (other_file ∷ [])
      (other_file ∷ record { key = key; content = 7 ∷ [] } ∷ []) put-run

logical_key_iff_example : (logical_key (join (b'a' ∷ []) ((b'b' ∷ []) ∷ [])) ≡ true) ↔ (
    AreParts ((b'a' ∷ []) ∷ (b'b' ∷ []) ∷ [])
    × (has_char b'\\' (join (b'a' ∷ []) ((b'b' ∷ []) ∷ [])) ≡ false)
    × (has_char 0 (join (b'a' ∷ []) ((b'b' ∷ []) ∷ [])) ≡ false))
logical_key_iff_example = logical_key_iff (b'a' ∷ []) ((b'b' ∷ []) ∷ []) (refl, (refl, tt))

-- The digest is a constant here, and the service holds one object.
abbrev pub digest : List ℕ → String
digest content = "digest"

abbrev Service : Type 0
Service = Option Head

abbrev service_put : List ℕ → List ℕ → String → Service → Reply (Unit {0}) × Service
service_put path content d s =
    (replied tt, some (record { content_length = some (length content); sha256 = some d }))

abbrev service_head : List ℕ → Service → Reply Head
service_head path none = Reply.client_error "404"
service_head path (some h) = replied h

abbrev pub client : Client Service
client = record {
  put_object = service_put;
  head_object = service_head;
  get_object = λ path s. Reply.core_error;
  delete_object = λ path s. (replied tt, none);
}

abbrev pub stored : Service
stored = some (record { content_length = some 1; sha256 = some "digest" })

s3_put-run : s3_put client digest key (7 ∷ []) none ≡ (returns tt, stored)
unfolding s3_put s3_head logical_key split split_from same
s3_put-run = refl

s3_put-confirmed_example :
    (logical_key key ≡ true)
    × (service_put key (7 ∷ []) "digest" none ≡ (replied tt, stored))
    × (service_head key stored
        ≡ replied (record { content_length = some 1; sha256 = some "digest" }))
s3_put-confirmed_example = s3_put-confirmed client digest key (7 ∷ []) none stored s3_put-run

abbrev known : ℕ → Bool
known id = id == 2

abbrev parses : List ℕ → Bool
parses content = true

abbrev Shelf : Type 0
Shelf = List StorageKey

abbrev shelve : StorageKey → List ℕ → Shelf → Option Shelf
shelve path content shelf = some (path ∷ shelf)

abbrev agent_file : String
agent_file = "agent.py"

abbrev second_version : AgentVersion
second_version = record {
  id = 9;
  agent_id = 2;
  filename = "agent.py";
  sha256 = "digest";
  size = 1;
  version = 2;
  storage_path = StorageKey.agent_key 2 9;
}

upload-run :
    upload settings digest parses 9 shelve known 2 "agent.py" (7 ∷ []) (agent ∷ []) []
    ≡ (ok (second_version, agent ∷ second_version ∷ []), StorageKey.agent_key 2 9 ∷ [])
unfolding upload last_version find_first
upload-run = refl

upload-verify_agent_example : verify_agent digest (identity_of second_version) (7 ∷ []) ≡ true
upload-verify_agent_example =
    upload-verify_agent settings digest parses 9 shelve known 2 "agent.py" (7 ∷ []) (agent ∷ [])
      (agent ∷ second_version ∷ []) [] (StorageKey.agent_key 2 9 ∷ []) second_version (omega arith)
      upload-run

abbrev entry : List String → Entry
entry parts = record { parts = some parts; is_absolute = false; inside = true; bytes = 1 ∷ 2 ∷ [] }

-- The four files, a reference answer, and a file of another problem.
abbrev pub entries : List Entry
entries =
    entry ("environment" ∷ "Dockerfile" ∷ [])
    ∷ entry ("instruction.md" ∷ [])
    ∷ entry ("solution" ∷ "solve.sh" ∷ [])
    ∷ entry ("task.toml" ∷ [])
    ∷ entry ("tests" ∷ "test.sh" ∷ [])
    ∷ record { parts = none; is_absolute = false; inside = true; bytes = 3 ∷ [] }
    ∷ []

abbrev file : List String → Written
file parts = record { target = parts; bytes = 1 ∷ 2 ∷ [] }

abbrev pub files : List Written
files =
    file ("environment" ∷ "Dockerfile" ∷ [])
    ∷ file ("instruction.md" ∷ [])
    ∷ file ("task.toml" ∷ [])
    ∷ file ("tests" ∷ "test.sh" ∷ [])
    ∷ []

prepare_files-run : prepare_files entries ≡ task files
unfolding prepare_files extract
prepare_files-run = refl

prepare_files-AreSafe_example :
    (is_complete files ≡ true) × (size_of files ≤ 50000000) × AreSafe files
prepare_files-AreSafe_example = prepare_files-AreSafe entries files prepare_files-run
