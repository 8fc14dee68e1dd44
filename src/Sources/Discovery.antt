-- ===== src/Sources/Discovery.antt =====
-- `ProblemDiscoveryService.discover` and `ProblemValidationService.validate`. Texts are lists of code
-- points. `lower` changes ASCII letters only: no other letter becomes one of the words compared with.
use agent_bench_x.Prelude.{
  ℕ, String, Bool, false, not, ◌&&◌, ◌||◌, Option, none, some, List, [], ◌∷◌, ◌++◌, ◌==◌, leb, ◌-◌,
  if◌then◌else◌,
}
use agent_bench_x.Junit.Text.{codes, lower, starts_with, contains}
use agent_bench_x.Storage.{same}
use agent_bench_x.Git.{read_file}
use agent_bench_x.Sources.Names.{holds, files, sorted, manifests, parent, base_name}
use agent_bench_x.Sources.Tasks.{
  Field, absent, other, text, texts, Timeout, number, refused, infinite, no_table, Manifest, Parsed,
  table, unreadable, too_deep, Task, categories, validate,
}

-- What one round of the loop does: it appends a task, or a folder with a reason, or it raises an
-- exception that `except` does not name.
pub data Round : Type 0 where
  found : Task → Round
  skip : String → Round
  aborts : Round

-- The category and the type that a manifest's category stands for.
pub data Mapped : Type 0 where
  known : List ℕ → Field → Mapped
  unmapped : Mapped

abbrev pub or_default : Field → List ℕ → Field
or_default absent d = text d
or_default f d = f

abbrev pub database_kind : List (List ℕ) → List ℕ
database_kind tags =
    if holds (codes "migration") tags
    then codes "MIGRATION"
    else if holds (codes "query-optimization") tags
    then codes "QUERY_OPTIMIZATION"
    else codes "SQL"

unfoldable pub normalize : List ℕ → List (List ℕ) → Field → Mapped
normalize category tags kind =
    if same category (codes "database_query_engineering")
    then known (codes "DATABASE") (text (database_kind tags))
    else if starts_with (codes "linting-") category
    then known (codes "CODING") (text (codes "REFACTORING"))
    else if same category (codes "bugfix")
    then known (codes "CODING") (text (codes "BUG_FIX"))
    else if holds category categories
    then known category (or_default kind (codes "INTEGRATION"))
    else unmapped

abbrev pub is_gis_tag : List ℕ → Bool
is_gis_tag tag =
    holds (lower tag)
      (codes "gis" ∷ codes "geospatial" ∷ codes "geotiff" ∷ codes "rasterization" ∷ [])

abbrev pub any_gis : List (List ℕ) → Bool
any_gis [] = false
any_gis (t ∷ tags) = is_gis_tag t || any_gis tags

abbrev pub is_gis : List ℕ → List ℕ → List (List ℕ) → Bool
is_gis folder category tags =
    contains (codes "xarray-spatial") (lower folder)
    || same (lower category) (codes "gis")
    || any_gis tags

-- The three files that a task needs beside its manifest.
abbrev pub has_files : List ℕ → List (List ℕ) → Bool
has_files folder files =
    holds (folder ++ codes "/instruction.md") files
    && holds (folder ++ codes "/tests/test.sh") files
    && holds (folder ++ codes "/environment/Dockerfile") files

abbrev pub checked : Task → Option String → Round
checked task none = found task
checked task (some reason) = skip reason

abbrev pub with_instruction : Option (List ℕ) → (List ℕ → Task) → Round
with_instruction none make = skip "Metadata exceeds 1 MB, or git or the decoder failed"
with_instruction (some instruction) make = checked (make instruction) (validate (make instruction))

abbrev pub with_timeout : Timeout → (ℕ → Round) → Round
with_timeout (number seconds) next = next seconds
with_timeout refused next = skip "timeout_sec is no number"
with_timeout infinite next = aborts
with_timeout no_table next = aborts

-- `str.upper`, as far as it gives ASCII letters: ſ and ı become S and I.
abbrev upper_char : ℕ → ℕ
upper_char c =
    if leb b'a' c && leb c b'z'
    then c - 32
    else if c == 383
    then b'S'
    else if c == 305
    then b'I'
    else c

abbrev pub upper_text : List ℕ → List ℕ
upper_text [] = []
upper_text (c ∷ rest) = upper_char c ∷ upper_text rest

-- `meta.get("difficulty", "medium").upper()`: a value that is no text has no `upper`.
abbrev pub with_difficulty : Field → (List ℕ → Round) → Round
with_difficulty absent next = next (codes "MEDIUM")
with_difficulty (text d) next = next (upper_text d)
with_difficulty (texts ts) next = aborts
with_difficulty other next = aborts

-- `task` for a known category, with its two checks that raise on the way.
abbrev pub with_kind : Mapped → List ℕ → List (List ℕ) → Manifest → Option (List ℕ) → Round
with_kind unmapped folder tags raw instruction = skip "Unmapped source category"
with_kind (known category kind) folder tags raw instruction =
    with_difficulty raw.difficulty λ difficulty. with_timeout raw.timeout λ seconds.
      with_instruction instruction λ body. record {
        path = folder;
        name = base_name folder;
        category = category;
        kind = kind;
        difficulty = difficulty;
        timeout = seconds;
        tags = tags;
        language = if holds (codes "python") tags then codes "Python" else codes "Unknown";
        framework = if holds (codes "django") tags then codes "Django" else [];
        instruction = body;
        source = raw;
      }

unfoldable pub inspect_tagged :
    List (List ℕ) → List ℕ → List ℕ → List (List ℕ) → Manifest → Option (List ℕ) → Round
inspect_tagged files folder category tags raw instruction =
    if is_gis folder category tags
    then skip "GIS is out of scope"
    else if not (has_files folder files)
    then skip "Missing instruction, verifier or environment Dockerfile"
    else with_kind (normalize category tags raw.kind) folder tags raw instruction

-- The two values that the loop checks at first, with their defaults.
abbrev pub category_of : Field → Option (List ℕ)
category_of absent = some []
category_of (text category) = some category
category_of _ = none

abbrev pub tags_of : Field → Option (List (List ℕ))
tags_of absent = some []
tags_of (texts tags) = some tags
tags_of _ = none

abbrev pub with_tags :
    List (List ℕ)
    → List ℕ
    → Option (List (List ℕ))
    → Option (List ℕ)
    → Manifest
    → Option (List ℕ)
    → Round
with_tags files folder (some tags) (some category) raw instruction =
    inspect_tagged files folder category tags raw instruction
with_tags files folder _ _ raw instruction =
    skip "Category must be text and tags must be a list of strings"

-- What git gives for a file, its size and its bytes, and what the decoders make of bytes: `parse` is
-- `tomllib.loads` of a text in UTF-8. `none` stands for `SourceError` or `ValueError`.
pub record Commit : Type 0 where
  pub size : List ℕ → Option ℕ
  pub content : List ℕ → Option (List ℕ)
  pub parse : List ℕ → Parsed
  pub decode : List ℕ → Option (List ℕ)

abbrev after_read {ℓ} : {A : Type ℓ} → (List ℕ → Option A) → Option (List ℕ) → Option A
after_read next none = none
after_read next (some bytes) = next bytes

abbrev pub parsed_of : (List ℕ → Parsed) → Option (List ℕ) → Parsed
parsed_of parse none = unreadable
parsed_of parse (some bytes) = parse bytes

unfoldable pub manifest_of : Commit → List ℕ → Parsed
manifest_of commit name =
    parsed_of commit.parse (read_file (commit.size name) (commit.content name))

unfoldable pub instruction_of : Commit → List ℕ → Option (List ℕ)
instruction_of commit name =
    after_read commit.decode (read_file (commit.size name) (commit.content name))

abbrev pub with_manifest : Commit → List (List ℕ) → List ℕ → Parsed → Round
with_manifest commit files folder unreadable = skip "git, the decoder or the TOML parser failed"
with_manifest commit files folder too_deep = aborts
with_manifest commit files folder (table raw) =
    if raw.has_table
    then with_tags files folder (tags_of raw.tags) (category_of raw.category) raw
        (instruction_of commit (folder ++ codes "/instruction.md"))
    else skip "Metadata must be a table"

-- One round of the loop, for a manifest.
unfoldable pub inspect : Commit → List (List ℕ) → List ℕ → Round
inspect commit files name = with_manifest commit files (parent name) (manifest_of commit name)

pub record Skipped : Type 0 where
  pub path : List ℕ
  pub reason : String

abbrev pub Discovered : Type 0
Discovered = Option (List Task × List Skipped)

abbrev pub and_round : List ℕ → Round → Discovered → Discovered
and_round folder aborts rest = none
and_round folder (found task) none = none
and_round folder (skip reason) none = none
and_round folder (found task) (some (tasks, skipped)) = some (task ∷ tasks, skipped)
and_round folder (skip reason) (some (tasks, skipped)) =
    some (tasks, record { path = folder; reason = reason } ∷ skipped)

unfoldable pub inspect_all : Commit → List (List ℕ) → List (List ℕ) → Discovered
inspect_all commit files [] = some ([], [])
inspect_all commit files (name ∷ names) =
    and_round (parent name) (inspect commit files name) (inspect_all commit files names)

-- `discover`, on the files of the commit.
unfoldable pub discover : Commit → List (List ℕ) → Discovered
discover commit files = inspect_all commit files (sorted (manifests files))
