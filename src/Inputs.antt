-- ===== src/Inputs.antt =====
-- workers/evaluator/inputs.py: the check of an agent that was downloaded, and the extraction of a
-- task from the pinned commit. The entries of the commit come in the order of `sorted`, each with
-- its path below the problem's folder as parts; where a path leads in the file system is a
-- parameter.
pub mod Extraction
pub mod Agent
pub mod Pinned
use agent_bench_x.Prelude.{
  ℕ, ◌+◌, String, Bool, true, false, not, ◌&&◌, ◌||◌, Option, none, some, List, [], ◌∷◌, ◌++◌, ltb,
  leb, ◌==◌, str_eq, if◌then◌else◌, length,
}
use agent_bench_x.Storage.{same}
use agent_bench_x.Git.{Url, is_sha, ssh_match, validate_url, get_current_commit}
use agent_bench_x.Manager.Tables.{Result, ok, err, ◌>>=◌, ◌>>◌}

-- What the server says of an agent version. `version` is `none` if it is no integer.
pub record Identity : Type 0 where
  pub filename : Option String
  pub version : Option ℕ
  pub size : Option ℕ
  pub sha256 : Option String

abbrev is_text : String → Option String → Bool
is_text s none = false
is_text s (some t) = str_eq t s

abbrev is_number : ℕ → Option ℕ → Bool
is_number n none = false
is_number n (some k) = k == n

abbrev is_positive : Option ℕ → Bool
is_positive none = false
is_positive (some k) = leb 1 k

-- Whether `verify_agent` returns; otherwise it raises `InputError`.
unfoldable pub verify_agent : (List ℕ → String) → Identity → List ℕ → Bool
verify_agent sha256 version content =
    is_text "agent.py" version.filename
    && is_positive version.version
    && is_number (length content) version.size
    && (ltb 0 (length content) && leb (length content) 2000000)
    && is_text (sha256 content) version.sha256

-- One file of the commit. `parts` is `none` if the name does not begin with the problem's path.
-- `is_absolute` is that of the path below it, and `inside` says whether the resolved target is
-- relative to the task's folder; `bytes` are those that git has, which `read` refuses above 1 MB.
pub record Entry : Type 0 where
  pub parts : Option (List String)
  pub is_absolute : Bool
  pub inside : Bool
  pub bytes : List ℕ

-- A file that was written to the task's folder.
pub record Written : Type 0 where
  pub target : List String
  pub bytes : List ℕ

-- `InputError`, the `IndexError` of an empty path, and the `SourceError` of git or of a URL.
pub data Failure : Type 0 where
  input_error : String → Failure
  index_error source_error : Failure

pub data Extracted : Type 0 where
  task : List Written → Extracted
  fails : Failure → Extracted

abbrev pub any_text : String → List String → Bool
any_text s [] = false
any_text s (p ∷ parts) = str_eq p s || any_text s parts

abbrev pub and_file : Written → Extracted → Extracted
and_file file (task files) = task (file ∷ files)
and_file file (fails f) = fails f

-- `relative.parts[0] == "solution"`
abbrev pub first_is : String → List String → Bool
first_is s [] = false
first_is s (p ∷ parts) = str_eq p s

abbrev pub is_empty : List String → Bool
is_empty [] = true
is_empty (p ∷ parts) = false

-- The loop; `total` is the number of bytes that were read.
unfoldable pub extract : ℕ → List Entry → Extracted
extract total [] = task []
extract total (e ∷ entries) =
    let skipped = extract total entries in
    let rest = extract (total + length e.bytes) entries in
    elim e.parts [
      | none ↦ skipped
      | some parts ↦
          if any_text ".." parts || e.is_absolute
          then fails (input_error "Unsafe repository path")
          else if is_empty parts
          then fails index_error
          else if first_is "solution" parts
          then skipped
          else if not e.inside
          then fails (input_error "Unsafe extracted path")
          else if ltb 1000000 (length e.bytes)
          then fails source_error
          else if ltb 50000000 (total + length e.bytes)
          then fails (input_error "Task exceeds 50 MB metadata transfer budget")
          else and_file (record { target = parts; bytes = e.bytes }) rest
    ]

abbrev pub same_parts : List String → List String → Bool
same_parts [] [] = true
same_parts (a ∷ l) (b ∷ m) = str_eq a b && same_parts l m
same_parts _ _ = false

abbrev pub has_file : List String → List Written → Bool
has_file path [] = false
has_file path (w ∷ files) = same_parts w.target path || has_file path files

-- The check of the four files that a task must have.
abbrev pub is_complete : List Written → Bool
is_complete files =
    has_file ("task.toml" ∷ []) files
    && has_file ("instruction.md" ∷ []) files
    && has_file ("environment" ∷ "Dockerfile" ∷ []) files
    && has_file ("tests" ∷ "test.sh" ∷ []) files

abbrev pub check_complete : Extracted → Extracted
check_complete (task files) =
    if is_complete files then task files else fails (input_error "Missing required Harbor file")
check_complete (fails f) = fails f

unfoldable pub prepare_files : List Entry → Extracted
prepare_files entries = check_complete (extract 0 entries)

-- The pinned version, as the server sends it. The path of the problem is given by its parts.
pub record Version : Type 0 where
  pub commit_sha : List ℕ
  pub is_absolute : Bool
  pub parts : List String
  pub repository_url : List ℕ

-- "https://"
abbrev pub https : List ℕ
https = b'h' ∷ b't' ∷ b't' ∷ b'p' ∷ b's' ∷ b':' ∷ b'/' ∷ b'/' ∷ []

-- The URL over HTTPS, if the given one is for SSH.
abbrev pub https_url : List ℕ → Option (List ℕ × List ℕ) → List ℕ
https_url url none = url
https_url url (some (host, path)) = https ++ (host ++ b'/' ∷ path)

abbrev pub or_fetched :
    Option (List ℕ) → Option (List ℕ → Option (List ℕ)) → List ℕ → Option (List ℕ)
or_fetched (some actual) fetched sha = some actual
or_fetched none none sha = none
or_fetched none (some rev_parse) sha = get_current_commit rev_parse sha

-- The commit in the clone, or else after a fetch of it. `cloned` and `fetched` answer to `rev-parse`
-- before and after the fetch, which may fail.
abbrev pub resolve :
    (List ℕ → Option (List ℕ)) → Option (List ℕ → Option (List ℕ)) → List ℕ → Option (List ℕ)
resolve cloned fetched sha = or_fetched (get_current_commit cloned sha) fetched sha

abbrev pub extract_pinned : Option (List ℕ) → List ℕ → (List ℕ → List Entry) → Extracted
extract_pinned none sha entries = fails source_error
extract_pinned (some actual) sha entries =
    if same actual sha
    then prepare_files (entries sha)
    else fails (input_error "Problem commit mismatch")

-- A clone: what `rev-parse` answers in it, what it answers after a fetch of a commit, which is `none`
-- if the fetch raises `SourceError`, and the entries of each commit.
pub record Repository : Type 0 where
  pub rev_parse : List ℕ → Option (List ℕ)
  pub fetched : List ℕ → Option (List ℕ → Option (List ℕ))
  pub entries : List ℕ → List Entry

abbrev pub from_clone : Option Repository → List ℕ → Extracted
from_clone none sha = fails source_error
from_clone (some repository) sha =
    extract_pinned (resolve repository.rev_parse (repository.fetched sha) sha) sha
      repository.entries

-- `clone` gives the clone of a URL, or `none` if it raises `SourceError`.
unfoldable pub prepare_problem :
    (List ℕ → Option Url) → List (List ℕ) → (List ℕ → Option Repository) → Version → Extracted
prepare_problem urlsplit hosts clone version =
    let url = https_url version.repository_url (ssh_match version.repository_url) in
    if not (is_sha version.commit_sha)
      || version.is_absolute
      || any_text ".." version.parts
      || is_empty version.parts
    then fails (input_error "Invalid immutable problem identity")
    else if not (validate_url urlsplit hosts version.repository_url)
    then fails source_error
    else if not (validate_url urlsplit hosts url)
    then fails source_error
    else from_clone (clone url) version.commit_sha

-- The folder of one job under the root; `outside` is `InputError`, and `exists` is the
-- `FileExistsError` of a job that has a folder already.
pub data Workspace : Type 0 where
  created : List ℕ → Workspace
  outside exists : Workspace

abbrev has_job : ℕ → List ℕ → Bool
has_job job [] = false
has_job job (j ∷ jobs) = j == job || has_job job jobs

unfoldable pub workspace : (ℕ → Bool) → ℕ → List ℕ → Workspace
workspace escapes job jobs =
    if escapes job then outside else if has_job job jobs then exists else created (job ∷ jobs)
