-- ===== src/Git.antt =====
-- Checks of `GitRepositoryManager` (apps/api/agentbenchx/git_sources.py) on URLs, branches and commits,
-- over texts as lists of characters. `urlsplit` is a parameter, and so is what git answers.
pub mod Urls
use agent_bench_x.Prelude.{
  ℕ, Bool, true, false, not, ◌&&◌, ◌||◌, Option, none, some, List, [], ◌∷◌, ◌++◌, ◌==◌, leb, ltb,
  if◌then◌else◌, length,
}
use agent_bench_x.Junit.Text.{starts_with, contains}
use agent_bench_x.Storage.{same, reverse_onto}

abbrev pub all_chars : (ℕ → Bool) → List ℕ → Bool
all_chars p [] = true
all_chars p (c ∷ text) = p c && all_chars p text

abbrev between : ℕ → ℕ → ℕ → Bool
between a b c = leb a c && leb c b

abbrev pub is_alphanumeric : ℕ → Bool
is_alphanumeric c = between b'A' b'Z' c || between b'a' b'z' c || between b'0' b'9' c

-- [A-Za-z0-9.-], [A-Za-z0-9_.-] and [A-Za-z0-9_./-]
abbrev pub is_host_char : ℕ → Bool
is_host_char c = is_alphanumeric c || c == b'.' || c == b'-'

abbrev pub is_name_char : ℕ → Bool
is_name_char c = is_host_char c || c == b'_'

abbrev pub is_branch_char : ℕ → Bool
is_branch_char c = is_name_char c || c == b'/'

-- [0-9a-f]{40,64}
abbrev pub is_hex : ℕ → Bool
is_hex c = between b'0' b'9' c || between b'a' b'f' c

unfoldable pub is_sha : List ℕ → Bool
is_sha text = all_chars is_hex text && leb 40 (length text) && leb (length text) 64

-- The text before the first `c`, and the text behind it, if there is one.
unfoldable pub cut_from : List ℕ → ℕ → List ℕ → Option (List ℕ × List ℕ)
cut_from read c [] = none
cut_from read c (d ∷ text) =
    let rest = cut_from (d ∷ read) c text in
    if d == c then some (reverse_onto read [], text) else rest

abbrev pub cut : ℕ → List ℕ → Option (List ℕ × List ℕ)
cut = cut_from []

abbrev pub is_filled : List ℕ → Bool
is_filled [] = false
is_filled (c ∷ text) = true

abbrev pub is_name : List ℕ → Bool
is_name text = is_filled text && all_chars is_name_char text

abbrev pub ends_in_git : List ℕ → Bool
ends_in_git text = starts_with (b't' ∷ b'i' ∷ b'g' ∷ b'.' ∷ []) (reverse_onto text [])

-- [A-Za-z0-9_.-]+/[A-Za-z0-9_.-]+\.git
abbrev pub is_ssh_path : Option (List ℕ × List ℕ) → Bool
is_ssh_path none = false
is_ssh_path (some (owner, name)) =
    is_name owner && is_name name && ends_in_git name && leb 5 (length name)

-- The text behind a prefix.
unfoldable pub behind : List ℕ → List ℕ → Option (List ℕ)
behind [] text = some text
behind (p ∷ prefix) [] = none
behind (p ∷ prefix) (c ∷ text) = if c == p then behind prefix text else none

abbrev pub cut_behind : ℕ → Option (List ℕ) → Option (List ℕ × List ℕ)
cut_behind c none = none
cut_behind c (some text) = cut c text

abbrev pub host_of : Option (List ℕ × List ℕ) → Option (List ℕ × List ℕ)
host_of none = none
host_of (some (host, path)) =
    if is_filled host && all_chars is_host_char host && is_ssh_path (cut b'/' path)
    then some (host, path)
    else none

-- git@([A-Za-z0-9.-]+):([A-Za-z0-9_.-]+/[A-Za-z0-9_.-]+\.git), with its two groups
unfoldable pub ssh_match : List ℕ → Option (List ℕ × List ℕ)
ssh_match text = host_of (cut_behind b':' (behind (b'g' ∷ b'i' ∷ b't' ∷ b'@' ∷ []) text))

-- What `urlsplit` finds; the path may be empty.
pub record Url : Type 0 where
  pub is_https : Bool
  pub has_username : Bool
  pub has_password : Bool
  pub has_query : Bool
  pub has_fragment : Bool
  pub port : Option ℕ
  pub path : List ℕ
  pub hostname : Option (List ℕ)

abbrev pub is_default_port : Option ℕ → Bool
is_default_port none = true
is_default_port (some n) = n == 443

abbrev pub are_names : Option (List ℕ × List ℕ) → Bool
are_names none = false
are_names (some (owner, name)) = is_name owner && is_name name

-- /[A-Za-z0-9_.-]+/[A-Za-z0-9_.-]+(?:\.git)?
unfoldable pub is_repository_path : List ℕ → Bool
is_repository_path [] = false
is_repository_path (c ∷ path) = c == b'/' && are_names (cut b'/' path)

abbrev pub is_allowed : List (List ℕ) → List ℕ → Bool
is_allowed [] host = false
is_allowed (h ∷ hosts) host = same h host || is_allowed hosts host

abbrev pub is_allowed_name : List (List ℕ) → Option (List ℕ) → Bool
is_allowed_name hosts none = false
is_allowed_name hosts (some host) = is_allowed hosts host

abbrev pub is_plain : Url → Bool
is_plain u =
    u.is_https
    && not u.has_username
    && not u.has_password
    && not u.has_query
    && not u.has_fragment
    && is_default_port u.port
    && is_repository_path u.path

abbrev pub is_valid_https : List (List ℕ) → Option Url → Bool
is_valid_https hosts none = false
is_valid_https hosts (some u) = is_plain u && is_allowed_name hosts u.hostname

abbrev pub is_valid_match : List (List ℕ) → Option (List ℕ × List ℕ) → Option Url → Bool
is_valid_match hosts none parsed = is_valid_https hosts parsed
is_valid_match hosts (some (host, path)) parsed = is_allowed hosts host

-- Whether `validate_url` returns the URL; otherwise it raises `SourceError`. `urlsplit` is `none`
-- where it, or the port, raises `ValueError`.
unfoldable pub validate_url : (List ℕ → Option Url) → List (List ℕ) → List ℕ → Bool
validate_url urlsplit hosts url = is_valid_match hosts (ssh_match url) (urlsplit url)

-- What git answers to `rev-parse` on a reference; `none` means that it fails.
abbrev pub commit_of : Option (List ℕ) → Option (List ℕ)
commit_of none = none
commit_of (some sha) = if is_sha sha then some sha else none

-- `none` is `SourceError`.
unfoldable pub get_current_commit : (List ℕ → Option (List ℕ)) → List ℕ → Option (List ℕ)
get_current_commit rev_parse ref = commit_of (rev_parse ref)

abbrev pub is_branch_start : List ℕ → Bool
is_branch_start [] = false
is_branch_start (c ∷ branch) = is_alphanumeric c && all_chars is_branch_char branch

-- "refs/heads/"
abbrev pub heads : List ℕ
heads = b'r' ∷ b'e' ∷ b'f' ∷ b's' ∷ b'/' ∷ b'h' ∷ b'e' ∷ b'a' ∷ b'd' ∷ b's' ∷ b'/' ∷ []

-- `checkout`, which resolves a branch.
unfoldable pub checkout : (List ℕ → Option (List ℕ)) → List ℕ → Option (List ℕ)
checkout rev_parse branch =
    if not (is_branch_start branch) || contains (b'.' ∷ b'.' ∷ []) branch
    then none
    else get_current_commit rev_parse (heads ++ branch)

-- `read`: the size that git tells is checked before the file is read.
unfoldable pub read_file : Option ℕ → Option (List ℕ) → Option (List ℕ)
read_file none content = none
read_file (some size) content = if ltb 1000000 size then none else content
