-- ===== src/Tests/Sources.antt =====
-- A task from its pinned commit.
use agent_bench_x.Prelude.{
  if◌then◌else◌, ◌++◌, ℕ, zero, suc, ◌≡◌, ◌⊎◌, refl, true, false, Option, none, some, List, [], ◌∷◌,
}
use agent_bench_x.Storage.{same}
use agent_bench_x.Git.{
  Url, is_sha, is_repository_path, ssh_match, cut_from, behind, validate_url, get_current_commit,
}
use agent_bench_x.Git.Urls.{IsHost, git_at, IsBare, validate_url-allowed}
use agent_bench_x.Junit.Text.{starts_with}
use agent_bench_x.Inputs.{
  task, any_text, extract, prepare_files, Version, https_url, resolve, Repository, prepare_problem,
}
use agent_bench_x.Inputs.Pinned.{prepare_problem-pinned}
use agent_bench_x.Tests.Backends.{entries, files}

abbrev repeat : ℕ → ℕ → List ℕ
repeat zero c = []
repeat (suc n) c = c ∷ repeat n c

abbrev pub sha : List ℕ
sha = repeat 40 b'a'

-- The repository answers to each reference with the one commit.
abbrev pub rev_parse : List ℕ → Option (List ℕ)
rev_parse ref = some sha

get_current_commit-run : get_current_commit rev_parse [] ≡ some sha
unfolding get_current_commit is_sha
get_current_commit-run = refl

abbrev host : List ℕ
host = b'g' ∷ []

-- "git@g:o/r.git"
abbrev ssh_url : List ℕ
ssh_url =
    b'g' ∷ b'i' ∷ b't' ∷ b'@' ∷ b'g' ∷ b':' ∷ b'o' ∷ b'/' ∷ b'r' ∷ b'.' ∷ b'g' ∷ b'i' ∷ b't' ∷ []

abbrev parsed : Url
parsed = record {
  is_https = true;
  has_username = false;
  has_password = false;
  has_query = false;
  has_fragment = false;
  port = none;
  path = b'/' ∷ b'o' ∷ b'/' ∷ b'r' ∷ b'.' ∷ b'g' ∷ b'i' ∷ b't' ∷ [];
  hostname = some host;
}

abbrev urlsplit : List ℕ → Option Url
urlsplit url = some parsed

ssh_url-run : validate_url urlsplit (host ∷ []) ssh_url ≡ true
unfolding validate_url ssh_match cut_from behind same starts_with
ssh_url-run = refl

validate_url-allowed_example :
    (name : List ℕ) × IsHost (host ∷ []) name
    × (((path : List ℕ) × (ssh_url ≡ git_at ++ (name ++ b':' ∷ path)))
        ⊎ ((u : Url) × (urlsplit ssh_url ≡ some u) × (u.hostname ≡ some name) × IsBare u))
validate_url-allowed_example = validate_url-allowed urlsplit (host ∷ []) ssh_url ssh_url-run

-- The clone has the commit already, and no other commit has entries.
abbrev repository : Repository
repository = record {
  rev_parse = rev_parse;
  fetched = λ asked. none;
  entries = λ asked. if same asked sha then entries else [];
}

-- Only the HTTPS form of the URL can be cloned.
abbrev clone_of : List ℕ → Option Repository
clone_of url = if same url (https_url ssh_url (ssh_match ssh_url)) then some repository else none

abbrev version : Version
version = record {
  commit_sha = sha;
  is_absolute = false;
  parts = "tasks" ∷ "one" ∷ [];
  repository_url = ssh_url;
}

prepare_problem-run : prepare_problem urlsplit (host ∷ []) clone_of version ≡ task files
unfolding prepare_problem prepare_files extract validate_url ssh_match cut_from behind same
    starts_with is_sha get_current_commit is_repository_path
prepare_problem-run = refl

prepare_problem-pinned_example :
    (is_sha sha ≡ true)
    × (any_text ".." version.parts ≡ false)
    × (validate_url urlsplit (host ∷ []) ssh_url ≡ true)
    × (validate_url urlsplit (host ∷ []) (https_url ssh_url (ssh_match ssh_url)) ≡ true)
    × ((r : Repository) × (clone_of (https_url ssh_url (ssh_match ssh_url)) ≡ some r)
        × (resolve r.rev_parse (r.fetched sha) sha ≡ some sha)
        × (prepare_files (r.entries sha) ≡ task files))
prepare_problem-pinned_example =
    prepare_problem-pinned urlsplit (host ∷ []) clone_of version files prepare_problem-run
