-- ===== src/Inputs/Pinned.antt =====
-- A task comes from the pinned commit of an allowed repository.
use agent_bench_x.Prelude.{
  ℕ, ◌≡◌, refl, true, false, Option, none, some, List, arith, Option-cases, inl, inr, ap, ◌∙◌,
}
use agent_bench_x.Storage.Keys.{same→≡}
use agent_bench_x.Git.{Url, is_sha, ssh_match, validate_url}
use agent_bench_x.Inputs.{
  Written, task, any_text, prepare_files, Version, https_url, resolve, Repository, from_clone,
  prepare_problem,
}

from_clone-commit :
    (cloned : Option Repository) (sha : List ℕ) (files : List Written)
    → from_clone cloned sha ≡ task files
    → (repository : Repository) × (cloned ≡ some repository)
      × (resolve repository.rev_parse (repository.fetched sha) sha ≡ some sha)
      × (prepare_files (repository.entries sha) ≡ task files)
from_clone-commit none sha files h = absurd (ground arith)
from_clone-commit (some repository) sha files h =
    elim (Option-cases (resolve repository.rev_parse (repository.fetched sha) sha)) [
      | inl failed ↦ absurd (ground arith)
      | inr (actual, e) ↦
          let same_sha : actual ≡ sha = same→≡ actual sha (ground arith) in
          (repository, refl, e ∙ ap some same_sha, ground arith)
    ]

-- A task that was prepared has a full commit hash and a path that does not climb, and its URL is
-- allowed, as is the HTTPS form of it. That form is what was cloned; the clone, or the fetch of the
-- commit in it, has resolved exactly that commit; and the files are made of the entries that the clone
-- has of that commit, and of no other.
pub prepare_problem-pinned :
    (urlsplit : List ℕ → Option Url) (hosts : List (List ℕ)) (clone : List ℕ → Option Repository)
    (version : Version) (files : List Written)
    → prepare_problem urlsplit hosts clone version ≡ task files
    → (is_sha version.commit_sha ≡ true)
      × (any_text ".." version.parts ≡ false)
      × (validate_url urlsplit hosts version.repository_url ≡ true)
      × (validate_url urlsplit hosts
            (https_url version.repository_url (ssh_match version.repository_url))
          ≡ true)
      × ((repository : Repository) × (clone
              (https_url version.repository_url (ssh_match version.repository_url))
            ≡ some repository)
          × (resolve repository.rev_parse (repository.fetched version.commit_sha) version.commit_sha
              ≡ some version.commit_sha)
          × (prepare_files (repository.entries version.commit_sha) ≡ task files))
unfolding prepare_problem
prepare_problem-pinned urlsplit hosts clone version files h =
    let url = https_url version.repository_url (ssh_match version.repository_url) in
    let from : from_clone (clone url) version.commit_sha ≡ task files = ground arith in
    (
      ground arith,
      ground arith,
      ground arith,
      ground arith,
      from_clone-commit (clone url) version.commit_sha files from,
    )
