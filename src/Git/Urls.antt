-- ===== src/Git/Urls.antt =====
-- What the checks of git sources promise.
use agent_bench_x.Prelude.{
  ℕ, ◌≡◌, ◌⊎◌, ◌∙◌, refl, ap, inl, inr, true, false, Option, none, some, List, [], ◌∷◌, ◌++◌, ◌==◌,
  arith, Option-cases, Bool-cases, ==→≡,
}
use agent_bench_x.Storage.{same, reverse_onto}
use agent_bench_x.Storage.Keys.{same→≡}
use agent_bench_x.Git.{
  is_sha, Url, cut, cut_from, behind, cut_behind, host_of, is_default_port, is_repository_path,
  is_allowed, is_plain, ssh_match, validate_url, get_current_commit,
}

-- A commit has between 40 and 64 characters, and each is a lower-case hexadecimal digit.
pub get_current_commit-is_sha :
    (rev_parse : List ℕ → Option (List ℕ)) (ref sha : List ℕ)
    → get_current_commit rev_parse ref ≡ some sha
    → is_sha sha ≡ true
unfolding get_current_commit
get_current_commit-is_sha rev_parse ref sha h = elim (Option-cases (rev_parse ref)) [
  | inl failed ↦ absurd (ground arith)
  | inr (found, e) ↦ ground arith
]

reverse_onto-append : (xs ys zs : List ℕ) → reverse_onto xs (ys ++ zs) ≡ reverse_onto xs ys ++ zs
reverse_onto-append [] ys zs = refl
reverse_onto-append (x ∷ xs) ys zs = reverse_onto-append xs (x ∷ ys) zs

-- What `cut` finds is the text around the character.
cut_from-found :
    (read : List ℕ) (c : ℕ) (text a b : List ℕ)
    → cut_from read c text ≡ some (a, b)
    → reverse_onto read text ≡ a ++ c ∷ b
unfolding cut_from
cut_from-found read c [] a b h = absurd (ground arith)
cut_from-found read c (d ∷ text) a b h = elim (Bool-cases (d == c)) [
  | inl here ↦
      let same_char : d ≡ c = ==→≡ d c here in
      let first : reverse_onto read [] ≡ a = ground arith in
      let rest : text ≡ b = ground arith in
      reverse_onto-append read [] (d ∷ text) ∙ rw (first, same_char, rest) refl
  | inr later ↦ cut_from-found (d ∷ read) c text a b (ground arith)
]

behind-found : (p text rest : List ℕ) → behind p text ≡ some rest → text ≡ p ++ rest
unfolding behind
behind-found [] text rest h = ground arith
behind-found (c ∷ p) [] rest h = absurd (ground arith)
behind-found (c ∷ p) (d ∷ text) rest h =
    let same_char : d ≡ c = ground arith in
    let tail = behind-found p text rest (ground arith) in rw (same_char, tail) refl

host_of-found :
    (x : Option (List ℕ × List ℕ)) (host path : List ℕ)
    → host_of x ≡ some (host, path)
    → x ≡ some (host, path)
host_of-found none host path h = absurd (ground arith)
host_of-found (some (a, b)) host path h = ground arith

-- "git@"
abbrev pub git_at : List ℕ
git_at = b'g' ∷ b'i' ∷ b't' ∷ b'@' ∷ []

ssh_match-text :
    (url host path : List ℕ)
    → ssh_match url ≡ some (host, path)
    → url ≡ git_at ++ (host ++ b':' ∷ path)
unfolding ssh_match
ssh_match-text url host path h = elim (Option-cases (behind git_at url)) [
  | inl other ↦ absurd (ground arith)
  | inr (rest, e) ↦
      let x = host_of-found (cut_behind b':' (behind git_at url)) host path h in
      let found : cut b':' rest ≡ some (host, path) = ground arith in
      behind-found git_at url rest e
      ∙ ap (λ t. git_at ++ t) (cut_from-found [] b':' rest host path found)
]

-- One of the hosts.
abbrev pub IsHost : List (List ℕ) → List ℕ → Type 0
IsHost [] host = ⊥
IsHost (h ∷ hosts) host = (h ≡ host) ⊎ IsHost hosts host

is_allowed-IsHost :
    (hosts : List (List ℕ)) (host : List ℕ) → is_allowed hosts host ≡ true → IsHost hosts host
is_allowed-IsHost [] host h = absurd (ground arith)
is_allowed-IsHost (k ∷ hosts) host h = elim (Bool-cases (same k host)) [
  | inl here ↦ inl (same→≡ k host here)
  | inr later ↦ inr (is_allowed-IsHost hosts host (ground arith))
]

-- An HTTPS URL without credentials, query, fragment or another port, whose path is that of a
-- repository.
pub record IsBare (u : Url) : Type 0 where
  pub https : u.is_https ≡ true
  pub no_username : u.has_username ≡ false
  pub no_password : u.has_password ≡ false
  pub no_query : u.has_query ≡ false
  pub no_fragment : u.has_fragment ≡ false
  pub standard_port : (u.port ≡ none) ⊎ (u.port ≡ some 443)
  pub repository : is_repository_path u.path ≡ true

port-cases : (port : Option ℕ) → is_default_port port ≡ true → (port ≡ none) ⊎ (port ≡ some 443)
port-cases none h = inl refl
port-cases (some n) h = inr (ap some (==→≡ n 443 h))

is_plain-IsBare : (u : Url) → is_plain u ≡ true → IsBare u
is_plain-IsBare u h = record {
  https = ground arith;
  no_username = ground arith;
  no_password = ground arith;
  no_query = ground arith;
  no_fragment = ground arith;
  standard_port = port-cases u.port (ground arith);
  repository = ground arith;
}

-- A URL is accepted only if it names one of the allowed hosts: either it is "git@", the host, a colon
-- and a path, or `urlsplit` finds an HTTPS URL in it with that host, without a user name, a password, a
-- query or a fragment, on no port but 443, and with the path of a repository.
pub validate_url-allowed :
    (urlsplit : List ℕ → Option Url) (hosts : List (List ℕ)) (url : List ℕ)
    → validate_url urlsplit hosts url ≡ true
    → (host : List ℕ) × IsHost hosts host
      × (((path : List ℕ) × (url ≡ git_at ++ (host ++ b':' ∷ path)))
          ⊎ ((u : Url) × (urlsplit url ≡ some u) × (u.hostname ≡ some host) × IsBare u))
unfolding validate_url
validate_url-allowed urlsplit hosts url h = elim (Option-cases (ssh_match url)) [
  | inr ((host, path), e) ↦ (
    host,
    is_allowed-IsHost hosts host (ground arith),
    inl (path, ssh_match-text url host path e),
  )
  | inl other ↦ elim (Option-cases (urlsplit url)) [
    | inl failed ↦ absurd (ground arith)
    | inr (u, parsed) ↦ elim (Option-cases u.hostname) [
      | inl nameless ↦ absurd (ground arith)
      | inr (host, e) ↦ (
        host,
        is_allowed-IsHost hosts host (ground arith),
        inr (u, parsed, e, is_plain-IsBare u (ground arith)),
      )
    ]
  ]
]
