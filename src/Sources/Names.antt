-- ===== src/Sources/Names.antt =====
-- The names of a commit's files, and those of its manifests (`files` and `discover` of
-- apps/api/agentbenchx/git_sources.py). Texts are lists of code points.
use agent_bench_x.Prelude.{
  ℕ, Bool, true, false, ◌&&◌, ◌||◌, Option, none, some, List, [], ◌∷◌, ◌==◌, ltb, if◌then◌else◌,
}
use agent_bench_x.Junit.Text.{codes, starts_with}
use agent_bench_x.Storage.{same, reverse_onto}
use agent_bench_x.Git.{cut}

abbrev pub holds : List ℕ → List (List ℕ) → Bool
holds text [] = false
holds text (t ∷ texts) = same t text || holds text texts

-- The lines of `git ls-tree -rz` between NULs.
unfoldable pub split_nul : List ℕ → List ℕ → List (List ℕ)
split_nul read [] = reverse_onto read [] ∷ []
split_nul read (c ∷ text) =
    let next = split_nul [] text in
    let longer = split_nul (c ∷ read) text in if c == 0 then reverse_onto read [] ∷ next else longer

abbrev pub is_regular : List ℕ → Bool
is_regular entry =
    starts_with (codes "100644 blob") entry || starts_with (codes "100755 blob") entry

abbrev pub and_name : Option (List ℕ × List ℕ) → Option (List (List ℕ)) → Option (List (List ℕ))
and_name none names = none
and_name (some (head, name)) none = none
and_name (some (head, name)) (some names) =
    if holds name names then some names else some (name ∷ names)

-- `files`: the names behind the tabs; `none` is the `IndexError` of an entry without a tab.
unfoldable pub names_of : List (List ℕ) → Option (List (List ℕ))
names_of [] = some []
names_of (e ∷ entries) =
    let rest = names_of entries in if is_regular e then and_name (cut 9 e) rest else rest

-- `files`, of the output of `git ls-tree -rz`: a set.
unfoldable pub files : List ℕ → Option (List (List ℕ))
files listing = names_of (split_nul [] listing)

-- `sorted`, by code points.
unfoldable pub before : List ℕ → List ℕ → Bool
before [] m = true
before (a ∷ l) [] = false
before (a ∷ l) (b ∷ m) = ltb a b || (a == b && before l m)

unfoldable pub insert_sorted : List ℕ → List (List ℕ) → List (List ℕ)
insert_sorted name [] = name ∷ []
insert_sorted name (n ∷ names) =
    if before name n then name ∷ n ∷ names else n ∷ insert_sorted name names

unfoldable pub sorted : List (List ℕ) → List (List ℕ)
sorted [] = []
sorted (n ∷ names) = insert_sorted n (sorted names)

abbrev pub ends_with : List ℕ → List ℕ → Bool
ends_with end text = starts_with (reverse_onto end []) (reverse_onto text [])

abbrev pub is_manifest : List ℕ → Bool
is_manifest name = ends_with (codes "/task.toml") name

unfoldable pub manifests : List (List ℕ) → List (List ℕ)
manifests [] = []
manifests (n ∷ names) = let rest = manifests names in if is_manifest n then n ∷ rest else rest

-- What stands before the last slash and behind it, on the reversed text.
abbrev pub parent_of : Option (List ℕ × List ℕ) → List ℕ
parent_of none = []
parent_of (some (name, folder)) = reverse_onto folder []

abbrev pub name_of : List ℕ → Option (List ℕ × List ℕ) → List ℕ
name_of whole none = whole
name_of whole (some (name, folder)) = reverse_onto name []

-- `PurePosixPath(…).parent` and `.name` of a path in git.
unfoldable pub parent : List ℕ → List ℕ
parent path = parent_of (cut b'/' (reverse_onto path []))

unfoldable pub base_name : List ℕ → List ℕ
base_name path = name_of path (cut b'/' (reverse_onto path []))
