-- ===== src/Sources/Aborts.antt =====
-- The manifests that end a discovery (`ProblemDiscoveryService.discover` of
-- apps/api/agentbenchx/git_sources.py) with an exception that the loop does not catch.
use agent_bench_x.Prelude.{ℕ, Bool, true, false, not, ◌&&◌, ◌||◌, Option, some, List}
use agent_bench_x.Sources.Names.{parent}
use agent_bench_x.Sources.Tasks.{Field, Timeout, Manifest, Parsed, table, unreadable, too_deep}
use agent_bench_x.Sources.Discovery.{
  Round, aborts, Mapped, known, unmapped, normalize, is_gis, has_files, category_of, tags_of,
  Commit, manifest_of,
}

abbrev is_aborts : Round → Bool
is_aborts aborts = true
is_aborts _ = false

-- A difficulty that has no `upper`, a `verifier` that has no `get`, an infinite number of seconds.
abbrev pub has_no_upper : Field → Bool
has_no_upper (Field.texts ts) = true
has_no_upper Field.other = true
has_no_upper _ = false

abbrev pub has_no_int : Timeout → Bool
has_no_int Timeout.infinite = true
has_no_int Timeout.no_table = true
has_no_int _ = false

abbrev pub is_known : Mapped → Bool
is_known (known category kind) = true
is_known unmapped = false

abbrev pub is_reached :
    List (List ℕ) → List ℕ → Manifest → Option (List (List ℕ)) → Option (List ℕ) → Bool
is_reached files folder raw (some tags) (some category) =
    not (is_gis folder category tags)
    && has_files folder files
    && is_known (normalize category tags raw.kind)
is_reached files folder raw _ _ = false

abbrev pub is_malformed : List (List ℕ) → List ℕ → Parsed → Bool
is_malformed files folder unreadable = false
is_malformed files folder too_deep = true
is_malformed files folder (table raw) =
    raw.has_table
    && is_reached files folder raw (tags_of raw.tags) (category_of raw.category)
    && (has_no_upper raw.difficulty || has_no_int raw.timeout)

module _ (commit : Commit) (files : List (List ℕ)) where
  abbrev is_bad : List ℕ → Bool
  is_bad name = is_malformed files (parent name) (manifest_of commit name)
