-- ===== src/Tests/Catalogues.antt =====
-- A source whose repository has one task.
use agent_bench_x.Prelude.{
  ℕ, ◌+◌, ◌≡◌, refl, Bool, true, false, Option, none, some, List, [], ◌∷◌, ◌++◌, find_first,
  replace_first,
}
use agent_bench_x.Junit.Text.{codes, lower, starts_with, contains}
use agent_bench_x.Storage.{same, split, split_from}
use agent_bench_x.Git.{Url, is_sha, checkout, get_current_commit, cut_from, read_file}
use agent_bench_x.Sources.Names.{
  split_nul, names_of, files, before, insert_sorted, sorted, manifests, parent, base_name,
}
use agent_bench_x.Sources.Tasks.{Field, validate}
use agent_bench_x.Sources.Discovery.{
  normalize, inspect_tagged, inspect, inspect_all, discover, manifest_of, instruction_of,
}
use agent_bench_x.Sources.Catalogue.{
  SyncStatus, SyncReport, ProblemSource, Catalogue, Columns, Taken, is_source, add_problem,
  add_version, take_task, take_tasks,
}
use agent_bench_x.Sources.Repository.{Git, Snapshot, fetched, snapshot}
use agent_bench_x.Sources.Sync.{
  Answer, returns, raises, sync_failed, synced_source, failed_source, sync,
}
use agent_bench_x.Sources.Synced.{Refused, at_start, committed, run, takes, Synced, sync-raises}
use agent_bench_x.Sources.Repeated.{TakenIn, sync-TakenIn, sync_twice}
use agent_bench_x.Tests.Sources.{sha}
use agent_bench_x.Tests.Discoveries.{commit, names, task}

-- An entry of `git ls-tree -rz`, with a tab before the name and a NUL behind it.
abbrev line : List ℕ → List ℕ
line name = codes "100644 blob 0" ++ 9 ∷ name ++ 0 ∷ []

abbrev listing : List (List ℕ) → List ℕ
listing [] = []
listing (n ∷ rest) = line n ++ listing rest

files-run : files (listing names) ≡ some names
unfolding files split_nul names_of same starts_with cut_from
files-run = refl

-- Git works, on the branch "dev", unless the commit cannot be pinned.
abbrev git : Bool → Git (Unit {0})
git pins = record {
  exists = λ w. true;
  fetch = λ w. (true, w);
  make_folder = λ w. (true, w);
  ls_remote = λ url w. (true, w);
  config = λ w. (true, w);
  init = λ w. (true, w);
  remote_add = λ url w. (true, w);
  remote_set_url = λ url w. (true, w);
  fetch_origin = λ w. (false, w);
  symbolic_ref = λ w. some (codes "dev");
  rev_parse = λ w ref. some sha;
  ls_tree = λ w sha. some (listing names);
  commit = λ w sha. commit;
  update_ref = λ sha w. (pins, w);
}

abbrev columns : Columns
columns = record { fit_source = λ s. true; fit_problem = λ p. true; fit_version = λ v. true }

abbrev source : ProblemSource
source = record {
  id = 7;
  name = codes "one";
  repository_url = codes "git@g:o/r.git";
  default_branch = none;
  enabled = true;
  sync_status = SyncStatus.pending;
  last_synced_at = none;
  last_commit_sha = none;
  sync_report = SyncReport.nothing;
}

abbrev catalogue : Catalogue
catalogue = record { sources = source ∷ []; problems = []; versions = [] }

abbrev snapshot_one : Snapshot
snapshot_one = record { branch = codes "dev"; sha = sha; tasks = task ∷ []; skipped = [] }

abbrev synced_one : ProblemSource
synced_one = synced_source source snapshot_one 1 50

abbrev catalogue' : Catalogue
catalogue' = record {
  sources = synced_one ∷ [];
  problems =
      record {
        id = 20;
        source_id = 7;
        problem_key = codes "t";
        name = codes "t";
        category = codes "DATA";
        kind = Field.text (codes "INTEGRATION");
        difficulty = codes "EASY";
      }
      ∷ [];
  versions =
      record {
        id = 30;
        problem_id = 20;
        repository_url = codes "git@g:o/r.git";
        branch = codes "dev";
        commit_sha = sha;
        task = task;
      }
      ∷ [];
}

abbrev no_split : List ℕ → Option Url
no_split url = none

abbrev drawn : ℕ → ℕ → ℕ
drawn start k = start + k

abbrev run_one : Bool → ℕ → Catalogue → (Answer ProblemSource × Catalogue) × Unit {0}
run_one pins now db = run no_split [] (git pins) columns (drawn 20) (drawn 30) none 7 now db tt

snapshot-run : snapshot (git true) none tt ≡ some snapshot_one
unfolding snapshot checkout get_current_commit is_sha files split_nul names_of cut_from discover
    manifests sorted insert_sorted before inspect_all inspect inspect_tagged normalize validate
    manifest_of instruction_of read_file parent base_name same split split_from lower starts_with
    contains
snapshot-run = refl

sync-run : run_one true 50 catalogue ≡ ((returns synced_one, catalogue'), tt)
unfolding sync take_tasks take_task add_problem add_version replace_first find_first snapshot
    checkout get_current_commit is_sha files split_nul names_of cut_from discover manifests sorted
    insert_sorted before inspect_all inspect inspect_tagged normalize validate manifest_of
    instruction_of read_file parent base_name same split split_from lower starts_with contains
sync-run = refl

failed-run :
    run_one false 50 catalogue
    ≡ ((raises sync_failed, record catalogue { sources = failed_source source ∷ [] }), tt)
unfolding sync replace_first find_first snapshot checkout get_current_commit is_sha files split_nul
    names_of cut_from discover manifests sorted insert_sorted before inspect_all inspect
    inspect_tagged normalize validate manifest_of instruction_of read_file parent base_name same
    split split_from lower starts_with contains
failed-run = refl

sync-raises_example :
    Refused no_split []
      (git false)
      columns
      (drawn 20)
      (drawn 30)
      none
      7
      50
      catalogue
      (record catalogue { sources = failed_source source ∷ [] })
      sync_failed
sync-raises_example =
    sync-raises no_split [] (git false) columns (drawn 20) (drawn 30) none 7 50 catalogue
      (record catalogue { sources = failed_source source ∷ [] }) tt tt sync_failed failed-run

sync-TakenIn_example :
    (old : ProblemSource) × (s : Snapshot) × (ready : Unit {0}) × (find_first
        (is_source 7)
        catalogue.sources
      ≡ some old)
    × (old.enabled ≡ true)
    × (fetched (git true) no_split [] none old.repository_url tt ≡ (true, ready))
    × (snapshot (git true) old.default_branch ready ≡ some s)
    × TakenIn no_split [] (git true) columns none 7 catalogue catalogue' old synced_one s
sync-TakenIn_example =
    sync-TakenIn no_split [] (git true) columns none 7 (drawn 20) (drawn 30) 50 catalogue catalogue'
      tt tt synced_one sync-run

abbrev taken_one : Taken
taken_one = record { problems = catalogue'.problems; versions = catalogue'.versions; created = 1 }

taken-run :
    takes no_split []
      (git true)
      columns
      (drawn 20)
      (drawn 30)
      none
      7
      50
      source
      snapshot_one
      catalogue
    ≡ some taken_one
unfolding take_tasks take_task add_problem add_version find_first same
taken-run = refl

found-run : find_first (is_source 7) catalogue.sources ≡ some source
unfolding find_first
found-run = refl

committed-run : catalogue' ≡ committed source catalogue snapshot_one 50 taken_one
unfolding replace_first
committed-run = refl

abbrev synced :
    Synced no_split []
      (git true)
      columns
      (drawn 20)
      (drawn 30)
      none
      7
      50
      catalogue
      catalogue'
      tt
      synced_one
synced = record {
  source = source;
  found = found-run;
  enabled = refl;
  ready = tt;
  is_ready = refl;
  s = snapshot_one;
  offered = snapshot-run;
  t = taken_one;
  taken = taken-run;
  tables = committed-run;
  answer = refl;
}

-- The branch is the source's own this time.
snapshot-again : snapshot (git true) (some (codes "dev")) tt ≡ some snapshot_one
unfolding snapshot checkout get_current_commit is_sha files split_nul names_of cut_from discover
    manifests sorted insert_sorted before inspect_all inspect inspect_tagged normalize validate
    manifest_of instruction_of read_file parent base_name same split split_from lower starts_with
    contains
snapshot-again = refl

sync_twice_example :
    run no_split [] (git true) columns (drawn 60) (drawn 70) none 7 90 catalogue' tt ≡ (
      (
        returns (synced_source synced_one snapshot_one 0 90),
        committed synced_one catalogue' snapshot_one 90 (at_start catalogue'),
      ),
      tt,
    )
sync_twice_example =
    sync_twice no_split [] (git true) columns none 7 (drawn 20) (drawn 30) (drawn 60) (drawn 70) 50
      90 catalogue catalogue' tt tt tt tt synced_one synced refl snapshot-again refl refl
