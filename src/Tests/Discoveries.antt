-- ===== src/Tests/Discoveries.antt =====
-- A commit with one task.
use agent_bench_x.Prelude.{ℕ, ◌+◌, ◌≡◌, refl, true, none, some, List, [], ◌∷◌}
use agent_bench_x.Junit.Text.{codes, lower, starts_with, contains}
use agent_bench_x.Storage.{same, split, split_from}
use agent_bench_x.Git.{cut_from, read_file}
use agent_bench_x.Sources.Names.{before, insert_sorted, sorted, manifests, parent, base_name}
use agent_bench_x.Sources.Tasks.{Field, Timeout, Manifest, Parsed, Task, validate}
use agent_bench_x.Sources.Discovery.{
  Commit, normalize, inspect_tagged, inspect, inspect_all, discover, manifest_of, instruction_of,
}
use agent_bench_x.Sources.Split.{task_count, skip_count, folder_count, AllOffered, discover-Splits}

abbrev pub manifest : Manifest
manifest = record {
  has_table = true;
  tags = Field.absent;
  category = Field.text (codes "DATA");
  kind = Field.absent;
  difficulty = Field.text (codes "easy");
  timeout = Timeout.number 300;
}

-- Every file is small, and every manifest is this one.
abbrev commit_of : Manifest → Commit
commit_of m = record {
  size = λ name. some 9;
  content = λ name. some [];
  parse = λ bytes. Parsed.table m;
  decode = λ bytes. some bytes;
}

abbrev pub commit : Commit
commit = commit_of manifest

-- A difficulty that is a number.
abbrev malformed : Commit
malformed = commit_of (record manifest { difficulty = Field.other })

abbrev pub names : List (List ℕ)
names =
    codes "t/environment/Dockerfile"
    ∷ codes "t/instruction.md"
    ∷ codes "t/task.toml"
    ∷ codes "t/tests/test.sh"
    ∷ []

abbrev pub task : Task
task = record {
  path = codes "t";
  name = codes "t";
  category = codes "DATA";
  kind = Field.text (codes "INTEGRATION");
  difficulty = codes "EASY";
  timeout = 300;
  tags = [];
  language = codes "Unknown";
  framework = [];
  instruction = [];
  source = manifest;
}

discover-run : discover commit names ≡ some (task ∷ [], [])
unfolding discover manifests sorted insert_sorted before inspect_all inspect inspect_tagged
    normalize validate manifest_of instruction_of read_file parent base_name cut_from same split
    split_from lower starts_with contains
discover-run = refl

discover-Splits_example :
    (task_count (same (codes "t")) (task ∷ []) + skip_count (same (codes "t")) []
      ≡ folder_count (same (codes "t")) (manifests names))
    × AllOffered names (task ∷ [])
discover-Splits_example =
    discover-Splits (same (codes "t")) commit names (task ∷ []) [] discover-run

malformed-run : discover malformed names ≡ none
unfolding discover manifests sorted insert_sorted before inspect_all inspect inspect_tagged
    normalize validate manifest_of instruction_of read_file parent base_name cut_from same split
    split_from lower starts_with contains
malformed-run = refl
