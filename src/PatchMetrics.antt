-- ===== src/PatchMetrics.antt =====
-- `patch_metrics` of workers/evaluator/results.py: the files, insertions and deletions of a unified
-- diff, given as the list of its code points.
pub mod Rendered
use agent_bench_x.Prelude.{
  ℕ, ◌+◌, Bool, true, false, not, leb, ◌&&◌, ◌||◌, List, [], ◌∷◌, ◌==◌, if◌then◌else◌, one_if,
  length,
}
use agent_bench_x.Junit.Text.{starts_with}
use agent_bench_x.Storage.{reverse_onto}

abbrev pub Line : Type 0
Line = List ℕ

pub record Scan : Type 0 where
  -- The set `files`, without repetitions.
  pub files : List Line
  pub in_hunk : Bool
  pub additions : ℕ
  pub deletions : ℕ

pub record PatchMetrics : Type 0 where
  pub files_changed : ℕ
  pub insertions : ℕ
  pub deletions : ℕ

-- "diff --git "
abbrev pub diff_git : Line
diff_git = b'd' ∷ b'i' ∷ b'f' ∷ b'f' ∷ b' ' ∷ b'-' ∷ b'-' ∷ b'g' ∷ b'i' ∷ b't' ∷ b' ' ∷ []

-- "@@", "+" and "-"
abbrev pub at_at : Line
at_at = b'@' ∷ b'@' ∷ []

abbrev pub plus : Line
plus = b'+' ∷ []

abbrev pub minus : Line
minus = b'-' ∷ []

unfoldable pub line_eq : Line → Line → Bool
line_eq [] [] = true
line_eq (a ∷ l) (b ∷ m) = a == b && line_eq l m
line_eq _ _ = false

unfoldable pub holds : Line → List Line → Bool
holds l [] = false
holds l (m ∷ lines) = line_eq m l || holds l lines

-- `files.add(line)`
abbrev pub add : Line → List Line → List Line
add l lines = if holds l lines then lines else l ∷ lines

-- One round of the loop.
unfoldable pub scan_line : Scan → Line → Scan
scan_line s line =
    if starts_with diff_git line
    then record s { files = add line s.files; in_hunk = false }
    else if starts_with at_at line
    then record s { in_hunk = true }
    else if s.in_hunk
    then record s {
      additions = s.additions + one_if (starts_with plus line);
      deletions = s.deletions + one_if (starts_with minus line);
    }
    else s

unfoldable pub scan : Scan → List Line → Scan
scan s [] = s
scan s (line ∷ lines) = scan (scan_line s line) lines

abbrev pub start : Scan
start = record { files = []; in_hunk = false; additions = 0; deletions = 0 }

-- The characters at which `str.splitlines` ends a line: \n, \v, \f, \r, the separators \x1c to \x1e,
-- \x85, \u2028 and \u2029.
abbrev pub is_break : ℕ → Bool
is_break c = (leb 10 c && leb c 13) || (leb 28 c && leb c 30) || c == 133 || c == 8232 || c == 8233

-- The line that is being read, backwards, after the character `c`.
abbrev pub next_read : ℕ → Line → Line
next_read c read = if is_break c then [] else c ∷ read

-- A \n behind a \r ends no line of its own; `after_cr` says whether a \r was read last.
abbrev pub ends_line : Bool → ℕ → Bool
ends_line after_cr c = is_break c && not (after_cr && c == 10)

abbrev pub last_line : Line → List Line
last_line [] = []
last_line (c ∷ read) = reverse_onto (c ∷ read) [] ∷ []

unfoldable pub lines_from : Bool → Line → List ℕ → List Line
lines_from after_cr read [] = last_line read
lines_from after_cr read (c ∷ text) =
    let rest = lines_from (c == 13) (next_read c read) text in
    if ends_line after_cr c then reverse_onto read [] ∷ rest else rest

-- `patch.splitlines()`
abbrev pub splitlines : List ℕ → List Line
splitlines = lines_from false []

unfoldable pub patch_metrics : List ℕ → PatchMetrics
patch_metrics patch =
    let s = scan start (splitlines patch) in
    record { files_changed = length s.files; insertions = s.additions; deletions = s.deletions }
