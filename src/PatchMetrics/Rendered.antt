-- ===== src/PatchMetrics/Rendered.antt =====
-- `patch_metrics` against the structure of a diff: files with header lines and hunks, hunks with
-- context, added and removed lines.
use agent_bench_x.Prelude.{
  ℕ, ◌+◌, ◌≡◌, refl, Bool, true, false, List, [], ◌∷◌, ◌++◌, arith, length, ◌∙◌, ap, ◌||◌, ◌==◌,
}
use agent_bench_x.Junit.Text.{starts_with}
use agent_bench_x.Storage.{reverse_onto}
use agent_bench_x.PatchMetrics.{
  Line, Scan, diff_git, at_at, holds, scan_line, scan, start, is_break, lines_from, splitlines,
  patch_metrics,
}

-- The lines of a hunk. `note` is "\ No newline at end of file" and the like.
pub data HunkLine : Type 0 where
  context added removed note : Line → HunkLine

pub record Hunk : Type 0 where
  pub range : Line
  pub lines : List HunkLine

pub record FileDiff : Type 0 where
  pub names : Line
  -- "index …", "--- a/…", "+++ b/…" and so on
  pub headers : List Line
  pub hunks : List Hunk

abbrev pub hunk_line : HunkLine → Line
hunk_line (context l) = b' ' ∷ l
hunk_line (added l) = b'+' ∷ l
hunk_line (removed l) = b'-' ∷ l
hunk_line (note l) = b'\\' ∷ l

abbrev pub render_lines : List HunkLine → List Line
render_lines [] = []
render_lines (l ∷ lines) = hunk_line l ∷ render_lines lines

abbrev pub render_hunks : List Hunk → List Line
render_hunks [] = []
render_hunks (h ∷ hunks) = (at_at ++ h.range) ∷ (render_lines h.lines ++ render_hunks hunks)

abbrev pub file_line : FileDiff → Line
file_line file = diff_git ++ file.names

abbrev pub render : List FileDiff → List Line
render [] = []
render (f ∷ files) = file_line f ∷ (f.headers ++ (render_hunks f.hunks ++ render files))

abbrev pub added_lines : List HunkLine → ℕ
added_lines [] = 0
added_lines (added l ∷ lines) = 1 + added_lines lines
added_lines (_ ∷ lines) = added_lines lines

abbrev pub removed_lines : List HunkLine → ℕ
removed_lines [] = 0
removed_lines (removed l ∷ lines) = 1 + removed_lines lines
removed_lines (_ ∷ lines) = removed_lines lines

abbrev pub added_hunks : List Hunk → ℕ
added_hunks [] = 0
added_hunks (h ∷ hunks) = added_lines h.lines + added_hunks hunks

abbrev pub removed_hunks : List Hunk → ℕ
removed_hunks [] = 0
removed_hunks (h ∷ hunks) = removed_lines h.lines + removed_hunks hunks

abbrev pub insertions_of : List FileDiff → ℕ
insertions_of [] = 0
insertions_of (f ∷ files) = added_hunks f.hunks + insertions_of files

abbrev pub deletions_of : List FileDiff → ℕ
deletions_of [] = 0
deletions_of (f ∷ files) = removed_hunks f.hunks + deletions_of files

-- A header line is neither the first line of a file nor that of a hunk. It may begin with "+++".
abbrev pub AreHeaders : List Line → Type 0
AreHeaders [] = Unit {0}
AreHeaders (l ∷ lines) =
    (starts_with diff_git l ≡ false) × (starts_with at_at l ≡ false) × AreHeaders lines

abbrev pub AreFiles : List FileDiff → Type 0
AreFiles [] = Unit {0}
AreFiles (f ∷ files) = AreHeaders f.headers × AreFiles files

-- No two files have the same first line, nor one that was seen already.
abbrev pub AreDistinct : List Line → List FileDiff → Type 0
AreDistinct seen [] = Unit {0}
AreDistinct seen (f ∷ files) =
    (holds (file_line f) seen ≡ false) × AreDistinct (file_line f ∷ seen) files

scan-append : (s : Scan) (xs ys : List Line) → scan s (xs ++ ys) ≡ scan (scan s xs) ys
unfolding scan
scan-append s [] ys = refl
scan-append s (x ∷ xs) ys = scan-append (scan_line s x) xs ys

abbrev counted : Scan → ℕ → ℕ → Scan
counted s a r = record s {
  in_hunk = true;
  additions = s.additions + a;
  deletions = s.deletions + r;
}

scan-hunk_line :
    (s : Scan) (l : HunkLine)
    → s.in_hunk ≡ true
    → scan_line s (hunk_line l) ≡ counted s (added_lines (l ∷ [])) (removed_lines (l ∷ []))
unfolding scan_line starts_with
scan-hunk_line s (context l) h = ground arith
scan-hunk_line s (added l) h = ground arith
scan-hunk_line s (removed l) h = ground arith
scan-hunk_line s (note l) h = ground arith

scan-lines :
    (s : Scan) (lines : List HunkLine)
    → s.in_hunk ≡ true
    → scan s (render_lines lines) ≡ counted s (added_lines lines) (removed_lines lines)
unfolding scan
scan-lines s [] h = ground arith
scan-lines s (l ∷ lines) h =
    ap (λ t. scan t (render_lines lines)) (scan-hunk_line s l h)
    ∙ (scan-lines (counted s (added_lines (l ∷ [])) (removed_lines (l ∷ []))) lines refl
        ∙ regroup l)
  where
    regroup :
        (l : HunkLine)
        → counted
            (counted s (added_lines (l ∷ [])) (removed_lines (l ∷ [])))
            (added_lines lines)
            (removed_lines lines)
          ≡ counted s (added_lines (l ∷ lines)) (removed_lines (l ∷ lines))
    regroup (context l) = ground arith
    regroup (added l) = ground arith
    regroup (removed l) = ground arith
    regroup (note l) = ground arith

starts_with_self : (p rest : Line) → starts_with p (p ++ rest) ≡ true
unfolding starts_with
starts_with_self [] rest = refl
starts_with_self (c ∷ p) rest = ground (arith, starts_with_self p rest)

range-in_hunk : (s : Scan) (h : Hunk) → scan_line s (at_at ++ h.range) ≡ record s { in_hunk = true }
unfolding scan_line starts_with
range-in_hunk s h = ground arith

-- The state after some hunks, but for `in_hunk`, which the next file resets.
abbrev grown : Scan → Bool → ℕ → ℕ → Scan
grown s b a r = record s { in_hunk = b; additions = s.additions + a; deletions = s.deletions + r }

scan-hunks :
    (s : Scan) (hunks : List Hunk)
    → (b : Bool) × (scan s (render_hunks hunks)
        ≡ grown s b (added_hunks hunks) (removed_hunks hunks))
unfolding scan
scan-hunks s [] = (s.in_hunk, ground arith)
scan-hunks s (h ∷ hunks) =
    let inside = record s { in_hunk = true } in
    let after = counted inside (added_lines h.lines) (removed_lines h.lines) in
    let (b, rest) = scan-hunks after hunks in
    (
      b,
      ap (λ t. scan t (render_lines h.lines ++ render_hunks hunks)) (range-in_hunk s h)
          ∙ (scan-append inside (render_lines h.lines) (render_hunks hunks)
              ∙ (ap (λ t. scan t (render_hunks hunks)) (scan-lines inside h.lines refl)
                  ∙ (rest ∙ ground arith))),
    )

header-line :
    (s : Scan) (l : Line)
    → s.in_hunk ≡ false
    → starts_with diff_git l ≡ false
    → starts_with at_at l ≡ false
    → scan_line s l ≡ s
unfolding scan_line
header-line s l h no_file no_hunk = ground arith

scan-headers :
    (s : Scan) (headers : List Line) → s.in_hunk ≡ false → AreHeaders headers → scan s headers ≡ s
unfolding scan
scan-headers s [] h are = refl
scan-headers s (l ∷ lines) h (no_file, no_hunk, are) =
    ap (λ t. scan t lines) (header-line s l h no_file no_hunk) ∙ scan-headers s lines h are

file-line :
    (s : Scan) (f : FileDiff)
    → holds (file_line f) s.files ≡ false
    → scan_line s (file_line f) ≡ record s { files = file_line f ∷ s.files; in_hunk = false }
unfolding scan_line
file-line s f new = rw (starts_with_self diff_git f.names, new) refl

scan-files :
    (s : Scan) (files : List FileDiff)
    → AreFiles files
    → AreDistinct s.files files
    → (length (scan s (render files)).files ≡ length s.files + length files)
      × ((scan s (render files)).additions ≡ s.additions + insertions_of files)
      × ((scan s (render files)).deletions ≡ s.deletions + deletions_of files)
unfolding scan
scan-files s [] are distinct = (omega arith, omega arith, omega arith)
scan-files s (f ∷ files) (headers, are) (new, distinct) =
    let opened = record s { files = file_line f ∷ s.files; in_hunk = false } in
    let (b, hunks) = scan-hunks opened f.hunks in
    let after = grown opened b (added_hunks f.hunks) (removed_hunks f.hunks) in
    let whole : scan s (render (f ∷ files)) ≡ scan after (render files) =
      ap (λ t. scan t (f.headers ++ (render_hunks f.hunks ++ render files))) (file-line s f new)
      ∙ (scan-append opened f.headers (render_hunks f.hunks ++ render files)
          ∙ (ap (λ t. scan t (render_hunks f.hunks ++ render files))
                (scan-headers opened f.headers refl headers)
              ∙ (scan-append opened (render_hunks f.hunks) (render files)
                  ∙ ap (λ t. scan t (render files)) hunks))) in
    let (l, a, d) = scan-files after files are distinct in
    rw whole (omega (arith, l), omega (arith, a), omega (arith, d))

-- The text of lines that each end with \n, and lines that no other character ends.
abbrev pub unlines : List Line → List ℕ
unlines [] = []
unlines (l ∷ lines) = l ++ 10 ∷ unlines lines

abbrev pub has_break : Line → Bool
has_break [] = false
has_break (c ∷ l) = is_break c || has_break l

abbrev pub AreWhole : List Line → Type 0
AreWhole [] = Unit {0}
AreWhole (l ∷ lines) = (has_break l ≡ false) × AreWhole lines

lines_from-line :
    (read l : Line) (text : List ℕ)
    → has_break l ≡ false
    → lines_from false read (l ++ 10 ∷ text) ≡ reverse_onto read l ∷ lines_from false [] text
unfolding lines_from
lines_from-line read [] text h = refl
lines_from-line read (c ∷ l) text h =
    let no_cr : (c == 13) ≡ false = ground arith in
    let plain : is_break c ≡ false = ground arith in
    rw (no_cr, plain) (lines_from-line (c ∷ read) l text (ground arith))

splitlines-unlines : (lines : List Line) → AreWhole lines → splitlines (unlines lines) ≡ lines
unfolding lines_from
splitlines-unlines [] h = refl
splitlines-unlines (l ∷ lines) (whole, rest) =
    lines_from-line [] l (unlines lines) whole ∙ ap (λ t. l ∷ t) (splitlines-unlines lines rest)

-- Of the text of a diff whose files have different first lines, and in which \n ends each line and no
-- line has a character in it that Python takes for the end of a line, `patch_metrics` reports the
-- number of files and the numbers of added and removed lines in their hunks. The "+++" and "---" lines
-- before the first hunk of a file count as neither.
pub patch_metrics-render :
    (files : List FileDiff)
    → AreFiles files
    → AreDistinct [] files
    → AreWhole (render files)
    → patch_metrics (unlines (render files)) ≡ record {
      files_changed = length files;
      insertions = insertions_of files;
      deletions = deletions_of files;
    }
unfolding patch_metrics
patch_metrics-render files are distinct whole =
    let (l, a, d) = scan-files start files are distinct in
    rw (splitlines-unlines (render files) whole) (ground arith)
