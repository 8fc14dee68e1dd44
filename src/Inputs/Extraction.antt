-- ===== src/Inputs/Extraction.antt =====
-- What an extracted task holds.
use agent_bench_x.Prelude.{
  ℕ, ◌+◌, ◌≤◌, ◌≡◌, inl, inr, String, true, false, not, ◌||◌, List, [], ◌∷◌, ltb, arith, length,
  Bool-cases, Option-cases,
}
use agent_bench_x.Inputs.{
  Entry, Written, Extracted, task, fails, any_text, first_is, is_empty, and_file, extract,
  is_complete, check_complete, prepare_files,
}

abbrev pub size_of : List Written → ℕ
size_of [] = 0
size_of (w ∷ files) = length w.bytes + size_of files

-- No target lies in the folder of reference answers or climbs out of the task's folder.
abbrev pub AreSafe : List Written → Type 0
AreSafe [] = Unit {0}
AreSafe (w ∷ files) =
    (first_is "solution" w.target ≡ false)
    × (any_text ".." w.target ≡ false)
    × (is_empty w.target ≡ false)
    × AreSafe files

abbrev Within : ℕ → Extracted → Type 0
Within total (task files) = (total + size_of files ≤ 50000000) × AreSafe files
Within total (fails f) = Unit {0}

and_file-Within :
    (total : ℕ) (parts : List String) (bytes : List ℕ) (r : Extracted)
    → Within (total + length bytes) r
    → first_is "solution" parts ≡ false
    → any_text ".." parts ≡ false
    → is_empty parts ≡ false
    → Within total (and_file (record { target = parts; bytes = bytes }) r)
and_file-Within total parts bytes (task files) (most, safe) s u n =
    (omega (arith, most), (s, u, n, safe))
and_file-Within total parts bytes (fails f) w s u n = tt

extract-Within :
    (total : ℕ) (entries : List Entry) → total ≤ 50000000 → Within total (extract total entries)
unfolding extract
extract-Within total [] h = (omega arith, tt)
extract-Within total (e ∷ entries) h = elim (Option-cases e.parts) [
  | inl outside ↦ rw outside (extract-Within total entries h)
  | inr (parts, inside) ↦ rw inside (elim (Bool-cases (any_text ".." parts || e.is_absolute)) [
    | inl climbs ↦ rw climbs tt
    | inr stays ↦ rw stays (elim (Bool-cases (is_empty parts)) [
      | inl empty ↦ rw empty tt
      | inr named ↦ rw named (elim (Bool-cases (first_is "solution" parts)) [
        | inl answer ↦ rw answer (extract-Within total entries h)
        | inr question ↦ rw question (elim (Bool-cases (not e.inside)) [
          | inl escapes ↦ rw escapes tt
          | inr kept ↦ rw kept (elim (Bool-cases (ltb 1000000 (length e.bytes))) [
            | inl refused ↦ rw refused tt
            | inr read ↦ rw read (elim (Bool-cases (ltb 50000000 (total + length e.bytes))) [
              | inl large ↦ rw large tt
              | inr small ↦ rw small (
                  and_file-Within total parts e.bytes (extract (total + length e.bytes) entries)
                    (extract-Within (total + length e.bytes) entries (ground arith)) question
                    (ground arith) named)
            ])
          ])
        ])
      ])
    ])
  ])
]

-- A task that was prepared has the four files that it must have, and holds at most 50,000,000
-- bytes; none of its files comes from the folder `solution`, and no path has a part "..".
pub prepare_files-AreSafe :
    (entries : List Entry) (files : List Written)
    → prepare_files entries ≡ task files
    → (is_complete files ≡ true) × (size_of files ≤ 50000000) × AreSafe files
unfolding prepare_files
prepare_files-AreSafe entries files h =
    checked (extract 0 entries) (extract-Within 0 entries (omega arith)) h
  where
    checked :
        (r : Extracted)
        → Within 0 r
        → check_complete r ≡ task files
        → (is_complete files ≡ true) × (size_of files ≤ 50000000) × AreSafe files
    checked (fails f) w e = cc
    checked (task found) (most, safe) e = elim (Bool-cases (is_complete found)) [
      | inl full ↦
          let same : files ≡ found = ground arith in rw same (full, omega (arith, most), safe)
      | inr missing ↦ absurd (ground arith)
    ]
