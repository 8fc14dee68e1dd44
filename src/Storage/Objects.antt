-- ===== src/Storage/Objects.antt =====
-- What a backend stores is what it gives back, and is never overwritten.
use agent_bench_x.Prelude.{
  ℕ, ◌≡◌, refl, String, Bool, true, none, some, List, [], ◌∷◌, ◌++◌, arith, find_first, length,
  ==→≡, find_first-append_right, find_first-append_left, Option-cases, Bool-cases, inl, inr,
  str_eq_iff,
}
use agent_bench_x.Storage.{
  returns, File, Head, is_key, same, logical_key, put, open_file, Reply, replied, client_error,
  core_error, Client, s3_head, s3_put, confirm, after_put, head_answer,
}
use agent_bench_x.Storage.Keys.{same_refl}

module _ (escapes : List ℕ → Bool) where
  -- After a `put` of the local backend that returns, `open` gives back the content, and each key
  -- that was there before keeps its content.
  pub put-open_file :
      (key content : List ℕ) (files files' : List File)
      → put escapes key content files ≡ (returns tt, files')
      → (open_file escapes key files' ≡ returns content)
        × ((other old : List ℕ)
            → open_file escapes other files ≡ returns old
            → open_file escapes other files' ≡ returns old)
  unfolding put open_file find_first
  put-open_file key content files files' h =
      let new : File = record { key = key; content = content } in
      let added : files' ≡ files ++ new ∷ [] = ground arith in
      let absent : find_first (is_key key) files ≡ none = ground arith in
      let last : find_first (is_key key) (new ∷ []) ≡ some new = rw (same_refl key) refl in
      (
        ground (arith, added, find_first-append_right (is_key key) files (new ∷ []) absent, last),
        λ other old was. elim (Option-cases (find_first (is_key other) files)) [
          | inl missing ↦ absurd (ground arith)
          | inr (file, e) ↦
              ground
                (arith, added, e, find_first-append_left (is_key other) files (new ∷ []) file e)
        ],
      )

confirm-replied :
    (n : ℕ) (digest : String) (r : Reply Head)
    → confirm n digest (head_answer r) ≡ returns tt
    → r ≡ replied (record { content_length = some n; sha256 = some digest })
confirm-replied n digest (replied h) e = elim (Option-cases h.content_length) [
  | inl unknown ↦ absurd (ground arith)
  | inr (k, length) ↦ elim (Option-cases h.sha256) [
    | inl unknown ↦ absurd (ground arith)
    | inr (d, same) ↦ ground (arith, length, same, ==→≡ k n, str_eq_iff d digest)
  ]
]
confirm-replied n digest (client_error code) e = absurd (ground arith)
confirm-replied n digest core_error e = absurd (ground arith)

module _ {S : Type 0} (client : Client S) (sha256 : List ℕ → String) where
  after_put-confirmed :
      (key content : List ℕ) (s' : S)
      → logical_key key ≡ true
      → (r : Reply (Unit {0}) × S) → after_put client sha256 key content r ≡ (returns tt, s')
      → (r ≡ (replied tt, s'))
        × (client.head_object key s'
            ≡ replied
                (record { content_length = some (length content); sha256 = some (sha256 content) }))
  unfolding s3_head
  after_put-confirmed key content s' good (replied _, t) h =
      let same : t ≡ s' = ground arith in
      let answer : confirm (length content) (sha256 content)
            (head_answer (client.head_object key s'))
          ≡ returns tt =
        ground arith in
      (
        ground arith,
        confirm-replied (length content) (sha256 content) (client.head_object key s') answer,
      )
  after_put-confirmed key content s' good (client_error code, t) h = absurd (ground arith)
  after_put-confirmed key content s' good (core_error, t) h = absurd (ground arith)

  -- A `put` of the S3 backend returns only if the service has confirmed the length and the digest
  -- of the content after the upload.
  pub s3_put-confirmed :
      (key content : List ℕ) (s s' : S)
      → s3_put client sha256 key content s ≡ (returns tt, s')
      → (logical_key key ≡ true)
        × (client.put_object key content (sha256 content) s ≡ (replied tt, s'))
        × (client.head_object key s'
            ≡ replied
                (record { content_length = some (length content); sha256 = some (sha256 content) }))
  unfolding s3_put s3_head
  s3_put-confirmed key content s s' h = elim (Bool-cases (logical_key key)) [
    | inr bad ↦ absurd (ground arith)
    | inl good ↦
        let uploaded : after_put client sha256 key content
              (client.put_object key content (sha256 content) s)
            ≡ (returns tt, s') =
          rw good at h in
        let (put, seen) =
          after_put-confirmed key content s' good (client.put_object key content (sha256 content) s)
            uploaded in
        (good, put, seen)
  ]
