-- ===== src/Storage.antt =====
-- The storage backends (apps/api/agentbenchx/storage.py). A key is the list of its characters. The
-- local backend is a table of files; the S3 backend calls a client, whose answers are a parameter.
pub mod Keys
pub mod Objects
use agent_bench_x.Prelude.{
  ℕ, String, Bool, true, false, not, ◌&&◌, ◌||◌, Option, none, some, List, [], ◌∷◌, ◌++◌, ◌==◌,
  is_some, str_eq, if◌then◌else◌, find_first, length,
}

-- `key.split("/")`. The first argument is the part that is being read, backwards.
abbrev pub reverse_onto : List ℕ → List ℕ → List ℕ
reverse_onto [] ys = ys
reverse_onto (x ∷ xs) ys = reverse_onto xs (x ∷ ys)

unfoldable pub split_from : List ℕ → List ℕ → List (List ℕ)
split_from part [] = reverse_onto part [] ∷ []
split_from part (c ∷ key) =
    let next = split_from [] key in
    let longer = split_from (c ∷ part) key in
    if c == b'/' then reverse_onto part [] ∷ next else longer

unfoldable pub split : List ℕ → List (List ℕ)
unfolding split_from
split = split_from []

unfoldable pub same : List ℕ → List ℕ → Bool
same [] [] = true
same (a ∷ l) (b ∷ m) = a == b && same l m
same _ _ = false

-- `p in {"", ".", ".."}`
abbrev pub is_special : List ℕ → Bool
is_special p = same p [] || same p (b'.' ∷ []) || same p (b'.' ∷ b'.' ∷ [])

abbrev pub any_special : List (List ℕ) → Bool
any_special [] = false
any_special (p ∷ parts) = is_special p || any_special parts

abbrev pub has_char : ℕ → List ℕ → Bool
has_char c [] = false
has_char c (d ∷ key) = d == c || has_char c key

abbrev pub is_empty : List ℕ → Bool
is_empty [] = true
is_empty (c ∷ key) = false

-- Whether `logical_key` returns the key, which `PurePosixPath` leaves as it is then; otherwise it
-- raises `ValueError`.
unfoldable pub logical_key : List ℕ → Bool
logical_key key =
    not (is_empty key || any_special (split key) || has_char b'\\' key || has_char 0 key)

-- `ValueError`, `FileExistsError`, `FileNotFoundError`, and `StorageError` with its message.
pub data Error : Type 0 where
  value_error file_exists file_not_found : Error
  storage_error : String → Error

pub data Answer {ℓ} (A : Type ℓ) : Type ℓ where
  returns : A → Answer A
  raises : Error → Answer A

pub record File : Type 0 where
  pub key : List ℕ
  pub content : List ℕ

-- What `head` tells: the length and the digest, where they are known.
pub record Head : Type 0 where
  pub content_length : Option ℕ
  pub sha256 : Option String

abbrev pub is_key : List ℕ → File → Bool
is_key key file = same file.key key

-- `LocalStorageBackend`. A path that resolves outside the root, by a symbolic link, is one that
-- `escapes`.
module _ (escapes : List ℕ → Bool) where
  abbrev pub refuses : List ℕ → Bool
  refuses key = not (logical_key key) || escapes key

  -- `put`, in mode "xb".
  unfoldable pub put : List ℕ → List ℕ → List File → Answer (Unit {0}) × List File
  put key content files =
      if refuses key
      then (raises value_error, files)
      else if is_some (find_first (is_key key) files)
      then (raises file_exists, files)
      else (returns tt, files ++ record { key = key; content = content } ∷ [])

  abbrev pub opened : Option File → Answer (List ℕ)
  opened none = raises file_not_found
  opened (some file) = returns file.content

  unfoldable pub open_file : List ℕ → List File → Answer (List ℕ)
  open_file key files =
      if refuses key then raises value_error else opened (find_first (is_key key) files)

  abbrev pub head_of : (List ℕ → String) → Answer (List ℕ) → Answer Head
  head_of sha256 (raises e) = raises e
  head_of sha256 (returns content) =
      returns (record { content_length = some (length content); sha256 = some (sha256 content) })

  unfoldable pub head : (List ℕ → String) → List ℕ → List File → Answer Head
  head sha256 key files = head_of sha256 (open_file key files)

  abbrev pub drop_key : List ℕ → List File → List File
  drop_key key [] = []
  drop_key key (file ∷ files) =
      let rest = drop_key key files in if is_key key file then rest else file ∷ rest

  unfoldable pub delete : List ℕ → List File → Answer (Unit {0}) × List File
  delete key files =
      if refuses key then (raises value_error, files) else (returns tt, drop_key key files)

-- What a call of the S3 client does: it returns, or it raises `ClientError` with the code of the
-- response, or `BotoCoreError`.
pub data Reply {ℓ} (A : Type ℓ) : Type ℓ where
  replied : A → Reply A
  client_error : String → Reply A
  core_error : Reply A

-- The client, with the state of its service: `put_object` with `IfNoneMatch="*"` and a digest in the
-- metadata, `head_object` and `get_object`.
pub record Client (S : Type 0) : Type 1 where
  pub put_object : List ℕ → List ℕ → String → S → Reply (Unit {0}) × S
  pub head_object : List ℕ → S → Reply Head
  pub get_object : List ℕ → S → Reply (List ℕ)
  pub delete_object : List ℕ → S → Reply (Unit {0}) × S

abbrev pub is_missing : String → Bool
is_missing code = str_eq code "NoSuchKey" || str_eq code "404" || str_eq code "NotFound"

abbrev pub head_answer : Reply Head → Answer Head
head_answer (replied h) = returns h
head_answer (client_error code) =
    if is_missing code
    then raises file_not_found
    else raises (storage_error "Object storage metadata read failed")
head_answer core_error = raises (storage_error "Object storage metadata read failed")

abbrev pub open_answer : Reply (List ℕ) → Answer (List ℕ)
open_answer (replied content) = returns content
open_answer (client_error code) =
    if str_eq code "NoSuchKey" || str_eq code "404"
    then raises file_not_found
    else raises (storage_error "Object storage read failed")
open_answer core_error = raises (storage_error "Object storage read failed")

abbrev pub delete_answer : Reply (Unit {0}) → Answer (Unit {0})
delete_answer (replied _) = returns tt
delete_answer _ = raises (storage_error "Object storage delete failed")

abbrev is_length : ℕ → Option ℕ → Bool
is_length n none = false
is_length n (some k) = k == n

abbrev is_digest : String → Option String → Bool
is_digest d none = false
is_digest d (some e) = str_eq e d

-- The check of `put` on what `head` tells, and its `except` clauses.
abbrev pub confirm : ℕ → String → Answer Head → Answer (Unit {0})
confirm n digest (returns h) =
    if is_length n h.content_length && is_digest digest h.sha256
    then returns tt
    else raises (storage_error "Object storage integrity check failed")
confirm n digest (raises file_not_found) = raises (storage_error "Uploaded object unavailable")
confirm n digest (raises e) = raises e

-- `S3CompatibleStorageBackend`
module _ {S : Type 0} (client : Client S) (sha256 : List ℕ → String) where
  unfoldable pub s3_head : List ℕ → S → Answer Head
  s3_head key s =
      if logical_key key then head_answer (client.head_object key s) else raises value_error

  abbrev pub after_put : List ℕ → List ℕ → Reply (Unit {0}) × S → Answer (Unit {0}) × S
  after_put key content (replied _, s) =
      (confirm (length content) (sha256 content) (s3_head key s), s)
  after_put key content (client_error code, s) =
      (raises (storage_error "Object storage write failed"), s)
  after_put key content (core_error, s) = (raises (storage_error "Object storage write failed"), s)

  unfoldable pub s3_put : List ℕ → List ℕ → S → Answer (Unit {0}) × S
  s3_put key content s =
      if logical_key key
      then after_put key content (client.put_object key content (sha256 content) s)
      else (raises value_error, s)

  unfoldable pub s3_open : List ℕ → S → Answer (List ℕ)
  s3_open key s =
      if logical_key key then open_answer (client.get_object key s) else raises value_error

  abbrev pub after_delete : Reply (Unit {0}) × S → Answer (Unit {0}) × S
  after_delete (r, s) = (delete_answer r, s)

  unfoldable pub s3_delete : List ℕ → S → Answer (Unit {0}) × S
  s3_delete key s =
      if logical_key key then after_delete (client.delete_object key s) else (raises value_error, s)
