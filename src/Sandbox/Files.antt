-- ===== src/Sandbox/Files.antt =====
-- Files that are read from a container (`read_file` and `collect` of workers/evaluator/docker_sandbox.py).
use agent_bench_x.Prelude.{
  ℕ, inl, inr, ◌⊎◌, ◌+◌, ◌≤◌, ◌≡◌, ◌≢◌, ==→≡, true, String, Bool, not, ◌||◌, Option, none, some,
  List, [], ◌∷◌, ◌==◌, ltb, if◌then◌else◌, length, arith, Bool-cases,
}
use agent_bench_x.Junit.Text.{codes}
use agent_bench_x.Sources.Names.{ends_with}
use agent_bench_x.Sandbox.{
  sandbox_error, other_error, Answer, returns, raises, State, Act, ◌>>=◌, ◌>>◌, pure, raise_if,
  require, get,
}
use agent_bench_x.Sandbox.Rules.{bind-returns, raise_if-returns, require-returns}

-- What `docker cp` writes before the pipe is closed, and its exit code; there is none if it does not
-- end in time.
pub record Stream : Type 0 where
  pub bytes : List ℕ
  pub exit_code : Option ℕ

-- A member of a tar archive.
pub record Member : Type 0 where
  pub is_file : Bool
  pub size : ℕ
  pub content : List ℕ

-- What `collect` returns.
pub data Collected : Type 0 where
  nothing : Collected
  patch : List ℕ → Collected
  reports : (junit reward : List ℕ) → Collected

-- `docker cp name:filename -`, of which so many bytes are read, and the archive that bytes are;
-- `decode` is `bytes.decode("utf-8")`. They are `none` where they raise.
module _ {D : Type 0} (cp : String → String → ℕ → D → Option Stream × D)
    (members : List ℕ → Option (List Member)) (decode : List ℕ → Option (List ℕ)) where
  abbrev pub copied : State D → Option Stream × D → Answer Stream × State D
  copied s (none, d) = (raises other_error, record s { daemon = d })
  copied s (some stream, d) = (returns stream, record s { daemon = d })

  unfoldable pub copy : String → String → ℕ → Act D Stream
  copy name filename n s = copied s (cp name filename n s.daemon)

  abbrev pub one_file : ℕ → List Member → Act D (List ℕ)
  one_file limit (m ∷ []) =
      raise_if (not m.is_file || ltb limit m.size)
        (sandbox_error "Expected one bounded regular artifact file")
      >> pure m.content
  one_file limit _ = require none (sandbox_error "Expected one bounded regular artifact file")

  abbrev pub content_of : ℕ → List ℕ → ℕ → Act D (List ℕ)
  content_of limit bytes code =
      if code == 0 then require (members bytes) other_error >>= one_file limit else pure []

  abbrev pub checked_stream : ℕ → Stream → Act D (List ℕ)
  checked_stream limit stream =
      raise_if (ltb (limit + 65536) (length stream.bytes))
        (sandbox_error "Container artifact exceeds size limit")
      >> (require stream.exit_code other_error >>= content_of limit stream.bytes)

  unfoldable pub read_file : String → String → ℕ → Act D (List ℕ)
  read_file name filename limit = copy name filename (limit + 65537) >>= checked_stream limit

  abbrev pub collect_from : String → Act D Collected
  collect_from name =
      if ends_with (codes "-agent") (codes name)
      then (do
        bytes ← read_file name "/tmp/abx-patch.diff" 2000000
        text ← require (decode bytes) other_error
        pure (patch text))
      else (do
        junit ← read_file name "/logs/verifier/junit.xml" 5000000
        reward ← read_file name "/logs/verifier/reward.txt" 100
        pure (reports junit reward))

  abbrev pub collect_current : Option String → Act D Collected
  collect_current none = pure nothing
  collect_current (some name) = collect_from name

  unfoldable pub collect : Act D Collected
  collect = do box ← get; collect_current box.current

  -- The bytes that were read are those of the one member of an archive, a regular file within the
  -- limit.
  pub record IsOneFile (limit : ℕ) (bytes content : List ℕ) : Type 0 where
    pub member : Member
    pub only : members bytes ≡ some (member ∷ [])
    pub regular : member.is_file ≡ true
    pub bounded : member.size ≤ limit
    pub same_content : content ≡ member.content

  one_file-read :
      (limit : ℕ) (bytes : List ℕ) (ms : List Member) (s s' : State D) (content : List ℕ)
      → members bytes ≡ some ms
      → one_file limit ms s ≡ (returns content, s')
      → IsOneFile limit bytes content
  unfolding require pure ◌>>◌
  one_file-read limit bytes [] s s' content e h = absurd (ground arith)
  one_file-read limit bytes (m ∷ n ∷ ms) s s' content e h = absurd (ground arith)
  one_file-read limit bytes (m ∷ []) s s' content e h =
      let (u, s1, tested, h1) =
        bind-returns (raise_if (not m.is_file || ltb limit m.size) _) (λ u. pure m.content) s
          content s' h in
      let (fits, same_state) = raise_if-returns _ _ s s1 u tested in
      record {
        member = m;
        only = e;
        regular = ground arith;
        bounded = ground arith;
        same_content = ground arith;
      }

  content_of-read :
      (limit : ℕ) (bytes : List ℕ) (code : ℕ) (s s' : State D) (content : List ℕ)
      → content_of limit bytes code s ≡ (returns content, s')
      → ((code ≢ 0) × (content ≡ [])) ⊎ ((code ≡ 0) × IsOneFile limit bytes content)
  unfolding pure
  content_of-read limit bytes code s s' content h = elim (Bool-cases (code == 0)) [
    | inl done ↦
        let opened : (require (members bytes) other_error >>= one_file limit) s
            ≡ (returns content, s') =
          ground arith in
        let (ms, s1, parsed, h1) =
          bind-returns (require (members bytes) other_error) (one_file limit) s content s' opened in
        inr (
          ==→≡ code 0 done,
          one_file-read limit bytes ms s1 s' content
              (require-returns (members bytes) other_error s s1 ms parsed) h1,
        )
    | inr failed ↦ inl ((λ e. ground arith), ground arith)
  ]

  -- What `read_file` gives comes from a copy that ended in time and wrote no more than the limit and
  -- 64 KiB. Either the copy failed, with an exit code other than 0, and nothing is given; or what it
  -- wrote is an archive of exactly one member, a regular file whose size is within the limit, and its
  -- content is given. Whatever else the container holds makes `read_file` raise.
  pub read_file-bounded :
      (name filename : String) (limit : ℕ) (s s' : State D) (content : List ℕ)
      → read_file name filename limit s ≡ (returns content, s')
      → (stream : Stream) × (code : ℕ) × ((cp name filename (limit + 65537) s.daemon).0
          ≡ some stream)
        × (length stream.bytes ≤ limit + 65536)
        × (stream.exit_code ≡ some code)
        × (((code ≢ 0) × (content ≡ [])) ⊎ ((code ≡ 0) × IsOneFile limit stream.bytes content))
  unfolding read_file copy ◌>>◌
  read_file-bounded name filename limit s s' content h =
      let (stream, s1, read, h1) =
        bind-returns (copy name filename (limit + 65537)) (checked_stream limit) s content s' h in
      let (u, s2, short, h2) =
        bind-returns (raise_if (ltb (limit + 65536) (length stream.bytes)) _)
          (λ u. require stream.exit_code other_error >>= content_of limit stream.bytes) s1 content
          s' h1 in
      let (code, s3, ended, h3) =
        bind-returns (require stream.exit_code other_error) (content_of limit stream.bytes) s2
          content s' h2 in
      let (few, same_state) = raise_if-returns _ _ s1 s2 u short in
      (
        stream,
        code,
        copied-stream s s1 (cp name filename (limit + 65537) s.daemon) stream read,
        ground arith,
        require-returns stream.exit_code other_error s2 s3 code ended,
        content_of-read limit stream.bytes code s3 s' content h3,
      )
    where
      copied-stream :
          (s s1 : State D) (x : Option Stream × D) (stream : Stream)
          → copied s x ≡ (returns stream, s1)
          → x.0 ≡ some stream
      copied-stream s s1 (none, d) stream e = absurd (ground arith)
      copied-stream s s1 (some t, d) stream e = ground arith
