-- ===== src/WorkerStart/Settled.antt =====
-- What holds of settings that pass, and of identities (workers/evaluator/config.py and main.py).
use agent_bench_x.Prelude.{
  ℕ, ◌≤◌, ◌≡◌, refl, sym, ap, subst, ◌∙◌, String, true, false, Option, none, some, List, [], ◌∷◌,
  arith, str_eq_refl,
}
use agent_bench_x.Models.{Moment}
use agent_bench_x.IdleSchedule.{IdleSchedule, IsUniform, init, empty}
use agent_bench_x.IdleSchedule.Bounds.{IsBounded, empty_bounds, empties}
use agent_bench_x.WorkerStart.{
  WorkerSettings, passes, least, most, is_set, valid, Saved, Identity, registered, without_id,
  with_id, identity,
}

valid-delays :
    (s s' : WorkerSettings)
    → valid s ≡ passes s'
    → (s'.worker_idle_poll_min_seconds ≡ some (least s))
      × (s'.worker_idle_poll_max_seconds ≡ some (most s))
      × (least s ≤ most s)
      × (is_set s'.worker_id ≡ is_set s'.worker_token)
unfolding valid
valid-delays s s' h = (ground arith, ground arith, ground arith, ground arith)

empties-IsBounded :
    (uniform : ℕ → ℕ → ℕ) (fair : IsUniform uniform) (s : IdleSchedule) (moments : List Moment)
    → IsBounded s
    → IsBounded (empties uniform fair s moments)
empties-IsBounded uniform fair s [] b = b
empties-IsBounded uniform fair s (now ∷ moments) b =
    let (low, high, from, to, doubled, bounded) = empty_bounds uniform fair s now b in
    empties-IsBounded uniform fair (empty uniform s now) moments bounded

-- Settings that pass give a schedule whose delay lies between their two bounds, however many polls find
-- nothing; and they have a worker's id exactly if they have its token.
pub valid-IsBounded :
    (uniform : ℕ → ℕ → ℕ) (fair : IsUniform uniform) (s s' : WorkerSettings) (moments : List Moment)
    → valid s ≡ passes s'
    → IsBounded
        (empties uniform fair (init (least s') (most s') s'.worker_idle_heartbeat_seconds) moments)
      × (is_set s'.worker_id ≡ is_set s'.worker_token)
unfolding init
valid-IsBounded uniform fair s s' moments h =
    let (from, to, ordered, both) = valid-delays s s' h in
    (
      empties-IsBounded uniform fair (init (least s') (most s') s'.worker_idle_heartbeat_seconds)
          moments (record { least = omega arith; most = rw (from, to) ordered }),
      both,
    )

with_id-unset :
    (uuid : String → Option String) (s : WorkerSettings) (o : Option String) (file : Option Saved)
    (answer : Option Identity)
    → is_set o ≡ false
    → with_id uuid s o file answer ≡ without_id uuid s file answer
with_id-unset uuid s none file answer h = refl
with_id-unset uuid s (some id) file answer h = ground arith

abbrev file_of : String → Identity → Option Saved
file_of server_url (id, token) = some (record {
  is_symlink = false;
  is_private = true;
  id = id;
  token = token;
  server_url = server_url;
})

-- A file that a registration has written is read again.
reads :
    (uuid : String → Option String) (s : WorkerSettings) (answer : Option Identity)
    (id token : String)
    → uuid id ≡ some id
    → without_id uuid s (file_of s.server_url (id, token)) answer
      ≡ (passes (id, token), file_of s.server_url (id, token))
reads uuid s answer id token is_uuid = rw (str_eq_refl s.server_url, is_uuid) refl

-- A worker without an id in its settings registers once: it is what the server has answered, and when
-- it starts again it finds itself in the file, whatever the server would answer then, and leaves the
-- file as it is, as long as the server gives out UUIDs.
pub identity_again :
    (uuid : String → Option String) (s : WorkerSettings) (answer answer' : Option Identity)
    (who : Identity) (file : Option Saved)
    → is_set s.worker_id ≡ false
    → identity uuid s none answer ≡ (passes who, file)
    → uuid who.0 ≡ some who.0
    → (answer ≡ some who) × (identity uuid s file answer' ≡ (passes who, file))
unfolding identity
identity_again uuid s none answer' who file no_id h is_uuid =
    let first = with_id-unset uuid s s.worker_id none none no_id in absurd (ground arith)
identity_again uuid s (some (id, token)) answer' who file no_id h is_uuid =
    let first = with_id-unset uuid s s.worker_id none (some (id, token)) no_id in
    let again = with_id-unset uuid s s.worker_id file answer' no_id in
    let ran : registered uuid s.server_url (some (id, token)) ≡ (passes who, file) =
      sym first ∙ h in
    let same_who : (id, token) ≡ who = ground arith in
    let same_file : file_of s.server_url (id, token) ≡ file = ground arith in
    (
      ap some same_who,
      again
          ∙ subst (λ f. without_id uuid s f answer' ≡ (passes who, f))
              (ap (file_of s.server_url) (sym same_who) ∙ same_file)
              (subst
                (λ w.
                  uuid w.0 ≡ some w.0
                  → without_id uuid s (file_of s.server_url w) answer'
                    ≡ (passes w, file_of s.server_url w))
                same_who (reads uuid s answer' id token) is_uuid),
    )
