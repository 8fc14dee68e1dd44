-- ===== src/Tests/Starts.antt =====
-- A worker that starts twice.
use agent_bench_x.Prelude.{◌*◌, ◌≡◌, refl, String, true, false, Option, none, some, [], ◌∷◌}
use agent_bench_x.Models.{second}
use agent_bench_x.IdleSchedule.{init}
use agent_bench_x.IdleSchedule.Bounds.{IsBounded, empties}
use agent_bench_x.WorkerStart.{
  WorkerSettings, passes, value_error, is_set, valid, Saved, Identity, identity,
}
use agent_bench_x.WorkerStart.Settled.{valid-IsBounded, identity_again}
use agent_bench_x.Tests.Renewals.{middle, middle-IsUniform}

abbrev settings : WorkerSettings
settings = record {
  server_url = "https://a";
  origin = record {
    is_http = true;
    hostname = true;
    username = false;
    password = false;
    query = false;
    fragment = false;
    is_root = true;
  };
  worker_id = none;
  worker_token = none;
  worker_poll_interval = 5 * second;
  worker_idle_poll_min_seconds = none;
  worker_idle_poll_max_seconds = none;
  worker_idle_heartbeat_seconds = 45 * second;
  workspace_root = [];
}

abbrev settled : WorkerSettings
settled = record settings {
  worker_idle_poll_min_seconds = some (5 * second);
  worker_idle_poll_max_seconds = some (30 * second);
}

valid-run : valid settings ≡ passes settled
unfolding valid
valid-run = refl

valid-refused :
    valid (record settings { worker_id = some "w" })
    ≡ value_error "Set WORKER_ID and WORKER_TOKEN together, or use saved credentials"
unfolding valid
valid-refused = refl

abbrev who : Identity
who = ("w", "t")

abbrev same_id : String → Option String
same_id id = some id

abbrev saved : Saved
saved = record {
  is_symlink = false;
  is_private = true;
  id = "w";
  token = "t";
  server_url = "https://a";
}

identity-run : identity same_id settings none (some who) ≡ (passes who, some saved)
unfolding identity
identity-run = refl

identity_again_example :
    (some who ≡ some who) × (identity same_id settings (some saved) none ≡ (passes who, some saved))
identity_again_example =
    identity_again same_id settings (some who) none who (some saved) refl identity-run refl

valid-IsBounded_example :
    IsBounded (
      empties middle middle-IsUniform
        (init (5 * second) (30 * second) (45 * second))
        (100 ∷ 200 ∷ []))
    × (is_set settled.worker_id ≡ is_set settled.worker_token)
valid-IsBounded_example =
    valid-IsBounded middle middle-IsUniform settings settled (100 ∷ 200 ∷ []) valid-run
