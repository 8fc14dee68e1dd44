-- ===== src/Tests/Runs.antt =====
-- Operations on single inputs.
use agent_bench_x.Prelude.{ℕ, ◌≡◌, refl, true, false, none, some, [], ◌∷◌, find_first}
use agent_bench_x.Manager.Tables.{err, http}
use agent_bench_x.Manager.Workers.{bearer_token, admin}
use agent_bench_x.Storage.{
  returns, raises, Error, delete, head, open_file, s3_open, s3_delete, logical_key, split,
  split_from, same,
}
use agent_bench_x.Git.{is_sha, checkout, read_file, get_current_commit}
use agent_bench_x.Junit.Text.{contains, starts_with}
use agent_bench_x.Serialization.{serialize}
use agent_bench_x.Inputs.{Workspace, workspace}
use agent_bench_x.Validation.{storage_valid}
use agent_bench_x.LeaseKeeper.{init, renewal_round, renew, renew_loop, watch}
use agent_bench_x.IdleSchedule.{startup_delay}
use agent_bench_x.Tests.Backends.{key, inside, digest, client, stored}
use agent_bench_x.Tests.Renewals.{idle, middle, keeper, refused}
use agent_bench_x.Tests.Sources.{sha, rev_parse}

admin-run : admin "root" (bearer_token "guest") ≡ err (http 403 "Invalid administrator token")
unfolding admin
admin-run = refl

head-run :
    head inside digest key (record { key = key; content = 1 ∷ [] } ∷ [])
    ≡ returns (record { content_length = some 1; sha256 = some "digest" })
unfolding head open_file logical_key split split_from same find_first
head-run = refl

delete-run : delete inside key (record { key = key; content = 1 ∷ [] } ∷ []) ≡ (returns tt, [])
unfolding delete logical_key split split_from same
delete-run = refl

-- "../x" is no key.
delete-refused : delete inside (b'.' ∷ b'.' ∷ b'/' ∷ b'x' ∷ []) [] ≡ (raises Error.value_error, [])
unfolding delete logical_key split split_from same
delete-refused = refl

s3_open-run :
    s3_open client digest key stored ≡ raises (Error.storage_error "Object storage read failed")
unfolding s3_open logical_key split split_from same
s3_open-run = refl

s3_delete-run : s3_delete client digest key stored ≡ (returns tt, none)
unfolding s3_delete logical_key split split_from same
s3_delete-run = refl

checkout-run : checkout rev_parse (b'd' ∷ b'e' ∷ b'v' ∷ []) ≡ some sha
unfolding checkout get_current_commit is_sha contains starts_with
checkout-run = refl

checkout-refused : checkout rev_parse (b'a' ∷ b'.' ∷ b'.' ∷ []) ≡ none
unfolding checkout get_current_commit is_sha contains starts_with
checkout-refused = refl

read_file-run : read_file (some 1000001) (some []) ≡ none
unfolding read_file
read_file-run = refl

storage_valid-run :
    storage_valid (record {
      is_s3 = true;
      s3_bucket = true;
      s3_access_key_id = true;
      s3_secret_access_key = true;
      s3_endpoint_url = none;
    })
    ≡ none
unfolding storage_valid
storage_valid-run = refl

init-run : init 0 60 10000000 ≡ keeper
init-run = refl

renewal_round-run : (renewal_round (refused ∷ []) keeper).cancel ≡ true
unfolding renewal_round renew renew_loop
renewal_round-run = refl

watch-run : (watch 45000000 keeper).cancel ≡ true
unfolding watch
watch-run = refl

startup_delay-run : startup_delay middle idle ≡ 2500000
unfolding startup_delay
startup_delay-run = refl

serialize-run :
    serialize {A = ℕ} (("id", 1) ∷ ("token_hash", 2) ∷ ("name", 3) ∷ ("lease_token", 4) ∷ [])
    ≡ ("id", 1) ∷ ("name", 3) ∷ []
unfolding serialize
serialize-run = refl

workspace-run : workspace (λ job. false) 3 (2 ∷ 3 ∷ []) ≡ Workspace.exists
unfolding workspace
workspace-run = refl
