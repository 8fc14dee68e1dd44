-- ===== src/Manager/Workers/Access.antt =====
-- Who passes `worker_auth`, and what an idle heartbeat reports.
use agent_bench_x.Prelude.{ℕ, ◌≡◌, ◌↔◌, refl, String, some, arith, str_eq_iff}
use agent_bench_x.Models.{Worker}
use agent_bench_x.Manager.Tables.{Tables, ok, get_worker}
use agent_bench_x.Manager.Workers.{Authorization, bearer_token, worker_auth}

module _ (sha256 : String → String) where
  -- Exactly the requests that bear a token with the digest of the worker's row pass.
  pub worker_auth_iff :
      (id : ℕ) (authorization : Authorization) (db : Tables) (worker : Worker)
      → (worker_auth sha256 id authorization db ≡ ok worker) ↔ (
          (get_worker id db ≡ some worker)
          × ((token : String) × (authorization ≡ bearer_token token)
              × (sha256 token ≡ worker.token_hash)))
  worker_auth_iff id authorization db worker = (passed authorization, passes)
    where
      passed :
          (a : Authorization)
          → worker_auth sha256 id a db ≡ ok worker
          → (get_worker id db ≡ some worker)
            × ((token : String) × (a ≡ bearer_token token) × (sha256 token ≡ worker.token_hash))
      passed (Authorization.other) h = unfold worker_auth in absurd (ground arith)
      passed (bearer_token token) h =
          unfold worker_auth in
          (ground arith, (token, refl, ground (arith, str_eq_iff (sha256 token) worker.token_hash)))

      passes :
          (get_worker id db ≡ some worker)
            × ((token : String) × (authorization ≡ bearer_token token)
                × (sha256 token ≡ worker.token_hash))
          → worker_auth sha256 id authorization db ≡ ok worker
      passes (at, (token, bears, digest)) =
          unfold worker_auth in ground (arith, str_eq_iff (sha256 token) worker.token_hash)
