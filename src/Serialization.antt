-- ===== src/Serialization.antt =====
-- `serialize` of apps/api/agentbenchx/services.py: the columns of a row that a reply shows.
use agent_bench_x.Prelude.{String, Bool, ◌||◌, List, [], ◌∷◌, str_eq, if◌then◌else◌}

-- The columns that stay in the database.
abbrev is_hidden : String → Bool
is_hidden key =
    str_eq key "token_hash"
    || str_eq key "lease_token"
    || str_eq key "storage_path"
    || str_eq key "last_event"

unfoldable pub serialize {ℓ} : {A : Type ℓ} → List (String × A) → List (String × A)
serialize [] = []
serialize ((key, value) ∷ columns) =
    let rest = serialize columns in if is_hidden key then rest else (key, value) ∷ rest
