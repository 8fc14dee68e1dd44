-- ===== src/Validation.antt =====
-- Settings that are checked when they are read: those of S3 (`Settings.storage_valid` of
-- apps/api/agentbenchx/config.py).
use agent_bench_x.Prelude.{
  ℕ, String, Bool, true, false, not, ◌&&◌, Option, none, some, List, [], ◌∷◌, ◌==◌, is_some,
  if◌then◌else◌,
}
use agent_bench_x.Git.{Url}

pub record StorageSettings : Type 0 where
  -- `storage_backend == "s3"`
  pub is_s3 : Bool
  -- Whether the value is there and is not empty.
  pub s3_bucket : Bool
  pub s3_access_key_id : Bool
  pub s3_secret_access_key : Bool
  -- The endpoint as `urlsplit` reads it, if there is one.
  pub s3_endpoint_url : Option Url

abbrev is_root : List ℕ → Bool
is_root [] = true
is_root (c ∷ []) = c == b'/'
is_root _ = false

abbrev is_origin : Option Url → Bool
is_origin none = true
is_origin (some u) =
    u.is_https
    && is_some u.hostname
    && not u.has_username
    && not u.has_password
    && not u.has_query
    && not u.has_fragment
    && is_root u.path

-- The message of the `ValueError`; `none` if the settings are kept.
unfoldable pub storage_valid : StorageSettings → Option String
storage_valid settings =
    if not settings.is_s3
    then none
    else if not (settings.s3_bucket && settings.s3_access_key_id && settings.s3_secret_access_key)
    then some "S3 storage requires bucket and server-side credentials"
    else if not (is_origin settings.s3_endpoint_url)
    then some "S3 endpoint must be an HTTPS origin without credentials or paths"
    else none
