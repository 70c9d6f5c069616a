-- ===== src/Config/Policy.antt =====
-- What a process that runs in production has to be: the policy that bantam/config.py enforces.
use bantam_bank.Prelude.{
  ℕ, ◌≤◌, ◌<◌, pos, ◌≤ℤ◌, ◌≡◌, ◌≢◌, ◌⊎◌, any, length, All, true, false, Option, none, some, List,
  [],
}
use bantam_bank.Prelude.Text.{Text}
use bantam_bank.Errors.{ok}
use bantam_bank.Config.{
  Url, Platform, Settings, is_text, same_text, development_mfa_key, distinct, secure_cookies,
}
use bantam_bank.Config.Secrets.{is_known}
use bantam_bank.Config.Hosts
use bantam_bank.Config.Hosts.{is_host, is_host_name, is_loopback, only_is}
use bantam_bank.Config.Validation
use bantam_bank.Config.Validation.{minutes}

-- A signing secret: 32 bytes, none that was published, 8 different characters.
pub record IsSecret {N : Type 0} (platform : Platform N) (secret : Text) : Type 0 where
  pub long : 32 ≤ platform.encoded_length secret
  pub private : is_known secret ≡ false
  pub varied : 8 ≤ distinct secret

-- The key of the second factors, if there is one: 32 bytes, with 8 different ones, neither
-- published nor one of the secrets.
abbrev pub IsKey : {N : Type 0} → Platform N → Settings N → Option Text → Type 0
IsKey platform s none = Unit {0}
IsKey platform s (some key) =
    ((bytes : List ℕ) × (platform.b64decode key ≡ some bytes)
      × (length bytes ≡ 32)
      × (8 ≤ distinct bytes))
    × (is_text key development_mfa_key ≡ false)
    × (same_text key s.jwt_secret ≡ false)
    × (same_text key s.sca_secret ≡ false)
    × (same_text key s.claims_secret ≡ false)

-- The origin is an HTTPS address of the host.
abbrev pub IsOriginOf : {N : Type 0} → Platform N → (rp_id origin : Text) → Type 0
IsOriginOf platform rp_id origin =
    (url : Url) × (platform.urlsplit origin ≡ some url)
    × (is_text url.scheme "https" ≡ true)
    × (is_host rp_id url.hostname ≡ true)
    × (url.has_userinfo ≡ false)

abbrev pub HasOrigins : {N : Type 0} → Platform N → Settings N → Option Text → Type 0
HasOrigins platform s none = s.webauthn_allowed_origins ≡ []
HasOrigins platform s (some rp_id) =
    (is_host_name rp_id ≡ true)
    × (s.webauthn_allowed_origins ≢ [])
    × All (IsOriginOf platform rp_id) s.webauthn_allowed_origins

-- The database is reached over TLS with a checked certificate, or over a local proxy.
abbrev pub IsPrivate : {N : Type 0} → Platform N → Url → Type 0
IsPrivate platform url =
    (only_is "verify-full" (platform.sslmode url.query) ≡ true)
    ⊎ ((is_loopback url.hostname ≡ true) × (only_is "disable" (platform.sslmode url.query) ≡ true))

-- Events go over Pub/Sub, with all of its names, or over NATS with TLS.
abbrev pub HasBus : {N : Type 0} → Platform N → Settings N → Type 0
HasBus platform s =
    ((is_text s.event_bus "pubsub" ≡ true) × (Validation.lacks_pubsub s ≡ false))
    ⊎ ((url : Url) × (platform.urlsplit s.nats_url ≡ some url) × (is_text url.scheme "tls" ≡ true))

pub record IsHardened {N : Type 0} (platform : Platform N) (s : Settings N) : Type 0 where
  pub no_demo : s.demo_mode ≡ false
  pub no_seed : s.allow_demo_seed ≡ false
  pub no_live_runner : s.asvs_live_runner_enabled ≡ false
  pub no_docs : s.enable_api_docs ≡ false
  pub no_migrations : s.run_migrations_on_startup ≡ false
  pub cookies : secure_cookies s ≡ true
  pub some_host : s.allowed_hosts ≢ []
  pub no_wildcard : any (λ host. is_text host "*") s.allowed_hosts ≡ false
  pub jwt_secret : IsSecret platform s.jwt_secret
  pub sca_secret : IsSecret platform s.sca_secret
  pub claims_secret : IsSecret platform s.claims_secret
  pub jwt_sca : same_text s.jwt_secret s.sca_secret ≡ false
  pub jwt_claims : same_text s.jwt_secret s.claims_secret ≡ false
  pub sca_claims : same_text s.sca_secret s.claims_secret ≡ false
  pub key : IsKey platform s s.mfa_encryption_key
  pub origins : HasOrigins platform s s.webauthn_rp_id
  pub database :
      (url : Url) × (platform.urlsplit s.database_url ≡ some url) × IsPrivate platform url
  pub bus : HasBus platform s
  pub pool :
      (pos 0 ≤ℤ s.database_pool_min_size) × (s.database_pool_min_size ≤ℤ s.database_pool_max_size)
  pub pool_limit : (pos 1 ≤ℤ s.database_pool_max_size) × (s.database_pool_max_size ≤ℤ pos 20)
  pub jwt_ttl : (0 < s.jwt_ttl) × (s.jwt_ttl ≤ minutes 60)
  pub transaction_ttl : (0 < s.mfa_transaction_ttl) × (s.mfa_transaction_ttl ≤ minutes 10)
  pub step_up_ttl : (0 < s.mfa_step_up_ttl) × (s.mfa_step_up_ttl ≤ minutes 10)
  pub sca_ttl : (0 < s.sca_ttl) × (s.sca_ttl ≤ minutes 10)
  pub window : (0 < s.auth_rate_limit_window) × (s.auth_rate_limit_window ≤ minutes 60)
  pub thresholds : (pos 1 ≤ℤ s.sca_threshold_minor) × (pos 1 ≤ℤ s.risk_threshold_minor)
  pub body_limit :
      (pos 1024 ≤ℤ s.request_body_limit_bytes) × (s.request_body_limit_bytes ≤ℤ pos 10485760)
  pub rate_limits :
      (pos 1 ≤ℤ s.auth_account_rate_limit_max)
      × (s.auth_account_rate_limit_max ≤ℤ s.auth_ip_rate_limit_max)
  pub port :
      (host : Text) × (n : ℕ) × (Hosts.uvicorn_address platform s.http_addr ≡ ok (host, pos n))
      × (1 ≤ n)
      × (n ≤ 65535)
