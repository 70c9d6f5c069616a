-- ===== src/Config/Validation.antt =====
-- bantam/config.py: `Settings.validate`, in the order of the source.
use bantam_bank.Prelude.{
  ℤ, ℕ, pos, leb_ℤ, ltb_ℤ, ◌==ℤ◌, leb, ltb, ◌*◌, ◌==◌, not, ◌&&◌, ◌||◌, any, length, Bool, true,
  false, Option, none, some, [], ◌∷◌, if◌then◌else◌,
}
use bantam_bank.Prelude.Text.{Text, is_space}
use bantam_bank.Domain.{Time}
use bantam_bank.Errors.{ok, ◌>>=◌, ◌>>◌}
use bantam_bank.Users.Registration.{is_email}
use bantam_bank.Config.{
  Config, is_none, is_empty, development, refuse_if, Platform, Settings, is_text, one_of,
  production,
}
use bantam_bank.Config.Secrets.{check_secrets, check_key}
use bantam_bank.Config.Hosts.{check_webauthn, check_transport, uvicorn_address}

-- `value is None` of one of the four names that Pub/Sub needs.
abbrev pub lacks_pubsub : {N : Type 0} → Settings N → Bool
lacks_pubsub s =
    is_none s.pubsub_project_id
    || is_none s.pubsub_topic
    || is_none s.pubsub_risk_subscription
    || is_none s.pubsub_notification_subscription

unfoldable pub check_pool : (min_size max_size : ℤ) → Config (Unit {0})
check_pool min_size max_size =
    refuse_if
      (ltb_ℤ min_size (pos 0)
        || (max_size ==ℤ pos 0)
        || ltb_ℤ max_size min_size
        || ltb_ℤ (pos 20) max_size)
      "DATABASE_POOL_MIN_SIZE"

-- The tests of the environment, the database's address and mode, and the bus.
unfoldable pub check_names : {N : Type 0} → Settings N → Config (Unit {0})
check_names s = do
  refuse_if (not (one_of s.environment ("development" ∷ "test" ∷ "production" ∷ []))) "APP_ENV"
  refuse_if (is_empty s.database_url) "DATABASE_URL"
  refuse_if (not (is_text s.event_bus "nats" || is_text s.event_bus "pubsub")) "EVENT_BUS"
  refuse_if (is_text s.event_bus "nats" && is_empty s.nats_url) "NATS_URL"
  refuse_if (is_text s.event_bus "pubsub" && lacks_pubsub s) "EVENT_BUS"
  refuse_if (not (one_of s.database_connection_mode ("direct" ∷ "cloud_sql_proxy" ∷ [])))
      "DATABASE_CONNECTION_MODE"

unfoldable pub check_services : {N : Type 0} → Settings N → Config (Unit {0})
unfolding check_names check_pool
check_services s = do check_names s; check_pool s.database_pool_min_size s.database_pool_max_size

unfoldable pub check_demo : {N : Type 0} → Settings N → Config (Unit {0})
check_demo s = do
  refuse_if (s.demo_mode && not (development s)) "DEMO_MODE"
  refuse_if (s.allow_demo_seed && not (development s)) "ALLOW_DEMO_SEED"
  refuse_if (s.asvs_live_runner_enabled && not (development s && s.demo_mode && s.allow_demo_seed))
      "ASVS_LIVE_RUNNER_ENABLED"

abbrev pub is_control : ℕ → Bool
is_control c = ltb c 32 || (c == 127)

unfoldable pub is_bounded_key : {N : Type 0} → Platform N → Option Text → Bool
unfolding is_space
is_bounded_key platform none = true
is_bounded_key platform (some key) =
    leb (platform.encoded_length key) 1024 && not (any is_space key) && not (any is_control key)

unfoldable pub is_bounded_email : Option Text → Bool
unfolding is_email
is_bounded_email none = true
is_bounded_email (some email) = leb (length email) 254 && is_email email

unfoldable pub is_bounded_path : {N : Type 0} → Platform N → Text → Bool
is_bounded_path platform path =
    not (is_empty path)
    && platform.isabs path
    && leb (platform.encoded_length path) 1024
    && not (any is_control path)

unfoldable pub check_tools : {N : Type 0} → Platform N → Settings N → Config (Unit {0})
check_tools platform s = do
  refuse_if (not (is_bounded_key platform s.aspis_mistral_api_key)) "ASPIS_MISTRAL_API_KEY"
  refuse_if (not (is_bounded_key platform s.workflow_github_token)) "WORKFLOW_GITHUB_TOKEN"
  refuse_if (not (is_bounded_email s.super_admin_email)) "BANTAM_SUPER_ADMIN_EMAIL"
  refuse_if (not (is_bounded_path platform s.aspis_application_source_root))
      "ASPIS_APPLICATION_SOURCE_ROOT"
  refuse_if (not (is_bounded_path platform s.aspis_terraform_source_root))
      "ASPIS_TERRAFORM_SOURCE_ROOT"
  refuse_if
      (is_empty s.asvs_target_commit
        || ltb 128 (length s.asvs_target_commit)
        || any is_control s.asvs_target_commit)
      "ASVS_TARGET_COMMIT"

abbrev pub has_nul : Option Text → Bool
has_nul none = false
has_nul (some text) = any (λ c. c == 0) text

unfoldable pub check_deployment : {N : Type 0} → Platform N → Settings N → Config (Unit {0})
unfolding check_transport
check_deployment platform s = do
  refuse_if (s.enable_api_docs && production s) "API_DOCS_ENABLED"
  refuse_if (s.run_migrations_on_startup && production s) "RUN_MIGRATIONS_ON_STARTUP"
  refuse_if (has_nul s.migration_runtime_grantee) "MIGRATION_RUNTIME_GRANTEE"
  refuse_if (production s && is_empty s.allowed_hosts) "ALLOWED_HOSTS"
  refuse_if (production s && any (λ host. is_text host "*") s.allowed_hosts) "ALLOWED_HOSTS"
  if production s then check_transport platform s else ok tt

-- `timedelta(minutes=n)`
abbrev pub minutes : ℕ → Time
minutes n = n * 60000000

unfoldable pub check_limits : {N : Type 0} → Settings N → Config (Unit {0})
check_limits s = do
  refuse_if (ltb (minutes 60) s.jwt_ttl) "JWT_TTL"
  refuse_if (ltb (minutes 10) s.mfa_transaction_ttl) "MFA_TRANSACTION_TTL"
  refuse_if (ltb (minutes 10) s.mfa_step_up_ttl) "MFA_STEP_UP_TTL"
  refuse_if (ltb (minutes 10) s.sca_ttl) "SCA_TTL"
  refuse_if (leb_ℤ s.sca_threshold_minor (pos 0) || leb_ℤ s.risk_threshold_minor (pos 0))
      "SCA_THRESHOLD_MINOR"
  refuse_if
      (ltb_ℤ s.request_body_limit_bytes (pos 1024)
        || ltb_ℤ (pos 10485760) s.request_body_limit_bytes)
      "REQUEST_BODY_LIMIT_BYTES"
  refuse_if (leb_ℤ s.auth_account_rate_limit_max (pos 0) || leb_ℤ s.auth_ip_rate_limit_max (pos 0))
      "AUTH_ACCOUNT_RATE_LIMIT_MAX"
  refuse_if (ltb_ℤ s.auth_ip_rate_limit_max s.auth_account_rate_limit_max)
      "AUTH_ACCOUNT_RATE_LIMIT_MAX"
  refuse_if (ltb (minutes 60) s.auth_rate_limit_window) "AUTH_RATE_LIMIT_WINDOW"

-- `validate`
unfoldable pub validate : {N : Type 0} → Platform N → Settings N → Config (Unit {0})
unfolding check_services check_secrets check_key check_webauthn check_demo check_tools
    check_deployment check_limits uvicorn_address
validate platform s = do
  check_services s
  check_secrets platform s
  check_key platform s s.mfa_encryption_key
  check_webauthn platform s
  check_demo s
  check_tools platform s
  check_deployment platform s
  check_limits s
  listening ← uvicorn_address platform s.http_addr
  ok tt
