-- ===== src/Config/Environment.antt =====
-- bantam/config.py: `Settings.from_env`.
use bantam_bank.Prelude.{ℤ, Bool, false, List, [], if◌then◌else◌}
use bantam_bank.Prelude.Text.{Text, codes, strip}
use bantam_bank.Domain.{Time}
use bantam_bank.Errors.{ok, ◌>>=◌, ◌>>◌}
use bantam_bank.Config.{Config, Platform, Settings, is_text, development_mfa_key}
use bantam_bank.Config.Validation.{validate}
use bantam_bank.Config.Reading.{
  Env, getenv, duration, integer, boolean, csv, optional, or_text, networks,
}

-- What `Settings.from_env` reads with a test of its own, in its order.
pub record Pool : Type 0 where
  pub pool_min : ℤ
  pub pool_max : ℤ

unfoldable pub read_pool : {N : Type 0} → Platform N → Env → Config Pool
unfolding integer
read_pool platform env = do
  pool_min ← integer platform env "DATABASE_POOL_MIN_SIZE" 1
  pool_max ← integer platform env "DATABASE_POOL_MAX_SIZE" 8
  ok (record { pool_min = pool_min; pool_max = pool_max })

pub record Lifetimes : Type 0 where
  pub transaction_ttl : Time
  pub step_up_ttl : Time
  pub jwt_ttl : Time
  pub sca_ttl : Time

unfoldable pub read_lifetimes : {N : Type 0} → Platform N → Env → Config Lifetimes
unfolding duration
read_lifetimes platform env = do
  transaction_ttl ← duration platform env "MFA_TRANSACTION_TTL" "5m"
  step_up_ttl ← duration platform env "MFA_STEP_UP_TTL" "5m"
  jwt_ttl ← duration platform env "JWT_TTL" "15m"
  sca_ttl ← duration platform env "SCA_TTL" "5m"
  ok (record {
    transaction_ttl = transaction_ttl;
    step_up_ttl = step_up_ttl;
    jwt_ttl = jwt_ttl;
    sca_ttl = sca_ttl;
  })

pub record Thresholds : Type 0 where
  pub sca_threshold : ℤ
  pub risk_threshold : ℤ
  pub demo_mode : Bool
  pub poll_interval : Time

unfoldable pub read_thresholds : {N : Type 0} → Platform N → Env → Config Thresholds
unfolding duration integer boolean
read_thresholds platform env = do
  sca_threshold ← integer platform env "SCA_THRESHOLD_MINOR" 500000
  risk_threshold ← integer platform env "RISK_THRESHOLD_MINOR" 500000
  demo_mode ← boolean platform env "DEMO_MODE" false
  poll_interval ← duration platform env "OUTBOX_POLL_INTERVAL" "1s"
  ok (record {
    sca_threshold = sca_threshold;
    risk_threshold = risk_threshold;
    demo_mode = demo_mode;
    poll_interval = poll_interval;
  })

pub record Bounds (N : Type 0) : Type 0 where
  pub body_limit : ℤ
  pub account_max : ℤ
  pub ip_max : ℤ
  pub window : Time
  pub proxies : List N

unfoldable pub read_bounds : {N : Type 0} → Platform N → Env → Config (Bounds N)
unfolding duration integer csv
read_bounds platform env = do
  body_limit ← integer platform env "REQUEST_BODY_LIMIT_BYTES" 1048576
  account_max ← integer platform env "AUTH_ACCOUNT_RATE_LIMIT_MAX" 10
  ip_max ← integer platform env "AUTH_IP_RATE_LIMIT_MAX" 50
  window ← duration platform env "AUTH_RATE_LIMIT_WINDOW" "5m"
  proxies ← networks platform (csv env "TRUSTED_PROXY_CIDRS")
  ok (record {
    body_limit = body_limit;
    account_max = account_max;
    ip_max = ip_max;
    window = window;
    proxies = proxies;
  })

pub record Switches : Type 0 where
  pub demo_seed : Bool
  pub api_docs : Bool
  pub migrations : Bool
  pub live_runner : Bool
  pub ai_generator : Bool

unfoldable pub read_switches :
    {N : Type 0} → Platform N → Env → (developing : Bool) → Config Switches
unfolding boolean
read_switches platform env developing = do
  demo_seed ← boolean platform env "ALLOW_DEMO_SEED" developing
  api_docs ← boolean platform env "API_DOCS_ENABLED" developing
  migrations ← boolean platform env "RUN_MIGRATIONS_ON_STARTUP" developing
  live_runner ← boolean platform env "ASVS_LIVE_RUNNER_ENABLED" false
  ai_generator ← boolean platform env "ASVS_AI_GENERATOR_ENABLED" false
  ok (record {
    demo_seed = demo_seed;
    api_docs = api_docs;
    migrations = migrations;
    live_runner = live_runner;
    ai_generator = ai_generator;
  })

pub record Values (N : Type 0) : Type 0 where
  pub pool : Pool
  pub lifetimes : Lifetimes
  pub thresholds : Thresholds
  pub bounds : Bounds N
  pub switches : Switches

unfoldable pub read_values :
    {N : Type 0} → Platform N → Env → (developing : Bool) → Config (Values N)
unfolding read_pool read_lifetimes read_thresholds read_bounds read_switches
read_values platform env developing = do
  pool ← read_pool platform env
  lifetimes ← read_lifetimes platform env
  thresholds ← read_thresholds platform env
  bounds ← read_bounds platform env
  switches ← read_switches platform env developing
  ok (record {
    pool = pool;
    lifetimes = lifetimes;
    thresholds = thresholds;
    bounds = bounds;
    switches = switches;
  })

-- The settings, with what has been read.
unfoldable pub settings_of :
    {N : Type 0} → Platform N → Env → (environment : Text) → Values N → Settings N
unfolding csv
settings_of platform env environment v = record {
  environment = environment;
  http_addr = strip (getenv env "HTTP_ADDR" ":8080");
  database_url = strip (getenv env "DATABASE_URL" "");
  database_connection_mode =
      platform.lower (strip (getenv env "DATABASE_CONNECTION_MODE" "direct"));
  database_pool_min_size = v.pool.pool_min;
  database_pool_max_size = v.pool.pool_max;
  nats_url = strip (getenv env "NATS_URL" "nats://localhost:4222");
  event_bus = platform.lower (strip (getenv env "EVENT_BUS" "nats"));
  pubsub_project_id = optional (
      or_text (getenv env "PUBSUB_PROJECT_ID" "")
        (or_text (getenv env "GOOGLE_CLOUD_PROJECT" "") (getenv env "GCP_PROJECT" "")));
  pubsub_topic = optional (getenv env "PUBSUB_TOPIC" "");
  pubsub_risk_subscription = optional (getenv env "PUBSUB_RISK_SUBSCRIPTION" "");
  pubsub_notification_subscription = optional (getenv env "PUBSUB_NOTIFICATION_SUBSCRIPTION" "");
  jwt_secret = getenv env "JWT_SECRET" "";
  sca_secret = getenv env "SCA_SECRET" "";
  claims_secret = getenv env "CLAIMS_SECRET" "";
  mfa_encryption_key = optional (
      or_text (getenv env "MFA_ENCRYPTION_KEY" "")
        (if is_text environment "development" then codes development_mfa_key else []));
  mfa_transaction_ttl = v.lifetimes.transaction_ttl;
  mfa_step_up_ttl = v.lifetimes.step_up_ttl;
  webauthn_rp_id = optional (getenv env "WEBAUTHN_RP_ID" "");
  webauthn_rp_name = or_text (strip (getenv env "WEBAUTHN_RP_NAME" "Bantam")) (codes "Bantam");
  webauthn_allowed_origins = csv env "WEBAUTHN_ALLOWED_ORIGINS";
  jwt_ttl = v.lifetimes.jwt_ttl;
  sca_ttl = v.lifetimes.sca_ttl;
  sca_threshold_minor = v.thresholds.sca_threshold;
  risk_threshold_minor = v.thresholds.risk_threshold;
  demo_mode = v.thresholds.demo_mode;
  outbox_poll_interval = v.thresholds.poll_interval;
  request_body_limit_bytes = v.bounds.body_limit;
  auth_account_rate_limit_max = v.bounds.account_max;
  auth_ip_rate_limit_max = v.bounds.ip_max;
  auth_rate_limit_window = v.bounds.window;
  trusted_proxy_cidrs = v.bounds.proxies;
  allowed_hosts = csv env "ALLOWED_HOSTS";
  allow_demo_seed = v.switches.demo_seed;
  enable_api_docs = v.switches.api_docs;
  run_migrations_on_startup = v.switches.migrations;
  migration_runtime_grantee = optional (getenv env "MIGRATION_RUNTIME_GRANTEE" "");
  asvs_live_runner_enabled = v.switches.live_runner;
  asvs_target_commit =
      or_text (strip (getenv env "ASVS_TARGET_COMMIT" "unversioned")) (codes "unversioned");
  asvs_ai_generator_enabled = v.switches.ai_generator;
  aspis_mistral_api_key = optional (getenv env "ASPIS_MISTRAL_API_KEY" "");
  workflow_github_token = optional (getenv env "WORKFLOW_GITHUB_TOKEN" "");
  super_admin_email = optional (
      platform.lower (
        strip (
          or_text (getenv env "BANTAM_SUPER_ADMIN_EMAIL" "") (getenv env "SUPER_ADMIN_EMAIL" ""))));
  aspis_application_source_root =
      strip (getenv env "ASPIS_APPLICATION_SOURCE_ROOT" "/source-context/application");
  aspis_terraform_source_root =
      strip (getenv env "ASPIS_TERRAFORM_SOURCE_ROOT" "/source-context/terraform");
}

-- `Settings.from_env`
unfoldable pub from_env : {N : Type 0} → Platform N → Env → Config (Settings N)
unfolding read_values settings_of validate
from_env platform env =
    let environment = platform.lower (strip (getenv env "APP_ENV" "")) in
    do
      values ← read_values platform env (is_text environment "development")
      let settings = settings_of platform env environment values
      validate platform settings
      ok settings
