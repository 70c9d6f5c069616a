-- ===== src/Config/Strict.antt =====
-- bantam/config.py: what is given in the environment is what the settings hold.
use bantam_bank.Prelude.{◌≡◌, refl, Bool, false, arith, subst}
use bantam_bank.Prelude.Text.{Text, strip}
use bantam_bank.Errors.{ok}
use bantam_bank.Config.{Platform, Settings, is_text}
use bantam_bank.Config.Reading.{Env, getenv}
use bantam_bank.Config.Environment
use bantam_bank.Config.Environment.{Values, Lifetimes, Bounds, Switches, Thresholds, Pool}
use Prim.Native.String.{String}
use bantam_bank.Config.{development}
use bantam_bank.Config.Hardened.{from_env_parts}
use bantam_bank.Config.Timely.{read_values_parts}
use bantam_bank.Config.Given.{
  IsSwitch, IsNumber, IsDuration, integer-IsNumber, boolean-IsSwitch, duration-IsDuration,
}

-- The text that `_duration` parses.
abbrev pub duration_text : Env → (name default : String) → Text
duration_text env name default = strip (strip (getenv env name default))

pub record IsPoolRead {N : Type 0} (platform : Platform N) (env : Env) (p : Pool) : Type 0 where
  pub pool_min : IsNumber platform (env "DATABASE_POOL_MIN_SIZE") 1 p.pool_min
  pub pool_max : IsNumber platform (env "DATABASE_POOL_MAX_SIZE") 8 p.pool_max

pub record AreLifetimesRead {N : Type 0} (platform : Platform N) (env : Env) (l : Lifetimes)
    : Type 0 where
  pub transaction_ttl :
      IsDuration platform (duration_text env "MFA_TRANSACTION_TTL" "5m") l.transaction_ttl
  pub step_up_ttl : IsDuration platform (duration_text env "MFA_STEP_UP_TTL" "5m") l.step_up_ttl
  pub jwt_ttl : IsDuration platform (duration_text env "JWT_TTL" "15m") l.jwt_ttl
  pub sca_ttl : IsDuration platform (duration_text env "SCA_TTL" "5m") l.sca_ttl

pub record AreThresholdsRead {N : Type 0} (platform : Platform N) (env : Env) (t : Thresholds)
    : Type 0 where
  pub sca_threshold : IsNumber platform (env "SCA_THRESHOLD_MINOR") 500000 t.sca_threshold
  pub risk_threshold : IsNumber platform (env "RISK_THRESHOLD_MINOR") 500000 t.risk_threshold
  pub demo_mode : IsSwitch platform (env "DEMO_MODE") false t.demo_mode
  pub poll_interval :
      IsDuration platform (duration_text env "OUTBOX_POLL_INTERVAL" "1s") t.poll_interval

pub record AreBoundsRead {N : Type 0} (platform : Platform N) (env : Env) (b : Bounds N)
    : Type 0 where
  pub body_limit : IsNumber platform (env "REQUEST_BODY_LIMIT_BYTES") 1048576 b.body_limit
  pub account_max : IsNumber platform (env "AUTH_ACCOUNT_RATE_LIMIT_MAX") 10 b.account_max
  pub ip_max : IsNumber platform (env "AUTH_IP_RATE_LIMIT_MAX") 50 b.ip_max
  pub window : IsDuration platform (duration_text env "AUTH_RATE_LIMIT_WINDOW" "5m") b.window

pub record AreSwitchesRead {N : Type 0} (platform : Platform N) (env : Env) (developing : Bool)
    (w : Switches) : Type 0 where
  pub demo_seed : IsSwitch platform (env "ALLOW_DEMO_SEED") developing w.demo_seed
  pub api_docs : IsSwitch platform (env "API_DOCS_ENABLED") developing w.api_docs
  pub migrations : IsSwitch platform (env "RUN_MIGRATIONS_ON_STARTUP") developing w.migrations
  pub live_runner : IsSwitch platform (env "ASVS_LIVE_RUNNER_ENABLED") false w.live_runner
  pub ai_generator : IsSwitch platform (env "ASVS_AI_GENERATOR_ENABLED") false w.ai_generator

read_pool-IsPoolRead :
    {N : Type 0} (platform : Platform N) (env : Env) (p : Pool)
    → Environment.read_pool platform env ≡ ok p
    → IsPoolRead platform env p
unfolding Environment.read_pool
read_pool-IsPoolRead platform env p e = record {
  pool_min =
      integer-IsNumber platform env "DATABASE_POOL_MIN_SIZE" 1 p.pool_min (ground (arith, e));
  pool_max =
      integer-IsNumber platform env "DATABASE_POOL_MAX_SIZE" 8 p.pool_max (ground (arith, e));
}

read_lifetimes-AreLifetimesRead :
    {N : Type 0} (platform : Platform N) (env : Env) (l : Lifetimes)
    → Environment.read_lifetimes platform env ≡ ok l
    → AreLifetimesRead platform env l
unfolding Environment.read_lifetimes
read_lifetimes-AreLifetimesRead platform env l e = record {
  transaction_ttl =
      duration-IsDuration platform env "MFA_TRANSACTION_TTL" "5m" l.transaction_ttl
        (ground (arith, e));
  step_up_ttl =
      duration-IsDuration platform env "MFA_STEP_UP_TTL" "5m" l.step_up_ttl (ground (arith, e));
  jwt_ttl = duration-IsDuration platform env "JWT_TTL" "15m" l.jwt_ttl (ground (arith, e));
  sca_ttl = duration-IsDuration platform env "SCA_TTL" "5m" l.sca_ttl (ground (arith, e));
}

read_thresholds-AreThresholdsRead :
    {N : Type 0} (platform : Platform N) (env : Env) (t : Thresholds)
    → Environment.read_thresholds platform env ≡ ok t
    → AreThresholdsRead platform env t
unfolding Environment.read_thresholds
read_thresholds-AreThresholdsRead platform env t e = record {
  sca_threshold =
      integer-IsNumber platform env "SCA_THRESHOLD_MINOR" 500000 t.sca_threshold
        (ground (arith, e));
  risk_threshold =
      integer-IsNumber platform env "RISK_THRESHOLD_MINOR" 500000 t.risk_threshold
        (ground (arith, e));
  demo_mode = boolean-IsSwitch platform env "DEMO_MODE" false t.demo_mode (ground (arith, e));
  poll_interval =
      duration-IsDuration platform env "OUTBOX_POLL_INTERVAL" "1s" t.poll_interval
        (ground (arith, e));
}

read_bounds-AreBoundsRead :
    {N : Type 0} (platform : Platform N) (env : Env) (b : Bounds N)
    → Environment.read_bounds platform env ≡ ok b
    → AreBoundsRead platform env b
unfolding Environment.read_bounds
read_bounds-AreBoundsRead platform env b e = record {
  body_limit =
      integer-IsNumber platform env "REQUEST_BODY_LIMIT_BYTES" 1048576 b.body_limit
        (ground (arith, e));
  account_max =
      integer-IsNumber platform env "AUTH_ACCOUNT_RATE_LIMIT_MAX" 10 b.account_max
        (ground (arith, e));
  ip_max = integer-IsNumber platform env "AUTH_IP_RATE_LIMIT_MAX" 50 b.ip_max (ground (arith, e));
  window =
      duration-IsDuration platform env "AUTH_RATE_LIMIT_WINDOW" "5m" b.window (ground (arith, e));
}

read_switches-AreSwitchesRead :
    {N : Type 0} (platform : Platform N) (env : Env) (developing : Bool) (w : Switches)
    → Environment.read_switches platform env developing ≡ ok w
    → AreSwitchesRead platform env developing w
unfolding Environment.read_switches
read_switches-AreSwitchesRead platform env developing w e = record {
  demo_seed =
      boolean-IsSwitch platform env "ALLOW_DEMO_SEED" developing w.demo_seed (ground (arith, e));
  api_docs =
      boolean-IsSwitch platform env "API_DOCS_ENABLED" developing w.api_docs (ground (arith, e));
  migrations =
      boolean-IsSwitch platform env "RUN_MIGRATIONS_ON_STARTUP" developing w.migrations
        (ground (arith, e));
  live_runner =
      boolean-IsSwitch platform env "ASVS_LIVE_RUNNER_ENABLED" false w.live_runner
        (ground (arith, e));
  ai_generator =
      boolean-IsSwitch platform env "ASVS_AI_GENERATOR_ENABLED" false w.ai_generator
        (ground (arith, e));
}

-- The parts of the settings that are read.
abbrev pub pool_of : {N : Type 0} → Settings N → Pool
pool_of s = record { pool_min = s.database_pool_min_size; pool_max = s.database_pool_max_size }

abbrev pub lifetimes_of : {N : Type 0} → Settings N → Lifetimes
lifetimes_of s = record {
  transaction_ttl = s.mfa_transaction_ttl;
  step_up_ttl = s.mfa_step_up_ttl;
  jwt_ttl = s.jwt_ttl;
  sca_ttl = s.sca_ttl;
}

abbrev pub thresholds_of : {N : Type 0} → Settings N → Thresholds
thresholds_of s = record {
  sca_threshold = s.sca_threshold_minor;
  risk_threshold = s.risk_threshold_minor;
  demo_mode = s.demo_mode;
  poll_interval = s.outbox_poll_interval;
}

abbrev pub bounds_of : {N : Type 0} → Settings N → Bounds N
bounds_of s = record {
  body_limit = s.request_body_limit_bytes;
  account_max = s.auth_account_rate_limit_max;
  ip_max = s.auth_ip_rate_limit_max;
  window = s.auth_rate_limit_window;
  proxies = s.trusted_proxy_cidrs;
}

abbrev pub switches_of : {N : Type 0} → Settings N → Switches
switches_of s = record {
  demo_seed = s.allow_demo_seed;
  api_docs = s.enable_api_docs;
  migrations = s.run_migrations_on_startup;
  live_runner = s.asvs_live_runner_enabled;
  ai_generator = s.asvs_ai_generator_enabled;
}

pub record IsStrict {N : Type 0} (platform : Platform N) (env : Env) (s : Settings N) : Type 0 where
  pub environment : s.environment ≡ platform.lower (strip (getenv env "APP_ENV" ""))
  pub pool : IsPoolRead platform env (pool_of s)
  pub lifetimes : AreLifetimesRead platform env (lifetimes_of s)
  pub thresholds : AreThresholdsRead platform env (thresholds_of s)
  pub bounds : AreBoundsRead platform env (bounds_of s)
  pub switches : AreSwitchesRead platform env (development s) (switches_of s)

settings_of-IsStrict :
    {N : Type 0} (platform : Platform N) (env : Env) (v : Values N)
    → let environment = platform.lower (strip (getenv env "APP_ENV" "")) in
      Environment.read_values platform env (is_text environment "development") ≡ ok v
      → IsStrict platform env (Environment.settings_of platform env environment v)
unfolding Environment.settings_of
settings_of-IsStrict platform env v e =
    let environment = platform.lower (strip (getenv env "APP_ENV" "")) in
    let developing = is_text environment "development" in
    let (pool, lifetimes, thresholds, bounds, switches) =
      read_values_parts platform env developing v e in
    record {
      environment = refl;
      pool = read_pool-IsPoolRead platform env v.pool pool;
      lifetimes = read_lifetimes-AreLifetimesRead platform env v.lifetimes lifetimes;
      thresholds = read_thresholds-AreThresholdsRead platform env v.thresholds thresholds;
      bounds = read_bounds-AreBoundsRead platform env v.bounds bounds;
      switches = read_switches-AreSwitchesRead platform env developing v.switches switches;
    }

-- When from_env returns settings, the environment is APP_ENV, trimmed and in lower case, every
-- switch that the environment gives is one of the eight words and has that word's value, every
-- duration is decimal digits and one of the four units and has their product, which is not zero,
-- every number is what int makes of its text, and only what is not given has its default.
pub from_env-IsStrict :
    {N : Type 0} (platform : Platform N) (env : Env) (s : Settings N)
    → Environment.from_env platform env ≡ ok s
    → IsStrict platform env s
unfolding Environment.from_env
from_env-IsStrict platform env s e =
    let environment = platform.lower (strip (getenv env "APP_ENV" "")) in
    let (v, read, same, passes) =
      from_env_parts platform env environment s
        (Environment.read_values platform env (is_text environment "development")) e in
    subst (IsStrict platform env) same (settings_of-IsStrict platform env v read)
