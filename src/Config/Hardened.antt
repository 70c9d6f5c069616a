-- ===== src/Config/Hardened.antt =====
-- A process that starts in production is hardened, whatever its environment says.
use bantam_bank.Prelude.{◌<◌, ◌≡◌, refl, true, arith, subst}
use bantam_bank.Prelude.Text.{Text, strip}
use bantam_bank.Errors.{ok, err, ◌>>=◌, ◌>>◌}
use bantam_bank.Ledger.Written.{then_pass}
use bantam_bank.Config.{Config, Platform, Settings, is_text, production}
use bantam_bank.Config.Secrets
use bantam_bank.Config.Secrets.{is_known}
use bantam_bank.Config.Validation
use bantam_bank.Config.Validation.{minutes}
use bantam_bank.Config.Environment
use bantam_bank.Config.Policy.{IsHardened}
use bantam_bank.Config.Reading
use bantam_bank.Config.Reading.{Env}
use bantam_bank.Config.Environment.{Values, Lifetimes, Bounds}
use bantam_bank.Config.Checked.{
  production-not_development, check_secret-IsSecret, check_key-IsKey, check_rp_id-HasOrigins,
  check_transport-IsPrivate, check_transport-HasBus,
}
use bantam_bank.Config.Timely.{read_values-IsTimely}
use bantam_bank.Config.Passing.{
  Passes, passes_4, check_pool_bounds, validate-Passes, uvicorn_address-port,
}

module _ {N : Type 0} (platform : Platform N) (s : Settings N) (e : production s ≡ true) where
  last_service :
      Validation.check_services s ≡ ok tt
      → Validation.check_pool s.database_pool_min_size s.database_pool_max_size ≡ ok tt
  unfolding Validation.check_services
  last_service served =
      (then_pass (Validation.check_names s)
        (Validation.check_pool s.database_pool_min_size s.database_pool_max_size) tt served).1

  Passes-IsHardened :
      Passes platform s
      → (0 < s.jwt_ttl) × (0 < s.mfa_transaction_ttl) × (0 < s.mfa_step_up_ttl) × (0 < s.sca_ttl)
      → 0 < s.auth_rate_limit_window
      → IsHardened platform s
  unfolding Validation.check_services Secrets.check_secrets Validation.check_demo
      Validation.check_deployment Validation.check_limits
  Passes-IsHardened p positive window =
      let plain = production-not_development s e in
      let sizes =
        check_pool_bounds s.database_pool_min_size s.database_pool_max_size
          (last_service p.services) in
      let secrets =
        passes_4 (Secrets.check_secret platform s "JWT_SECRET" s.jwt_secret)
          (Secrets.check_secret platform s "SCA_SECRET" s.sca_secret)
          (Secrets.check_secret platform s "CLAIMS_SECRET" s.claims_secret) _ p.secrets in
      record {
        no_demo = ground (arith, plain, p.demo);
        no_seed = ground (arith, plain, p.demo);
        no_live_runner = ground (arith, plain, p.demo);
        no_docs = ground (arith, e, p.deployment);
        no_migrations = ground (arith, e, p.deployment);
        cookies = ground (arith, plain);
        some_host = λ empty. ground (arith, empty, e, p.deployment);
        no_wildcard = ground (arith, e, p.deployment);
        jwt_secret = check_secret-IsSecret platform s "JWT_SECRET" s.jwt_secret e secrets.0;
        sca_secret = check_secret-IsSecret platform s "SCA_SECRET" s.sca_secret e secrets.1;
        claims_secret =
            check_secret-IsSecret platform s "CLAIMS_SECRET" s.claims_secret e secrets.2;
        jwt_sca = ground (arith, secrets.3);
        jwt_claims = ground (arith, secrets.3);
        sca_claims = ground (arith, secrets.3);
        key = check_key-IsKey platform s e s.mfa_encryption_key p.key;
        origins = check_rp_id-HasOrigins platform s e p.webauthn;
        database = check_transport-IsPrivate platform s e (ground (arith, e, p.deployment));
        bus = check_transport-HasBus platform s e p.services (ground (arith, e, p.deployment));
        pool = (sizes.0, sizes.1);
        pool_limit = (sizes.2, sizes.3);
        jwt_ttl = (positive.0, ground (arith, p.limits));
        transaction_ttl = (positive.1, ground (arith, p.limits));
        step_up_ttl = (positive.2, ground (arith, p.limits));
        sca_ttl = (positive.3, ground (arith, p.limits));
        window = (window, ground (arith, p.limits));
        thresholds = ground (arith, p.limits);
        body_limit = ground (arith, p.limits);
        rate_limits = ground (arith, p.limits);
        port = uvicorn_address-port platform s.http_addr p.address.0 p.address.1;
      }

ok_inj : {A : Type 0} (a b : A) → let given : Config A = ok a in given ≡ ok b → a ≡ b
ok_inj a b e = ground (arith, e)

-- Settings that `from_env` gives are what it has read, and `validate` has passed them.
pub from_env_parts :
    {N : Type 0} (platform : Platform N) (env : Env) (environment : Text) (s : Settings N)
    (read : Config (Values N))
    → (do
      values ← read
      let settings = Environment.settings_of platform env environment values
      Validation.validate platform settings
      ok settings)
      ≡ ok s
    → (v : Values N) × (read ≡ ok v)
      × (Environment.settings_of platform env environment v ≡ s)
      × (Validation.validate platform s ≡ ok tt)
from_env_parts platform env environment s (err x) e = absurd (ground (arith, e))
from_env_parts platform env environment s (ok v) e =
    let settings = Environment.settings_of platform env environment v in
    let (passes, same) = then_pass (Validation.validate platform settings) (ok settings) s e in
    let given : settings ≡ s = ok_inj settings s same in
    (v, refl, given, subst (λ t. Validation.validate platform t ≡ ok tt) given passes)

-- When from_env returns settings whose environment is production, they follow the policy for
-- production: no demonstration code or seed, live runner, API documents or migrations at the start,
-- secure cookies, named hosts and no wildcard, three different signing secrets of at least 32 bytes
-- and 8 different characters of which none was published, an encryption key that is a key of 32
-- bytes of its own or none, passkey origins over HTTPS on the one host, a database over TLS with a
-- checked certificate or over a local proxy, events over Pub/Sub or over TLS, pools, lifetimes,
-- thresholds, body and rate limits within their bounds, and a port from 1 to 65535.
pub from_env-IsHardened :
    {N : Type 0} (platform : Platform N) (env : Env) (s : Settings N)
    → Environment.from_env platform env ≡ ok s
    → production s ≡ true
    → IsHardened platform s
unfolding Environment.from_env Environment.settings_of
from_env-IsHardened platform env s e strict =
    let environment = platform.lower (strip (Reading.getenv env "APP_ENV" "")) in
    let (v, read, same, passes) =
      from_env_parts platform env environment s
        (Environment.read_values platform env (is_text environment "development")) e in
    let timely = read_values-IsTimely platform env (is_text environment "development") v read in
    Passes-IsHardened platform s strict (validate-Passes platform s passes)
      (subst
        (λ t.
          (0 < t.jwt_ttl) × (0 < t.mfa_transaction_ttl) × (0 < t.mfa_step_up_ttl) × (0 < t.sca_ttl))
        same timely.lifetimes)
      (subst (λ t. 0 < t.auth_rate_limit_window) same timely.window)
