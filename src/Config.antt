-- ===== src/Config.antt =====
-- bantam/config.py: the settings of a process. A `ValueError` is the setting that it names. What
-- Python's libraries do to texts is the record `Platform`; a duration is in microseconds.
use bantam_bank.Prelude.{
  ℕ, suc, ◌==◌, any, not, Bool, true, false, Option, none, some, List, [], ◌∷◌, ℤ, if◌then◌else◌,
}
use bantam_bank.Prelude.Text.{Text, ◌==ₜ◌, codes}
use bantam_bank.Domain.{Time}
use bantam_bank.Errors.{Outcome, raise_if}
use Prim.Native.String.{String}
pub mod Secrets
pub mod Hosts
pub mod Validation
pub mod Reading
pub mod Environment
pub mod Policy
pub mod Checked
pub mod Timely
pub mod Passing
pub mod Hardened
pub mod Given
pub mod Strict
pub mod Tests

pub data ConfigError : Type 0 where
  value_error : (setting : String) → ConfigError
  overflow_error : ConfigError

abbrev pub Config : Type 0 → Type 0
Config A = Outcome ConfigError A

-- `if test: raise ValueError(...)`
abbrev pub refuse_if : (test : Bool) → (setting : String) → Config (Unit {0})
refuse_if test setting = raise_if test (ConfigError.value_error setting)

-- What `urlsplit` gives; `has_userinfo` is whether there is a user name or a password.
pub record Url : Type 0 where
  pub scheme : Text
  pub has_userinfo : Bool
  pub hostname : Option Text
  pub path : Text
  pub query : Text
  pub fragment : Text

-- `str.lower`, `len(text.encode())`, the characters that `\d` matches, `int` of a text and of the
-- digits of a match, `b64decode` of a URL-safe key, `urlsplit`, `parse_qs` for `sslmode`,
-- `os.path.isabs` and `ip_network`; none where the call raises a `ValueError`.
pub record Platform (Network : Type 0) : Type 0 where
  pub lower : Text → Text
  pub encoded_length : Text → ℕ
  pub is_decimal : ℕ → Bool
  pub int : Text → Option ℤ
  pub decimal : Text → Option ℕ
  pub b64decode : Text → Option (List ℕ)
  pub urlsplit : Text → Option Url
  pub sslmode : (query : Text) → List Text
  pub isabs : Text → Bool
  pub ip_network : Text → Option Network

pub record Settings (Network : Type 0) : Type 0 where
  pub environment : Text
  pub http_addr : Text
  pub database_url : Text
  pub database_connection_mode : Text
  pub database_pool_min_size : ℤ
  pub database_pool_max_size : ℤ
  pub nats_url : Text
  pub event_bus : Text
  pub pubsub_project_id : Option Text
  pub pubsub_topic : Option Text
  pub pubsub_risk_subscription : Option Text
  pub pubsub_notification_subscription : Option Text
  pub jwt_secret : Text
  pub sca_secret : Text
  pub claims_secret : Text
  pub mfa_encryption_key : Option Text
  pub mfa_transaction_ttl : Time
  pub mfa_step_up_ttl : Time
  pub webauthn_rp_id : Option Text
  pub webauthn_rp_name : Text
  pub webauthn_allowed_origins : List Text
  pub jwt_ttl : Time
  pub sca_ttl : Time
  pub sca_threshold_minor : ℤ
  pub risk_threshold_minor : ℤ
  pub demo_mode : Bool
  pub outbox_poll_interval : Time
  pub request_body_limit_bytes : ℤ
  pub auth_account_rate_limit_max : ℤ
  pub auth_ip_rate_limit_max : ℤ
  pub auth_rate_limit_window : Time
  pub trusted_proxy_cidrs : List Network
  pub allowed_hosts : List Text
  pub allow_demo_seed : Bool
  pub enable_api_docs : Bool
  pub run_migrations_on_startup : Bool
  pub migration_runtime_grantee : Option Text
  pub asvs_live_runner_enabled : Bool
  pub asvs_target_commit : Text
  pub asvs_ai_generator_enabled : Bool
  pub aspis_mistral_api_key : Option Text
  pub workflow_github_token : Option Text
  pub super_admin_email : Option Text
  pub aspis_application_source_root : Text
  pub aspis_terraform_source_root : Text

unfoldable pub is_text : Text → String → Bool
is_text text word = text ==ₜ codes word

unfoldable pub one_of : Text → List String → Bool
unfolding is_text
one_of text words = any (is_text text) words

abbrev pub is_none {ℓ} : {A : Type ℓ} → Option A → Bool
is_none none = true
is_none (some a) = false

abbrev pub is_empty {ℓ} : {A : Type ℓ} → List A → Bool
is_empty [] = true
is_empty (x ∷ xs) = false

-- A comparison of two texts.
unfoldable pub same_text : Text → Text → Bool
same_text a b = a ==ₜ b

abbrev pub development : {N : Type 0} → Settings N → Bool
development s = is_text s.environment "development"

-- `production`
abbrev pub production : {Network : Type 0} → Settings Network → Bool
production s = is_text s.environment "production"

-- `secure_cookies`
abbrev pub secure_cookies : {N : Type 0} → Settings N → Bool
secure_cookies s = not (development s)

-- _DEVELOPMENT_MFA_KEY
abbrev pub development_mfa_key : String
development_mfa_key = "AAAAAAAAAAAAAAAAAAAAAAAAAAAAAAAAAAAAAAAAAAA="

-- `len(set(text))`
unfoldable pub distinct : List ℕ → ℕ
distinct [] = 0
distinct (c ∷ text) = let rest = distinct text in if any (λ d. d == c) text then rest else suc rest
