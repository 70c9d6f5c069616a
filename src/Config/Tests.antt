-- ===== src/Config/Tests.antt =====
-- A process in production, and settings that stop it.
use bantam_bank.Prelude.{
  ℕ, ℤ, pos, ◌+◌, ◌*◌, ◌-◌, ◌≡◌, refl, leb, ◌&&◌, Bool, true, false, Option, none, some, List, [],
  ◌∷◌, length, map, all, if◌then◌else◌,
}
use bantam_bank.Prelude.Text.{Text, ◌==ₜ◌, codes, strip}
use bantam_bank.Errors.{ok, err}
use bantam_bank.Config.{is_text, one_of, same_text, distinct, ConfigError, Url, Platform, Settings}
use bantam_bank.Config.Secrets.{is_known}
use bantam_bank.Config.Hosts.{is_host_name}
use bantam_bank.Config.Validation.{is_bounded_key, is_bounded_email, is_bounded_path}
use bantam_bank.Config.Reading
use bantam_bank.Config.Reading.{Env}
use bantam_bank.Config.Environment
use bantam_bank.Config.Environment.{Values}
use bantam_bank.Config.Policy.{IsHardened}
use bantam_bank.Config.Hardened.{from_env-IsHardened}
use bantam_bank.Config.Strict.{IsStrict, from_env-IsStrict}
use Prim.Native.String.{String}

abbrev is_digit : ℕ → Bool
is_digit c = leb b'0' c && leb c b'9'

abbrev number_from : ℕ → Text → ℕ
number_from n [] = n
number_from n (c ∷ text) = number_from (10 * n + (c - b'0')) text

abbrev number : Text → Option ℕ
number [] = none
number (c ∷ text) = if all is_digit (c ∷ text) then some (number_from 0 (c ∷ text)) else none

abbrev signless : Option ℕ → Option ℤ
signless none = none
signless (some n) = some (pos n)

abbrev look_up {ℓ} : {A : Type ℓ} → List (String × A) → Text → Option A
look_up [] text = none
look_up ((name, a) ∷ table) text =
    let rest = look_up table text in if codes name ==ₜ text then some a else rest

abbrev address : (scheme host query : String) → Url
address scheme host query = record {
  scheme = codes scheme;
  has_userinfo = false;
  hostname = some (codes host);
  path = [];
  query = codes query;
  fragment = [];
}

abbrev platform : Platform ℕ
platform = record {
  lower = map (λ c. if leb b'A' c && leb c b'Z' then c + 32 else c);
  encoded_length = length;
  is_decimal = is_digit;
  int = λ text. signless (number text);
  decimal = number;
  b64decode = λ text. some text;
  urlsplit = look_up (
      ("pg://db", address "postgresql" "db" "verify-full")
      ∷ ("tls://nats", address "tls" "nats" "")
      ∷ ("https://bank.example", address "https" "bank.example" "")
      ∷ []);
  sslmode = λ query. query ∷ [];
  isabs = λ path. true;
  ip_network = number;
}

abbrev variables : List (String × String)
variables =
    ("APP_ENV", " Production ")
    ∷ ("DATABASE_URL", "pg://db")
    ∷ ("NATS_URL", "tls://nats")
    ∷ ("JWT_SECRET", "jwt-abcdefghijklmnopqrstuvwxyz-0123")
    ∷ ("SCA_SECRET", "sca-abcdefghijklmnopqrstuvwxyz-0123")
    ∷ ("CLAIMS_SECRET", "claims-abcdefghijklmnopqrstuvwxyz-0123")
    ∷ ("MFA_ENCRYPTION_KEY", "0123456789abcdefghijklmnopqrstuv")
    ∷ ("WEBAUTHN_RP_ID", "bank.example")
    ∷ ("WEBAUTHN_ALLOWED_ORIGINS", "https://bank.example")
    ∷ ("ALLOWED_HOSTS", "bank.example, www.bank.example")
    ∷ ("JWT_TTL", "30m")
    ∷ ("TRUSTED_PROXY_CIDRS", "10")
    ∷ []

abbrev env_of : List (String × String) → Env
env_of table name = elim (look_up table (codes name)) [
  | none ↦ none
  | some text ↦ some (codes text)
]

abbrev values : Values ℕ
values = record {
  pool = record { pool_min = pos 1; pool_max = pos 8 };
  lifetimes = record {
    transaction_ttl = 300000000;
    step_up_ttl = 300000000;
    jwt_ttl = 1800000000;
    sca_ttl = 300000000;
  };
  thresholds = record {
    sca_threshold = pos 500000;
    risk_threshold = pos 500000;
    demo_mode = false;
    poll_interval = 1000000;
  };
  bounds = record {
    body_limit = pos 1048576;
    account_max = pos 10;
    ip_max = pos 50;
    window = 300000000;
    proxies = 10 ∷ [];
  };
  switches = record {
    demo_seed = false;
    api_docs = false;
    migrations = false;
    live_runner = false;
    ai_generator = false;
  };
}

abbrev settings : Settings ℕ
settings = Environment.settings_of platform (env_of variables) (codes "production") values

starts : Environment.from_env platform (env_of variables) ≡ ok settings
unfolding Environment.from_env strip one_of is_known distinct same_text is_host_name is_bounded_key
    is_bounded_email is_bounded_path
starts = refl

-- A misspelled switch, a switch that is for development only, and a lifetime that is too long.
misspelled :
    Environment.from_env platform (env_of (("DEMO_MODE", "flase") ∷ variables))
    ≡ err (ConfigError.value_error "DEMO_MODE")
unfolding Environment.from_env strip one_of
misspelled = refl

demonstration :
    Environment.from_env platform (env_of (("DEMO_MODE", "ON") ∷ variables))
    ≡ err (ConfigError.value_error "DEMO_MODE")
unfolding Environment.from_env strip one_of is_known distinct same_text is_host_name
demonstration = refl

too_long :
    Environment.from_env platform (env_of (("SCA_TTL", "11m") ∷ variables))
    ≡ err (ConfigError.value_error "SCA_TTL")
unfolding Environment.from_env strip one_of is_known distinct same_text is_host_name is_bounded_key
    is_bounded_email is_bounded_path
too_long = refl

-- More hours than a `timedelta` holds.
overflown :
    Reading.duration platform (env_of (("SCA_TTL", "24000000000h") ∷ [])) "SCA_TTL" "5m"
    ≡ err ConfigError.overflow_error
unfolding Reading.duration strip
overflown = refl

from_env-IsHardened_example : IsHardened platform settings
unfolding is_text Environment.settings_of
from_env-IsHardened_example = from_env-IsHardened platform (env_of variables) settings starts refl

from_env-IsStrict_example : IsStrict platform (env_of variables) settings
from_env-IsStrict_example = from_env-IsStrict platform (env_of variables) settings starts
