-- ===== src/Config/Secrets.antt =====
-- bantam/config.py: the tests of the secrets in `Settings.validate`.
use bantam_bank.Prelude.{
  ltb, ◌==◌, not, ◌&&◌, ◌||◌, length, Bool, Option, none, some, List, [], ◌∷◌,
}
use bantam_bank.Prelude.Text.{Text}
use bantam_bank.Errors.{ok, ◌>>=◌, ◌>>◌, or_raise}
use bantam_bank.Config.{
  ConfigError, Config, same_text, development, refuse_if, Platform, Settings, is_text, one_of,
  production, development_mfa_key, distinct,
}
use Prim.Native.String.{String}

-- KNOWN_DEVELOPMENT_SECRETS
abbrev pub known_development_secrets : List String
known_development_secrets =
    "local-development-jwt-secret-change-me" ∷ "local-development-sca-secret-change-me"
    ∷ "local-compose-jwt-secret-change-before-deploying"
    ∷ "local-compose-sca-secret-change-before-deploying"
    ∷ "local-compose-jwt-secret-for-development-only-2026"
    ∷ "local-compose-sca-secret-for-development-only-2026"
    ∷ "local-compose-claims-secret-for-development-only-2026"
    ∷ "replace-with-at-least-32-random-characters" ∷ "replace-with-a-separate-random-secret"
    ∷ "replace-with-a-third-independent-random-secret" ∷ []

unfoldable pub is_known : Text → Bool
unfolding one_of
is_known secret = one_of secret known_development_secrets

-- The body of the loop over the secrets.
unfoldable pub check_secret :
    {N : Type 0} → Platform N → Settings N → String → Text → Config (Unit {0})
check_secret platform s name value = do
  refuse_if (ltb (platform.encoded_length value) 32) name
  refuse_if (not (development s) && is_known value) name
  refuse_if (production s && ltb (distinct value) 8) name

unfoldable pub check_secrets : {N : Type 0} → Platform N → Settings N → Config (Unit {0})
unfolding check_secret
check_secrets platform s = do
  check_secret platform s "JWT_SECRET" s.jwt_secret
  check_secret platform s "SCA_SECRET" s.sca_secret
  check_secret platform s "CLAIMS_SECRET" s.claims_secret
  refuse_if
      (same_text s.jwt_secret s.sca_secret
        || same_text s.jwt_secret s.claims_secret
        || same_text s.sca_secret s.claims_secret)
      "JWT_SECRET"

abbrev pub is_signing_secret : {N : Type 0} → Settings N → Text → Bool
is_signing_secret s key =
    same_text key s.jwt_secret || same_text key s.sca_secret || same_text key s.claims_secret

unfoldable pub check_key : {N : Type 0} → Platform N → Settings N → Option Text → Config (Unit {0})
check_key platform s none = ok tt
check_key platform s (some key) = do
  bytes ← or_raise (platform.b64decode key) (ConfigError.value_error "MFA_ENCRYPTION_KEY")
  refuse_if (not (length bytes == 32)) "MFA_ENCRYPTION_KEY"
  refuse_if (not (development s) && is_text key development_mfa_key) "MFA_ENCRYPTION_KEY"
  refuse_if (production s && ltb (distinct bytes) 8) "MFA_ENCRYPTION_KEY"
  refuse_if (is_signing_secret s key) "MFA_ENCRYPTION_KEY"
