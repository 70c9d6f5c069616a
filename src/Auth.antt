-- ===== src/Auth.antt =====
-- bantam/auth.py: the claims of a session token. PyJWT's signature, expiry, audience and issuer
-- checks are a parameter: `decode` gives the claims of a token that passes them.
use bantam_bank.Prelude.{
  ℕ, ◌+◌, ◌/◌, Bool, true, false, not, ◌&&◌, ◌||◌, ◌==◌, ltb, length, any, all, select, Option,
  none, some, List, [], ◌∷◌, if◌then◌else◌,
}
use bantam_bank.Prelude.Text.{Text, ◌==ₜ◌, codes}
use bantam_bank.Domain.{Uuid, Time, Role, Principal}
use bantam_bank.Errors.{Outcome, ok, err, ◌>>=◌, ◌>>◌, or_raise, raise_if}
use Prim.Native.String.{String}
pub mod Reading

-- ALLOWED_ROLES
unfoldable pub is_allowed_role : Role → Bool
is_allowed_role Role.pending_approval = false
is_allowed_role Role.service_account = false
is_allowed_role _ = true

abbrev pub is_customer : Role → Bool
is_customer Role.customer = true
is_customer _ = false

-- `name in names`
abbrev pub has : Text → List Text → Bool
has name names = any (λ other. other ==ₜ name) names

-- `len(set(names)) == len(names)`
abbrev pub is_distinct : List Text → Bool
is_distinct [] = true
is_distinct (name ∷ names) = not (has name names) && is_distinct names

-- `{"webauthn", "otp"} & set(auth_methods)`
unfoldable pub has_second_factor : List Text → Bool
has_second_factor methods = has (codes "webauthn") methods || has (codes "otp") methods

abbrev is_known_method : Text → Bool
is_known_method m = (m ==ₜ codes "pwd") || (m ==ₜ codes "webauthn") || (m ==ₜ codes "otp")

-- The test on the methods, which `issue` and `parse_with_claims` share.
unfoldable pub are_methods : List Text → Bool
are_methods methods =
    not (length methods == 0)
    && has (codes "pwd") methods
    && all is_known_method methods
    && is_distinct methods

-- A NumericDate: whole seconds.
abbrev pub seconds : Time → ℕ
seconds t = t / 1000000

pub record Claims : Type 0 where
  pub sub : Uuid
  pub iat : ℕ
  pub nbf : ℕ
  pub exp : ℕ
  pub jti : Uuid
  pub role : Role
  pub amr : List Text
  pub mfa_at : Option ℕ
  pub customer_id : Option Uuid

abbrev pub is_given {ℓ} : {A : Type ℓ} → Option A → Bool
is_given (some _) = true
is_given none = false

abbrev pub second_of : Option Time → Option ℕ
second_of none = none
second_of (some t) = some (seconds t)

-- `AuthService.issue` up to the encoding, with the draw of the token's identifier: the claims and
-- the expiry. What it raises is a `ValueError`.
unfoldable pub issue :
    (ttl : Time)
    → (now : Time) → (jti : Uuid) → Principal
    → (auth_methods : List Text) → (mfa_at : Option Time) → Outcome String (Claims × Time)
issue ttl now jti principal auth_methods mfa_at = do
  raise_if (not (is_allowed_role principal.role)) "unknown role"
  raise_if (not (are_methods auth_methods)) "invalid authentication methods"
  raise_if (is_given mfa_at && not (has_second_factor auth_methods)) "invalid MFA timestamp"
  let expires_at = now + ttl
  ok (
    record {
      sub = principal.user_id;
      iat = seconds now;
      nbf = seconds now;
      exp = seconds expires_at;
      jti = jti;
      role = principal.role;
      amr = auth_methods;
      mfa_at = second_of mfa_at;
      customer_id = principal.customer_id;
    },
    expires_at,
  )

-- `ParsedAccessToken`
pub record ParsedAccessToken : Type 0 where
  pub principal : Principal
  pub jti : Uuid
  pub expires_at : ℕ
  pub auth_methods : List Text
  pub mfa_at : Option ℕ

abbrev pub same : Bool → Bool → Bool
same true b = b
same false b = not b

-- The checks of `parse_with_claims` on the decoded claims.
unfoldable pub read_claims : Claims → Outcome String ParsedAccessToken
read_claims claims = do
  raise_if (not (is_allowed_role claims.role)) "unknown role"
  raise_if (not (are_methods claims.amr)) "invalid authentication methods"
  raise_if (not (same (is_given claims.mfa_at) (has_second_factor claims.amr)))
      "invalid MFA timestamp"
  raise_if (not (same (is_customer claims.role) (is_given claims.customer_id)))
      "customer identity does not match role"
  ok (record {
    principal = record {
      user_id = claims.sub;
      role = claims.role;
      customer_id = claims.customer_id;
    };
    jti = claims.jti;
    expires_at = claims.exp;
    auth_methods = claims.amr;
    mfa_at = claims.mfa_at;
  })

abbrev pub invalid_token : String
invalid_token = "invalid access token"

-- Whatever raises inside the `try` of `parse_with_claims` leaves as the same error.
abbrev pub hidden {ℓ} : {A : Type ℓ} → Outcome String A → Outcome String A
hidden (err _) = err invalid_token
hidden (ok a) = ok a

-- A row of session_revocations.
pub record Revoked : Type 0 where
  pub jti : Uuid
  pub user_id : Uuid
  pub expires_at : ℕ

abbrev pub is_revoked : ℕ → Uuid → List Revoked → Bool
is_revoked now jti rows = any (λ (r : Revoked). (r.jti == jti) && ltb now r.expires_at) rows

-- `parse_with_claims`, with the list of revocations and the time.
unfoldable pub parse_with_claims :
    (decode : Text → Option Claims)
    → (now : ℕ) → List Revoked
    → (raw_token : Text) → Outcome String ParsedAccessToken
unfolding read_claims
parse_with_claims decode now revocations raw_token = do
  raise_if (ltb 4096 (length raw_token)) invalid_token
  claims ← or_raise (decode raw_token) invalid_token
  parsed ← hidden (read_claims claims)
  raise_if (is_revoked now parsed.jti revocations) invalid_token
  ok parsed

abbrev pub unexpired : ℕ → List Revoked → List Revoked
unexpired now rows = select (λ (r : Revoked). ltb now r.expires_at) rows

-- `revoke_access_token`: expired rows are deleted, and the token's is added once.
unfoldable pub revoke_access_token : (now : ℕ) → ParsedAccessToken → List Revoked → List Revoked
revoke_access_token now token rows =
    let kept = unexpired now rows in
    if any (λ (r : Revoked). r.jti == token.jti) kept
    then kept
    else record {
      jti = token.jti;
      user_id = token.principal.user_id;
      expires_at = token.expires_at;
    }
      ∷ kept
