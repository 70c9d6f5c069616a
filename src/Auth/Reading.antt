-- ===== src/Auth/Reading.antt =====
-- Which issued tokens are read back.
use bantam_bank.Prelude.{◌≡◌, ◌↔◌, Option, List, arith}
use bantam_bank.Prelude.Text.{Text}
use bantam_bank.Domain.{Uuid, Time, Principal}
use bantam_bank.Errors.{ok}
use bantam_bank.Auth
use bantam_bank.Auth.{Claims, ParsedAccessToken, is_given, is_customer, same, seconds, second_of}

-- What `read_claims` gives for the token of a principal.
abbrev pub token_of : Time → Uuid → Principal → List Text → Option Time → ParsedAccessToken
token_of expires_at jti principal methods mfa_at = record {
  principal = principal;
  jti = jti;
  expires_at = seconds expires_at;
  auth_methods = methods;
  mfa_at = second_of mfa_at;
}

-- The two conditions that `read_claims` has and `issue` has not.
abbrev pub IsReadable : Principal → List Text → Option Time → Type 0
IsReadable principal methods mfa_at =
    (is_given mfa_at ≡ Auth.has_second_factor methods)
    × (is_customer principal.role ≡ is_given principal.customer_id)

-- The claims that issue gives are read back, with the principal, identifier, methods and times
-- that went in, exactly when an MFA time is given if and only if a second factor is among the
-- methods, and a customer identifier if and only if the role is that of a customer.
pub issue-read_claims :
    (ttl now : Time) (jti : Uuid) (principal : Principal) (methods : List Text)
    (mfa_at : Option Time) (claims : Claims) (expires_at : Time)
    → Auth.issue ttl now jti principal methods mfa_at ≡ ok (claims, expires_at)
    → (Auth.read_claims claims ≡ ok (token_of expires_at jti principal methods mfa_at))
      ↔ IsReadable principal methods mfa_at
unfolding Auth.issue Auth.read_claims
issue-read_claims ttl now jti principal methods mfa_at claims expires_at e =
    ((λ read. ground arith), (λ readable. ground arith))
