-- ===== src/Session/Tests.antt =====
-- The sessions of the administrator of Mfa.Tests, and the token that is read back.
use bantam_bank.Prelude.{◌≡◌, refl, ◌↔◌, none, some, [], ◌∷◌}
use bantam_bank.Prelude.Text.{codes}
use bantam_bank.Domain.{Time, Role, Principal}
use bantam_bank.Errors.{ok, err}
use bantam_bank.Auth
use bantam_bank.Auth.{Claims}
use bantam_bank.Auth.Reading.{IsReadable, token_of, issue-read_claims}
use bantam_bank.Mfa.Store.{MfaMethod}
use bantam_bank.Mfa.Tests.{
  mfa, tables, completion, credential, by_app, by_key, app_completes, key_completes,
}
use bantam_bank.Session
use bantam_bank.Session.Refused.{complete_passkey_refused, complete_totp_issued}
use Prim.Native.String.{String}

complete_passkey_refused_example :
    (raised : String) × ((Session.finish_mfa_session 600 901 7 (completion MfaMethod.passkey)).1
      ≡ err raised)
complete_passkey_refused_example =
    complete_passkey_refused mfa 90 900 600 901 70 7 credential tables by_key
      (completion MfaMethod.passkey) key_completes

complete_totp_issued_example :
    (claims : Claims) × (expires : Time) × ((Session.finish_mfa_session 600 901 7
        (completion MfaMethod.totp)).1
      ≡ ok (claims, expires))
unfolding Auth.is_allowed_role
complete_totp_issued_example =
    complete_totp_issued mfa 900 900 600 901 70 7 (codes "123456") tables by_app
      (completion MfaMethod.totp) app_completes refl

abbrev officer : Principal
officer = record { user_id = 15; role = Role.bank_admin; customer_id = none }

abbrev claims_of : Claims
claims_of = record {
  sub = 15;
  iat = 5;
  nbf = 5;
  exp = 65;
  jti = 7;
  role = Role.bank_admin;
  amr = codes "pwd" ∷ codes "otp" ∷ [];
  mfa_at = some 4;
  customer_id = none;
}

claims_issued :
    Auth.issue 60000000 5000000 7 officer (codes "pwd" ∷ codes "otp" ∷ []) (some 4000000)
    ≡ ok (claims_of, 65000000)
unfolding Auth.issue Auth.is_allowed_role Auth.are_methods Auth.has_second_factor
claims_issued = refl

issue-read_claims_example :
    (Auth.read_claims claims_of
      ≡ ok (token_of 65000000 7 officer (codes "pwd" ∷ codes "otp" ∷ []) (some 4000000)))
    ↔ IsReadable officer (codes "pwd" ∷ codes "otp" ∷ []) (some 4000000)
issue-read_claims_example =
    issue-read_claims 60000000 5000000 7 officer (codes "pwd" ∷ codes "otp" ∷ []) (some 4000000)
      claims_of 65000000 claims_issued
