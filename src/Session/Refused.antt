-- ===== src/Session/Refused.antt =====
-- Which ceremonies end in a session.
use bantam_bank.Prelude.{◌≡◌, true, Bool-cases, inl, inr, arith}
use bantam_bank.Prelude.Text.{Text}
use bantam_bank.Domain.{Uuid, Time}
use bantam_bank.Errors.{Outcome-cases, ok, err}
use bantam_bank.Auth
use bantam_bank.Auth.{Claims, ParsedAccessToken}
use bantam_bank.Mfa.Store.{MfaMethod, MfaDb, MfaService, Credential}
use bantam_bank.Mfa.Transactions.{MfaCompletion}
use bantam_bank.Mfa.Passkey
use bantam_bank.Mfa.Totp
use bantam_bank.Mfa.SingleUse.{complete_passkey-method, complete_totp-method}
use bantam_bank.Session
use Prim.Native.String.{String}
use bantam_bank.Session.{principal_of}

passkey_refused :
    (ttl now : Time) (jti : Uuid) (c : MfaCompletion)
    → c.method ≡ MfaMethod.passkey
    → (raised : String) × ((Session.finish_mfa_session ttl now jti c).1 ≡ err raised)
unfolding Session.finish_mfa_session Auth.issue Auth.are_methods
passkey_refused ttl now jti c m = elim (Bool-cases (Auth.is_allowed_role c.role)) [
  | inl allowed ↦ ("invalid authentication methods", ground arith)
  | inr other ↦ ("unknown role", ground arith)
]

totp_issued :
    (ttl now : Time) (jti : Uuid) (c : MfaCompletion)
    → c.method ≡ MfaMethod.totp
    → Auth.is_allowed_role c.role ≡ true
    → (claims : Claims) × (expires : Time) × ((Session.finish_mfa_session ttl now jti c).1
        ≡ ok (claims, expires))
unfolding Session.finish_mfa_session Auth.issue Auth.are_methods Auth.has_second_factor
totp_issued ttl now jti c m allowed =
    elim (Outcome-cases (Session.finish_mfa_session ttl now jti c).1) [
      | inl ((claims, expires), issued) ↦ (claims, expires, issued)
      | inr (raised, failed) ↦ absurd (ground arith)
    ]

-- Whatever completion complete_passkey returns, finish_mfa_session raises an error for it instead
-- of issuing a session.
pub complete_passkey_refused :
    (mfa : MfaService) (new_id : Uuid) (now ttl later : Time) (id jti : Uuid)
    (credential : Credential) (db db' : MfaDb) (c : MfaCompletion)
    → Passkey.complete_passkey mfa new_id now id credential db ≡ (ok c, db')
    → (raised : String) × ((Session.finish_mfa_session ttl later jti c).1 ≡ err raised)
complete_passkey_refused mfa new_id now ttl later id jti credential db db' c e =
    passkey_refused ttl later jti c
      (complete_passkey-method mfa new_id now id credential db db' c e)

-- For a completion that complete_totp returns, finish_mfa_session issues a session wherever the
-- role of the user is allowed to have one.
pub complete_totp_issued :
    (mfa : MfaService) (now unix ttl later : Time) (id jti : Uuid) (code : Text) (db db' : MfaDb)
    (c : MfaCompletion)
    → Totp.complete_totp mfa now unix id code db ≡ (ok c, db')
    → Auth.is_allowed_role c.role ≡ true
    → (claims : Claims) × (expires : Time) × ((Session.finish_mfa_session ttl later jti c).1
        ≡ ok (claims, expires))
complete_totp_issued mfa now unix ttl later id jti code db db' c e allowed =
    totp_issued ttl later jti c (complete_totp-method mfa now unix id code db db' c e) allowed
