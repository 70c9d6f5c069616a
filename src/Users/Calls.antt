-- ===== src/Users/Calls.antt =====
-- The handlers that change the accounts of users, behind their guards, and any list of requests to
-- them (bantam/api.py).
use bantam_bank.Prelude.{ℕ, ◌*◌, Option, none, some, List, [], ◌∷◌}
use bantam_bank.Prelude.Text.{Text}
use bantam_bank.Domain.{Uuid, Time, Role}
use bantam_bank.Errors.{Result, ok, ◌>>=◌, ◌>>◌}
use bantam_bank.Auth.{Claims, Revoked, ParsedAccessToken, seconds}
use bantam_bank.Bank.Reply.{Http, Stamp}
use bantam_bank.Passwords.{Python}
use bantam_bank.Users.{UserDb, Date}
use bantam_bank.Users.Access.{Credentials, authenticated_principal, require_roles}
use bantam_bank.Users.Registration.{
  Answer, on_ok, RegisterInput, Drawn, register, register_aspis_auditor,
}
use bantam_bank.Users.Administration.{
  Session, Decision, admin_create_user, decide_aspis_auditor_request,
}

-- The settings, and the libraries that the handlers call.
pub record Setup : Type 0 where
  pub python : Python
  pub decode : Text → Option Claims
  pub fromisoformat : Text → Option Date
  pub super_admin_email : Text
  pub mfa_step_up_ttl : Time

-- What a guarded request brings, with the list of revocations that its token is held against.
pub record Visitor : Type 0 where
  pub credentials : Credentials
  pub revocations : List Revoked
  pub http : Http
  pub stamp : Stamp

abbrev pub micros : Option ℕ → Option Time
micros none = none
micros (some s) = some (s * 1000000)

-- The dependency `authenticated_principal` of a handler.
unfoldable pub authenticated : Setup → Visitor → UserDb → Result ParsedAccessToken
authenticated setup v db =
    authenticated_principal setup.python setup.decode (seconds v.stamp.now) v.revocations
      v.credentials db

abbrev pub session_of : Setup → Visitor → ParsedAccessToken → Session
session_of setup v token = record {
  super_admin_email = setup.super_admin_email;
  mfa_step_up_ttl = setup.mfa_step_up_ttl;
  mfa_at = micros token.mfa_at;
  now = v.stamp.now;
  principal = token.principal;
}

-- The dependency `require_roles(...)` of a handler, and the session that the handler then reads.
unfoldable pub admitted : Setup → List Role → Visitor → UserDb → Result Session
unfolding authenticated
admitted setup roles v db = do
  token ← authenticated setup v db
  require_roles roles token.principal
  ok (session_of setup v token)

pub data Call : Type 0 where
  registering :
      (limited : Result (Unit {0})) (today : Date) (http : Http) (input : RegisterInput)
      (drawn : Drawn) (stamp : Stamp)
      → Call
  applying :
      (limited : Result (Unit {0})) (http : Http) (email password : Text) (drawn : Drawn)
      (stamp : Stamp)
      → Call
  creating :
      (visitor : Visitor) (email password : Text) (permissions : List Text) (user_id : Uuid) → Call
  deciding : (visitor : Visitor) (request_id : Uuid) (decision : Decision) (reason : Text) → Call

-- A request, served.
unfoldable pub serve : Setup → Call → UserDb → Answer
unfolding register register_aspis_auditor admin_create_user decide_aspis_auditor_request
serve setup (registering limited today http input drawn stamp) db =
    register setup.python setup.fromisoformat limited today http input drawn stamp db
serve setup (applying limited http email password drawn stamp) db =
    register_aspis_auditor setup.python limited http email password drawn stamp db
serve setup (creating v email password permissions id) db =
    on_ok db (admitted setup (Role.bank_admin ∷ []) v db) (λ session.
      admin_create_user setup.python session v.http email password permissions id v.stamp db)
serve setup (deciding v id decision reason) db =
    on_ok db (admitted setup (Role.bank_admin ∷ Role.aspis_admin ∷ []) v db) (λ session.
      decide_aspis_auditor_request setup.python session v.http id decision reason v.stamp db)

unfoldable pub run : Setup → List Call → UserDb → UserDb
unfolding serve
run setup [] db = db
run setup (c ∷ calls) db = run setup calls (serve setup c db).1
