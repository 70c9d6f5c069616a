-- ===== src/Users/PasswordLogin.antt =====
-- bantam/api.py: `login`, up to the cookies. Its statements are committed one by one.
use bantam_bank.Prelude.{◌&&◌, find?, Bool, Option, none, some, List, [], ◌∷◌, if◌then◌else◌}
use bantam_bank.Prelude.Text.{Text, ◌==ₜ◌, codes, strip}
use bantam_bank.Domain.{Uuid, Time, Principal}
use bantam_bank.Errors.{Error, Outcome, Result, ok, err}
use bantam_bank.Db.{Actor, Resource, MetaValue}
use bantam_bank.Audit.{AuditFields}
use bantam_bank.Auth
use bantam_bank.Auth.{Claims}
use bantam_bank.Ledger.Posting.{insert_audit}
use bantam_bank.Bank.Reply.{Http, Stamp, request_audit, http_error}
use bantam_bank.Mfa.Store.{MfaDb, MfaError, MfaService, User}
use bantam_bank.Mfa.Login
use bantam_bank.Mfa.Login.{LoginStep}
use bantam_bank.Passwords.{Python}
use bantam_bank.Users.{UserDb, UserAccount, is_active_user, is_pending_approval, in_bank}
use Prim.Native.String.{String}

-- The tables of accounts, and those of the second factors.
pub record LoginDb : Type 0 where
  pub tables : UserDb
  pub factors : MfaDb

-- `bcrypt.checkpw`, where an error counts as a mismatch, and the hash for an unknown address.
pub record PasswordCheck : Type 0 where
  pub checkpw : (password_hash password : Text) → Bool
  pub dummy_hash : Text

-- What the handler raises: its own errors, those of the service of factors, and `ValueError`.
pub data LoginError : Type 0 where
  raised : Error → LoginError
  factor_error : MfaError → LoginError
  value_error : String → LoginError

-- A step to take with a second factor, or the claims and the expiry of a session.
pub data LoginAnswer : Type 0 where
  next_step : LoginStep → LoginAnswer
  session : Claims × Time → LoginAnswer

abbrev pub LoginReply : Type 0
LoginReply = Outcome LoginError LoginAnswer × LoginDb

-- `password_hash_for_check`
abbrev pub hash_or : Text → Text → Text
hash_or dummy [] = dummy
hash_or dummy (c ∷ hash) = c ∷ hash

-- `valid`: the account of the address, if it is active and the password is its own.
unfoldable pub verify :
    PasswordCheck → (email password : Text) → List UserAccount → Option UserAccount
verify passwords email password users =
    elim (find? (λ (u : UserAccount). u.email ==ₜ email) users) [
      | none ↦ none
      | some u ↦
          if is_active_user u.status
            && passwords.checkpw (hash_or passwords.dummy_hash u.password_hash) password
          then some u
          else none
    ]

-- An audit row that is written, and what follows; where the row is refused, its error.
abbrev pub audited : AuditFields → Stamp → LoginDb → (UserDb → LoginReply) → LoginReply
audited fields s db rest =
    elim (in_bank (insert_audit fields s.audit_event_id s.now db.tables.bank) db.tables) [
      | err e ↦ (err (LoginError.raised e), db)
      | ok tables ↦ rest tables
    ]

abbrev pub failed_audit : Http → (email : Text) → AuditFields
failed_audit http email =
    record (request_audit http 0 "LOGIN_FAILED" "user_account" (Resource.address email)
      (("reason", MetaValue.literal "invalid_credentials") ∷ [])) { actor_id = Actor.address email }

abbrev pub user_audit : Http → Uuid → String → List (String × MetaValue) → AuditFields
user_audit http id action metadata =
    request_audit http id action "user_account" (Resource.row id) metadata

abbrev pub as_user : UserAccount → User
as_user u = record {
  user_id = u.user_id;
  customer_id = u.customer_id;
  role = u.role;
  active = is_active_user u.status;
  mfa_enabled = u.mfa_enabled;
}

abbrev pub principal_of : UserAccount → Principal
principal_of u = record { user_id = u.user_id; role = u.role; customer_id = u.customer_id }

-- `challenge["status"]`
abbrev pub status_of : LoginStep → String
status_of (LoginStep.mfa_required id methods expires_at) = "mfa_required"
status_of (LoginStep.mfa_enrollment_required id methods expires_at) = "mfa_enrollment_required"

-- `issue_session`, with the password as the only method.
abbrev pub issued :
    (ttl : Time) → (jti : Uuid) → Stamp → UserAccount → Outcome LoginError LoginAnswer
issued ttl jti s u = elim (Auth.issue ttl s.now jti (principal_of u) (codes "pwd" ∷ []) none) [
  | err message ↦ err (LoginError.value_error message)
  | ok claims ↦ ok (LoginAnswer.session claims)
]

-- The rest of the handler for a verified account, with what `begin_login` gives.
unfoldable pub proceed :
    (ttl : Time)
    → (jti : Uuid) → Http
    → Stamp
    → UserAccount
    → Outcome MfaError (Option LoginStep × MfaDb)
    → LoginDb
    → LoginReply
proceed ttl jti http s u (err e) db = (err (LoginError.factor_error e), db)
proceed ttl jti http s u (ok (some step, factors)) db =
    audited
      (user_audit http u.user_id "LOGIN_PASSWORD_VERIFIED"
        (("next_step", MetaValue.literal (status_of step)) ∷ []))
      s (record db { factors = factors })
      (λ tables. (ok (LoginAnswer.next_step step), record { tables = tables; factors = factors }))
proceed ttl jti http s u (ok (none, factors)) db =
    audited
      (user_audit http u.user_id "LOGIN_SUCCEEDED"
        (("amr", MetaValue.texts (codes "pwd" ∷ [])) ∷ []))
      s (record db { factors = factors })
      (λ tables. (issued ttl jti s u, record { tables = tables; factors = factors }))

-- The handler, with the account that was verified.
unfoldable pub answer :
    MfaService
    → (ttl : Time) → Http
    → (email : Text) → (jti : Uuid) → (challenge : Text) → Stamp
    → Option UserAccount
    → LoginDb
    → LoginReply
unfolding proceed
answer mfa ttl http email jti challenge s none db =
    audited (failed_audit http email) s db (λ tables. (
      err (LoginError.raised (http_error "INVALID_CREDENTIALS" 401)),
      record db { tables = tables },
    ))
answer mfa ttl http email jti challenge s (some u) db =
    if is_pending_approval u.role
    then audited (user_audit http u.user_id "LOGIN_BLOCKED_PENDING_APPROVAL" []) s db (λ tables.
      (err (LoginError.raised (http_error "APPROVAL_PENDING" 403)), record db { tables = tables }))
    else proceed ttl jti http s u
        (Login.begin_login mfa s.now s.new_id challenge (as_user u) db.factors) db

-- `login`
unfoldable pub login :
    Python
    → PasswordCheck
    → MfaService
    → (ttl : Time) → (limited : Result (Unit {0})) → Http
    → (raw_email password : Text) → (jti : Uuid) → (challenge : Text) → Stamp
    → LoginDb
    → LoginReply
unfolding verify answer
login python passwords mfa ttl (err e) http raw_email password jti challenge s db =
    (err (LoginError.raised e), db)
login python passwords mfa ttl (ok done) http raw_email password jti challenge s db =
    let email = python.lower (strip raw_email) in
    answer mfa ttl http email jti challenge s (verify passwords email password db.tables.users) db
