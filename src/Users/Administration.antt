-- ===== src/Users/Administration.antt =====
-- bantam/api.py: `admin_create_user` and `decide_aspis_auditor_request`.
use bantam_bank.Prelude.{
  ◌==◌, not, ◌&&◌, any, find?, select, update, length, Bool, true, false, Option, none, some, List,
  [], ◌∷◌, if◌then◌else◌,
}
use bantam_bank.Prelude.Text.{Text, codes, strip}
use bantam_bank.Domain.{Uuid, Time, Role, Principal}
use bantam_bank.Errors.{Error, Result, ok, err, ◌>>=◌, ◌>>◌, raise_if, or_raise}
use bantam_bank.Db.{Resource, MetaValue}
use bantam_bank.Ledger.Posting.{insert_audit}
use bantam_bank.Bank.Reply.{Http, Stamp, request_audit, http_error}
use bantam_bank.Passwords.{Python}
use bantam_bank.Users.{
  UserDb, UserAccount, UserStatus, AuditorRequest, RequestStatus, is_user, is_request, is_pending,
  is_pending_approval, permission_scopes, mentions, insert_user, insert_permission, in_bank,
}
use bantam_bank.Users.Access.{require_recent_mfa, require_admin_scope, is_blank}
use bantam_bank.Users.Registration.{
  Answer, on_ok, new_user, is_email, hash_password, validation_error,
}
use Prim.Native.String.{String}

-- The settings and the session that the guards of these handlers read.
pub record Session : Type 0 where
  pub super_admin_email : Text
  pub mfa_step_up_ttl : Time
  pub mfa_at : Option Time
  pub now : Time
  pub principal : Principal

-- The two guards at the top of a handler.
unfoldable pub guards : Python → Session → (scope : Text) → UserDb → Result (Unit {0})
unfolding require_recent_mfa require_admin_scope
guards python session scope db = do
  require_recent_mfa session.mfa_step_up_ttl session.now session.mfa_at
  require_admin_scope python session.super_admin_email session.principal scope db

-- `set(texts)`
abbrev pub dedupe : List Text → List Text
dedupe [] = []
dedupe (x ∷ xs) = if mentions x xs then dedupe xs else x ∷ dedupe xs

-- The scopes that are asked for, in their order, are all of those that were named, and some.
unfoldable pub check_permissions : (permissions requested : List Text) → Result (List Text)
check_permissions permissions requested = do
  raise_if (not (length permissions == length (dedupe requested)))
      (validation_error "permissions include an unsupported scope")
  raise_if (length permissions == 0) (validation_error "at least one permission is required")
  ok permissions

-- The tests of `admin_create_user`: the scopes, and the hash.
unfoldable pub user_checks :
    Python → (email password : Text) → (requested : List Text) → Result (List Text × Text)
unfolding is_email hash_password
user_checks python email password requested = do
  raise_if (not (is_email email)) (validation_error "email is invalid")
  permissions ←
      check_permissions (select (λ scope. mentions scope requested) permission_scopes) requested
  password_hash ← hash_password python password (email ∷ codes "bank admin" ∷ [])
  ok (permissions, password_hash)

-- The loop over the scopes.
unfoldable pub grant : Uuid → (granted_by : Uuid) → List Text → UserDb → Result UserDb
unfolding insert_permission
grant id granted_by [] db = ok db
grant id granted_by (scope ∷ scopes) db =
    elim (insert_permission (record { user_id = id; scope = scope; granted_by = some granted_by })
      db) [ err e ↦ err e | ok granted ↦ grant id granted_by scopes granted ]

-- The database transaction of `admin_create_user`.
unfoldable pub store_admin :
    Http
    → Principal
    → (email : Text) → (permissions : List Text) → (password_hash : Text) → Uuid
    → Stamp
    → UserDb
    → Result UserDb
unfolding insert_user grant
store_admin http principal email permissions password_hash id s db = do
  a ← insert_user (new_user id email password_hash Role.bank_admin none) db
  b ← grant id principal.user_id permissions a
  in_bank
      (insert_audit
        (request_audit http principal.user_id "ADMIN_USER_CREATED" "user_account" (Resource.row id)
          (("subject_email", MetaValue.string email)
            ∷ ("permissions", MetaValue.texts permissions)
            ∷ []))
        s.audit_event_id s.now b.bank)
      b

abbrev pub created : UserDb → Result UserDb → Answer
created before (ok after) = (ok tt, after)
created before (err Error.unique_violation) = (err (http_error "EMAIL_EXISTS" 409), before)
created before (err e) = (err e, before)

-- `admin_create_user`
unfoldable pub admin_create_user :
    Python
    → Session
    → Http
    → (email password : Text) → (requested : List Text) → Uuid
    → Stamp
    → UserDb
    → Answer
unfolding guards user_checks store_admin
admin_create_user python session http raw_email password requested id s db =
    let email = python.lower (strip raw_email) in
    on_ok db
      (guards python session (codes "admin_users") db
        >> user_checks python email password requested)
      (λ checked. created db (store_admin http session.principal email checked.0 checked.1 id s db))

pub data Decision : Type 0 where
  approve reject : Decision

abbrev pub is_reject : Decision → Bool
is_reject Decision.reject = true
is_reject Decision.approve = false

-- `WHERE user_id = %s AND role = 'PENDING_APPROVAL'`
abbrev pub is_applicant : Uuid → UserAccount → Bool
is_applicant id u = is_user id u && is_pending_approval u.role

-- The UPDATE of the applicant's account.
abbrev pub decided_account : Decision → UserAccount → UserAccount
decided_account Decision.approve u = record u {
  role = Role.aspis_auditor;
  status = UserStatus.active;
}
decided_account Decision.reject u = record u { status = UserStatus.disabled }

abbrev pub next_status : Decision → RequestStatus
next_status Decision.approve = RequestStatus.approved
next_status Decision.reject = RequestStatus.rejected

abbrev pub or_none : Text → Option Text
or_none [] = none
or_none (c ∷ text) = some (c ∷ text)

-- The UPDATE of the request.
abbrev pub decided_request :
    Decision → (by : Uuid) → (reason : Text) → Time → AuditorRequest → AuditorRequest
decided_request decision by reason now r = record r {
  status = next_status decision;
  decided_by = some by;
  decision_reason = or_none reason;
  decided_at = some now;
}

abbrev decided_action : Decision → String
decided_action Decision.approve = "ASPIS_AUDITOR_APPROVED"
decided_action Decision.reject = "ASPIS_AUDITOR_REJECTED"

abbrev reason_value : Text → MetaValue
reason_value [] = MetaValue.missing
reason_value (c ∷ text) = MetaValue.string (c ∷ text)

-- The request, joined with the account of its user.
abbrev pub find_request : Uuid → UserDb → Option AuditorRequest
find_request id db = elim (find? (is_request id) db.requests) [
  | none ↦ none
  | some r ↦ if any (is_user r.user_id) db.users then some r else none
]

-- The database transaction of `decide_aspis_auditor_request`.
unfoldable pub decide_request :
    Http
    → Principal
    → (request_id : Uuid) → Decision
    → (reason : Text) → Stamp
    → UserDb
    → Result UserDb
decide_request http principal id decision reason s db = do
  r ← or_raise (find_request id db) (http_error "NOT_FOUND" 404)
  raise_if (not (is_pending r.status)) (http_error "INVALID_APPROVAL_STATE" 409)
  raise_if (not (any (is_applicant r.user_id) db.users)) (http_error "INVALID_APPROVAL_STATE" 409)
  raise_if (not (any (is_user principal.user_id) db.users)) Error.foreign_key_violation
  let a = record db {
    users = update (is_applicant r.user_id) (decided_account decision) db.users;
    requests =
        update (is_request id) (decided_request decision principal.user_id reason s.now)
          db.requests;
  }
  in_bank
      (insert_audit
        (request_audit http principal.user_id (decided_action decision) "aspis_auditor_request"
          (Resource.row id)
          (("subject_user_id", MetaValue.id r.user_id) ∷ ("reason", reason_value reason) ∷ []))
        s.audit_event_id s.now a.bank)
      a

abbrev pub committed : UserDb → Result UserDb → Answer
committed before (ok after) = (ok tt, after)
committed before (err e) = (err e, before)

-- `decide_aspis_auditor_request`
unfoldable pub decide_aspis_auditor_request :
    Python
    → Session
    → Http
    → (request_id : Uuid) → Decision
    → (reason : Text) → Stamp
    → UserDb
    → Answer
unfolding guards decide_request
decide_aspis_auditor_request python session http id decision raw_reason s db =
    let reason = strip raw_reason in
    let unexplained =
      raise_if (is_reject decision && is_blank reason)
        (validation_error "A reason is required when rejecting an auditor.") in
    on_ok db (guards python session (codes "aspis_auditors") db >> unexplained)
      (λ fine. committed db (decide_request http session.principal id decision reason s db))
