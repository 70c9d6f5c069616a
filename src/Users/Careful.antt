-- ===== src/Users/Careful.antt =====
-- What a login has to bring for a session or for a further step, and why one is refused.
use bantam_bank.Prelude.{◌≡◌, ◌||◌, ◌==◌, any, find?, Bool, true, false, none, some, List}
use bantam_bank.Prelude.Members.{In}
use bantam_bank.Prelude.Text.{Text, ◌==ₜ◌}
use bantam_bank.Errors.{Error, Result, ok, err}
use bantam_bank.Auth.{is_allowed_role}
use bantam_bank.Bank.Reply.{Stamp, http_error}
use bantam_bank.Mfa.Store.{MfaDb, MfaService, refuse, passkeys_enabled, role_requires_mfa}
use bantam_bank.Mfa.Login.{has_passkey, has_totp}
use bantam_bank.Users.{UserAccount, is_active_user, is_pending_approval}
use bantam_bank.Users.PasswordLogin.{
  LoginDb, PasswordCheck, LoginError, LoginAnswer, LoginReply, hash_or,
}

-- The account of the address, active and with the password.
pub record IsVerified (passwords : PasswordCheck) (email password : Text) (users : List UserAccount)
    (u : UserAccount) : Type 0 where
  pub stored : In u users
  pub address : (u.email ==ₜ email) ≡ true
  pub active : is_active_user u.status ≡ true
  pub matches : passwords.checkpw (hash_or passwords.dummy_hash u.password_hash) password ≡ true

-- The password is not enough: the user has a second factor, or the role requires one.
abbrev pub needs_factor : UserAccount → MfaDb → Bool
needs_factor u db = has_passkey u.user_id db || has_totp u.user_id db || role_requires_mfa u.role

-- The first account of the address, if any, is not active or has another password.
abbrev pub IsUnverified : PasswordCheck → (email password : Text) → List UserAccount → Type 0
IsUnverified passwords email password users =
    (u : UserAccount)
    → find? (λ (v : UserAccount). v.email ==ₜ email) users ≡ some u
    → ¬ (
        (is_active_user u.status ≡ true)
        × (passwords.checkpw (hash_or passwords.dummy_hash u.password_hash) password ≡ true))

-- Why a login is refused.
pub data IsStopped (passwords : PasswordCheck) (mfa : MfaService) (limited : Result (Unit {0}))
    (email password : Text) (s : Stamp) (db : LoginDb) : LoginError → Type 0 where
  by_limit :
      (e : Error)
      → limited ≡ err e
      → IsStopped passwords mfa limited email password s db (LoginError.raised e)
  unverified :
      IsUnverified passwords email password db.tables.users
      → IsStopped passwords mfa limited email password s db
          (LoginError.raised (http_error "INVALID_CREDENTIALS" 401))
  awaits_approval :
      (u : UserAccount)
      → IsVerified passwords email password db.tables.users u
      → is_pending_approval u.role ≡ true
      → IsStopped passwords mfa limited email password s db
          (LoginError.raised (http_error "APPROVAL_PENDING" 403))
  audit_taken :
      any (λ a. a.audit_event_id == s.audit_event_id) db.tables.bank.audit ≡ true
      → IsStopped passwords mfa limited email password s db
          (LoginError.raised Error.unique_violation)
  passkey_unusable :
      (u : UserAccount)
      → IsVerified passwords email password db.tables.users u
      → has_passkey u.user_id db.factors ≡ true
      → has_totp u.user_id db.factors ≡ false
      → passkeys_enabled mfa ≡ false
      → IsStopped passwords mfa limited email password s db (
          LoginError.factor_error (
            refuse "PASSKEY_CONFIGURATION_REQUIRED"
              "This account requires its configured passkey origin." 503))
  role_unknown :
      (u : UserAccount)
      → IsVerified passwords email password db.tables.users u
      → is_allowed_role u.role ≡ false
      → IsStopped passwords mfa limited email password s db (LoginError.value_error "unknown role")

-- What a login answers, for each of the answers.
abbrev pub IsCareful :
    PasswordCheck
    → MfaService
    → (limited : Result (Unit {0})) → (email password : Text) → Stamp
    → LoginDb
    → LoginReply
    → Type 0
IsCareful passwords mfa limited email password s db (err e, after) =
    (after.tables.users ≡ db.tables.users) × IsStopped passwords mfa limited email password s db e
IsCareful passwords mfa limited email password s db (ok (LoginAnswer.next_step step), after) =
    (u : UserAccount) × IsVerified passwords email password db.tables.users u
    × (is_pending_approval u.role ≡ false)
    × (needs_factor u db.factors ≡ true)
IsCareful passwords mfa limited email password s db
      (ok (LoginAnswer.session (claims, expires_at)), after) =
    (u : UserAccount) × IsVerified passwords email password db.tables.users u
    × (is_pending_approval u.role ≡ false)
    × (needs_factor u db.factors ≡ false)
    × (claims.sub ≡ u.user_id)
    × (claims.role ≡ u.role)
    × (claims.mfa_at ≡ none)
