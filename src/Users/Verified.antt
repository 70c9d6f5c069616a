-- ===== src/Users/Verified.antt =====
-- bantam/api.py: each answer of `login` has brought what it has to.
use bantam_bank.Prelude.{
  ◌≡◌, refl, ◌==◌, any, find?, Bool, Option-cases, true, false, if◌then◌else◌, Option, none, some,
  List, [], ◌∷◌, arith, inl, inr, subst,
}
use bantam_bank.Prelude.Members.{find?-In}
use bantam_bank.Prelude.Text.{Text, ◌==ₜ◌, codes, strip}
use bantam_bank.Domain.{Uuid, Time}
use bantam_bank.Errors.{Error, Outcome, Result, ok, err, Outcome-cases}
use bantam_bank.Audit.{AuditFields}
use bantam_bank.Auth
use bantam_bank.Auth.{Claims, is_allowed_role}
use bantam_bank.Ledger.Posting.{insert_audit}
use bantam_bank.Bank.Reply.{Http, Stamp}
use bantam_bank.Bank.Rows.{insert_audit-taken}
use bantam_bank.Db.{Db}
use bantam_bank.Mfa.Store.{MfaDb, MfaError, MfaService, refuse, passkeys_enabled}
use bantam_bank.Mfa.Login
use bantam_bank.Mfa.Login.{LoginStep, has_passkey, has_totp}
use bantam_bank.Passwords.{Python}
use bantam_bank.Users.{UserDb, UserAccount, is_pending_approval, in_bank}
use bantam_bank.Users.PasswordLogin
use bantam_bank.Users.PasswordLogin.{
  LoginDb, PasswordCheck, LoginError, LoginAnswer, LoginReply, hash_or, audited, as_user, issued,
}
use bantam_bank.Users.Tables.{in_bank-SameTables}
use Prim.Native.String.{String}
use bantam_bank.Users.Careful.{IsVerified, needs_factor, IsUnverified, IsStopped, IsCareful}

verify-IsVerified :
    (passwords : PasswordCheck) (email password : Text) (users : List UserAccount) (u : UserAccount)
    → PasswordLogin.verify passwords email password users ≡ some u
    → IsVerified passwords email password users u
unfolding PasswordLogin.verify
verify-IsVerified passwords email password users u e =
    elim (Option-cases (find? (λ (v : UserAccount). v.email ==ₜ email) users)) [
      | inl missing ↦ absurd (ground (arith, missing, e))
      | inr (v, found) ↦
          let (i, own) = find?-In (λ (w : UserAccount). w.email ==ₜ email) users v found in
          let same : v ≡ u = ground (arith, found, e) in
          subst (λ w. IsVerified passwords email password users w) same
            (record {
              stored = i;
              address = own;
              active = ground (arith, found, e);
              matches = ground (arith, found, e);
            })
    ]

begin_login-none :
    (mfa : MfaService) (now : Time) (id : Uuid) (challenge : Text) (u : UserAccount)
    (db db' : MfaDb)
    → Login.begin_login mfa now id challenge (as_user u) db ≡ ok (none, db')
    → needs_factor u db ≡ false
unfolding Login.begin_login Login.factor_methods
begin_login-none mfa now id challenge u db db' e = ground (arith, e)

begin_login-some :
    (mfa : MfaService) (now : Time) (id : Uuid) (challenge : Text) (u : UserAccount)
    (step : LoginStep) (db db' : MfaDb)
    → Login.begin_login mfa now id challenge (as_user u) db ≡ ok (some step, db')
    → needs_factor u db ≡ true
unfolding Login.begin_login Login.factor_methods
begin_login-some mfa now id challenge u step db db' e = ground (arith, e)

verify-IsUnverified :
    (passwords : PasswordCheck) (email password : Text) (users : List UserAccount)
    → PasswordLogin.verify passwords email password users ≡ none
    → IsUnverified passwords email password users
unfolding PasswordLogin.verify
verify-IsUnverified passwords email password users e u found (active, matches) =
    ground (arith, found, e, active, matches)

begin_login-refused :
    (mfa : MfaService) (now : Time) (id : Uuid) (challenge : Text) (u : UserAccount) (db : MfaDb)
    (e : MfaError)
    → Login.begin_login mfa now id challenge (as_user u) db ≡ err e
    → (e
        ≡ refuse "PASSKEY_CONFIGURATION_REQUIRED"
            "This account requires its configured passkey origin." 503)
      × (has_passkey u.user_id db ≡ true)
      × (has_totp u.user_id db ≡ false)
      × (passkeys_enabled mfa ≡ false)
unfolding Login.begin_login Login.factor_methods
begin_login-refused mfa now id challenge u db e refused = ground arith

in_bank-err : (r : Result Db) (tables : UserDb) (e : Error) → in_bank r tables ≡ err e → r ≡ err e
in_bank-err (ok bank) tables e failed = absurd (ground (arith, failed))
in_bank-err (err x) tables e failed = ground (arith, failed)

audited-elim :
    (P : LoginReply → Type 0) (fields : AuditFields) (s : Stamp) (db : LoginDb)
    (rest : UserDb → LoginReply)
    → (any (λ a. a.audit_event_id == s.audit_event_id) db.tables.bank.audit ≡ true
        → P (err (LoginError.raised Error.unique_violation), db))
    → ((tables : UserDb) → tables.users ≡ db.tables.users → P (rest tables))
    → P (audited fields s db rest)
audited-elim P fields s db rest fails goes =
    let wrote = in_bank (insert_audit fields s.audit_event_id s.now db.tables.bank) db.tables in
    elim (Outcome-cases wrote) [
      | inr (x, e) ↦
          let (same, taken) =
            insert_audit-taken fields s.audit_event_id s.now db.tables.bank x
              (in_bank-err _ db.tables x e) in
          rw (audited, e) (rw same (fails taken))
      | inl (tables, e) ↦
          rw (audited, e)
            (goes tables
              (in_bank-SameTables (insert_audit fields s.audit_event_id s.now db.tables.bank)
                db.tables tables e).users)
    ]

issue-unknown :
    (ttl now : Time) (jti : Uuid) (u : UserAccount) (message : String)
    → Auth.issue ttl now jti (PasswordLogin.principal_of u) (codes "pwd" ∷ []) none ≡ err message
    → (message ≡ "unknown role") × (is_allowed_role u.role ≡ false)
unfolding Auth.issue Auth.are_methods
issue-unknown ttl now jti u message refused =
    let sound : Auth.are_methods (codes "pwd" ∷ []) ≡ true = refl in ground (arith, refused, sound)

module _ (passwords : PasswordCheck) (mfa : MfaService) (limited : Result (Unit {0}))
    (email password : Text) (ttl : Time) (jti : Uuid) (s : Stamp) (u : UserAccount) (db : LoginDb)
    (v : IsVerified passwords email password db.tables.users u)
    (decided : is_pending_approval u.role ≡ false) where
  issued-IsCareful :
      (tables : UserDb) (factors : MfaDb)
      → tables.users ≡ db.tables.users
      → needs_factor u db.factors ≡ false
      → IsCareful passwords mfa limited email password s db
          (issued ttl jti s u, record { tables = tables; factors = factors })
  unfolding Auth.issue
  issued-IsCareful tables factors same enough =
      elim (Outcome-cases
        (Auth.issue ttl s.now jti (PasswordLogin.principal_of u) (codes "pwd" ∷ []) none)) [
          | inr (message, refused) ↦
              rw (issued, refused)
                (
                  same,
                  rw (issue-unknown ttl s.now jti u message refused).0 (
                      IsStopped.role_unknown u v (issue-unknown ttl s.now jti u message refused).1),
                )
          | inl ((claims, expires_at), given) ↦
              rw (issued, given)
                (
                  u,
                  v,
                  decided,
                  enough,
                  ground (arith, given),
                  ground (arith, given),
                  ground (arith, given),
                )
        ]

  proceed-IsCareful :
      (http : Http) (challenge : Text) (begun : Outcome MfaError (Option LoginStep × MfaDb))
      → Login.begin_login mfa s.now s.new_id challenge (as_user u) db.factors ≡ begun
      → IsCareful passwords mfa limited email password s db
          (PasswordLogin.proceed ttl jti http s u begun db)
  unfolding PasswordLogin.proceed
  proceed-IsCareful http challenge (err e) begins =
      let (same, passkey, totp, off) =
        begin_login-refused mfa s.now s.new_id challenge u db.factors e begins in
      (refl, rw same (IsStopped.passkey_unusable u v passkey totp off))
  proceed-IsCareful http challenge (ok (some step, factors)) begins =
      audited-elim (IsCareful passwords mfa limited email password s db) _ s
        (record db { factors = factors }) _ (λ taken. (refl, IsStopped.audit_taken taken))
        (λ tables same. (
          u,
          v,
          decided,
          begin_login-some mfa s.now s.new_id challenge u step db.factors factors begins,
        ))
  proceed-IsCareful http challenge (ok (none, factors)) begins =
      audited-elim (IsCareful passwords mfa limited email password s db) _ s
        (record db { factors = factors }) _ (λ taken. (refl, IsStopped.audit_taken taken))
        (λ tables same.
          issued-IsCareful tables factors same
            (begin_login-none mfa s.now s.new_id challenge u db.factors factors begins))

if-elim :
    (P : LoginReply → Type 0) (b : Bool) (x y : LoginReply)
    → (b ≡ true → P x)
    → (b ≡ false → P y)
    → P (if b then x else y)
if-elim P true x y holds fails = holds refl
if-elim P false x y holds fails = fails refl

answer-IsCareful :
    (passwords : PasswordCheck) (mfa : MfaService) (limited : Result (Unit {0}))
    (email password : Text) (ttl : Time) (http : Http) (jti : Uuid) (challenge : Text) (s : Stamp)
    (found : Option UserAccount) (db : LoginDb)
    → PasswordLogin.verify passwords email password db.tables.users ≡ found
    → IsCareful passwords mfa limited email password s db
        (PasswordLogin.answer mfa ttl http email jti challenge s found db)
unfolding PasswordLogin.answer
answer-IsCareful passwords mfa limited email password ttl http jti challenge s none db e =
    audited-elim (IsCareful passwords mfa limited email password s db) _ s db _
      (λ taken. (refl, IsStopped.audit_taken taken))
      (λ tables same. (
        same,
        IsStopped.unverified (verify-IsUnverified passwords email password db.tables.users e),
      ))
answer-IsCareful passwords mfa limited email password ttl http jti challenge s (some u) db e =
    let v = verify-IsVerified passwords email password db.tables.users u e in
    if-elim (IsCareful passwords mfa limited email password s db) (is_pending_approval u.role) _ _
      (λ waits.
        audited-elim (IsCareful passwords mfa limited email password s db) _ s db _
          (λ taken. (refl, IsStopped.audit_taken taken))
          (λ tables same. (same, IsStopped.awaits_approval u v waits)))
      (λ decided.
        proceed-IsCareful passwords mfa limited email password ttl jti s u db v decided http
          challenge (Login.begin_login mfa s.now s.new_id challenge (as_user u) db.factors) refl)

-- Where login gives a session, the account of the address is active, has the password and is not
-- waiting for approval, it has no second factor and its role requires none, and the claims are that
-- account's, without an MFA time. Where it asks for a further step, such an account has a second
-- factor or a role that requires one. Where it raises, the accounts are as before, and the error is
-- the limiter's; or INVALID_CREDENTIALS, where the address has no account or the first of it is not
-- active or has another password; or APPROVAL_PENDING, where the verified account waits for
-- approval; or PASSKEY_CONFIGURATION_REQUIRED, where its only factor is a passkey and passkeys are
-- not configured; or ValueError, where its role is not one that a session may have; or a unique
-- violation, where the identifier drawn for the audit row is taken.
pub login-IsCareful :
    (python : Python) (passwords : PasswordCheck) (mfa : MfaService) (ttl : Time)
    (limited : Result (Unit {0})) (http : Http) (raw_email password : Text) (jti : Uuid)
    (challenge : Text) (s : Stamp) (db : LoginDb)
    → IsCareful passwords mfa limited (python.lower (strip raw_email)) password s db (
        PasswordLogin.login python passwords mfa ttl limited http raw_email password jti challenge s
          db)
unfolding PasswordLogin.login
login-IsCareful python passwords mfa ttl (err e) http raw_email password jti challenge s db =
    (refl, IsStopped.by_limit e refl)
login-IsCareful python passwords mfa ttl (ok done) http raw_email password jti challenge s db =
    let email = python.lower (strip raw_email) in
    answer-IsCareful passwords mfa (ok done) email password ttl http jti challenge s
      (PasswordLogin.verify passwords email password db.tables.users) db refl
