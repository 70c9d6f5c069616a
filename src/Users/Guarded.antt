-- ===== src/Users/Guarded.antt =====
-- What a refused request leaves, and what a request that is served had to bring.
use bantam_bank.Prelude.{◌≡◌, refl, ◌&&◌, List, [], ◌∷◌, arith}
use bantam_bank.Prelude.Text.{Text, codes, strip}
use bantam_bank.Domain.{Role}
use bantam_bank.Errors.{Error, Result, ok, err, ◌>>◌, raise_if}
use bantam_bank.Users.{UserDb, Date}
use bantam_bank.Users.Access.{is_blank}
use bantam_bank.Users.Registration
use bantam_bank.Users.Registration.{
  Answer, RegisterInput, Drawn, accepted, on_ok, new_profile, hash_password, validation_error,
}
use bantam_bank.Users.Administration
use bantam_bank.Users.Administration.{Session, Decision, is_reject, created, committed}
use bantam_bank.Users.Calls
use bantam_bank.Users.Calls.{Setup, Visitor, Call, registering, applying, creating, deciding}
use bantam_bank.Users.Needed.{Needs, serve-Needs}

-- An answer that is an error leaves the tables.
abbrev pub Keeps : UserDb → Answer → Type 0
Keeps db a = (e : Error) → a.0 ≡ err e → a.1 ≡ db

on_ok-Keeps :
    {A : Type 0} (db : UserDb) (r : Result A) (rest : A → Answer)
    → ((a : A) → Keeps db (rest a))
    → Keeps db (on_ok db r rest)
on_ok-Keeps db (err x) rest keeps e raised = refl
on_ok-Keeps db (ok a) rest keeps e raised = keeps a e raised

accepted-Keeps : (db : UserDb) (r : Result UserDb) → Keeps db (accepted db r)
accepted-Keeps db (ok after) e raised = absurd (ground (arith, raised))
accepted-Keeps db (err Error.unique_violation) e raised = refl
accepted-Keeps db (err x) e raised = refl

created-Keeps : (db : UserDb) (r : Result UserDb) → Keeps db (created db r)
created-Keeps db (ok after) e raised = absurd (ground (arith, raised))
created-Keeps db (err Error.unique_violation) e raised = refl
created-Keeps db (err x) e raised = refl

committed-Keeps : (db : UserDb) (r : Result UserDb) → Keeps db (committed db r)
committed-Keeps db (ok after) e raised = absurd (ground (arith, raised))
committed-Keeps db (err x) e raised = refl

-- What a refused request leaves.
serve-Keeps : (setup : Setup) (call : Call) (db : UserDb) → Keeps db (Calls.serve setup call db)
unfolding Calls.serve Registration.register Registration.register_aspis_auditor
    Administration.admin_create_user Administration.decide_aspis_auditor_request
serve-Keeps setup (registering limited today http input d s) db =
    let name = strip input.legal_name in
    let email = setup.python.lower (strip input.email) in
    let store : Date × Text → Result UserDb = λ c.
      Registration.store_customer http (new_profile d name c.0 email (strip input.phone)) c.1 d s
        db in
    on_ok-Keeps db
      (limited
        >> Registration.register_checks setup.python setup.fromisoformat today input name email)
      (λ c. accepted db (store c)) (λ c. accepted-Keeps db (store c))
serve-Keeps setup (applying limited http raw_email password d s) db =
    let email = setup.python.lower (strip raw_email) in
    let store : Text → Result UserDb = λ hash. Registration.store_auditor http email hash d s db in
    on_ok-Keeps db (limited >> Registration.auditor_checks setup.python email password)
      (λ hash. accepted db (store hash)) (λ hash. accepted-Keeps db (store hash))
serve-Keeps setup (creating v raw_email password permissions id) db =
    let email = setup.python.lower (strip raw_email) in
    let store : Session → List Text × Text → Result UserDb = λ session c.
      Administration.store_admin v.http session.principal email c.0 c.1 id v.stamp db in
    on_ok-Keeps db (Calls.admitted setup (Role.bank_admin ∷ []) v db)
      (λ session.
        Administration.admin_create_user setup.python session v.http raw_email password permissions
          id v.stamp db)
      (λ session.
        on_ok-Keeps db
          (Administration.guards setup.python session (codes "admin_users") db
            >> Administration.user_checks setup.python email password permissions)
          (λ c. created db (store session c)) (λ c. created-Keeps db (store session c)))
serve-Keeps setup (deciding v id decision raw_reason) db =
    let reason = strip raw_reason in
    let store : Session → Result UserDb = λ session.
      Administration.decide_request v.http session.principal id decision reason v.stamp db in
    on_ok-Keeps db (Calls.admitted setup (Role.bank_admin ∷ Role.aspis_admin ∷ []) v db)
      (λ session.
        Administration.decide_aspis_auditor_request setup.python session v.http id decision
          raw_reason v.stamp db)
      (λ session.
        on_ok-Keeps db
          (Administration.guards setup.python session (codes "aspis_auditors") db
            >> raise_if (is_reject decision && is_blank reason)
                (validation_error "A reason is required when rejecting an auditor."))
          (λ done. committed db (store session)) (λ done. committed-Keeps db (store session)))

-- An answer without an error had its needs met, and one with an error has changed nothing.
abbrev pub IsGuarded : Setup → Call → UserDb → Answer → Type 0
IsGuarded setup call db (ok done, after) = Needs setup db call
IsGuarded setup call db (err e, after) = after ≡ db

answer-IsGuarded :
    (setup : Setup) (call : Call) (db : UserDb) (a : Answer)
    → (a.0 ≡ ok tt → Needs setup db call)
    → Keeps db a
    → IsGuarded setup call db a
answer-IsGuarded setup call db (ok done, after) needs keeps = needs refl
answer-IsGuarded setup call db (err e, after) needs keeps = keeps e refl

-- A request is served only if its needs are met: a registration or application is within its rate
-- limit, password_problem finds nothing wrong with any new password, and whoever creates an
-- administrator or decides on an applicant is authenticated as an active account of a role that
-- may, has shown a second factor within the step-up time, and, where the role is that of a bank
-- administrator, has the handler's scope by a permission or as the super administrator. A request
-- that gets an error changes nothing.
pub serve-IsGuarded :
    (setup : Setup) (call : Call) (db : UserDb)
    → IsGuarded setup call db (Calls.serve setup call db)
serve-IsGuarded setup call db =
    answer-IsGuarded setup call db (Calls.serve setup call db) (serve-Needs setup call db)
      (serve-Keeps setup call db)
