-- ===== src/Users/Served.antt =====
-- The handlers keep the roles vetted, and so does any list of requests.
use bantam_bank.Prelude.{
  ◌⊎◌, Bool-cases, ◌≡◌, ◌≢◌, refl, ◌&&◌, select, some, List, [], ◌∷◌, arith, Option, inl, inr,
  subst, ◌∙◌,
}
use bantam_bank.Prelude.Text.{Text, codes, strip}
use bantam_bank.Domain.{Uuid, Role}
use bantam_bank.Errors.{Error, Result, ok, err, Outcome-cases, ◌>>◌, raise_if}
use bantam_bank.Auth.{ParsedAccessToken}
use bantam_bank.Bank.Reply.{Http, Stamp}
use bantam_bank.Ledger.Written.{>>=-eq-ok}
use bantam_bank.Passwords.{Python}
use bantam_bank.Users.{UserDb, Date, Profile, permission_scopes, mentions}
use bantam_bank.Users.Access.{same_role, is_blank}
use bantam_bank.Users.Registration
use bantam_bank.Users.Registration.{
  Answer, RegisterInput, Drawn, accepted, on_ok, new_user, new_profile, validation_error,
}
use bantam_bank.Users.Administration
use bantam_bank.Users.Administration.{Session, Decision, is_reject, created, committed}
use bantam_bank.Users.Calls
use bantam_bank.Users.Calls.{Setup, Visitor, Call, registering, applying, creating, deciding}
use bantam_bank.Users.Entered.{authenticated-account, same_role-eq}
use bantam_bank.Users.Tables.{
  store_customer-AddsUser, store_auditor-AddsApplicant, store_admin-AddsAdmin,
  decide_request-Decides,
}
use bantam_bank.Users.Vetted.{
  IsVetted, HasApproval, AddsUser-IsVetted, AddsApplicant-IsVetted, AddsAdmin-IsVetted,
  Decides-IsVetted,
}

-- A registration that raises leaves the tables as they were.
accepted-IsVetted :
    (db : UserDb) (r : Result UserDb)
    → IsVetted db
    → ((db' : UserDb) → r ≡ ok db' → IsVetted db')
    → IsVetted (accepted db r).1
accepted-IsVetted db (ok db') h stored = stored db' refl
accepted-IsVetted db (err Error.unique_violation) h stored = h
accepted-IsVetted db (err e) h stored = h

created-IsVetted :
    (db : UserDb) (r : Result UserDb)
    → IsVetted db
    → ((db' : UserDb) → r ≡ ok db' → IsVetted db')
    → IsVetted (created db r).1
created-IsVetted db (ok db') h stored = stored db' refl
created-IsVetted db (err Error.unique_violation) h stored = h
created-IsVetted db (err e) h stored = h

committed-IsVetted :
    (db : UserDb) (r : Result UserDb)
    → IsVetted db
    → ((db' : UserDb) → r ≡ ok db' → IsVetted db')
    → IsVetted (committed db r).1
committed-IsVetted db (ok db') h stored = stored db' refl
committed-IsVetted db (err e) h stored = h

on_ok-IsVetted :
    {A : Type 0} (db : UserDb) (r : Result A) (rest : A → Answer)
    → IsVetted db
    → ((a : A) → r ≡ ok a → IsVetted (rest a).1)
    → IsVetted (on_ok db r rest).1
on_ok-IsVetted db (err e) rest h goes = h
on_ok-IsVetted db (ok a) rest h goes = goes a refl

register-IsVetted :
    (python : Python) (fromisoformat : Text → Option Date) (limited : Result (Unit {0}))
    (today : Date) (http : Http) (input : RegisterInput) (d : Drawn) (s : Stamp) (db : UserDb)
    → IsVetted db
    → IsVetted (Registration.register python fromisoformat limited today http input d s db).1
unfolding Registration.register
register-IsVetted python fromisoformat limited today http input d s db h =
    let legal_name = strip input.legal_name in
    let email = python.lower (strip input.email) in
    let profile : Date → Profile =
      λ born. new_profile d legal_name born email (strip input.phone) in
    let store : Date × Text → Result UserDb =
      λ checked. Registration.store_customer http (profile checked.0) checked.1 d s db in
    on_ok-IsVetted db
      (limited >> Registration.register_checks python fromisoformat today input legal_name email)
      (λ checked. accepted db (store checked)) h
      (λ checked passes. accepted-IsVetted db (store checked) h (λ db' stored.
        AddsUser-IsVetted db db' h
          (new_user d.user_id email checked.1 Role.customer (some d.subject_id))
          (λ e. ground (arith, e)) (λ e. ground (arith, e))
          (store_customer-AddsUser http (profile checked.0) checked.1 d s db db' stored)))

register_aspis_auditor-IsVetted :
    (python : Python) (limited : Result (Unit {0})) (http : Http) (email password : Text)
    (d : Drawn) (s : Stamp) (db : UserDb)
    → IsVetted db
    → IsVetted (Registration.register_aspis_auditor python limited http email password d s db).1
unfolding Registration.register_aspis_auditor
register_aspis_auditor-IsVetted python limited http raw_email password d s db h =
    let email = python.lower (strip raw_email) in
    let store : Text → Result UserDb = λ hash. Registration.store_auditor http email hash d s db in
    on_ok-IsVetted db (limited >> Registration.auditor_checks python email password)
      (λ hash. accepted db (store hash)) h
      (λ hash passes. accepted-IsVetted db (store hash) h (λ db' stored.
        AddsApplicant-IsVetted db db' h d email hash
          (store_auditor-AddsApplicant http email hash d s db db' stored)))

check_permissions-some :
    (permissions requested granted : List Text)
    → Administration.check_permissions permissions requested ≡ ok granted
    → granted ≢ []
unfolding Administration.check_permissions
check_permissions-some [] requested granted e none_left = ground (arith, e)
check_permissions-some (p ∷ permissions) requested granted e none_left =
    ground (arith, e, none_left)

-- The tests of `admin_create_user` leave a permission.
user_checks-some :
    (python : Python) (email password : Text) (requested : List Text) (checked : List Text × Text)
    → Administration.user_checks python email password requested ≡ ok checked
    → checked.0 ≢ []
unfolding Administration.user_checks
user_checks-some python email password requested checked e =
    let named = select (λ scope. mentions scope requested) permission_scopes in
    elim (Outcome-cases (Administration.check_permissions named requested)) [
      | inr (x, fails) ↦ absurd (ground (arith, fails, e))
      | inl (permissions, passes) ↦
          let same : permissions ≡ checked.0 = ground (arith, passes, e) in
          subst (λ (xs : List Text). xs ≢ []) same
            (check_permissions-some named requested permissions passes)
    ]

admin_create_user-IsVetted :
    (python : Python) (session : Session) (http : Http) (email password : Text)
    (requested : List Text) (id : Uuid) (s : Stamp) (db : UserDb)
    → IsVetted db
    → IsVetted
        (Administration.admin_create_user python session http email password requested id s db).1
unfolding Administration.admin_create_user
admin_create_user-IsVetted python session http raw_email password requested id s db h =
    let email = python.lower (strip raw_email) in
    let guarded = Administration.guards python session (codes "admin_users") db in
    let tested = Administration.user_checks python email password requested in
    let store : List Text × Text → Result UserDb = λ checked.
      Administration.store_admin http session.principal email checked.0 checked.1 id s db in
    on_ok-IsVetted db (guarded >> tested) (λ checked. created db (store checked)) h
      (λ checked passes. created-IsVetted db (store checked) h (λ db' stored.
        AddsAdmin-IsVetted db db' h id email checked.1 checked.0
          (user_checks-some python email password requested checked
            (>>=-eq-ok guarded (λ fine. tested) passes).2)
          (store_admin-AddsAdmin http session.principal email checked.0 checked.1 id s db db'
            stored)))

decide_aspis_auditor_request-IsVetted :
    (python : Python) (session : Session) (http : Http) (id : Uuid) (decision : Decision)
    (reason : Text) (s : Stamp) (db : UserDb)
    → IsVetted db
    → IsVetted
        (Administration.decide_aspis_auditor_request python session http id decision reason s db).1
unfolding Administration.decide_aspis_auditor_request
decide_aspis_auditor_request-IsVetted python session http id decision raw_reason s db h =
    let reason = strip raw_reason in
    let store = Administration.decide_request http session.principal id decision reason s db in
    on_ok-IsVetted db
      (Administration.guards python session (codes "aspis_auditors") db
        >> raise_if (is_reject decision && is_blank reason)
            (validation_error "A reason is required when rejecting an auditor."))
      (λ fine. committed db store) h
      (λ fine passes. committed-IsVetted db store h (λ db' stored.
        let (r, d) =
          decide_request-Decides http session.principal id decision reason s db db' stored in
        Decides-IsVetted db db' h id session.principal.user_id decision reason s.now r d))

serve-IsVetted :
    (setup : Setup) (call : Call) (db : UserDb)
    → IsVetted db
    → IsVetted (Calls.serve setup call db).1
serve-IsVetted setup (registering limited today http input d s) db h =
    unfold Calls.serve in
    register-IsVetted setup.python setup.fromisoformat limited today http input d s db h
serve-IsVetted setup (applying limited http email password d s) db h =
    unfold Calls.serve in
    register_aspis_auditor-IsVetted setup.python limited http email password d s db h
serve-IsVetted setup (creating v email password permissions id) db h =
    unfold Calls.serve in
    on_ok-IsVetted db (Calls.admitted setup (Role.bank_admin ∷ []) v db)
      (λ session.
        Administration.admin_create_user setup.python session v.http email password permissions id
          v.stamp db)
      h
      (λ session allowed.
        admin_create_user-IsVetted setup.python session v.http email password permissions id v.stamp
          db h)
serve-IsVetted setup (deciding v id decision reason) db h =
    unfold Calls.serve in
    on_ok-IsVetted db (Calls.admitted setup (Role.bank_admin ∷ Role.aspis_admin ∷ []) v db)
      (λ session.
        Administration.decide_aspis_auditor_request setup.python session v.http id decision reason
          v.stamp db)
      h
      (λ session allowed.
        decide_aspis_auditor_request-IsVetted setup.python session v.http id decision reason v.stamp
          db h)

run-keeps :
    (setup : Setup) (calls : List Call) (db : UserDb)
    → IsVetted db
    → IsVetted (Calls.run setup calls db)
unfolding Calls.run
run-keeps setup [] db h = h
run-keeps setup (c ∷ calls) db h =
    run-keeps setup calls (Calls.serve setup c db).1 (serve-IsVetted setup c db h)

-- Who is let in has an approved request or is no Aspis auditor.
abbrev pub IsApproved : Result ParsedAccessToken → UserDb → Type 0
IsApproved (err e) db = Unit {0}
IsApproved (ok token) db =
    (token.principal.role ≢ Role.aspis_auditor) ⊎ HasApproval token.principal.user_id db.requests

visitor-IsApproved :
    (setup : Setup) (v : Visitor) (db : UserDb)
    → IsVetted db
    → IsApproved (Calls.authenticated setup v db) db
visitor-IsApproved setup v db h = elim (Outcome-cases (Calls.authenticated setup v db)) [
  | inr (x, fails) ↦ rw fails tt
  | inl (token, entered) ↦
      let (u, i, active, own, same) = authenticated-account setup v db token entered in
      let approved : token.principal.role ≡ Role.aspis_auditor
          → HasApproval token.principal.user_id db.requests =
        λ role. subst (λ id. HasApproval id db.requests) own (h.vetted u i (same ∙ role)) in
      rw entered (elim (Bool-cases (same_role token.principal.role Role.aspis_auditor)) [
        | inl auditor ↦
            inr (approved (same_role-eq token.principal.role Role.aspis_auditor auditor))
        | inr other ↦ inl (λ role. ground (arith, other, role))
      ])
]

-- Whatever requests are served, tables whose roles are vetted stay so: every Aspis auditor has an
-- approved request, every administrator a permission, every account's role matches its customer,
-- and no two requests share an identifier. And whoever is then let in as an Aspis auditor has an
-- approved request.
pub run-IsVetted :
    (setup : Setup) (calls : List Call) (db : UserDb) (v : Visitor)
    → IsVetted db
    → let after = Calls.run setup calls db in
      IsVetted after × IsApproved (Calls.authenticated setup v after) after
run-IsVetted setup calls db v h =
    let kept = run-keeps setup calls db h in
    (kept, visitor-IsApproved setup v (Calls.run setup calls db) kept)
