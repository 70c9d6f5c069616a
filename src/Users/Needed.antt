-- ===== src/Users/Needed.antt =====
-- What a request that is served had to bring.
use bantam_bank.Prelude.{
  ◌≡◌, refl, not, ◌&&◌, select, Option-cases, none, List, [], ◌∷◌, arith, Option, inl, inr,
}
use bantam_bank.Prelude.Text.{Text, codes, strip}
use bantam_bank.Domain.{Role}
use bantam_bank.Errors.{Result, ok, err, Outcome-cases, ◌>>◌, raise_if}
use bantam_bank.Auth.{ParsedAccessToken}
use bantam_bank.Passwords.{Python, password_problem}
use bantam_bank.Users.{UserDb, UserAccount, Date, mentions, permission_scopes}
use bantam_bank.Users.Access.{is_blank}
use bantam_bank.Users.Registration
use bantam_bank.Users.Registration.{
  Answer, RegisterInput, Drawn, accepted, on_ok, new_profile, hash_password, validation_error,
}
use bantam_bank.Users.Administration
use bantam_bank.Users.Administration.{Session, Decision, is_reject, created, committed}
use bantam_bank.Users.Calls
use bantam_bank.Users.Calls.{Setup, Visitor, Call, registering, applying, creating, deciding}
use bantam_bank.Users.Entered.{IsEntitled, admitted-IsEntitled}
use bantam_bank.Ledger.Written.{then_pass}

-- The caller has one of the roles and, as an administrator, the scope.
abbrev pub Entitled : Setup → Visitor → List Role → (scope : Text) → UserDb → Type 0
Entitled setup v roles scope db =
    (token : ParsedAccessToken) × (u : UserAccount) × IsEntitled setup v roles scope db token u

-- The password meets the rules, being none of the values.
abbrev pub IsStrong : Python → (password : Text) → (values : List Text) → Type 0
IsStrong python password values = password_problem python password values ≡ none

-- What each request needs.
abbrev pub Needs : Setup → UserDb → Call → Type 0
Needs setup db (registering limited today http input d s) =
    (limited ≡ ok tt)
    × IsStrong setup.python input.password
        (setup.python.lower (strip input.email) ∷ strip input.legal_name ∷ [])
Needs setup db (applying limited http email password d s) =
    (limited ≡ ok tt)
    × IsStrong setup.python password (setup.python.lower (strip email) ∷ codes "aspis auditor" ∷ [])
Needs setup db (creating v email password permissions id) =
    Entitled setup v (Role.bank_admin ∷ []) (codes "admin_users") db
    × IsStrong setup.python password (setup.python.lower (strip email) ∷ codes "bank admin" ∷ [])
Needs setup db (deciding v id decision reason) =
    Entitled setup v (Role.bank_admin ∷ Role.aspis_admin ∷ []) (codes "aspis_auditors") db

on_ok-inverse :
    {A : Type 0} (db : UserDb) (r : Result A) (rest : A → Answer)
    → (on_ok db r rest).0 ≡ ok tt
    → (a : A) × (r ≡ ok a) × ((rest a).0 ≡ ok tt)
on_ok-inverse db (err x) rest e = absurd (ground (arith, e))
on_ok-inverse db (ok a) rest e = (a, refl, e)

hash_password-IsStrong :
    (python : Python) (password : Text) (values : List Text) (hash : Text)
    → hash_password python password values ≡ ok hash
    → IsStrong python password values
unfolding hash_password
hash_password-IsStrong python password values hash e =
    elim (Option-cases (password_problem python password values)) [
      | inl none_found ↦ none_found
      | inr (problem, found) ↦ absurd (ground (arith, found, e))
    ]

register_checks-IsStrong :
    (python : Python) (fromisoformat : Text → Option Date) (today : Date) (input : RegisterInput)
    (name email : Text) (checked : Date × Text)
    → Registration.register_checks python fromisoformat today input name email ≡ ok checked
    → IsStrong python input.password (email ∷ name ∷ [])
unfolding Registration.register_checks
register_checks-IsStrong python fromisoformat today input name email checked e =
    elim (Outcome-cases (hash_password python input.password (email ∷ name ∷ []))) [
      | inl (hash, done) ↦
          hash_password-IsStrong python input.password (email ∷ name ∷ []) hash done
      | inr (x, fails) ↦ absurd (ground (arith, fails, e))
    ]

auditor_checks-IsStrong :
    (python : Python) (email password hash : Text)
    → Registration.auditor_checks python email password ≡ ok hash
    → IsStrong python password (email ∷ codes "aspis auditor" ∷ [])
unfolding Registration.auditor_checks
auditor_checks-IsStrong python email password hash e =
    hash_password-IsStrong python password (email ∷ codes "aspis auditor" ∷ []) hash
      (then_pass
        (raise_if (not (Registration.is_email email)) (validation_error "email is invalid"))
        (hash_password python password (email ∷ codes "aspis auditor" ∷ [])) hash e).1

user_checks-IsStrong :
    (python : Python) (email password : Text) (requested : List Text) (checked : List Text × Text)
    → Administration.user_checks python email password requested ≡ ok checked
    → IsStrong python password (email ∷ codes "bank admin" ∷ [])
unfolding Administration.user_checks
user_checks-IsStrong python email password requested checked e =
    let named = select (λ scope. mentions scope requested) permission_scopes in
    elim (Outcome-cases (Administration.check_permissions named requested)) [
      | inr (x, fails) ↦ absurd (ground (arith, fails, e))
      | inl (permissions, passes) ↦
          elim (Outcome-cases (hash_password python password (email ∷ codes "bank admin" ∷ []))) [
            | inl (hash, done) ↦
                hash_password-IsStrong python password (email ∷ codes "bank admin" ∷ []) hash done
            | inr (x, fails) ↦ absurd (ground (arith, passes, fails, e))
          ]
    ]

-- What was needed of a request that is served.
pub serve-Needs :
    (setup : Setup) (call : Call) (db : UserDb)
    → (Calls.serve setup call db).0 ≡ ok tt
    → Needs setup db call
unfolding Calls.serve Registration.register Registration.register_aspis_auditor
    Administration.admin_create_user Administration.decide_aspis_auditor_request
serve-Needs setup (registering limited today http input d s) db e =
    let name = strip input.legal_name in
    let email = setup.python.lower (strip input.email) in
    let checks =
      Registration.register_checks setup.python setup.fromisoformat today input name email in
    let (checked, passes, stored) =
      on_ok-inverse db (limited >> checks)
        (λ (c : Date × Text). accepted db (
          Registration.store_customer http (new_profile d name c.0 email (strip input.phone)) c.1 d
            s db))
        e in
    let (slow, fine) = then_pass limited checks checked passes in
    (
      slow,
      register_checks-IsStrong setup.python setup.fromisoformat today input name email checked fine,
    )
serve-Needs setup (applying limited http raw_email password d s) db e =
    let email = setup.python.lower (strip raw_email) in
    let checks = Registration.auditor_checks setup.python email password in
    let (hash, passes, stored) =
      on_ok-inverse db (limited >> checks)
        (λ (hash : Text). accepted db (Registration.store_auditor http email hash d s db)) e in
    let (slow, fine) = then_pass limited checks hash passes in
    (slow, auditor_checks-IsStrong setup.python email password hash fine)
serve-Needs setup (creating v raw_email password permissions id) db e =
    let email = setup.python.lower (strip raw_email) in
    let (session, entered, rest) =
      on_ok-inverse db (Calls.admitted setup (Role.bank_admin ∷ []) v db)
        (λ (session : Session).
          Administration.admin_create_user setup.python session v.http raw_email password
            permissions id v.stamp db)
        e in
    let guards = Administration.guards setup.python session (codes "admin_users") db in
    let checks = Administration.user_checks setup.python email password permissions in
    let (checked, passes, stored) =
      on_ok-inverse db (guards >> checks)
        (λ (c : List Text × Text).
          created db
            (Administration.store_admin v.http session.principal email c.0 c.1 id v.stamp db))
        rest in
    let (guarded, fine) = then_pass guards checks checked passes in
    (
      admitted-IsEntitled setup v (Role.bank_admin ∷ []) (codes "admin_users") db session entered
          guarded,
      user_checks-IsStrong setup.python email password permissions checked fine,
    )
serve-Needs setup (deciding v id decision raw_reason) db e =
    let reason = strip raw_reason in
    let roles = Role.bank_admin ∷ Role.aspis_admin ∷ [] in
    let (session, entered, rest) =
      on_ok-inverse db (Calls.admitted setup roles v db)
        (λ (session : Session).
          Administration.decide_aspis_auditor_request setup.python session v.http id decision
            raw_reason v.stamp db)
        e in
    let guards = Administration.guards setup.python session (codes "aspis_auditors") db in
    let explained =
      raise_if (is_reject decision && is_blank reason)
        (validation_error "A reason is required when rejecting an auditor.") in
    let (done, passes, stored) =
      on_ok-inverse db (guards >> explained)
        (λ (done : Unit {0}).
          committed db
            (Administration.decide_request v.http session.principal id decision reason v.stamp db))
        rest in
    admitted-IsEntitled setup v roles (codes "aspis_auditors") db session entered
      (then_pass guards explained done passes).0
