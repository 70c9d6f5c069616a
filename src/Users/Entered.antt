-- ===== src/Users/Entered.antt =====
-- What the guards of a handler have made sure of when they let a request through.
use bantam_bank.Prelude.{
  ◌≤◌, ◌+◌, ◌≡◌, ◌≢◌, ◌⊎◌, refl, ◌==◌, ==_iff, any, not, ◌&&◌, if◌then◌else◌, map, select, find?,
  Bool, true, none, some, List, [], ◌∷◌, arith, Option, Bool-cases, Option-cases, inl, inr, ap, sym,
  subst, ◌∙◌,
}
use bantam_bank.Prelude.Members.{In, find?-In, any-In}
use bantam_bank.Prelude.Text.{Text, ◌==ₜ◌}
use bantam_bank.Domain.{Uuid, Time, Role, Principal}
use bantam_bank.Errors.{Error, Result, ok, err, Outcome-cases}
use bantam_bank.Auth.{ParsedAccessToken, parse_with_claims, seconds}
use bantam_bank.Bank.Reply.{http_error}
use bantam_bank.Ledger.Written.{then_pass}
use bantam_bank.Passwords.{Python}
use bantam_bank.Users.{
  UserDb, UserAccount, Permission, is_user, is_active_user, mentions, permission_scopes,
}
use bantam_bank.Users.Access
use bantam_bank.Users.Access.{same_role, is_current, is_super, is_blank}
use bantam_bank.Users.Administration
use bantam_bank.Users.Administration.{Session}
use bantam_bank.Users.Calls
use bantam_bank.Users.Calls.{Setup, Visitor, micros, session_of}

pub same_role-eq : (a b : Role) → same_role a b ≡ true → a ≡ b
same_role-eq a b e = ground (arith, e)

-- Whoever is authenticated has an active account with the role of the token.
pub authenticated-account :
    (setup : Setup) (v : Visitor) (db : UserDb) (token : ParsedAccessToken)
    → Calls.authenticated setup v db ≡ ok token
    → (u : UserAccount) × In u db.users
      × (is_active_user u.status ≡ true)
      × (u.user_id ≡ token.principal.user_id)
      × (u.role ≡ token.principal.role)
unfolding Calls.authenticated Access.authenticated_principal
authenticated-account setup v db token e =
    elim (Outcome-cases (Access.raw_token setup.python v.credentials)) [
      | inr (x, fails) ↦ absurd (ground (arith, fails, e))
      | inl (raw, got) ↦
          elim (Outcome-cases
            (parse_with_claims setup.decode (seconds v.stamp.now) v.revocations raw)) [
              | inr (x, fails) ↦ absurd (ground (arith, got, fails, e))
              | inl (parsed, read) ↦
                  elim (Option-cases (find? (is_user parsed.principal.user_id) db.users)) [
                    | inl missing ↦ absurd (ground (arith, got, read, missing, e))
                    | inr (u, found) ↦
                        let same : parsed ≡ token = ground (arith, got, read, found, e) in
                        let current : is_current parsed.principal u ≡ true =
                          ground (arith, got, read, found, e) in
                        let (i, own) =
                          find?-In (is_user parsed.principal.user_id) db.users u found in
                        (
                          u,
                          i,
                          ground (arith, current),
                          (==_iff u.user_id parsed.principal.user_id).0 own
                              ∙ ap (λ (t : ParsedAccessToken). t.principal.user_id) same,
                          same_role-eq u.role parsed.principal.role (ground (arith, current))
                              ∙ ap (λ (t : ParsedAccessToken). t.principal.role) same,
                        )
                  ]
            ]
    ]

-- A second factor that is recent enough.
abbrev pub IsRecent : (ttl now : Time) → Option Time → Type 0
IsRecent ttl now mfa_at = (t : Time) × (mfa_at ≡ some t) × (now ≤ t + ttl)

require_recent_mfa-IsRecent :
    (ttl now : Time) (mfa_at : Option Time)
    → Access.require_recent_mfa ttl now mfa_at ≡ ok tt
    → IsRecent ttl now mfa_at
unfolding Access.require_recent_mfa
require_recent_mfa-IsRecent ttl now none e = absurd (ground (arith, e))
require_recent_mfa-IsRecent ttl now (some t) e = (t, refl, ground (arith, e))

-- The scope is the user's: by a permission, or as the super administrator.
abbrev pub HasScope : Python → (super_admin_email : Text) → Uuid → (scope : Text) → UserDb → Type 0
HasScope python email id scope db =
    ((p : Permission) × In p db.permissions × (p.user_id ≡ id) × ((p.scope ==ₜ scope) ≡ true))
    ⊎ ((email ≢ []) × ((u : UserAccount) × In u db.users × (is_super python email id u ≡ true)))

granted-scope :
    (id : Uuid) (scope : Text) (permissions : List Permission)
    → mentions scope (
        map
          (λ (g : Permission). g.scope)
          (select (λ (g : Permission). g.user_id == id) permissions))
      ≡ true
    → (p : Permission) × In p permissions × (p.user_id ≡ id) × ((p.scope ==ₜ scope) ≡ true)
granted-scope id scope [] e = absurd (ground (arith, e))
granted-scope id scope (g ∷ permissions) e = elim (Bool-cases (g.user_id == id)) [
  | inr other ↦
      let (p, i, own, named) = granted-scope id scope permissions (ground (arith, other, e)) in
      (p, inr i, own, named)
  | inl own ↦ elim (Bool-cases (g.scope ==ₜ scope)) [
    | inl named ↦ (g, inl refl, (==_iff g.user_id id).0 own, named)
    | inr unlike ↦
        let (p, i, own', named) =
          granted-scope id scope permissions (ground (arith, own, unlike, e)) in
        (p, inr i, own', named)
  ]
]

passes :
    (known named : Bool)
    → let test : Result (Unit {0}) =
        if not known
        then err Error.runtime_error
        else if named
        then ok tt
        else err (http_error "FORBIDDEN" 403) in
      test ≡ ok tt → named ≡ true
passes known named e = ground (arith, e)

require_admin_scope-HasScope :
    (python : Python) (email : Text) (p : Principal) (scope : Text) (db : UserDb)
    → p.role ≡ Role.bank_admin
    → Access.require_admin_scope python email p scope db ≡ ok tt
    → HasScope python email p.user_id scope db
unfolding Access.require_admin_scope Access.describe_admin_access
require_admin_scope-HasScope python email p scope db role e =
    let owned =
      map (λ (g : Permission). g.scope)
        (select (λ (g : Permission). g.user_id == p.user_id) db.permissions) in
    elim (Bool-cases (not (is_blank email) && any (is_super python email p.user_id) db.users)) [
      | inl both ↦ inr (
        λ none_set. ground (arith, both, none_set),
        any-In (is_super python email p.user_id) db.users (ground (arith, both)),
      )
      | inr plain ↦ inl (
          granted-scope p.user_id scope db.permissions (
            passes (mentions scope permission_scopes) (mentions scope owned)
              (rw (role, plain) at e)))
    ]

same_role-In : (role : Role) (roles : List Role) → any (same_role role) roles ≡ true → In role roles
same_role-In role roles e =
    let (found, i, like) = any-In (same_role role) roles e in
    subst (λ r. In r roles) (sym (same_role-eq role found like)) i

-- What a handler behind its guards knows: the token, with one of the roles, is that of an active
-- account; its second factor is recent; and an administrator has the scope.
pub record IsEntitled (setup : Setup) (v : Visitor) (roles : List Role) (scope : Text) (db : UserDb)
    (token : ParsedAccessToken) (u : UserAccount) : Type 0 where
  pub entered : Calls.authenticated setup v db ≡ ok token
  pub stored : In u db.users
  pub active : is_active_user u.status ≡ true
  pub own : u.user_id ≡ token.principal.user_id
  pub same : u.role ≡ token.principal.role
  pub allowed : In u.role roles
  pub recent : IsRecent setup.mfa_step_up_ttl v.stamp.now (micros token.mfa_at)
  pub scoped :
      u.role ≡ Role.bank_admin → HasScope setup.python setup.super_admin_email u.user_id scope db

-- The guards of a handler let nobody else through.
pub admitted-IsEntitled :
    (setup : Setup) (v : Visitor) (roles : List Role) (scope : Text) (db : UserDb)
    (session : Session)
    → Calls.admitted setup roles v db ≡ ok session
    → Administration.guards setup.python session scope db ≡ ok tt
    → (token : ParsedAccessToken) × (u : UserAccount) × IsEntitled setup v roles scope db token u
unfolding Calls.admitted Administration.guards Access.require_roles
admitted-IsEntitled setup v roles scope db session e g =
    elim (Outcome-cases (Calls.authenticated setup v db)) [
      | inr (x, fails) ↦ absurd (ground (arith, fails, e))
      | inl (token, entered) ↦
          let same : session ≡ session_of setup v token = ground (arith, entered, e) in
          let listed : any (same_role token.principal.role) roles ≡ true =
            ground (arith, entered, e) in
          let (u, stored, active, own, role) = authenticated-account setup v db token entered in
          let g' =
            subst (λ (s : Session). Administration.guards setup.python s scope db ≡ ok tt) same g in
          let (timely, within) =
            then_pass
              (Access.require_recent_mfa setup.mfa_step_up_ttl v.stamp.now (micros token.mfa_at))
              (Access.require_admin_scope setup.python setup.super_admin_email token.principal scope
                db)
              tt g' in
          (
            token,
            u,
            record {
              entered = entered;
              stored = stored;
              active = active;
              own = own;
              same = role;
              allowed = rw role (same_role-In token.principal.role roles listed);
              recent =
                  require_recent_mfa-IsRecent setup.mfa_step_up_ttl v.stamp.now
                    (micros token.mfa_at) timely;
              scoped = λ admin. rw own (
                  require_admin_scope-HasScope setup.python setup.super_admin_email token.principal
                    scope db (sym role ∙ admin) within);
            },
          )
    ]
