-- ===== src/Users/Tables.antt =====
-- What the database transactions leave in the tables of users, requests and permissions.
use bantam_bank.Prelude.{
  ◌≡◌, ◌≢◌, refl, ◌==◌, ◌||◌, any, update, true, false, Option-cases, none, some, List, [], ◌∷◌,
  arith, inl, inr, ap, sym, subst, ◌∙◌, find?,
}
use bantam_bank.Prelude.Members.{In}
use bantam_bank.Prelude.Text.{Text}
use bantam_bank.Domain.{Uuid, Time, Role, Principal}
use bantam_bank.Errors.{Result, ok, err, Outcome-cases}
use bantam_bank.Db.{Db}
use bantam_bank.Bank.Reply.{Http, Stamp}
use bantam_bank.Ledger.Written.{>>=-eq-ok}
use bantam_bank.Users
use bantam_bank.Users.{
  UserDb, UserAccount, Profile, AuditorRequest, Permission, is_user, is_request, is_pending,
  insert_customer, insert_user, insert_request, insert_permission, in_bank, role_matches,
}
use bantam_bank.Users.Registration
use bantam_bank.Users.Registration.{Drawn, new_user, new_request}
use bantam_bank.Users.Administration
use bantam_bank.Users.Administration.{
  Decision, decided_account, decided_request, is_applicant, find_request, grant,
}

-- The same users, requests and permissions.
pub record SameTables (db db' : UserDb) : Type 0 where
  pub users : db'.users ≡ db.users
  pub requests : db'.requests ≡ db.requests
  pub permissions : db'.permissions ≡ db.permissions

pub in_bank-SameTables :
    (r : Result Db) (db db' : UserDb) → in_bank r db ≡ ok db' → SameTables db db'
in_bank-SameTables (ok bank) db db' e = ground (arith, e)
in_bank-SameTables (err x) db db' e = absurd (ground (arith, e))

-- One account is added, whose role matches its customer.
pub record AddsUser (u : UserAccount) (db db' : UserDb) : Type 0 where
  pub users : db'.users ≡ u ∷ db.users
  pub requests : db'.requests ≡ db.requests
  pub permissions : db'.permissions ≡ db.permissions
  pub matching : role_matches u ≡ true

pub insert_user-AddsUser :
    (u : UserAccount) (db db' : UserDb) → insert_user u db ≡ ok db' → AddsUser u db db'
unfolding Users.insert_user
insert_user-AddsUser u db db' e = ground (arith, e)

pub store_customer-AddsUser :
    (http : Http) (p : Profile) (hash : Text) (d : Drawn) (s : Stamp) (db db' : UserDb)
    → Registration.store_customer http p hash d s db ≡ ok db'
    → AddsUser (new_user d.user_id p.email hash Role.customer (some p.customer_id)) db db'
unfolding Registration.store_customer
store_customer-AddsUser http p hash d s db db' e = ground (arith, e)

-- An applicant's account and request are added, the identifier of the request being new.
pub record AddsApplicant (d : Drawn) (u : UserAccount) (db db' : UserDb) : Type 0 where
  pub users : db'.users ≡ u ∷ db.users
  pub requests : db'.requests ≡ new_request d ∷ db.requests
  pub permissions : db'.permissions ≡ db.permissions
  pub fresh :
      any
        (λ (old : AuditorRequest). (old.request_id == d.subject_id) || (old.user_id == d.user_id))
        db.requests
      ≡ false

pub store_auditor-AddsApplicant :
    (http : Http) (email hash : Text) (d : Drawn) (s : Stamp) (db db' : UserDb)
    → Registration.store_auditor http email hash d s db ≡ ok db'
    → AddsApplicant d (new_user d.user_id email hash Role.pending_approval none) db db'
unfolding Registration.store_auditor
store_auditor-AddsApplicant http email hash d s db db' e = ground (arith, e)

insert_permission-adds :
    (p : Permission) (db db' : UserDb)
    → insert_permission p db ≡ ok db'
    → (db'.users ≡ db.users) × (db'.requests ≡ db.requests) × (db'.permissions ≡ p ∷ db.permissions)
unfolding Users.insert_permission
insert_permission-adds p db db' e = ground (arith, e)

-- Permissions of a user are added, and nothing else changes.
pub record Grants (id : Uuid) (scopes : List Text) (db db' : UserDb) : Type 0 where
  pub users : db'.users ≡ db.users
  pub requests : db'.requests ≡ db.requests
  pub kept : (p : Permission) → In p db.permissions → In p db'.permissions
  pub granted : scopes ≢ [] → (p : Permission) × In p db'.permissions × (p.user_id ≡ id)

grant-Grants :
    (id by : Uuid) (scopes : List Text) (db db' : UserDb)
    → grant id by scopes db ≡ ok db'
    → Grants id scopes db db'
unfolding Administration.grant
grant-Grants id by [] db db' e =
    let same : db ≡ db' = ground (arith, e) in
    record {
      users = ap (λ (d : UserDb). d.users) (sym same);
      requests = ap (λ (d : UserDb). d.requests) (sym same);
      kept = λ p i. subst (λ (d : UserDb). In p d.permissions) same i;
      granted = λ some_scope. absurd (some_scope refl);
    }
grant-Grants id by (scope ∷ scopes) db db' e =
    let p : Permission = record { user_id = id; scope = scope; granted_by = some by } in
    elim (Outcome-cases (insert_permission p db)) [
      | inr (x, fails) ↦ absurd (ground (arith, fails, rw (fails, grant) at e))
      | inl (a, wrote) ↦
          let (users, requests, permissions) = insert_permission-adds p db a wrote in
          let rest = grant-Grants id by scopes a db' (rw (wrote, grant) at e) in
          let here : In p a.permissions = rw permissions (inl refl) in
          record {
            users = rest.users ∙ users;
            requests = rest.requests ∙ requests;
            kept = λ q i. rest.kept q (rw permissions (inr i));
            granted = λ some_scope. (p, rest.kept p here, refl);
          }
    ]

-- An administrator is added, with permissions.
pub record AddsAdmin (u : UserAccount) (scopes : List Text) (db db' : UserDb) : Type 0 where
  pub users : db'.users ≡ u ∷ db.users
  pub requests : db'.requests ≡ db.requests
  pub kept : (p : Permission) → In p db.permissions → In p db'.permissions
  pub granted : scopes ≢ [] → (p : Permission) × In p db'.permissions × (p.user_id ≡ u.user_id)

pub store_admin-AddsAdmin :
    (http : Http) (by : Principal) (email : Text) (scopes : List Text) (hash : Text) (id : Uuid)
    (s : Stamp) (db db' : UserDb)
    → Administration.store_admin http by email scopes hash id s db ≡ ok db'
    → AddsAdmin (new_user id email hash Role.bank_admin none) scopes db db'
unfolding Administration.store_admin
store_admin-AddsAdmin http by email scopes hash id s db db' e =
    let (a, inserted, rest) = >>=-eq-ok _ _ e in
    let (b, granted, wrote) = >>=-eq-ok _ _ rest in
    let added = insert_user-AddsUser _ db a inserted in
    let grants = grant-Grants id by.user_id scopes a b granted in
    let same = in_bank-SameTables _ b db' wrote in
    record {
      users = same.users ∙ grants.users ∙ added.users;
      requests = same.requests ∙ grants.requests ∙ added.requests;
      kept = λ p i. rw same.permissions (grants.kept p (rw added.permissions i));
      granted = λ some_scope.
          let (p, i, own) = grants.granted some_scope in (p, rw same.permissions i, own);
    }

-- A decision changes the applicant's account and the request, which was pending.
pub record Decides (id : Uuid) (decision : Decision) (by : Uuid) (reason : Text) (now : Time)
    (r : AuditorRequest) (db db' : UserDb) : Type 0 where
  pub found : find? (is_request id) db.requests ≡ some r
  pub waiting : is_pending r.status ≡ true
  pub users : db'.users ≡ update (is_applicant r.user_id) (decided_account decision) db.users
  pub requests :
      db'.requests ≡ update (is_request id) (decided_request decision by reason now) db.requests
  pub permissions : db'.permissions ≡ db.permissions

pub decide_request-Decides :
    (http : Http) (by : Principal) (id : Uuid) (decision : Decision) (reason : Text) (s : Stamp)
    (db db' : UserDb)
    → Administration.decide_request http by id decision reason s db ≡ ok db'
    → (r : AuditorRequest) × Decides id decision by.user_id reason s.now r db db'
unfolding Administration.decide_request
decide_request-Decides http by id decision reason s db db' e =
    elim (Option-cases (find? (is_request id) db.requests)) [
      | inl missing ↦ absurd (ground (arith, missing, e))
      | inr (r, found) ↦ (r, ground (arith, found, e))
    ]
