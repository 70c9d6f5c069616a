-- ===== src/Users.antt =====
-- The accounts of users (migrations/001_initial_schema.sql, 007_aspis_approval_and_mfa.sql and
-- 009_admin_rbac.sql), with the constraints of their tables: what bantam/api.py does with them is
-- in the children.
use bantam_bank.Prelude.{
  ℕ, ◌==◌, not, ◌&&◌, ◌||◌, any, Bool, true, false, Option, none, some, List, [], ◌∷◌,
  if◌then◌else◌,
}
use bantam_bank.Prelude.Text.{Text, ◌==ₜ◌, codes}
use bantam_bank.Domain.{Uuid, Time, Role, KycStatus, CustomerStatus, Principal}
use bantam_bank.Errors.{Error, Result, ok, err, ◌>>=◌, ◌>>◌, raise_if}
use bantam_bank.Db.{Db, Customer, sql_eq}
use bantam_bank.Auth.{is_customer, is_given}
pub mod Access
pub mod Registration
pub mod Administration
pub mod Calls
pub mod Tables
pub mod Vetted
pub mod Entered
pub mod Needed
pub mod Guarded
pub mod Served
pub mod PasswordLogin
pub mod Careful
pub mod Verified
pub mod Tests
pub mod LoginTests

pub data UserStatus : Type 0 where
  active locked disabled : UserStatus

-- user_accounts
pub record UserAccount : Type 0 where
  pub user_id : Uuid
  pub email : Text
  pub password_hash : Text
  pub role : Role
  pub customer_id : Option Uuid
  pub status : UserStatus
  pub mfa_enabled : Bool

pub record Date : Type 0 where
  pub year : ℕ
  pub month : ℕ
  pub day : ℕ

-- The columns of `customers` that only registration writes.
pub record Profile : Type 0 where
  pub customer_id : Uuid
  pub legal_name : Text
  pub date_of_birth : Date
  pub email : Text
  pub phone : Text

pub data RequestStatus : Type 0 where
  pending approved rejected : RequestStatus

-- aspis_auditor_requests
pub record AuditorRequest : Type 0 where
  pub request_id : Uuid
  pub user_id : Uuid
  pub status : RequestStatus
  pub decided_by : Option Uuid
  pub decision_reason : Option Text
  pub decided_at : Option Time

-- admin_permissions
pub record Permission : Type 0 where
  pub user_id : Uuid
  pub scope : Text
  pub granted_by : Option Uuid

-- These tables, and those of the bank.
pub record UserDb : Type 0 where
  pub bank : Db
  pub profiles : List Profile
  pub users : List UserAccount
  pub requests : List AuditorRequest
  pub permissions : List Permission

abbrev pub is_user : Uuid → UserAccount → Bool
is_user id u = u.user_id == id

abbrev pub is_request : Uuid → AuditorRequest → Bool
is_request id r = r.request_id == id

abbrev pub is_pending_approval : Role → Bool
is_pending_approval Role.pending_approval = true
is_pending_approval _ = false

abbrev pub is_bank_admin : Role → Bool
is_bank_admin Role.bank_admin = true
is_bank_admin _ = false

abbrev pub is_active_user : UserStatus → Bool
is_active_user UserStatus.active = true
is_active_user _ = false

abbrev pub is_pending : RequestStatus → Bool
is_pending RequestStatus.pending = true
is_pending _ = false

-- ADMIN_PERMISSION_SCOPES
abbrev pub permission_scopes : List Text
permission_scopes =
    codes "admin_users"
    ∷ codes "customers"
    ∷ codes "transactions"
    ∷ codes "risk"
    ∷ codes "audit"
    ∷ codes "asvs"
    ∷ codes "aspis_auditors"
    ∷ codes "reconciliation"
    ∷ codes "workflows"
    ∷ codes "attack_lab"
    ∷ codes "company_financials"
    ∷ []

abbrev pub mentions : Text → List Text → Bool
mentions word words = any (λ other. other ==ₜ word) words

-- An INSERT into `customers`.
unfoldable pub insert_customer : Profile → UserDb → Result UserDb
insert_customer p db = do
  raise_if (any (λ (c : Customer). c.customer_id == p.customer_id) db.bank.customers)
      Error.unique_violation
  raise_if (any (λ (old : Profile). old.email ==ₜ p.email) db.profiles) Error.unique_violation
  ok (record db {
    bank = record db.bank {
      customers =
          record {
            customer_id = p.customer_id;
            kyc_status = KycStatus.pending_kyc;
            status = CustomerStatus.active;
          }
          ∷ db.bank.customers;
    };
    profiles = p ∷ db.profiles;
  })

-- `role = 'CUSTOMER'` exactly if there is a customer.
abbrev pub role_matches : UserAccount → Bool
role_matches u = if is_customer u.role then is_given u.customer_id else not (is_given u.customer_id)

abbrev pub is_taken : UserAccount → UserAccount → Bool
is_taken u old =
    (old.user_id == u.user_id) || (old.email ==ₜ u.email) || sql_eq old.customer_id u.customer_id

abbrev pub has_customer : Option Uuid → Db → Bool
has_customer none bank = true
has_customer (some id) bank = any (λ (c : Customer). c.customer_id == id) bank.customers

-- An INSERT into `user_accounts`.
unfoldable pub insert_user : UserAccount → UserDb → Result UserDb
insert_user u db = do
  raise_if (not (role_matches u)) Error.check_violation
  raise_if (any (is_taken u) db.users) Error.unique_violation
  raise_if (not (has_customer u.customer_id db.bank)) Error.foreign_key_violation
  ok (record db { users = u ∷ db.users })

-- An INSERT into `aspis_auditor_requests`.
unfoldable pub insert_request : AuditorRequest → UserDb → Result UserDb
insert_request r db = do
  raise_if
      (any
        (λ (old : AuditorRequest). (old.request_id == r.request_id) || (old.user_id == r.user_id))
        db.requests)
      Error.unique_violation
  raise_if (not (any (is_user r.user_id) db.users)) Error.foreign_key_violation
  ok (record db { requests = r ∷ db.requests })

-- The CHECK on `scope`.
unfoldable pub is_scope : Text → Bool
is_scope scope = mentions scope permission_scopes

abbrev pub has_user : Option Uuid → UserDb → Bool
has_user none db = true
has_user (some id) db = any (is_user id) db.users

-- An INSERT into `admin_permissions`.
unfoldable pub insert_permission : Permission → UserDb → Result UserDb
insert_permission p db = do
  raise_if (not (is_scope p.scope)) Error.check_violation
  raise_if
      (any (λ (old : Permission). (old.user_id == p.user_id) && (old.scope ==ₜ p.scope))
        db.permissions)
      Error.unique_violation
  raise_if (not (any (is_user p.user_id) db.users && has_user p.granted_by db))
      Error.foreign_key_violation
  ok (record db { permissions = p ∷ db.permissions })

-- A statement on the bank's tables.
abbrev pub in_bank : Result Db → UserDb → Result UserDb
in_bank (ok bank) db = ok (record db { bank = bank })
in_bank (err e) db = err e
