-- ===== src/Mfa/Transactions.antt =====
-- bantam/mfa.py: `_transaction_for_update`, `_record_failure` and `_consume`.
use bantam_bank.Prelude.{
  ℕ, suc, Bool, true, false, ◌&&◌, ◌==◌, ltb, any, find?, update, Option, none, some, List, ◌∷◌,
  if◌then◌else◌,
}
use bantam_bank.Domain.{Uuid, Time, Role}
use bantam_bank.Errors.{Outcome, ok, err, ◌>>=◌, or_raise}
use bantam_bank.Mfa.Store.{
  MfaMethod, MfaError, refuse, User, MfaDb, MfaTransaction, Purpose, Revocation, is_none,
  is_active_user,
}
use Prim.Native.String.{String}

pub record MfaCompletion : Type 0 where
  pub user_id : Uuid
  pub customer_id : Option Uuid
  pub role : Role
  pub method : MfaMethod
  pub enrolled : Bool

-- MAX_ATTEMPTS
abbrev pub max_attempts : ℕ
max_attempts = 5

abbrev pub has_id : Uuid → MfaTransaction → Bool
has_id id t = t.transaction_id == id

-- The WHERE clause of `_transaction_for_update` past the identifier: neither expired, nor consumed,
-- nor out of attempts, and of an active user.
abbrev pub is_open : Time → MfaDb → MfaTransaction → Bool
is_open now db t =
    ltb now t.expires_at
    && is_none t.consumed_at
    && ltb t.attempts max_attempts
    && any (is_active_user t.user_id) db.users

abbrev pub invalid_transaction : MfaError
invalid_transaction =
    refuse "INVALID_MFA_TRANSACTION" "This MFA request expired or was already used." 401

-- `_transaction_for_update`
unfoldable pub transaction_for_update : Time → Uuid → MfaDb → Outcome MfaError MfaTransaction
transaction_for_update now id db =
    or_raise (find? (λ t. has_id id t && is_open now db t) db.transactions) invalid_transaction

abbrev pub failed_once : MfaTransaction → MfaTransaction
failed_once t = record t { attempts = suc t.attempts }

-- `_record_failure`, and the failure that is raised once it is committed.
abbrev pub record_failure {ℓ} : {A : Type ℓ} → Uuid → String → MfaDb → Outcome MfaError A × MfaDb
record_failure id message db = (
  err (refuse "MFA_VERIFICATION_FAILED" message 401),
  record db { transactions = update (has_id id) failed_once db.transactions },
)

abbrev pub used_at : Time → MfaTransaction → MfaTransaction
used_at now t = record t { consumed_at = some now }

abbrev pub enabled : User → User
enabled u = record u { mfa_enabled = true }

-- The session that started an enrolment is revoked, once.
abbrev pub revoke_source : MfaTransaction → List Revocation → List Revocation
revoke_source t revocations = elim t.source_jti [
  | none ↦ revocations
  | some jti ↦ elim t.source_expires_at [
    | none ↦ revocations
    | some expires_at ↦
        if any (λ (r : Revocation). r.jti == jti) revocations
        then revocations
        else record { jti = jti; user_id = t.user_id; expires_at = expires_at } ∷ revocations
  ]
]

abbrev pub is_enrolment : Purpose → Bool
is_enrolment Purpose.login = false
is_enrolment _ = true

-- What `_consume` writes.
abbrev pub consumed : Time → MfaTransaction → MfaDb → MfaDb
consumed now t db = record db {
  transactions = update (has_id t.transaction_id) (used_at now) db.transactions;
  users = update (λ u. u.user_id == t.user_id) enabled db.users;
  revocations = revoke_source t db.revocations;
}

-- `_consume`
unfoldable pub consume :
    Time → MfaTransaction → MfaMethod → MfaDb → Outcome MfaError (MfaCompletion × MfaDb)
consume now t method db = do
  let db' = consumed now t db
  u ←
      or_raise (find? (is_active_user t.user_id) db'.users)
        (refuse "UNAUTHENTICATED" "The user account is no longer active." 401)
  ok (
    record {
      user_id = u.user_id;
      customer_id = u.customer_id;
      role = u.role;
      method = method;
      enrolled = is_enrolment t.purpose;
    },
    db',
  )

-- The end of a ceremony: what raises inside the database transaction leaves the tables as they were.
abbrev pub or_rollback {ℓ} :
    {A : Type ℓ} → MfaDb → Outcome MfaError (A × MfaDb) → Outcome MfaError A × MfaDb
or_rollback before (err e) = (err e, before)
or_rollback before (ok (a, db)) = (ok a, db)
