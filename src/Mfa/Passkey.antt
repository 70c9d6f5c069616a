-- ===== src/Mfa/Passkey.antt =====
-- bantam/mfa.py: `complete_passkey`.
use bantam_bank.Prelude.{
  ℕ, Bool, ◌&&◌, ◌==◌, any, find?, update, select, Option, none, some, List, [], ◌∷◌, if◌then◌else◌,
}
use bantam_bank.Prelude.Text.{Text, ◌==ₜ◌, codes}
use bantam_bank.Domain.{Uuid, Time}
use bantam_bank.Errors.{Outcome, ok, err, ◌>>=◌, ◌>>◌, or_raise, raise_if}
use bantam_bank.Mfa.Store.{
  MfaMethod, MfaError, refuse, MfaDb, MfaService, MfaTransaction, Purpose, PasskeyRow, Registered,
  Credential, is_passkey_of,
}
use bantam_bank.Mfa.Transactions.{
  MfaCompletion, transaction_for_update, record_failure, consume, or_rollback,
}

abbrev pub has_credential : Text → PasskeyRow → Bool
has_credential id p = p.credential_id ==ₜ id

abbrev pub known_transports : List Text
known_transports =
    codes "ble"
    ∷ codes "cable"
    ∷ codes "hybrid"
    ∷ codes "internal"
    ∷ codes "nfc"
    ∷ codes "smart-card"
    ∷ codes "usb"
    ∷ []

-- `safe_transports`: the known names among those given, sorted, each once.
unfoldable pub safe_transports : List Text → List Text
safe_transports given = select (λ name. any (λ other. other ==ₜ name) given) known_transports

abbrev pub asserted : Time → ℕ → Bool → PasskeyRow → PasskeyRow
asserted now sign_count backed_up p = record p {
  sign_count = sign_count;
  last_used_at = some now;
  backed_up = backed_up;
}

-- The verification of a login, where the transaction holds a challenge.
abbrev pub verified : MfaService → MfaTransaction → Credential → PasskeyRow → Option (ℕ × Bool)
verified mfa t credential p = elim t.challenge [
  | none ↦ none
  | some challenge ↦ mfa.verify_authentication credential challenge p.public_key p.sign_count
]

abbrev pub registered : MfaService → MfaTransaction → Credential → Option Registered
registered mfa t credential = elim t.challenge [
  | none ↦ none
  | some challenge ↦ mfa.verify_registration credential challenge
]

-- The branch of a login.
unfoldable pub login_passkey :
    MfaService
    → Time
    → MfaTransaction
    → (raw_id : Text) → Credential
    → MfaDb
    → Outcome MfaError MfaCompletion × MfaDb
login_passkey mfa now t raw_id credential db =
    let failed = record_failure t.transaction_id "The passkey could not be verified." db in
    elim (find? (λ p. is_passkey_of t.user_id p && has_credential raw_id p) db.passkeys) [
      | none ↦ failed
      | some p ↦ elim (verified mfa t credential p) [
        | none ↦ failed
        | some (sign_count, backed_up) ↦
            let mine = λ (q : PasskeyRow). (q.user_id == t.user_id) && has_credential raw_id q in
            or_rollback db (
              consume now t MfaMethod.passkey (record db {
                passkeys = update mine (asserted now sign_count backed_up) db.passkeys;
              }))
      ]
    ]

abbrev pub already_enrolled : MfaError
already_enrolled = refuse "PASSKEY_ALREADY_ENROLLED" "That passkey is already registered." 409

-- The INSERT of a new passkey, under the identifier that `uuid4` drew: a clash of identifiers is the
-- violation that the caller turns into `PASSKEY_ALREADY_ENROLLED`.
unfoldable pub insert_passkey :
    (new_id : Uuid) → MfaTransaction → Registered → List Text → MfaDb → Outcome MfaError MfaDb
insert_passkey new_id t r transports db = do
  label ← or_raise t.factor_label MfaError.not_null_violation
  raise_if (any (λ (p : PasskeyRow). p.webauthn_credential_id == new_id) db.passkeys)
      already_enrolled
  ok (record db {
    passkeys =
        record {
          webauthn_credential_id = new_id;
          user_id = t.user_id;
          credential_id = r.credential_id;
          public_key = r.public_key;
          sign_count = r.sign_count;
          transports = safe_transports transports;
          device_type = r.device_type;
          backed_up = r.backed_up;
          label = label;
          last_used_at = none;
          revoked_at = none;
        }
        ∷ db.passkeys;
  })

-- The branch of an enrolment.
unfoldable pub enroll_passkey :
    MfaService
    → (new_id : Uuid) → Time
    → MfaTransaction
    → Credential
    → MfaDb
    → Outcome MfaError MfaCompletion × MfaDb
unfolding insert_passkey
enroll_passkey mfa new_id now t credential db = elim (registered mfa t credential) [
  | none ↦ record_failure t.transaction_id "The passkey could not be registered." db
  | some r ↦
      if any (has_credential r.credential_id) db.passkeys
      then record_failure t.transaction_id "That passkey is already registered." db
      else or_rollback db
          (insert_passkey new_id t r credential.transports db >>= consume now t MfaMethod.passkey)
]

abbrev pub not_for_passkeys : MfaError
not_for_passkeys = refuse "INVALID_MFA_TRANSACTION" "This MFA request cannot accept a passkey." 409

unfoldable pub attempt_passkey :
    MfaService
    → (new_id : Uuid) → Time
    → MfaTransaction
    → (raw_id : Text) → Credential
    → MfaDb
    → Outcome MfaError MfaCompletion × MfaDb
unfolding login_passkey enroll_passkey
attempt_passkey mfa new_id now t raw_id credential db = elim t.purpose [
  | Purpose.login ↦ login_passkey mfa now t raw_id credential db
  | Purpose.enroll_passkey ↦ enroll_passkey mfa new_id now t credential db
  | Purpose.enroll_choice ↦ (err not_for_passkeys, db)
  | Purpose.enroll_totp ↦ (err not_for_passkeys, db)
]

-- `complete_passkey`
unfoldable pub complete_passkey :
    MfaService
    → (new_id : Uuid) → Time
    → (transaction_id : Uuid) → Credential
    → MfaDb
    → Outcome MfaError MfaCompletion × MfaDb
unfolding attempt_passkey
complete_passkey mfa new_id now id credential db = elim credential.raw_id [
  | none ↦ (err (refuse "INVALID_PASSKEY_RESPONSE" "The passkey response was invalid." 401), db)
  | some raw_id ↦ elim (transaction_for_update now id db) [
    | err e ↦ (err e, db)
    | ok t ↦ attempt_passkey mfa new_id now t raw_id credential db
  ]
]
