-- ===== src/Mfa/Login.antt =====
-- bantam/mfa.py: `factor_methods`, `begin_login`, `begin_authenticated_enrollment`,
-- `_insert_transaction` and `prepare_enrollment`. The options that the WebAuthn library builds for
-- the browser are left out; the challenge that it draws is an argument.
use bantam_bank.Prelude.{
  ◌+◌, Bool, true, false, not, ◌&&◌, ◌||◌, ◌==◌, ltb, leb, length, any, update, select, Option,
  none, some, List, [], ◌∷◌, if◌then◌else◌,
}
use bantam_bank.Prelude.Text.{Text, ◌==ₜ◌, codes, strip}
use bantam_bank.Domain.{Uuid, Time}
use bantam_bank.Errors.{Outcome, ok, ◌>>=◌, ◌>>◌, or_raise, raise_if}
use bantam_bank.Mfa.Store.{
  MfaMethod, MfaError, refuse, MfaDb, MfaService, MfaTransaction, Purpose, User, passkeys_enabled,
  role_requires_mfa, is_passkey_of, is_totp_of, is_none,
}
use bantam_bank.Mfa.Transactions.{transaction_for_update, has_id}

abbrev pub has_passkey : Uuid → MfaDb → Bool
has_passkey id db = any (is_passkey_of id) db.passkeys

abbrev pub has_totp : Uuid → MfaDb → Bool
has_totp id db = any (is_totp_of id) db.totps

abbrev pub keep_if : Bool → MfaMethod → List MfaMethod → List MfaMethod
keep_if true method methods = method ∷ methods
keep_if false method methods = methods

-- `factor_methods`
unfoldable pub factor_methods : MfaService → Uuid → MfaDb → Outcome MfaError (List MfaMethod)
factor_methods mfa id db = do
  let passkey = has_passkey id db
  let totp = has_totp id db
  raise_if (passkey && not (passkeys_enabled mfa) && not totp) (
      refuse "PASSKEY_CONFIGURATION_REQUIRED" "This account requires its configured passkey origin."
        503)
  ok (keep_if (passkey && passkeys_enabled mfa) MfaMethod.passkey (keep_if totp MfaMethod.totp []))

-- The rows that `_insert_transaction` deletes: the user's expired and consumed transactions.
abbrev pub is_stale : Time → Uuid → MfaTransaction → Bool
is_stale now id t = (t.user_id == id) && (leb t.expires_at now || not (is_none t.consumed_at))

-- `_insert_transaction`, under the identifier that `uuid4` drew (no row has it).
unfoldable pub insert_transaction :
    MfaService
    → Time
    → (new_id user_id : Uuid) → Purpose
    → (challenge : Option Text) → (source : Option (Uuid × Time)) → MfaDb
    → MfaDb
insert_transaction mfa now new_id user_id purpose challenge source db = record db {
  transactions =
      record {
        transaction_id = new_id;
        user_id = user_id;
        purpose = purpose;
        challenge = challenge;
        pending_secret = none;
        factor_label = none;
        source_jti = elim source [ none ↦ none | some (jti, expires_at) ↦ some jti ];
        source_expires_at = elim source [ none ↦ none | some (jti, expires_at) ↦ some expires_at ];
        attempts = 0;
        expires_at = now + mfa.transaction_ttl;
        consumed_at = none;
      }
      ∷ select (λ t. not (is_stale now user_id t)) db.transactions;
}

-- The dictionary that asks for a second factor, or for the enrolment of one.
pub data LoginStep : Type 0 where
  mfa_required mfa_enrollment_required :
      (transaction_id : Uuid) (methods : List MfaMethod) (expires_at : Time) → LoginStep

abbrev pub has_method_passkey : List MfaMethod → Bool
has_method_passkey [] = false
has_method_passkey (MfaMethod.passkey ∷ methods) = true
has_method_passkey (MfaMethod.totp ∷ methods) = has_method_passkey methods

-- `_new_choice_transaction`
unfoldable pub new_choice_transaction :
    MfaService → Time → (new_id user_id : Uuid) → MfaDb → LoginStep × MfaDb
unfolding insert_transaction
new_choice_transaction mfa now new_id user_id db = (
  LoginStep.mfa_enrollment_required new_id
      (keep_if (passkeys_enabled mfa) MfaMethod.passkey (MfaMethod.totp ∷ []))
      (now + mfa.transaction_ttl),
  insert_transaction mfa now new_id user_id Purpose.enroll_choice none none db,
)

-- `begin_login`: none where the password is enough.
unfoldable pub begin_login :
    MfaService
    → Time
    → (new_id : Uuid) → (challenge : Text) → User
    → MfaDb
    → Outcome MfaError (Option LoginStep × MfaDb)
unfolding factor_methods insert_transaction new_choice_transaction
begin_login mfa now new_id challenge user db = do
  methods ← factor_methods mfa user.user_id db
  let (step, choosing) = new_choice_transaction mfa now new_id user.user_id db
  let drawn = if has_method_passkey methods then some challenge else none
  let asking = insert_transaction mfa now new_id user.user_id Purpose.login drawn none db
  elim methods [
    | [] ↦ if role_requires_mfa user.role then ok (some step, choosing) else ok (none, db)
    | method ∷ rest ↦
        ok
          (some (LoginStep.mfa_required new_id (method ∷ rest) (now + mfa.transaction_ttl)), asking)
  ]

-- `begin_authenticated_enrollment`
unfoldable pub begin_authenticated_enrollment :
    MfaService
    → Time
    → (new_id user_id source_jti : Uuid) → (source_expires_at : Time) → MfaDb
    → Uuid × MfaDb
unfolding insert_transaction
begin_authenticated_enrollment mfa now new_id user_id source_jti source_expires_at db = (
  new_id,
  insert_transaction mfa now new_id user_id Purpose.enroll_choice none
      (some (source_jti, source_expires_at)) db,
)

abbrev pub method_of : Text → Option MfaMethod
method_of text =
    if text ==ₜ codes "passkey"
    then some MfaMethod.passkey
    else if text ==ₜ codes "totp"
    then some MfaMethod.totp
    else none

abbrev pub label_or : MfaMethod → Text → Text
label_or MfaMethod.passkey [] = codes "Passkey"
label_or MfaMethod.totp [] = codes "Authenticator app"
label_or method label = label

abbrev pub is_choice : Purpose → Bool
is_choice Purpose.enroll_choice = true
is_choice _ = false

abbrev pub chosen_passkey : Text → Text → MfaTransaction → MfaTransaction
chosen_passkey challenge label t = record t {
  purpose = Purpose.enroll_passkey;
  challenge = some challenge;
  factor_label = some label;
}

abbrev pub chosen_totp : Text → Text → MfaTransaction → MfaTransaction
chosen_totp encrypted label t = record t {
  purpose = Purpose.enroll_totp;
  pending_secret = some encrypted;
  factor_label = some label;
}

-- `prepare_enrollment`, with the draws of the WebAuthn challenge and of the shared secret; an error
-- leaves the tables as they are.
unfoldable pub prepare_enrollment :
    MfaService
    → Time
    → (challenge secret : Text) → (transaction_id : Uuid) → (method label : Text) → MfaDb
    → Outcome MfaError (MfaMethod × MfaDb)
prepare_enrollment mfa now challenge secret id method label db = do
  chosen ←
      or_raise (method_of (mfa.lower (strip method)))
        (refuse "INVALID_MFA_METHOD" "Choose a passkey or authenticator-app code." 422)
  let name = label_or chosen (strip label)
  raise_if (ltb 80 (length name)) (refuse "INVALID_MFA_LABEL" "MFA label is too long." 422)
  t ← transaction_for_update now id db
  raise_if (not (is_choice t.purpose))
      (refuse "INVALID_MFA_TRANSACTION" "This MFA setup request is no longer available." 409)
  let choose = λ (f : MfaTransaction → MfaTransaction). record db {
    transactions = update (has_id id) f db.transactions;
  }
  elim chosen [
    | MfaMethod.passkey ↦ do
      raise_if (not (passkeys_enabled mfa))
          (refuse "PASSKEYS_NOT_CONFIGURED" "Passkeys are not configured for this hostname." 503)
      ok (MfaMethod.passkey, choose (chosen_passkey challenge name))
    | MfaMethod.totp ↦ do
      raise_if (has_totp t.user_id db) (
          refuse "TOTP_ALREADY_ENROLLED"
            "Remove the existing authenticator app before replacing it." 409)
      ok (MfaMethod.totp, choose (chosen_totp (mfa.encrypt secret) name))
  ]
