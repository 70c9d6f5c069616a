-- ===== src/Mfa/Totp.antt =====
-- bantam/mfa.py: `complete_totp` and `_matching_totp_step`. The readings of the two clocks of one
-- call, in microseconds (`now`) and in seconds (`unix`), are arguments.
use bantam_bank.Prelude.{
  ℕ, ◌+◌, ◌-◌, ℤ, pos, negsuc, leb_ℤ, Bool, not, ◌&&◌, ◌==◌, ltb, length, all, any, find?, update,
  Option, none, some, List, [], ◌∷◌, if◌then◌else◌,
}
use bantam_bank.Prelude.Text.{Text, ◌==ₜ◌}
use bantam_bank.Domain.{Uuid, Time}
use bantam_bank.Errors.{Outcome, ok, err, ◌>>=◌, ◌>>◌, or_raise, raise_if}
use bantam_bank.Mfa.Store.{
  MfaMethod, MfaError, refuse, MfaDb, MfaService, MfaTransaction, Purpose, TotpRow, is_totp_of,
}
use bantam_bank.Mfa.Transactions.{
  MfaCompletion, transaction_for_update, record_failure, consume, or_rollback,
}

-- TOTP_CODE: six decimal digits of any script.
unfoldable pub is_totp_code : MfaService → Text → Bool
is_totp_code mfa code = (length code == 6) && all mfa.is_decimal code

-- Whether the code of that time is the one given, and then its time code.
abbrev pub step_at : MfaService → (secret code : Text) → Time → Option ℕ
step_at mfa secret code time =
    if mfa.totp_at secret time ==ₜ code then some (mfa.timecode time) else none

abbrev pub or_else : Option ℕ → Option ℕ → Option ℕ
or_else (some a) rest = some a
or_else none rest = rest

-- `_matching_totp_step`: the present interval, the one before, the one after. `compare_digest`
-- raises for a text that is not ASCII.
unfoldable pub matching_totp_step :
    MfaService → (unix : Time) → (secret code : Text) → Outcome MfaError (Option ℕ)
matching_totp_step mfa unix secret code = do
  raise_if (not (all (λ c. ltb c 128) code)) MfaError.type_error
  ok (
      or_else (step_at mfa secret code unix) (
        or_else (step_at mfa secret code (unix - mfa.interval))
          (step_at mfa secret code (unix + mfa.interval))))

-- The encrypted secret and the last step of the ceremony. A login takes those of the stored factor.
unfoldable pub totp_secret : MfaTransaction → MfaDb → Outcome MfaError (Option Text × ℤ)
totp_secret t db = elim t.purpose [
  | Purpose.login ↦ elim (find? (is_totp_of t.user_id) db.totps) [
    | none ↦ ok (t.pending_secret, negsuc 0)
    | some row ↦ ok (some row.encrypted_secret, row.last_used_step)
  ]
  | Purpose.enroll_totp ↦ ok (t.pending_secret, negsuc 0)
  | Purpose.enroll_choice ↦
      err (
        refuse "INVALID_MFA_TRANSACTION" "This MFA request cannot accept an authenticator code."
          409)
  | Purpose.enroll_passkey ↦
      err (
        refuse "INVALID_MFA_TRANSACTION" "This MFA request cannot accept an authenticator code."
          409)
]

abbrev pub stepped : Time → ℕ → TotpRow → TotpRow
stepped now step row = record row { last_used_step = pos step; last_used_at = some now }

-- The upsert on the user's one row.
abbrev pub upsert_totp : TotpRow → List TotpRow → List TotpRow
upsert_totp new rows =
    if any (λ (r : TotpRow). r.user_id == new.user_id) rows
    then update (λ r. r.user_id == new.user_id) (λ r. new) rows
    else new ∷ rows

-- The write of an accepted code: a login notes the step, an enrolment stores the factor.
unfoldable pub accept_totp :
    Time → MfaTransaction → (encrypted : Text) → (step : ℕ) → MfaDb → Outcome MfaError MfaDb
accept_totp now t encrypted step db = elim t.purpose [
  | Purpose.login ↦
      ok (record db { totps = update (is_totp_of t.user_id) (stepped now step) db.totps })
  | _ ↦ do
    label ← or_raise t.factor_label MfaError.not_null_violation
    ok (record db {
      totps =
          upsert_totp
            (record {
              user_id = t.user_id;
              encrypted_secret = encrypted;
              label = label;
              last_used_step = pos step;
              confirmed_at = now;
              last_used_at = none;
              revoked_at = none;
            })
            db.totps;
    })
]

-- `matched_step is None or matched_step <= last_used_step`
abbrev pub fresh_step : Option ℕ → ℤ → Option ℕ
fresh_step none last = none
fresh_step (some step) last = if leb_ℤ (pos step) last then none else some step

-- From the decrypted secret on.
unfoldable pub check_totp :
    MfaService
    → (now unix : Time) → MfaTransaction
    → (encrypted secret code : Text) → (last : ℤ) → MfaDb
    → Outcome MfaError MfaCompletion × MfaDb
unfolding accept_totp
check_totp mfa now unix t encrypted secret code last db =
    elim (matching_totp_step mfa unix secret code) [
      | err e ↦ (err e, db)
      | ok matched ↦ elim (fresh_step matched last) [
        | none ↦
            record_failure t.transaction_id "The authenticator code is invalid or was already used."
              db
        | some step ↦
            or_rollback db (accept_totp now t encrypted step db >>= consume now t MfaMethod.totp)
      ]
    ]

-- An empty value counts as missing.
abbrev pub non_empty : Option Text → Option Text
non_empty (some []) = none
non_empty other = other

-- From the locked transaction on.
unfoldable pub attempt_totp :
    MfaService
    → (now unix : Time) → MfaTransaction
    → (code : Text) → MfaDb
    → Outcome MfaError MfaCompletion × MfaDb
unfolding totp_secret check_totp
attempt_totp mfa now unix t code db = elim (totp_secret t db) [
  | err e ↦ (err e, db)
  | ok (stored, last) ↦ elim (non_empty stored) [
    | none ↦ record_failure t.transaction_id "The authenticator code could not be verified." db
    | some encrypted ↦ elim (mfa.decrypt encrypted) [
      | none ↦ (
        err (refuse "MFA_CONFIGURATION_ERROR" "The authenticator could not be verified." 503),
        db,
      )
      | some secret ↦ check_totp mfa now unix t encrypted secret code last db
    ]
  ]
]

-- `complete_totp`
unfoldable pub complete_totp :
    MfaService
    → (now unix : Time) → (transaction_id : Uuid) → (code : Text) → MfaDb
    → Outcome MfaError MfaCompletion × MfaDb
unfolding attempt_totp
complete_totp mfa now unix id code db =
    if not (is_totp_code mfa code)
    then (
      err (refuse "INVALID_OTP" "Enter the six-digit code from your authenticator app." 401),
      db,
    )
    else elim (transaction_for_update now id db) [
      | err e ↦ (err e, db)
      | ok t ↦ attempt_totp mfa now unix t code db
    ]
