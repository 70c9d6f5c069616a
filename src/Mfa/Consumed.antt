-- ===== src/Mfa/Consumed.antt =====
-- A ceremony that completes has come to `_consume` on the transaction that it names.
use bantam_bank.Prelude.{
  ℤ, ◌≡◌, refl, true, false, ◌&&◌, ◌==◌, any, find?, find?-passes, update, All, Option-cases,
  Bool-cases, inl, inr, List, [], ◌∷◌, arith,
}
use bantam_bank.Prelude.Text.{Text}
use bantam_bank.Domain.{Uuid, Time}
use bantam_bank.Errors.{Outcome, Outcome-cases, ok, err, ◌>>=◌}
use bantam_bank.Mfa.Store.{
  MfaMethod, MfaError, MfaDb, MfaService, MfaTransaction, Credential, Purpose, is_passkey_of,
  is_none,
}
use bantam_bank.Mfa.Transactions
use bantam_bank.Mfa.Transactions.{
  MfaCompletion, has_id, is_open, used_at, consumed, or_rollback, invalid_transaction, max_attempts,
}
use bantam_bank.Mfa.Totp
use bantam_bank.Mfa.Passkey
use bantam_bank.Mfa.Passkey.{has_credential}

-- Every row of the transaction has been consumed.
abbrev pub IsUsed : Uuid → MfaDb → Type 0
IsUsed id db = All (λ t. has_id id t ≡ true → is_none t.consumed_at ≡ false) db.transactions

marked-used :
    (id : Uuid) (now : Time) (ts : List MfaTransaction)
    → All
        (λ t. has_id id t ≡ true → is_none t.consumed_at ≡ false)
        (update (has_id id) (used_at now) ts)
marked-used id now [] = tt
marked-used id now (t ∷ ts) = ((λ same. ground arith), marked-used id now ts)

consume-IsUsed :
    (now : Time) (t : MfaTransaction) (method : MfaMethod) (db db' : MfaDb) (c : MfaCompletion)
    → Transactions.consume now t method db ≡ ok (c, db')
    → IsUsed t.transaction_id db'
unfolding Transactions.consume
consume-IsUsed now t method db db' c e =
    let same : db' ≡ consumed now t db = ground arith in
    rw same (marked-used t.transaction_id now db.transactions)

-- The call has come to `_consume` on the transaction, over what it had written until then.
abbrev pub Consumes : Time → MfaTransaction → MfaMethod → MfaCompletion → MfaDb → Type 0
Consumes now t method c db' =
    (written : MfaDb) × (Transactions.consume now t method written ≡ ok (c, db'))

pub Consumes-IsUsed :
    (now : Time) (t : MfaTransaction) (id : Uuid) (method : MfaMethod) (c : MfaCompletion)
    (db' : MfaDb)
    → t.transaction_id ≡ id
    → Consumes now t method c db'
    → IsUsed id db'
Consumes-IsUsed now t id method c db' same (written, ran) =
    rw same at (consume-IsUsed now t method written db' c ran)

finish-Consumes :
    (now : Time) (t : MfaTransaction) (method : MfaMethod) (before db' : MfaDb)
    (written : Outcome MfaError MfaDb) (c : MfaCompletion)
    → or_rollback before (written >>= Transactions.consume now t method) ≡ (ok c, db')
    → Consumes now t method c db'
finish-Consumes now t method before db' (err raised) c e = absurd (ground arith)
finish-Consumes now t method before db' (ok db) c e =
    elim (Outcome-cases (Transactions.consume now t method db)) [
      | inl ((c2, db2), ran) ↦ (db, ground arith)
      | inr (raised, failed) ↦ absurd (ground arith)
    ]

check_totp-Consumes :
    (mfa : MfaService) (now unix : Time) (t : MfaTransaction) (encrypted secret code : Text)
    (last : ℤ) (db db' : MfaDb) (c : MfaCompletion)
    → Totp.check_totp mfa now unix t encrypted secret code last db ≡ (ok c, db')
    → Consumes now t MfaMethod.totp c db'
unfolding Totp.check_totp
check_totp-Consumes mfa now unix t encrypted secret code last db db' c e =
    elim (Outcome-cases (Totp.matching_totp_step mfa unix secret code)) [
      | inr (raised, failed) ↦ absurd (ground arith)
      | inl (matched, ran) ↦ elim (Option-cases (Totp.fresh_step matched last)) [
        | inl stale ↦ absurd (ground arith)
        | inr (step, fresh) ↦
            finish-Consumes now t MfaMethod.totp db db' (Totp.accept_totp now t encrypted step db) c
              (rw (Totp.check_totp, ran, fresh) at e)
      ]
    ]

attempt_totp-Consumes :
    (mfa : MfaService) (now unix : Time) (t : MfaTransaction) (code : Text) (db db' : MfaDb)
    (c : MfaCompletion)
    → Totp.attempt_totp mfa now unix t code db ≡ (ok c, db')
    → Consumes now t MfaMethod.totp c db'
unfolding Totp.attempt_totp
attempt_totp-Consumes mfa now unix t code db db' c e =
    elim (Outcome-cases (Totp.totp_secret t db)) [
      | inr (raised, failed) ↦ absurd (ground arith)
      | inl ((stored, last), ran) ↦ elim (Option-cases (Totp.non_empty stored)) [
        | inl missing ↦ absurd (ground arith)
        | inr (encrypted, given) ↦ elim (Option-cases (mfa.decrypt encrypted)) [
          | inl invalid ↦ absurd (ground arith)
          | inr (secret, valid) ↦
              check_totp-Consumes mfa now unix t encrypted secret code last db db' c
                (rw (Totp.attempt_totp, ran, given, valid) at e)
        ]
      ]
    ]

-- The row that a ceremony works on.
locked-has_id :
    (now : Time) (id : Uuid) (db : MfaDb) (t : MfaTransaction)
    → Transactions.transaction_for_update now id db ≡ ok t
    → t.transaction_id ≡ id
unfolding Transactions.transaction_for_update
locked-has_id now id db t e =
    elim (Option-cases (find? (λ t. has_id id t && is_open now db t) db.transactions)) [
      | inl none_eq ↦ absurd (ground arith)
      | inr (row, found) ↦
          let passes =
            find?-passes (λ t. has_id id t && is_open now db t) db.transactions row found in
          ground (arith, passes)
    ]

pub complete_totp-Consumes :
    (mfa : MfaService) (now unix : Time) (id : Uuid) (code : Text) (db db' : MfaDb)
    (c : MfaCompletion)
    → Totp.complete_totp mfa now unix id code db ≡ (ok c, db')
    → (t : MfaTransaction) × (t.transaction_id ≡ id) × Consumes now t MfaMethod.totp c db'
unfolding Totp.complete_totp
complete_totp-Consumes mfa now unix id code db db' c e =
    elim (Bool-cases (Totp.is_totp_code mfa code)) [
      | inr malformed ↦ absurd (ground arith)
      | inl formed ↦ elim (Outcome-cases (Transactions.transaction_for_update now id db)) [
        | inr (raised, refused) ↦ absurd (ground arith)
        | inl (t, locked) ↦ (
          t,
          locked-has_id now id db t locked,
          attempt_totp-Consumes mfa now unix t code db db' c (ground arith),
        )
      ]
    ]

login_passkey-Consumes :
    (mfa : MfaService) (now : Time) (t : MfaTransaction) (raw_id : Text) (credential : Credential)
    (db db' : MfaDb) (c : MfaCompletion)
    → Passkey.login_passkey mfa now t raw_id credential db ≡ (ok c, db')
    → Consumes now t MfaMethod.passkey c db'
unfolding Passkey.login_passkey
login_passkey-Consumes mfa now t raw_id credential db db' c e =
    elim (Option-cases
      (find? (λ p. is_passkey_of t.user_id p && has_credential raw_id p) db.passkeys)) [
        | inl missing ↦ absurd (ground arith)
        | inr (p, found) ↦ elim (Option-cases (Passkey.verified mfa t credential p)) [
          | inl invalid ↦ absurd (ground arith)
          | inr ((sign_count, backed_up), valid) ↦
              finish-Consumes now t MfaMethod.passkey db db'
                (ok (record db {
                  passkeys =
                      update (λ q. (q.user_id == t.user_id) && has_credential raw_id q)
                        (Passkey.asserted now sign_count backed_up) db.passkeys;
                }))
                c (rw (Passkey.login_passkey, found, valid) at e)
        ]
      ]

enroll_passkey-Consumes :
    (mfa : MfaService) (new_id : Uuid) (now : Time) (t : MfaTransaction) (credential : Credential)
    (db db' : MfaDb) (c : MfaCompletion)
    → Passkey.enroll_passkey mfa new_id now t credential db ≡ (ok c, db')
    → Consumes now t MfaMethod.passkey c db'
unfolding Passkey.enroll_passkey
enroll_passkey-Consumes mfa new_id now t credential db db' c e =
    elim (Option-cases (Passkey.registered mfa t credential)) [
      | inl invalid ↦ absurd (ground arith)
      | inr (r, valid) ↦ elim (Bool-cases (any (has_credential r.credential_id) db.passkeys)) [
        | inl duplicate ↦ absurd (ground arith)
        | inr new ↦
            finish-Consumes now t MfaMethod.passkey db db'
              (Passkey.insert_passkey new_id t r credential.transports db) c
              (rw (Passkey.enroll_passkey, valid, new) at e)
      ]
    ]

attempt_passkey-Consumes :
    (mfa : MfaService) (new_id : Uuid) (now : Time) (t : MfaTransaction) (raw_id : Text)
    (credential : Credential) (db db' : MfaDb) (c : MfaCompletion) (purpose : Purpose)
    → t.purpose ≡ purpose
    → Passkey.attempt_passkey mfa new_id now t raw_id credential db ≡ (ok c, db')
    → Consumes now t MfaMethod.passkey c db'
unfolding Passkey.attempt_passkey
attempt_passkey-Consumes mfa new_id now t raw_id credential db db' c Purpose.login p e =
    login_passkey-Consumes mfa now t raw_id credential db db' c (ground arith)
attempt_passkey-Consumes mfa new_id now t raw_id credential db db' c Purpose.enroll_passkey p e =
    enroll_passkey-Consumes mfa new_id now t credential db db' c (ground arith)
attempt_passkey-Consumes mfa new_id now t raw_id credential db db' c Purpose.enroll_choice p e =
    absurd (ground arith)
attempt_passkey-Consumes mfa new_id now t raw_id credential db db' c Purpose.enroll_totp p e =
    absurd (ground arith)

pub complete_passkey-Consumes :
    (mfa : MfaService) (new_id : Uuid) (now : Time) (id : Uuid) (credential : Credential)
    (db db' : MfaDb) (c : MfaCompletion)
    → Passkey.complete_passkey mfa new_id now id credential db ≡ (ok c, db')
    → (t : MfaTransaction) × (t.transaction_id ≡ id) × Consumes now t MfaMethod.passkey c db'
unfolding Passkey.complete_passkey
complete_passkey-Consumes mfa new_id now id credential db db' c e =
    elim (Option-cases credential.raw_id) [
      | inl malformed ↦ absurd (ground arith)
      | inr (raw_id, formed) ↦
          elim (Outcome-cases (Transactions.transaction_for_update now id db)) [
            | inr (raised, refused) ↦ absurd (ground arith)
            | inl (t, locked) ↦ (
              t,
              locked-has_id now id db t locked,
              attempt_passkey-Consumes mfa new_id now t raw_id credential db db' c t.purpose refl
                  (ground arith),
            )
          ]
    ]
