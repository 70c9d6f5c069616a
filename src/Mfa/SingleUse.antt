-- ===== src/Mfa/SingleUse.antt =====
-- A ceremony completes once: its transaction is open before and consumed after.
use bantam_bank.Prelude.{◌≡◌, refl, true, false, ◌&&◌, find?, All, none, some, List, [], ◌∷◌, arith}
use bantam_bank.Prelude.Text.{Text}
use bantam_bank.Domain.{Uuid, Time}
use bantam_bank.Errors.{ok, err}
use bantam_bank.Mfa.Store.{MfaMethod, MfaDb, MfaService, MfaTransaction, Credential, is_none}
use bantam_bank.Mfa.Transactions
use bantam_bank.Mfa.Transactions.{
  MfaCompletion, has_id, is_open, used_at, consumed, or_rollback, invalid_transaction, max_attempts,
}
use bantam_bank.Mfa.Totp
use bantam_bank.Mfa.Consumed.{
  IsUsed, Consumes-IsUsed, complete_totp-Consumes, complete_passkey-Consumes,
}
use bantam_bank.Mfa.Passkey
use bantam_bank.Mfa.Passkey.{has_credential}

pub complete_totp-IsUsed :
    (mfa : MfaService) (now unix : Time) (id : Uuid) (code : Text) (db db' : MfaDb)
    (c : MfaCompletion)
    → Totp.complete_totp mfa now unix id code db ≡ (ok c, db')
    → IsUsed id db'
complete_totp-IsUsed mfa now unix id code db db' c e =
    let (t, same, ran) = complete_totp-Consumes mfa now unix id code db db' c e in
    Consumes-IsUsed now t id MfaMethod.totp c db' same ran

pub complete_passkey-IsUsed :
    (mfa : MfaService) (new_id : Uuid) (now : Time) (id : Uuid) (credential : Credential)
    (db db' : MfaDb) (c : MfaCompletion)
    → Passkey.complete_passkey mfa new_id now id credential db ≡ (ok c, db')
    → IsUsed id db'
complete_passkey-IsUsed mfa new_id now id credential db db' c e =
    let (t, same, ran) = complete_passkey-Consumes mfa new_id now id credential db db' c e in
    Consumes-IsUsed now t id MfaMethod.passkey c db' same ran

consume-method :
    (now : Time) (t : MfaTransaction) (method : MfaMethod) (c : MfaCompletion) (db db' : MfaDb)
    → Transactions.consume now t method db ≡ ok (c, db')
    → c.method ≡ method
unfolding Transactions.consume
consume-method now t method c db db' e = ground arith

pub complete_totp-method :
    (mfa : MfaService) (now unix : Time) (id : Uuid) (code : Text) (db db' : MfaDb)
    (c : MfaCompletion)
    → Totp.complete_totp mfa now unix id code db ≡ (ok c, db')
    → c.method ≡ MfaMethod.totp
complete_totp-method mfa now unix id code db db' c e =
    let (t, same, (written, ran)) = complete_totp-Consumes mfa now unix id code db db' c e in
    consume-method now t MfaMethod.totp c written db' ran

pub complete_passkey-method :
    (mfa : MfaService) (new_id : Uuid) (now : Time) (id : Uuid) (credential : Credential)
    (db db' : MfaDb) (c : MfaCompletion)
    → Passkey.complete_passkey mfa new_id now id credential db ≡ (ok c, db')
    → c.method ≡ MfaMethod.passkey
complete_passkey-method mfa new_id now id credential db db' c e =
    let (t, same, (written, ran)) =
      complete_passkey-Consumes mfa new_id now id credential db db' c e in
    consume-method now t MfaMethod.passkey c written db' ran

none-open :
    (id : Uuid) (now : Time) (db : MfaDb) (ts : List MfaTransaction)
    → All (λ t. has_id id t ≡ true → is_none t.consumed_at ≡ false) ts
    → find? (λ t. has_id id t && is_open now db t) ts ≡ none
none-open id now db [] h = refl
none-open id now db (t ∷ ts) (h, hs) = ground (arith, none-open id now db ts hs)

pub used-refused :
    (id : Uuid) (now : Time) (db : MfaDb)
    → IsUsed id db
    → Transactions.transaction_for_update now id db ≡ err invalid_transaction
unfolding Transactions.transaction_for_update
used-refused id now db h = rw (none-open id now db db.transactions h) refl

-- No ceremony on the transaction gives a completion.
pub record IsClosed (mfa : MfaService) (id : Uuid) (db : MfaDb) : Type 0 where
  pub totp :
      (now unix : Time) (code : Text)
      → Totp.is_totp_code mfa code ≡ true
      → Totp.complete_totp mfa now unix id code db ≡ (err invalid_transaction, db)
  pub passkey :
      (new_id : Uuid) (now : Time) (credential : Credential) (raw_id : Text)
      → credential.raw_id ≡ some raw_id
      → Passkey.complete_passkey mfa new_id now id credential db ≡ (err invalid_transaction, db)

pub used-IsClosed : (mfa : MfaService) (id : Uuid) (db : MfaDb) → IsUsed id db → IsClosed mfa id db
unfolding Totp.complete_totp Passkey.complete_passkey
used-IsClosed mfa id db h = record {
  totp = λ now unix code formed. rw (formed, used-refused id now db h) refl;
  passkey = λ new_id now credential raw_id formed. ground (arith, used-refused id now db h);
}

-- A ceremony, of either kind, that gives a completion for the transaction.
pub data Completes (mfa : MfaService) (id : Uuid) (db db' : MfaDb) : Type 0 where
  by_totp :
      (now unix : Time) (code : Text) (c : MfaCompletion)
      → Totp.complete_totp mfa now unix id code db ≡ (ok c, db')
      → Completes mfa id db db'
  by_passkey :
      (new_id : Uuid) (now : Time) (credential : Credential) (c : MfaCompletion)
      → Passkey.complete_passkey mfa new_id now id credential db ≡ (ok c, db')
      → Completes mfa id db db'

-- After complete_totp or complete_passkey has returned a completion for a transaction, every
-- further well-formed authenticator code and every further decodable passkey response for it fails
-- with INVALID_MFA_TRANSACTION and changes nothing.
pub Completes-IsClosed :
    (mfa : MfaService) (id : Uuid) (db db' : MfaDb) → Completes mfa id db db' → IsClosed mfa id db'
Completes-IsClosed mfa id db db' (by_totp now unix code c e) =
    used-IsClosed mfa id db' (complete_totp-IsUsed mfa now unix id code db db' c e)
Completes-IsClosed mfa id db db' (by_passkey new_id now credential c e) =
    used-IsClosed mfa id db' (complete_passkey-IsUsed mfa new_id now id credential db db' c e)
