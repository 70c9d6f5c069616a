-- ===== src/Mfa/Steps.antt =====
-- A code of an authenticator app logs in once: the step that a user's factor remembers grows with
-- every login.
use bantam_bank.Prelude.{
  ℕ, ◌≡◌, ◌∙◌, ap, refl, ℤ, pos, leb_ℤ, false, find?, update, none, some, List, [], ◌∷◌, arith,
  Bool-cases, Option-cases, inl, inr,
}
use bantam_bank.Prelude.Text.{Text}
use bantam_bank.Domain.{Uuid, Time}
use bantam_bank.Errors.{Outcome-cases, ok}
use bantam_bank.Mfa.Store.{
  MfaMethod, MfaDb, MfaService, MfaTransaction, Purpose, TotpRow, is_totp_of,
}
use bantam_bank.Mfa.Transactions
use bantam_bank.Mfa.Transactions.{MfaCompletion, consumed, or_rollback}
use bantam_bank.Mfa.Totp
use bantam_bank.Mfa.Totp.{stepped}

-- The user's active factor has the secret and the step.
pub record Remembers (mfa : MfaService) (user : Uuid) (secret : Text) (step : ℤ) (db : MfaDb)
    : Type 0 where
  pub row : TotpRow
  pub found : find? (is_totp_of user) db.totps ≡ some row
  pub secret_of : mfa.decrypt row.encrypted_secret ≡ some secret
  pub last : row.last_used_step ≡ step

find-stepped :
    (user : Uuid) (now : Time) (step : ℕ) (row : TotpRow) (ts : List TotpRow)
    → find? (is_totp_of user) ts ≡ some row
    → find? (is_totp_of user) (update (is_totp_of user) (stepped now step) ts)
      ≡ some (stepped now step row)
find-stepped user now step row [] e = absurd (ground arith)
find-stepped user now step row (t ∷ ts) e = ground (arith, find-stepped user now step row ts)

finish-totps :
    (now : Time) (t : MfaTransaction) (before written db' : MfaDb) (c : MfaCompletion)
    → or_rollback before (Transactions.consume now t MfaMethod.totp written) ≡ (ok c, db')
    → db'.totps ≡ written.totps
unfolding Transactions.consume
finish-totps now t before written db' c e = ground arith

check_totp-step :
    (mfa : MfaService) (now unix : Time) (t : MfaTransaction) (encrypted secret code : Text)
    (last : ℤ) (db db' : MfaDb) (c : MfaCompletion)
    → t.purpose ≡ Purpose.login
    → Totp.check_totp mfa now unix t encrypted secret code last db ≡ (ok c, db')
    → (step : ℕ) × (Totp.matching_totp_step mfa unix secret code ≡ ok (some step))
      × (leb_ℤ (pos step) last ≡ false)
      × (db'.totps ≡ update (is_totp_of t.user_id) (stepped now step) db.totps)
unfolding Totp.check_totp
check_totp-step mfa now unix t encrypted secret code last db db' c login e =
    elim (Outcome-cases (Totp.matching_totp_step mfa unix secret code)) [
      | inr (raised, failed) ↦ absurd (ground arith)
      | inl (none, ran) ↦ absurd (ground arith)
      | inl (some step, ran) ↦ elim (Bool-cases (leb_ℤ (pos step) last)) [
        | inl stale ↦ absurd (ground arith)
        | inr fresh ↦ (
          step,
          ran,
          fresh,
          finish-totps now t db
              (record db { totps = update (is_totp_of t.user_id) (stepped now step) db.totps }) db'
              c (ground arith),
        )
      ]
    ]

attempt_totp-step :
    (mfa : MfaService) (now unix : Time) (t : MfaTransaction) (secret code : Text) (last : ℤ)
    (db db' : MfaDb) (c : MfaCompletion)
    → t.purpose ≡ Purpose.login
    → Remembers mfa t.user_id secret last db
    → Totp.attempt_totp mfa now unix t code db ≡ (ok c, db')
    → (step : ℕ) × (Totp.matching_totp_step mfa unix secret code ≡ ok (some step))
      × (leb_ℤ (pos step) last ≡ false)
      × (db'.totps ≡ update (is_totp_of t.user_id) (stepped now step) db.totps)
unfolding Totp.attempt_totp
attempt_totp-step mfa now unix t secret code last db db' c login r e =
    elim (Option-cases (Totp.non_empty (some r.row.encrypted_secret))) [
      | inl empty ↦ absurd (ground (arith, r.found))
      | inr (encrypted, given) ↦
          check_totp-step mfa now unix t encrypted secret code last db db' c login
            (ground (arith, r.found, r.secret_of, r.last))
    ]

-- If the transaction is a login whose user has an active authenticator app with a decrypted
-- secret and a last step, and complete_totp returns a completion, the code matched a step of that
-- secret above the last step, and that step is the last one afterwards, so no step is accepted
-- twice.
pub complete_totp-Remembers :
    (mfa : MfaService) (now unix : Time) (id : Uuid) (t : MfaTransaction) (secret code : Text)
    (last : ℤ) (db db' : MfaDb) (c : MfaCompletion)
    → Transactions.transaction_for_update now id db ≡ ok t
    → t.purpose ≡ Purpose.login
    → Remembers mfa t.user_id secret last db
    → Totp.complete_totp mfa now unix id code db ≡ (ok c, db')
    → (step : ℕ) × (Totp.matching_totp_step mfa unix secret code ≡ ok (some step))
      × (leb_ℤ (pos step) last ≡ false)
      × Remembers mfa t.user_id secret (pos step) db'
unfolding Totp.complete_totp
complete_totp-Remembers mfa now unix id t secret code last db db' c locked login r e =
    let (step, matched, fresh, totps) =
      attempt_totp-step mfa now unix t secret code last db db' c login r (ground arith) in
    (
      step,
      matched,
      fresh,
      record {
        row = stepped now step r.row;
        found =
            ap (find? (is_totp_of t.user_id)) totps
            ∙ find-stepped t.user_id now step r.row db.totps r.found;
        secret_of = r.secret_of;
        last = refl;
      },
    )
