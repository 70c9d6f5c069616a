-- ===== src/Mfa/Tests.antt =====
-- The ceremonies of one administrator, who has a passkey and an authenticator app.
use bantam_bank.Prelude.{
  ℕ, ◌+◌, ◌/◌, ◌≡◌, refl, pos, leb_ℤ, leb, true, false, ◌&&◌, none, some, [], ◌∷◌, if◌then◌else◌,
}
use bantam_bank.Prelude.Text.{codes, ◌==ₜ◌}
use bantam_bank.Domain.{Role}
use bantam_bank.Errors.{ok}
use bantam_bank.Mfa.Store
use bantam_bank.Mfa.Store.{
  MfaMethod, MfaDb, MfaService, MfaTransaction, Purpose, PasskeyRow, TotpRow, User, Credential,
}
use bantam_bank.Mfa.Transactions
use bantam_bank.Mfa.Transactions.{MfaCompletion}
use bantam_bank.Mfa.Totp
use bantam_bank.Mfa.Passkey
use bantam_bank.Mfa.Factors
use bantam_bank.Mfa.Factors.{has_factor}
use bantam_bank.Mfa.SingleUse.{IsClosed, by_totp, Completes-IsClosed}
use bantam_bank.Mfa.Steps.{Remembers, complete_totp-Remembers}
use bantam_bank.Mfa.LastFactor.{IsSynced, removal-has_factor}

-- An app whose code never changes, and a library that accepts a body that repeats the challenge.
abbrev pub mfa : MfaService
mfa = record {
  transaction_ttl = 300;
  rp_id = some (codes "bank");
  allowed_origins = codes "https://bank" ∷ [];
  encrypt = λ s. s;
  decrypt = λ s. some s;
  verify_authentication =
      λ c challenge key n. if c.body ==ₜ challenge then some (n + 1, true) else none;
  verify_registration = λ c challenge. none;
  totp_at = λ secret time. codes "123456";
  timecode = λ time. time / 30;
  interval = 30;
  is_decimal = λ c. leb 48 c && leb c 57;
  lower = λ s. s;
}

abbrev waiting : ℕ → MfaTransaction
waiting id = record {
  transaction_id = id;
  user_id = 15;
  purpose = Purpose.login;
  challenge = some (codes "ch");
  pending_secret = none;
  factor_label = none;
  source_jti = none;
  source_expires_at = none;
  attempts = 4;
  expires_at = 1000;
  consumed_at = none;
}

abbrev key : PasskeyRow
key = record {
  webauthn_credential_id = 80;
  user_id = 15;
  credential_id = codes "pk";
  public_key = codes "pub";
  sign_count = 3;
  transports = [];
  device_type = codes "single_device";
  backed_up = false;
  label = codes "Key";
  last_used_at = none;
  revoked_at = none;
}

abbrev pub app : TotpRow
app = record {
  user_id = 15;
  encrypted_secret = codes "s";
  label = codes "App";
  last_used_step = pos 10;
  confirmed_at = 0;
  last_used_at = none;
  revoked_at = none;
}

abbrev pub tables : MfaDb
tables = record {
  users =
      record {
        user_id = 15;
        customer_id = none;
        role = Role.bank_admin;
        active = true;
        mfa_enabled = true;
      }
      ∷ [];
  passkeys = key ∷ [];
  totps = app ∷ [];
  transactions = waiting 70 ∷ [];
  revocations = [];
}

abbrev pub completion : MfaMethod → MfaCompletion
completion method = record {
  user_id = 15;
  customer_id = none;
  role = Role.bank_admin;
  method = method;
  enrolled = false;
}

abbrev pub credential : Credential
credential = record { raw_id = some (codes "pk"); transports = []; body = codes "ch" }

abbrev pub by_app : MfaDb
by_app = (Totp.complete_totp mfa 900 900 70 (codes "123456") tables).1

abbrev pub by_key : MfaDb
by_key = (Passkey.complete_passkey mfa 90 900 70 credential tables).1

pub app_completes :
    Totp.complete_totp mfa 900 900 70 (codes "123456") tables
    ≡ (ok (completion MfaMethod.totp), by_app)
unfolding Totp.complete_totp Totp.is_totp_code Totp.matching_totp_step
    Transactions.transaction_for_update Transactions.consume
app_completes = refl

pub key_completes :
    Passkey.complete_passkey mfa 90 900 70 credential tables
    ≡ (ok (completion MfaMethod.passkey), by_key)
unfolding Passkey.complete_passkey Transactions.transaction_for_update Transactions.consume
key_completes = refl

Completes-IsClosed_example : IsClosed mfa 70 by_app
Completes-IsClosed_example =
    Completes-IsClosed mfa 70 tables by_app
      (by_totp 900 900 (codes "123456") (completion MfaMethod.totp) app_completes)

app-Remembers : Remembers mfa 15 (codes "s") (pos 10) tables
app-Remembers = record { row = app; found = refl; secret_of = refl; last = refl }

waiting_found : Transactions.transaction_for_update 900 70 tables ≡ ok (waiting 70)
unfolding Transactions.transaction_for_update
waiting_found = refl

complete_totp-Remembers_example :
    (step : ℕ) × (Totp.matching_totp_step mfa 900 (codes "s") (codes "123456") ≡ ok (some step))
    × (leb_ℤ (pos step) (pos 10) ≡ false)
    × Remembers mfa 15 (codes "s") (pos step) by_app
complete_totp-Remembers_example =
    complete_totp-Remembers mfa 900 900 70 (waiting 70) (codes "s") (codes "123456") (pos 10) tables
      by_app (completion MfaMethod.totp) waiting_found refl app-Remembers app_completes

abbrev without_key : MfaDb
without_key = record tables { passkeys = record key { revoked_at = some 900 } ∷ [] }

key_removed : Factors.remove_passkey 900 15 Role.bank_admin 80 tables ≡ ok without_key
unfolding Factors.remove_passkey Store.role_requires_mfa
key_removed = refl

removal-has_factor_example :
    IsSynced 15 without_key
    × (Store.role_requires_mfa Role.bank_admin ≡ true → has_factor 15 without_key ≡ true)
removal-has_factor_example =
    removal-has_factor (some 80) 900 15 Role.bank_admin tables without_key key_removed

abbrev without_app : MfaDb
without_app = record tables { totps = record app { revoked_at = some 900 } ∷ [] }

app_removed : Factors.remove_totp 900 15 Role.bank_admin tables ≡ ok without_app
unfolding Factors.remove_totp Store.role_requires_mfa
app_removed = refl
