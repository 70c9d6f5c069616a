-- ===== src/Mfa/Store.antt =====
-- bantam/mfa.py: the service's parameters and the tables that it keeps
-- (migrations/007_aspis_approval_and_mfa.sql). Columns that are only displayed are left out.
use bantam_bank.Prelude.{ℕ, ℤ, Bool, true, false, not, ◌&&◌, ◌==◌, length, Option, none, some, List}
use bantam_bank.Prelude.Text.{Text}
use bantam_bank.Domain.{Uuid, Time, Role}
use Prim.Native.String.{String}

pub data MfaMethod : Type 0 where
  passkey totp : MfaMethod

-- `MfaFailure`: its code, its message and its status.
pub record MfaFailure : Type 0 where
  pub code : String
  pub message : String
  pub status_code : ℕ

-- What a call raises: a failure of the service, `TypeError` where a comparison refuses its text, or
-- what the database raises for a missing value.
pub data MfaError : Type 0 where
  failure : MfaFailure → MfaError
  type_error not_null_violation : MfaError

abbrev pub refuse : String → String → ℕ → MfaError
refuse code message status =
    MfaError.failure (record { code = code; message = message; status_code = status })

pub record User : Type 0 where
  pub user_id : Uuid
  pub customer_id : Option Uuid
  pub role : Role
  pub active : Bool
  pub mfa_enabled : Bool

pub record PasskeyRow : Type 0 where
  pub webauthn_credential_id : Uuid
  pub user_id : Uuid
  pub credential_id : Text
  pub public_key : Text
  pub sign_count : ℕ
  pub transports : List Text
  pub device_type : Text
  pub backed_up : Bool
  pub label : Text
  pub last_used_at : Option Time
  pub revoked_at : Option Time

pub record TotpRow : Type 0 where
  pub user_id : Uuid
  pub encrypted_secret : Text
  pub label : Text
  pub last_used_step : ℤ
  pub confirmed_at : Time
  pub last_used_at : Option Time
  pub revoked_at : Option Time

pub data Purpose : Type 0 where
  login enroll_choice enroll_passkey enroll_totp : Purpose

pub record MfaTransaction : Type 0 where
  pub transaction_id : Uuid
  pub user_id : Uuid
  pub purpose : Purpose
  pub challenge : Option Text
  pub pending_secret : Option Text
  pub factor_label : Option Text
  pub source_jti : Option Uuid
  pub source_expires_at : Option Time
  pub attempts : ℕ
  pub expires_at : Time
  pub consumed_at : Option Time

-- session_revocations
pub record Revocation : Type 0 where
  pub jti : Uuid
  pub user_id : Uuid
  pub expires_at : Time

pub record MfaDb : Type 0 where
  pub users : List User
  pub passkeys : List PasskeyRow
  pub totps : List TotpRow
  pub transactions : List MfaTransaction
  pub revocations : List Revocation

-- What the WebAuthn library returns for a registration.
pub record Registered : Type 0 where
  pub credential_id : Text
  pub public_key : Text
  pub sign_count : ℕ
  pub device_type : Text
  pub backed_up : Bool

-- A credential as the browser sends it: its raw identifier, none where that does not decode, the
-- transports it names, and the rest, which only the WebAuthn library reads.
pub record Credential : Type 0 where
  pub raw_id : Option Text
  pub transports : List Text
  pub body : Text

-- `MfaService`, with what it takes from other packages: Fernet's decryption (none where it raises),
-- the two WebAuthn verifications (none where they raise; the relying party and the origins are
-- fixed), pyotp's codes and time codes, and Python's `\d` and `str.lower`.
pub record MfaService : Type 0 where
  pub transaction_ttl : Time
  pub rp_id : Option Text
  pub allowed_origins : List Text
  pub encrypt : Text → Text
  pub decrypt : Text → Option Text
  pub verify_authentication :
      Credential → (challenge public_key : Text) → (sign_count : ℕ) → Option (ℕ × Bool)
  pub verify_registration : Credential → (challenge : Text) → Option Registered
  pub totp_at : Text → Time → Text
  pub timecode : Time → ℕ
  pub interval : Time
  pub is_decimal : ℕ → Bool
  pub lower : Text → Text

abbrev pub is_none {ℓ} : {A : Type ℓ} → Option A → Bool
is_none none = true
is_none (some _) = false

abbrev pub is_given : Option Text → Bool
is_given (some text) = not (length text == 0)
is_given none = false

-- `passkeys_enabled`
unfoldable pub passkeys_enabled : MfaService → Bool
passkeys_enabled mfa = is_given mfa.rp_id && not (length mfa.allowed_origins == 0)

-- `role_requires_mfa`
unfoldable pub role_requires_mfa : Role → Bool
role_requires_mfa Role.bank_admin = true
role_requires_mfa Role.aspis_admin = true
role_requires_mfa _ = false

abbrev pub is_active_user : Uuid → User → Bool
is_active_user id u = (u.user_id == id) && u.active

-- A row of the user that has not been revoked.
abbrev pub is_passkey_of : Uuid → PasskeyRow → Bool
is_passkey_of id p = (p.user_id == id) && is_none p.revoked_at

abbrev pub is_totp_of : Uuid → TotpRow → Bool
is_totp_of id t = (t.user_id == id) && is_none t.revoked_at
