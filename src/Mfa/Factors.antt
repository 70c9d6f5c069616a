-- ===== src/Mfa/Factors.antt =====
-- bantam/mfa.py: `remove_passkey`, `remove_totp`, `_guard_last_factor` and `_sync_enabled`.
use bantam_bank.Prelude.{
  ◌+◌, Bool, true, false, not, ◌&&◌, ◌||◌, ◌==◌, any, update, count, Option, none, some,
}
use bantam_bank.Domain.{Uuid, Time, Role}
use bantam_bank.Errors.{Outcome, ok, ◌>>◌, raise_if}
use bantam_bank.Mfa.Store.{
  MfaError, refuse, MfaDb, PasskeyRow, TotpRow, User, role_requires_mfa, is_passkey_of, is_totp_of,
}

abbrev pub is_passkey_row : Uuid → PasskeyRow → Bool
is_passkey_row id p = p.webauthn_credential_id == id

-- The passkeys that `_guard_last_factor` counts: all of the user's but the one being removed.
abbrev pub stays : Uuid → Option Uuid → PasskeyRow → Bool
stays user none p = is_passkey_of user p
stays user (some id) p = is_passkey_of user p && not (is_passkey_row id p)

-- `_guard_last_factor`
unfoldable pub guard_last_factor :
    Uuid
    → Role
    → (removing_passkey : Option Uuid) → (removing_totp : Bool) → MfaDb
    → Outcome MfaError (Unit {0})
guard_last_factor user role removing_passkey removing_totp db =
    let remaining_passkeys = count (stays user removing_passkey) db.passkeys in
    let remaining_totp = count (λ t. is_totp_of user t && not removing_totp) db.totps in
    raise_if (role_requires_mfa role && (remaining_passkeys + remaining_totp == 0))
      (refuse "MFA_FACTOR_REQUIRED" "Administrators must keep at least one MFA factor." 409)

-- What the flag of a user stands for.
abbrev pub has_factor : Uuid → MfaDb → Bool
has_factor user db = any (is_passkey_of user) db.passkeys || any (is_totp_of user) db.totps

abbrev pub flagged : Bool → User → User
flagged flag u = record u { mfa_enabled = flag }

-- `_sync_enabled`
unfoldable pub sync_enabled : Uuid → MfaDb → MfaDb
sync_enabled user db = record db {
  users = update (λ u. u.user_id == user) (flagged (has_factor user db)) db.users;
}

abbrev pub revoked_passkey : Time → PasskeyRow → PasskeyRow
revoked_passkey now p = record p { revoked_at = some now }

abbrev pub revoked_totp : Time → TotpRow → TotpRow
revoked_totp now t = record t { revoked_at = some now }

-- `remove_passkey`
unfoldable pub remove_passkey :
    Time → (user : Uuid) → Role → (credential_id : Uuid) → MfaDb → Outcome MfaError MfaDb
unfolding guard_last_factor sync_enabled
remove_passkey now user role id db = do
  raise_if (not (any (λ p. is_passkey_row id p && is_passkey_of user p) db.passkeys))
      (refuse "NOT_FOUND" "Passkey was not found." 404)
  guard_last_factor user role (some id) false db
  let mine = λ (p : PasskeyRow). is_passkey_row id p && (p.user_id == user)
  ok (sync_enabled user (record db { passkeys = update mine (revoked_passkey now) db.passkeys }))

-- `remove_totp`
unfoldable pub remove_totp : Time → (user : Uuid) → Role → MfaDb → Outcome MfaError MfaDb
unfolding guard_last_factor sync_enabled
remove_totp now user role db = do
  raise_if (not (any (is_totp_of user) db.totps))
      (refuse "NOT_FOUND" "Authenticator-app factor was not found." 404)
  guard_last_factor user role none true db
  ok (
      sync_enabled user
        (record db { totps = update (is_totp_of user) (revoked_totp now) db.totps }))
