-- ===== src/Session.antt =====
-- bantam/api.py: `finish_mfa_session`, which turns the completion of a ceremony into a session.
use bantam_bank.Prelude.{
  ℕ, ◌≡◌, refl, Bool, true, false, Option, none, some, Option-cases, Bool-cases, inl, inr, List, [],
  ◌∷◌, arith,
}
use bantam_bank.Prelude.Text.{Text, codes}
use bantam_bank.Domain.{Uuid, Time, Principal}
use bantam_bank.Errors.{Outcome, Outcome-cases, ok, err, ◌>>=◌, ◌>>◌}
use bantam_bank.Auth
use bantam_bank.Auth.{Claims}
use bantam_bank.Mfa.Store.{
  MfaMethod, MfaDb, MfaService, MfaTransaction, Credential, Purpose, is_passkey_of,
}
use bantam_bank.Mfa.Transactions.{MfaCompletion}
use Prim.Native.String.{String}
pub mod Refused
pub mod Tests

-- The value of `MfaCompletion.method`.
abbrev pub method_name : MfaMethod → Text
method_name MfaMethod.passkey = codes "passkey"
method_name MfaMethod.totp = codes "totp"

-- `"otp" if completion.method == "totp" else completion.method`
abbrev pub assurance_method : MfaMethod → Text
assurance_method MfaMethod.totp = codes "otp"
assurance_method other = method_name other

abbrev pub principal_of : MfaCompletion → Principal
principal_of c = record { user_id = c.user_id; role = c.role; customer_id = c.customer_id }

-- The actions that are recorded, in order, before the session is issued.
abbrev pub recorded : MfaCompletion → List String
recorded c = elim c.enrolled [
  | true ↦ "MFA_FACTOR_ENROLLED" ∷ "LOGIN_SUCCEEDED" ∷ []
  | false ↦ "LOGIN_SUCCEEDED" ∷ []
]

-- `finish_mfa_session`: the audit actions, and the claims of the session or what `issue` raises.
unfoldable pub finish_mfa_session :
    (ttl now : Time) → (jti : Uuid) → MfaCompletion → List String × Outcome String (Claims × Time)
finish_mfa_session ttl now jti c = (
  recorded c,
  Auth.issue ttl now jti (principal_of c) (codes "pwd" ∷ assurance_method c.method ∷ []) (some now),
)
