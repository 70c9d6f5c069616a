-- ===== src/Errors.antt =====
-- bantam/errors.py: the domain errors, with their code and HTTP status, and the failures that the
-- database raises.
use bantam_bank.Prelude.{◌≡◌, ◌⊎◌, inl, inr, refl, ℕ, Bool, true, false, Option, none, some}
use Prim.Native.String.{String}

pub data BantamError : Type 0 where
  not_found forbidden conflict insufficient_funds account_frozen kyc_not_verified : BantamError
  sca_required sca_failed currency_mismatch : BantamError
  validation : String → BantamError
  custom : (code : String) (status : ℕ) → BantamError

unfoldable pub error_code : BantamError → String
error_code BantamError.not_found = "NOT_FOUND"
error_code BantamError.forbidden = "FORBIDDEN"
error_code BantamError.conflict = "CONFLICT"
error_code BantamError.insufficient_funds = "INSUFFICIENT_FUNDS"
error_code BantamError.account_frozen = "ACCOUNT_FROZEN"
error_code BantamError.kyc_not_verified = "KYC_NOT_VERIFIED"
error_code BantamError.sca_required = "SCA_REQUIRED"
error_code BantamError.sca_failed = "SCA_FAILED"
error_code BantamError.currency_mismatch = "CURRENCY_MISMATCH"
error_code (BantamError.validation _) = "VALIDATION_FAILED"
error_code (BantamError.custom code _) = code

unfoldable pub status_code : BantamError → ℕ
status_code BantamError.not_found = 404
status_code BantamError.forbidden = 403
status_code BantamError.conflict = 409
status_code (BantamError.custom _ status) = status
status_code _ = 422

-- A failure of a database transaction: a domain error, the code's own `RuntimeError`, the
-- `TypeError` of a comparison, or what PostgreSQL raises for a constraint, for a number that does
-- not fit its column, or in a trigger without a code of its own.
pub data Error : Type 0 where
  bantam : BantamError → Error
  runtime_error type_error unique_violation check_violation foreign_key_violation out_of_range :
      Error
  raise_exception : Error

-- What a call ends in: it raises an `E`, or it returns.
pub data Outcome {ℓ} (E : Type 0) (A : Type ℓ) : Type ℓ where
  err : E → Outcome E A
  ok : A → Outcome E A

abbrev pub Result {ℓ} : Type ℓ → Type ℓ
Result A = Outcome Error A

infixl 4 ◌>>=◌ ◌>>◌
-- The statements after one that raises are skipped.
abbrev pub ◌>>=◌ {ℓ κ} :
    {E : Type 0} {A : Type ℓ} {B : Type κ} (m : Outcome E A) (rest : A → Outcome E B) → Outcome E B
err raised >>= rest = err raised
ok value >>= rest = rest value

abbrev pub ◌>>◌ {ℓ} :
    {E : Type 0} {B : Type ℓ} (test : Outcome E (Unit {0})) (rest : Outcome E B) → Outcome E B
test >> rest = test >>= λ done. rest

-- `if test: raise error`
abbrev pub raise_if : {E : Type 0} (test : Bool) (error : E) → Outcome E (Unit {0})
raise_if false error = ok tt
raise_if true error = err error

-- `if value is None: raise error`
abbrev pub or_raise {ℓ} : {E : Type 0} {A : Type ℓ} (value : Option A) (error : E) → Outcome E A
or_raise (some a) error = ok a
or_raise none error = err error

pub Outcome-cases {ℓ} :
    {E : Type 0} {A : Type ℓ} (m : Outcome E A)
    → ((value : A) × (m ≡ ok value)) ⊎ ((raised : E) × (m ≡ err raised))
Outcome-cases (err raised) = inr (raised, refl)
Outcome-cases (ok value) = inl (value, refl)
