-- ===== src/Domain.antt =====
-- bantam/domain.py: roles, states and the two immutable values that services pass around, with the
-- enumerated texts as data types (the columns' CHECK constraints admit no other text).
use bantam_bank.Prelude.{ℕ, ℤ, Bool, true, false, Option}
use bantam_bank.Prelude.Text.{Text}

-- A UUID is the number that its 128 bits stand for.
abbrev pub Uuid : Type 0
Uuid = ℕ

-- Microseconds since an origin before every time that is compared.
abbrev pub Time : Type 0
Time = ℕ

pub data Role : Type 0 where
  customer bank_admin risk_analyst compliance_auditor aspis_auditor aspis_admin : Role
  pending_approval service_account : Role

pub data KycStatus : Type 0 where
  pending_kyc pending_review kyc_verified kyc_rejected : KycStatus

pub data AccountStatus : Type 0 where
  pending active frozen closed : AccountStatus

pub data CustomerStatus : Type 0 where
  active suspended closed : CustomerStatus

pub data AccountType : Type 0 where
  current system : AccountType

pub data TransactionType : Type 0 where
  transfer demo_deposit reversal : TransactionType

pub record Principal : Type 0 where
  pub user_id : Uuid
  pub role : Role
  pub customer_id : Option Uuid

-- `transaction_type` is the text of a type, or none where it is the empty text.
pub record TransferCommand : Type 0 where
  pub request_id : Uuid
  pub idempotency_key : Text
  pub actor : Principal
  pub source_account_id : Uuid
  pub destination_account_id : Uuid
  pub amount_minor : ℤ
  pub currency : Text
  pub description : Text
  pub sca_challenge_id : Option Uuid
  pub sca_code : Text
  pub operator_override : Bool
  pub transaction_type : Option TransactionType
  pub reverses_transaction_id : Option Uuid

abbrev pub is_bank_admin : Role → Bool
is_bank_admin Role.bank_admin = true
is_bank_admin _ = false

abbrev pub is_active : AccountStatus → Bool
is_active AccountStatus.active = true
is_active _ = false

abbrev pub is_verified : KycStatus → Bool
is_verified KycStatus.kyc_verified = true
is_verified _ = false

abbrev pub is_reversal : TransactionType → Bool
is_reversal TransactionType.reversal = true
is_reversal _ = false
