-- ===== src/Db.antt =====
-- The tables that money movement reads and writes (migrations/001_initial_schema.sql with the
-- constraints of 002_security_hardening.sql): a table is the list of its rows, newest first.
-- Columns that no modelled code reads back (names, hashes of account numbers) are left out.
use bantam_bank.Prelude.{ℕ, ◌^◌, ℤ, pos, negsuc, ltb, ◌==◌, Bool, false, Option, none, some, List}
use bantam_bank.Prelude.Text.{Text}
use bantam_bank.Domain.{
  Uuid, Time, KycStatus, CustomerStatus, AccountStatus, AccountType, TransactionType,
}
use bantam_bank.Errors.{BantamError}
use Prim.Native.String.{String}

-- customers
pub record Customer : Type 0 where
  pub customer_id : Uuid
  pub kyc_status : KycStatus
  pub status : CustomerStatus

-- bank_accounts
pub record Account : Type 0 where
  pub account_id : Uuid
  pub customer_id : Option Uuid
  pub account_reference : Text
  pub account_type : AccountType
  pub currency : Text
  pub status : AccountStatus
  pub allow_negative : Bool

-- account_balances
pub record Balance : Type 0 where
  pub account_id : Uuid
  pub available_balance_minor : ℤ
  pub current_balance_minor : ℤ
  pub last_ledger_entry_id : Option Uuid
  pub updated_at : Time

-- transactions
pub data TransactionStatus : Type 0 where
  pending posted failed reversed : TransactionStatus

pub record Transaction : Type 0 where
  pub transaction_id : Uuid
  pub idempotency_key : Text
  pub request_id : Uuid
  pub initiated_by_user_id : Uuid
  pub source_account_id : Uuid
  pub destination_account_id : Uuid
  pub amount_minor : ℤ
  pub currency : Text
  pub description : Text
  pub transaction_type : TransactionType
  pub reverses_transaction_id : Option Uuid
  pub status : TransactionStatus
  pub created_at : Time
  pub posted_at : Option Time

-- ledger_entries
pub data Direction : Type 0 where
  debit credit : Direction

pub record Entry : Type 0 where
  pub ledger_entry_id : Uuid
  pub transaction_id : Uuid
  pub account_id : Uuid
  pub amount_minor : ℤ
  pub currency : Text
  pub direction : Direction
  pub entry_type : TransactionType

-- sca_challenges
pub data ChallengeStatus : Type 0 where
  pending consumed expired failed : ChallengeStatus

pub record Challenge : Type 0 where
  pub challenge_id : Uuid
  pub user_id : Uuid
  pub source_account_id : Uuid
  pub destination_account_id : Uuid
  pub amount_minor : ℤ
  pub code_hash : Text
  pub status : ChallengeStatus
  pub expires_at : Time
  pub consumed_at : Option Time

pub data AlertRule : Type 0 where
  high_value_transfer manual_review : AlertRule

pub data Severity : Type 0 where
  low medium high critical : Severity

-- outbox_events, with the payloads that the modelled code writes.
pub record TransferPayload : Type 0 where
  pub transaction_id : Uuid
  pub source_account_id : Uuid
  pub destination_account_id : Uuid
  pub amount_minor : ℤ
  pub currency : Text
  pub transaction_type : TransactionType
  pub initiated_by_user_id : Uuid

pub data Payload : Type 0 where
  transfer_posted : TransferPayload → Payload
  customer_kyc : (customer_id : Uuid) (kyc_status : KycStatus) → Payload
  account_opened : (account_id customer_id : Uuid) (currency : Text) → Payload
  account_status : (account_id : Uuid) (status : AccountStatus) (reason : Text) → Payload
  risk_flagged :
      (risk_alert_id transaction_id : Uuid) (rule_id : AlertRule) (severity : Severity) → Payload

pub data OutboxStatus : Type 0 where
  pending publishing published : OutboxStatus

pub record OutboxRow : Type 0 where
  pub outbox_event_id : Uuid
  pub aggregate_type : String
  pub aggregate_id : Uuid
  pub event_type : String
  pub event_version : ℕ
  pub payload : Payload
  pub status : OutboxStatus
  pub publish_attempts : ℕ
  pub last_error : Option Text
  pub claimed_at : Option Time
  pub created_at : Time
  pub published_at : Option Time

-- audit_events. An actor is `str(user_id)` or the name of a service.
pub data Actor : Type 0 where
  user : Uuid → Actor
  service : String → Actor
  address : Text → Actor

-- `str(uuid)`, the name of what has no identifier, or the address that a login gave.
pub data Resource : Type 0 where
  row : Uuid → Resource
  named : String → Resource
  address : Text → Resource

pub data MetaValue : Type 0 where
  number : ℤ → MetaValue
  string : Text → MetaValue
  literal : String → MetaValue
  kind : TransactionType → MetaValue
  id : Uuid → MetaValue
  kyc : KycStatus → MetaValue
  problem : BantamError → MetaValue
  texts : List Text → MetaValue
  missing : MetaValue

pub record AuditEvent : Type 0 where
  pub audit_event_id : Uuid
  pub actor_type : String
  pub actor_id : Actor
  pub action : String
  pub resource_type : String
  pub resource_id : Resource
  pub request_id : Uuid
  pub correlation_id : Uuid
  pub ip_address : Option Text
  pub user_agent : Option Text
  pub metadata : List (String × MetaValue)
  pub created_at : Time

-- risk_alerts
pub data AlertStatus : Type 0 where
  opened reviewed dismissed : AlertStatus

-- The explanation of the worker, by its parameters, or the text of an operator.
pub data Explanation : Type 0 where
  exceeded : (amount_minor threshold : ℤ) (currency : Text) → Explanation
  written : Text → Explanation

pub record RiskAlert : Type 0 where
  pub risk_alert_id : Uuid
  pub transaction_id : Uuid
  pub customer_id : Option Uuid
  pub rule_id : AlertRule
  pub severity : Severity
  pub explanation : Explanation
  pub status : AlertStatus
  pub reviewed_by : Option Uuid

-- SENT and RECEIVED, the directions of a notification.
pub data SentOrReceived : Type 0 where
  sent received : SentOrReceived

-- notifications
pub record Notification : Type 0 where
  pub notification_id : Uuid
  pub customer_id : Uuid
  pub event_id : Uuid
  pub account_id : Uuid
  pub direction : SentOrReceived
  pub subject : String
  pub body : Text

pub record Db : Type 0 where
  pub customers : List Customer
  pub accounts : List Account
  pub balances : List Balance
  pub transactions : List Transaction
  pub entries : List Entry
  pub challenges : List Challenge
  pub outbox : List OutboxRow
  pub audit : List AuditEvent
  pub alerts : List RiskAlert
  pub notifications : List Notification

-- What a BIGINT column holds.
abbrev pub fits_bigint : ℤ → Bool
fits_bigint (pos n) = ltb n (2 ^ 63)
fits_bigint (negsuc n) = ltb n (2 ^ 63)

-- SQL's `a = b` on a nullable column: NULL equals nothing.
abbrev pub sql_eq : Option Uuid → Option Uuid → Bool
sql_eq (some a) (some b) = a == b
sql_eq (some a) none = false
sql_eq none b = false
