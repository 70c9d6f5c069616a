-- ===== src/Bank/Payments.antt =====
-- bantam/api.py: `create_transfer`, `admin_demo_deposit`, `admin_reverse_transaction`,
-- `create_sca_challenge` and `run_reconciliation`. Other transactions may commit while
-- `create_transfer` of the ledger reads: their databases are `before` and `after`.
use bantam_bank.Prelude.{
  ℕ, ℤ, pos, Bool, true, false, not, ◌&&◌, ◌==◌, find?, count, length, Option, none, some, List, [],
  ◌∷◌, ◌++◌, if◌then◌else◌,
}
use bantam_bank.Prelude.Text.{Text, ◌==ₜ◌, codes, strip}
use bantam_bank.Domain.{Uuid, Principal, TransferCommand, TransactionType, AccountType, is_active}
use bantam_bank.Errors.{BantamError, bantam, Result, ok, err, ◌>>=◌, ◌>>◌, raise_if, or_raise}
use bantam_bank.Db.{Db, Account, Transaction, TransactionStatus, Resource, MetaValue}
use bantam_bank.Sca
use bantam_bank.Sca.{ScaService, Issued}
use bantam_bank.Ledger.Checks.{Draws, is_transaction}
use bantam_bank.Ledger.Posting.{insert_audit}
use bantam_bank.Audit.{AuditFields}
use bantam_bank.Ledger.Transfer
use bantam_bank.Ledger.Transfer.{TransactionPayload, Reconciled}
use bantam_bank.Bank.Reply.{Http, Stamp, request_audit, http_error}

-- The databases that one call of the ledger reads beside its own.
pub record Others : Type 0 where
  pub before : Db
  pub after : Db

-- The answer of the ledger: the transaction, and whether it is a repetition (status 200, not 201).
abbrev pub Answer : Type 0
Answer = Result (TransactionPayload × Bool) × Db

-- `TransferRequest`
pub record TransferInput : Type 0 where
  pub source_account_id : Uuid
  pub destination_account_id : Uuid
  pub amount_minor : ℤ
  pub currency : Text
  pub description : Text
  pub sca_challenge_id : Option Uuid
  pub sca_code : Text

abbrev pub transfer_command : Http → Principal → (key : Text) → TransferInput → TransferCommand
transfer_command http principal key input = record {
  request_id = http.request_id;
  idempotency_key = key;
  actor = principal;
  source_account_id = input.source_account_id;
  destination_account_id = input.destination_account_id;
  amount_minor = input.amount_minor;
  currency = input.currency;
  description = input.description;
  sca_challenge_id = input.sca_challenge_id;
  sca_code = input.sca_code;
  operator_override = false;
  transaction_type = some TransactionType.transfer;
  reverses_transaction_id = none;
}

abbrev pub failure_audit : Http → Principal → TransferInput → BantamError → AuditFields
failure_audit http principal input e =
    request_audit http principal.user_id "TRANSFER_FAILED" "bank_account"
      (Resource.row input.source_account_id)
      (("destination_account_id", MetaValue.id input.destination_account_id)
        ∷ ("amount_minor", MetaValue.number input.amount_minor)
        ∷ ("reason", MetaValue.problem e)
        ∷ [])

-- `except BantamError`: the failure is audited and raised again. Any other error passes.
abbrev pub note_failure : Http → Principal → TransferInput → Stamp → Answer → Answer
note_failure http principal input s (err (bantam e), db) =
    elim (insert_audit (failure_audit http principal input e) s.audit_event_id s.now db) [
      | ok noted ↦ (err (bantam e), noted)
      | err other ↦ (err other, db)
    ]
note_failure http principal input s answer = answer

-- What `create_transfer` needs first: the key, and the rate limit where a challenge is required.
unfoldable pub transfer_key :
    ScaService → (key : Result Text) → (limit : Result (Unit {0})) → TransferInput → Result Text
transfer_key sca key limit input = do
  text ← key
  _ ← (if Sca.required sca input.amount_minor then limit else ok tt)
  ok text

-- `create_transfer`, with what `require_idempotency_key` and the rate limit gave.
unfoldable pub create_transfer :
    ScaService
    → Http
    → Principal
    → (key : Result Text) → (limit : Result (Unit {0})) → TransferInput
    → Draws
    → Stamp
    → Others
    → Db
    → Answer
unfolding transfer_key
create_transfer sca http principal key limit input d s o db =
    elim (transfer_key sca key limit input) [
      | err e ↦ (err e, db)
      | ok text ↦ note_failure http principal input s (
          Transfer.create_transfer sca d (transfer_command http principal text input) o.before db
            o.after)
    ]

abbrev is_treasury : Account → Bool
is_treasury a =
    elim a.account_type [ AccountType.system ↦ true | AccountType.current ↦ false ]
    && (a.currency ==ₜ codes "GBP")
    && is_active a.status

abbrev pub deposit_command :
    Http
    → Principal
    → (key : Text) → (treasury account : Uuid) → ℤ
    → (currency description : Text) → TransferCommand
deposit_command http principal key treasury account amount currency description = record {
  request_id = http.request_id;
  idempotency_key = key;
  actor = principal;
  source_account_id = treasury;
  destination_account_id = account;
  amount_minor = amount;
  currency = currency;
  description = description;
  sca_challenge_id = none;
  sca_code = [];
  operator_override = true;
  transaction_type = some TransactionType.demo_deposit;
  reverses_transaction_id = none;
}

abbrev or_gbp : Text → Text
or_gbp [] = codes "GBP"
or_gbp (c ∷ text) = c ∷ text

-- What `admin_demo_deposit` needs first: the key, and the first active system account.
unfoldable pub deposit_source :
    (scope : Result (Unit {0})) → (key : Result Text) → Db → Result (Text × Uuid)
deposit_source scope key db = do
  _ ← scope
  text ← key
  treasury ← or_raise (find? is_treasury db.accounts) (http_error "SYSTEM_ACCOUNT_MISSING" 409)
  ok (text, treasury.account_id)

-- `admin_demo_deposit`
unfoldable pub admin_demo_deposit :
    ScaService
    → (scope : Result (Unit {0})) → Http
    → Principal
    → (key : Result Text) → (account_id : Uuid) → ℤ
    → (currency description : Text) → Draws
    → Others
    → Db
    → Answer
unfolding deposit_source
admin_demo_deposit sca scope http principal key account amount currency description d o db =
    elim (deposit_source scope key db) [
      | err e ↦ (err e, db)
      | ok (text, treasury) ↦
          Transfer.create_transfer sca d
            (deposit_command http principal text treasury account amount (or_gbp currency)
              description)
            o.before db o.after
    ]

abbrev is_posted : TransactionStatus → Bool
is_posted TransactionStatus.posted = true
is_posted _ = false

abbrev pub reversal_command :
    Http → Principal → (key : Text) → Transaction → (reason : Text) → TransferCommand
reversal_command http principal key t reason = record {
  request_id = http.request_id;
  idempotency_key = key;
  actor = principal;
  source_account_id = t.destination_account_id;
  destination_account_id = t.source_account_id;
  amount_minor = t.amount_minor;
  currency = t.currency;
  description = codes "Reversal: " ++ strip reason;
  sca_challenge_id = none;
  sca_code = [];
  operator_override = true;
  transaction_type = some TransactionType.reversal;
  reverses_transaction_id = some t.transaction_id;
}

-- What `admin_reverse_transaction` needs first: the key, and a posted transaction.
unfoldable pub reversible :
    (scope : Result (Unit {0})) → (key : Result Text) → Uuid → Db → Result (Text × Transaction)
reversible scope key id db = do
  _ ← scope
  text ← key
  t ← or_raise (find? (is_transaction id) db.transactions) (http_error "NOT_FOUND" 404)
  raise_if (not (is_posted t.status)) (http_error "NOT_REVERSIBLE" 409)
  ok (text, t)

-- `admin_reverse_transaction`
unfoldable pub admin_reverse_transaction :
    ScaService
    → (scope : Result (Unit {0})) → Http
    → Principal
    → (key : Result Text) → (transaction_id : Uuid) → (reason : Text) → Draws
    → Others
    → Db
    → Answer
unfolding reversible
admin_reverse_transaction sca scope http principal key id reason d o db =
    elim (reversible scope key id o.before) [
      | err e ↦ (err e, db)
      | ok (text, t) ↦
          Transfer.create_transfer sca d (reversal_command http principal text t reason) o.before db
            o.after
    ]

abbrev pub challenge_audit :
    Http → Principal → (source destination : Uuid) → ℤ → Issued → AuditFields
challenge_audit http principal source destination amount issued =
    request_audit http principal.user_id
      (if issued.required then "SCA_CHALLENGE_CREATED" else "SCA_NOT_REQUIRED") "sca_challenge"
      (Resource.row (if issued.required then issued.challenge_id else source))
      (("source_account_id", MetaValue.id source)
        ∷ ("destination_account_id", MetaValue.id destination)
        ∷ ("amount_minor", MetaValue.number amount)
        ∷ [])

-- `create_sca_challenge`, with what the rate limit gave.
unfoldable pub create_sca_challenge :
    ScaService
    → (limit : Result (Unit {0})) → Http
    → Principal
    → (source destination : Uuid) → ℤ
    → (challenge_id draw : ℕ) → Stamp
    → Db
    → Result Issued × Db
create_sca_challenge sca (err e) http principal source destination amount id draw s db = (err e, db)
create_sca_challenge sca (ok _) http principal source destination amount id draw s db =
    elim (Sca.create sca id draw s.now principal source destination amount db) [
      | err e ↦ (err e, db)
      | ok (issued, created) ↦
          elim (insert_audit (challenge_audit http principal source destination amount issued)
            s.audit_event_id s.now created) [
              | ok noted ↦ (ok issued, noted)
              | err e ↦ (err e, created)
            ]
    ]

-- The answer of `run_reconciliation`.
pub record Reconciliation : Type 0 where
  pub passes : Bool
  pub accounts_checked : ℕ
  pub mismatches : ℕ
  pub results : List Reconciled

abbrev pub summary : List Reconciled → Reconciliation
summary results =
    let mismatches = count (λ r. not r.matches) results in
    record {
      passes = mismatches == 0;
      accounts_checked = length results;
      mismatches = mismatches;
      results = results;
    }

abbrev pub reconciliation_audit : Http → Principal → Reconciliation → AuditFields
reconciliation_audit http principal answer =
    request_audit http principal.user_id "RECONCILIATION_COMPLETED" "ledger"
      (Resource.named "all_accounts")
      (("accounts_checked", MetaValue.number (pos answer.accounts_checked))
        ∷ ("mismatches", MetaValue.number (pos answer.mismatches))
        ∷ [])

-- `run_reconciliation`
unfoldable pub run_reconciliation :
    (scope : Result (Unit {0})) → Http → Principal → Stamp → Db → Result Reconciliation × Db
run_reconciliation (err e) http principal s db = (err e, db)
run_reconciliation (ok _) http principal s db = elim (Transfer.reconcile db) [
  | err e ↦ (err e, db)
  | ok rows ↦
      let answer = summary rows in
      elim (insert_audit (reconciliation_audit http principal answer) s.audit_event_id s.now db) [
        | err e ↦ (err e, db)
        | ok noted ↦ (ok answer, noted)
      ]
]
