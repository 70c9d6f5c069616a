-- ===== src/Ledger/Checks.antt =====
-- bantam/ledger.py: normalising a transfer command, and the tests that it has to pass.
use bantam_bank.Prelude.{
  ℤ, pos, leb_ℤ, ltb, ◌==◌, ◌==ℤ◌, length, find?, Bool, true, false, not, ◌&&◌, ◌||◌, Option, none,
  some,
}
use bantam_bank.Prelude.Text.{Text, ◌==ₜ◌, codes, strip, upper}
use bantam_bank.Domain.{
  Uuid, Time, TransferCommand, TransactionType, is_bank_admin, is_verified, is_reversal,
}
use bantam_bank.Errors.{BantamError, bantam, Result, ok, ◌>>=◌, ◌>>◌, raise_if, or_raise}
use bantam_bank.Db.{Db, Account, Balance, Transaction, TransactionStatus, sql_eq}
use bantam_bank.Sca.{ScaService, validate_and_consume}

-- The draws of `uuid4` in one call, the readings of Python's clock (`checked_at` for the challenge,
-- `now` for the posting) and that of the database, which
-- gives `now()` the time at which its transaction began.
pub record Draws : Type 0 where
  pub transaction_id : Uuid
  pub debit_entry_id : Uuid
  pub credit_entry_id : Uuid
  pub outbox_event_id : Uuid
  pub audit_event_id : Uuid
  pub checked_at : Time
  pub now : Time
  pub started_at : Time

-- `_normalise` gives the command with its texts trimmed and its type filled in, once it has passed
-- the five tests.
pub record Normalised : Type 0 where
  pub command : TransferCommand
  pub transaction_type : TransactionType

abbrev type_or_transfer : Option TransactionType → TransactionType
type_or_transfer none = TransactionType.transfer
type_or_transfer (some t) = t

abbrev pub trimmed : TransferCommand → TransferCommand
trimmed c = record c {
  idempotency_key = strip c.idempotency_key;
  currency = upper (strip c.currency);
  description = strip c.description;
}

unfoldable pub normalise : TransferCommand → Result Normalised
normalise c = do
  let key = strip c.idempotency_key
  raise_if ((length key == 0) || ltb 128 (length key))
      (bantam (BantamError.validation "invalid idempotency key"))
  raise_if (leb_ℤ c.amount_minor (pos 0))
      (bantam (BantamError.validation "amount_minor must be positive"))
  raise_if (c.source_account_id == c.destination_account_id)
      (bantam (BantamError.validation "source and destination must differ"))
  raise_if (not (upper (strip c.currency) ==ₜ codes "GBP"))
      (bantam (BantamError.validation "only GBP is supported in V1"))
  raise_if (c.operator_override && not (is_bank_admin c.actor.role)) (bantam BantamError.forbidden)
  ok (record { command = trimmed c; transaction_type = type_or_transfer c.transaction_type })

-- The row of `WHERE initiated_by_user_id = %s AND idempotency_key = %s`.
abbrev pub has_key : Uuid → Text → Transaction → Bool
has_key user_id key t = (t.initiated_by_user_id == user_id) && (t.idempotency_key ==ₜ key)

unfoldable pub find_by_idempotency : Uuid → Text → Db → Option Transaction
find_by_idempotency user_id key db = find? (has_key user_id key) db.transactions

-- A row of `_lock_accounts`: the account joined with its available balance.
pub record Locked : Type 0 where
  pub account : Account
  pub balance_minor : ℤ

abbrev pub is_account : Uuid → Account → Bool
is_account id a = a.account_id == id

abbrev pub is_balance : Uuid → Balance → Bool
is_balance id b = b.account_id == id

unfoldable pub lock_account : Uuid → Db → Result Locked
lock_account id db = do
  a ← or_raise (find? (is_account id) db.accounts) (bantam BantamError.not_found)
  b ← or_raise (find? (is_balance id) db.balances) (bantam BantamError.not_found)
  ok (record { account = a; balance_minor = b.available_balance_minor })

-- `_lock_accounts`: anything but two rows is `NOT_FOUND`.
unfoldable pub lock_accounts : (source destination : Uuid) → Db → Result (Locked × Locked)
unfolding lock_account
lock_accounts source destination db = do
  s ← lock_account source db
  d ← lock_account destination db
  ok (s, d)

-- The row of `customers` decides, and a missing row fails the test.
unfoldable pub is_kyc_verified : Uuid → Db → Bool
is_kyc_verified customer db = elim (find? (λ c. c.customer_id == customer) db.customers) [
  | none ↦ false
  | some c ↦ is_verified c.kyc_status
]

-- The block under `if not command.operator_override`.
unfoldable pub authorise : ScaService → Time → TransferCommand → Account → Db → Result Db
unfolding is_kyc_verified
authorise sca now c source db = do
  customer ← or_raise c.actor.customer_id (bantam BantamError.forbidden)
  raise_if (not (sql_eq source.customer_id (some customer))) (bantam BantamError.forbidden)
  raise_if (not (is_kyc_verified customer db)) (bantam BantamError.kyc_not_verified)
  validate_and_consume sca now c.actor.user_id c.source_account_id c.destination_account_id
      c.amount_minor c.sca_challenge_id c.sca_code db

abbrev pub is_posted : TransactionStatus → Bool
is_posted TransactionStatus.posted = true
is_posted _ = false

abbrev pub is_transaction : Uuid → Transaction → Bool
is_transaction id t = t.transaction_id == id

-- The tests of `_validate_reversal`: a posted original that is no reversal itself, with the two
-- accounts swapped and the same amount and currency.
unfoldable pub reverses : TransferCommand → Transaction → Bool
reverses c t =
    is_posted t.status
    && not (is_reversal t.transaction_type)
    && (c.source_account_id == t.destination_account_id)
    && (c.destination_account_id == t.source_account_id)
    && (c.amount_minor ==ℤ t.amount_minor)
    && (c.currency ==ₜ t.currency)

-- `_validate_reversal`, called where `reverses_transaction_id` is given.
unfoldable pub validate_reversal : TransferCommand → Db → Result (Unit {0})
unfolding reverses
validate_reversal c db = elim c.reverses_transaction_id [
  | none ↦ ok tt
  | some id ↦ do
    t ← or_raise (find? (is_transaction id) db.transactions) (bantam BantamError.not_found)
    raise_if (not (reverses c t)) (bantam BantamError.conflict)
]
