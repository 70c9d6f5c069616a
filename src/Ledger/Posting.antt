-- ===== src/Ledger/Posting.antt =====
-- The statements of `create_transfer` that write, with the unique keys, the CHECKs on amounts,
-- directions, accounts and balances, the range of BIGINT and the triggers of the two first
-- migrations. Foreign keys, and the trigger's branch for a balance of no account, are left out: the
-- locks have found both accounts, the actor is a stored user, and the rows of one posting refer to
-- each other.
use bantam_bank.Prelude.{
  ℤ, pos, -ℤ◌, ◌+ℤ◌, leb_ℤ, ltb_ℤ, ◌==ℤ◌, leb, ◌==◌, length, any, all, find?, update, select, Bool,
  false, not, ◌&&◌, ◌||◌, Option, none, some, List, [], ◌∷◌, map,
}
use bantam_bank.Domain.{Uuid, Time}
use bantam_bank.Errors.{Error, Result, ok, ◌>>=◌, ◌>>◌, raise_if}
use bantam_bank.Db.{
  Resource, Db, Balance, Transaction, TransactionStatus, Entry, Direction, OutboxRow, OutboxStatus,
  Payload, Actor, MetaValue, fits_bigint, sql_eq,
}
use bantam_bank.Audit.{AuditFields, record_audit}
use bantam_bank.Money.{balanced}
use bantam_bank.Ledger.Checks.{
  Draws, Normalised, is_account, is_balance, is_transaction, is_posted, has_key,
}

-- The three unique keys of `transactions`.
abbrev pub clashes : Transaction → Transaction → Bool
clashes new old =
    (old.transaction_id == new.transaction_id)
    || has_key new.initiated_by_user_id new.idempotency_key old
    || sql_eq old.reverses_transaction_id new.reverses_transaction_id

unfoldable pub insert_transaction : Transaction → Db → Result Db
insert_transaction new db = do
  raise_if (not (fits_bigint new.amount_minor)) Error.out_of_range
  raise_if (leb_ℤ new.amount_minor (pos 0) || (new.source_account_id == new.destination_account_id))
      Error.check_violation
  raise_if (any (clashes new) db.transactions) Error.unique_violation
  ok (record db { transactions = new ∷ db.transactions })

abbrev pub has_entry_id : Uuid → Entry → Bool
has_entry_id id e = e.ledger_entry_id == id

-- The CHECKs of `ledger_entries`: an amount that is not zero and has the sign of its direction.
abbrev pub has_sign : Direction → ℤ → Bool
has_sign Direction.debit x = ltb_ℤ x (pos 0)
has_sign Direction.credit x = ltb_ℤ (pos 0) x

unfoldable pub is_signed : Entry → Bool
is_signed e = not (e.amount_minor ==ℤ pos 0) && has_sign e.direction e.amount_minor

-- The two rows of one INSERT.
unfoldable pub insert_entries : Entry → Entry → Db → Result Db
unfolding is_signed
insert_entries debit credit db = do
  raise_if (not (is_signed debit && is_signed credit)) Error.check_violation
  raise_if
      (any (has_entry_id debit.ledger_entry_id) db.entries
        || any (has_entry_id credit.ledger_entry_id) db.entries
        || (debit.ledger_entry_id == credit.ledger_entry_id))
      Error.unique_violation
  ok (record db { entries = debit ∷ credit ∷ db.entries })

-- One row of the UPDATE: both balances move by the same amount.
abbrev pub moved : ℤ → Uuid → Time → Balance → Balance
moved delta entry_id now b = record b {
  available_balance_minor = b.available_balance_minor +ℤ delta;
  current_balance_minor = b.current_balance_minor +ℤ delta;
  last_ledger_entry_id = some entry_id;
  updated_at = now;
}

abbrev pub may_go_negative : Uuid → Db → Bool
may_go_negative id db = elim (find? (is_account id) db.accounts) [
  | none ↦ false
  | some a ↦ a.allow_negative
]

-- `account_balances_available_not_above_current` and `reject_negative_customer_balance`.
unfoldable pub is_admissible : Db → Balance → Bool
is_admissible db b =
    leb_ℤ b.available_balance_minor b.current_balance_minor
    && (may_go_negative b.account_id db
        || (leb_ℤ (pos 0) b.available_balance_minor && leb_ℤ (pos 0) b.current_balance_minor))

abbrev pub in_range : Balance → Bool
in_range b = fits_bigint b.available_balance_minor && fits_bigint b.current_balance_minor

-- Whether the row passes, given that the UPDATE writes it only where `account_id = id`.
abbrev pub row_passes : (Balance → Bool) → ℤ → (account_id entry_id : Uuid) → Time → Balance → Bool
row_passes test delta account_id entry_id now b =
    not (is_balance account_id b) || test (moved delta entry_id now b)

unfoldable pub move_balance : ℤ → (account_id entry_id : Uuid) → Time → Db → Result Db
unfolding is_admissible
move_balance delta account_id entry_id now db = do
  raise_if (not (all (row_passes in_range delta account_id entry_id now) db.balances))
      Error.out_of_range
  raise_if (not (all (row_passes (is_admissible db) delta account_id entry_id now) db.balances))
      Error.check_violation
  ok (record db {
    balances = update (is_balance account_id) (moved delta entry_id now) db.balances;
  })

abbrev pub set_reversed : Transaction → Transaction
set_reversed t = record t { status = TransactionStatus.reversed }

-- `UPDATE transactions SET status = 'REVERSED'`, where a transaction is reversed.
abbrev pub mark_reversed : Option Uuid → List Transaction → List Transaction
mark_reversed none transactions = transactions
mark_reversed (some id) transactions = update (is_transaction id) set_reversed transactions

abbrev pub may_not_change : Uuid → Transaction → Bool
may_not_change id t = is_transaction id t && not (is_posted t.status)

-- The trigger `restrict_transaction_history_mutation`, for that UPDATE: only a posted row changes.
unfoldable pub check_history : Option Uuid → List Transaction → Result (Unit {0})
check_history none transactions = ok tt
check_history (some id) transactions =
    raise_if (any (may_not_change id) transactions) Error.raise_exception

unfoldable pub insert_outbox : OutboxRow → Db → Result Db
insert_outbox row db = do
  raise_if (any (λ o. o.outbox_event_id == row.outbox_event_id) db.outbox) Error.unique_violation
  ok (record db { outbox = row ∷ db.outbox })

unfoldable pub insert_audit : AuditFields → Uuid → Time → Db → Result Db
insert_audit f id now db = do
  raise_if (any (λ a. a.audit_event_id == id) db.audit) Error.unique_violation
  ok (record_audit f id id now db)

abbrev pub of_transaction : Uuid → Entry → Bool
of_transaction id e = e.transaction_id == id

abbrev pub amount : Entry → ℤ
amount e = e.amount_minor

-- The deferred trigger `ledger_transaction_balanced`, for the transaction whose entries were
-- inserted.
unfoldable pub assert_balanced : Uuid → Db → Result (Unit {0})
assert_balanced id db =
    let postings = select (of_transaction id) db.entries in
    raise_if (not (leb 2 (length postings) && balanced (map amount postings))) Error.check_violation

-- The rows that a normalised command writes.
abbrev pub transaction_row : Draws → Normalised → Transaction
transaction_row d n =
    let c = n.command in
    record {
      transaction_id = d.transaction_id;
      idempotency_key = c.idempotency_key;
      request_id = c.request_id;
      initiated_by_user_id = c.actor.user_id;
      source_account_id = c.source_account_id;
      destination_account_id = c.destination_account_id;
      amount_minor = c.amount_minor;
      currency = c.currency;
      description = c.description;
      transaction_type = n.transaction_type;
      reverses_transaction_id = c.reverses_transaction_id;
      status = TransactionStatus.posted;
      created_at = d.started_at;
      posted_at = some d.now;
    }

abbrev pub debit_row : Draws → Normalised → Entry
debit_row d n = record {
  ledger_entry_id = d.debit_entry_id;
  transaction_id = d.transaction_id;
  account_id = n.command.source_account_id;
  amount_minor = -ℤ n.command.amount_minor;
  currency = n.command.currency;
  direction = Direction.debit;
  entry_type = n.transaction_type;
}

abbrev pub credit_row : Draws → Normalised → Entry
credit_row d n = record {
  ledger_entry_id = d.credit_entry_id;
  transaction_id = d.transaction_id;
  account_id = n.command.destination_account_id;
  amount_minor = n.command.amount_minor;
  currency = n.command.currency;
  direction = Direction.credit;
  entry_type = n.transaction_type;
}

abbrev pub outbox_row : Draws → Normalised → OutboxRow
outbox_row d n =
    let c = n.command in
    record {
      outbox_event_id = d.outbox_event_id;
      aggregate_type = "transaction";
      aggregate_id = d.transaction_id;
      event_type = "payment.transfer_posted.v1";
      event_version = 1;
      payload = Payload.transfer_posted (record {
        transaction_id = d.transaction_id;
        source_account_id = c.source_account_id;
        destination_account_id = c.destination_account_id;
        amount_minor = c.amount_minor;
        currency = c.currency;
        transaction_type = n.transaction_type;
        initiated_by_user_id = c.actor.user_id;
      });
      status = OutboxStatus.pending;
      publish_attempts = 0;
      last_error = none;
      claimed_at = none;
      created_at = d.started_at;
      published_at = none;
    }

abbrev pub audit_fields : Draws → Normalised → AuditFields
audit_fields d n =
    let c = n.command in
    record {
      actor_type = "USER";
      actor_id = Actor.user c.actor.user_id;
      action = "LEDGER_POSTED";
      resource_type = "transaction";
      resource_id = Resource.row d.transaction_id;
      request_id = some c.request_id;
      correlation_id = some c.request_id;
      ip_address = none;
      user_agent = none;
      metadata =
          ("amount_minor", MetaValue.number c.amount_minor)
          ∷ ("currency", MetaValue.string c.currency)
          ∷ ("type", MetaValue.kind n.transaction_type)
          ∷ [];
    }

-- Everything that `create_transfer` writes once the checks have passed, and the commit.
unfoldable pub post : Draws → Normalised → Db → Result Db
unfolding insert_transaction insert_entries move_balance check_history insert_outbox insert_audit
    assert_balanced
post d n db = do
  let c = n.command
  a ← insert_transaction (transaction_row d n) db
  b ← insert_entries (debit_row d n) (credit_row d n) a
  e ← move_balance (-ℤ c.amount_minor) c.source_account_id d.debit_entry_id d.started_at b
  f ← move_balance c.amount_minor c.destination_account_id d.credit_entry_id d.started_at e
  check_history c.reverses_transaction_id f.transactions
  let f' = record f { transactions = mark_reversed c.reverses_transaction_id f.transactions }
  g ← insert_outbox (outbox_row d n) f'
  h ← insert_audit (audit_fields d n) d.audit_event_id d.started_at g
  assert_balanced d.transaction_id h
  ok h
