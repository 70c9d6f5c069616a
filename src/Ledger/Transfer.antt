-- ===== src/Ledger/Transfer.antt =====
-- bantam/ledger.py: `create_transfer` and `reconcile`.
use bantam_bank.Prelude.{
  ℤ, ltb_ℤ, ◌==ℤ◌, ◌==◌, any, select, Bool, true, false, not, ◌&&◌, Option, none, some, List, [],
  ◌∷◌, map, -ℤ◌,
}
use bantam_bank.Prelude.Text.{Text, ◌==ₜ◌}
use bantam_bank.Domain.{Uuid, Time, TransferCommand, TransactionType, is_active}
use bantam_bank.Errors.{BantamError, Error, bantam, Result, ok, err, ◌>>=◌, ◌>>◌, raise_if}
use bantam_bank.Db.{Db, Account, Balance, Transaction, TransactionStatus, Entry, fits_bigint}
use bantam_bank.Money.{sum, balanced}
use bantam_bank.Sca.{ScaService}
use bantam_bank.Ledger.Checks.{
  Draws, Normalised, normalise, find_by_idempotency, Locked, lock_accounts, authorise,
  validate_reversal,
}
use bantam_bank.Ledger.Posting.{post, amount}

-- The dictionary that is returned for a transaction.
pub record TransactionPayload : Type 0 where
  pub transaction_id : Uuid
  pub idempotency_key : Text
  pub request_id : Uuid
  pub source_account_id : Uuid
  pub destination_account_id : Uuid
  pub amount_minor : ℤ
  pub currency : Text
  pub description : Text
  pub transaction_type : TransactionType
  pub status : TransactionStatus
  pub created_at : Time
  pub posted_at : Option Time

-- `transaction_payload`: a column that is NULL is left out, which `none` stands for.
abbrev pub transaction_payload : Transaction → TransactionPayload
transaction_payload t = record {
  transaction_id = t.transaction_id;
  idempotency_key = t.idempotency_key;
  request_id = t.request_id;
  source_account_id = t.source_account_id;
  destination_account_id = t.destination_account_id;
  amount_minor = t.amount_minor;
  currency = t.currency;
  description = t.description;
  transaction_type = t.transaction_type;
  status = t.status;
  created_at = t.created_at;
  posted_at = t.posted_at;
}

-- The dictionary at the end of `create_transfer`.
abbrev pub new_payload : Draws → Normalised → TransactionPayload
new_payload d n =
    let c = n.command in
    record {
      transaction_id = d.transaction_id;
      idempotency_key = c.idempotency_key;
      request_id = c.request_id;
      source_account_id = c.source_account_id;
      destination_account_id = c.destination_account_id;
      amount_minor = c.amount_minor;
      currency = c.currency;
      description = c.description;
      transaction_type = n.transaction_type;
      status = TransactionStatus.posted;
      created_at = d.now;
      posted_at = some d.now;
    }

-- The tests on the two locked accounts: both active, both in the currency of the command.
unfoldable pub check_accounts : TransferCommand → Account → Account → Result (Unit {0})
check_accounts c source destination = do
  raise_if (not (is_active source.status && is_active destination.status))
      (bantam BantamError.account_frozen)
  raise_if (not ((source.currency ==ₜ c.currency) && (destination.currency ==ₜ c.currency)))
      (bantam BantamError.currency_mismatch)

-- `if not command.operator_override`
unfoldable pub authorise_customer : ScaService → Time → TransferCommand → Account → Db → Result Db
authorise_customer sca now c source db = elim c.operator_override [
  | true ↦ ok db
  | false ↦ authorise sca now c source db
]

unfoldable pub check_funds : TransferCommand → Locked → Result (Unit {0})
check_funds c source = do
  raise_if (not source.account.allow_negative && ltb_ℤ source.balance_minor c.amount_minor)
      (bantam BantamError.insufficient_funds)
  raise_if (not (balanced ((-ℤ c.amount_minor) ∷ c.amount_minor ∷ []))) Error.runtime_error

-- From the account locks to the commit.
unfoldable pub execute : ScaService → Draws → Normalised → Db → Result Db
unfolding check_accounts authorise_customer check_funds
execute sca d n db = do
  let c = n.command
  (source, destination) ← lock_accounts c.source_account_id c.destination_account_id db
  check_accounts c source.account destination.account
  consumed ← authorise_customer sca d.checked_at c source.account db
  check_funds c source
  validate_reversal c consumed
  post d n consumed

-- The database transaction: under the advisory lock a transaction of the same key is looked up
-- again. An error rolls the database back.
unfoldable pub in_transaction :
    ScaService → Draws → Normalised → Db → Result (TransactionPayload × Bool) × Db
in_transaction sca d n db =
    elim (find_by_idempotency n.command.actor.user_id n.command.idempotency_key db) [
      | some t ↦ (ok (transaction_payload t, true), db)
      | none ↦ elim (execute sca d n db) [
        | ok db' ↦ (ok (new_payload d n, false), db')
        | err e ↦ (err e, db)
      ]
    ]

-- `except errors.UniqueViolation`: the look-up that follows reads the database as it is `after`.
unfoldable pub on_unique_violation :
    Normalised → Db → Result (TransactionPayload × Bool) → Result (TransactionPayload × Bool)
on_unique_violation n after (err Error.unique_violation) =
    elim (find_by_idempotency n.command.actor.user_id n.command.idempotency_key after) [
      | some t ↦ ok (transaction_payload t, true)
      | none ↦ err (bantam BantamError.conflict)
    ]
on_unique_violation n after result = result

-- `create_transfer` of a normalised command. The three reads take the database `before` the
-- transaction, in it (`db`) and `after` it failed: other transactions may commit in between.
unfoldable pub create_normalised :
    ScaService
    → Draws
    → Normalised
    → (before db after : Db) → Result (TransactionPayload × Bool) × Db
unfolding in_transaction on_unique_violation
create_normalised sca d n before db after =
    elim (find_by_idempotency n.command.actor.user_id n.command.idempotency_key before) [
      | some t ↦ (ok (transaction_payload t, true), db)
      | none ↦
          let (result, db') = in_transaction sca d n db in (on_unique_violation n after result, db')
    ]

-- `create_transfer`: the result, and the database that the call leaves of `db`.
unfoldable pub create_transfer :
    ScaService
    → Draws
    → TransferCommand
    → (before db after : Db) → Result (TransactionPayload × Bool) × Db
unfolding create_normalised
create_transfer sca d c before db after = elim (normalise c) [
  | ok n ↦ create_normalised sca d n before db after
  | err e ↦ (err e, db)
]

-- A row of `reconcile`.
pub record Reconciled : Type 0 where
  pub account_id : Uuid
  pub projected_balance_minor : ℤ
  pub authoritative_balance_minor : ℤ
  pub matches : Bool

abbrev pub on_account : Uuid → Entry → Bool
on_account id e = e.account_id == id

-- `COALESCE(SUM(e.amount_minor), 0)` over the entries of one account.
abbrev pub authoritative : Uuid → List Entry → ℤ
authoritative id entries = sum (map amount (select (on_account id) entries))

abbrev pub reconcile_row : Db → Balance → Reconciled
reconcile_row db b =
    let total = authoritative b.account_id db.entries in
    record {
      account_id = b.account_id;
      projected_balance_minor = b.current_balance_minor;
      authoritative_balance_minor = total;
      matches = b.current_balance_minor ==ℤ total;
    }

abbrev pub overflows : Db → Balance → Bool
overflows db b = not (fits_bigint (authoritative b.account_id db.entries))

-- `reconcile`, up to the order of its rows. The cast `::bigint` of a sum fails out of its range.
unfoldable pub reconcile : Db → Result (List Reconciled)
reconcile db = do
  raise_if (any (overflows db) db.balances) Error.out_of_range
  ok (map (reconcile_row db) db.balances)
