-- ===== src/Ledger/Answers.antt =====
-- bantam/ledger.py: what an answer of `create_transfer` may say of the database.
use bantam_bank.Prelude.{
  ◌≡◌, ◌≢◌, ◌⊎◌, refl, ap, ℤ, -ℤ◌, Bool, Option-cases, inl, inr, true, false, any, find?, All, none,
  some, List, [], ◌∷◌, arith,
}
use bantam_bank.Prelude.Members.{In, find?-In}
use bantam_bank.Prelude.Text.{==ₜ_iff, strip}
use bantam_bank.Domain.{Uuid, TransferCommand}
use bantam_bank.Errors.{Error, bantam, Result, ok, err}
use bantam_bank.Db.{Db, Transaction, Entry}
use bantam_bank.Ledger.Checks
use bantam_bank.Ledger.Checks.{Draws, Normalised, is_transaction, has_key}
use bantam_bank.Ledger.Transfer
use bantam_bank.Ledger.Transfer.{TransactionPayload}
use bantam_bank.Ledger.Outcomes.{known}

-- A transaction of the command's user under its key, with the surrounding white space trimmed.
abbrev pub IsOf : TransferCommand → Transaction → Type 0
IsOf c t =
    (t.initiated_by_user_id ≡ c.actor.user_id) × (t.idempotency_key ≡ strip c.idempotency_key)

abbrev pub IsUnknown : TransferCommand → Db → Type 0
IsUnknown c db = All (λ t. ¬ IsOf c t) db.transactions

-- The answer shows the transaction.
pub record Shows (p : TransactionPayload) (t : Transaction) : Type 0 where
  pub transaction_id : p.transaction_id ≡ t.transaction_id
  pub idempotency_key : p.idempotency_key ≡ t.idempotency_key
  pub source : p.source_account_id ≡ t.source_account_id
  pub destination : p.destination_account_id ≡ t.destination_account_id
  pub amount : p.amount_minor ≡ t.amount_minor
  pub currency : p.currency ≡ t.currency
  pub kind : p.transaction_type ≡ t.transaction_type
  pub posted : p.posted_at ≡ t.posted_at

-- An entry of the transaction moves the amount on the account.
abbrev pub Moves : Uuid → Uuid → ℤ → Db → Type 0
Moves transaction account amount db =
    (e : Entry) × In e db.entries
    × (e.transaction_id ≡ transaction)
    × (e.account_id ≡ account)
    × (e.amount_minor ≡ amount)

-- What a new answer says: the transaction was not there, and is there now with its two entries.
pub record IsNew (c : TransferCommand) (p : TransactionPayload) (db db' : Db) : Type 0 where
  pub row : Transaction
  pub stored : In row db'.transactions
  pub own : IsOf c row
  pub shown : Shows p row
  pub source : p.source_account_id ≡ c.source_account_id
  pub destination : p.destination_account_id ≡ c.destination_account_id
  pub amount : p.amount_minor ≡ c.amount_minor
  pub fresh : any (is_transaction p.transaction_id) db.transactions ≡ false
  pub debit : Moves p.transaction_id c.source_account_id (-ℤ c.amount_minor) db'
  pub credit : Moves p.transaction_id c.destination_account_id c.amount_minor db'

-- A repetition shows a transaction of the key, from one of the three states that a call reads.
pub record IsRepeated (c : TransferCommand) (p : TransactionPayload) (before db after : Db)
    : Type 0 where
  pub row : Transaction
  pub stored : In row before.transactions ⊎ (In row db.transactions ⊎ In row after.transactions)
  pub own : IsOf c row
  pub shown : Shows p row
  pub status : p.status ≡ row.status

abbrev pub IsReported :
    TransferCommand → (before db after : Db) → Result (TransactionPayload × Bool) × Db → Type 0
IsReported c before db after (err e, db') =
    (db' ≡ db)
    × (e ≢ Error.unique_violation)
    × ((Checks.normalise c ≡ err e) ⊎ (IsUnknown c before × IsUnknown c db))
IsReported c before db after (ok (p, true), db') = (db' ≡ db) × IsRepeated c p before db after
IsReported c before db after (ok (p, false), db') = IsNew c p db db'

pub normalise-error :
    (c : TransferCommand) (e : Error) → Checks.normalise c ≡ err e → e ≢ Error.unique_violation
unfolding Checks.normalise
normalise-error c e refused same = ground (arith, refused, same)

pub normalise-trimmed :
    (c : TransferCommand) (n : Normalised)
    → Checks.normalise c ≡ ok n
    → n.command ≡ Checks.trimmed c
unfolding Checks.normalise
normalise-trimmed c n e = ground (arith, e)

module _ (c : TransferCommand) (n : Normalised) (same : n.command ≡ Checks.trimmed c) where
  pub own_user : n.command.actor.user_id ≡ c.actor.user_id
  own_user = ap (λ (x : TransferCommand). x.actor.user_id) same

  pub own_key : n.command.idempotency_key ≡ strip c.idempotency_key
  own_key = ap (λ (x : TransferCommand). x.idempotency_key) same

  pub found-IsOf :
      (db : Db) (t : Transaction) → known n db ≡ some t → In t db.transactions × IsOf c t
  unfolding Checks.find_by_idempotency
  found-IsOf db t found =
      let (i, key) =
        find?-In (has_key n.command.actor.user_id n.command.idempotency_key) db.transactions t
          found in
      (
        i,
        (
          ground (arith, key, own_user),
          ground (arith, key, own_key, ==ₜ_iff t.idempotency_key n.command.idempotency_key),
        ),
      )

  none-IsUnknown :
      (ts : List Transaction)
      → find? (has_key n.command.actor.user_id n.command.idempotency_key) ts ≡ none
      → All (λ t. ¬ IsOf c t) ts
  none-IsUnknown [] missing = tt
  none-IsUnknown (t ∷ ts) missing = (
    (λ own. ground (
      arith,
      missing,
      own,
      own_user,
      own_key,
      ==ₜ_iff t.idempotency_key n.command.idempotency_key,
    )),
    none-IsUnknown ts (ground (arith, missing)),
  )

  pub unknown : (db : Db) → known n db ≡ none → IsUnknown c db
  unfolding Checks.find_by_idempotency
  unknown db missing = none-IsUnknown db.transactions missing

  pub repeated :
      (before db after : Db) (t : Transaction)
      → IsOf c t
      → (In t before.transactions ⊎ (In t db.transactions ⊎ In t after.transactions))
      → IsRepeated c (Transfer.transaction_payload t) before db after
  repeated before db after t own stored = record {
    row = t;
    stored = stored;
    own = own;
    shown = record {
      transaction_id = refl;
      idempotency_key = refl;
      source = refl;
      destination = refl;
      amount = refl;
      currency = refl;
      kind = refl;
      posted = refl;
    };
    status = refl;
  }

  -- An error of the transaction, once the handler of the unique violation has seen it.
  pub failed-IsReported :
      (before db after : Db) (e : Error)
      → IsUnknown c before
      → IsUnknown c db
      → IsReported c before db after (Transfer.on_unique_violation n after (err e), db)
  unfolding Transfer.on_unique_violation
  failed-IsReported before db after Error.unique_violation old now =
      elim (Option-cases (known n after)) [
        | inl missing ↦
            rw (Transfer.on_unique_violation, missing)
              (refl, (λ q. ground (arith, q)), inr (old, now))
        | inr (t, found) ↦
            let (i, own) = found-IsOf after t found in
            rw (Transfer.on_unique_violation, found)
              (refl, repeated before db after t own (inr (inr i)))
      ]
  failed-IsReported before db after (bantam e) old now =
      (refl, (λ q. ground (arith, q)), inr (old, now))
  failed-IsReported before db after Error.runtime_error old now =
      (refl, (λ q. ground (arith, q)), inr (old, now))
  failed-IsReported before db after Error.type_error old now =
      (refl, (λ q. ground (arith, q)), inr (old, now))
  failed-IsReported before db after Error.check_violation old now =
      (refl, (λ q. ground (arith, q)), inr (old, now))
  failed-IsReported before db after Error.foreign_key_violation old now =
      (refl, (λ q. ground (arith, q)), inr (old, now))
  failed-IsReported before db after Error.out_of_range old now =
      (refl, (λ q. ground (arith, q)), inr (old, now))
  failed-IsReported before db after Error.raise_exception old now =
      (refl, (λ q. ground (arith, q)), inr (old, now))
