-- ===== src/Ledger/Conservation.antt =====
-- A transfer moves money and makes none: the total of the balances, the sum of each transaction's
-- entries, and the balances of accounts that take no part.
use bantam_bank.Prelude.{
  ◌≤◌, ◌≡◌, refl, pos, ◌==◌, int_laws, count, select, List, ◌∷◌, map, arith, Bool-cases, inl, inr,
}
use bantam_bank.Domain.{Uuid, TransferCommand}
use bantam_bank.Errors.{ok}
use bantam_bank.Db.{Db, Entry}
use bantam_bank.Sca.{ScaService}
use bantam_bank.Money.{sum}
use bantam_bank.Ledger.Checks
use bantam_bank.Ledger.Checks.{Draws, Normalised, is_balance}
use bantam_bank.Ledger.Posting
use bantam_bank.Ledger.Posting.{moved, amount, of_transaction}
use bantam_bank.Ledger.Transfer
use bantam_bank.Ledger.Written.{>>=-eq-ok}
use bantam_bank.Ledger.Executed.{execute-Executed, Executed-written}
use bantam_bank.Ledger.Outcomes.{create_transfer_ind}
use bantam_bank.Ledger.Keys.{
  HasKeys, total, count-written_balances, find?-count, total-written_balances,
}

-- Locking finds a balance row for each of the two accounts.
lock_account-count :
    (id : Uuid) (db : Db) (l : Checks.Locked)
    → Checks.lock_account id db ≡ ok l
    → 1 ≤ count (is_balance id) db.balances
unfolding Checks.lock_account
lock_account-count id db l e = grind (arith, find?-count)

lock_accounts-count :
    (s d : Uuid) (db : Db) (l : Checks.Locked × Checks.Locked)
    → Checks.lock_accounts s d db ≡ ok l
    → (1 ≤ count (is_balance s) db.balances) × (1 ≤ count (is_balance d) db.balances)
unfolding Checks.lock_accounts
lock_accounts-count s d db l e =
    let (a, first, h) = >>=-eq-ok _ _ e in
    let (b, second, _) = >>=-eq-ok _ _ h in
    (lock_account-count s db a first, lock_account-count d db b second)

execute-total :
    (sca : ScaService) (d : Draws) (n : Normalised) (db db' : Db)
    → HasKeys db.balances
    → Transfer.execute sca d n db ≡ ok db'
    → HasKeys db'.balances × (total db'.balances ≡ total db.balances)
execute-total sca d n db db' keys e =
    let x = execute-Executed sca d n db db' e in
    let c = n.command in
    let found = lock_accounts-count c.source_account_id c.destination_account_id db _ x.locked in
    let one : count (is_balance c.source_account_id) db.balances ≡ 1 =
      omega (arith, keys c.source_account_id, found.0) in
    let one' : count (is_balance c.destination_account_id) db.balances ≡ 1 =
      omega (arith, keys c.destination_account_id, found.1) in
    rw (Executed-written x) (
      λ id. rw (count-written_balances d n id db.balances) (keys id),
      total-written_balances d n db.balances one one',
    )

pub create_transfer-total :
    (sca : ScaService) (d : Draws) (c : TransferCommand) (before db after : Db)
    → HasKeys db.balances
    → let (_, db') = Transfer.create_transfer sca d c before db after in
      HasKeys db'.balances × (total db'.balances ≡ total db.balances)
create_transfer-total sca d c before db after keys =
    create_transfer_ind sca d c before db after
      (λ db'. HasKeys db'.balances × (total db'.balances ≡ total db.balances)) (keys, refl)
      (λ db' p. execute-total sca d p.normalised db db' keys p.executes)

-- The entries of each transaction sum to zero.
abbrev pub IsBalanced : List Entry → Type 0
IsBalanced entries = (id : Uuid) → sum (map amount (select (of_transaction id) entries)) ≡ pos 0

written-IsBalanced :
    (d : Draws) (n : Normalised) (entries : List Entry) (id : Uuid)
    → sum (map amount (select (of_transaction id) entries)) ≡ pos 0
    → sum (
        map amount
          (select (of_transaction id) (Posting.debit_row d n ∷ Posting.credit_row d n ∷ entries)))
      ≡ pos 0
written-IsBalanced d n entries id h = elim (Bool-cases (d.transaction_id == id)) [
  | inl own ↦ rw own (rw h (omega int_laws))
  | inr other ↦ rw other h
]

pub create_transfer-IsBalanced :
    (sca : ScaService) (d : Draws) (c : TransferCommand) (before db after : Db)
    → IsBalanced db.entries
    → IsBalanced (Transfer.create_transfer sca d c before db after).1.entries
create_transfer-IsBalanced sca d c before db after h =
    create_transfer_ind sca d c before db after (λ db'. IsBalanced db'.entries) h
      (λ db' p id.
        rw (Executed-written (execute-Executed sca d p.normalised db db' p.executes))
          (written-IsBalanced d p.normalised db.entries id (h id)))

-- With one row of balances per account, and entries that sum to zero for each transaction, any call
-- of create_transfer keeps both, and leaves the sum of all current balances unchanged.
pub create_transfer_conserves :
    (sca : ScaService) (d : Draws) (c : TransferCommand) (before db after : Db)
    → HasKeys db.balances
    → IsBalanced db.entries
    → let (_, db') = Transfer.create_transfer sca d c before db after in
      HasKeys db'.balances × (total db'.balances ≡ total db.balances) × IsBalanced db'.entries
create_transfer_conserves sca d c before db after keys balanced =
    let (kept, same) = create_transfer-total sca d c before db after keys in
    (kept, same, create_transfer-IsBalanced sca d c before db after balanced)
