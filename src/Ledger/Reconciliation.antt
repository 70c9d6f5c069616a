-- ===== src/Ledger/Reconciliation.antt =====
-- The projection of balances agrees with the ledger entries, whatever transfers run.
use bantam_bank.Prelude.{◌≡◌, ◌≢◌, int_laws, All, List, [], ◌∷◌, arith}
use bantam_bank.Domain.{TransferCommand}
use bantam_bank.Errors.{ok}
use bantam_bank.Db.{Db, Balance, Entry}
use bantam_bank.Sca.{ScaService}
use bantam_bank.Ledger.Checks
use bantam_bank.Ledger.Checks.{Draws, Normalised, is_balance}
use bantam_bank.Ledger.Posting.{debit_row, credit_row}
use bantam_bank.Ledger.Transfer
use bantam_bank.Ledger.Transfer.{authoritative}
use bantam_bank.Ledger.Written.{written_balances}
use bantam_bank.Ledger.Executed.{execute-Executed, Executed-written}
use bantam_bank.Ledger.Outcomes.{create_transfer_ind}

-- Each projected balance is the sum of its account's entries.
abbrev pub AgreesWith : List Entry → Balance → Type 0
AgreesWith entries b = b.current_balance_minor ≡ authoritative b.account_id entries

abbrev pub IsReconciled : Db → Type 0
IsReconciled db = All (AgreesWith db.entries) db.balances

-- One row: the source loses what the debit entry holds, the destination gains the credit entry.
written-AgreesWith :
    (d : Draws) (n : Normalised) (entries : List Entry) (b : Balance)
    → n.command.source_account_id ≢ n.command.destination_account_id
    → AgreesWith entries b
    → All (AgreesWith (debit_row d n ∷ credit_row d n ∷ entries)) (written_balances d n (b ∷ []))
written-AgreesWith d n entries b differ h = grind int_laws

written_balances-AgreesWith :
    (d : Draws) (n : Normalised) (entries : List Entry) (balances : List Balance)
    → n.command.source_account_id ≢ n.command.destination_account_id
    → All (AgreesWith entries) balances
    → All (AgreesWith (debit_row d n ∷ credit_row d n ∷ entries)) (written_balances d n balances)
written_balances-AgreesWith d n entries [] differ h = tt
written_balances-AgreesWith d n entries (b ∷ bs) differ h = (
  (written-AgreesWith d n entries b differ h.0).0,
  written_balances-AgreesWith d n entries bs differ h.1,
)

-- A posted transfer keeps the projection in step with the entries.
execute-IsReconciled :
    (sca : ScaService) (d : Draws) (n : Normalised) (db db' : Db)
    → n.command.source_account_id ≢ n.command.destination_account_id
    → Transfer.execute sca d n db ≡ ok db'
    → IsReconciled db
    → IsReconciled db'
execute-IsReconciled sca d n db db' differ e h =
    rw (Executed-written (execute-Executed sca d n db db' e))
      (written_balances-AgreesWith d n db.entries db.balances differ h)

-- What `_normalise` establishes of the command that goes on.
pub normalise-differ :
    (c : TransferCommand) (n : Normalised)
    → Checks.normalise c ≡ ok n
    → n.command.source_account_id ≢ n.command.destination_account_id
unfolding Checks.normalise
normalise-differ c n e = ground arith

-- If every current balance equals the sum of the ledger entries of its account, this still holds
-- after any call of create_transfer, whether it posts, repeats, or fails.
pub create_transfer-IsReconciled :
    (sca : ScaService) (d : Draws) (c : TransferCommand) (before db after : Db)
    → IsReconciled db
    → IsReconciled (Transfer.create_transfer sca d c before db after).1
create_transfer-IsReconciled sca d c before db after h =
    create_transfer_ind sca d c before db after IsReconciled h (λ db' p.
      execute-IsReconciled sca d p.normalised db db' (normalise-differ c p.normalised p.normalises)
        p.executes h)
