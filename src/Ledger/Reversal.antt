-- ===== src/Ledger/Reversal.antt =====
-- Reversals: a reversal undoes the balances of the transfer that it names, and happens once.
use bantam_bank.Prelude.{
  ◌≡◌, ◌≢◌, ◌∙◌, ap, refl, sym, ℤ, pos, -ℤ◌, ◌+ℤ◌, ◌==◌, ==ℤ_iff, int_laws, true, find?,
  find?-passes, All, All-find?, ◌-ℤ◌, Option, none, some, List, [], ◌∷◌, map, arith, if◌then◌else◌,
  Option-cases, inl, inr,
}
use bantam_bank.Prelude.Text.{==ₜ_iff}
use bantam_bank.Domain.{Uuid, TransferCommand, TransactionType}
use bantam_bank.Errors.{ok}
use bantam_bank.Db.{Db, Balance, Transaction, TransactionStatus}
use bantam_bank.Sca.{ScaService}
use bantam_bank.Ledger.Checks
use bantam_bank.Ledger.Checks.{Draws, Normalised, is_balance, is_transaction}
use bantam_bank.Ledger.Posting
use bantam_bank.Ledger.Posting.{moved}
use bantam_bank.Ledger.Written.{written_balances}
use bantam_bank.Ledger.Executed.{execute-Executed, Executed-written, authorise_customer-frame}
use bantam_bank.Ledger.Authorisation.{normalise-roles}
use bantam_bank.Ledger.Outcomes.{Posts}

-- The figures of a table of balances: the account and its two amounts.
abbrev pub figures : Balance → Uuid × ℤ × ℤ
figures b = (b.account_id, b.available_balance_minor, b.current_balance_minor)

-- One row of `written_balances`.
abbrev moved_row : Draws → Normalised → Balance → Balance
moved_row d n b =
    let c = n.command in
    let debited =
      if is_balance c.source_account_id b
      then moved (-ℤ c.amount_minor) d.debit_entry_id d.started_at b
      else b in
    if is_balance c.destination_account_id debited
    then moved c.amount_minor d.credit_entry_id d.started_at debited
    else debited

-- What the row of an account gains by a posting.
abbrev gain : Normalised → Uuid → ℤ
gain n id =
    let c = n.command in
    (if id == c.source_account_id then -ℤ c.amount_minor else pos 0)
    +ℤ (if id == c.destination_account_id then c.amount_minor else pos 0)

moved_row-figures :
    (d : Draws) (n : Normalised) (b : Balance)
    → ((moved_row d n b).account_id ≡ b.account_id)
      × ((moved_row d n b).available_balance_minor
          ≡ b.available_balance_minor +ℤ gain n b.account_id)
      × ((moved_row d n b).current_balance_minor ≡ b.current_balance_minor +ℤ gain n b.account_id)
moved_row-figures d n b = grind int_laws

-- `_validate_reversal` has found the original, posted and no reversal itself, and its mirror image.
pub record Mirrors (c : TransferCommand) (t : Transaction) : Type 0 where
  pub posted : t.status ≡ TransactionStatus.posted
  pub original : t.transaction_type ≢ TransactionType.reversal
  pub source : c.source_account_id ≡ t.destination_account_id
  pub destination : c.destination_account_id ≡ t.source_account_id
  pub amount : c.amount_minor ≡ t.amount_minor
  pub currency : c.currency ≡ t.currency

validate_reversal-Mirrors :
    (c : TransferCommand) (db : Db) (id : Uuid)
    → c.reverses_transaction_id ≡ some id
    → Checks.validate_reversal c db ≡ ok tt
    → (t : Transaction) × (find? (is_transaction id) db.transactions ≡ some t) × Mirrors c t
unfolding Checks.validate_reversal
validate_reversal-Mirrors c db id named e =
    elim (Option-cases (find? (is_transaction id) db.transactions)) [
      | inl missing ↦ absurd (ground arith)
      | inr (t, found) ↦ (
        t,
        found,
        ground (arith, ==ℤ_iff c.amount_minor t.amount_minor, ==ₜ_iff c.currency t.currency),
      )
    ]

-- What a stored transaction has given to an account.
abbrev pub effect : Transaction → Uuid → ℤ
effect t id =
    (if id == t.source_account_id then -ℤ t.amount_minor else pos 0)
    +ℤ (if id == t.destination_account_id then t.amount_minor else pos 0)

-- A row of balances without what the transaction has given to its account.
abbrev pub undone : Transaction → Balance → Uuid × ℤ × ℤ
undone t b = (
  b.account_id,
  b.available_balance_minor -ℤ effect t b.account_id,
  b.current_balance_minor -ℤ effect t b.account_id,
)

gain-effect :
    (n : Normalised) (t : Transaction) (id : Uuid) (x : ℤ)
    → Mirrors n.command t
    → x +ℤ gain n id ≡ x -ℤ effect t id
gain-effect n t id x m = rw (m.source, m.destination, m.amount) (grind int_laws)

written-undone :
    (d : Draws) (n : Normalised) (t : Transaction) (bs : List Balance)
    → Mirrors n.command t
    → map figures (written_balances d n bs) ≡ map (undone t) bs
written-undone d n t [] m = refl
written-undone d n t (b ∷ bs) m =
    let (id, available, current) = moved_row-figures d n b in
    let rest = written-undone d n t bs m in
    cc (
      id,
      available,
      current,
      rest,
      gain-effect n t b.account_id b.available_balance_minor m,
      gain-effect n t b.account_id b.current_balance_minor m,
    )

-- A posted command that names a transaction to reverse finds it posted, not itself a reversal,
-- with the accounts swapped and the same amount and currency, and takes from every balance
-- exactly what that transaction had given to it.
pub create_transfer-reversal :
    (sca : ScaService) (d : Draws) (c : TransferCommand) (before db db' : Db) (id : Uuid)
    → Posts sca d c before db db'
    → c.reverses_transaction_id ≡ some id
    → (t : Transaction) × (find? (is_transaction id) db.transactions ≡ some t)
      × Mirrors (Checks.trimmed c) t
      × (map figures db'.balances ≡ map (undone t) db.balances)
create_transfer-reversal sca d c before db db' id p named =
    let n = p.normalised in
    let x = execute-Executed sca d n db db' p.executes in
    let command : n.command ≡ Checks.trimmed c = (normalise-roles c n p.normalises).0 in
    let named' : n.command.reverses_transaction_id ≡ some id =
      ap (λ (k : TransferCommand). k.reverses_transaction_id) command ∙ named in
    let (t, found, mirrors) = validate_reversal-Mirrors n.command x.consumed id named' x.reversal in
    let frame =
      authorise_customer-frame sca d.checked_at n.command x.source.account db x.consumed
        x.authorised in
    (
      t,
      sym (ap (λ (k : Db). find? (is_transaction id) k.transactions) frame) ∙ found,
      rw command at mirrors,
      ap (λ (k : Db). map figures k.balances) (Executed-written x)
          ∙ written-undone d n t db.balances mirrors,
    )

-- Once it is reversed, every row of the transaction says so.
abbrev pub IsReversed : Uuid → Db → Type 0
IsReversed id db =
    All (λ t. is_transaction id t ≡ true → t.status ≡ TransactionStatus.reversed) db.transactions

marked-IsReversed :
    (id : Uuid) (reverses : Option Uuid) (ts : List Transaction)
    → reverses ≡ some id
    → All
        (λ t. is_transaction id t ≡ true → t.status ≡ TransactionStatus.reversed)
        (Posting.mark_reversed reverses ts)
marked-IsReversed id none ts e = absurd (cc e)
marked-IsReversed id (some k) [] e = tt
marked-IsReversed id (some k) (t ∷ ts) e =
    ((λ same. ground arith), marked-IsReversed id (some k) ts e)

-- After a posted reversal no command posts as a second reversal of the same transaction on the
-- resulting database.
pub reversed-no_posting :
    (sca sca' : ScaService) (d d' : Draws) (c c' : TransferCommand)
    (before db db' before' db'' : Db) (id : Uuid)
    → Posts sca d c before db db'
    → c.reverses_transaction_id ≡ some id
    → c'.reverses_transaction_id ≡ some id
    → ¬ Posts sca' d' c' before' db' db''
reversed-no_posting sca sca' d d' c c' before db db' before' db'' id p named named' q =
    let n = p.normalised in
    let command : n.command ≡ Checks.trimmed c = (normalise-roles c n p.normalises).0 in
    let reverses : n.command.reverses_transaction_id ≡ some id =
      ap (λ (k : TransferCommand). k.reverses_transaction_id) command ∙ named in
    let x = execute-Executed sca d n db db' p.executes in
    let all_reversed : IsReversed id db' = rw (Executed-written x) (
      marked-IsReversed id n.command.reverses_transaction_id
        (Posting.transaction_row d n ∷ db.transactions) reverses) in
    let (t, found, mirrors, _) = create_transfer-reversal sca' d' c' before' db' db'' id q named' in
    let status : t.status ≡ TransactionStatus.reversed =
      All-find? (λ t. is_transaction id t ≡ true → t.status ≡ TransactionStatus.reversed)
        (is_transaction id) db'.transactions t all_reversed found
        (find?-passes (is_transaction id) db'.transactions t found) in
    cc (status, mirrors.posted)
