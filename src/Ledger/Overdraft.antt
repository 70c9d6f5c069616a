-- ===== src/Ledger/Overdraft.antt =====
-- The checks of `create_transfer` are enough: the database's own rules on balances never stop a
-- transfer that has passed them, and no customer account is overdrawn.
use bantam_bank.Prelude.{
  ◌≤◌, ◌≡◌, ◌≢◌, ◌⊎◌, ◌∙◌, ap, refl, sym, pos, -ℤ◌, ◌≤ℤ◌, true, any, find?, count, All, Option,
  none, some, List, [], ◌∷◌, arith, if◌then◌else◌, Bool-cases, Option-cases, inl, inr,
}
use bantam_bank.Domain.{Uuid, Time, TransferCommand}
use bantam_bank.Errors.{Result, ok, err, ◌>>=◌}
use bantam_bank.Db.{Db, Account, Balance, Entry, Transaction}
use bantam_bank.Sca
use bantam_bank.Sca.{ScaService}
use bantam_bank.Ledger.Checks
use bantam_bank.Ledger.Checks.{Draws, Normalised, Locked, is_balance, is_account, is_transaction}
use bantam_bank.Ledger.Posting
use bantam_bank.Ledger.Posting.{moved, may_go_negative}
use bantam_bank.Ledger.Transfer
use bantam_bank.Ledger.Written.{written_balances}
use bantam_bank.Ledger.Executed.{
  execute-Executed, Executed-written, authorise_customer-frame, lock_accounts-each,
}
use bantam_bank.Ledger.Outcomes.{Result-cases, create_transfer_ind}
use bantam_bank.Ledger.Reconciliation.{normalise-differ}
use bantam_bank.Ledger.Keys.{HasKeys, count-written_balances}
use bantam_bank.Ledger.Rules.{
  IsCovered, CanPay, IsForeign, IsAllowed, debits-admissible, credits-admissible, pair-balanced,
  post-IsAllowed, moved-IsCovered, credited-IsCovered,
}

-- What the database guarantees of its tables between transactions.
pub record IsSound (db : Db) : Type 0 where
  pub keys : HasKeys db.balances
  pub covered : All (IsCovered db) db.balances
  pub foreign : IsForeign db

bind-IsAllowed :
    {A B : Type 0} (m : Result A) (f : A → Result B)
    → IsAllowed m
    → ((a : A) → m ≡ ok a → IsAllowed (f a))
    → IsAllowed (m >>= f)
bind-IsAllowed (ok a) f h k = k a refl
bind-IsAllowed (err e) f h k = ((λ q. h.0 (ground arith)), (λ q. h.1 (ground arith)))

lock_accounts-IsAllowed : (s d : Uuid) (db : Db) → IsAllowed (Checks.lock_accounts s d db)
unfolding Checks.lock_accounts
lock_accounts-IsAllowed s d db = ground arith

check_accounts-IsAllowed :
    (c : TransferCommand) (s d : Checks.Locked)
    → IsAllowed (Transfer.check_accounts c s.account d.account)
unfolding Transfer.check_accounts
check_accounts-IsAllowed c s d = ground arith

authorise_customer-IsAllowed :
    (sca : ScaService) (now : Time) (c : TransferCommand) (s : Locked) (db : Db)
    → IsAllowed (Transfer.authorise_customer sca now c s.account db)
unfolding Transfer.authorise_customer Checks.authorise Sca.validate_and_consume
    Sca.consume_challenge
authorise_customer-IsAllowed sca now c s db = ground arith

check_funds-IsAllowed : (c : TransferCommand) (s : Locked) → IsAllowed (Transfer.check_funds c s)
unfolding Transfer.check_funds
check_funds-IsAllowed c s = ground (arith, pair-balanced c.amount_minor)

validate_reversal-IsAllowed :
    (c : TransferCommand) (db : Db) → IsAllowed (Checks.validate_reversal c db)
unfolding Checks.validate_reversal
validate_reversal-IsAllowed c db = ground arith

no-rows :
    (id : Uuid) (bs : List Balance) (b : Balance)
    → count (is_balance id) bs ≡ 0
    → All (λ x. is_balance id x ≡ true → x ≡ b) bs
no-rows id [] b h = tt
no-rows id (x ∷ xs) b h = ((λ here. ground arith), no-rows id xs b (ground arith))

-- With one row to an account, the row that is found is every row of the account.
unique-row :
    (id : Uuid) (bs : List Balance) (b : Balance)
    → count (is_balance id) bs ≤ 1
    → find? (is_balance id) bs ≡ some b
    → All (λ x. is_balance id x ≡ true → x ≡ b) bs
unique-row id [] b h e = tt
unique-row id (x ∷ xs) b h e = elim (Bool-cases (is_balance id x)) [
  | inl here ↦ ((λ _. ground arith), no-rows id xs b (ground arith))
  | inr other ↦ ((λ here. cc), unique-row id xs b (ground arith) (ground arith))
]

pub lock_account-row :
    (id : Uuid) (db : Db) (l : Locked)
    → Checks.lock_account id db ≡ ok l
    → (b : Balance) × (find? (is_balance id) db.balances ≡ some b)
      × (l.balance_minor ≡ b.available_balance_minor)
      × (find? (is_account id) db.accounts ≡ some l.account)
unfolding Checks.lock_account
lock_account-row id db l e = elim (Option-cases (find? (is_balance id) db.balances)) [
  | inl missing ↦ absurd (ground arith)
  | inr (b, found) ↦ (b, found, ground arith, ground arith)
]

check_funds-pays :
    (c : TransferCommand) (s : Locked)
    → Transfer.check_funds c s ≡ ok tt
    → (s.account.allow_negative ≡ true) ⊎ (c.amount_minor ≤ℤ s.balance_minor)
unfolding Transfer.check_funds
check_funds-pays c s e = ground arith

found-may_go_negative :
    (id : Uuid) (db : Db) (a : Account)
    → find? (is_account id) db.accounts ≡ some a
    → may_go_negative id db ≡ a.allow_negative
found-may_go_negative id db a e = ground arith

row-CanPay :
    (db : Db) (c : TransferCommand) (s : Locked) (b x : Balance)
    → find? (is_account c.source_account_id) db.accounts ≡ some s.account
    → s.balance_minor ≡ b.available_balance_minor
    → (s.account.allow_negative ≡ true) ⊎ (c.amount_minor ≤ℤ s.balance_minor)
    → (is_balance c.source_account_id x ≡ true → x ≡ b)
    → CanPay db c.amount_minor c.source_account_id x
row-CanPay db c s b x owner same pays unique here =
    let eq : x ≡ b = unique here in
    let available : x.available_balance_minor ≡ s.balance_minor =
      ap (λ (r : Balance). r.available_balance_minor) eq ∙ sym same in
    rw (found-may_go_negative c.source_account_id db s.account owner, available) pays

rows-CanPay :
    (db : Db) (c : TransferCommand) (s : Locked) (b : Balance) (bs : List Balance)
    → find? (is_account c.source_account_id) db.accounts ≡ some s.account
    → s.balance_minor ≡ b.available_balance_minor
    → (s.account.allow_negative ≡ true) ⊎ (c.amount_minor ≤ℤ s.balance_minor)
    → All (λ x. is_balance c.source_account_id x ≡ true → x ≡ b) bs
    → All (CanPay db c.amount_minor c.source_account_id) bs
rows-CanPay db c s b [] owner same pays h = tt
rows-CanPay db c s b (x ∷ xs) owner same pays h =
    (row-CanPay db c s b x owner same pays h.0, rows-CanPay db c s b xs owner same pays h.1)

-- Every row of the source's account can pay, once the account is locked and the funds are checked.
pub source-CanPay :
    (db : Db) (c : TransferCommand) (s d : Locked)
    → HasKeys db.balances
    → Checks.lock_accounts c.source_account_id c.destination_account_id db ≡ ok (s, d)
    → Transfer.check_funds c s ≡ ok tt
    → All (CanPay db c.amount_minor c.source_account_id) db.balances
source-CanPay db c s d keys locked funded =
    let (first, _) =
      lock_accounts-each c.source_account_id c.destination_account_id db s d locked in
    let (b, found, holds, owner) = lock_account-row c.source_account_id db s first in
    rows-CanPay db c s b db.balances owner holds (check_funds-pays c s funded)
      (unique-row c.source_account_id db.balances b (keys c.source_account_id) found)

zero_le : (n : Normalised) → pos 1 ≤ℤ n.command.amount_minor → pos 0 ≤ℤ n.command.amount_minor
zero_le n h = ground (arith, h)

module _ (sca : ScaService) (d : Draws) (n : Normalised) (db : Db) (sound : IsSound db)
    (positive : pos 1 ≤ℤ n.command.amount_minor)
    (differ : n.command.source_account_id ≢ n.command.destination_account_id) where
  -- The posting over the database whose challenge has been consumed.
  posting-IsAllowed :
      (s t : Locked) (consumed : Db)
      → Checks.lock_accounts n.command.source_account_id n.command.destination_account_id db
        ≡ ok (s, t)
      → Transfer.authorise_customer sca d.checked_at n.command s.account db ≡ ok consumed
      → Transfer.check_funds n.command s ≡ ok tt
      → IsAllowed (Posting.post d n consumed)
  posting-IsAllowed s t consumed locked authorised funded =
      let c = n.command in
      let pay = source-CanPay db c s t sound.keys locked funded in
      let db' : Db = record db { challenges = consumed.challenges } in
      rw (authorise_customer-frame sca d.checked_at c s.account db consumed authorised) (
        post-IsAllowed d n db' positive differ
          (debits-admissible db' c.amount_minor c.source_account_id c.destination_account_id
            d.debit_entry_id d.credit_entry_id d.started_at (zero_le n positive) db.balances
            sound.covered pay)
          (credits-admissible db' c.amount_minor c.source_account_id c.destination_account_id
            d.debit_entry_id d.credit_entry_id d.started_at (zero_le n positive) db.balances
            sound.covered pay)
          sound.foreign)

  execute-IsAllowed : IsAllowed (Transfer.execute sca d n db)
  unfolding Transfer.execute
  execute-IsAllowed =
      let c = n.command in
      bind-IsAllowed _ _ (lock_accounts-IsAllowed c.source_account_id c.destination_account_id db)
        (λ (s, t) locked. bind-IsAllowed _ _ (check_accounts-IsAllowed c s t) (λ _ _.
          bind-IsAllowed _ _ (authorise_customer-IsAllowed sca d.checked_at c s db)
            (λ consumed authorised. bind-IsAllowed _ _ (check_funds-IsAllowed c s) (λ u funded.
              bind-IsAllowed _ _ (validate_reversal-IsAllowed c consumed)
                (λ _ _. posting-IsAllowed s t consumed locked authorised funded)))))

normalise-positive :
    (c : TransferCommand) (n : Normalised)
    → Checks.normalise c ≡ ok n
    → pos 1 ≤ℤ n.command.amount_minor
unfolding Checks.normalise
normalise-positive c n e = ground arith

normalise-IsAllowed : (c : TransferCommand) → IsAllowed (Checks.normalise c)
unfolding Checks.normalise
normalise-IsAllowed c = ground arith

-- On a sound database create_transfer never fails with the internal RuntimeError, and never trips
-- a CHECK on the amount and the accounts of a transaction or on the sign of an entry, nor a CHECK
-- or trigger of the balances, nor the trigger that wants the entries of a transaction to sum to
-- zero.
pub create_transfer-IsAllowed :
    (sca : ScaService) (d : Draws) (c : TransferCommand) (before db after : Db)
    → IsSound db
    → IsAllowed (Transfer.create_transfer sca d c before db after).0
unfolding Transfer.create_transfer
create_transfer-IsAllowed sca d c before db after sound = elim (Result-cases (Checks.normalise c)) [
  | inl (n, normal) ↦ ground (
    arith,
    execute-IsAllowed sca d n db sound (normalise-positive c n normal)
        (normalise-differ c n normal),
  )
  | inr (e, refused) ↦ ground (arith, (normalise-IsAllowed c).0, (normalise-IsAllowed c).1)
]

written_balances-IsCovered :
    (db : Db) (d : Draws) (n : Normalised) (bs : List Balance)
    → pos 0 ≤ℤ n.command.amount_minor
    → All (IsCovered db) bs
    → All (CanPay db n.command.amount_minor n.command.source_account_id) bs
    → All (IsCovered db) (written_balances d n bs)
written_balances-IsCovered db d n [] positive h pay = tt
written_balances-IsCovered db d n (b ∷ bs) positive h pay =
    let c = n.command in
    let debited =
      moved-IsCovered db c.amount_minor c.source_account_id d.debit_entry_id d.started_at b h.0
        pay.0 in
    (
      credited-IsCovered db c.amount_minor c.destination_account_id d.credit_entry_id d.started_at
          (if is_balance c.source_account_id b
            then moved (-ℤ c.amount_minor) d.debit_entry_id d.started_at b
            else b)
          debited positive,
      written_balances-IsCovered db d n bs positive h.1 pay.1,
    )

-- Rows that exist stay, so the entries keep the transactions that they belong to.
any-mark_reversed :
    (id : Uuid) (r : Option Uuid) (ts : List Transaction)
    → any (is_transaction id) ts ≡ true
    → any (is_transaction id) (Posting.mark_reversed r ts) ≡ true
any-mark_reversed id none ts h = h
any-mark_reversed id (some k) [] h = h
any-mark_reversed id (some k) (t ∷ ts) h = ground (arith, any-mark_reversed id (some k) ts)

entries-IsForeign :
    (new : Transaction) (r : Option Uuid) (ts : List Transaction) (es : List Entry)
    → All (λ e. any (is_transaction e.transaction_id) ts ≡ true) es
    → All
        (λ e. any (is_transaction e.transaction_id) (Posting.mark_reversed r (new ∷ ts)) ≡ true)
        es
entries-IsForeign new r ts [] h = tt
entries-IsForeign new r ts (e ∷ es) h = (
  any-mark_reversed e.transaction_id r (new ∷ ts) (ground arith),
  entries-IsForeign new r ts es h.1,
)

execute-IsSound :
    (sca : ScaService) (d : Draws) (n : Normalised) (db db' : Db)
    → pos 0 ≤ℤ n.command.amount_minor
    → IsSound db
    → Transfer.execute sca d n db ≡ ok db'
    → IsSound db'
execute-IsSound sca d n db db' positive sound e =
    let x = execute-Executed sca d n db db' e in
    let new = Posting.transaction_row d n in
    let r = n.command.reverses_transaction_id in
    let here : any (is_transaction d.transaction_id)
          (Posting.mark_reversed r (new ∷ db.transactions))
        ≡ true =
      any-mark_reversed d.transaction_id r (new ∷ db.transactions) (ground arith) in
    rw (Executed-written x) (record {
      keys = λ id. rw (count-written_balances d n id db.balances) (sound.keys id);
      covered =
          written_balances-IsCovered db d n db.balances positive sound.covered
            (source-CanPay db n.command x.source x.destination sound.keys x.locked x.funded);
      foreign = (here, (here, entries-IsForeign new r db.transactions db.entries sound.foreign));
    })

-- Any call of create_transfer keeps a sound database sound: one row of balances per account, no
-- row of a customer account negative or with more available than current balance, and every
-- ledger entry of a stored transaction.
pub create_transfer-IsSound :
    (sca : ScaService) (d : Draws) (c : TransferCommand) (before db after : Db)
    → IsSound db
    → IsSound (Transfer.create_transfer sca d c before db after).1
create_transfer-IsSound sca d c before db after sound =
    create_transfer_ind sca d c before db after IsSound sound (λ db' p.
      execute-IsSound sca d p.normalised db db'
        (zero_le p.normalised (normalise-positive c p.normalised p.normalises)) sound p.executes)
