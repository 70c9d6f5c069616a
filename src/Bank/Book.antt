-- ===== src/Bank/Book.antt =====
-- The bank as its customers see it: what each account holds, and payments between accounts.
use bantam_bank.Prelude.{
  ◌≡◌, ◌≢◌, ◌⊎◌, inl, inr, refl, sym, ◌∙◌, ap, subst, any, All-find?, find?-passes, find?-of_any,
  none, ℤ, pos, -ℤ◌, ◌+ℤ◌, ◌≤ℤ◌, int_laws, ◌==◌, Bool, true, false, find?, List, [], ◌∷◌, arith,
  Bool-cases, if◌then◌else◌, ==_iff,
}
use bantam_bank.Domain.{Uuid, TransferCommand}
use bantam_bank.Errors.{ok}
use bantam_bank.Db.{Db, Account}
use bantam_bank.Sca.{ScaService}
use bantam_bank.Ledger.Checks
use bantam_bank.Ledger.Checks.{Draws, Normalised, is_account, is_balance}
use bantam_bank.Ledger.Posting.{may_go_negative, debit_row, credit_row}
use bantam_bank.Ledger.Transfer
use bantam_bank.Ledger.Transfer.{authoritative}
use bantam_bank.Ledger.Executed.{execute-Executed, Executed-written, lock_accounts-each}
use bantam_bank.Ledger.Outcomes.{create_transfer_ind}
use bantam_bank.Ledger.Rules.{CanPay, IsCovered}
use bantam_bank.Ledger.Overdraft.{source-CanPay, lock_account-row}
use bantam_bank.Ledger.Reconciliation.{AgreesWith, normalise-differ}
use bantam_bank.Bank.Frame.{overdraft_of}
use bantam_bank.Bank.Customers.{new_account}
use bantam_bank.Bank.Server
use bantam_bank.Bank.Server.{Request}
use bantam_bank.Bank.Frame.{SameBooks}
use bantam_bank.Bank.Turns
use bantam_bank.Bank.Turns.{Turn}
use bantam_bank.Bank.Orderly.{IsOrderly, Turn-IsOrderly, fresh_account, inserted}

-- What each account holds, and which accounts may be overdrawn.
pub record Book : Type 0 where
  pub holds : Uuid → ℤ
  pub overdraft : Uuid → Bool

-- The book that the tables stand for: the entries decide.
abbrev pub book : Db → Book
book db = record {
  holds = λ id. authoritative id db.entries;
  overdraft = λ id. may_go_negative id db;
}

-- A payment adds to one account what it takes from the other.
abbrev pub paid : ℤ → (payer payee : Uuid) → Book → Book
paid x payer payee b = record b {
  holds = λ id.
      if payer == id
      then -ℤ x +ℤ b.holds id
      else if payee == id
      then x +ℤ b.holds id
      else b.holds id;
}

-- The specification: nothing happens, or one account pays another an amount that it holds, or that
-- it may owe.
pub data Step : Book → Book → Type 0 where
  stay : (b : Book) → Step b b
  pay :
      (b : Book) (x : ℤ) (payer payee : Uuid)
      → pos 1 ≤ℤ x
      → payer ≢ payee
      → (b.overdraft payer ≡ true) ⊎ (x ≤ℤ b.holds payer)
      → Step b (paid x payer payee b)

pub data Steps : Book → Book → Type 0 where
  done : (b : Book) → Steps b b
  step : {a b c : Book} → Step a b → Steps b c → Steps a c

book-eq :
    (a b : Book)
    → ((id : Uuid) → a.holds id ≡ b.holds id)
    → ((id : Uuid) → a.overdraft id ≡ b.overdraft id)
    → a ≡ b
book-eq a b holds overdraft i = record {
  holds = λ id. holds id i;
  overdraft = λ id. overdraft id i;
}

SameBooks-book : {db db' : Db} → SameBooks db db' → book db ≡ book db'
SameBooks-book {db} {db'} x =
    book-eq (book db) (book db') (λ id. rw x.entries refl) (λ id. sym (x.overdraft id))

-- A new account may not be overdrawn, and so adds nothing to the book.
overdraft-new :
    (a : Account) (accounts : List Account) (id : Uuid)
    → a.allow_negative ≡ false
    → any (is_account a.account_id) accounts ≡ false
    → overdraft_of (find? (is_account id) accounts)
      ≡ overdraft_of (find? (is_account id) (a ∷ accounts))
overdraft-new a accounts id closed fresh = elim (Bool-cases (a.account_id == id)) [
  | inr other ↦ rw other refl
  | inl here ↦
      let missing : find? (is_account id) accounts ≡ none =
        ap (λ k. find? (is_account k) accounts) (sym ((==_iff a.account_id id).0 here))
        ∙ find?-of_any (is_account a.account_id) accounts fresh in
      rw here (rw (missing, closed) refl)
]

-- The two entries of a posting.
posted-holds :
    (d : Draws) (n : Normalised) (db db' : Db) (id : Uuid)
    → n.command.source_account_id ≢ n.command.destination_account_id
    → db'.entries ≡ debit_row d n ∷ credit_row d n ∷ db.entries
    → (book db').holds id
      ≡ (paid n.command.amount_minor n.command.source_account_id n.command.destination_account_id
            (book db)).holds
          id
posted-holds d n db db' id differ e =
    let c = n.command in
    elim (Bool-cases (c.source_account_id == id)) [
      | inl payer ↦ elim (Bool-cases (c.destination_account_id == id)) [
        | inl payee ↦ absurd (
            differ (
              (==_iff c.source_account_id id).0 payer
              ∙ sym ((==_iff c.destination_account_id id).0 payee)))
        | inr other ↦ rw e (rw (payer, other) refl)
      ]
      | inr other ↦ elim (Bool-cases (c.destination_account_id == id)) [
        | inl payee ↦ rw e (rw (other, payee) refl)
        | inr third ↦ rw e (rw (other, third) refl)
      ]
    ]

normalise-at_least_one :
    (c : TransferCommand) (n : Normalised)
    → Checks.normalise c ≡ ok n
    → pos 1 ≤ℤ n.command.amount_minor
unfolding Checks.normalise
normalise-at_least_one c n e = ground arith

-- The payer of a posting holds what it pays, or may owe it.
payer-can :
    (sca : ScaService) (d : Draws) (n : Normalised) (db db' : Db)
    → IsOrderly db
    → Transfer.execute sca d n db ≡ ok db'
    → let c = n.command in
      (may_go_negative c.source_account_id db ≡ true)
      ⊎ (c.amount_minor ≤ℤ authoritative c.source_account_id db.entries)
payer-can sca d n db db' h e =
    let c = n.command in
    let x = execute-Executed sca d n db db' e in
    let (first, _) =
      lock_accounts-each c.source_account_id c.destination_account_id db x.source x.destination
        x.locked in
    let (b, found, _, _) = lock_account-row c.source_account_id db x.source first in
    let own : b.account_id ≡ c.source_account_id =
      (==_iff b.account_id c.source_account_id).0
        (find?-passes (is_balance c.source_account_id) db.balances b found) in
    let pays =
      All-find? (CanPay db c.amount_minor c.source_account_id) (is_balance c.source_account_id)
        db.balances b (source-CanPay db c x.source x.destination h.sound.keys x.locked x.funded)
        found in
    let covered =
      All-find? (IsCovered db) (is_balance c.source_account_id) db.balances b h.sound.covered
        found in
    let agrees =
      All-find? (AgreesWith db.entries) (is_balance c.source_account_id) db.balances b h.reconciled
        found in
    elim (pays (ground (arith, own))) [
      | inl may ↦ inl may
      | inr enough ↦ inr (rw⁻¹ own (grind (int_laws, covered.0, agrees)))
    ]

-- One call of the ledger is a payment or nothing.
create_transfer-Step :
    (sca : ScaService) (d : Draws) (c : TransferCommand) (before db after : Db)
    → IsOrderly db
    → Step (book db) (book (Transfer.create_transfer sca d c before db after).1)
create_transfer-Step sca d c before db after h =
    create_transfer_ind sca d c before db after (λ db'. Step (book db) (book db')) (stay (book db))
      (λ db' p.
        let n = p.normalised in
        let differ = normalise-differ c n p.normalises in
        let x = execute-Executed sca d n db db' p.executes in
        let wrote = Executed-written x in
        let pays =
          pay (book db) n.command.amount_minor n.command.source_account_id
            n.command.destination_account_id (normalise-at_least_one c n p.normalises) differ
            (payer-can sca d n db db' h p.executes) in
        subst (Step (book db))
          (book-eq
            (paid n.command.amount_minor n.command.source_account_id
              n.command.destination_account_id (book db))
            (book db') (λ id. sym (posted-holds d n db db' id differ (rw wrote refl)))
            (λ id. rw wrote refl))
          pays)

Turn-Step :
    {sca : ScaService} {db db' : Db} → Turn sca db db' → IsOrderly db → Step (book db) (book db')
Turn-Step {sca} {db} (Turn.kept x) h = subst (Step (book db)) (SameBooks-book x) (stay (book db))
Turn-Step {sca} {db} {db'} (Turn.opened id owner currency now middle wrote x) h =
    let account = new_account id owner currency in
    let fresh = fresh_account id owner currency now db middle wrote in
    let opens : book db ≡ book middle =
      book-eq (book db) (book middle)
        (λ k. rw (inserted id owner currency now db middle wrote) refl)
        (λ k.
          rw (inserted id owner currency now db middle wrote)
            (overdraft-new account db.accounts k refl fresh)) in
    subst (Step (book db)) (opens ∙ SameBooks-book x) (stay (book db))
Turn-Step {sca} {db} (Turn.called d c before after x) h =
    subst (Step (book db)) (SameBooks-book x) (create_transfer-Step sca d c before db after h)

-- From books in order, any list of requests does to what the accounts hold and may owe what a
-- sequence of steps of the specification does: each step changes nothing, or one account pays
-- another, different one a positive amount that the payer holds or may owe.
pub run-Steps :
    (sca : ScaService) (requests : List Request) (db : Db)
    → IsOrderly db
    → Steps (book db) (book (Server.run sca requests db))
unfolding Server.run
run-Steps sca [] db h = done (book db)
run-Steps sca (r ∷ rs) db h =
    let turn = Turns.serve-Turn sca r db in
    step (Turn-Step turn h) (run-Steps sca rs (Server.serve sca r db) (Turn-IsOrderly turn h))
