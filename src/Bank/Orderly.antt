-- ===== src/Bank/Orderly.antt =====
-- The books stay in order through any sequence of requests.
use bantam_bank.Prelude.{
  ◌≤◌, ◌≡◌, ◌∙◌, ap, refl, sym, pos, true, false, ◌==◌, ==_iff, any, count, All, List, [], ◌∷◌,
  arith, int_laws, Bool-cases, inl, inr, ◌⊎◌, Bool, ◌||◌, any-find?,
}
use bantam_bank.Prelude.Text.{Text, ◌==ₜ◌}
use bantam_bank.Domain.{Uuid, Time, TransferCommand}
use bantam_bank.Errors.{ok}
use bantam_bank.Db.{Db, Account, Balance, Entry}
use bantam_bank.Sca.{ScaService}
use bantam_bank.Ledger.Checks
use bantam_bank.Ledger.Checks.{Draws, Normalised, Locked, is_account, is_balance}
use bantam_bank.Ledger.Posting.{may_go_negative}
use bantam_bank.Ledger.Transfer
use bantam_bank.Ledger.Transfer.{authoritative}
use bantam_bank.Ledger.Executed.{execute-Executed, Executed-written, lock_accounts-each}
use bantam_bank.Ledger.Outcomes.{create_transfer_ind}
use bantam_bank.Ledger.Keys.{total}
use bantam_bank.Ledger.Rules.{IsCovered}
use bantam_bank.Ledger.Overdraft.{IsSound, create_transfer-IsSound, lock_account-row}
use bantam_bank.Ledger.Reconciliation.{IsReconciled, create_transfer-IsReconciled}
use bantam_bank.Ledger.Conservation.{IsBalanced, create_transfer-IsBalanced, create_transfer-total}
use bantam_bank.Bank.Customers
use bantam_bank.Bank.Customers.{new_account, new_balance}
use bantam_bank.Bank.Server
use bantam_bank.Bank.Server.{Request}
use bantam_bank.Bank.Frame.{SameBooks}
use bantam_bank.Bank.Turns
use bantam_bank.Bank.Turns.{Turn}

-- Each entry is one of a stored account.
abbrev pub IsHeld : Db → Type 0
IsHeld db = All (λ e. any (is_account e.account_id) db.accounts ≡ true) db.entries

pub record IsOrderly (db : Db) : Type 0 where
  pub sound : IsSound db
  pub reconciled : IsReconciled db
  pub balanced : IsBalanced db.entries
  pub held : IsHeld db

IsCovered-same :
    (db db' : Db) (bs : List Balance)
    → ((id : Uuid) → may_go_negative id db' ≡ may_go_negative id db)
    → All (IsCovered db) bs
    → All (IsCovered db') bs
IsCovered-same db db' [] same h = tt
IsCovered-same db db' (b ∷ bs) same h =
    (ground (arith, same b.account_id), IsCovered-same db db' bs same h.1)

IsHeld-same :
    (as_now as_before : List Account) (es : List Entry)
    → ((id : Uuid) → any (is_account id) as_now ≡ any (is_account id) as_before)
    → All (λ (e : Entry). any (is_account e.account_id) as_before ≡ true) es
    → All (λ (e : Entry). any (is_account e.account_id) as_now ≡ true) es
IsHeld-same as_now as_before [] same h = tt
IsHeld-same as_now as_before (e ∷ es) same h =
    (same e.account_id ∙ h.0, IsHeld-same as_now as_before es same h.1)

same-IsOrderly : {db db' : Db} → SameBooks db db' → IsOrderly db → IsOrderly db'
same-IsOrderly {db} {db'} x h = record {
  sound = record {
    keys = rw x.balances h.sound.keys;
    covered = rw x.balances (IsCovered-same db db' db.balances x.overdraft h.sound.covered);
    foreign = rw (x.entries, x.transactions) h.sound.foreign;
  };
  reconciled = rw (x.balances, x.entries) h.reconciled;
  balanced = rw x.entries h.balanced;
  held = rw x.entries (IsHeld-same db'.accounts db.accounts db.entries x.stored h.held);
}

-- A new account, whose identifier no row has.
module _ (id owner : Uuid) (currency : Text) (now : Time) (db db' : Db)
    (wrote : Customers.insert_account (new_account id owner currency) (new_balance id now) db
      ≡ ok db') where
  fresh_balance : any (is_balance id) db.balances ≡ false
  unfolding Customers.insert_account
  fresh_balance = ground arith

  pub inserted : db' ≡ record db {
    accounts = new_account id owner currency ∷ db.accounts;
    balances = new_balance id now ∷ db.balances;
  }
  unfolding Customers.insert_account
  inserted = ground arith

any-first :
    (p q : Account → Bool) (xs : List Account) → any (λ a. p a || q a) xs ≡ false → any p xs ≡ false
any-first p q [] h = refl
any-first p q (a ∷ xs) h = ground (arith, any-first p q xs)

-- Either identifiers are equal, or both tests say that they are not.
pub same_or_not : (a b : Uuid) → (a ≡ b) ⊎ ((a == b) ≡ false) × ((b == a) ≡ false)
same_or_not a b = elim (Bool-cases (a == b)) [
  | inl same ↦ inl ((==_iff a b).0 same)
  | inr other ↦ ground (arith, ==_iff a b, ==_iff b a)
]

count-none :
    (id : Uuid) (bs : List Balance) → any (is_balance id) bs ≡ false → count (is_balance id) bs ≡ 0
count-none id [] h = refl
count-none id (b ∷ bs) h = ground (arith, count-none id bs)

HasKeys-new :
    (k id : Uuid) (now : Time) (bs : List Balance)
    → any (is_balance id) bs ≡ false
    → count (is_balance k) bs ≤ 1
    → count (is_balance k) (new_balance id now ∷ bs) ≤ 1
HasKeys-new k id now bs fresh h = elim (same_or_not id k) [
  | inl same ↦ grind (arith, ap (λ i. count (is_balance i) bs) same, count-none id bs fresh)
  | inr other ↦ rw other.0 (omega arith)
]

IsCovered-new :
    (id owner : Uuid) (currency : Text) (db db' : Db) (bs : List Balance)
    → db'.accounts ≡ new_account id owner currency ∷ db.accounts
    → any (is_balance id) bs ≡ false
    → All (IsCovered db) bs
    → All (IsCovered db') bs
IsCovered-new id owner currency db db' [] e fresh h = tt
IsCovered-new id owner currency db db' (b ∷ bs) e fresh h = (
  elim (same_or_not b.account_id id) [
    | inl same ↦ absurd (ground (arith, ==_iff b.account_id id))
    | inr other ↦ rw (e, may_go_negative, other.1) h.0
  ],
  IsCovered-new id owner currency db db' bs e (ground arith) h.1,
)

no_entries :
    (id : Uuid) (accounts : List Account) (es : List Entry)
    → any (is_account id) accounts ≡ false
    → All (λ (e : Entry). any (is_account e.account_id) accounts ≡ true) es
    → authoritative id es ≡ pos 0
no_entries id accounts [] fresh h = refl
no_entries id accounts (e ∷ es) fresh h = elim (same_or_not e.account_id id) [
  | inl same ↦ absurd (cc (ap (λ i. any (is_account i) accounts) same, h.0, fresh))
  | inr other ↦ rw other.0 (no_entries id accounts es fresh h.1)
]

IsHeld-new :
    (a : Account) (accounts : List Account) (es : List Entry)
    → All (λ (e : Entry). any (is_account e.account_id) accounts ≡ true) es
    → All (λ (e : Entry). any (is_account e.account_id) (a ∷ accounts) ≡ true) es
IsHeld-new a accounts [] h = tt
IsHeld-new a accounts (e ∷ es) h = (ground (arith, h.0), IsHeld-new a accounts es h.1)

module _ (id owner : Uuid) (currency : Text) (now : Time) (db db' : Db)
    (wrote : Customers.insert_account (new_account id owner currency) (new_balance id now) db
      ≡ ok db') where
  pub fresh_account : any (is_account id) db.accounts ≡ false
  unfolding Customers.insert_account
  fresh_account =
      any-first (is_account id) (λ a. a.account_reference ==ₜ Customers.reference_of id) db.accounts
        (ground arith)

  insert_account-IsOrderly : IsOrderly db → IsOrderly db'
  insert_account-IsOrderly h =
      let fresh = fresh_balance id owner currency now db db' wrote in
      let a = new_account id owner currency in
      let opened : Db = record db {
        accounts = a ∷ db.accounts;
        balances = new_balance id now ∷ db.balances;
      } in
      rw (inserted id owner currency now db db' wrote) (record {
        sound = record {
          keys = λ k. HasKeys-new k id now db.balances fresh (h.sound.keys k);
          covered = (
            (omega arith, inr (omega arith)),
            IsCovered-new id owner currency db opened db.balances refl fresh h.sound.covered,
          );
          foreign = h.sound.foreign;
        };
        reconciled =
            (sym (no_entries id db.accounts db.entries fresh_account h.held), h.reconciled);
        balanced = h.balanced;
        held = IsHeld-new a db.accounts db.entries h.held;
      })

-- The ledger posts to stored accounts.
lock_account-stored :
    (id : Uuid) (db : Db) (l : Locked)
    → Checks.lock_account id db ≡ ok l
    → any (is_account id) db.accounts ≡ true
lock_account-stored id db l e =
    let (_, _, _, owner) = lock_account-row id db l e in
    any-find? (is_account id) db.accounts _ owner

execute-IsHeld :
    (sca : ScaService) (d : Draws) (n : Normalised) (db db' : Db)
    → Transfer.execute sca d n db ≡ ok db'
    → IsHeld db
    → IsHeld db'
execute-IsHeld sca d n db db' e h =
    let x = execute-Executed sca d n db db' e in
    let c = n.command in
    let (first, second) =
      lock_accounts-each c.source_account_id c.destination_account_id db x.source x.destination
        x.locked in
    rw (Executed-written x) (
      lock_account-stored c.source_account_id db x.source first,
      (lock_account-stored c.destination_account_id db x.destination second, h),
    )

create_transfer-IsOrderly :
    (sca : ScaService) (d : Draws) (c : TransferCommand) (before db after : Db)
    → IsOrderly db
    → IsOrderly (Transfer.create_transfer sca d c before db after).1
create_transfer-IsOrderly sca d c before db after h = record {
  sound = create_transfer-IsSound sca d c before db after h.sound;
  reconciled = create_transfer-IsReconciled sca d c before db after h.reconciled;
  balanced = create_transfer-IsBalanced sca d c before db after h.balanced;
  held =
      create_transfer_ind sca d c before db after IsHeld h.held
        (λ db' p. execute-IsHeld sca d p.normalised db db' p.executes h.held);
}

pub Turn-IsOrderly :
    {sca : ScaService} {db db' : Db} → Turn sca db db' → IsOrderly db → IsOrderly db'
Turn-IsOrderly (Turn.kept x) h = same-IsOrderly x h
Turn-IsOrderly (Turn.opened id owner currency now middle wrote x) h =
    same-IsOrderly x (insert_account-IsOrderly id owner currency now _ middle wrote h)
Turn-IsOrderly (Turn.called d c before after x) h =
    same-IsOrderly x (create_transfer-IsOrderly _ d c before _ after h)

Turn-total :
    {sca : ScaService} {db db' : Db}
    → Turn sca db db'
    → IsOrderly db
    → total db'.balances ≡ total db.balances
Turn-total (Turn.kept x) h = ap total x.balances
Turn-total {sca} {db} (Turn.opened id owner currency now middle wrote x) h =
    ap total x.balances
    ∙ ap (λ (m : Db). total m.balances) (inserted id owner currency now db middle wrote)
    ∙ omega int_laws
Turn-total {sca} {db} (Turn.called d c before after x) h =
    ap total x.balances ∙ (create_transfer-total sca d c before db after h.sound.keys).1

-- If the books are in order (one row of balances per account, no customer account overdrawn or
-- with more available than its current balance, every current balance the sum of its account's
-- entries, the entries of each transaction sum to zero, and each entry is of a stored account and
-- a stored transaction), they are in order after any list of requests, and the sum of all current
-- balances is the same.
pub run-IsOrderly :
    (sca : ScaService) (requests : List Request) (db : Db)
    → IsOrderly db
    → let db' = Server.run sca requests db in
      IsOrderly db' × (total db'.balances ≡ total db.balances)
unfolding Server.run
run-IsOrderly sca [] db h = (h, refl)
run-IsOrderly sca (r ∷ rs) db h =
    let turn = Turns.serve-Turn sca r db in
    let (order, same) = run-IsOrderly sca rs (Server.serve sca r db) (Turn-IsOrderly turn h) in
    (order, same ∙ Turn-total turn h)
