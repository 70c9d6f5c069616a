-- ===== src/Bank/Frame.antt =====
-- What the handlers that move no money leave alone.
use bantam_bank.Prelude.{
  ℕ, ℤ, ◌≡◌, ◌∙◌, refl, any, find?, update, Bool, false, Option, none, some, List, [], ◌∷◌, arith,
}
use bantam_bank.Prelude.Text.{Text}
use bantam_bank.Domain.{Uuid, Time, Principal, KycStatus, AccountStatus}
use bantam_bank.Errors.{Result, ok, err, ◌>>=◌}
use bantam_bank.Db.{Db, Account, AlertStatus, OutboxRow}
use bantam_bank.Audit.{AuditFields}
use bantam_bank.Sca
use bantam_bank.Sca.{ScaService}
use bantam_bank.Ledger.Checks.{is_account}
use bantam_bank.Ledger.Posting
use bantam_bank.Ledger.Posting.{may_go_negative}
use bantam_bank.Ledger.Written.{>>=-eq-ok}
use bantam_bank.Bank.Reply.{Http, Stamp, Reply, commit, commit_then, guarded}
use bantam_bank.Bank.Customers
use bantam_bank.Bank.Accounts
use bantam_bank.Bank.Alerts

-- The books are the same: balances, transactions, entries, which accounts are stored, and which of
-- them may be overdrawn.
pub record SameBooks (db db' : Db) : Type 0 where
  pub balances : db'.balances ≡ db.balances
  pub transactions : db'.transactions ≡ db.transactions
  pub entries : db'.entries ≡ db.entries
  pub stored : (id : Uuid) → any (is_account id) db'.accounts ≡ any (is_account id) db.accounts
  pub overdraft : (id : Uuid) → may_go_negative id db' ≡ may_go_negative id db

abbrev pub same : (db : Db) → SameBooks db db
same db = record {
  balances = refl;
  transactions = refl;
  entries = refl;
  stored = λ _. refl;
  overdraft = λ _. refl;
}

-- One after the other.
abbrev pub then_same : {a b c : Db} → SameBooks a b → SameBooks b c → SameBooks a c
then_same x y = record {
  balances = y.balances ∙ x.balances;
  transactions = y.transactions ∙ x.transactions;
  entries = y.entries ∙ x.entries;
  stored = λ id. y.stored id ∙ x.stored id;
  overdraft = λ id. y.overdraft id ∙ x.overdraft id;
}

-- The books of a database whose other tables differ.
same_tables :
    (db db' : Db)
    → (db'.accounts ≡ db.accounts)
      × (db'.balances ≡ db.balances)
      × (db'.transactions ≡ db.transactions)
      × (db'.entries ≡ db.entries)
    → SameBooks db db'
same_tables db db' (a, b, t, e) = record {
  balances = b;
  transactions = t;
  entries = e;
  stored = λ id. rw a refl;
  overdraft = λ id. rw a refl;
}

-- Whatever a result leaves, its tables have the same books.
abbrev pub Keeps : Db → Result Db → Type 0
Keeps db r = (db' : Db) → r ≡ ok db' → SameBooks db db'

pub insert_audit-Keeps :
    (f : AuditFields) (id : Uuid) (now : Time) (db : Db)
    → Keeps db (Posting.insert_audit f id now db)
unfolding Posting.insert_audit
insert_audit-Keeps f id now db db' e = same_tables db db' (ground arith)

pub insert_outbox-Keeps : (row : OutboxRow) (db : Db) → Keeps db (Posting.insert_outbox row db)
unfolding Posting.insert_outbox
insert_outbox-Keeps row db db' e = same_tables db db' (ground arith)

pub commit-same : (db : Db) (r : Result Db) → Keeps db r → SameBooks db (commit db r).1
commit-same db (ok db') keeps = keeps db' refl
commit-same db (err e) keeps = same db

pub commit_then-same :
    (db : Db) (r : Result Db) (rest : Db → Result Db)
    → Keeps db r
    → ((middle : Db) → Keeps middle (rest middle))
    → SameBooks db (commit_then db r rest).1
commit_then-same db (err e) rest one two = same db
commit_then-same db (ok middle) rest one two =
    then_same (one middle refl) (commit-same middle (rest middle) (two middle))

pub guarded-same :
    (scope : Result (Unit {0})) (db : Db) (reply : Reply)
    → SameBooks db reply.1
    → SameBooks db (guarded scope db reply).1
guarded-same (ok _) db reply keeps = keeps
guarded-same (err e) db reply keeps = same db

pub move_kyc-Keeps :
    (test : KycStatus → Bool) (status : KycStatus) (id : Uuid) (db : Db)
    → Keeps db (Customers.move_kyc test status id db)
unfolding Customers.move_kyc
move_kyc-Keeps test status id db db' e = same_tables db db' (ground arith)

-- A new status changes no identifier and no permission.
with_status-stored :
    (test : Account → Bool) (status : AccountStatus) (id : Uuid) (rows : List Account)
    → any (is_account id) (update test (Accounts.with_status status) rows)
      ≡ any (is_account id) rows
with_status-stored test status id [] = refl
with_status-stored test status id (a ∷ rows) =
    ground (arith, with_status-stored test status id rows)

abbrev pub overdraft_of : Option Account → Bool
overdraft_of none = false
overdraft_of (some a) = a.allow_negative

with_status-overdraft :
    (test : Account → Bool) (status : AccountStatus) (id : Uuid) (rows : List Account)
    → overdraft_of (find? (is_account id) (update test (Accounts.with_status status) rows))
      ≡ overdraft_of (find? (is_account id) rows)
with_status-overdraft test status id [] = refl
with_status-overdraft test status id (a ∷ rows) =
    ground (arith, with_status-overdraft test status id rows)

move_status-Keeps :
    (status : AccountStatus) (id : Uuid) (db : Db) → Keeps db (Accounts.move_status status id db)
unfolding Accounts.move_status
move_status-Keeps status id db db' e =
    let accounts : db'.accounts
        ≡ update (Accounts.is_settable id) (Accounts.with_status status) db.accounts =
      ground arith in
    record {
      balances = ground arith;
      transactions = ground arith;
      entries = ground arith;
      stored = λ k. rw accounts (with_status-stored (Accounts.is_settable id) status k db.accounts);
      overdraft =
          λ k. rw accounts (with_status-overdraft (Accounts.is_settable id) status k db.accounts);
    }

-- A block that runs one statement after another.
pub bind-Keeps :
    (db : Db) (first : Result Db) (rest : Db → Result Db)
    → Keeps db first
    → ((middle : Db) → Keeps middle (rest middle))
    → Keeps db (first >>= rest)
bind-Keeps db first rest one two db' e =
    let (middle, ran, rest_ran) = >>=-eq-ok first rest e in
    then_same (one middle ran) (two middle db' rest_ran)

pub decide_kyc-Keeps :
    (h : Http) (p : Principal) (id : Uuid) (decision : KycStatus) (reason : Text) (s : Stamp)
    (db : Db)
    → Keeps db (Customers.decide_kyc h p id decision reason s db)
unfolding Customers.decide_kyc
decide_kyc-Keeps h p id decision reason s db =
    bind-Keeps db _ _ (move_kyc-Keeps Customers.in_review decision id db) (λ moved.
      bind-Keeps moved _ _ (insert_outbox-Keeps _ moved)
        (λ stored. insert_audit-Keeps _ _ _ stored))

pub set_status-Keeps :
    (h : Http) (p : Principal) (id : Uuid) (status : AccountStatus) (reason : Text) (s : Stamp)
    (db : Db)
    → Keeps db (Accounts.set_status h p id status reason s db)
unfolding Accounts.set_status
set_status-Keeps h p id status reason s db =
    bind-Keeps db _ _ (move_status-Keeps status id db) (λ moved.
      bind-Keeps moved _ _ (insert_outbox-Keeps _ moved)
        (λ stored. insert_audit-Keeps _ _ _ stored))

pub store_manual_alert-Keeps :
    (s : Stamp) (id : Uuid) (severity explanation : Text) (db : Db)
    → Keeps db (Alerts.store_manual_alert s id severity explanation db)
unfolding Alerts.store_manual_alert Alerts.customer_of_transaction Alerts.insert_manual_alert
store_manual_alert-Keeps s id severity explanation db db' e = same_tables db db' (ground arith)

pub move_alert-Keeps :
    (status : AlertStatus) (user id : Uuid) (db : Db)
    → Keeps db (Alerts.move_alert status user id db)
unfolding Alerts.move_alert
move_alert-Keeps status user id db db' e = same_tables db db' (ground arith)

pub challenge-Keeps :
    (sca : ScaService) (id draw : ℕ) (now : Time) (p : Principal) (source destination : Uuid)
    (amount : ℤ) (db db' : Db) (issued : Sca.Issued)
    → Sca.create sca id draw now p source destination amount db ≡ ok (issued, db')
    → SameBooks db db'
unfolding Sca.create
challenge-Keeps sca id draw now p source destination amount db db' issued e =
    same_tables db db' (ground arith)
