-- ===== src/Ledger/Authorisation.antt =====
-- Who may move money: what a posted transfer says of its actor, its accounts and its challenge.
use bantam_bank.Prelude.{
  ◌≡◌, ◌⊎◌, true, false, find?, some, arith, Bool-cases, Option-cases, inl, inr,
}
use bantam_bank.Prelude.Text.{◌==ₜ◌, ==ₜ_iff}
use bantam_bank.Domain.{Uuid, Time, Role, AccountStatus, TransferCommand}
use bantam_bank.Errors.{ok}
use bantam_bank.Db.{Db, Account}
use bantam_bank.Sca.{ScaService}
use bantam_bank.Ledger.Checks
use bantam_bank.Ledger.Checks.{Draws, Normalised, Locked, is_account}
use bantam_bank.Ledger.Transfer
use bantam_bank.Ledger.Executed.{Executed, execute-Executed, lock_accounts-each}
use bantam_bank.Ledger.Outcomes.{Posts}

lock_account-account :
    (id : Uuid) (db : Db) (l : Locked)
    → Checks.lock_account id db ≡ ok l
    → find? (is_account id) db.accounts ≡ some l.account
unfolding Checks.lock_account
lock_account-account id db l e = ground arith

accounts-active :
    (c : TransferCommand) (s t : Account)
    → Transfer.check_accounts c s t ≡ ok tt
    → (s.status ≡ AccountStatus.active)
      × (t.status ≡ AccountStatus.active)
      × ((s.currency ==ₜ c.currency) ≡ true)
      × ((t.currency ==ₜ c.currency) ≡ true)
unfolding Transfer.check_accounts
accounts-active c s t e = ground arith

-- The customer whom `authorise` has accepted.
authorise-customer :
    (sca : ScaService) (now : Time) (c : TransferCommand) (s : Account) (db db' : Db)
    → Transfer.authorise_customer sca now c s db ≡ ok db'
    → c.operator_override ≡ false
    → (owner : Uuid) × (c.actor.customer_id ≡ some owner)
      × (s.customer_id ≡ some owner)
      × (Checks.is_kyc_verified owner db ≡ true)
unfolding Transfer.authorise_customer Checks.authorise
authorise-customer sca now c s db db' e own = elim (Option-cases c.actor.customer_id) [
  | inl nobody ↦ absurd (ground arith)
  | inr (owner, is_owner) ↦ (owner, is_owner, ground arith, ground arith)
]

-- What `_normalise` says of the command.
pub normalise-roles :
    (c : TransferCommand) (n : Normalised)
    → Checks.normalise c ≡ ok n
    → (n.command ≡ Checks.trimmed c)
      × ((c.operator_override ≡ false) ⊎ (c.actor.role ≡ Role.bank_admin))
unfolding Checks.normalise
normalise-roles c n e = ground arith

-- Both accounts are there, active and in the currency of the command.
pub record Involves (c : TransferCommand) (db : Db) (s t : Account) : Type 0 where
  pub source : find? (is_account c.source_account_id) db.accounts ≡ some s
  pub destination : find? (is_account c.destination_account_id) db.accounts ≡ some t
  pub source_active : s.status ≡ AccountStatus.active
  pub destination_active : t.status ≡ AccountStatus.active
  pub source_currency : s.currency ≡ c.currency
  pub destination_currency : t.currency ≡ c.currency

-- The actor is a bank administrator who overrides, or a verified customer who owns the account.
abbrev pub MayMove : TransferCommand → Db → Account → Type 0
MayMove c db s =
    ((c.operator_override ≡ true) × (c.actor.role ≡ Role.bank_admin))
    ⊎ ((owner : Uuid) × (c.actor.customer_id ≡ some owner)
        × (s.customer_id ≡ some owner)
        × (Checks.is_kyc_verified owner db ≡ true))

override-MayMove :
    (sca : ScaService) (now : Time) (c : TransferCommand) (s : Account) (db db' : Db)
    → Transfer.authorise_customer sca now c s db ≡ ok db'
    → (c.operator_override ≡ false) ⊎ (c.actor.role ≡ Role.bank_admin)
    → MayMove c db s
override-MayMove sca now c s db db' e (inl own) = inr (authorise-customer sca now c s db db' e own)
override-MayMove sca now c s db db' e (inr admin) = elim (Bool-cases c.operator_override) [
  | inl override ↦ inl (override, admin)
  | inr own ↦ inr (authorise-customer sca now c s db db' e own)
]

execute-Involves :
    (sca : ScaService) (d : Draws) (n : Normalised) (db db' : Db)
    → (x : Executed sca d n db db') → Involves n.command db x.source.account x.destination.account
execute-Involves sca d n db db' x =
    let c = n.command in
    let s = x.source in
    let t = x.destination in
    let (first, second) =
      lock_accounts-each c.source_account_id c.destination_account_id db s t x.locked in
    let (sa, ta, sc, tc) = accounts-active c s.account t.account x.accounts in
    record {
      source = lock_account-account c.source_account_id db s first;
      destination = lock_account-account c.destination_account_id db t second;
      source_active = sa;
      destination_active = ta;
      source_currency = (==ₜ_iff s.account.currency c.currency).0 sc;
      destination_currency = (==ₜ_iff t.account.currency c.currency).0 tc;
    }

-- A posted transfer moves between two stored, active accounts in the currency of the command, and
-- its actor is a bank administrator who overrides or a customer with verified KYC who owns the
-- source account.
pub create_transfer-authorised :
    (sca : ScaService) (d : Draws) (c : TransferCommand) (before db db' : Db)
    → Posts sca d c before db db'
    → (s t : Account) × Involves (Checks.trimmed c) db s t × MayMove (Checks.trimmed c) db s
create_transfer-authorised sca d c before db db' p =
    let n = p.normalised in
    let x = execute-Executed sca d n db db' p.executes in
    let s : Account = x.source.account in
    let t : Account = x.destination.account in
    let (command, allowed) = normalise-roles c n p.normalises in
    (
      s,
      t,
      rw command at (execute-Involves sca d n db db' x),
      override-MayMove sca d.checked_at (Checks.trimmed c) s db x.consumed
          (rw command at x.authorised) allowed,
    )
