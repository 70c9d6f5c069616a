-- ===== src/Bank/Freeze.antt =====
-- An account that is not active keeps what it holds, whatever is asked of the bank.
use bantam_bank.Prelude.{
  ◌≡◌, ◌∙◌, ap, refl, sym, true, false, ◌==◌, ==_iff, find?, some, arith, Bool-cases, inl, inr,
}
use bantam_bank.Domain.{Uuid, TransferCommand, is_active}
use bantam_bank.Errors.{ok}
use bantam_bank.Db.{Db, Account}
use bantam_bank.Sca.{ScaService}
use bantam_bank.Ledger.Checks
use bantam_bank.Ledger.Checks.{Draws, Normalised, Locked, is_account}
use bantam_bank.Ledger.Transfer
use bantam_bank.Ledger.Transfer.{authoritative}
use bantam_bank.Ledger.Executed.{execute-Executed, Executed-written, lock_accounts-each}
use bantam_bank.Ledger.Outcomes.{create_transfer_ind}
use bantam_bank.Ledger.Overdraft.{lock_account-row}
use bantam_bank.Bank.Server
use bantam_bank.Bank.Server.{Request}
use bantam_bank.Bank.Turns
use bantam_bank.Bank.Turns.{Turn}
use bantam_bank.Bank.Orderly.{inserted}

check_accounts-active :
    (c : TransferCommand) (s d : Account)
    → Transfer.check_accounts c s d ≡ ok tt
    → (is_active s.status ≡ true) × (is_active d.status ≡ true)
unfolding Transfer.check_accounts
check_accounts-active c s d e = ground arith

-- A locked account that is active is another one.
active_is_other :
    (db : Db) (id other : Uuid) (a : Account) (l : Locked)
    → find? (is_account id) db.accounts ≡ some a
    → is_active a.status ≡ false
    → Checks.lock_account other db ≡ ok l
    → is_active l.account.status ≡ true
    → (other == id) ≡ false
active_is_other db id other a l found frozen locked active = elim (Bool-cases (other == id)) [
  | inr apart ↦ apart
  | inl same ↦
      let (_, _, _, owner) = lock_account-row other db l locked in
      let one : some l.account ≡ some a =
        sym owner ∙ ap (λ i. find? (is_account i) db.accounts) ((==_iff other id).0 same) ∙ found in
      absurd (ground (arith, one))
]

execute-frozen :
    (sca : ScaService) (d : Draws) (n : Normalised) (db db' : Db) (id : Uuid) (a : Account)
    → find? (is_account id) db.accounts ≡ some a
    → is_active a.status ≡ false
    → Transfer.execute sca d n db ≡ ok db'
    → authoritative id db'.entries ≡ authoritative id db.entries
execute-frozen sca d n db db' id a found frozen e =
    let c = n.command in
    let x = execute-Executed sca d n db db' e in
    let (first, second) =
      lock_accounts-each c.source_account_id c.destination_account_id db x.source x.destination
        x.locked in
    let (paying, receiving) =
      check_accounts-active c x.source.account x.destination.account x.accounts in
    rw (Executed-written x) (
      rw
        (
          active_is_other db id c.source_account_id a x.source found frozen first paying,
          active_is_other db id c.destination_account_id a x.destination found frozen second
              receiving,
        )
        refl)

Turn-frozen :
    {sca : ScaService} {db db' : Db} (id : Uuid) (a : Account)
    → Turn sca db db'
    → find? (is_account id) db.accounts ≡ some a
    → is_active a.status ≡ false
    → authoritative id db'.entries ≡ authoritative id db.entries
Turn-frozen id a (Turn.kept x) found frozen = ap (authoritative id) x.entries
Turn-frozen {sca} {db} id a (Turn.opened new owner currency now middle wrote x) found frozen =
    ap (authoritative id) x.entries
    ∙ ap (λ (m : Db). authoritative id m.entries) (inserted new owner currency now db middle wrote)
Turn-frozen {sca} {db} id a (Turn.called d c before after x) found frozen =
    ap (authoritative id) x.entries
    ∙ create_transfer_ind sca d c before db after
        (λ m. authoritative id m.entries ≡ authoritative id db.entries) refl
        (λ m p. execute-frozen sca d p.normalised db m id a found frozen p.executes)

-- While an account is frozen or closed, no request changes the sum of its ledger entries: no
-- transfer, deposit or reversal posts from it or to it.
pub serve-frozen :
    (sca : ScaService) (r : Request) (db : Db) (id : Uuid) (a : Account)
    → find? (is_account id) db.accounts ≡ some a
    → is_active a.status ≡ false
    → authoritative id (Server.serve sca r db).entries ≡ authoritative id db.entries
serve-frozen sca r db id a found frozen = Turn-frozen id a (Turns.serve-Turn sca r db) found frozen
