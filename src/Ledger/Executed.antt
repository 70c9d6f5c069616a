-- ===== src/Ledger/Executed.antt =====
-- What a transfer that went through has passed, in the order of the code.
use bantam_bank.Prelude.{◌≡◌, ◌∙◌, ap, arith}
use bantam_bank.Domain.{Uuid, Time, TransferCommand}
use bantam_bank.Errors.{ok}
use bantam_bank.Db.{Db, Account}
use bantam_bank.Sca
use bantam_bank.Sca.{ScaService}
use bantam_bank.Ledger.Checks
use bantam_bank.Ledger.Checks.{Draws, Normalised, Locked}
use bantam_bank.Ledger.Posting
use bantam_bank.Ledger.Transfer
use bantam_bank.Ledger.Written.{>>=-eq-ok, written, post-written}

pub record Executed (sca : ScaService) (d : Draws) (n : Normalised) (db db' : Db) : Type 0 where
  pub source : Locked
  pub destination : Locked
  pub consumed : Db
  pub locked :
      Checks.lock_accounts n.command.source_account_id n.command.destination_account_id db
      ≡ ok (source, destination)
  pub accounts : Transfer.check_accounts n.command source.account destination.account ≡ ok tt
  pub authorised :
      Transfer.authorise_customer sca d.checked_at n.command source.account db ≡ ok consumed
  pub funded : Transfer.check_funds n.command source ≡ ok tt
  pub reversal : Checks.validate_reversal n.command consumed ≡ ok tt
  pub posted : Posting.post d n consumed ≡ ok db'

-- Each statement of the transaction has succeeded.
pub execute-Executed :
    (sca : ScaService) (d : Draws) (n : Normalised) (db db' : Db)
    → Transfer.execute sca d n db ≡ ok db'
    → Executed sca d n db db'
unfolding Transfer.execute
execute-Executed sca d n db db' h =
    let ((source, destination), locked, h1) = >>=-eq-ok _ _ h in
    let (_, accounts, h2) = >>=-eq-ok _ _ h1 in
    let (consumed, authorised, h3) = >>=-eq-ok _ _ h2 in
    let (_, funded, h4) = >>=-eq-ok _ _ h3 in
    let (_, reversal, posted) = >>=-eq-ok _ _ h4 in
    record {
      source = source;
      destination = destination;
      consumed = consumed;
      locked = locked;
      accounts = accounts;
      authorised = authorised;
      funded = funded;
      reversal = reversal;
      posted = posted;
    }

-- Authorisation writes challenges only.
pub authorise_customer-frame :
    (sca : ScaService) (now : Time) (c : TransferCommand) (source : Account) (db db' : Db)
    → Transfer.authorise_customer sca now c source db ≡ ok db'
    → db' ≡ record db { challenges = db'.challenges }
unfolding Transfer.authorise_customer Checks.authorise Sca.validate_and_consume
    Sca.consume_challenge
authorise_customer-frame sca now c source db db' h = ground arith

-- The rest of the database is what the posting wrote over the database at the start.
pub Executed-written :
    {sca : ScaService} {d : Draws} {n : Normalised} {db db' : Db} (x : Executed sca d n db db')
    → db' ≡ written d n (record db { challenges = x.consumed.challenges })
Executed-written {sca} {d} {n} {db} {db'} x =
    post-written d n x.consumed db' x.posted
    ∙ ap (written d n) (
        authorise_customer-frame sca d.checked_at n.command x.source.account db x.consumed
          x.authorised)

-- Two locked accounts are each locked by themselves.
pub lock_accounts-each :
    (s d : Uuid) (db : Db) (a b : Locked)
    → Checks.lock_accounts s d db ≡ ok (a, b)
    → (Checks.lock_account s db ≡ ok a) × (Checks.lock_account d db ≡ ok b)
unfolding Checks.lock_accounts
lock_accounts-each s d db a b e = ground arith
