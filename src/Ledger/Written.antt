-- ===== src/Ledger/Written.antt =====
-- What a posting that went through has written, and which constraints it then met.
use bantam_bank.Prelude.{◌≡◌, refl, -ℤ◌, update, List, ◌∷◌, arith}
use bantam_bank.Errors.{Outcome, ok, err, ◌>>=◌, ◌>>◌}
use bantam_bank.Db.{Db, Balance}
use bantam_bank.Audit.{record_audit}
use bantam_bank.Ledger.Checks.{Draws, Normalised, is_balance}
use bantam_bank.Ledger.Posting

pub >>=-eq-ok {ℓ κ} :
    {E : Type 0} {A : Type ℓ} {B : Type κ} {returned : B} (first : Outcome E A)
    (rest : A → Outcome E B)
    → (first >>= rest) ≡ ok returned
    → (value : A) × (first ≡ ok value) × (rest value ≡ ok returned)
>>=-eq-ok (err raised) rest run = absurd (ground arith)
>>=-eq-ok (ok value) rest run = (value, refl, run)

-- Two statements, one after the other.
pub then_pass {κ} :
    {E : Type 0} {B : Type κ} (first : Outcome E (Unit {0})) (rest : Outcome E B) (returned : B)
    → (first >> rest) ≡ ok returned
    → (first ≡ ok tt) × (rest ≡ ok returned)
then_pass (err raised) rest returned run = absurd (ground arith)
then_pass (ok done) rest returned run = (refl, run)

-- The balances once the amount has moved.
abbrev pub written_balances : Draws → Normalised → List Balance → List Balance
written_balances d n balances =
    let c = n.command in
    update (is_balance c.destination_account_id)
      (Posting.moved c.amount_minor d.credit_entry_id d.started_at)
      (update (is_balance c.source_account_id)
        (Posting.moved (-ℤ c.amount_minor) d.debit_entry_id d.started_at) balances)

-- The database once everything is written.
abbrev pub written : Draws → Normalised → Db → Db
written d n db =
    let c = n.command in
    record_audit (Posting.audit_fields d n) d.audit_event_id d.audit_event_id d.started_at
      (record db {
        transactions =
            Posting.mark_reversed c.reverses_transaction_id
              (Posting.transaction_row d n ∷ db.transactions);
        entries = Posting.debit_row d n ∷ Posting.credit_row d n ∷ db.entries;
        balances = written_balances d n db.balances;
        outbox = Posting.outbox_row d n ∷ db.outbox;
      })

pub post-written :
    (d : Draws) (n : Normalised) (db db' : Db) → Posting.post d n db ≡ ok db' → db' ≡ written d n db
unfolding Posting.post
post-written d n db db' h = ground arith
