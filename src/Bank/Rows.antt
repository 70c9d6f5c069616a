-- ===== src/Bank/Rows.antt =====
-- bantam/ledger.py and bantam/api.py: what the insertion of an event and of an audit row leaves,
-- and why it fails.
use bantam_bank.Prelude.{◌≡◌, ◌⊎◌, refl, ◌==◌, any, true, ◌∷◌, arith, inl, inr}
use bantam_bank.Domain.{Uuid, Time}
use bantam_bank.Errors.{Error, Result, ok, err, ◌>>=◌}
use bantam_bank.Db.{Db, OutboxRow}
use bantam_bank.Audit.{AuditFields, record_audit}
use bantam_bank.Ledger.Posting

pub >>=-eq-err {ℓ κ} :
    {A : Type ℓ} {B : Type κ} {e : Error} (first : Result A) (rest : A → Result B)
    → (first >>= rest) ≡ err e
    → (first ≡ err e) ⊎ ((a : A) × (first ≡ ok a) × (rest a ≡ err e))
>>=-eq-err (err raised) rest run = inl (ground (arith, run))
>>=-eq-err (ok a) rest run = inr (a, refl, run)

pub insert_outbox-written :
    (row : OutboxRow) (db db' : Db)
    → Posting.insert_outbox row db ≡ ok db'
    → db' ≡ record db { outbox = row ∷ db.outbox }
unfolding Posting.insert_outbox
insert_outbox-written row db db' e = ground arith

pub insert_audit-written :
    (f : AuditFields) (id : Uuid) (now : Time) (db db' : Db)
    → Posting.insert_audit f id now db ≡ ok db'
    → db' ≡ record_audit f id id now db
unfolding Posting.insert_audit
insert_audit-written f id now db db' e = ground arith

pub insert_outbox-taken :
    (row : OutboxRow) (db : Db) (e : Error)
    → Posting.insert_outbox row db ≡ err e
    → (e ≡ Error.unique_violation)
      × (any (λ o. o.outbox_event_id == row.outbox_event_id) db.outbox ≡ true)
unfolding Posting.insert_outbox
insert_outbox-taken row db e failed = ground arith

pub insert_audit-taken :
    (f : AuditFields) (id : Uuid) (now : Time) (db : Db) (e : Error)
    → Posting.insert_audit f id now db ≡ err e
    → (e ≡ Error.unique_violation) × (any (λ a. a.audit_event_id == id) db.audit ≡ true)
unfolding Posting.insert_audit
insert_audit-taken f id now db e failed = ground arith
