-- ===== src/Workers/Redelivery.antt =====
-- A transfer that is delivered again raises no second alert.
use bantam_bank.Prelude.{
  ◌≤◌, ◌≡◌, ◌⊎◌, refl, ℤ, leb_ℤ, Bool, true, false, ◌||◌, ◌==◌, ==_iff, any, count, Bool-cases, inl,
  inr, List, [], ◌∷◌, arith,
}
use bantam_bank.Domain.{Uuid}
use bantam_bank.Errors.{ok}
use bantam_bank.Db.{Db, TransferPayload}
use bantam_bank.Ledger.Posting
use bantam_bank.Ledger.Posting.{insert_outbox, insert_audit}
use bantam_bank.Workers
use bantam_bank.Workers.{AlertDraws, is_alert, alert_row}

insert_alert-alerts :
    (threshold : ℤ) (p : TransferPayload) (d : AlertDraws) (db db' : Db)
    → Workers.insert_alert threshold p d db ≡ ok db'
    → db'.alerts ≡ alert_row threshold p d db ∷ db.alerts
unfolding Workers.insert_alert Posting.insert_outbox Posting.insert_audit
insert_alert-alerts threshold p d db db' e = ground arith

create_risk_alert_again :
    (threshold : ℤ) (p : TransferPayload) (d d' : AlertDraws) (db db' : Db)
    → Workers.create_risk_alert threshold p d db ≡ ok db'
    → Workers.create_risk_alert threshold p d' db' ≡ ok db'
unfolding Workers.create_risk_alert
create_risk_alert_again threshold p d d' db db' e =
    elim (Bool-cases
      (leb_ℤ p.amount_minor threshold || any (is_alert p.transaction_id) db.alerts)) [
        | inl quiet ↦ ground arith
        | inr raises ↦
            let inserted : Workers.insert_alert threshold p d db ≡ ok db' = ground arith in
            ground (arith, insert_alert-alerts threshold p d db db' inserted)
      ]

count-of_absent {ℓ} : {A : Type ℓ} (p : A → Bool) (xs : List A) → any p xs ≡ false → count p xs ≡ 0
count-of_absent p [] e = refl
count-of_absent p (x ∷ xs) e = ground (arith, count-of_absent p xs)

create_risk_alert-alerts :
    (threshold : ℤ) (p : TransferPayload) (d : AlertDraws) (db db' : Db) (id : Uuid)
    → Workers.create_risk_alert threshold p d db ≡ ok db'
    → count (is_alert id) db.alerts ≤ 1
    → (count (is_alert id) db'.alerts ≤ 1)
      × ((leb_ℤ p.amount_minor threshold ≡ false)
          → any (is_alert p.transaction_id) db'.alerts ≡ true)
unfolding Workers.create_risk_alert
create_risk_alert-alerts threshold p d db db' id e unique =
    elim (Bool-cases
      (leb_ℤ p.amount_minor threshold || any (is_alert p.transaction_id) db.alerts)) [
        | inl quiet ↦
            let same : db' ≡ db = ground arith in rw same (unique, (λ above. ground arith))
        | inr raises ↦
            let inserted : Workers.insert_alert threshold p d db ≡ ok db' = ground arith in
            let alerts = insert_alert-alerts threshold p d db db' inserted in
            let absent : any (is_alert p.transaction_id) db.alerts ≡ false = ground arith in
            let zero_here = count-of_absent (is_alert p.transaction_id) db.alerts absent in
            rw alerts (
              elim (Bool-cases (p.transaction_id == id)) [
                | inl own ↦ ground (arith, ==_iff p.transaction_id id)
                | inr other ↦ ground arith
              ],
              (λ above. ground arith),
            )
      ]

-- A successful create_risk_alert keeps at most one alert per transaction, afterwards an alert of
-- the transaction is stored where its amount is above the threshold, and a second delivery of the
-- same transfer with other identifiers succeeds and changes nothing.
pub create_risk_alert_once :
    (threshold : ℤ) (p : TransferPayload) (d d' : AlertDraws) (db db' : Db) (id : Uuid)
    → Workers.create_risk_alert threshold p d db ≡ ok db'
    → count (is_alert id) db.alerts ≤ 1
    → (count (is_alert id) db'.alerts ≤ 1)
      × ((leb_ℤ p.amount_minor threshold ≡ true)
          ⊎ (any (is_alert p.transaction_id) db'.alerts ≡ true))
      × (Workers.create_risk_alert threshold p d' db' ≡ ok db')
create_risk_alert_once threshold p d d' db db' id e unique =
    let (once, stored) = create_risk_alert-alerts threshold p d db db' id e unique in
    (
      once,
      elim (Bool-cases (leb_ℤ p.amount_minor threshold)) [
        | inl low ↦ inl low
        | inr above ↦ inr (stored above)
      ],
      create_risk_alert_again threshold p d d' db db' e,
    )
