-- ===== src/Bank/Kyc.antt =====
-- bantam/api.py: what `admin_decide_kyc` decides of a customer's identity.
use bantam_bank.Prelude.{
  ◌≡◌, ◌⊎◌, refl, ap, sym, true, false, ◌&&◌, any, update, arith, subst, Option-cases, inl, inr,
}
use bantam_bank.Prelude.Text.{Text}
use bantam_bank.Domain.{Uuid, Principal, KycStatus}
use bantam_bank.Errors.{Error, Result, ok, err, ◌>>=◌}
use bantam_bank.Db.{Db, Customer}
use bantam_bank.Audit.{audit_row}
use bantam_bank.Ledger.Posting
use bantam_bank.Ledger.Written.{>>=-eq-ok}
use bantam_bank.Ledger.Outcomes.{Result-cases}
use bantam_bank.Bank.Reply.{Http, Stamp, commit, http_error}
use bantam_bank.Bank.Customers
use bantam_bank.Bank.Customers.{is_customer_row, in_review}
use bantam_bank.Bank.Rows.{
  >>=-eq-err, insert_outbox-written, insert_audit-written, insert_outbox-taken, insert_audit-taken,
}
use bantam_bank.Bank.Decided.{IsDecision, IsEvent, IsNoted, Decided, IsRefused}
use bantam_bank.Bank.Waiting.{
  update-Settles, none-waits, kyc_decision-some, kyc_decision-none, any-hit-waits,
}

move_kyc-written :
    (status : KycStatus) (id : Uuid) (db moved : Db)
    → Customers.move_kyc in_review status id db ≡ ok moved
    → let hits = λ (c : Customer). is_customer_row id c && in_review c.kyc_status in
      (any hits db.customers ≡ true)
      × (moved ≡ record db {
        customers = update hits (λ c. record c { kyc_status = status }) db.customers;
      })
unfolding Customers.move_kyc
move_kyc-written status id db moved e = ground arith

move_kyc-refused :
    (status : KycStatus) (id : Uuid) (db : Db) (e : Error)
    → Customers.move_kyc in_review status id db ≡ err e
    → (e ≡ http_error "INVALID_KYC_STATE" 409)
      × (any (λ c. is_customer_row id c && in_review c.kyc_status) db.customers ≡ false)
unfolding Customers.move_kyc
move_kyc-refused status id db e failed = ground arith

-- The event of each of the two statuses.
kyc_row-IsEvent :
    (text : Text) (s : Stamp) (id : Uuid) (status : KycStatus)
    → IsDecision text status
    → IsEvent id status (Customers.kyc_row s id status)
kyc_row-IsEvent text s id status d = record {
  kind = elim d [
    | inl (word, verified) ↦
        inl (verified, ap (λ k. (Customers.kyc_row s id k).event_type) verified)
    | inr (word, rejected) ↦
        inr (rejected, ap (λ k. (Customers.kyc_row s id k).event_type) rejected)
  ];
  aggregate_type = refl;
  aggregate_id = refl;
  payload = refl;
  unsent = refl;
}

kyc_audit-IsNoted :
    (h : Http) (p : Principal) (id : Uuid) (status : KycStatus) (reason : Text) (s : Stamp)
    → IsNoted h p id status reason (
        audit_row
          (Customers.kyc_audit h p id status reason)
          s.audit_event_id
          s.audit_event_id
          s.now)
unfolding audit_row
kyc_audit-IsNoted h p id status reason s = record {
  actor = refl;
  action = refl;
  resource_type = refl;
  resource = refl;
  request = refl;
  metadata = refl;
}

decide_kyc-Decided :
    (h : Http) (p : Principal) (id : Uuid) (text : Text) (status : KycStatus) (reason : Text)
    (s : Stamp) (db db' : Db)
    → IsDecision text status
    → Customers.decide_kyc h p id status reason s db ≡ ok db'
    → Decided h p id status reason db db'
unfolding Customers.decide_kyc
decide_kyc-Decided h p id text status reason s db db' d e =
    let (moved, first, rest) = >>=-eq-ok _ _ e in
    let (stored, second, third) = >>=-eq-ok _ _ rest in
    let (was, one) = move_kyc-written status id db moved first in
    let two = insert_outbox-written (Customers.kyc_row s id status) moved stored second in
    let three =
      insert_audit-written (Customers.kyc_audit h p id status reason) s.audit_event_id s.now stored
        db' third in
    rw three (
      rw two (
        rw one (record {
          waited = any-hit-waits id db.customers was;
          customers = update-Settles id status db.customers;
          event = (Customers.kyc_row s id status, refl, kyc_row-IsEvent text s id status d);
          noted = (_, refl, kyc_audit-IsNoted h p id status reason s);
          frame = refl;
        })))

decide_kyc-IsRefused :
    (scope : Result (Unit {0})) (h : Http) (p : Principal) (id : Uuid) (text : Text)
    (status : KycStatus) (reason : Text) (s : Stamp) (db : Db) (e : Error)
    → Customers.decide_kyc h p id status reason s db ≡ err e
    → IsRefused scope id text s db e
unfolding Customers.decide_kyc
decide_kyc-IsRefused scope h p id text status reason s db e failed =
    let audit : Db → Result Db = λ stored.
      Posting.insert_audit (Customers.kyc_audit h p id status reason) s.audit_event_id s.now
        stored in
    elim (>>=-eq-err (Customers.move_kyc in_review status id db)
      (λ moved. Posting.insert_outbox (Customers.kyc_row s id status) moved >>= audit) failed) [
        | inl first ↦
            let (same, missing) = move_kyc-refused status id db e first in
            subst (IsRefused scope id text s db) (sym same)
              (IsRefused.none_waits (none-waits id db.customers missing))
        | inr (moved, first, rest) ↦
            let (was, one) = move_kyc-written status id db moved first in
            elim (>>=-eq-err (Posting.insert_outbox (Customers.kyc_row s id status) moved) audit
              rest) [
                | inl second ↦
                    let (same, used) =
                      insert_outbox-taken (Customers.kyc_row s id status) moved e second in
                    subst (IsRefused scope id text s db) (sym same)
                      (IsRefused.taken (inl (rw one at used)))
                | inr (stored, second, third) ↦
                    let (same, used) =
                      insert_audit-taken (Customers.kyc_audit h p id status reason) s.audit_event_id
                        s.now stored e third in
                    let two =
                      insert_outbox-written (Customers.kyc_row s id status) moved stored second in
                    subst (IsRefused scope id text s db) (sym same)
                      (IsRefused.taken (inr (rw one at rw two at used)))
              ]
      ]

-- What admin_decide_kyc answers, and what it leaves. An answer without an error: the scope allowed
-- it, the text, stripped and in upper case, is APPROVE or KYC_VERIFIED and the status verified, or
-- REJECT or KYC_REJECTED and the status rejected; a customer of that identifier waited for a review
-- (PENDING_REVIEW) and has the status now, and every other row of the customers is as it was; one
-- pending event of the customer is stored, of the type that belongs to the status and with the
-- status in it, and one audit row, which names the actor, the customer, the request, the status and
-- the reason; nothing else changes. An error leaves the tables as they were, and is the scope's, or
-- INVALID_DECISION where the text is none of the four words, or INVALID_KYC_STATE where no customer
-- of that identifier waits, or a unique violation where the identifier drawn for the event or for
-- the audit row is taken.
pub admin_decide_kyc-Decided :
    (scope : Result (Unit {0})) (h : Http) (p : Principal) (id : Uuid) (decision reason : Text)
    (s : Stamp) (db : Db)
    → let (result, db') = Customers.admin_decide_kyc scope h p id decision reason s db in
      ((result ≡ ok tt)
        × (scope ≡ ok tt)
        × ((status : KycStatus) × IsDecision decision status × Decided h p id status reason db db'))
      ⊎ ((e : Error) × (result ≡ err e) × (db' ≡ db) × IsRefused scope id decision s db e)
unfolding Customers.admin_decide_kyc
admin_decide_kyc-Decided (err e) h p id decision reason s db =
    inr (e, refl, refl, IsRefused.by_scope e refl)
admin_decide_kyc-Decided (ok _) h p id decision reason s db =
    elim (Option-cases (Customers.kyc_decision decision)) [
      | inl unknown ↦
          rw (unknown, Customers.admin_decide_kyc)
            (inr (_, refl, refl, IsRefused.unknown_word (kyc_decision-none decision unknown)))
      | inr (status, known) ↦ elim (Result-cases (Customers.decide_kyc h p id status reason s db)) [
        | inr (e, failed) ↦
            rw (known, Customers.admin_decide_kyc)
              (rw (failed, commit)
                (inr (
                  e,
                  refl,
                  refl,
                  decide_kyc-IsRefused (ok tt) h p id decision status reason s db e failed,
                )))
        | inl (db', ran) ↦
            let d = kyc_decision-some decision status known in
            rw (known, Customers.admin_decide_kyc)
              (rw (ran, commit)
                (inl (
                  refl,
                  refl,
                  (status, d, decide_kyc-Decided h p id decision status reason s db db' d ran),
                )))
      ]
    ]
