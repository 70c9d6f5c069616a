-- ===== src/Bank/Turns.antt =====
-- What one request does to the books: nothing, a new account, or one call of the ledger.
use bantam_bank.Prelude.{ℕ, ℤ, ◌≡◌, Option-cases, inl, inr}
use bantam_bank.Prelude.Text.{Text}
use bantam_bank.Domain.{Uuid, Time, Principal, TransferCommand, KycStatus}
use bantam_bank.Errors.{Error, bantam, Result, ok, err}
use bantam_bank.Db.{Db}
use bantam_bank.Sca
use bantam_bank.Sca.{ScaService}
use bantam_bank.Ledger.Checks.{Draws}
use bantam_bank.Ledger.Posting
use bantam_bank.Ledger.Transfer
use bantam_bank.Ledger.Written.{>>=-eq-ok}
use bantam_bank.Ledger.Outcomes.{Result-cases}
use bantam_bank.Bank.Reply.{Http, Stamp}
use bantam_bank.Bank.Customers
use bantam_bank.Bank.Customers.{new_account, new_balance}
use bantam_bank.Bank.Accounts
use bantam_bank.Bank.Payments
use bantam_bank.Bank.Payments.{Others, TransferInput, Answer}
use bantam_bank.Bank.Alerts
use bantam_bank.Bank.Server
use bantam_bank.Bank.Server.{Request}
use bantam_bank.Bank.Frame

pub data Turn (sca : ScaService) (db db' : Db) : Type 0 where
  kept : Frame.SameBooks db db' → Turn sca db db'
  opened :
      (id owner : Uuid) (currency : Text) (now : Time) (middle : Db)
      → Customers.insert_account (new_account id owner currency) (new_balance id now) db ≡ ok middle
      → Frame.SameBooks middle db'
      → Turn sca db db'
  called :
      (d : Draws) (c : TransferCommand) (before after : Db)
      → Frame.SameBooks (Transfer.create_transfer sca d c before db after).1 db'
      → Turn sca db db'

submit_kyc-same :
    (h : Http) (p : Principal) (s : Stamp) (db : Db)
    → Frame.SameBooks db (Customers.submit_kyc h p s db).1
unfolding Customers.submit_kyc
submit_kyc-same h p s db = elim (Option-cases p.customer_id) [
  | inl missing ↦ rw missing (Frame.same db)
  | inr (id, here) ↦ rw here (
      Frame.commit_then-same db
        (Customers.move_kyc Customers.may_submit KycStatus.pending_review id db) _
        (Frame.move_kyc-Keeps _ _ id db) (λ m. Frame.insert_audit-Keeps _ _ _ m))
]

admin_decide_kyc-same :
    (scope : Result (Unit {0})) (h : Http) (p : Principal) (id : Uuid) (decision reason : Text)
    (s : Stamp) (db : Db)
    → Frame.SameBooks db (Customers.admin_decide_kyc scope h p id decision reason s db).1
unfolding Customers.admin_decide_kyc
admin_decide_kyc-same scope h p id decision reason s db =
    Frame.guarded-same scope db _ (elim (Option-cases (Customers.kyc_decision decision)) [
      | inl unknown ↦ rw unknown (Frame.same db)
      | inr (status, known) ↦
          rw known (Frame.commit-same db _ (Frame.decide_kyc-Keeps h p id status reason s db))
    ])

set_account_status-same :
    (scope : Result (Unit {0})) (h : Http) (p : Principal) (id : Uuid) (status reason : Text)
    (s : Stamp) (db : Db)
    → Frame.SameBooks db (Accounts.operator_set_account_status scope h p id status reason s db).1
unfolding Accounts.operator_set_account_status
set_account_status-same scope h p id status reason s db =
    Frame.guarded-same scope db _ (elim (Option-cases (Accounts.status_of status)) [
      | inl unknown ↦ rw unknown (Frame.same db)
      | inr (next, known) ↦
          rw known (Frame.commit-same db _ (Frame.set_status-Keeps h p id next reason s db))
    ])

create_manual_risk_alert-same :
    (scope : Result (Unit {0})) (h : Http) (p : Principal) (id : Uuid) (severity explanation : Text)
    (s : Stamp) (db : Db)
    → Frame.SameBooks db (Alerts.create_manual_risk_alert scope h p id severity explanation s db).1
unfolding Alerts.create_manual_risk_alert
create_manual_risk_alert-same scope h p id severity explanation s db =
    Frame.guarded-same scope db _ (
      Frame.commit_then-same db (Alerts.store_manual_alert s id severity explanation db) _
        (Frame.store_manual_alert-Keeps s id severity explanation db)
        (λ m. Frame.insert_audit-Keeps _ _ _ m))

review_risk_alert-same :
    (scope : Result (Unit {0})) (h : Http) (p : Principal) (id : Uuid) (status note : Text)
    (s : Stamp) (db : Db)
    → Frame.SameBooks db (Alerts.review_risk_alert scope h p id status note s db).1
unfolding Alerts.review_risk_alert
review_risk_alert-same scope h p id status note s db =
    Frame.guarded-same scope db _ (elim (Option-cases (Alerts.review_of status)) [
      | inl unknown ↦ rw unknown (Frame.same db)
      | inr (next, known) ↦ rw known (
          Frame.commit_then-same db (Alerts.move_alert next p.user_id id db) _
            (Frame.move_alert-Keeps next p.user_id id db) (λ m. Frame.insert_audit-Keeps _ _ _ m))
    ])

run_reconciliation-same :
    (scope : Result (Unit {0})) (h : Http) (p : Principal) (s : Stamp) (db : Db)
    → Frame.SameBooks db (Payments.run_reconciliation scope h p s db).1
unfolding Payments.run_reconciliation
run_reconciliation-same (err e) h p s db = Frame.same db
run_reconciliation-same (ok _) h p s db = elim (Result-cases (Transfer.reconcile db)) [
  | inr (e, failed) ↦ rw (failed, Payments.run_reconciliation) (Frame.same db)
  | inl (rows, read) ↦
      elim (Result-cases (
        Posting.insert_audit (Payments.reconciliation_audit h p (Payments.summary rows))
          s.audit_event_id s.now db)) [
            | inl (noted, wrote) ↦
                rw (read, wrote, Payments.run_reconciliation)
                  (Frame.insert_audit-Keeps _ _ _ db noted wrote)
            | inr (e, failed) ↦ rw (read, failed, Payments.run_reconciliation) (Frame.same db)
          ]
]

create_sca_challenge-same :
    (sca : ScaService) (limit : Result (Unit {0})) (h : Http) (p : Principal)
    (source destination : Uuid) (amount : ℤ) (id draw : ℕ) (s : Stamp) (db : Db)
    → Frame.SameBooks db
        (Payments.create_sca_challenge sca limit h p source destination amount id draw s db).1
unfolding Payments.create_sca_challenge
create_sca_challenge-same sca (err e) h p source destination amount id draw s db = Frame.same db
create_sca_challenge-same sca (ok _) h p source destination amount id draw s db =
    elim (Result-cases (Sca.create sca id draw s.now p source destination amount db)) [
      | inr (e, failed) ↦ rw (failed, Payments.create_sca_challenge) (Frame.same db)
      | inl ((issued, created), made) ↦
          let one =
            Frame.challenge-Keeps sca id draw s.now p source destination amount db created issued
              made in
          rw (made, Payments.create_sca_challenge)
            (elim (Result-cases (
              Posting.insert_audit (Payments.challenge_audit h p source destination amount issued)
                s.audit_event_id s.now created)) [
                  | inl (noted, wrote) ↦
                      rw (wrote, Payments.create_sca_challenge)
                        (Frame.then_same one (Frame.insert_audit-Keeps _ _ _ created noted wrote))
                  | inr (e, failed) ↦ rw (failed, Payments.create_sca_challenge) one
                ])
    ]

note_failure-same :
    (h : Http) (p : Principal) (input : TransferInput) (s : Stamp) (answer : Answer)
    → Frame.SameBooks answer.1 (Payments.note_failure h p input s answer).1
note_failure-same h p input s (ok a, db) = Frame.same db
note_failure-same h p input s (err (bantam e), db) =
    elim (Result-cases
      (Posting.insert_audit (Payments.failure_audit h p input e) s.audit_event_id s.now db)) [
        | inl (noted, wrote) ↦
            rw (wrote, Payments.note_failure) (Frame.insert_audit-Keeps _ _ _ db noted wrote)
        | inr (other, failed) ↦ rw (failed, Payments.note_failure) (Frame.same db)
      ]
note_failure-same h p input s (err Error.unique_violation, db) = Frame.same db
note_failure-same h p input s (err Error.runtime_error, db) = Frame.same db
note_failure-same h p input s (err Error.type_error, db) = Frame.same db
note_failure-same h p input s (err Error.check_violation, db) = Frame.same db
note_failure-same h p input s (err Error.foreign_key_violation, db) = Frame.same db
note_failure-same h p input s (err Error.raise_exception, db) = Frame.same db
note_failure-same h p input s (err Error.out_of_range, db) = Frame.same db

create_transfer-Turn :
    (sca : ScaService) (h : Http) (p : Principal) (key : Result Text) (limit : Result (Unit {0}))
    (input : TransferInput) (d : Draws) (s : Stamp) (o : Others) (db : Db)
    → Turn sca db (Payments.create_transfer sca h p key limit input d s o db).1
unfolding Payments.create_transfer
create_transfer-Turn sca h p key limit input d s o db =
    elim (Result-cases (Payments.transfer_key sca key limit input)) [
      | inr (e, refused) ↦ rw (refused, Payments.create_transfer) (kept (Frame.same db))
      | inl (text, passed) ↦
          rw (passed, Payments.create_transfer)
            (called d (Payments.transfer_command h p text input) o.before o.after
              (note_failure-same h p input s _))
    ]

admin_demo_deposit-Turn :
    (sca : ScaService) (scope : Result (Unit {0})) (h : Http) (p : Principal) (key : Result Text)
    (id : Uuid) (amount : ℤ) (currency description : Text) (d : Draws) (o : Others) (db : Db)
    → Turn sca db
        (Payments.admin_demo_deposit sca scope h p key id amount currency description d o db).1
unfolding Payments.admin_demo_deposit
admin_demo_deposit-Turn sca scope h p key id amount currency description d o db =
    elim (Result-cases (Payments.deposit_source scope key db)) [
      | inr (e, refused) ↦ rw (refused, Payments.admin_demo_deposit) (kept (Frame.same db))
      | inl ((text, treasury), passed) ↦
          rw (passed, Payments.admin_demo_deposit) (called d _ o.before o.after (Frame.same _))
    ]

admin_reverse_transaction-Turn :
    (sca : ScaService) (scope : Result (Unit {0})) (h : Http) (p : Principal) (key : Result Text)
    (id : Uuid) (reason : Text) (d : Draws) (o : Others) (db : Db)
    → Turn sca db (Payments.admin_reverse_transaction sca scope h p key id reason d o db).1
unfolding Payments.admin_reverse_transaction
admin_reverse_transaction-Turn sca scope h p key id reason d o db =
    elim (Result-cases (Payments.reversible scope key id o.before)) [
      | inr (e, refused) ↦ rw (refused, Payments.admin_reverse_transaction) (kept (Frame.same db))
      | inl ((text, t), passed) ↦
          rw (passed, Payments.admin_reverse_transaction)
            (called d _ o.before o.after (Frame.same _))
    ]

store_account-Turn :
    (sca : ScaService) (h : Http) (p : Principal) (owner : Uuid) (word : Text) (s : Stamp)
    (db db' : Db)
    → Customers.store_account h p owner word s db ≡ ok db'
    → Turn sca db db'
unfolding Customers.store_account
store_account-Turn sca h p owner word s db db' e =
    let (middle, wrote, rest) = >>=-eq-ok _ _ e in
    opened s.new_id owner word s.now middle wrote (
      Frame.bind-Keeps middle _ _ (Frame.insert_outbox-Keeps _ middle)
        (λ stored. Frame.insert_audit-Keeps _ _ _ stored) db' rest)

opening-Turn :
    (sca : ScaService) (h : Http) (p : Principal) (currency : Text) (s : Stamp) (db db' : Db)
    → Customers.opening h p currency s db ≡ ok db'
    → Turn sca db db'
unfolding Customers.opening
opening-Turn sca h p currency s db db' e =
    let ((owner, word), _, rest) =
      >>=-eq-ok (Customers.may_open p currency db)
        (λ allowed. Customers.store_account h p allowed.0 allowed.1 s db) e in
    store_account-Turn sca h p owner word s db db' rest

open_account-Turn :
    (sca : ScaService) (h : Http) (p : Principal) (currency : Text) (s : Stamp) (db : Db)
    → Turn sca db (Customers.open_account h p currency s db).1
unfolding Customers.open_account
open_account-Turn sca h p currency s db =
    elim (Result-cases (Customers.opening h p currency s db)) [
      | inr (e, refused) ↦ rw (refused, Customers.open_account) (kept (Frame.same db))
      | inl (db', ran) ↦
          rw (ran, Customers.open_account) (opening-Turn sca h p currency s db db' ran)
    ]

-- Each request is one such turn.
pub serve-Turn : (sca : ScaService) (r : Request) (db : Db) → Turn sca db (Server.serve sca r db)
unfolding Server.serve
serve-Turn sca (Request.submit_kyc h p s) db = kept (submit_kyc-same h p s db)
serve-Turn sca (Request.decide_kyc scope h p id decision reason s) db =
    kept (admin_decide_kyc-same scope h p id decision reason s db)
serve-Turn sca (Request.open_account h p currency s) db = open_account-Turn sca h p currency s db
serve-Turn sca (Request.set_status scope h p id status reason s) db =
    kept (set_account_status-same scope h p id status reason s db)
serve-Turn sca (Request.challenge limit h p source destination amount id draw s) db =
    kept (create_sca_challenge-same sca limit h p source destination amount id draw s db)
serve-Turn sca (Request.transfer h p key limit input d s o) db =
    create_transfer-Turn sca h p key limit input d s o db
serve-Turn sca (Request.deposit scope h p key id amount currency description d o) db =
    admin_demo_deposit-Turn sca scope h p key id amount currency description d o db
serve-Turn sca (Request.reverse scope h p key id reason d o) db =
    admin_reverse_transaction-Turn sca scope h p key id reason d o db
serve-Turn sca (Request.reconcile scope h p s) db = kept (run_reconciliation-same scope h p s db)
serve-Turn sca (Request.raise_alert scope h p id severity explanation s) db =
    kept (create_manual_risk_alert-same scope h p id severity explanation s db)
serve-Turn sca (Request.review_alert scope h p id status note s) db =
    kept (review_risk_alert-same scope h p id status note s db)
