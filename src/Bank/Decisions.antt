-- ===== src/Bank/Decisions.antt =====
-- bantam/api.py: a risk alert that the bank's staff reviewed, and reviews again.
use bantam_bank.Prelude.{
  ◌≡◌, ◌≢◌, refl, false, any, update, none, some, List, [], ◌∷◌, arith, Option-cases, inl, inr,
}
use bantam_bank.Prelude.Text.{Text}
use bantam_bank.Domain.{Uuid, Time, Principal}
use bantam_bank.Errors.{Result, ok, err}
use bantam_bank.Db.{Db, RiskAlert, AlertStatus}
use bantam_bank.Audit.{AuditFields}
use bantam_bank.Ledger.Posting
use bantam_bank.Ledger.Outcomes.{Result-cases}
use bantam_bank.Bank.Reply.{Http, Stamp, commit, commit_then, http_error}
use bantam_bank.Bank.Rows.{insert_audit-written}
use bantam_bank.Bank.Alerts
use bantam_bank.Bank.Alerts.{is_open_alert}

-- The status that a review gives is not the open one.
review_of-closes :
    (text : Text) (status : AlertStatus)
    → Alerts.review_of text ≡ some status
    → Alerts.is_opened status ≡ false
unfolding Alerts.review_of
review_of-closes text status e = ground arith

closed_after :
    (status : AlertStatus) (user id : Uuid) (alerts : List RiskAlert)
    → Alerts.is_opened status ≡ false
    → any (is_open_alert id) (update (is_open_alert id) (Alerts.reviewed_as status user) alerts)
      ≡ false
closed_after status user id [] closes = refl
closed_after status user id (a ∷ alerts) closes =
    ground (arith, closed_after status user id alerts closes)

move_alert-closes :
    (status : AlertStatus) (user id : Uuid) (db moved : Db)
    → Alerts.is_opened status ≡ false
    → Alerts.move_alert status user id db ≡ ok moved
    → any (is_open_alert id) moved.alerts ≡ false
unfolding Alerts.move_alert
move_alert-closes status user id db moved closes e =
    let alerts : moved.alerts
        ≡ update (is_open_alert id) (Alerts.reviewed_as status user) db.alerts =
      ground arith in
    rw alerts (closed_after status user id db.alerts closes)

commit_then-ok :
    (db : Db) (r : Result Db) (rest : Db → Result Db)
    → (commit_then db r rest).0 ≡ ok tt
    → (middle : Db) × (r ≡ ok middle) × (rest middle ≡ ok (commit_then db r rest).1)
commit_then-ok db (err e) rest fine = absurd (ground arith)
commit_then-ok db (ok middle) rest fine = elim (Result-cases (rest middle)) [
  | inl (db', ran) ↦ (middle, refl, rw (ran, commit) refl)
  | inr (e, failed) ↦ absurd (ground (arith, failed))
]

review_risk_alert-known :
    (h : Http) (p : Principal) (id : Uuid) (status note : Text) (s : Stamp) (db : Db)
    (next : AlertStatus)
    → Alerts.review_of status ≡ some next
    → Alerts.review_risk_alert (ok tt) h p id status note s db
      ≡ commit_then db
          (Alerts.move_alert next p.user_id id db)
          (Posting.insert_audit (Alerts.review_audit h p id status note) s.audit_event_id s.now)
unfolding Alerts.review_risk_alert
review_risk_alert-known h p id status note s db next known =
    rw (known, Alerts.review_risk_alert) refl

review-unknown :
    (h : Http) (p : Principal) (id : Uuid) (status note : Text) (s : Stamp) (db : Db)
    → Alerts.review_of status ≡ none
    → (Alerts.review_risk_alert (ok tt) h p id status note s db).0 ≢ ok tt
unfolding Alerts.review_risk_alert
review-unknown h p id status note s db unknown fine =
    absurd (ground (arith, rw (unknown, Alerts.review_risk_alert) at fine))

commit_then-closes :
    (next : AlertStatus) (user id : Uuid) (db : Db) (f : AuditFields) (event : Uuid) (now : Time)
    → Alerts.is_opened next ≡ false
    → let (result, db') =
        commit_then db (Alerts.move_alert next user id db) (Posting.insert_audit f event now) in
      result ≡ ok tt → any (is_open_alert id) db'.alerts ≡ false
commit_then-closes next user id db f event now closes fine =
    let (moved, changed, wrote) =
      commit_then-ok db (Alerts.move_alert next user id db) (Posting.insert_audit f event now)
        fine in
    rw (insert_audit-written f event now moved _ wrote)
      (move_alert-closes next user id db moved closes changed)

review-closed :
    (h : Http) (p : Principal) (id : Uuid) (status note : Text) (s : Stamp) (db : Db)
    → (Alerts.review_risk_alert (ok tt) h p id status note s db).0 ≡ ok tt
    → any (is_open_alert id) (Alerts.review_risk_alert (ok tt) h p id status note s db).1.alerts
      ≡ false
review-closed h p id status note s db fine = elim (Option-cases (Alerts.review_of status)) [
  | inl unknown ↦ absurd (review-unknown h p id status note s db unknown fine)
  | inr (next, known) ↦
      let same = review_risk_alert-known h p id status note s db next known in
      rw same (
        commit_then-closes next p.user_id id db (Alerts.review_audit h p id status note)
          s.audit_event_id s.now (review_of-closes status next known) (rw same at fine))
]

-- Without an open alert there is nothing to review.
move_alert-refused :
    (next : AlertStatus) (user id : Uuid) (db : Db)
    → any (is_open_alert id) db.alerts ≡ false
    → Alerts.move_alert next user id db ≡ err (http_error "INVALID_ALERT_STATE" 409)
unfolding Alerts.move_alert
move_alert-refused next user id db none_open = rw none_open refl

review-refused :
    (h : Http) (p : Principal) (id : Uuid) (status note : Text) (s : Stamp) (db : Db)
    (next : AlertStatus)
    → Alerts.review_of status ≡ some next
    → any (is_open_alert id) db.alerts ≡ false
    → Alerts.review_risk_alert (ok tt) h p id status note s db
      ≡ (err (http_error "INVALID_ALERT_STATE" 409), db)
review-refused h p id status note s db next known none_open =
    rw (review_risk_alert-known h p id status note s db next known)
      (rw (move_alert-refused next p.user_id id db none_open) refl)

-- After a review that review_risk_alert answers without an error, a further review of the same
-- alert with a valid status, by whom ever, is refused with INVALID_ALERT_STATE and changes
-- nothing.
pub review_risk_alert-once :
    (h h' : Http) (p p' : Principal) (id : Uuid) (status note status' note' : Text) (s s' : Stamp)
    (db : Db) (next : AlertStatus)
    → (Alerts.review_risk_alert (ok tt) h p id status note s db).0 ≡ ok tt
    → Alerts.review_of status' ≡ some next
    → let (_, db') = Alerts.review_risk_alert (ok tt) h p id status note s db in
      Alerts.review_risk_alert (ok tt) h' p' id status' note' s' db'
      ≡ (err (http_error "INVALID_ALERT_STATE" 409), db')
review_risk_alert-once h h' p p' id status note status' note' s s' db next fine known =
    review-refused h' p' id status' note' s' _ next known
      (review-closed h p id status note s db fine)
