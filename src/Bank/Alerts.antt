-- ===== src/Bank/Alerts.antt =====
-- bantam/api.py: `create_manual_risk_alert` and `review_risk_alert`.
use bantam_bank.Prelude.{
  Bool, true, false, not, ◌&&◌, ◌||◌, ◌==◌, any, find?, update, length, Option, none, some, [], ◌∷◌,
  if◌then◌else◌,
}
use bantam_bank.Prelude.Text.{Text, ◌==ₜ◌, codes, strip, upper}
use bantam_bank.Domain.{Uuid, Principal}
use bantam_bank.Errors.{BantamError, bantam, Result, ok, err, ◌>>=◌, ◌>>◌, raise_if, or_raise}
use bantam_bank.Db.{
  Db, RiskAlert, AlertRule, AlertStatus, Severity, Explanation, Resource, MetaValue,
}
use bantam_bank.Audit.{AuditFields}
use bantam_bank.Ledger.Checks.{is_account, is_transaction}
use bantam_bank.Ledger.Posting.{insert_audit}
use bantam_bank.Workers.{coalesce}
use bantam_bank.Bank.Reply.{Http, Stamp, Reply, request_audit, commit_then, guarded, http_error}

unfoldable pub severity_of : Text → Option Severity
severity_of text =
    let word = upper (strip text) in
    if word ==ₜ codes "LOW"
    then some Severity.low
    else if word ==ₜ codes "MEDIUM"
    then some Severity.medium
    else if word ==ₜ codes "HIGH"
    then some Severity.high
    else if word ==ₜ codes "CRITICAL"
    then some Severity.critical
    else none

abbrev pub is_manual : AlertRule → Bool
is_manual AlertRule.manual_review = true
is_manual _ = false

abbrev pub is_manual_alert : Uuid → RiskAlert → Bool
is_manual_alert id a = (a.transaction_id == id) && is_manual a.rule_id

-- The customer of a stored transaction whose two accounts are stored.
unfoldable pub customer_of_transaction : Uuid → Db → Result (Option Uuid)
customer_of_transaction id db = do
  t ← or_raise (find? (is_transaction id) db.transactions) (http_error "NOT_FOUND" 404)
  source ←
      or_raise (find? (is_account t.source_account_id) db.accounts) (http_error "NOT_FOUND" 404)
  destination ←
      or_raise (find? (is_account t.destination_account_id) db.accounts)
        (http_error "NOT_FOUND" 404)
  ok (coalesce source.customer_id destination.customer_id)

-- The INSERT, whose unique violation is `ALERT_EXISTS`.
unfoldable pub insert_manual_alert :
    Stamp → Uuid → Option Uuid → Severity → (explanation : Text) → Db → Result Db
insert_manual_alert s id customer severity explanation db = do
  raise_if
      (any (is_manual_alert id) db.alerts
        || any (λ (a : RiskAlert). a.risk_alert_id == s.new_id) db.alerts)
      (http_error "ALERT_EXISTS" 409)
  ok (record db {
    alerts =
        record {
          risk_alert_id = s.new_id;
          transaction_id = id;
          customer_id = customer;
          rule_id = AlertRule.manual_review;
          severity = severity;
          explanation = Explanation.written explanation;
          status = AlertStatus.opened;
          reviewed_by = none;
        }
        ∷ db.alerts;
  })

-- The tests and the INSERT of `create_manual_risk_alert`.
unfoldable pub store_manual_alert : Stamp → Uuid → (severity explanation : Text) → Db → Result Db
unfolding customer_of_transaction insert_manual_alert severity_of
store_manual_alert s id severity explanation db = do
  level ← or_raise (severity_of severity) (http_error "INVALID_SEVERITY" 422)
  let text = strip explanation
  raise_if (length text == 0) (bantam (BantamError.validation "explanation is required"))
  customer ← customer_of_transaction id db
  insert_manual_alert s id customer level text db

-- `create_manual_risk_alert`: the alert is committed before the audit row is written.
unfoldable pub create_manual_risk_alert :
    (scope : Result (Unit {0}))
    → Http
    → Principal
    → (transaction_id : Uuid) → (severity explanation : Text) → Stamp
    → Db
    → Reply
unfolding store_manual_alert
create_manual_risk_alert scope http principal id severity explanation s db = guarded scope db (
    commit_then db (store_manual_alert s id severity explanation db) (
      insert_audit
        (request_audit http principal.user_id "RISK_ALERT_CREATED" "risk_alert"
          (Resource.row s.new_id)
          (("transaction_id", MetaValue.id id)
            ∷ ("severity", MetaValue.string (upper (strip severity)))
            ∷ []))
        s.audit_event_id s.now))

unfoldable pub review_of : Text → Option AlertStatus
review_of text =
    let word = upper (strip text) in
    if word ==ₜ codes "REVIEWED"
    then some AlertStatus.reviewed
    else if word ==ₜ codes "DISMISSED"
    then some AlertStatus.dismissed
    else none

abbrev pub is_opened : AlertStatus → Bool
is_opened AlertStatus.opened = true
is_opened _ = false

abbrev pub is_open_alert : Uuid → RiskAlert → Bool
is_open_alert id a = (a.risk_alert_id == id) && is_opened a.status

abbrev pub reviewed_as : AlertStatus → Uuid → RiskAlert → RiskAlert
reviewed_as status user a = record a { status = status; reviewed_by = some user }

unfoldable pub move_alert : AlertStatus → (user : Uuid) → Uuid → Db → Result Db
move_alert status user id db = do
  raise_if (not (any (is_open_alert id) db.alerts)) (http_error "INVALID_ALERT_STATE" 409)
  ok (record db { alerts = update (is_open_alert id) (reviewed_as status user) db.alerts })

abbrev pub review_audit : Http → Principal → Uuid → (status note : Text) → AuditFields
review_audit http principal id status note =
    request_audit http principal.user_id "RISK_ALERT_REVIEWED" "risk_alert" (Resource.row id)
      (("status", MetaValue.string (upper (strip status))) ∷ ("note", MetaValue.string note) ∷ [])

-- `review_risk_alert`: the update is committed before the audit row is written.
unfoldable pub review_risk_alert :
    (scope : Result (Unit {0}))
    → Http
    → Principal
    → (alert_id : Uuid) → (status note : Text) → Stamp
    → Db
    → Reply
unfolding review_of move_alert
review_risk_alert scope http principal id status note s db =
    guarded scope db (elim (review_of status) [
      | none ↦ (err (http_error "INVALID_STATUS" 422), db)
      | some next ↦
          commit_then db (move_alert next principal.user_id id db)
            (insert_audit (review_audit http principal id status note) s.audit_event_id s.now)
    ])
