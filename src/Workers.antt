-- ===== src/Workers.antt =====
-- bantam/workers.py: `create_risk_alert`, which the risk worker runs for every posted transfer that
-- is delivered to it, once or more often.
use bantam_bank.Prelude.{
  ℕ, ℤ, leb_ℤ, Bool, true, false, not, ◌&&◌, ◌||◌, ◌==◌, any, find?, Option, none, some, List, [],
  ◌∷◌, if◌then◌else◌,
}
use bantam_bank.Domain.{Uuid, Time}
use bantam_bank.Errors.{Error, Result, Outcome, ok, err, ◌>>=◌, ◌>>◌, raise_if}
use bantam_bank.Db.{
  Resource, AlertRule, Severity, Explanation, AlertStatus, Db, Account, RiskAlert, OutboxRow,
  OutboxStatus, Payload, TransferPayload, Actor, MetaValue,
}
use bantam_bank.Audit.{AuditFields}
use bantam_bank.Ledger.Checks.{is_account, is_transaction}
use bantam_bank.Ledger.Posting.{insert_outbox, insert_audit}
pub mod Notifications
pub mod Notified
pub mod Batches
pub mod Redelivery
pub mod Tests

-- The draws of `uuid4`, and the time at which the database transaction began.
pub record AlertDraws : Type 0 where
  pub alert_id : Uuid
  pub outbox_event_id : Uuid
  pub request_id : Uuid
  pub audit_event_id : Uuid
  pub started_at : Time

abbrev pub coalesce : Option Uuid → Option Uuid → Option Uuid
coalesce (some a) other = some a
coalesce none other = other

-- The customer of the source, or else of the destination, where both accounts are stored.
unfoldable pub customer_of : TransferPayload → Db → Option Uuid
customer_of p db = elim (find? (is_account p.source_account_id) db.accounts) [
  | none ↦ none
  | some source ↦ elim (find? (is_account p.destination_account_id) db.accounts) [
    | none ↦ none
    | some destination ↦ coalesce source.customer_id destination.customer_id
  ]
]

abbrev is_high_value : AlertRule → Bool
is_high_value AlertRule.high_value_transfer = true
is_high_value _ = false

-- The row of `(transaction_id, rule_id)` for the rule of this worker.
abbrev pub is_alert : Uuid → RiskAlert → Bool
is_alert id a = (a.transaction_id == id) && is_high_value a.rule_id

abbrev pub alert_row : ℤ → TransferPayload → AlertDraws → Db → RiskAlert
alert_row threshold p d db = record {
  risk_alert_id = d.alert_id;
  transaction_id = p.transaction_id;
  customer_id = customer_of p db;
  rule_id = AlertRule.high_value_transfer;
  severity = Severity.high;
  explanation = Explanation.exceeded p.amount_minor threshold p.currency;
  status = AlertStatus.opened;
  reviewed_by = none;
}

abbrev pub flagged_event : TransferPayload → AlertDraws → OutboxRow
flagged_event p d = record {
  outbox_event_id = d.outbox_event_id;
  aggregate_type = "risk_alert";
  aggregate_id = d.alert_id;
  event_type = "risk.transaction_flagged.v1";
  event_version = 1;
  payload =
      Payload.risk_flagged d.alert_id p.transaction_id AlertRule.high_value_transfer Severity.high;
  status = OutboxStatus.pending;
  publish_attempts = 0;
  last_error = none;
  claimed_at = none;
  created_at = d.started_at;
  published_at = none;
}

abbrev pub alert_audit : TransferPayload → AlertDraws → AuditFields
alert_audit p d = record {
  actor_type = "SERVICE";
  actor_id = Actor.service "risk-worker";
  action = "RISK_ALERT_CREATED";
  resource_type = "risk_alert";
  resource_id = Resource.row d.alert_id;
  request_id = some d.request_id;
  correlation_id = some p.transaction_id;
  ip_address = none;
  user_agent = none;
  metadata =
      ("rule_id", MetaValue.literal "HIGH_VALUE_TRANSFER")
      ∷ ("amount_minor", MetaValue.number p.amount_minor)
      ∷ [];
}

-- The writes where no alert of the transaction is stored.
unfoldable pub insert_alert : ℤ → TransferPayload → AlertDraws → Db → Result Db
insert_alert threshold p d db = do
  raise_if (any (λ (a : RiskAlert). a.risk_alert_id == d.alert_id) db.alerts) Error.unique_violation
  raise_if (not (any (is_transaction p.transaction_id) db.transactions)) Error.foreign_key_violation
  a ←
      insert_outbox (flagged_event p d)
        (record db { alerts = alert_row threshold p d db ∷ db.alerts })
  insert_audit (alert_audit p d) d.audit_event_id d.started_at a

-- `create_risk_alert`; the tables that an error leaves are those before.
unfoldable pub create_risk_alert : ℤ → TransferPayload → AlertDraws → Db → Result Db
unfolding insert_alert
create_risk_alert threshold p d db =
    if leb_ℤ p.amount_minor threshold || any (is_alert p.transaction_id) db.alerts
    then ok db
    else insert_alert threshold p d db
