-- ===== src/Workers/Tests.antt =====
-- A transfer of 300 pounds, delivered twice over a threshold of 200.
use bantam_bank.Prelude.{
  ◌⊎◌, ℕ, ◌+◌, ◌≤◌, ◌≡◌, refl, pos, negsuc, leb_ℤ, true, any, count, map, none, some, List, [], ◌∷◌,
  arith,
}
use bantam_bank.Prelude.Text.{Text, codes, upper}
use bantam_bank.Prelude.Decimal.{dec}
use bantam_bank.Domain.{TransactionType}
use bantam_bank.Errors.{Error, ok, err}
use bantam_bank.Audit
use bantam_bank.Db.{Db, Notification, Transaction, TransactionStatus, TransferPayload}
use bantam_bank.Ledger.Posting
use bantam_bank.Workers
use bantam_bank.Workers.{AlertDraws, is_alert, alert_row, flagged_event, alert_audit, insert_alert}
use bantam_bank.Workers.Notifications.{Delivery, Batch, process_batch, format_minor}
use bantam_bank.Ledger.Tests.{bank}
use bantam_bank.Workers.Redelivery.{create_risk_alert_once}

abbrev stored_transfer : Transaction
stored_transfer = record {
  transaction_id = 300;
  idempotency_key = codes "k";
  request_id = 1;
  initiated_by_user_id = 11;
  source_account_id = 1;
  destination_account_id = 2;
  amount_minor = pos 30000;
  currency = codes "GBP";
  description = [];
  transaction_type = TransactionType.transfer;
  reverses_transaction_id = none;
  status = TransactionStatus.posted;
  created_at = 0;
  posted_at = some 0;
}

abbrev store : Db
store = record {
  customers = [];
  accounts = [];
  balances = [];
  transactions = stored_transfer ∷ [];
  entries = [];
  challenges = [];
  outbox = [];
  audit = [];
  alerts = [];
  notifications = [];
}

abbrev payload : TransferPayload
payload = record {
  transaction_id = 300;
  source_account_id = 1;
  destination_account_id = 2;
  amount_minor = pos 30000;
  currency = codes "GBP";
  transaction_type = TransactionType.transfer;
  initiated_by_user_id = 11;
}

abbrev draws : ℕ → AlertDraws
draws n = record {
  alert_id = n;
  outbox_event_id = n + 1;
  request_id = n + 2;
  audit_event_id = n + 3;
  started_at = 5;
}

abbrev alerted : Db
alerted = record store {
  alerts = alert_row (pos 20000) payload (draws 40) store ∷ [];
  outbox = flagged_event payload (draws 40) ∷ [];
  audit = Audit.audit_row (alert_audit payload (draws 40)) 43 43 5 ∷ [];
}

first_delivery : Workers.create_risk_alert (pos 20000) payload (draws 40) store ≡ ok alerted
unfolding Workers.create_risk_alert Posting.insert_outbox Posting.insert_audit Audit.audit_row
first_delivery = refl

create_risk_alert_once_example :
    (count (is_alert 300) alerted.alerts ≤ 1)
    × ((leb_ℤ (pos 30000) (pos 20000) ≡ true) ⊎ (any (is_alert 300) alerted.alerts ≡ true))
    × (Workers.create_risk_alert (pos 20000) payload (draws 50) alerted ≡ ok alerted)
create_risk_alert_once_example =
    create_risk_alert_once (pos 20000) payload (draws 40) (draws 50) store alerted 300
      first_delivery (omega arith)

abbrev delivery : ℕ → Delivery
delivery n = record {
  ack_id = codes "a";
  decoded = ok (700, payload);
  draw = λ account_id. n + account_id;
}

abbrev broken : Delivery
broken = record { ack_id = codes "b"; decoded = err Error.type_error; draw = λ account_id. 0 }

-- A message that does not decode, then one that is delivered twice.
abbrev messages : List Delivery
messages = broken ∷ delivery 800 ∷ delivery 900 ∷ []

abbrev batch : Batch
batch = process_batch (λ ack_id. true) messages bank

abbrev bodies : Db → List Text
bodies db = map (λ (n : Notification). n.body) db.notifications

batch_bodies :
    bodies batch.1
    ≡ codes "You received GBP 300.00 in a fake-money Bantam transfer."
      ∷ codes "You sent GBP 300.00 in a fake-money Bantam transfer."
      ∷ []
unfolding process_batch format_minor upper dec
batch_bodies = refl

-- Thousands are set off by commas, and a negative amount has its sign in front.
large_amount : format_minor (pos 123456789) (codes "gbp") ≡ codes "GBP 1,234,567.89"
unfolding format_minor upper dec
large_amount = refl

small_amount : format_minor (negsuc 4) (codes "GBP") ≡ codes "GBP -0.05"
unfolding format_minor upper dec
small_amount = refl
