-- ===== src/Outbox/Tests.antt =====
-- A batch over two events, of which one has been published.
use bantam_bank.Prelude.{
  ℕ, ◌≤◌, ◌<◌, ◌≡◌, refl, false, All, none, some, inl, inr, List, [], ◌∷◌, arith,
}
use bantam_bank.Errors.{ok}
use bantam_bank.Prelude.Text.{codes}
use bantam_bank.Db.{OutboxRow, OutboxStatus, Payload, AlertRule, Severity}
use bantam_bank.Outbox
use bantam_bank.Outbox.{is_pending, Turn}
use bantam_bank.Outbox.Liveness.{run_publishes}
use bantam_bank.Outbox.Publishing.{IsPublished, publish_batch-IsPublished, publish_batch_drains}

abbrev event : ℕ → OutboxStatus → OutboxRow
event id status = record {
  outbox_event_id = id;
  aggregate_type = "risk_alert";
  aggregate_id = 9;
  event_type = "risk.transaction_flagged.v1";
  event_version = 1;
  payload = Payload.risk_flagged 9 8 AlertRule.high_value_transfer Severity.high;
  status = status;
  publish_attempts = 0;
  last_error = none;
  claimed_at = none;
  created_at = id;
  published_at = none;
}

abbrev events : List OutboxRow
events = event 1 OutboxStatus.published ∷ event 2 OutboxStatus.pending ∷ []

abbrev sent : List OutboxRow
sent = (Outbox.publish_batch (λ o. none) 900 events).1

batch_returns : Outbox.publish_batch (λ o. none) 900 events ≡ (ok 1, sent)
unfolding Outbox.publish_batch Outbox.publish_loop Outbox.claim Outbox.mark_published Outbox.oldest
    Outbox.recover_expired_claims
batch_returns = refl

publish_batch-IsPublished_example : IsPublished 1 sent
publish_batch-IsPublished_example =
    publish_batch-IsPublished (λ o. none) 900 events 1 (ground arith)

publish_batch_drains_example : (1 ≤ 50) × (1 < 50 → All (λ o. is_pending o.status ≡ false) sent)
publish_batch_drains_example = publish_batch_drains (λ o. none) 900 events sent 1 batch_returns

-- The backend is away, and then accepts.
abbrev refusing : Turn
refusing = record { send = λ o. some (codes "no connection"); now = 900 }

abbrev accepting : Turn
accepting = record { send = λ o. none; now = 60000002 }

abbrev left_over : OutboxRow
left_over = record (event 3 OutboxStatus.publishing) { claimed_at = some 1 }

run_publishes_example :
    All
      (λ o. o.status ≡ OutboxStatus.published)
      (Outbox.run (refusing ∷ accepting ∷ []) (left_over ∷ events))
run_publishes_example =
    run_publishes 1 (refusing ∷ []) (accepting ∷ []) (left_over ∷ events)
      (inr (1, refl, omega arith), (inl refl, (inl refl, tt)))
      (record { accepts = λ o. refl; late = omega arith }, tt) (omega arith)
