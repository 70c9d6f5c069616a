-- ===== src/Bank/Tests.antt =====
-- A day at the small bank: a new account, a payment, a frozen account, decisions of the staff.
use bantam_bank.Prelude.{ℕ, ◌≡◌, ◌⊎◌, refl, pos, negsuc, none, some, List, [], ◌∷◌, false, map}
use bantam_bank.Prelude.Int.{◌+ℤ◌, ◌-ℤ◌}
use bantam_bank.Prelude.Text.{codes, strip, upper}
use bantam_bank.Prelude.Decimal.{int_text}
use bantam_bank.Prelude.UuidText.{uuid_text}
use bantam_bank.Domain.{KycStatus, AccountStatus, CustomerStatus, AccountType}
use bantam_bank.Errors.{Error, Result, ok, err}
use bantam_bank.Db.{Db, Account, AlertStatus, AlertRule, Severity, Explanation}
use bantam_bank.Money.{balanced}
use bantam_bank.Audit.{audit_row}
use bantam_bank.Sca
use bantam_bank.Ledger.Checks
use bantam_bank.Ledger.Posting
use bantam_bank.Ledger.Transfer
use bantam_bank.Ledger.Transfer.{authoritative}
use bantam_bank.Ledger.Keys.{total}
use bantam_bank.Ledger.Reversal.{figures}
use bantam_bank.Ledger.Tests.{
  sca, alice, admin, bank, draws, bank-IsSound, bank-IsReconciled, bank-IsBalanced,
}
use bantam_bank.Bank.Reply.{Http, Stamp, http_error}
use bantam_bank.Bank.Customers
use bantam_bank.Bank.Accounts
use bantam_bank.Bank.Payments
use bantam_bank.Bank.Payments.{TransferInput, Others}
use bantam_bank.Bank.Alerts
use bantam_bank.Bank.Server
use bantam_bank.Bank.Server.{Request}
use bantam_bank.Bank.Orderly.{IsOrderly, run-IsOrderly}
use bantam_bank.Bank.Book.{Steps, book, run-Steps}
use bantam_bank.Bank.Freeze.{serve-frozen}
use bantam_bank.Bank.Decided.{IsDecision, Decided, IsRefused}
use bantam_bank.Bank.Kyc.{admin_decide_kyc-Decided}
use bantam_bank.Bank.Decisions.{review_risk_alert-once}

abbrev http : Http
http = record { request_id = 60; ip_address = codes "203.0.113.9"; user_agent = codes "curl" }

abbrev stamp : ℕ → Stamp
stamp n = record { new_id = n; outbox_event_id = n; audit_event_id = n; now = 905 }

abbrev rent : TransferInput
rent = record {
  source_account_id = 1;
  destination_account_id = 2;
  amount_minor = pos 30000;
  currency = codes "GBP";
  description = codes "Rent";
  sca_challenge_id = some 40;
  sca_code = codes "123456";
}

abbrev alone : Others
alone = record { before = bank; after = bank }

abbrev pay_rent : Request
pay_rent =
    Request.transfer http alice (ok (codes "rent-may")) (ok tt) rent (draws 300) (stamp 320) alone

abbrev freeze : Request
freeze = Request.set_status (ok tt) http admin 1 (codes "frozen") (codes "lost card") (stamp 331)

abbrev day : List Request
day = Request.open_account http alice (codes "gbp") (stamp 330) ∷ pay_rent ∷ freeze ∷ []

-- What is left of the day: a new account of nothing, and the rent paid.
day-figures :
    map figures (Server.run sca day bank).balances
    ≡ (330, pos 0, pos 0)
      ∷ (1, pos 20000, pos 20000)
      ∷ (2, pos 30000, pos 30000)
      ∷ (9, negsuc 49999, negsuc 49999)
      ∷ []
unfolding Server.run Server.serve Customers.open_account Customers.opening Customers.may_open
    Customers.store_account Customers.insert_account Payments.create_transfer Payments.transfer_key
    Accounts.operator_set_account_status Accounts.set_status Transfer.create_transfer
    Transfer.execute Checks.normalise Checks.find_by_idempotency Checks.lock_accounts
    Checks.authorise Checks.validate_reversal Posting.post Posting.insert_outbox
    Posting.insert_audit Sca.validate_and_consume Sca.consume_challenge Sca.required Sca.hash
    Sca.is_code Sca.is_usable strip upper uuid_text int_text balanced audit_row ◌+ℤ◌ ◌-ℤ◌
    Customers.reference_of
day-figures = refl

bank-IsOrderly : IsOrderly bank
bank-IsOrderly = record {
  sound = bank-IsSound;
  reconciled = bank-IsReconciled;
  balanced = bank-IsBalanced;
  held = (refl, (refl, tt));
}

run-IsOrderly_example :
    IsOrderly (Server.run sca day bank)
    × (total (Server.run sca day bank).balances ≡ total bank.balances)
run-IsOrderly_example = run-IsOrderly sca day bank bank-IsOrderly

run-Steps_example : Steps (book bank) (book (Server.run sca day bank))
run-Steps_example = run-Steps sca day bank bank-IsOrderly

abbrev frozen_account : Account
frozen_account = record {
  account_id = 1;
  customer_id = some 101;
  account_reference = codes "XB-";
  account_type = AccountType.current;
  currency = codes "GBP";
  status = AccountStatus.frozen;
  allow_negative = false;
}

abbrev frozen_bank : Db
frozen_bank = Server.serve sca freeze bank

serve-frozen_example :
    authoritative 1 (Server.serve sca pay_rent frozen_bank).entries
    ≡ authoritative 1 frozen_bank.entries
unfolding Server.serve Accounts.operator_set_account_status strip upper Posting.insert_outbox
    Posting.insert_audit
serve-frozen_example = serve-frozen sca pay_rent frozen_bank 1 frozen_account refl refl

-- A third customer who waits for a decision, and an open alert.
abbrev waiting : Db
waiting = record bank {
  customers =
      record {
        customer_id = 103;
        kyc_status = KycStatus.pending_review;
        status = CustomerStatus.active;
      }
      ∷ bank.customers;
  alerts =
      record {
        risk_alert_id = 80;
        transaction_id = 700;
        customer_id = some 101;
        rule_id = AlertRule.high_value_transfer;
        severity = Severity.high;
        explanation = Explanation.exceeded (pos 50000) (pos 40000) (codes "GBP");
        status = AlertStatus.opened;
        reviewed_by = none;
      }
      ∷ [];
}

admin_decide_kyc-Decided_example :
    let (result, db') =
      Customers.admin_decide_kyc
        (ok tt)
        http
        admin
        103
        (codes "approve")
        (codes "seen")
        (stamp 340)
        waiting in
    ((result ≡ ok tt)
      × (◌≡◌ {A = Result (Unit {0})} (ok tt) (ok tt))
      × ((status : KycStatus) × IsDecision (codes "approve") status
          × Decided http admin 103 status (codes "seen") waiting db'))
    ⊎ ((e : Error) × (result ≡ err e)
        × (db' ≡ waiting)
        × IsRefused (ok tt) 103 (codes "approve") (stamp 340) waiting e)
admin_decide_kyc-Decided_example =
    admin_decide_kyc-Decided (ok tt) http admin 103 (codes "approve") (codes "seen") (stamp 340)
      waiting

review_risk_alert-once_example :
    let (_, db') =
      Alerts.review_risk_alert
        (ok tt)
        http
        admin
        80
        (codes "reviewed")
        (codes "ok")
        (stamp 350)
        waiting in
    Alerts.review_risk_alert
      (ok tt)
      http
      admin
      80
      (codes "DISMISSED")
      (codes "again")
      (stamp 351)
      db'
    ≡ (err (http_error "INVALID_ALERT_STATE" 409), db')
unfolding Alerts.review_risk_alert Posting.insert_audit strip upper
review_risk_alert-once_example =
    review_risk_alert-once http http admin admin 80 (codes "reviewed") (codes "ok")
      (codes "DISMISSED") (codes "again") (stamp 350) (stamp 351) waiting AlertStatus.dismissed refl
      refl
