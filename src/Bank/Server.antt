-- ===== src/Bank/Server.antt =====
-- The handlers of bantam/api.py that change the bank's tables, as one service that takes requests
-- in turn.
use bantam_bank.Prelude.{ℕ, ℤ, List, [], ◌∷◌}
use bantam_bank.Prelude.Text.{Text}
use bantam_bank.Domain.{Uuid, Principal}
use bantam_bank.Errors.{Result}
use bantam_bank.Db.{Db}
use bantam_bank.Sca.{ScaService}
use bantam_bank.Ledger.Checks.{Draws}
use bantam_bank.Bank.Reply.{Http, Stamp}
use bantam_bank.Bank.Customers
use bantam_bank.Bank.Accounts
use bantam_bank.Bank.Payments
use bantam_bank.Bank.Payments.{Others, TransferInput}
use bantam_bank.Bank.Alerts

-- A call of a handler: what FastAPI and the dependencies hand to it.
pub data Request : Type 0 where
  submit_kyc : Http → Principal → Stamp → Request
  decide_kyc :
      (scope : Result (Unit {0}))
      → Http
      → Principal
      → (customer_id : Uuid) → (decision reason : Text) → Stamp
      → Request
  open_account : Http → Principal → (currency : Text) → Stamp → Request
  set_status :
      (scope : Result (Unit {0}))
      → Http
      → Principal
      → (account_id : Uuid) → (status reason : Text) → Stamp
      → Request
  challenge :
      (limit : Result (Unit {0}))
      → Http
      → Principal
      → (source destination : Uuid) → ℤ
      → (challenge_id draw : ℕ) → Stamp
      → Request
  transfer :
      Http
      → Principal
      → (key : Result Text) → (limit : Result (Unit {0})) → TransferInput
      → Draws
      → Stamp
      → Others
      → Request
  deposit :
      (scope : Result (Unit {0}))
      → Http
      → Principal
      → (key : Result Text) → (account_id : Uuid) → ℤ
      → (currency description : Text) → Draws
      → Others
      → Request
  reverse :
      (scope : Result (Unit {0}))
      → Http
      → Principal
      → (key : Result Text) → (transaction_id : Uuid) → (reason : Text) → Draws
      → Others
      → Request
  reconcile : (scope : Result (Unit {0})) → Http → Principal → Stamp → Request
  raise_alert :
      (scope : Result (Unit {0}))
      → Http
      → Principal
      → (transaction_id : Uuid) → (severity explanation : Text) → Stamp
      → Request
  review_alert :
      (scope : Result (Unit {0}))
      → Http
      → Principal
      → (alert_id : Uuid) → (status note : Text) → Stamp
      → Request

-- The tables after the request's handler.
unfoldable pub serve : ScaService → Request → Db → Db
serve sca (Request.submit_kyc h p s) db = (Customers.submit_kyc h p s db).1
serve sca (Request.decide_kyc scope h p id decision reason s) db =
    (Customers.admin_decide_kyc scope h p id decision reason s db).1
serve sca (Request.open_account h p currency s) db = (Customers.open_account h p currency s db).1
serve sca (Request.set_status scope h p id status reason s) db =
    (Accounts.operator_set_account_status scope h p id status reason s db).1
serve sca (Request.challenge limit h p source destination amount id draw s) db =
    (Payments.create_sca_challenge sca limit h p source destination amount id draw s db).1
serve sca (Request.transfer h p key limit input d s o) db =
    (Payments.create_transfer sca h p key limit input d s o db).1
serve sca (Request.deposit scope h p key id amount currency description d o) db =
    (Payments.admin_demo_deposit sca scope h p key id amount currency description d o db).1
serve sca (Request.reverse scope h p key id reason d o) db =
    (Payments.admin_reverse_transaction sca scope h p key id reason d o db).1
serve sca (Request.reconcile scope h p s) db = (Payments.run_reconciliation scope h p s db).1
serve sca (Request.raise_alert scope h p id severity explanation s) db =
    (Alerts.create_manual_risk_alert scope h p id severity explanation s db).1
serve sca (Request.review_alert scope h p id status note s) db =
    (Alerts.review_risk_alert scope h p id status note s db).1

unfoldable pub run : ScaService → List Request → Db → Db
run sca [] db = db
run sca (r ∷ rs) db = run sca rs (serve sca r db)
