-- ===== src/Bank/Customers.antt =====
-- bantam/api.py: `submit_kyc`, `open_account` and `admin_decide_kyc`.
use bantam_bank.Prelude.{
  pos, Bool, true, false, not, ◌&&◌, ◌||◌, ◌==◌, any, find?, update, select, Option, none, some, [],
  ◌∷◌, ◌++◌, if◌then◌else◌,
}
use bantam_bank.Prelude.Text.{Text, ◌==ₜ◌, codes, strip, upper}
use bantam_bank.Prelude.UuidText.{uuid_text}
use bantam_bank.Domain.{
  Uuid, Time, Principal, KycStatus, CustomerStatus, AccountStatus, AccountType, is_verified,
}
use bantam_bank.Errors.{
  BantamError, Error, bantam, Result, ok, err, ◌>>=◌, ◌>>◌, raise_if, or_raise,
}
use bantam_bank.Db.{
  Db, Customer, Account, Balance, OutboxRow, OutboxStatus, Payload, Resource, MetaValue,
}
use bantam_bank.Audit.{AuditFields}
use bantam_bank.Ledger.Checks.{is_balance}
use bantam_bank.Ledger.Posting.{insert_outbox, insert_audit}
use bantam_bank.Bank.Reply.{
  Http, Stamp, Reply, request_audit, commit, commit_then, guarded, http_error, take_codes,
}
use Prim.Native.String.{String}

abbrev pub is_customer_row : Uuid → Customer → Bool
is_customer_row id c = c.customer_id == id

-- `kyc_status IN ('PENDING_KYC', 'KYC_REJECTED')`
abbrev pub may_submit : KycStatus → Bool
may_submit KycStatus.pending_kyc = true
may_submit KycStatus.kyc_rejected = true
may_submit _ = false

abbrev pub in_review : KycStatus → Bool
in_review KycStatus.pending_review = true
in_review _ = false

-- `UPDATE customers SET kyc_status = …` where the row's status passes the test; none where no row
-- does.
unfoldable pub move_kyc : (KycStatus → Bool) → KycStatus → Uuid → Db → Result Db
move_kyc test status id db =
    let hits = λ (c : Customer). is_customer_row id c && test c.kyc_status in
    do
      raise_if (not (any hits db.customers)) (http_error "INVALID_KYC_STATE" 409)
      ok (record db {
        customers = update hits (λ c. record c { kyc_status = status }) db.customers;
      })

-- `submit_kyc`: the update is committed before the audit row is written.
unfoldable pub submit_kyc : Http → Principal → Stamp → Db → Reply
unfolding move_kyc
submit_kyc http principal s db = elim principal.customer_id [
  | none ↦ (err (bantam BantamError.forbidden), db)
  | some id ↦ commit_then db (move_kyc may_submit KycStatus.pending_review id db) (
      insert_audit
        (request_audit http principal.user_id "KYC_SUBMITTED" "customer" (Resource.row id) [])
        s.audit_event_id s.now)
]

-- The row of an event that a handler stores.
abbrev pub event_row : Stamp → String → Uuid → String → Payload → OutboxRow
event_row s aggregate_type aggregate_id event_type payload = record {
  outbox_event_id = s.outbox_event_id;
  aggregate_type = aggregate_type;
  aggregate_id = aggregate_id;
  event_type = event_type;
  event_version = 1;
  payload = payload;
  status = OutboxStatus.pending;
  publish_attempts = 0;
  last_error = none;
  claimed_at = none;
  created_at = s.now;
  published_at = none;
}

abbrev kyc_event : KycStatus → String
kyc_event KycStatus.kyc_verified = "customer.kyc_verified.v1"
kyc_event _ = "customer.kyc_rejected.v1"

-- The decision that a text stands for.
unfoldable pub kyc_decision : Text → Option KycStatus
kyc_decision text =
    let word = upper (strip text) in
    if (word ==ₜ codes "APPROVE") || (word ==ₜ codes "KYC_VERIFIED")
    then some KycStatus.kyc_verified
    else if (word ==ₜ codes "REJECT") || (word ==ₜ codes "KYC_REJECTED")
    then some KycStatus.kyc_rejected
    else none

abbrev pub kyc_row : Stamp → Uuid → KycStatus → OutboxRow
kyc_row s id decision =
    event_row s "customer" id (kyc_event decision) (Payload.customer_kyc id decision)

abbrev pub kyc_audit : Http → Principal → Uuid → KycStatus → (reason : Text) → AuditFields
kyc_audit http principal id decision reason =
    request_audit http principal.user_id "KYC_DECIDED" "customer" (Resource.row id)
      (("decision", MetaValue.kyc decision) ∷ ("reason", MetaValue.string reason) ∷ [])

-- The database transaction of `admin_decide_kyc`.
unfoldable pub decide_kyc :
    Http → Principal → (customer_id : Uuid) → KycStatus → (reason : Text) → Stamp → Db → Result Db
unfolding move_kyc
decide_kyc http principal id decision reason s db = do
  moved ← move_kyc in_review decision id db
  stored ← insert_outbox (kyc_row s id decision) moved
  insert_audit (kyc_audit http principal id decision reason) s.audit_event_id s.now stored

-- `admin_decide_kyc`, with what `require_admin_scope` gave.
unfoldable pub admin_decide_kyc :
    (scope : Result (Unit {0}))
    → Http
    → Principal
    → (customer_id : Uuid) → (decision reason : Text) → Stamp
    → Db
    → Reply
unfolding decide_kyc kyc_decision
admin_decide_kyc scope http principal id decision reason s db =
    guarded scope db (elim (kyc_decision decision) [
      | none ↦ (err (http_error "INVALID_DECISION" 422), db)
      | some status ↦ commit db (decide_kyc http principal id status reason s db)
    ])

abbrev pub is_active_customer : CustomerStatus → Bool
is_active_customer CustomerStatus.active = true
is_active_customer _ = false

-- `"XB-" + account_id.hex[:12].upper()`
unfoldable pub reference_of : Uuid → Text
reference_of id =
    codes "XB-" ++ upper (take_codes 12 (select (λ c. not (c == b'-')) (uuid_text id)))

abbrev pub new_account : Uuid → Uuid → Text → Account
new_account id owner currency = record {
  account_id = id;
  customer_id = some owner;
  account_reference = reference_of id;
  account_type = AccountType.current;
  currency = currency;
  status = AccountStatus.active;
  allow_negative = false;
}

abbrev pub new_balance : Uuid → Time → Balance
new_balance id now = record {
  account_id = id;
  available_balance_minor = pos 0;
  current_balance_minor = pos 0;
  last_ledger_entry_id = none;
  updated_at = now;
}

-- The account, with the unique keys of `bank_accounts`, and its balances. The hash of the reference
-- is unique where the reference is.
unfoldable pub insert_account : Account → Balance → Db → Result Db
insert_account a b db = do
  raise_if
      (any
        (λ (old : Account).
          (old.account_id == a.account_id) || (old.account_reference ==ₜ a.account_reference))
        db.accounts)
      Error.unique_violation
  raise_if (any (is_balance b.account_id) db.balances) Error.unique_violation
  ok (record db { accounts = a ∷ db.accounts; balances = b ∷ db.balances })

-- `input.currency.strip().upper() or "GBP"`
abbrev pub or_gbp : Text → Text
or_gbp [] = codes "GBP"
or_gbp (c ∷ text) = c ∷ text

-- The tests of `open_account`, which give the owner and the currency.
unfoldable pub may_open : Principal → (currency : Text) → Db → Result (Uuid × Text)
may_open principal currency db = do
  owner ← or_raise principal.customer_id (bantam BantamError.forbidden)
  let word = or_gbp (upper (strip currency))
  raise_if (not (word ==ₜ codes "GBP")) (http_error "UNSUPPORTED_CURRENCY" 422)
  c ← or_raise (find? (is_customer_row owner) db.customers) (http_error "NOT_FOUND" 404)
  raise_if (not (is_verified c.kyc_status && is_active_customer c.status))
      (http_error "KYC_NOT_VERIFIED" 422)
  ok (owner, word)

-- The writes of `open_account`.
unfoldable pub store_account :
    Http → Principal → (owner : Uuid) → (currency : Text) → Stamp → Db → Result Db
unfolding insert_account
store_account http principal owner currency s db = do
  opened ← insert_account (new_account s.new_id owner currency) (new_balance s.new_id s.now) db
  stored ←
      insert_outbox
        (event_row s "account" s.new_id "account.opened.v1"
          (Payload.account_opened s.new_id owner currency))
        opened
  insert_audit
      (request_audit http principal.user_id "ACCOUNT_OPENED" "bank_account" (Resource.row s.new_id)
        [])
      s.audit_event_id s.now stored

-- The database transaction of `open_account`.
unfoldable pub opening : Http → Principal → (currency : Text) → Stamp → Db → Result Db
unfolding may_open store_account
opening http principal currency s db = do
  (owner, word) ← may_open principal currency db
  store_account http principal owner word s db

-- `open_account`
unfoldable pub open_account : Http → Principal → (currency : Text) → Stamp → Db → Reply
unfolding opening
open_account http principal currency s db = commit db (opening http principal currency s db)
