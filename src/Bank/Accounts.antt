-- ===== src/Bank/Accounts.antt =====
-- bantam/api.py: `operator_set_account_status`.
use bantam_bank.Prelude.{
  Bool, true, false, not, ◌&&◌, any, update, Option, none, some, [], ◌∷◌, if◌then◌else◌,
}
use bantam_bank.Prelude.Text.{Text, ◌==ₜ◌, codes, strip, upper}
use bantam_bank.Domain.{Uuid, Principal, AccountStatus, AccountType}
use bantam_bank.Errors.{Result, ok, err, ◌>>=◌, ◌>>◌, raise_if}
use bantam_bank.Db.{Db, Account, Payload, Resource, MetaValue}
use bantam_bank.Ledger.Checks.{is_account}
use bantam_bank.Ledger.Posting.{insert_outbox, insert_audit}
use bantam_bank.Bank.Reply.{Http, Stamp, Reply, request_audit, commit, guarded, http_error}
use bantam_bank.Bank.Customers.{event_row}
use Prim.Native.String.{String}

abbrev pub is_current : AccountType → Bool
is_current AccountType.current = true
is_current AccountType.system = false

abbrev pub is_closed : AccountStatus → Bool
is_closed AccountStatus.closed = true
is_closed _ = false

-- `account_type = 'CURRENT' AND status <> 'CLOSED'`
abbrev pub is_settable : Uuid → Account → Bool
is_settable id a = is_account id a && is_current a.account_type && not (is_closed a.status)

abbrev pub with_status : AccountStatus → Account → Account
with_status status a = record a { status = status }

unfoldable pub move_status : AccountStatus → Uuid → Db → Result Db
move_status status id db = do
  raise_if (not (any (is_settable id) db.accounts)) (http_error "NOT_FOUND" 404)
  ok (record db { accounts = update (is_settable id) (with_status status) db.accounts })

unfoldable pub status_of : Text → Option AccountStatus
status_of text =
    let word = upper (strip text) in
    if word ==ₜ codes "ACTIVE"
    then some AccountStatus.active
    else if word ==ₜ codes "FROZEN"
    then some AccountStatus.frozen
    else none

abbrev status_event : AccountStatus → String
status_event AccountStatus.frozen = "account.frozen.v1"
status_event _ = "account.unfrozen.v1"

abbrev status_action : AccountStatus → String
status_action AccountStatus.frozen = "ACCOUNT_FROZEN"
status_action _ = "ACCOUNT_UNFROZEN"

-- The database transaction of `operator_set_account_status`.
unfoldable pub set_status :
    Http
    → Principal
    → (account_id : Uuid) → AccountStatus
    → (reason : Text) → Stamp
    → Db
    → Result Db
unfolding move_status
set_status http principal id status reason s db = do
  moved ← move_status status id db
  stored ←
      insert_outbox
        (event_row s "account" id (status_event status) (Payload.account_status id status reason))
        moved
  insert_audit
      (request_audit http principal.user_id (status_action status) "bank_account" (Resource.row id)
        (("reason", MetaValue.string reason) ∷ []))
      s.audit_event_id s.now stored

-- `operator_set_account_status`, with what `require_admin_scope` gave.
unfoldable pub operator_set_account_status :
    (scope : Result (Unit {0}))
    → Http
    → Principal
    → (account_id : Uuid) → (status reason : Text) → Stamp
    → Db
    → Reply
unfolding set_status status_of
operator_set_account_status scope http principal id status reason s db =
    guarded scope db (elim (status_of status) [
      | none ↦ (err (http_error "INVALID_STATUS" 422), db)
      | some next ↦ commit db (set_status http principal id next reason s db)
    ])
