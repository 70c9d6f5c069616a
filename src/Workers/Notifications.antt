-- ===== src/Workers/Notifications.antt =====
-- bantam/workers.py: `create_notifications`, and `process_batch` of the workers that pull from
-- Pub/Sub. Each INSERT is committed by itself. bantam/money.py: `format_minor`.
use bantam_bank.Prelude.{
  ℕ, ℤ, pos, negsuc, suc, ◌/◌, ◌%◌, ◌+◌, Bool, true, false, not, ◌&&◌, ◌||◌, ◌==◌, any, length,
  none, some, List, [], ◌∷◌, ◌++◌, if◌then◌else◌,
}
use bantam_bank.Prelude.Text.{Text, codes, upper}
use bantam_bank.Prelude.Decimal.{dec}
use bantam_bank.Domain.{Uuid}
use bantam_bank.Errors.{Error, Result, ok, err, ◌>>◌, raise_if}
use bantam_bank.Db.{Db, Account, Customer, Notification, SentOrReceived, TransferPayload}
use bantam_bank.Ledger.Checks.{is_account}
use bantam_bank.Bank.Reply.{Reply}
use Prim.Native.String.{String}

-- The digits with a comma before each group of three, counted from the right: `left` is how many
-- are still to come.
abbrev pub grouped : Text → Text
grouped [] = []
grouped (c ∷ digits) =
    let rest = grouped digits in
    if not (length digits == 0) && (length digits % 3 == 0) then c ∷ b',' ∷ rest else c ∷ rest

-- Two digits.
abbrev pub two_digits : ℕ → Text
two_digits n = (48 + n / 10) ∷ (48 + n % 10) ∷ []

-- `f"{Decimal(n) / Decimal(100):,.2f}"`
abbrev pub hundredths : ℕ → Text
hundredths n = grouped (dec (n / 100)) ++ (b'.' ∷ two_digits (n % 100))

abbrev pub amount_text : ℤ → Text
amount_text (pos n) = hundredths n
amount_text (negsuc n) = b'-' ∷ hundredths (suc n)

-- `format_minor`
unfoldable pub format_minor : ℤ → (currency : Text) → Text
format_minor amount_minor currency = upper currency ++ (b' ' ∷ amount_text amount_minor)

-- A row of the SELECT.
pub record Recipient : Type 0 where
  pub account_id : Uuid
  pub customer_id : Uuid

abbrev pub owned : Account → List Recipient → List Recipient
owned a rest = elim a.customer_id [
  | none ↦ rest
  | some id ↦ record { account_id = a.account_id; customer_id = id } ∷ rest
]

-- The accounts of the transfer that have a customer.
unfoldable pub recipients : TransferPayload → List Account → List Recipient
recipients p [] = []
recipients p (a ∷ accounts) =
    let rest = recipients p accounts in
    if is_account p.source_account_id a || is_account p.destination_account_id a
    then owned a rest
    else rest

abbrev pub same_direction : SentOrReceived → SentOrReceived → Bool
same_direction SentOrReceived.sent SentOrReceived.sent = true
same_direction SentOrReceived.received SentOrReceived.received = true
same_direction _ _ = false

-- The key `(customer_id, event_id, account_id, direction)`.
abbrev pub same_key : Notification → Notification → Bool
same_key a b =
    (a.customer_id == b.customer_id)
    && (a.event_id == b.event_id)
    && (a.account_id == b.account_id)
    && same_direction a.direction b.direction

-- INSERT ... ON CONFLICT (customer_id, event_id, account_id, direction) DO NOTHING
unfoldable pub insert_notification : Notification → Db → Result Db
insert_notification n db = if any (same_key n) db.notifications then ok db else do
  raise_if (any (λ (old : Notification). old.notification_id == n.notification_id) db.notifications)
      Error.unique_violation
  raise_if
      (not (
        any (λ (c : Customer). c.customer_id == n.customer_id) db.customers
        && any (is_account n.account_id) db.accounts))
      Error.foreign_key_violation
  ok (record db { notifications = n ∷ db.notifications })

abbrev subject_of : SentOrReceived → String
subject_of SentOrReceived.sent = "Transfer sent"
subject_of SentOrReceived.received = "Transfer received"

abbrev verb_of : SentOrReceived → Text
verb_of SentOrReceived.sent = codes "sent"
verb_of SentOrReceived.received = codes "received"

abbrev pub direction_of : TransferPayload → Recipient → SentOrReceived
direction_of p r =
    if r.account_id == p.source_account_id then SentOrReceived.sent else SentOrReceived.received

-- The row for a recipient, with the identifier that is drawn for it.
abbrev pub notification_row : Uuid → Uuid → TransferPayload → Recipient → Notification
notification_row drawn event_id p r =
    let direction = direction_of p r in
    record {
      notification_id = drawn;
      customer_id = r.customer_id;
      event_id = event_id;
      account_id = r.account_id;
      direction = direction;
      subject = subject_of direction;
      body =
          codes "You "
          ++ verb_of direction
          ++ codes " "
          ++ format_minor p.amount_minor p.currency
          ++ codes " in a fake-money Bantam transfer.";
    }

-- The loop over the recipients, and the tables that it leaves.
unfoldable pub notify : (draw : Uuid → Uuid) → Uuid → TransferPayload → List Recipient → Db → Reply
unfolding insert_notification
notify draw event_id p [] db = (ok tt, db)
notify draw event_id p (r ∷ rs) db =
    elim (insert_notification (notification_row (draw r.account_id) event_id p r) db) [
      | err e ↦ (err e, db)
      | ok after ↦ notify draw event_id p rs after
    ]

-- `create_notifications`
unfoldable pub create_notifications : (draw : Uuid → Uuid) → Uuid → TransferPayload → Db → Reply
unfolding notify recipients
create_notifications draw event_id p db = notify draw event_id p (recipients p db.accounts) db

-- A delivered message, with what `decode_transfer_data` and the conversions read in it, and the draws.
pub record Delivery : Type 0 where
  pub ack_id : Text
  pub decoded : Result (Uuid × TransferPayload)
  pub draw : Uuid → Uuid

-- `handle_message` of the notification worker.
unfoldable pub handle_message : Delivery → Db → Reply
unfolding create_notifications
handle_message d db = elim d.decoded [
  | err e ↦ (err e, db)
  | ok (event_id, p) ↦ create_notifications d.draw event_id p db
]

-- The messages that a batch acknowledged, and the tables.
abbrev pub Batch : Type 0
Batch = List Delivery × Db

-- A message is acknowledged unless its handler raised. Where the acknowledgement raises, the batch
-- ends; `rest` is what the other messages give.
abbrev pub settle :
    Delivery → (taken : Bool) → Result (Unit {0}) → (after : Db) → (rest : Batch) → Batch
settle d taken (err e) after rest = rest
settle d true (ok done) after rest = (d ∷ rest.0, rest.1)
settle d false (ok done) after rest = ([], after)

-- `process_batch` over the messages that were pulled.
unfoldable pub process_batch : (acknowledge : Text → Bool) → List Delivery → Db → Batch
unfolding handle_message
process_batch acknowledge [] db = ([], db)
process_batch acknowledge (d ∷ deliveries) db =
    let handled = handle_message d db in
    let rest = process_batch acknowledge deliveries handled.1 in
    settle d (acknowledge d.ack_id) handled.0 handled.1 rest
