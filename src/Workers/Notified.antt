-- ===== src/Workers/Notified.antt =====
-- The notifications that handling a message adds.
use bantam_bank.Prelude.{
  ◌≤◌, ◌≡◌, refl, any, count, true, false, Bool-cases, inl, inr, List, [], ◌∷◌, arith, sym, subst,
  ◌∙◌,
}
use bantam_bank.Prelude.Members.{In, any-In, count-of_none, In-count}
use bantam_bank.Domain.{Uuid}
use bantam_bank.Errors.{ok, Outcome-cases}
use bantam_bank.Db.{Db, Notification, SentOrReceived, TransferPayload}
use bantam_bank.Workers.Notifications
use bantam_bank.Workers.Notifications.{
  Delivery, Recipient, same_key, same_direction, notification_row, recipients, process_batch,
  settle,
}

-- No two notifications share a key.
abbrev pub IsUnique : List Notification → Type 0
IsUnique rows = (n : Notification) → count (same_key n) rows ≤ 1

-- Rows of notifications that only grow, over the same accounts.
pub record Grows (db db' : Db) : Type 0 where
  pub accounts : db'.accounts ≡ db.accounts
  pub unique : IsUnique db.notifications → IsUnique db'.notifications
  pub more :
      (n : Notification)
      → count (same_key n) db.notifications ≤ count (same_key n) db'.notifications

pub Grows-refl : (db : Db) → Grows db db
Grows-refl db = record { accounts = refl; unique = λ h. h; more = λ n. omega arith }

pub Grows-trans : (a b c : Db) → Grows a b → Grows b c → Grows a c
Grows-trans a b c f g = record {
  accounts = g.accounts ∙ f.accounts;
  unique = λ h. g.unique (f.unique h);
  more = λ n. omega (arith, f.more n, g.more n);
}

same_direction_trans :
    (a b c : SentOrReceived)
    → same_direction a b ≡ true
    → same_direction a c ≡ true
    → same_direction b c ≡ true
same_direction_trans a b c e f = ground (arith, e, f)

same_key_trans :
    (a b c : Notification) → same_key a b ≡ true → same_key a c ≡ true → same_key b c ≡ true
same_key_trans a b c e f =
    ground (arith, e, f, same_direction_trans a.direction b.direction c.direction)

same_key_refl : (a : Notification) → same_key a a ≡ true
same_key_refl a = ground arith

-- A row with a new key.
insert_notification-adds :
    (n : Notification) (db db' : Db)
    → Notifications.insert_notification n db ≡ ok db'
    → any (same_key n) db.notifications ≡ false
    → (db'.accounts ≡ db.accounts) × (db'.notifications ≡ n ∷ db.notifications)
unfolding Notifications.insert_notification
insert_notification-adds n db db' e fresh = ground (arith, e, fresh)

new_key-IsUnique :
    (n : Notification) (rows : List Notification)
    → any (same_key n) rows ≡ false
    → IsUnique rows
    → IsUnique (n ∷ rows)
new_key-IsUnique n rows fresh unique m = elim (Bool-cases (same_key m n)) [
  | inr other ↦ rw other (omega (arith, unique m))
  | inl hit ↦
      let none_there =
        count-of_none (same_key n) (same_key m) rows (λ x e. same_key_trans m n x hit e) fresh in
      rw hit (omega (arith, none_there))
]

insert_notification-Grows :
    (n : Notification) (db db' : Db)
    → Notifications.insert_notification n db ≡ ok db'
    → Grows db db' × (1 ≤ count (same_key n) db'.notifications)
insert_notification-Grows n db db' e = elim (Bool-cases (any (same_key n) db.notifications)) [
  | inl there ↦
      let same : db ≡ db' = unfold Notifications.insert_notification in ground (arith, there, e) in
      let (old, i, hit) = any-In (same_key n) db.notifications there in
      subst (λ (d : Db). Grows db d × (1 ≤ count (same_key n) d.notifications)) same
        (Grows-refl db, In-count (same_key n) db.notifications old i hit)
  | inr fresh ↦
      let (accounts, rows) = insert_notification-adds n db db' e fresh in
      (
        record {
          accounts = accounts;
          unique = λ h. rw rows (new_key-IsUnique n db.notifications fresh h);
          more = λ m. rw rows (elim (Bool-cases (same_key m n)) [
            | inl hit ↦ rw hit (omega arith)
            | inr other ↦ rw other (omega arith)
          ]);
        },
        rw rows (In-count (same_key n) (n ∷ db.notifications) n (inl refl) (same_key_refl n)),
      )
]

-- The loop only adds, and where it ends well every recipient has a notification.
notify-Grows :
    (draw : Uuid → Uuid) (event_id : Uuid) (p : TransferPayload) (rs : List Recipient) (db : Db)
    → Grows db (Notifications.notify draw event_id p rs db).1
unfolding Notifications.notify
notify-Grows draw event_id p [] db = Grows-refl db
notify-Grows draw event_id p (r ∷ rs) db =
    let n = notification_row (draw r.account_id) event_id p r in
    elim (Outcome-cases (Notifications.insert_notification n db)) [
      | inr (x, fails) ↦ rw (Notifications.notify, fails) (Grows-refl db)
      | inl (after, wrote) ↦
          rw (Notifications.notify, wrote)
            (Grows-trans db after (Notifications.notify draw event_id p rs after).1
              (insert_notification-Grows n db after wrote).0
              (notify-Grows draw event_id p rs after))
    ]

-- A notification of the event for the recipient is stored.
abbrev pub Holds : Uuid → TransferPayload → Recipient → Db → Type 0
Holds event_id p r db = 1 ≤ count (same_key (notification_row 0 event_id p r)) db.notifications

notify-Holds :
    (draw : Uuid → Uuid) (event_id : Uuid) (p : TransferPayload) (rs : List Recipient) (db : Db)
    → (Notifications.notify draw event_id p rs db).0 ≡ ok tt
    → (r : Recipient) → In r rs
    → Holds event_id p r (Notifications.notify draw event_id p rs db).1
unfolding Notifications.notify
notify-Holds draw event_id p [] db e r i = absurd i
notify-Holds draw event_id p (q ∷ rs) db e r i =
    let n = notification_row (draw q.account_id) event_id p q in
    elim (Outcome-cases (Notifications.insert_notification n db)) [
      | inr (x, fails) ↦ absurd (ground (arith, rw (Notifications.notify, fails) at e))
      | inl (after, wrote) ↦
          rw (Notifications.notify, wrote)
            (elim i [
              | inr later ↦
                  notify-Holds draw event_id p rs after (rw (Notifications.notify, wrote) at e) r
                    later
              | inl here ↦
                  let stored : Holds event_id p q after =
                    (insert_notification-Grows n db after wrote).1 in
                  let grown =
                    (notify-Grows draw event_id p rs after).more
                      (notification_row 0 event_id p q) in
                  subst (λ k. Holds event_id p k (Notifications.notify draw event_id p rs after).1)
                    (sym here) (omega (arith, stored, grown))
            ])
    ]

pub handle_message-Grows : (d : Delivery) (db : Db) → Grows db (Notifications.handle_message d db).1
unfolding Notifications.handle_message Notifications.create_notifications
handle_message-Grows d db = elim (Outcome-cases d.decoded) [
  | inr (x, fails) ↦ rw fails (Grows-refl db)
  | inl (read, decoded) ↦
      rw decoded (notify-Grows d.draw read.0 read.1 (recipients read.1 db.accounts) db)
]

pub handle_message-Holds :
    (d : Delivery) (db : Db) (event_id : Uuid) (p : TransferPayload) (r : Recipient)
    → (Notifications.handle_message d db).0 ≡ ok tt
    → d.decoded ≡ ok (event_id, p)
    → In r (recipients p db.accounts)
    → Holds event_id p r (Notifications.handle_message d db).1
unfolding Notifications.handle_message Notifications.create_notifications
handle_message-Holds d db event_id p r e decoded i =
    rw decoded (notify-Holds d.draw event_id p (recipients p db.accounts) db (rw decoded at e) r i)
