-- ===== src/Ledger/Idempotency.antt =====
-- A key is used once: a repeated command finds the first one's transaction and writes nothing.
use bantam_bank.Prelude.{
  ℕ, ◌≤◌, ◌==◌, ◌≡◌, ◌⊎◌, ◌∙◌, ap, refl, sym, Bool, true, find?, count, Option, none, some, List,
  [], ◌∷◌, arith, if◌then◌else◌, Bool-cases, inl, inr,
}
use bantam_bank.Prelude.Text.{Text, ==ₜ_iff}
use bantam_bank.Domain.{Uuid, TransferCommand}
use bantam_bank.Errors.{Result, ok}
use bantam_bank.Db.{Db, Transaction}
use bantam_bank.Sca.{ScaService}
use bantam_bank.Ledger.Checks
use bantam_bank.Ledger.Checks.{Draws, Normalised, has_key, is_transaction}
use bantam_bank.Ledger.Posting
use bantam_bank.Ledger.Transfer
use bantam_bank.Ledger.Transfer.{TransactionPayload, new_payload, transaction_payload}
use bantam_bank.Ledger.Executed.{execute-Executed, Executed-written}
use bantam_bank.Ledger.Outcomes.{Posts, create_transfer_ind, known}

-- No user has two transactions of one key.
abbrev pub HasUniqueKeys : Db → Type 0
HasUniqueKeys db = (user_id : Uuid) (key : Text) → count (has_key user_id key) db.transactions ≤ 1

count-mark_reversed :
    (user_id : Uuid) (key : Text) (r : Option Uuid) (ts : List Transaction)
    → count (has_key user_id key) (Posting.mark_reversed r ts) ≡ count (has_key user_id key) ts
count-mark_reversed u k none ts = refl
count-mark_reversed u k (some id) [] = refl
count-mark_reversed u k (some id) (t ∷ ts) = ground (arith, count-mark_reversed u k (some id) ts)

count-of_find? :
    (p : Transaction → Bool) (ts : List Transaction) → find? p ts ≡ none → count p ts ≡ 0
count-of_find? p [] e = refl
count-of_find? p (t ∷ ts) e = ground (arith, count-of_find? p ts)

-- A new row under a key that no row had.
count-new_row :
    (u a : Uuid) (k b : Text) (row : Transaction) (ts : List Transaction)
    → row.initiated_by_user_id ≡ a
    → row.idempotency_key ≡ b
    → find? (has_key a b) ts ≡ none
    → count (has_key u k) ts ≤ 1
    → count (has_key u k) (row ∷ ts) ≤ 1
count-new_row u a k b row ts by under new h = elim (Bool-cases (has_key u k row)) [
  | inr other ↦ rw other (omega arith)
  | inl same ↦
      let eu : a ≡ u = ground arith in
      let ek : b ≡ k = sym under ∙ (==ₜ_iff row.idempotency_key k).0 (ground arith) in
      let zero_rows : count (has_key u k) ts ≡ 0 =
        ap (λ i. count (has_key i k) ts) (sym eu)
        ∙ ap (λ j. count (has_key a j) ts) (sym ek)
        ∙ count-of_find? (has_key a b) ts new in
      rw same (omega arith)
]

execute-HasUniqueKeys :
    (sca : ScaService) (d : Draws) (n : Normalised) (db db' : Db)
    → known n db ≡ none
    → Transfer.execute sca d n db ≡ ok db'
    → HasUniqueKeys db
    → HasUniqueKeys db'
unfolding Checks.find_by_idempotency
execute-HasUniqueKeys sca d n db db' new e unique u k =
    let c = n.command in
    let row : Transaction = Posting.transaction_row d n in
    rw (Executed-written (execute-Executed sca d n db db' e)) (
      rw (count-mark_reversed u k c.reverses_transaction_id (row ∷ db.transactions)) (
        count-new_row u c.actor.user_id k c.idempotency_key row db.transactions refl refl new
          (unique u k)))

-- Any call of create_transfer keeps at most one stored transaction per user and idempotency key.
pub create_transfer-HasUniqueKeys :
    (sca : ScaService) (d : Draws) (c : TransferCommand) (before db after : Db)
    → HasUniqueKeys db
    → HasUniqueKeys (Transfer.create_transfer sca d c before db after).1
create_transfer-HasUniqueKeys sca d c before db after unique =
    create_transfer_ind sca d c before db after HasUniqueKeys unique
      (λ db' p. execute-HasUniqueKeys sca d p.normalised db db' p.new_now p.executes unique)

-- The row that a posting wrote, as it is read back: the mark of a reversal falls on another row,
-- whose identifier is not the new one.
abbrev marked : Option Uuid → Transaction → Transaction
marked none t = t
marked (some id) t = if is_transaction id t then Posting.set_reversed t else t

find-new_row :
    (u : Uuid) (k : Text) (r : Option Uuid) (row : Transaction) (ts : List Transaction)
    → has_key u k row ≡ true
    → find? (has_key u k) (Posting.mark_reversed r (row ∷ ts)) ≡ some (marked r row)
find-new_row u k none row ts same = rw same
find-new_row u k (some id) row ts same = ground arith

eq_self : (a : ℕ) → (a == a) ≡ true
eq_self a = ground arith

row-has_key :
    (d : Draws) (n : Normalised)
    → has_key n.command.actor.user_id n.command.idempotency_key (Posting.transaction_row d n) ≡ true
row-has_key d n =
    let k = n.command.idempotency_key in rw (eq_self n.command.actor.user_id) ((==ₜ_iff k k).1 refl)

-- After a posting its own key finds its row.
posted-known :
    (sca : ScaService) (d : Draws) (n : Normalised) (db db' : Db)
    → Transfer.execute sca d n db ≡ ok db'
    → known n db' ≡ some (marked n.command.reverses_transaction_id (Posting.transaction_row d n))
unfolding Checks.find_by_idempotency
posted-known sca d n db db' e =
    let c = n.command in
    rw (Executed-written (execute-Executed sca d n db db' e)) (
      find-new_row c.actor.user_id c.idempotency_key c.reverses_transaction_id
        (Posting.transaction_row d n) db.transactions (row-has_key d n))

same-known :
    (n m : Normalised) (db : Db)
    → m.command.actor.user_id ≡ n.command.actor.user_id
    → m.command.idempotency_key ≡ n.command.idempotency_key
    → known m db ≡ known n db
same-known n m db user key =
    ap (λ u. Checks.find_by_idempotency u m.command.idempotency_key db) user
    ∙ ap (λ k. Checks.find_by_idempotency n.command.actor.user_id k db) key

-- A call whose key is in the database answers with the row and writes nothing.
known-replays :
    (sca : ScaService) (d : Draws) (c : TransferCommand) (n : Normalised) (before db after : Db)
    (t : Transaction)
    → Checks.normalise c ≡ ok n
    → known n db ≡ some t
    → (known n before ≡ none) ⊎ (before ≡ db)
    → Transfer.create_transfer sca d c before db after ≡ (ok (transaction_payload t, true), db)
unfolding Transfer.create_transfer
known-replays sca d c n before db after t normal here (inl stale) = rw (
  normal, Transfer.create_transfer, stale, Transfer.create_normalised, here,
  Transfer.in_transaction,
)
known-replays sca d c n before db after t normal here (inr fresh) =
    let seen : known n before ≡ some t = ap (known n) fresh ∙ here in
    rw (normal, Transfer.create_transfer, seen, Transfer.create_normalised)

-- What a repeated command is answered with: the first transaction, and the database as it is.
abbrev pub Replays : TransactionPayload → Db → Result (TransactionPayload × Bool) × Db → Type 0
Replays first db answer =
    (p : TransactionPayload) × (answer ≡ (ok (p, true), db))
    × (p.transaction_id ≡ first.transaction_id)
    × (p.source_account_id ≡ first.source_account_id)
    × (p.destination_account_id ≡ first.destination_account_id)
    × (p.amount_minor ≡ first.amount_minor)

marked-payload :
    (r : Option Uuid) (t : Transaction)
    → ((marked r t).transaction_id ≡ t.transaction_id)
      × ((marked r t).source_account_id ≡ t.source_account_id)
      × ((marked r t).destination_account_id ≡ t.destination_account_id)
      × ((marked r t).amount_minor ≡ t.amount_minor)
marked-payload none t = (refl, refl, refl, refl)
marked-payload (some id) t = ground arith

-- After a call has posted, a call whose normalised user and key are the same changes nothing and
-- returns the transaction of the first call with its identifier, accounts and amount, flagged as
-- a repetition, whatever its other arguments; its first look-up may have run before the key was
-- known or after the posting.
pub create_transfer-Replays :
    (sca sca' : ScaService) (d d' : Draws) (c c' : TransferCommand) (n' : Normalised)
    (before db after before' db' after' : Db) (p : Posts sca d c before db db')
    → Checks.normalise c' ≡ ok n'
    → n'.command.actor.user_id ≡ p.normalised.command.actor.user_id
    → n'.command.idempotency_key ≡ p.normalised.command.idempotency_key
    → (known n' before' ≡ none) ⊎ (before' ≡ db')
    → Replays
        (new_payload d p.normalised)
        db'
        (Transfer.create_transfer sca' d' c' before' db' after')
create_transfer-Replays sca sca' d d' c c' n' before db after before' db' after' p normal user key
      seen =
    let n = p.normalised in
    let row : Transaction = Posting.transaction_row d n in
    let r = n.command.reverses_transaction_id in
    let here : known n' db' ≡ some (marked r row) =
      same-known n n' db' user key ∙ posted-known sca d n db db' p.executes in
    let (a, b, e, f) = marked-payload r row in
    (
      transaction_payload (marked r row),
      known-replays sca' d' c' n' before' db' after' (marked r row) normal here seen,
      a,
      b,
      e,
      f,
    )
