-- ===== src/Ledger/Rules.antt =====
-- The database's own rules on balances and postings, met by a posting whose source can pay.
use bantam_bank.Prelude.{
  ℕ, ◌≡◌, ◌≢◌, ◌⊎◌, ap, refl, ℤ, pos, -ℤ◌, ◌-ℤ◌, ◌≤ℤ◌, ◌==◌, ==_iff, ==ℤ_iff, int_laws, true, false,
  any, all, update, All, select, List, [], ◌∷◌, arith, if◌then◌else◌, Bool-cases, inl, inr,
}
use bantam_bank.Domain.{Uuid, Time}
use bantam_bank.Errors.{Error, Result, err}
use bantam_bank.Db.{Db, Balance, Entry, Transaction}
use bantam_bank.Money.{sum, balanced}
use bantam_bank.Ledger.Checks.{Draws, Normalised, is_balance, is_transaction}
use bantam_bank.Ledger.Posting
use bantam_bank.Ledger.Posting.{
  moved, amount, of_transaction, is_admissible, may_go_negative, row_passes, in_range,
}

-- A row that the balance rules of the database accept.
abbrev pub IsCovered : Db → Balance → Type 0
IsCovered db b =
    (b.available_balance_minor ≤ℤ b.current_balance_minor)
    × ((may_go_negative b.account_id db ≡ true) ⊎ (pos 0 ≤ℤ b.available_balance_minor))

-- The row's account can pay `x`.
abbrev pub CanPay : Db → ℤ → Uuid → Balance → Type 0
CanPay db x id b =
    is_balance id b ≡ true → (may_go_negative id db ≡ true) ⊎ (x ≤ℤ b.available_balance_minor)

debit-admissible :
    (db : Db) (x : ℤ) (id entry_id : Uuid) (now : Time) (b : Balance)
    → IsCovered db b
    → CanPay db x id b
    → row_passes (is_admissible db) (-ℤ x) id entry_id now b ≡ true
unfolding is_admissible
debit-admissible db x id entry_id now b h pay = grind (int_laws)

credit-admissible :
    (db : Db) (x : ℤ) (id entry_id : Uuid) (now : Time) (b : Balance)
    → IsCovered db b
    → pos 0 ≤ℤ x
    → row_passes (is_admissible db) x id entry_id now b ≡ true
unfolding is_admissible
credit-admissible db x id entry_id now b h positive = grind (int_laws)

pub moved-IsCovered :
    (db : Db) (x : ℤ) (id entry_id : Uuid) (now : Time) (b : Balance)
    → IsCovered db b
    → CanPay db x id b
    → IsCovered db (if is_balance id b then moved (-ℤ x) entry_id now b else b)
moved-IsCovered db x id entry_id now b h pay = grind int_laws

pub credited-IsCovered :
    (db : Db) (x : ℤ) (id entry_id : Uuid) (now : Time) (b : Balance)
    → IsCovered db b
    → pos 0 ≤ℤ x
    → IsCovered db (if is_balance id b then moved x entry_id now b else b)
credited-IsCovered db x id entry_id now b h positive = grind int_laws

module _ (db : Db) (x : ℤ) (source destination debit credit : Uuid) (now : Time)
    (positive : pos 0 ≤ℤ x) where
  pub debits-admissible :
      (bs : List Balance)
      → All (IsCovered db) bs
      → All (CanPay db x source) bs
      → all (row_passes (is_admissible db) (-ℤ x) source debit now) bs ≡ true
  debits-admissible [] h pay = refl
  debits-admissible (b ∷ bs) h pay =
      ground
        (arith, debit-admissible db x source debit now b h.0 pay.0, debits-admissible bs h.1 pay.1)

  pub credits-admissible :
      (bs : List Balance)
      → All (IsCovered db) bs
      → All (CanPay db x source) bs
      → all
          (row_passes (is_admissible db) x destination credit now)
          (update (is_balance source) (moved (-ℤ x) debit now) bs)
        ≡ true
  credits-admissible [] h pay = refl
  credits-admissible (b ∷ bs) h pay =
      let b' = if is_balance source b then moved (-ℤ x) debit now b else b in
      let head : row_passes (is_admissible db) x destination credit now b' ≡ true =
        credit-admissible db x destination credit now b'
          (moved-IsCovered db x source debit now b h.0 pay.0) positive in
      rw head (credits-admissible bs h.1 pay.1)

-- Each entry belongs to a transaction (the foreign key of `ledger_entries`).
abbrev pub IsForeign : Db → Type 0
IsForeign db = All (λ e. any (is_transaction e.transaction_id) db.transactions ≡ true) db.entries

no-entries :
    (id : Uuid) (transactions : List Transaction) (entries : List Entry)
    → any (is_transaction id) transactions ≡ false
    → All (λ (e : Entry). any (is_transaction e.transaction_id) transactions ≡ true) entries
    → select (of_transaction id) entries ≡ []
no-entries id transactions [] new h = refl
no-entries id transactions (e ∷ es) new h = elim (Bool-cases (e.transaction_id == id)) [
  | inl same ↦ cc (
    ap (λ i. any (is_transaction i) transactions) ((==_iff e.transaction_id id).0 same),
    new,
    h.0,
  )
  | inr other ↦ rw other (no-entries id transactions es new h.1)
]

eq_self : (a : ℕ) → (a == a) ≡ true
eq_self a = ground arith

pub pair-balanced : (x : ℤ) → balanced ((-ℤ x) ∷ x ∷ []) ≡ true
unfolding balanced
pair-balanced x = (==ℤ_iff (sum ((-ℤ x) ∷ x ∷ [])) (pos 0)).1 (omega int_laws)

pub any-clashes :
    (new : Transaction) (ts : List Transaction)
    → any (Posting.clashes new) ts ≡ false
    → any (is_transaction new.transaction_id) ts ≡ false
any-clashes new [] h = refl
any-clashes new (t ∷ ts) h = ground (arith, any-clashes new ts)

-- A result that no rule of the database, nor the code's own invariant check, has refused.
abbrev pub IsAllowed : {A : Type 0} → Result A → Type 0
IsAllowed r = (r ≢ err Error.check_violation) × (r ≢ err Error.runtime_error)

-- The signs of the two rows are those of their directions.
signed-debit :
    (d : Draws) (n : Normalised)
    → pos 1 ≤ℤ n.command.amount_minor
    → Posting.is_signed (Posting.debit_row d n) ≡ true
unfolding Posting.is_signed
signed-debit d n positive = grind int_laws

signed-credit :
    (d : Draws) (n : Normalised)
    → pos 1 ≤ℤ n.command.amount_minor
    → Posting.is_signed (Posting.credit_row d n) ≡ true
unfolding Posting.is_signed
signed-credit d n positive = grind int_laws

pub post-IsAllowed :
    (d : Draws) (n : Normalised) (db : Db)
    → pos 1 ≤ℤ n.command.amount_minor
    → n.command.source_account_id ≢ n.command.destination_account_id
    → let c = n.command in
      let bs = db.balances in
      all
          (row_passes
            (is_admissible db)
            (-ℤ c.amount_minor)
            c.source_account_id
            d.debit_entry_id
            d.started_at)
          bs
        ≡ true
      → all
          (row_passes
            (is_admissible db)
            c.amount_minor
            c.destination_account_id
            d.credit_entry_id
            d.started_at)
          (update
            (is_balance c.source_account_id)
            (moved (-ℤ c.amount_minor) d.debit_entry_id d.started_at)
            bs)
        ≡ true
      → IsForeign db
      → IsAllowed (Posting.post d n db)
unfolding Posting.post
post-IsAllowed d n db positive differ debits credits foreign =
    elim (Bool-cases (any (Posting.clashes (Posting.transaction_row d n)) db.transactions)) [
      | inl taken ↦ ground arith
      | inr new ↦
          let none_yet : select (of_transaction d.transaction_id) db.entries ≡ [] =
            no-entries d.transaction_id db.transactions db.entries
              (any-clashes (Posting.transaction_row d n) db.transactions new) foreign in
          ground (
            arith,
            pair-balanced n.command.amount_minor,
            signed-debit d n positive,
            signed-credit d n positive,
          )
    ]
