-- ===== src/Ledger/Report.antt =====
-- bantam/ledger.py: what `reconcile` reports of each account.
use bantam_bank.Prelude.{◌≡◌, ◌≢◌, ◌↔◌, ◌+ℤ◌, ℤ, pos, true, false, List, [], ◌∷◌}
use bantam_bank.Domain.{Uuid}
use bantam_bank.Db.{Db, Balance, Entry, fits_bigint}
use bantam_bank.Ledger.Transfer
use bantam_bank.Ledger.Transfer.{Reconciled}

-- The amounts of the account's entries, and of no others, add up to the number.
pub data Sums (id : Uuid) : List Entry → ℤ → Type 0 where
  no_entry : Sums id [] (pos 0)
  own :
      (e : Entry) (es : List Entry) (x : ℤ)
      → e.account_id ≡ id
      → Sums id es x
      → Sums id (e ∷ es) (e.amount_minor +ℤ x)
  other :
      (e : Entry) (es : List Entry) (x : ℤ) → e.account_id ≢ id → Sums id es x → Sums id (e ∷ es) x

-- What is reported of a row of balances: its account and current balance, the sum of the account's
-- entries, which a BIGINT holds, and whether the two are equal.
pub record IsReportOf (db : Db) (b : Balance) (r : Reconciled) : Type 0 where
  pub account : r.account_id ≡ b.account_id
  pub projected : r.projected_balance_minor ≡ b.current_balance_minor
  pub sum : Sums b.account_id db.entries r.authoritative_balance_minor
  pub in_range : fits_bigint r.authoritative_balance_minor ≡ true
  pub matches : (r.matches ≡ true) ↔ (b.current_balance_minor ≡ r.authoritative_balance_minor)

-- One report to each row of balances.
abbrev pub Reports : Db → List Balance → List Reconciled → Type 0
Reports db [] [] = Unit {0}
Reports db [] (r ∷ rs) = ⊥
Reports db (b ∷ bs) [] = ⊥
Reports db (b ∷ bs) (r ∷ rs) = IsReportOf db b r × Reports db bs rs

-- An account whose entries add up to more than a BIGINT holds.
abbrev pub IsTooLarge : Db → Balance → Type 0
IsTooLarge db b = (x : ℤ) × Sums b.account_id db.entries x × (fits_bigint x ≡ false)
