-- ===== src/Ledger/Keys.antt =====
-- At most one balance row to an account (the primary key), and the total of the balances.
use bantam_bank.Prelude.{
  ◌≤◌, ◌≡◌, ◌∙◌, ap, refl, ℤ, -ℤ◌, ◌+ℤ◌, int_laws, Bool, find?, update, count, some, List, [], ◌∷◌,
  map, arith, Bool-cases, inl, inr,
}
use bantam_bank.Domain.{Uuid, Time}
use bantam_bank.Db.{Balance}
use bantam_bank.Money.{sum}
use bantam_bank.Ledger.Checks.{Draws, Normalised, is_balance}
use bantam_bank.Ledger.Posting.{moved}
use bantam_bank.Ledger.Written.{written_balances}

abbrev pub HasKeys : List Balance → Type 0
HasKeys balances = (id : Uuid) → count (is_balance id) balances ≤ 1

abbrev pub current : Balance → ℤ
current b = b.current_balance_minor

abbrev pub total : List Balance → ℤ
total balances = sum (map current balances)

pub count-moved :
    (id account entry_id : Uuid) (delta : ℤ) (now : Time) (balances : List Balance)
    → count (is_balance id) (update (is_balance account) (moved delta entry_id now) balances)
      ≡ count (is_balance id) balances
count-moved id account entry_id delta now [] = refl
count-moved id account entry_id delta now (b ∷ bs) =
    ground (arith, count-moved id account entry_id delta now bs)

pub count-written_balances :
    (d : Draws) (n : Normalised) (id : Uuid) (balances : List Balance)
    → count (is_balance id) (written_balances d n balances) ≡ count (is_balance id) balances
count-written_balances d n id balances = count-moved id _ _ _ _ _ ∙ count-moved id _ _ _ _ balances

pub find?-count :
    {A : Type 0} (p : A → Bool) (xs : List A) (a : A) → find? p xs ≡ some a → 1 ≤ count p xs
find?-count p [] a e = cc
find?-count p (x ∷ xs) a e = ground (arith, find?-count p xs a)

total-moved_none :
    (account entry_id : Uuid) (delta : ℤ) (now : Time) (balances : List Balance)
    → count (is_balance account) balances ≡ 0
    → total (update (is_balance account) (moved delta entry_id now) balances) ≡ total balances
total-moved_none account entry_id delta now [] h = refl
total-moved_none account entry_id delta now (b ∷ bs) h =
    ground (arith, total-moved_none account entry_id delta now bs)

-- An account with one row: the total moves by what the account moves.
pub total-moved :
    (account entry_id : Uuid) (delta : ℤ) (now : Time) (balances : List Balance)
    → count (is_balance account) balances ≡ 1
    → total (update (is_balance account) (moved delta entry_id now) balances)
      ≡ total balances +ℤ delta
total-moved account entry_id delta now [] h = absurd (omega arith)
total-moved account entry_id delta now (b ∷ bs) h = elim (Bool-cases (is_balance account b)) [
  | inl here ↦
      let rest : count (is_balance account) bs ≡ 0 = ground arith in
      rw here (rw (total-moved_none account entry_id delta now bs rest) (omega int_laws))
  | inr other ↦
      let rest : count (is_balance account) bs ≡ 1 = ground arith in
      rw other (rw (total-moved account entry_id delta now bs rest) (omega int_laws))
]

-- What leaves the source arrives at the destination.
pub total-written_balances :
    (d : Draws) (n : Normalised) (balances : List Balance)
    → count (is_balance n.command.source_account_id) balances ≡ 1
    → count (is_balance n.command.destination_account_id) balances ≡ 1
    → total (written_balances d n balances) ≡ total balances
total-written_balances d n balances one_source one_destination =
    let c = n.command in
    let debited : List Balance =
      update (is_balance c.source_account_id)
        (moved (-ℤ c.amount_minor) d.debit_entry_id d.started_at) balances in
    let still : count (is_balance c.destination_account_id) debited ≡ 1 =
      count-moved c.destination_account_id c.source_account_id _ _ _ balances ∙ one_destination in
    total-moved c.destination_account_id d.credit_entry_id c.amount_minor d.started_at debited still
    ∙ ap (λ t. t +ℤ c.amount_minor)
        (total-moved c.source_account_id d.debit_entry_id (-ℤ c.amount_minor) d.started_at balances
          one_source)
    ∙ omega int_laws
