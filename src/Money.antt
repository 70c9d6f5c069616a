-- ===== src/Money.antt =====
-- bantam/money.py: the balance check of a set of postings.
use bantam_bank.Prelude.{ℤ, pos, ◌+ℤ◌, ◌==ℤ◌, Bool, List, [], ◌∷◌}

-- Python's `sum`.
abbrev pub sum : List ℤ → ℤ
sum [] = pos 0
sum (x ∷ xs) = x +ℤ sum xs

-- `balanced(*entries)`
unfoldable pub balanced : List ℤ → Bool
balanced entries = sum entries ==ℤ pos 0
