-- ===== src/Prelude/Decimal.antt =====
-- `str` of an `int`: its digits, and how many.
use bantam_bank.Prelude.Tests.{ltb, if◌then◌else◌, Bool-cases}
use bantam_bank.Prelude.Int.{ℤ, pos, negsuc}
use bantam_bank.Prelude.Text.{Text, is_digit}
use bantam_bank.Prelude.Lists.{all, length}
use Prim.Native.Nat.{ℕ, zero, suc, ◌+◌, ◌*◌, ◌/◌, ◌%◌, ◌<◌, ◌≤◌}
use mathlib.Core.Path.{◌≡◌, refl}
use mathlib.Core.Logic.{inl, inr}
use mathlib.Core.Bool.{true}
use mathlib.Core.List.{[], ◌∷◌}
use native.Mathlib.Omega.{arith}

-- The digits of `n`, in front of `rest`. Fuel above `n` is enough: each round divides by ten.
dec_onto : ℕ → ℕ → Text → Text
dec_onto zero n rest = rest
dec_onto (suc f) n rest =
    let more = dec_onto f (n / 10) ((48 + n % 10) ∷ rest) in
    if ltb n 10 then (48 + n) ∷ rest else more

-- `str(n)`, `f"{n}"`
unfoldable pub dec : ℕ → Text
unfolding dec_onto
dec n = dec_onto (suc n) n []

unfoldable pub int_text : ℤ → Text
unfolding dec
int_text (pos n) = dec n
int_text (negsuc n) = b'-' ∷ dec (suc n)

abbrev pub power10 : ℕ → ℕ
power10 zero = 1
power10 (suc k) = 10 * power10 k

-- A number below a power of ten has at most as many digits as the exponent says, or one.
length-dec_onto :
    (f n k : ℕ) (rest : Text)
    → n < f
    → n < power10 (suc k)
    → length (dec_onto f n rest) ≤ suc k + length rest
unfolding dec_onto
length-dec_onto zero n k rest h below = elim h [ ]
length-dec_onto (suc f) n zero rest h below =
    let small : ltb n 10 ≡ true = ground (arith, below) in rw small (omega arith)
length-dec_onto (suc f) n (suc k) rest h below = elim (Bool-cases (ltb n 10)) [
  | inl small ↦ rw small (omega arith)
  | inr large ↦
      let fewer =
        length-dec_onto f (n / 10) k ((48 + n % 10) ∷ rest) (ground (arith, h, large))
          (omega (arith, below)) in
      rw large (omega (arith, fewer))
]

pub length-dec : (n k : ℕ) → n < power10 (suc k) → length (dec n) ≤ suc k
unfolding dec
length-dec n k below = omega (arith, length-dec_onto (suc n) n k [] (omega arith) below)

-- Every character is a digit.
all-dec_onto :
    (f n : ℕ) (rest : Text) → all is_digit rest ≡ true → all is_digit (dec_onto f n rest) ≡ true
unfolding dec_onto is_digit
all-dec_onto zero n rest h = h
all-dec_onto (suc f) n rest h = elim (Bool-cases (ltb n 10)) [
  | inl small ↦ rw small (ground (arith, small, h))
  | inr large ↦ rw large (all-dec_onto f (n / 10) _ (ground (arith, h)))
]

pub all-dec : (n : ℕ) → all is_digit (dec n) ≡ true
unfolding dec
all-dec n = all-dec_onto (suc n) n [] refl

-- There is at least one.
dec_onto-some : (f n : ℕ) (rest : Text) → length rest ≤ length (dec_onto f n rest)
unfolding dec_onto
dec_onto-some zero n rest = omega arith
dec_onto-some (suc f) n rest = elim (Bool-cases (ltb n 10)) [
  | inl small ↦ rw small (omega arith)
  | inr large ↦ rw large (omega (arith, dec_onto-some f (n / 10) ((48 + n % 10) ∷ rest)))
]

pub dec-some : (n : ℕ) → 1 ≤ length (dec n)
unfolding dec dec_onto
dec-some n = elim (Bool-cases (ltb n 10)) [
  | inl small ↦ rw small (omega arith)
  | inr large ↦ rw large (omega (arith, dec_onto-some n (n / 10) ((48 + n % 10) ∷ [])))
]
