-- ===== src/Prelude/Members.antt =====
-- Members of a list, and what searches, counts and updates say of them.
use bantam_bank.Prelude.Tests.{Bool-cases}
use bantam_bank.Prelude.Lists.{all, any, count, find?, update}
use Prim.Native.Nat.{◌≤◌}
use mathlib.Core.Path.{◌≡◌, refl, sym, ap, subst, ◌∙◌}
use mathlib.Core.Logic.{◌⊎◌, inl, inr}
use mathlib.Core.Bool.{Bool, true, false}
use mathlib.Core.Option.{some}
use mathlib.Core.List.{List, [], ◌∷◌, ◌++◌}
use native.Mathlib.Omega.{arith}

-- Membership.
abbrev pub In : {A : Type 0} → A → List A → Type 0
In a [] = ⊥
In a (x ∷ xs) = (a ≡ x) ⊎ In a xs

pub all-elim :
    {A : Type 0} (p : A → Bool) (xs : List A) (x : A) → all p xs ≡ true → In x xs → p x ≡ true
all-elim p [] x h i = absurd i
all-elim p (y ∷ ys) x h (inl e) = rw e (ground arith)
all-elim p (y ∷ ys) x h (inr i) = all-elim p ys x (ground arith) i

pub all-intro :
    {A : Type 0} (p : A → Bool) (xs : List A) → ((x : A) → In x xs → p x ≡ true) → all p xs ≡ true
all-intro p [] h = refl
all-intro p (y ∷ ys) h = rw (h y (inl refl)) (all-intro p ys (λ x i. h x (inr i)))

pub In-count :
    {A : Type 0} (p : A → Bool) (xs : List A) (a : A) → In a xs → p a ≡ true → 1 ≤ count p xs
In-count p [] a i e = absurd i
In-count p (x ∷ xs) a (inl same) e =
    let here = subst (λ z. p z ≡ true) same e in rw here (omega arith)
In-count p (x ∷ xs) a (inr i) e = omega (arith, In-count p xs a i e)

-- Where one element at most passes, two that pass are one.
pub one_of_count :
    {A : Type 0} (p : A → Bool) (xs : List A) (a b : A)
    → count p xs ≤ 1
    → In a xs
    → In b xs
    → p a ≡ true
    → p b ≡ true
    → a ≡ b
one_of_count p [] a b c i j pa pb = absurd i
one_of_count p (x ∷ xs) a b c (inl e) (inl f) pa pb = e ∙ sym f
one_of_count p (x ∷ xs) a b c (inl e) (inr j) pa pb =
    let here = subst (λ z. p z ≡ true) e pa in absurd (ground (arith, In-count p xs b j pb, here))
one_of_count p (x ∷ xs) a b c (inr i) (inl f) pa pb =
    let here = subst (λ z. p z ≡ true) f pb in absurd (ground (arith, In-count p xs a i pa, here))
one_of_count p (x ∷ xs) a b c (inr i) (inr j) pa pb = one_of_count p xs a b (ground arith) i j pa pb

pub find?-In :
    {A : Type 0} (p : A → Bool) (nodes : List A) (n : A)
    → find? p nodes ≡ some n
    → In n nodes × (p n ≡ true)
find?-In p [] n e = absurd (ground arith)
find?-In p (m ∷ nodes) n e = elim (Bool-cases (p m)) [
  | inl here ↦
      let same : m ≡ n = ground (arith, here, e) in
      (inl (sym same), subst (λ k. p k ≡ true) same here)
  | inr later ↦ let (i, q) = find?-In p nodes n (ground (arith, later, e)) in (inr i, q)
]

pub In-append : {A : Type 0} (x : A) (xs ys : List A) → In x (xs ++ ys) → In x xs ⊎ In x ys
In-append x [] ys i = inr i
In-append x (y ∷ xs) ys (inl e) = inl (inl e)
In-append x (y ∷ xs) ys (inr i) = elim (In-append x xs ys i) [
  | inl left ↦ inl (inr left)
  | inr right ↦ inr right
]

pub append_left : {A : Type 0} (x : A) (xs ys : List A) → In x xs → In x (xs ++ ys)
append_left x [] ys i = absurd i
append_left x (y ∷ xs) ys (inl e) = inl e
append_left x (y ∷ xs) ys (inr i) = inr (append_left x xs ys i)

pub append_right : {A : Type 0} (x : A) (xs ys : List A) → In x ys → In x (xs ++ ys)
append_right x [] ys i = i
append_right x (y ∷ xs) ys i = inr (append_right x xs ys i)

module _ {A : Type 0} (p : A → Bool) (f : A → A) where
  -- A row after an UPDATE was a row before it.
  pub In-update :
      (xs : List A) (y : A)
      → In y (update p f xs)
      → (x : A) × In x xs × (((p x ≡ true) × (y ≡ f x)) ⊎ ((p x ≡ false) × (y ≡ x)))
  In-update [] y i = absurd i
  In-update (x ∷ xs) y (inr i) = let (z, j, how) = In-update xs y i in (z, inr j, how)
  In-update (x ∷ xs) y (inl e) = elim (Bool-cases (p x)) [
    | inl hit ↦ (x, inl refl, inl (hit, e ∙ rw hit))
    | inr other ↦ (x, inl refl, inr (other, e ∙ rw other))
  ]

  pub update-hit : (xs : List A) (x : A) → In x xs → p x ≡ true → In (f x) (update p f xs)
  update-hit [] x i h = i
  update-hit (z ∷ xs) x (inl e) h = let here = subst (λ k. p k ≡ true) e h in rw here (inl (ap f e))
  update-hit (z ∷ xs) x (inr i) h = inr (update-hit xs x i h)

  pub update-other : (xs : List A) (x : A) → In x xs → p x ≡ false → In x (update p f xs)
  update-other [] x i h = i
  update-other (z ∷ xs) x (inl e) h = let here = subst (λ k. p k ≡ false) e h in rw here (inl e)
  update-other (z ∷ xs) x (inr i) h = inr (update-other xs x i h)

  -- An UPDATE that keeps a key keeps the number of rows with it.
  pub count-update :
      (q : A → Bool) (xs : List A)
      → ((x : A) → q (f x) ≡ q x)
      → count q (update p f xs) ≡ count q xs
  count-update q [] keeps = refl
  count-update q (x ∷ xs) keeps = ground (arith, keeps x, count-update q xs keeps)

-- Where no row passes a test, none passes a narrower one.
pub count-of_none :
    {A : Type 0} (p q : A → Bool) (xs : List A)
    → ((x : A) → q x ≡ true → p x ≡ true)
    → any p xs ≡ false
    → count q xs ≡ 0
count-of_none p q [] narrow e = refl
count-of_none p q (x ∷ xs) narrow e = ground (arith, narrow x, count-of_none p q xs narrow)

pub any-In :
    {A : Type 0} (p : A → Bool) (xs : List A) → any p xs ≡ true → (x : A) × In x xs × (p x ≡ true)
any-In p [] e = absurd (ground (arith, e))
any-In p (x ∷ xs) e = elim (Bool-cases (p x)) [
  | inl here ↦ (x, inl refl, here)
  | inr later ↦ let (y, i, h) = any-In p xs (ground (arith, later, e)) in (y, inr i, h)
]
