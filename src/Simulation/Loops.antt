-- ===== src/Simulation/Loops.antt =====
-- The loops of an attempt: what a success says of the children, and when it comes about.
use bantam_bank.Prelude.{
  ℕ, ◌≡◌, ◌≢◌, ◌⊎◌, inl, inr, refl, sym, ap, subst, arith, Bool-cases, true, false, List, [], ◌∷◌,
  ◌++◌,
}
use bantam_bank.Prelude.Members.{In, In-append, append_left, append_right}
use bantam_bank.Prelude.Text.{Text}
use bantam_bank.Simulation.{Tried, every_child, first_child, is_empty}

module _ {S : Type 0} (try : Text → S → (Text → ℕ) → Tried S) where
  -- A try of the child succeeded, with a path that the whole path holds.
  abbrev pub Succeeds : List Text → Text → Type 0
  Succeeds path c =
      (s : S) × (n : Text → ℕ) × ((try c s n).succeeded ≡ true)
      × ((x : Text) → In x (try c s n).path → In x path)

  -- Every try of the child succeeds, with a path that is not empty.
  abbrev pub Always : Text → Type 0
  Always c =
      (s : S) (n : Text → ℕ) → ((try c s n).succeeded ≡ true) × (is_empty (try c s n).path ≡ false)

  pub every_child-Succeeds :
      (cs satisfied : List Text) (s : S) (n : Text → ℕ)
      → (every_child try cs satisfied s n).succeeded ≡ true
      → let path = (every_child try cs satisfied s n).path in
        ((x : Text) → In x satisfied → In x path)
        × ((c : Text) → In c cs → Succeeds path c)
        × (is_empty path ≡ false)
  unfolding every_child
  every_child-Succeeds [] satisfied s n e = ((λ x i. i), (λ c i. absurd i), ground arith)
  every_child-Succeeds (c ∷ cs) satisfied s n e =
      let r = try c s n in
      elim (Bool-cases r.succeeded) [
        | inr fails ↦ absurd (ground (arith, fails, e))
        | inl goes ↦
            let (kept, others, filled) =
              every_child-Succeeds cs (satisfied ++ r.path) r.sampler r.attempted
                (rw (goes, every_child) at e) in
            rw (goes, every_child)
              (
                (λ x i. kept x (append_left x satisfied r.path i)),
                (λ d i. elim i [
                  | inr later ↦ others d later
                  | inl here ↦
                      subst
                        (Succeeds
                          (every_child try cs (satisfied ++ r.path) r.sampler r.attempted).path)
                        (sym here) (s, n, goes, (λ x i. kept x (append_right x satisfied r.path i)))
                ]),
                filled,
              )
      ]

  -- What all paths of the children have, and the path so far, the whole path has.
  pub every_child-path :
      (Q : Text → Type 0) (cs satisfied : List Text) (s : S) (n : Text → ℕ)
      → ((c : Text) (s : S) (n : Text → ℕ) (x : Text) → In c cs → In x (try c s n).path → Q x)
      → ((x : Text) → In x satisfied → Q x)
      → (x : Text) → In x (every_child try cs satisfied s n).path
      → Q x
  unfolding every_child
  every_child-path Q [] satisfied s n each start x i = start x i
  every_child-path Q (c ∷ cs) satisfied s n each start x i =
      let r = try c s n in
      elim (Bool-cases r.succeeded) [
        | inr fails ↦ let none_here : ⊥ = rw (fails, every_child) at i in absurd none_here
        | inl goes ↦
            every_child-path Q cs (satisfied ++ r.path) r.sampler r.attempted
              (λ d s' n' y j. each d s' n' y (inr j))
              (λ y j. elim (In-append y satisfied r.path j) [
                | inl before ↦ start y before
                | inr now ↦ each c s n y (inl refl) now
              ])
              x (rw (goes, every_child) at i)
      ]

  -- The result of an OR node that fails has no path; one that succeeds is a child's.
  pub first_child-cases :
      (cs : List Text) (s : S) (n : Text → ℕ)
      → let r = first_child try cs s n in
        ((r.succeeded ≡ false) × (r.path ≡ []))
        ⊎ ((c : Text) × In c cs
            × (s' : S) × (n' : Text → ℕ) × (r ≡ try c s' n')
            × ((try c s' n').succeeded ≡ true))
  unfolding first_child
  first_child-cases [] s n = inl (refl, refl)
  first_child-cases (c ∷ cs) s n =
      let r = try c s n in
      elim (Bool-cases r.succeeded) [
        | inl goes ↦ rw (goes, first_child) (inr (c, inl refl, s, n, refl, goes))
        | inr fails ↦
            rw (fails, first_child)
              (elim (first_child-cases cs r.sampler r.attempted) [
                | inl nothing ↦ inl nothing
                | inr (d, i, s', n', same, goes) ↦ inr (d, inr i, s', n', same, goes)
              ])
      ]

  pub every_child_returns :
      (cs satisfied : List Text) (s : S) (n : Text → ℕ)
      → ((c : Text) → In c cs → Always c)
      → (is_empty satisfied ≡ false) ⊎ (cs ≢ [])
      → let r = every_child try cs satisfied s n in (r.succeeded ≡ true) × (is_empty r.path ≡ false)
  unfolding every_child
  every_child_returns [] satisfied s n always (inl filled) = ground (arith, filled)
  every_child_returns [] satisfied s n always (inr some_child) = absurd (some_child refl)
  every_child_returns (c ∷ cs) satisfied s n always filled =
      let r = try c s n in
      let (goes, long) = always c (inl refl) s n in
      rw (goes, every_child)
        (every_child_returns cs (satisfied ++ r.path) r.sampler r.attempted
          (λ d i. always d (inr i)) (inl (longer satisfied r.path long)))
    where
      longer : (xs ys : List Text) → is_empty ys ≡ false → is_empty (xs ++ ys) ≡ false
      longer [] ys e = e
      longer (x ∷ xs) ys e = refl

  pub first_child_returns :
      (cs : List Text) (c : Text) (s : S) (n : Text → ℕ)
      → In c cs
      → Always c
      → (first_child try cs s n).succeeded ≡ true
  unfolding first_child
  first_child_returns [] c s n i always = absurd i
  first_child_returns (d ∷ cs) c s n i always =
      let r = try d s n in
      elim (Bool-cases r.succeeded) [
        | inl goes ↦ rw (goes, first_child) goes
        | inr fails ↦
            rw (fails, first_child)
              (elim i [
                | inr later ↦ first_child_returns cs c r.sampler r.attempted later always
                | inl here ↦
                    let first = always s n in
                    absurd (ground (arith, fails, first.0, ap (λ x. (try x s n).succeeded) here))
              ])
      ]
