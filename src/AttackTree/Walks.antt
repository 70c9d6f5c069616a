-- ===== src/AttackTree/Walks.antt =====
-- Walks along the edges of an attack tree: where every node has at most one parent and the root
-- none, a node is reached in one number of steps only.
use bantam_bank.Prelude.{
  ℕ, zero, suc, ◌≡◌, ◌↔◌, inl, inr, refl, sym, ap, subst, arith, ◌∙◌, Bool-cases, true, List, [],
  ◌∷◌,
}
use bantam_bank.Prelude.Members.{In, one_of_count}
use bantam_bank.Prelude.Text.{Text, ◌==ₜ◌, ==ₜ_iff}
use bantam_bank.AttackTree.{AttackEdge, contains, children, incoming}

pub contains_iff : (xs : List Text) (x : Text) → (contains xs x ≡ true) ↔ In x xs
contains_iff [] x = ground arith
contains_iff (y ∷ ys) x = ground (arith, ==ₜ_iff y x, contains_iff ys x)

-- `u` is a parent of `v`.
abbrev pub IsEdge : List AttackEdge → Text → Text → Type 0
IsEdge es u v = (e : AttackEdge) × In e es × (e.parent ≡ u) × (e.child ≡ v)

IsEdge-later :
    (e : AttackEdge) (es : List AttackEdge) (u v : Text) → IsEdge es u v → IsEdge (e ∷ es) u v
IsEdge-later e es u v (f, i, p, c) = (f, inr i, p, c)

pub IsEdge-children : (es : List AttackEdge) (u v : Text) → In v (children es u) → IsEdge es u v
IsEdge-children [] u v i = absurd i
IsEdge-children (e ∷ es) u v i = elim (Bool-cases (e.parent ==ₜ u)) [
  | inr other ↦ IsEdge-later e es u v (IsEdge-children es u v (rw other at i))
  | inl own ↦
      let j : In v (e.child ∷ children es u) = rw own at i in
      elim j [
        | inl here ↦ (e, inl refl, (==ₜ_iff e.parent u).0 own, sym here)
        | inr later ↦ IsEdge-later e es u v (IsEdge-children es u v later)
      ]
]

pub children-IsEdge : (es : List AttackEdge) (u v : Text) → IsEdge es u v → In v (children es u)
children-IsEdge [] u v (f, i, p, c) = absurd i
children-IsEdge (e ∷ es) u v (f, inl here, p, c) =
    let own : (e.parent ==ₜ u) ≡ true =
      (==ₜ_iff e.parent u).1 (ap (λ g. g.parent) (sym here) ∙ p) in
    rw own (inl (sym c ∙ ap (λ g. g.child) here))
children-IsEdge (e ∷ es) u v (f, inr later, p, c) =
    let below = children-IsEdge es u v (f, later, p, c) in
    elim (Bool-cases (e.parent ==ₜ u)) [ inl own ↦ rw own (inr below) | inr other ↦ rw other below ]

-- A walk of so many steps from the root.
abbrev pub Walk : List AttackEdge → Text → ℕ → Text → Type 0
Walk es root zero v = v ≡ root
Walk es root (suc k) v = (u : Text) × Walk es root k u × IsEdge es u v

-- Every node but the root has one parent, and the root none.
pub record IsForest (es : List AttackEdge) (root : Text) : Type 0 where
  pub orphan : incoming es root ≡ 0
  pub one_parent : (e : AttackEdge) → In e es → incoming es e.child ≡ 1

module _ (es : List AttackEdge) (root : Text) (forest : IsForest es root) where
  not-IsEdge-root : (u : Text) → ¬ IsEdge es u root
  not-IsEdge-root u (e, i, p, c) =
      let one = forest.one_parent e i in
      let none_here = forest.orphan in ground (arith, one, none_here, ap (λ x. incoming es x) c)

  parents_agree : (u u' v : Text) → IsEdge es u v → IsEdge es u' v → u ≡ u'
  parents_agree u u' v (e, i, p, c) (f, j, q, d) =
      let one : incoming es v ≡ 1 = subst (λ x. incoming es x ≡ 1) c (forest.one_parent e i) in
      let same : e ≡ f =
        one_of_count (λ (g : AttackEdge). g.child ==ₜ v) es e f (omega (arith, one)) i j
          ((==ₜ_iff e.child v).1 c) ((==ₜ_iff f.child v).1 d) in
      sym p ∙ ap (λ g. g.parent) same ∙ q

  pub Walk-steps : (k m : ℕ) (v : Text) → Walk es root k v → Walk es root m v → k ≡ m
  Walk-steps zero zero v w w' = refl
  Walk-steps zero (suc m) v w (u, w', e) = absurd (not-IsEdge-root u (subst (IsEdge es u) w e))
  Walk-steps (suc k) zero v (u, w, e) w' = absurd (not-IsEdge-root u (subst (IsEdge es u) w' e))
  Walk-steps (suc k) (suc m) v (u, w, e) (u', w', e') =
      ap suc (Walk-steps k m u w (subst (Walk es root m) (sym (parents_agree u u' v e e')) w'))
