-- ===== src/Simulation/Achieves.antt =====
-- What achieves a node of an attack tree, and the children of a node that combines others.
use bantam_bank.Prelude.{
  ◌≤◌, ◌≡◌, ◌≢◌, inl, inr, sym, ap, subst, arith, ◌∙◌, Bool-cases, Option-cases, some, List, [],
  ◌∷◌, length,
}
use bantam_bank.Prelude.Members.{In}
use bantam_bank.Prelude.Text.{Text, ◌==ₜ◌, ==ₜ_iff}
use bantam_bank.AttackTree.{AttackTree, AttackNode, Operator, children}
use bantam_bank.AttackTree.Accepted.{IsAttackTree}
use bantam_bank.Simulation.{node_of}

-- The leaves for which `P` holds achieve the node: it is such a leaf, or an AND node all of whose
-- children they achieve, or an OR node one of whose children they achieve.
pub data Achieves (t : AttackTree) (P : Text → Type 0) : Text → Type 0 where
  by_leaf :
      {id : Text} (n : AttackNode)
      → node_of t.nodes id ≡ some n
      → n.operator ≡ Operator.leaf
      → P id
      → Achieves t P id
  by_all :
      {id : Text} (n : AttackNode)
      → node_of t.nodes id ≡ some n
      → n.operator ≡ Operator.all_of
      → ((c : Text) → In c (children t.edges id) → Achieves t P c)
      → Achieves t P id
  by_one :
      {id : Text} (n : AttackNode) (c : Text)
      → node_of t.nodes id ≡ some n
      → n.operator ≡ Operator.any_of
      → In c (children t.edges id)
      → Achieves t P c
      → Achieves t P id

pub Achieves-mono :
    (t : AttackTree) (P Q : Text → Type 0) (id : Text)
    → ((x : Text) → P x → Q x)
    → Achieves t P id
    → Achieves t Q id
Achieves-mono t P Q id f (by_leaf n e op p) = by_leaf n e op (f id p)
Achieves-mono t P Q id f (by_all n e op h) = by_all n e op (λ c i. Achieves-mono t P Q c f (h c i))
Achieves-mono t P Q id f (by_one n c e op i h) = by_one n c e op i (Achieves-mono t P Q c f h)

node_of-In :
    (nodes : List AttackNode) (id : Text) (m : AttackNode)
    → node_of nodes id ≡ some m
    → In m nodes × (m.attack_node_id ≡ id)
node_of-In [] id m e = absurd (ground (arith, e))
node_of-In (n ∷ nodes) id m e = elim (Option-cases (node_of nodes id)) [
  | inr (later, found) ↦
      let (i, own) = node_of-In nodes id m (ground (arith, found, e)) in (inr i, own)
  | inl missing ↦ elim (Bool-cases (n.attack_node_id ==ₜ id)) [
    | inr other ↦ absurd (ground (arith, missing, other, e))
    | inl own ↦
        let same : n ≡ m = ground (arith, missing, own, e) in
        (
          inl (sym same),
          ap (λ k. k.attack_node_id) (sym same) ∙ (==ₜ_iff n.attack_node_id id).0 own,
        )
  ]
]

-- A node that combines others has some.
pub children-ne-nil :
    (t : AttackTree) (id : Text) (m : AttackNode)
    → IsAttackTree t
    → node_of t.nodes id ≡ some m
    → m.operator ≢ Operator.leaf
    → children t.edges id ≢ []
children-ne-nil t id m valid found op none_there =
    let (i, own) = node_of-In t.nodes id m found in
    let two = subst (λ x. 2 ≤ length (children t.edges x)) own (valid.inner m i op).0 in
    omega (arith, two, ap (λ (xs : List Text). length xs) none_there)
