-- ===== src/AttackTree/Accepted.antt =====
-- What an accepted attack tree is.
use bantam_bank.Prelude.{
  ◌≤◌, ◌≡◌, ◌≢◌, ◌↔◌, ◌&&◌, inl, inr, ap, arith, all, length, not, Bool, true, List, [], ◌∷◌,
}
use bantam_bank.Prelude.Members.{In}
use bantam_bank.Prelude.Text.{Text, ==ₜ_iff}
use bantam_bank.AttackTree.{
  AttackTree, AttackNode, AttackEdge, Kind, Operator, node_ids, children, incoming, is_well_shaped,
  distinct_ids, distinct_edges, same_edge,
}
use bantam_bank.AttackTree.Walks.{contains_iff}
use bantam_bank.AttackTree.Visits.{IsReached}

abbrev pub Distinct : {A : Type 0} → List A → Type 0
Distinct [] = Unit
Distinct (x ∷ xs) = (¬ In x xs) × Distinct xs

-- Distinct nodes, one of them the goal and the root; distinct edges between different nodes; one
-- parent for each other node and none for the root; leaves are actions, and other nodes have two
-- children; and every node is reached from the root in five steps or fewer.
pub record IsAttackTree (t : AttackTree) : Type 0 where
  pub nodes_differ : Distinct (node_ids t.nodes)
  pub goal : (n : AttackNode) × In n t.nodes × (n.attack_node_id ≡ t.root) × (n.kind ≡ Kind.goal)
  pub only_goal : (n : AttackNode) → In n t.nodes → n.kind ≡ Kind.goal → n.attack_node_id ≡ t.root
  pub edges_differ : Distinct t.edges
  pub joins :
      (e : AttackEdge)
      → In e t.edges
      → In e.parent (node_ids t.nodes) × In e.child (node_ids t.nodes) × (e.parent ≢ e.child)
  pub orphan : incoming t.edges t.root ≡ 0
  pub one_parent : (id : Text) → In id (node_ids t.nodes) → id ≢ t.root → incoming t.edges id ≡ 1
  pub leaf :
      (n : AttackNode)
      → In n t.nodes
      → n.operator ≡ Operator.leaf
      → (length (children t.edges n.attack_node_id) ≡ 0) × (n.kind ≡ Kind.action)
  pub inner :
      (n : AttackNode)
      → In n t.nodes
      → n.operator ≢ Operator.leaf
      → (2 ≤ length (children t.edges n.attack_node_id)) × (n.kind ≢ Kind.action)
  pub reached : (id : Text) → In id (node_ids t.nodes) → IsReached t.edges t.root id

pub and-elim : (a b : Bool) → (a && b) ≡ true → (a ≡ true) × (b ≡ true)
and-elim a b h = ground arith

pub distinct_ids_iff : (ids : List Text) → (distinct_ids ids ≡ true) ↔ Distinct ids
distinct_ids_iff [] = ground arith
distinct_ids_iff (x ∷ xs) = ground (arith, contains_iff xs x, distinct_ids_iff xs)

same_edge_iff : (e f : AttackEdge) → (same_edge e f ≡ true) ↔ (e ≡ f)
same_edge_iff e f = ground (arith, ==ₜ_iff e.parent f.parent, ==ₜ_iff e.child f.child)

others_iff :
    (e : AttackEdge) (es : List AttackEdge) → (all (λ f. not (same_edge e f)) es ≡ true) ↔ ¬ In e es
others_iff e [] = ground arith
others_iff e (f ∷ es) = ground (arith, same_edge_iff e f, others_iff e es)

pub distinct_edges_iff : (es : List AttackEdge) → (distinct_edges es ≡ true) ↔ Distinct es
distinct_edges_iff [] = ground arith
distinct_edges_iff (e ∷ es) = ground (arith, others_iff e es, distinct_edges_iff es)

pub In-node_ids :
    (n : AttackNode) (nodes : List AttackNode) → In n nodes → In n.attack_node_id (node_ids nodes)
In-node_ids n [] i = i
In-node_ids n (m ∷ nodes) (inl e) = inl (ap (λ k. k.attack_node_id) e)
In-node_ids n (m ∷ nodes) (inr i) = inr (In-node_ids n nodes i)

pub well_shaped_iff :
    (es : List AttackEdge) (n : AttackNode)
    → (is_well_shaped es n ≡ true) ↔ (
        (n.operator ≡ Operator.leaf
          → (length (children es n.attack_node_id) ≡ 0) × (n.kind ≡ Kind.action))
        × (n.operator ≢ Operator.leaf
            → (2 ≤ length (children es n.attack_node_id)) × (n.kind ≢ Kind.action)))
well_shaped_iff es n = ground arith
