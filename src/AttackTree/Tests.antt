-- ===== src/AttackTree/Tests.antt =====
-- A goal with two ways to it, of which one needs two actions; and the same nodes in a circle.
use bantam_bank.Prelude.{◌≡◌, ◌↔◌, refl, true, false, [], ◌∷◌}
use bantam_bank.Prelude.Text.{Text, codes}
use bantam_bank.AttackTree
use bantam_bank.AttackTree.{AttackTree, AttackNode, AttackEdge, Kind, Operator}
use bantam_bank.AttackTree.Accepted.{IsAttackTree}
use bantam_bank.AttackTree.Decides.{valid-IsAttackTree}

abbrev node : Text → Kind → Operator → AttackNode
node id kind operator = record { attack_node_id = id; kind = kind; operator = operator }

abbrev edge : Text → Text → AttackEdge
edge parent child = record { parent = parent; child = child }

abbrev pub theft : AttackTree
theft = record {
  root = codes "a";
  nodes =
      node (codes "a") Kind.goal Operator.any_of
      ∷ node (codes "b") Kind.subgoal Operator.all_of
      ∷ node (codes "c") Kind.action Operator.leaf
      ∷ node (codes "d") Kind.action Operator.leaf
      ∷ node (codes "e") Kind.action Operator.leaf
      ∷ [];
  edges =
      edge (codes "a") (codes "b")
      ∷ edge (codes "a") (codes "c")
      ∷ edge (codes "b") (codes "d")
      ∷ edge (codes "b") (codes "e")
      ∷ [];
}

pub theft_valid : AttackTree.attack_tree_structure_is_valid theft ≡ true
unfolding AttackTree.attack_tree_structure_is_valid
theft_valid = refl

circle_refused :
    AttackTree.attack_tree_structure_is_valid
      (record theft { edges = edge (codes "e") (codes "b") ∷ theft.edges })
    ≡ false
unfolding AttackTree.attack_tree_structure_is_valid
circle_refused = refl

valid-IsAttackTree_example :
    (AttackTree.attack_tree_structure_is_valid theft ≡ true) ↔ IsAttackTree theft
valid-IsAttackTree_example = valid-IsAttackTree theft
