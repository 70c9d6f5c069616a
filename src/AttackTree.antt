-- ===== src/AttackTree.antt =====
-- bantam/repository_graph.py: attack_tree_structure_is_valid, which accepts the attack trees of a
-- model's answer (bantam/attack_simulation.py accepts its scenarios by it too). A dict or a set of
-- texts is the list of its members; the answer does not depend on their order.
use bantam_bank.Prelude.{
  ℕ, zero, suc, ltb, leb, ◌==◌, not, ◌&&◌, ◌||◌, all, count, find?, map, length, Bool, true, false,
  Option, none, some, List, [], ◌∷◌, if◌then◌else◌,
}
use bantam_bank.Prelude.Text.{Text, ◌==ₜ◌}
pub mod Walks
pub mod Visits
pub mod Accepted
pub mod Decides
pub mod Tests

pub data Kind : Type 0 where
  goal subgoal action : Kind

pub data Operator : Type 0 where
  all_of any_of leaf : Operator

-- `AttackTreeNode`, by the fields that the structure depends on.
pub record AttackNode : Type 0 where
  pub attack_node_id : Text
  pub kind : Kind
  pub operator : Operator

pub record AttackEdge : Type 0 where
  pub parent : Text
  pub child : Text

pub record AttackTree : Type 0 where
  pub root : Text
  pub nodes : List AttackNode
  pub edges : List AttackEdge

abbrev pub max_depth : ℕ
max_depth = 6

abbrev pub contains : List Text → Text → Bool
contains [] id = false
contains (x ∷ xs) id = (x ==ₜ id) || contains xs id

abbrev pub node_ids : List AttackNode → List Text
node_ids nodes = map (λ n. n.attack_node_id) nodes

-- `len(attack_nodes) == len(tree.nodes)`: no two nodes have one identifier.
abbrev pub distinct_ids : List Text → Bool
distinct_ids [] = true
distinct_ids (x ∷ xs) = not (contains xs x) && distinct_ids xs

abbrev pub same_edge : AttackEdge → AttackEdge → Bool
same_edge e f = (e.parent ==ₜ f.parent) && (e.child ==ₜ f.child)

-- `len(edge_pairs) == len(tree.edges)`
abbrev pub distinct_edges : List AttackEdge → Bool
distinct_edges [] = true
distinct_edges (e ∷ es) = all (λ f. not (same_edge e f)) es && distinct_edges es

-- `children[id]`
abbrev pub children : List AttackEdge → Text → List Text
children [] id = []
children (e ∷ es) id = let rest = children es id in if e.parent ==ₜ id then e.child ∷ rest else rest

-- `incoming[id]`
abbrev pub incoming : List AttackEdge → Text → ℕ
incoming es id = count (λ e. e.child ==ₜ id) es

abbrev pub is_goal : Kind → Bool
is_goal Kind.goal = true
is_goal _ = false

abbrev pub is_action : Kind → Bool
is_action Kind.action = true
is_action _ = false

-- The root is a node, and the goal.
abbrev pub root_is_goal : AttackTree → Bool
root_is_goal t = elim (find? (λ n. n.attack_node_id ==ₜ t.root) t.nodes) [
  | none ↦ false
  | some n ↦ is_goal n.kind
]

abbrev pub is_only_goal : Text → AttackNode → Bool
is_only_goal root n = not (is_goal n.kind) || (n.attack_node_id ==ₜ root)

-- The test of one pair of identifiers.
abbrev pub joins_nodes : List Text → AttackEdge → Bool
joins_nodes ids e = contains ids e.parent && contains ids e.child && not (e.parent ==ₜ e.child)

abbrev pub has_one_parent : AttackTree → Text → Bool
has_one_parent t id = (id ==ₜ t.root) || (incoming t.edges id == 1)

-- A leaf is an action with no children; every other node has two and is no action.
abbrev pub is_well_shaped : List AttackEdge → AttackNode → Bool
is_well_shaped es n = elim n.operator [
  | Operator.leaf ↦ (length (children es n.attack_node_id) == 0) && is_action n.kind
  | _ ↦ leb 2 (length (children es n.attack_node_id)) && not (is_action n.kind)
]

-- `any(not visit(child_id, ...))` over the children, with the visited set handed on: the set
-- afterwards, or none where a child's visit returns False.
pub each_child :
    (Text → List Text → Option (List Text)) → List Text → List Text → Option (List Text)
each_child visit_child [] visited = some visited
each_child visit_child (c ∷ cs) visited = elim (visit_child c visited) [
  | none ↦ none
  | some grown ↦ each_child visit_child cs grown
]

abbrev pub mark : Text → Option (List Text) → Option (List Text)
mark id none = none
mark id (some visited) = some (id ∷ visited)

-- `visit`, with the number of depths that are left: none of them is left where the depth is above
-- the limit. A successful visit leaves `visiting` as it was.
pub visit : List AttackEdge → ℕ → List Text → Text → List Text → Option (List Text)
unfolding each_child
visit es zero visiting id visited = none
visit es (suc depths) visiting id visited =
    let below = each_child (visit es depths (id ∷ visiting)) (children es id) visited in
    if contains visiting id
    then none
    else if contains visited id
    then some visited
    else mark id below

-- The visit of the root, at depth 1, and the comparison of the visited set with the nodes.
pub visits_all : AttackTree → Bool
unfolding visit
visits_all t = elim (visit t.edges max_depth [] t.root []) [
  | none ↦ false
  | some visited ↦
      all (contains visited) (node_ids t.nodes) && all (contains (node_ids t.nodes)) visited
]

unfoldable pub attack_tree_structure_is_valid : AttackTree → Bool
unfolding visits_all
attack_tree_structure_is_valid t =
    distinct_ids (node_ids t.nodes)
    && root_is_goal t
    && all (is_only_goal t.root) t.nodes
    && distinct_edges t.edges
    && all (joins_nodes (node_ids t.nodes)) t.edges
    && (incoming t.edges t.root == 0)
    && all (has_one_parent t) (node_ids t.nodes)
    && all (is_well_shaped t.edges) t.nodes
    && visits_all t
