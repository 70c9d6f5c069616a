-- ===== src/AttackTree/Decides.antt =====
-- The check accepts exactly the attack trees.
use bantam_bank.Prelude.{
  ℕ, zero, suc, ◌<◌, ◌≡◌, ◌≢◌, ◌↔◌, inl, inr, refl, sym, ap, subst, arith, all, find?, Bool-cases,
  Option-cases, true, some, List, [], ◌∷◌, ◌∙◌,
}
use bantam_bank.Prelude.Members.{In, In-count, all-elim, all-intro, find?-In}
use bantam_bank.Prelude.Text.{Text, ◌==ₜ◌, ==ₜ_iff}
use bantam_bank.AttackTree
use bantam_bank.AttackTree.{
  AttackTree, AttackNode, AttackEdge, Kind, node_ids, contains, incoming, visit, max_depth,
  is_only_goal, joins_nodes, has_one_parent, is_well_shaped, distinct_ids, distinct_edges,
  root_is_goal, visits_all,
}
use bantam_bank.AttackTree.Walks.{contains_iff, Walk, IsForest, Walk-steps}
use bantam_bank.AttackTree.Visits.{IsReached, visit-AllReached, visit_returns, Walk-IsClosed}
use bantam_bank.AttackTree.Accepted.{
  Distinct, IsAttackTree, and-elim, distinct_ids_iff, distinct_edges_iff, In-node_ids,
  well_shaped_iff,
}

find_root :
    (root : Text) (n : AttackNode) (nodes : List AttackNode)
    → Distinct (node_ids nodes)
    → In n nodes
    → n.attack_node_id ≡ root
    → find? (λ m. m.attack_node_id ==ₜ root) nodes ≡ some n
find_root root n [] d i e = absurd i
find_root root n (m ∷ nodes) d (inl same) e =
    let own : (m.attack_node_id ==ₜ root) ≡ true =
      (==ₜ_iff m.attack_node_id root).1 (ap (λ k. k.attack_node_id) (sym same) ∙ e) in
    rw own (ap some (sym same))
find_root root n (m ∷ nodes) d (inr i) e = elim (Bool-cases (m.attack_node_id ==ₜ root)) [
  | inr other ↦ rw other (find_root root n nodes d.1 i e)
  | inl own ↦
      let twice : n.attack_node_id ≡ m.attack_node_id =
        e ∙ sym ((==ₜ_iff m.attack_node_id root).0 own) in
      absurd (d.0 (subst (λ x. In x (node_ids nodes)) twice (In-node_ids n nodes i)))
]

-- The tests on the nodes and the edges, without the visit.
abbrev HasShape : AttackTree → Type 0
HasShape t =
    (distinct_ids (node_ids t.nodes) ≡ true)
    × (root_is_goal t ≡ true)
    × (all (is_only_goal t.root) t.nodes ≡ true)
    × (distinct_edges t.edges ≡ true)
    × (all (joins_nodes (node_ids t.nodes)) t.edges ≡ true)
    × (incoming t.edges t.root ≡ 0)
    × (all (has_one_parent t) (node_ids t.nodes) ≡ true)
    × (all (is_well_shaped t.edges) t.nodes ≡ true)

valid_iff :
    (t : AttackTree)
    → (AttackTree.attack_tree_structure_is_valid t ≡ true) ↔ (HasShape t × (visits_all t ≡ true))
unfolding AttackTree.attack_tree_structure_is_valid
valid_iff t = ground arith

root_is_goal_iff :
    (t : AttackTree)
    → Distinct (node_ids t.nodes)
    → (root_is_goal t ≡ true)
      ↔ ((n : AttackNode) × In n t.nodes × (n.attack_node_id ≡ t.root) × (n.kind ≡ Kind.goal))
root_is_goal_iff t d = (there, back)
  where
    there :
        root_is_goal t ≡ true
        → (n : AttackNode) × In n t.nodes × (n.attack_node_id ≡ t.root) × (n.kind ≡ Kind.goal)
    there h = elim (Option-cases (find? (λ m. m.attack_node_id ==ₜ t.root) t.nodes)) [
      | inl missing ↦ absurd (ground (arith, missing, h))
      | inr (n, found) ↦
          let (i, own) = find?-In (λ m. m.attack_node_id ==ₜ t.root) t.nodes n found in
          (n, i, (==ₜ_iff n.attack_node_id t.root).0 own, ground (arith, found, h))
    ]

    back :
        ((n : AttackNode) × In n t.nodes × (n.attack_node_id ≡ t.root) × (n.kind ≡ Kind.goal))
        → root_is_goal t ≡ true
    back (n, i, e, g) = rw (find_root t.root n t.nodes d i e, root_is_goal) (ground (arith, g))

-- Every node but the root has one parent, and the root none.
IsForest-of_parents :
    (t : AttackTree)
    → incoming t.edges t.root ≡ 0
    → ((e : AttackEdge) → In e t.edges → In e.child (node_ids t.nodes))
    → ((id : Text) → In id (node_ids t.nodes) → id ≢ t.root → incoming t.edges id ≡ 1)
    → IsForest t.edges t.root
IsForest-of_parents t orphan joins one_parent = record {
  orphan = orphan;
  one_parent = λ e i. one_parent e.child (joins e i) (λ same.
      let one =
        In-count (λ (f : AttackEdge). f.child ==ₜ t.root) t.edges e i
          ((==ₜ_iff e.child t.root).1 same) in
      absurd (omega (arith, one, orphan)));
}

-- The visit marks all nodes only if it reaches them.
visits_all-IsReached :
    (t : AttackTree)
    → visits_all t ≡ true
    → (id : Text) → In id (node_ids t.nodes)
    → IsReached t.edges t.root id
unfolding visits_all
visits_all-IsReached t h id i = elim (Option-cases (visit t.edges max_depth [] t.root [])) [
  | inl fails ↦ absurd (ground (arith, fails, h))
  | inr (visited, goes) ↦
      let (marked, nodes_only) =
        and-elim (all (contains visited) (node_ids t.nodes))
          (all (contains (node_ids t.nodes)) visited) (rw (goes, visits_all) at h) in
      visit-AllReached t.edges t.root max_depth 0 t.root [] [] visited (omega arith) refl goes
        (λ x j. absurd j) id
        ((contains_iff visited id).0 (all-elim (contains visited) (node_ids t.nodes) id marked i))
]

module _ (t : AttackTree) (h : IsAttackTree t) where
  root_node : In t.root (node_ids t.nodes)
  root_node =
      let (n, i, e, g) = h.goal in subst (λ x. In x (node_ids t.nodes)) e (In-node_ids n t.nodes i)

  walks_to_nodes : (k : ℕ) (x : Text) → Walk t.edges t.root k x → In x (node_ids t.nodes)
  walks_to_nodes zero x w = subst (λ y. In y (node_ids t.nodes)) (sym w) root_node
  walks_to_nodes (suc k) x (u, w, (e, i, p, c)) =
      subst (λ y. In y (node_ids t.nodes)) c (h.joins e i).1

  forest : IsForest t.edges t.root
  forest = IsForest-of_parents t h.orphan (λ e i. (h.joins e i).1) h.one_parent

  -- No walk from the root has six steps.
  pub walks_short : (k : ℕ) (x : Text) → Walk t.edges t.root k x → k < max_depth
  walks_short k x w =
      let (j, short, w') = h.reached x (walks_to_nodes k x w) in
      omega (arith, short, Walk-steps t.edges t.root forest k j x w w')

  IsAttackTree-visits_all : visits_all t ≡ true
  unfolding visits_all
  IsAttackTree-visits_all =
      let ids = node_ids t.nodes in
      let (visited, goes, closed, at_root, grown) =
        visit_returns t.edges t.root forest walks_short max_depth 0 t.root [] [] (omega arith) refl
          (λ x i. absurd i) (λ x c i j. absurd i) in
      let marked : all (contains visited) ids ≡ true = all-intro (contains visited) ids (λ id i.
        let (k, short, w) = h.reached id i in
        (contains_iff visited id).1 (Walk-IsClosed t.edges t.root visited k id closed at_root w)) in
      let nodes_only : all (contains ids) visited ≡ true = all-intro (contains ids) visited (λ id i.
        let (k, short, w) =
          visit-AllReached t.edges t.root max_depth 0 t.root [] [] visited (omega arith) refl goes
            (λ x j. absurd j) id i in
        (contains_iff ids id).1 (walks_to_nodes k id w)) in
      rw (goes, visits_all) (ground (arith, marked, nodes_only))

  IsAttackTree-HasShape : HasShape t
  IsAttackTree-HasShape =
      let ids = node_ids t.nodes in
      (
        (distinct_ids_iff ids).1 h.nodes_differ,
        (root_is_goal_iff t h.nodes_differ).1 h.goal,
        all-intro (is_only_goal t.root) t.nodes
            (λ n i. ground (arith, h.only_goal n i, ==ₜ_iff n.attack_node_id t.root)),
        (distinct_edges_iff t.edges).1 h.edges_differ,
        all-intro (joins_nodes ids) t.edges (λ e i. ground (
          arith,
          h.joins e i,
          contains_iff ids e.parent,
          contains_iff ids e.child,
          ==ₜ_iff e.parent e.child,
        )),
        h.orphan,
        all-intro (has_one_parent t) ids
            (λ id i. ground (arith, h.one_parent id i, ==ₜ_iff id t.root)),
        all-intro (is_well_shaped t.edges) t.nodes
            (λ n i. (well_shaped_iff t.edges n).1 (h.leaf n i, h.inner n i)),
      )

IsAttackTree-of_tests : (t : AttackTree) → HasShape t → visits_all t ≡ true → IsAttackTree t
IsAttackTree-of_tests t (ids_differ, root_goal, one_goal, differ, joined, orphan, parents, shaped)
      visited =
    let ids = node_ids t.nodes in
    let apart = (distinct_ids_iff ids).0 ids_differ in
    record {
      nodes_differ = apart;
      goal = (root_is_goal_iff t apart).0 root_goal;
      only_goal = λ n i g. ground (
        arith,
        all-elim (is_only_goal t.root) t.nodes n one_goal i,
        ==ₜ_iff n.attack_node_id t.root,
      );
      edges_differ = (distinct_edges_iff t.edges).0 differ;
      joins = λ e i. ground (
        arith,
        all-elim (joins_nodes ids) t.edges e joined i,
        contains_iff ids e.parent,
        contains_iff ids e.child,
        ==ₜ_iff e.parent e.child,
      );
      orphan = orphan;
      one_parent = λ id i other.
          ground (arith, all-elim (has_one_parent t) ids id parents i, ==ₜ_iff id t.root);
      leaf = λ n i.
          ((well_shaped_iff t.edges n).0 (all-elim (is_well_shaped t.edges) t.nodes n shaped i)).0;
      inner = λ n i.
          ((well_shaped_iff t.edges n).0 (all-elim (is_well_shaped t.edges) t.nodes n shaped i)).1;
      reached = visits_all-IsReached t visited;
    }

-- attack_tree_structure_is_valid accepts a tree exactly when its nodes differ, the root is a node
-- and the only goal, its edges differ and join different nodes, the root has no parent and every
-- other node one, leaves are actions without children, every other node has two children or more
-- and is no action, and every node is reached from the root in at most five steps.
pub valid-IsAttackTree :
    (t : AttackTree) → (AttackTree.attack_tree_structure_is_valid t ≡ true) ↔ IsAttackTree t
valid-IsAttackTree t = (
  (λ h. let (shape, visited) = (valid_iff t).0 h in IsAttackTree-of_tests t shape visited),
  (λ h. (valid_iff t).1 (IsAttackTree-HasShape t h, IsAttackTree-visits_all t h)),
)
