-- ===== src/Simulation.antt =====
-- bantam/attack_simulation.py: one attempt of an attacker along an accepted tree. The sampler, and
-- what it makes of a probability, are parameters.
use bantam_bank.Prelude.{
  ℕ, zero, suc, Bool, true, false, not, Option, none, some, List, [], ◌∷◌, ◌++◌, if◌then◌else◌,
}
use bantam_bank.Prelude.Text.{Text, ◌==ₜ◌}
use bantam_bank.AttackTree.{AttackTree, AttackNode, Operator, children, max_depth}
pub mod Loops
pub mod Achieves
pub mod Attempts
pub mod Tests

-- `{node["attack_node_id"]: node for node in tree["nodes"]}.get(id)`: the last one is kept.
abbrev pub node_of : List AttackNode → Text → Option AttackNode
node_of [] id = none
node_of (n ∷ nodes) id = elim (node_of nodes id) [
  | some later ↦ some later
  | none ↦ if n.attack_node_id ==ₜ id then some n else none
]

-- `attempted[id] += 1`
abbrev pub increment : (Text → ℕ) → Text → Text → ℕ
increment attempted id other = if id ==ₜ other then suc (attempted other) else attempted other

abbrev pub is_empty : List Text → Bool
is_empty [] = true
is_empty (x ∷ xs) = false

-- What an attempt gives: `(succeeded, path)`, and the sampler and the counts afterwards.
pub record Tried (Sampler : Type 0) : Type 0 where
  pub succeeded : Bool
  pub path : List Text
  pub sampler : Sampler
  pub attempted : Text → ℕ

module _ {Sampler : Type 0} where
  -- The loop of an AND node.
  pub every_child :
      (Text → Sampler → (Text → ℕ) → Tried Sampler)
      → List Text
      → (satisfied : List Text) → Sampler
      → (Text → ℕ)
      → Tried Sampler
  every_child try [] satisfied sampler attempted = record {
    succeeded = not (is_empty satisfied);
    path = satisfied;
    sampler = sampler;
    attempted = attempted;
  }
  every_child try (c ∷ cs) satisfied sampler attempted =
      let r = try c sampler attempted in
      elim r.succeeded [
        | true ↦ every_child try cs (satisfied ++ r.path) r.sampler r.attempted
        | false ↦ record r { succeeded = false; path = [] }
      ]

  -- The loop of an OR node.
  pub first_child :
      (Text → Sampler → (Text → ℕ) → Tried Sampler)
      → List Text
      → Sampler
      → (Text → ℕ)
      → Tried Sampler
  first_child try [] sampler attempted = record {
    succeeded = false;
    path = [];
    sampler = sampler;
    attempted = attempted;
  }
  first_child try (c ∷ cs) sampler attempted =
      let r = try c sampler attempted in
      elim r.succeeded [ true ↦ r | false ↦ first_child try cs r.sampler r.attempted ]

  -- A leaf is drawn.
  abbrev pub draw : (Bool × Sampler) → Text → (Text → ℕ) → Tried Sampler
  draw (hit, next) id attempted = record {
    succeeded = hit;
    path = if hit then id ∷ [] else [];
    sampler = next;
    attempted = increment attempted id;
  }

  -- `_attempt`, with the number of depths that are left: none where the depth is above the limit.
  -- `bernoulli` is the sampler's, `success` the effective probability of a node.
  pub attempt :
      {Probability : Type 0} (bernoulli : Probability → Sampler → Bool × Sampler)
      (success : Text → Probability) (tree : AttackTree)
      → ℕ
      → Text
      → Sampler
      → (Text → ℕ)
      → Tried Sampler
  unfolding every_child first_child
  attempt bernoulli success tree zero id sampler attempted = record {
    succeeded = false;
    path = [];
    sampler = sampler;
    attempted = attempted;
  }
  attempt bernoulli success tree (suc depths) id sampler attempted =
      let try_child = attempt bernoulli success tree depths in
      elim (node_of tree.nodes id) [
        | none ↦ record { succeeded = false; path = []; sampler = sampler; attempted = attempted }
        | some n ↦ elim n.operator [
          | Operator.leaf ↦ draw (bernoulli (success id) sampler) id attempted
          | Operator.all_of ↦ every_child try_child (children tree.edges id) [] sampler attempted
          | Operator.any_of ↦ first_child try_child (children tree.edges id) sampler attempted
        ]
      ]

  -- The attempt from the root, at depth 0.
  unfoldable pub attempt_root :
      {Probability : Type 0} (bernoulli : Probability → Sampler → Bool × Sampler)
      (success : Text → Probability) (tree : AttackTree)
      → Sampler
      → (Text → ℕ)
      → Tried Sampler
  unfolding attempt
  attempt_root bernoulli success tree sampler attempted =
      attempt bernoulli success tree (suc max_depth) tree.root sampler attempted
