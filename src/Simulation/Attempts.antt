-- ===== src/Simulation/Attempts.antt =====
-- An attempt decides the AND/OR formula of an accepted tree.
use bantam_bank.Prelude.{◌≡◌, Bool, true, false}
use bantam_bank.Prelude.Members.{In}
use bantam_bank.Prelude.Text.{Text}
use bantam_bank.AttackTree
use bantam_bank.AttackTree.{AttackTree, node_ids}
use bantam_bank.Simulation
use bantam_bank.Simulation.{Tried, is_empty}
use bantam_bank.Simulation.Loops
use bantam_bank.Simulation.Achieves.{Achieves}

module _ {S P : Type 0} (bernoulli : P → S → Bool × S) (success : Text → P) (t : AttackTree) where
  -- A result that achieves the node by its path, if it is a success.
  abbrev IsGenuine : Text → Tried S → Type 0
  IsGenuine id r = r.succeeded ≡ true → Achieves t (λ x. In x r.path) id × (is_empty r.path ≡ false)
