-- ===== src/Simulation/Tests.antt =====
-- Attempts along a tree of which one branch is an action and the other needs two.
use bantam_bank.Prelude.{ℕ, suc, ◌≡◌, refl, Bool, ◌||◌, [], ◌∷◌}
use bantam_bank.Prelude.Text.{Text, codes, ◌==ₜ◌}
use bantam_bank.AttackTree.Tests.{theft}
use bantam_bank.Simulation
use bantam_bank.Simulation.Achieves.{Achieves}

-- The preferred branch fails at its second action, and the other action hits.
abbrev hits : Text → Bool
hits id = (id ==ₜ codes "c") || (id ==ₜ codes "d")

-- A sampler that counts its draws.
abbrev bernoulli : Bool → ℕ → Bool × ℕ
bernoulli p s = (p, suc s)

fallback : (Simulation.attempt_root bernoulli hits theft 0 (λ id. 0)).path ≡ codes "c" ∷ []
unfolding Simulation.attempt_root
fallback = refl

three_draws : (Simulation.attempt_root bernoulli hits theft 0 (λ id. 0)).sampler ≡ 3
unfolding Simulation.attempt_root
three_draws = refl
