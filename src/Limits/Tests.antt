-- ===== src/Limits/Tests.antt =====
-- The limits on a few requests: three attempts of one key and one of another, and a body in chunks.
use bantam_bank.Prelude.{
  ℕ, ◌≤◌, ◌<◌, ◌≡◌, ◌↔◌, refl, arith, ℤ, none, Option, List, [], ◌∷◌, count, false, true, length,
}
use bantam_bank.Prelude.Text.{Text}
use bantam_bank.Limits
use bantam_bank.Limits.{Limiter, Limits, Check}
use bantam_bank.Limits.Window
use bantam_bank.Limits.Window.{min, has_hash, check_window}
use bantam_bank.Limits.Body
use bantam_bank.Limits.Body.{Message, Handled, Arrives, too_large, limit_body-Arrives}

abbrev limiter : Limiter
limiter = record { sha256 = λ key. key; limit = 2; window_seconds = 60 }

abbrev attempt : ℕ → ℕ → Check
attempt key now = record { key = key ∷ []; now = now; swept_at = now }

abbrev further : List Check
further = attempt 7 20 ∷ attempt 8 30 ∷ attempt 7 40 ∷ []

abbrev fresh : Limits
fresh = record { rows = []; checks = 0 }

check_window_example :
    Window.allowed limiter (7 ∷ []) (attempt 7 10 ∷ further) fresh
    ≡ min (count (has_hash limiter (7 ∷ [])) (attempt 7 10 ∷ further)) 2
check_window_example =
    check_window limiter (attempt 7 10) further fresh (λ r found. absurd (ground arith))
      (omega arith) (omega arith)

two_allowed : Window.allowed limiter (7 ∷ []) (attempt 7 10 ∷ further) fresh ≡ 2
unfolding Window.allowed Limits.check Limits.upsert Limits.sweep Limits.verdict
two_allowed = refl

abbrev chunks : List Message
chunks = Message.request (1 ∷ 2 ∷ []) true ∷ Message.other ∷ Message.request (3 ∷ []) false ∷ []

abbrev no_number : Text → Option ℤ
no_number text = none

undeclared : Body.declared_problem no_number 4 none ≡ none
unfolding Body.declared_problem
undeclared = refl

limit_body-Arrives_example :
    ((body : Text)
      → (Body.limit_body no_number 4 none chunks ≡ Handled.delivered body)
        ↔ (Arrives chunks body × (length body ≤ 4)))
    × ((body : Text)
        → Arrives chunks body
        → 4 < length body
        → Body.limit_body no_number 4 none chunks ≡ too_large)
limit_body-Arrives_example = limit_body-Arrives no_number 4 none chunks undeclared
