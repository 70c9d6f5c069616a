-- ===== src/Prelude/Text.antt =====
-- Python's `str` as the list of its code points: equality, `len`, `strip`, `upper` and the decimal
-- text of an `int`.
use Prim.Native.Nat.{ℕ, ◌-◌}
use Prim.Native.Char.{code}
use Prim.Native.String.{String}
use mathlib.Core.Path.{◌≡◌}
use mathlib.Core.Logic.{◌↔◌}
use mathlib.Core.Bool.{Bool, true, false, ◌&&◌, ◌||◌}
use mathlib.Core.List.{List, [], ◌∷◌, map, reverse}
use native.Mathlib.Omega.{arith}
use bantam_bank.Prelude.Tests.{leb, ◌==◌, if◌then◌else◌}

abbrev pub Text : Type 0
Text = List ℕ

-- The code points of a literal.
abbrev pub codes : String → Text
codes String.[] = []
codes (String.◌∷◌ c s) = code c ∷ codes s

infix 50 ◌==ₜ◌
abbrev pub ◌==ₜ◌ : Text → Text → Bool
[] ==ₜ [] = true
[] ==ₜ (d ∷ t) = false
(c ∷ s) ==ₜ [] = false
(c ∷ s) ==ₜ (d ∷ t) = (c == d) && (s ==ₜ t)

pub ==ₜ_iff : (s t : Text) → ((s ==ₜ t) ≡ true) ↔ (s ≡ t)
==ₜ_iff [] [] = ground arith
==ₜ_iff [] (d ∷ t) = ground arith
==ₜ_iff (c ∷ s) [] = ground arith
==ₜ_iff (c ∷ s) (d ∷ t) = ground (arith, ==ₜ_iff s t)

-- The code points for which `str.isspace` holds, which are those that `strip` removes.
unfoldable pub is_space : ℕ → Bool
is_space c =
    (leb 9 c && leb c 13)
    || (leb 28 c && leb c 32)
    || (c == 133)
    || (c == 160)
    || (c == 5760)
    || (leb 8192 c && leb c 8202)
    || (c == 8232)
    || (c == 8233)
    || (c == 8239)
    || (c == 8287)
    || (c == 12288)

unfoldable pub strip_left : Text → Text
strip_left [] = []
strip_left (c ∷ s) = if is_space c then strip_left s else c ∷ s

unfoldable pub strip : Text → Text
unfolding strip_left is_space
strip s = reverse (strip_left (reverse (strip_left s)))

-- `upper` on the ASCII letters. No other character's upper case holds `G`, `B` or `P`, so a
-- comparison with "GBP" comes out as Python's.
unfoldable pub upper : Text → Text
upper = map (λ c. if leb b'a' c && leb c b'z' then c - 32 else c)

unfoldable pub is_digit : ℕ → Bool
is_digit c = leb b'0' c && leb c b'9'
