-- ===== src/Prelude/UuidText.antt =====
-- `str` of a `UUID`: 32 hexadecimal digits in groups of 8, 4, 4, 4 and 12.
use bantam_bank.Prelude.Tests.{ltb, if◌then◌else◌}
use bantam_bank.Prelude.Text.{Text}
use Prim.Native.Nat.{ℕ, zero, suc, ◌+◌, ◌/◌, ◌%◌, ◌^◌}
use mathlib.Core.List.{[], ◌∷◌}

hex_digit : ℕ → ℕ
hex_digit d = if ltb d 10 then 48 + d else 87 + d

-- The low `k` hexadecimal digits of `n`, in front of `rest`.
hex_onto : ℕ → ℕ → Text → Text
hex_onto zero n rest = rest
hex_onto (suc k) n rest = hex_onto k (n / 16) (hex_digit (n % 16) ∷ rest)

-- The text from each group on.
from_12 : ℕ → Text
unfolding hex_onto hex_digit
from_12 u = hex_onto 12 (u % 16 ^ 12) []

from_16 : ℕ → Text
unfolding from_12
from_16 u = hex_onto 4 (u / 16 ^ 12 % 16 ^ 4) (b'-' ∷ from_12 u)

from_20 : ℕ → Text
unfolding from_16
from_20 u = hex_onto 4 (u / 16 ^ 16 % 16 ^ 4) (b'-' ∷ from_16 u)

from_24 : ℕ → Text
unfolding from_20
from_24 u = hex_onto 4 (u / 16 ^ 20 % 16 ^ 4) (b'-' ∷ from_20 u)

unfoldable pub uuid_text : ℕ → Text
unfolding from_24
uuid_text u = hex_onto 8 (u / 16 ^ 24) (b'-' ∷ from_24 u)
