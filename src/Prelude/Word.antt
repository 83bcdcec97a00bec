-- ===== src/Prelude/Word.antt =====
-- C's `int` as a 32-bit word, in two's complement: its order, its difference, and how often a loop
-- that counts up runs.
use ntm_os.Prelude.Tests.{leb, ltb, if◌then◌else◌}
use Prim.Native.Nat.{ℕ, ◌+◌, ◌-◌, ◌%◌, ◌^◌, ◌≤◌, ◌<◌}
use mathlib.Core.Path.{◌≡◌}
use mathlib.Core.Bool.{Bool}
use native.Mathlib.Omega.{arith}

-- `a <= b` and `a < b`, signed.
unfoldable pub int_leb : ℕ → ℕ → Bool
int_leb a b = leb ((a + 2 ^ 31) % 2 ^ 32) ((b + 2 ^ 31) % 2 ^ 32)

unfoldable pub int_ltb : ℕ → ℕ → Bool
int_ltb a b = ltb ((a + 2 ^ 31) % 2 ^ 32) ((b + 2 ^ 31) % 2 ^ 32)

-- `a - b`
unfoldable pub int_sub : ℕ → ℕ → ℕ
int_sub a b = (a + 2 ^ 32 - b) % 2 ^ 32

-- The rounds of `for (i = a; i <= b; i++)` and of `for (i = a; i < b; i++)`.
unfoldable pub rounds_to : ℕ → ℕ → ℕ
rounds_to a b = if int_leb a b then int_sub b a + 1 else 0

unfoldable pub rounds_below : ℕ → ℕ → ℕ
rounds_below a b = if int_ltb a b then int_sub b a else 0

pub rounds_to_lem : (a b : ℕ) → a ≤ b → b < 2 ^ 31 → rounds_to a b ≡ b - a + 1
unfolding rounds_to int_leb int_sub
rounds_to_lem a b le small = ground arith

pub rounds_below_lem : (b : ℕ) → b < 2 ^ 31 → rounds_below 0 b ≡ b
unfolding rounds_below int_ltb int_sub
rounds_below_lem b small = ground arith
