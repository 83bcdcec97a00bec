-- ===== src/Prelude/Search.antt =====
-- The kernel's searches for a free slot: `for (i = 0; i < n; i++) if (test(i)) return &slots[i];`,
-- over the pointers `lo`, ..., `lo + n - 1`, with 0 for null.
use ntm_os.Prelude.Tests.{◌==◌, if◌then◌else◌, Bool-cases, tests}
use Prim.Native.Nat.{ℕ, zero, suc, ◌+◌, ◌≤◌, ◌<◌}
use mathlib.Core.Path.{◌≡◌, refl}
use mathlib.Core.Logic.{◌⊎◌, inl, inr}
use mathlib.Core.Bool.{Bool, true, false}
use native.Mathlib.Omega.{arith}

unfoldable pub find_first : (ℕ → Bool) → ℕ → ℕ → ℕ
find_first test zero p = 0
find_first test (suc n) p = let rest = find_first test n (p + 1) in if test p then p else rest

-- `p` is the first pointer that passes the test, or 0 if none does.
abbrev pub First : (ℕ → Bool) → ℕ → ℕ → ℕ → Type 0
First test lo n p =
    ((p ≡ 0) × ((q : ℕ) → lo ≤ q → q < lo + n → test q ≡ false))
    ⊎ ((lo ≤ p) × (p < lo + n) × (test p ≡ true) × ((q : ℕ) → lo ≤ q → q < p → test q ≡ false))

First-skip :
    (test : ℕ → Bool) (lo n p : ℕ)
    → test lo ≡ false
    → First test (lo + 1) n p
    → First test lo (suc n) p
First-skip test lo n p used (inl (e, none_later)) = inl (
  e,
  λ q le lt. elim (Bool-cases (lo == q)) [
    | inl same ↦ ground arith
    | inr other ↦ none_later q (omega tests) (omega arith)
  ],
)
First-skip test lo n p used (inr (ge, lt, free, first)) = inr (
  omega arith,
  omega arith,
  free,
  λ q le lt. elim (Bool-cases (lo == q)) [
    | inl same ↦ ground arith
    | inr other ↦ first q (omega tests) lt
  ],
)

pub find_first-First : (test : ℕ → Bool) (n lo : ℕ) → First test lo n (find_first test n lo)
unfolding find_first
find_first-First test zero lo = inl (refl, λ q le lt. absurd (omega arith))
find_first-First test (suc n) lo = elim (Bool-cases (test lo)) [
  | inl free ↦ rw free (inr (omega arith, omega arith, free, λ q le lt. absurd (omega arith)))
  | inr used ↦ rw used (First-skip test lo n _ used (find_first-First test n (lo + 1)))
]
