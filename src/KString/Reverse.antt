-- ===== src/KString/Reverse.antt =====
-- `k_memrev`.
use ntm_os.Prelude.{
  ℕ, zero, suc, ◌+◌, ◌-◌, ◌%◌, ◌^◌, ◌≤◌, ◌<◌, ◌≡◌, arith, leb, ◌&&◌, if◌then◌else◌,
}
use ntm_os.Prelude.Memory.{Memory, write, in_range}
use ntm_os.KString.{k_rev8, rev_loop, k_memrev}

-- The cells from `ph` to `pt`, in reverse order.
abbrev pub mirrored : ℕ → ℕ → Memory → Memory
mirrored ph pt m a = if leb ph a && leb a pt then m (ph + pt - a) else m a

rev_loop_lem :
    (n ph pt : ℕ) (m : Memory) (a : ℕ) → pt + 1 ≤ ph + n → rev_loop n ph pt m a ≡ mirrored ph pt m a
unfolding rev_loop k_rev8 write
rev_loop_lem zero ph pt m a enough = ground arith
rev_loop_lem (suc n) ph pt m a enough =
    ground (arith, rev_loop_lem n (ph + 1) (pt - 1) (k_rev8 ph pt m) a)

-- `k_memrev` of a block of memory that is not at address 0 and does not wrap round ends, returns
-- its address, and leaves its bytes in reverse order and all others as they were.
pub k_memrev_mirrors :
    (p num : ℕ) (m : Memory) (a : ℕ)
    → 0 < p
    → p + num ≤ 2 ^ 32
    → ((k_memrev p num m).0 ≡ p)
      × ((k_memrev p num m).1 a ≡ (if in_range p num a then m (p + (p + num) - (a + 1)) else m a))
unfolding k_memrev
k_memrev_mirrors p num m a not_null fits =
    (ground arith, ground (arith, rev_loop_lem num p ((p + num + 2 ^ 32 - 1) % 2 ^ 32) m a))
