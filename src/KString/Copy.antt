-- ===== src/KString/Copy.antt =====
-- What the copying routines leave in memory.
use ntm_os.Prelude.{
  ℕ, zero, suc, ◌+◌, ◌-◌, ◌≤◌, ◌<◌, ◌%◌, ◌≡◌, ◌⊎◌, refl, arith, ltb, ◌&&◌, ◌==◌, if◌then◌else◌,
}
use ntm_os.Prelude.Memory.{Memory, write, in_range, fill_lem}
use ntm_os.KString.{copy_up, k_memcpy, copy_last, k_memmove, k_memset}

-- The `num` bytes from `s` on, as they were in `m`, stand from `d` on, and nothing else changes.
abbrev pub Copied : ℕ → ℕ → ℕ → Memory → Memory → Type 0
Copied d s num m m' = (a : ℕ) → m' a ≡ (if in_range d num a then m (s + (a - d)) else m a)

pub copy_up_lem :
    (n i d s : ℕ) (m : Memory) (a : ℕ)
    → (d ≤ s) ⊎ (s + (i + n) ≤ d)
    → copy_up n i d s m a ≡ (if in_range (d + i) n a then m (s + (a - d)) else m a)
unfolding copy_up write
copy_up_lem zero i d s m a apart = ground arith
copy_up_lem (suc n) i d s m a apart =
    ground (arith, copy_up_lem n (i + 1) d s (write m (d + i) (m (s + i))) a)

-- `k_memcpy` copies, if the destination starts no later than the source or behind its end; it
-- returns the destination.
pub k_memcpy-Copied :
    (d s num : ℕ) (m : Memory)
    → (d ≤ s) ⊎ (s + num ≤ d)
    → ((k_memcpy d s num m).0 ≡ d) × Copied d s num m (k_memcpy d s num m).1
unfolding k_memcpy
k_memcpy-Copied d s num m apart = (refl, λ a. ground (arith, copy_up_lem num 0 d s m a))

copy_last_lem :
    (n num d s : ℕ) (m : Memory) (a : ℕ)
    → d < s
    → copy_last n num d s m a ≡ (if ltb 0 n && (a == d + (num - 1)) then m (s + (num - 1)) else m a)
unfolding copy_last write
copy_last_lem zero num d s m a apart = ground arith
copy_last_lem (suc n) num d s m a apart =
    ground (arith, copy_last_lem n num d s (write m (d + (num - 1)) (m (s + (num - 1)))) a)

-- `k_memmove` to a destination that is the source or starts behind its end copies.
pub k_memmove-Copied :
    (d s num : ℕ) (m : Memory)
    → (s ≡ d) ⊎ (s + num ≤ d)
    → ((k_memmove d s num m).0 ≡ d) × Copied d s num m (k_memmove d s num m).1
unfolding k_memmove
k_memmove-Copied d s num m apart = (ground arith, λ a. ground (arith, copy_up_lem num 0 d s m a))

-- `k_memmove` of some bytes to a destination in front of the source writes one byte, the last.
pub k_memmove_last_byte :
    (d s num : ℕ) (m : Memory) (a : ℕ)
    → d < s
    → 0 < num
    → (k_memmove d s num m).1 a ≡ (if a == d + (num - 1) then m (s + (num - 1)) else m a)
unfolding k_memmove
k_memmove_last_byte d s num m a apart some_bytes = ground (arith, copy_last_lem num num d s m a)

-- `k_memset` stores the low byte of the value in each of the `num` bytes, and nowhere else.
pub k_memset_lem :
    (p value num : ℕ) (m : Memory) (a : ℕ)
    → (k_memset p value num m).1 a ≡ (if in_range p num a then value % 256 else m a)
unfolding k_memset
k_memset_lem p value num m a = fill_lem num p (value % 256) m a
