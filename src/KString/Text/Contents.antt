-- ===== src/KString/Text/Contents.antt =====
-- What the string routines that write leave in memory.
use ntm_os.Prelude.{
  ℕ, zero, suc, ◌+◌, ◌-◌, ◌^◌, ◌≤◌, ◌<◌, ◌≡◌, ◌≢◌, ◌⊎◌, refl, arith, some, if◌then◌else◌,
}
use ntm_os.Prelude.Memory.{Memory, write, in_range}
use mathlib.Core.Path.{subst}
use ntm_os.KString.{copy_up, k_memcpy, k_memrev}
use ntm_os.KString.Copy.{Copied, copy_up_lem}
use ntm_os.KString.Reverse.{k_memrev_mirrors}
use ntm_os.KString.Text.{
  CString, end_of, k_strlen, append_to, k_strcat, copy_string, k_strcpy, k_strrev,
}

pub CString-tail : (m : Memory) (p n : ℕ) → CString m p (suc n) → CString m (p + 1) n
CString-tail m p n s = record {
  bytes = λ i below. ground (arith, s.bytes (suc i) (omega arith));
  end = ground (arith, s.end);
}

pub first_byte : (m : Memory) (p n : ℕ) → CString m p (suc n) → m p ≢ 0
first_byte m p n s = ground (arith, s.bytes 0 (omega arith))

pub last_byte : (m : Memory) (p : ℕ) → CString m p 0 → m p ≡ 0
last_byte m p s = ground (arith, s.end)

pub end_of-CString :
    (fuel : ℕ) (m : Memory) (p n : ℕ) → CString m p n → n < fuel → end_of fuel m p ≡ some (p + n)
unfolding end_of
end_of-CString zero m p n s enough = absurd (omega arith)
end_of-CString (suc fuel) m p zero s enough = ground (arith, last_byte m p s)
end_of-CString (suc fuel) m p (suc n) s enough =
    ground (arith, first_byte m p n s, end_of-CString fuel m (p + 1) n (CString-tail m p n s))

pub k_strlen-CString :
    (fuel : ℕ) (m : Memory) (p n : ℕ) → CString m p n → n < fuel → k_strlen fuel m p ≡ some n
unfolding k_strlen
k_strlen-CString fuel m p n s enough = rw (end_of-CString fuel m p n s enough) (ground arith)

-- A write in front of a string.
pub CString-write :
    (m : Memory) (d v p n : ℕ) → (d < p) ⊎ (p + n < d) → CString m p n → CString (write m d v) p n
unfolding write
CString-write m d v p n apart s = record {
  bytes = λ i below. ground (arith, s.bytes i below);
  end = ground (arith, s.end);
}

copy_string-CString :
    (fuel i d s n : ℕ) (m : Memory)
    → CString m (s + i) n
    → (d ≤ s) ⊎ (s + (i + n) < d)
    → n < fuel
    → copy_string fuel (d + i) (s + i) m ≡ some (copy_up (suc n) i d s m)
unfolding copy_string copy_up
copy_string-CString zero i d s n m str apart enough = absurd (omega arith)
copy_string-CString (suc fuel) i d s zero m str apart enough =
    ground (arith, last_byte m (s + i) str)
copy_string-CString (suc fuel) i d s (suc n) m str apart enough =
    let later : CString (write m (d + i) (m (s + i))) (s + i + 1) n =
      CString-write m (d + i) (m (s + i)) (s + i + 1) n (ground arith) (CString-tail _ _ n str) in
    let moved : s + i + 1 ≡ s + (i + 1) = omega arith in
    ground (
      arith,
      first_byte m (s + i) n str,
      copy_string-CString fuel (i + 1) d s n (write m (d + i) (m (s + i)))
          (subst (λ p. CString (write m (d + i) (m (s + i))) p n) moved later) (ground arith)
          (omega arith),
    )

append_to-CString :
    (fuel i d s n : ℕ) (m : Memory)
    → CString m (s + i) n
    → (d ≤ s) ⊎ (s + (i + n) < d)
    → n < fuel
    → append_to fuel (d + i) (s + i) m ≡ some (copy_up (suc n) i d s m)
unfolding append_to copy_up
append_to-CString zero i d s n m str apart enough = absurd (omega arith)
append_to-CString (suc fuel) i d s zero m str apart enough = rw (last_byte m (s + i) str) refl
append_to-CString (suc fuel) i d s (suc n) m str apart enough =
    let later : CString (write m (d + i) (m (s + i))) (s + i + 1) n =
      CString-write m (d + i) (m (s + i)) (s + i + 1) n (ground arith) (CString-tail _ _ n str) in
    let moved : s + i + 1 ≡ s + (i + 1) = omega arith in
    ground (
      arith,
      first_byte m (s + i) n str,
      append_to-CString fuel (i + 1) d s n (write m (d + i) (m (s + i)))
          (subst (λ p. CString (write m (d + i) (m (s + i))) p n) moved later) (ground arith)
          (omega arith),
    )

-- `k_strcpy` of a string of length `n` to a place that starts no later than the string or behind
-- its 0 is `k_memcpy` of `n + 1` bytes.
pub k_strcpy-k_memcpy :
    (fuel d s n : ℕ) (m : Memory)
    → CString m s n
    → (d ≤ s) ⊎ (s + n < d)
    → n < fuel
    → k_strcpy fuel d s m ≡ some (k_memcpy d s (n + 1) m)
unfolding k_strcpy k_memcpy
k_strcpy-k_memcpy fuel d s n m str apart enough =
    let at_s : CString m (s + 0) n = subst (λ p. CString m p n) (omega arith) str in
    ground (arith, copy_string-CString fuel 0 d s n m at_s (ground arith) enough)

-- `k_strcat` of a string of length `k` to a string of length `n`, where the place behind the
-- second starts no later than the first or behind its 0, ends, returns the destination, and copies
-- the first with its 0 to the end of the second.
pub k_strcat-Copied :
    (fuel d s n k : ℕ) (m : Memory)
    → CString m d n
    → CString m s k
    → (d + n ≤ s) ⊎ (s + k < d + n)
    → n < fuel
    → k < fuel
    → (m' : Memory) × (k_strcat fuel d s m ≡ some (d, m')) × Copied (d + n) s (k + 1) m m'
unfolding k_strcat
k_strcat-Copied fuel d s n k m front back apart enough_n enough_k =
    let at_s : CString m (s + 0) k = subst (λ p. CString m p k) (omega arith) back in
    (
      copy_up (k + 1) 0 (d + n) s m,
      rw (end_of-CString fuel m d n front enough_n) ground
          (arith, append_to-CString fuel 0 (d + n) s k m at_s (ground arith) enough_k),
      λ a. ground (arith, copy_up_lem (k + 1) 0 (d + n) s m a (ground arith)),
    )

-- `k_strrev` of a string that is not at address 0 and does not wrap round ends, and leaves its
-- bytes in reverse order, and all others as they were.
pub k_strrev_mirrors :
    (fuel p n : ℕ) (m : Memory)
    → CString m p n
    → n < fuel
    → 0 < p
    → p + n ≤ 2 ^ 32
    → (m' : Memory) × (k_strrev fuel p m ≡ some (p, m'))
      × ((a : ℕ) → m' a ≡ (if in_range p n a then m (p + (p + n) - (a + 1)) else m a))
unfolding k_strrev
k_strrev_mirrors fuel p n m str enough not_null fits = (
  (k_memrev p n m).1,
  rw (k_strlen-CString fuel m p n str enough) refl,
  λ a. (k_memrev_mirrors p n m a not_null fits).1,
)
