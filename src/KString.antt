-- ===== src/KString.antt =====
-- The memory routines of kstring.c. A routine takes the memory and returns the value that the C
-- function returns beside the new memory. Pointers do not wrap round the address space here.
pub mod Copy
pub mod Compare
pub mod Reverse
pub mod Text
pub mod Number
pub mod Format
mod Tests
use ntm_os.Prelude.{ℕ, zero, suc, ◌+◌, ◌-◌, ◌*◌, ◌%◌, ◌^◌, leb, ltb, ◌==◌, if◌then◌else◌}
use ntm_os.Prelude.Int.{ℤ, pos, negsuc, ◌-ℤ◌, eqb_ℤ, signed_char}
use ntm_os.Prelude.Memory.{Memory, write, fill}

-- `for (i = ...; i < num; i++) d[i] = s[i];`, with the rounds left.
unfoldable pub copy_up : ℕ → ℕ → ℕ → ℕ → Memory → Memory
copy_up zero i d s m = m
copy_up (suc n) i d s m = copy_up n (i + 1) d s (write m (d + i) (m (s + i)))

unfoldable pub k_memcpy : ℕ → ℕ → ℕ → Memory → ℕ × Memory
k_memcpy d s num m = (d, copy_up num 0 d s m)

-- `for (i = num; i > 0; i--) d[num - 1] = s[num - 1];`, with the rounds left.
unfoldable pub copy_last : ℕ → ℕ → ℕ → ℕ → Memory → Memory
copy_last zero num d s m = m
copy_last (suc n) num d s m = copy_last n num d s (write m (d + (num - 1)) (m (s + (num - 1))))

unfoldable pub k_memmove : ℕ → ℕ → ℕ → Memory → ℕ × Memory
k_memmove d s num m = if leb s d then (d, copy_up num 0 d s m) else (d, copy_last num num d s m)

-- The low byte of the `int` is stored.
unfoldable pub k_memset : ℕ → ℕ → ℕ → Memory → ℕ × Memory
k_memset p value num m = (p, fill num p (value % 256) m)

-- `d[i] - s[i]` on signed bytes.
unfoldable pub difference : Memory → ℕ → ℕ → ℤ
difference m p q = signed_char (m p) -ℤ signed_char (m q)

unfoldable pub k_memcmp : Memory → ℕ → ℕ → ℕ → ℤ
k_memcmp m p q zero = pos 0
k_memcmp m p q (suc n) =
    let rest = k_memcmp m (p + 1) (q + 1) n in
    if eqb_ℤ (difference m p q) (pos 0) then rest else difference m p q

unfoldable pub k_memchr : Memory → ℕ → ℤ → ℕ → ℕ
k_memchr m p value zero = 0
k_memchr m p value (suc n) =
    let rest = k_memchr m (p + 1) value n in if eqb_ℤ (signed_char (m p)) value then p else rest

-- The exchange of two bytes.
unfoldable pub k_rev8 : ℕ → ℕ → Memory → Memory
k_rev8 p q m = write (write m p (m q)) q (m p)

-- `while (ph < pt) { k_rev8(ph, pt); ph++, pt--; }`, with a bound on the rounds.
unfoldable pub rev_loop : ℕ → ℕ → ℕ → Memory → Memory
rev_loop zero ph pt m = m
rev_loop (suc n) ph pt m =
    let rest = rev_loop n (ph + 1) (pt - 1) (k_rev8 ph pt m) in if ltb ph pt then rest else m

-- `pt = (ph + num) - 1` has 32 bits. A round takes two bytes, so `num` rounds are enough.
unfoldable pub k_memrev : ℕ → ℕ → Memory → ℕ × Memory
k_memrev p num m = (p, rev_loop num p ((p + num + 2 ^ 32 - 1) % 2 ^ 32) m)
