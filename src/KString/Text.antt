-- ===== src/KString/Text.antt =====
-- The C string routines of kstring.c. A loop has fuel, and gives `none` where it has not ended.
pub mod Contents
pub mod Order
use ntm_os.Prelude.{
  ℕ, zero, suc, ◌+◌, ◌-◌, ◌<◌, ◌≡◌, ◌≢◌, Option, none, some, leb, ltb, ◌==◌, ◌&&◌, ◌||◌,
  if◌then◌else◌,
}
use ntm_os.Prelude.Int.{ℤ, pos, ◌-ℤ◌, eqb_ℤ, signed_char}
use ntm_os.Prelude.Memory.{Memory, write}
use ntm_os.KString.{difference, k_memrev}

-- `n` bytes other than 0 from `p` on, and then a 0.
pub record CString (m : Memory) (p n : ℕ) : Type 0 where
  pub bytes : (i : ℕ) → i < n → m (p + i) ≢ 0
  pub end : m (p + n) ≡ 0

-- `while (*d != 0) d++;`
unfoldable pub end_of : ℕ → Memory → ℕ → Option ℕ
end_of zero m p = none
end_of (suc fuel) m p = let rest = end_of fuel m (p + 1) in if m p == 0 then some p else rest

abbrev pub and_then : Option ℕ → (ℕ → Option (ℕ × Memory)) → Option (ℕ × Memory)
and_then none k = none
and_then (some p) k = k p

abbrev length_from : ℕ → Option ℕ → Option ℕ
length_from p none = none
length_from p (some t) = some (t - p)

unfoldable pub k_strlen : ℕ → Memory → ℕ → Option ℕ
k_strlen fuel m p = length_from p (end_of fuel m p)

-- `while (*source != 0) { *d = *source; d++, source++; } *d = 0;`
unfoldable pub append_to : ℕ → ℕ → ℕ → Memory → Option Memory
append_to zero d s m = none
append_to (suc fuel) d s m =
    let rest = append_to fuel (d + 1) (s + 1) (write m d (m s)) in
    if m s == 0 then some (write m d 0) else rest

abbrev pub returning : ℕ → Option Memory → Option (ℕ × Memory)
returning d none = none
returning d (some m) = some (d, m)

unfoldable pub k_strcat : ℕ → ℕ → ℕ → Memory → Option (ℕ × Memory)
k_strcat fuel d s m = and_then (end_of fuel m d) λ p. returning d (append_to fuel p s m)

-- `while ((*d++ = *source++) != 0);`
unfoldable pub copy_string : ℕ → ℕ → ℕ → Memory → Option Memory
copy_string zero d s m = none
copy_string (suc fuel) d s m =
    let rest = copy_string fuel (d + 1) (s + 1) (write m d (m s)) in
    if m s == 0 then some (write m d (m s)) else rest

unfoldable pub k_strcpy : ℕ → ℕ → ℕ → Memory → Option (ℕ × Memory)
k_strcpy fuel d s m = returning d (copy_string fuel d s m)

unfoldable pub k_strchr : ℕ → Memory → ℕ → ℤ → Option ℕ
k_strchr zero m p character = none
k_strchr (suc fuel) m p character =
    let rest = k_strchr fuel m (p + 1) character in
    if m p == 0 then some 0 else if eqb_ℤ (signed_char (m p)) character then some p else rest

unfoldable pub k_strcmp : ℕ → Memory → ℕ → ℕ → Option ℤ
k_strcmp zero m p q = none
k_strcmp (suc fuel) m p q =
    let rest = k_strcmp fuel m (p + 1) (q + 1) in
    if (m p == 0) || (m q == 0)
    then some (difference m p q)
    else if eqb_ℤ (difference m p q) (pos 0)
    then rest
    else some (difference m p q)

-- The loop does not change `i`.
unfoldable pub k_strncmp : ℕ → Memory → ℕ → ℕ → ℕ → ℕ → Option ℤ
k_strncmp zero m p q n i = none
k_strncmp (suc fuel) m p q n i =
    let rest = k_strncmp fuel m (p + 1) (q + 1) n i in
    let result = if i == n then some (pos 0) else some (difference m p q) in
    if (m p == 0) || (m q == 0) || leb n i
    then result
    else if eqb_ℤ (difference m p q) (pos 0)
    then rest
    else some (difference m p q)

unfoldable pub k_strrev : ℕ → ℕ → Memory → Option (ℕ × Memory)
k_strrev fuel p m = and_then (k_strlen fuel m p) λ l. some (p, (k_memrev p l m).1)

-- 'a' to 'z', and 'A' to 'Z'.
unfoldable pub k_toupper : ℕ → ℕ
k_toupper c = if leb 97 c && leb c 122 then c - 32 else c

unfoldable pub k_tolower : ℕ → ℕ
k_tolower c = if leb 65 c && leb c 90 then c + 32 else c
