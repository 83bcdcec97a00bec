-- ===== src/KString/Number.antt =====
-- The printing of numbers, `k_utoa` and `k_itoa`. A division by 0 and a read outside of `NUM_MAP`
-- are undefined; the loops over the digits have fuel.
pub mod Digits
pub mod Unsigned
pub mod Signed
use ntm_os.Prelude.{
  Bool, ℕ, zero, suc, ◌+◌, ◌-◌, ◌*◌, ◌/◌, ◌%◌, ◌^◌, List, [], ◌∷◌, get_or, leb, ltb, ◌==◌, ◌||◌,
  ◌&&◌, if◌then◌else◌,
}
use ntm_os.Prelude.Int.{ℤ, pos, pos_part, neg_part, sub_ℕ, ltb_ℤ, eqb_ℤ}
use ntm_os.Prelude.Memory.{Memory, write}
use ntm_os.Prelude.Run.{Run, done, undefined, out_of_fuel, ◌>>=◌}
use ntm_os.KString.{k_memrev}

-- "0123456789ABCDEF", with its terminator.
abbrev pub num_map : List ℕ
num_map = 48 ∷ 49 ∷ 50 ∷ 51 ∷ 52 ∷ 53 ∷ 54 ∷ 55 ∷ 56 ∷ 57 ∷ 65 ∷ 66 ∷ 67 ∷ 68 ∷ 69 ∷ 70 ∷ 0 ∷ []

unfoldable pub digit : ℕ → ℕ
digit r = get_or num_map r 0

-- `if (base > 16) base = 16;`
unfoldable pub clamp_base : ℤ → ℤ
clamp_base base = if ltb_ℤ (pos 16) base then pos 16 else base

-- `num % base` with an unsigned `num` converts the base.
unfoldable pub unsigned_int : ℤ → ℕ
unsigned_int z = (pos_part z + 2 ^ 32 - neg_part z) % 2 ^ 32

-- `while (num != 0) { str[i++] = NUM_MAP[num % base]; num /= base; }`
unfoldable pub put_digits : ℕ → ℕ → ℕ → ℕ → ℕ → Memory → Run (ℕ × Memory)
put_digits zero num base str i m = out_of_fuel
put_digits (suc fuel) num base str i m =
    let rest =
      put_digits fuel (num / base) base str (i + 1) (write m (str + i) (digit (num % base))) in
    if num == 0 then done (i, m) else if (base == 0) || ltb 16 (num % base) then undefined else rest

-- `str[i] = NULL; k_memrev(str, i); return str;`
unfoldable pub finish_number : ℕ → ℕ × Memory → Run (ℕ × Memory)
finish_number str (i, m) = done (str, (k_memrev str i (write m (str + i) 0)).1)

unfoldable pub k_utoa : ℕ → ℕ → ℕ → ℤ → Memory → Run (ℕ × Memory)
k_utoa fuel num str base m =
    if str == 0
    then done (0, m)
    else if num == 0
    then done (str, write (write m str (digit num)) (str + 1) 0)
    else put_digits fuel num (unsigned_int (clamp_base base)) str 0 m >>= finish_number str

-- C's division of integers rounds to 0, and the remainder has the sign of the dividend.
abbrev magnitude : ℤ → ℕ
magnitude z = pos_part z + neg_part z

abbrev negative : ℤ → Bool
negative z = ltb 0 (neg_part z)

unfoldable pub quotient : ℤ → ℤ → ℤ
quotient a b =
    if negative a
    then if negative b then pos (magnitude a / magnitude b) else sub_ℕ 0 (magnitude a / magnitude b)
    else if negative b
    then sub_ℕ 0 (magnitude a / magnitude b)
    else pos (magnitude a / magnitude b)

unfoldable pub remainder : ℤ → ℤ → ℤ
remainder a b =
    if negative a then sub_ℕ 0 (magnitude a % magnitude b) else pos (magnitude a % magnitude b)

-- The loop of `k_itoa`, on signed numbers.
unfoldable pub put_signed : ℕ → ℤ → ℤ → ℕ → ℕ → Memory → Run (ℕ × Memory)
put_signed zero num base str i m = out_of_fuel
put_signed (suc fuel) num base str i m =
    let r = remainder num base in
    let rest =
      put_signed fuel (quotient num base) base str (i + 1)
        (write m (str + i) (digit (pos_part r))) in
    if eqb_ℤ num (pos 0)
    then done (i, m)
    else if eqb_ℤ base (pos 0) || negative r || ltb_ℤ (pos 16) r
    then undefined
    else rest

-- `if (is_neg) str[i++] = '-';`
unfoldable pub put_sign : Bool → ℕ → ℕ × Memory → ℕ × Memory
put_sign is_neg str (i, m) = if is_neg then (i + 1, write m (str + i) 45) else (i, m)

unfoldable pub print_signed : ℕ → Bool → ℤ → ℕ → ℤ → Memory → Run (ℕ × Memory)
print_signed fuel is_neg num str base m =
    put_signed fuel num base str 0 m >>= λ r. finish_number str (put_sign is_neg str r)

-- `-num` of the least `int` overflows.
unfoldable pub k_itoa : ℕ → ℤ → ℕ → ℤ → Memory → Run (ℕ × Memory)
k_itoa fuel num str base m =
    let is_neg = negative num && eqb_ℤ (clamp_base base) (pos 10) in
    if str == 0
    then done (0, m)
    else if eqb_ℤ num (pos 0)
    then done (str, write (write m str 48) (str + 1) 0)
    else if is_neg && leb (2 ^ 31) (neg_part num)
    then undefined
    else print_signed fuel is_neg (if is_neg then pos (neg_part num) else num) str (clamp_base base)
        m
