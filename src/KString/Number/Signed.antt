-- ===== src/KString/Number/Signed.antt =====
-- What `k_itoa` leaves in memory, in base 10.
use ntm_os.Prelude.{
  ℕ, zero, suc, ◌+◌, ◌/◌, ◌%◌, ◌^◌, ◌≤◌, ◌<◌, ◌≡◌, refl, arith, ltb, leb, ◌==◌, true, false,
}
use ntm_os.Prelude.Int.{ℤ, pos, negsuc, pos_part, neg_part, eqb_ℤ}
use ntm_os.Prelude.Memory.{Memory, write, in_range}
use ntm_os.Prelude.Run.{Run, done, undefined, out_of_fuel, panic, ◌>>=◌}
use ntm_os.KString.Reverse.{k_memrev_mirrors}
use ntm_os.KString.Number.{
  digit, clamp_base, quotient, remainder, put_digits, put_signed, put_sign, print_signed,
  finish_number, k_itoa,
}
use ntm_os.KString.Number.Digits.{DigitsOf, put_digits-Digits}
use ntm_os.KString.Number.Unsigned.{
  Printed, Prints, reversed-Printed, finish_number-Prints, zero-Prints,
}

-- On numbers that are not negative the two loops over the digits agree.
put_signed-put_digits :
    (fuel num base str i : ℕ) (m : Memory)
    → put_signed fuel (pos num) (pos base) str i m ≡ put_digits fuel num base str i m
unfolding put_signed put_digits quotient remainder
put_signed-put_digits zero num base str i m = refl
put_signed-put_digits (suc fuel) num base str i m = ground (
  arith,
  put_signed-put_digits fuel (num / base) base str (i + 1) (write m (str + i) (digit (num % base))),
)

-- The text of an `int`: a sign in front of a negative one.
abbrev pub PrintsInt : ℤ → ℕ → Memory → Run (ℕ × Memory) → Type 0
PrintsInt (pos num) str m x = Prints 10 num str 32 m x
PrintsInt (negsuc k) str m (done (p, m')) =
    (p ≡ str)
    × (m' str ≡ 45)
    × ((n : ℕ) × (0 < n)
        × (n ≤ 32)
        × Printed 10 (suc k) (str + 1) n m'
        × ((a : ℕ) → in_range str (n + 2) a ≡ false → m' a ≡ m a))
PrintsInt (negsuc k) str m panic = ⊥
PrintsInt (negsuc k) str m undefined = ⊥
PrintsInt (negsuc k) str m out_of_fuel = ⊥

sign-PrintsInt :
    (k str : ℕ) (m : Memory) (x : Run (ℕ × Memory))
    → 0 < str
    → str + 33 < 2 ^ 32
    → DigitsOf 10 (suc k) str 0 32 m x
    → PrintsInt (negsuc k) str m (x >>= λ r. finish_number str (put_sign true str r))
unfolding finish_number put_sign write
sign-PrintsInt k str m (done (l, m')) not_null fits (n, below, d) =
    let len : l ≡ n = omega (arith, d.count) in
    let fits_l : str + (l + 1) ≤ 2 ^ 32 = omega arith in
    let turned : (a : ℕ) → _ = λ a.
      (k_memrev_mirrors str (l + 1) (write (write m' (str + l) 45) (str + (l + 1)) 0) a not_null
        fits_l).1 in
    (
      refl,
      ground (arith, turned str),
      (
        n,
        ground (arith, d.top),
        below,
        reversed-Printed 10 (suc k) str n (str + 1) m _ (l, m') (omega arith) d
            (λ j jn. ground (arith, turned (str + 1 + j))) (ground (arith, turned (str + 1 + n))),
        λ a out. ground (arith, turned a, d.rest a),
      ),
    )
sign-PrintsInt k str m panic not_null fits d = d
sign-PrintsInt k str m undefined not_null fits d = d
sign-PrintsInt k str m out_of_fuel not_null fits d = d

no_sign-Prints :
    (num str : ℕ) (m : Memory) (x : Run (ℕ × Memory))
    → 0 < num
    → 0 < str
    → str + 33 < 2 ^ 32
    → DigitsOf 10 num str 0 32 m x
    → Prints 10 num str 32 m (x >>= λ r. finish_number str (put_sign false str r))
unfolding put_sign
no_sign-Prints num str m (done (l, m')) some_num not_null fits d =
    finish_number-Prints 10 num str 32 m (done (l, m')) some_num not_null (omega arith) d
no_sign-Prints num str m panic some_num not_null fits d = d
no_sign-Prints num str m undefined some_num not_null fits d = d
no_sign-Prints num str m out_of_fuel some_num not_null fits d = d

signed_digits :
    (fuel num str : ℕ) (m : Memory)
    → num < 2 ^ 31
    → 32 < fuel
    → DigitsOf 10 num str 0 32 m (put_signed fuel (pos num) (pos 10) str 0 m)
signed_digits fuel num str m small enough =
    rw (put_signed-put_digits fuel num 10 str 0 m)
      (put_digits-Digits fuel 32 10 num str 0 m (omega arith) (omega arith) (omega arith) enough)

-- `k_itoa` in base 10 of every `int` but the least ends, returns the string, and leaves at it the
-- number in decimal, with a sign if it is negative and no 0 in front; it changes nothing else.
pub k_itoa-PrintsInt :
    (fuel : ℕ) (num : ℤ) (str : ℕ) (m : Memory)
    → pos_part num + neg_part num < 2 ^ 31
    → 0 < str
    → str + 33 < 2 ^ 32
    → 32 < fuel
    → PrintsInt num str m (k_itoa fuel num str (pos 10) m)
unfolding k_itoa clamp_base print_signed digit
k_itoa-PrintsInt fuel (pos zero) str m small not_null fits enough =
    let some_str : (str == 0) ≡ false = ground arith in
    rw some_str (zero-Prints 10 str 32 m (omega arith))
k_itoa-PrintsInt fuel (pos (suc num)) str m small not_null fits enough =
    let some_str : (str == 0) ≡ false = ground arith in
    let some_num : (suc num == 0) ≡ false = ground arith in
    rw (some_str, some_num)
      (no_sign-Prints (suc num) str m _ (omega arith) not_null fits
        (signed_digits fuel (suc num) str m (omega arith) enough))
k_itoa-PrintsInt fuel (negsuc k) str m small not_null fits enough =
    let some_str : (str == 0) ≡ false = ground arith in
    let negative : ltb 0 (suc k) ≡ true = ground arith in
    let in_range : leb (2 ^ 31) (suc k) ≡ false = ground arith in
    let not_zero : eqb_ℤ (negsuc k) (pos 0) ≡ false = ground arith in
    rw (some_str, negative, not_zero, in_range)
      (sign-PrintsInt k str m _ not_null fits
        (signed_digits fuel (suc k) str m (omega arith) enough))
