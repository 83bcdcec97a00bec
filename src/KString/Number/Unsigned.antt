-- ===== src/KString/Number/Unsigned.antt =====
-- What `k_utoa` leaves in memory.
use ntm_os.Prelude.{
  ℕ, zero, suc, ◌+◌, ◌-◌, ◌^◌, ◌≤◌, ◌<◌, ◌≡◌, inl, inr, refl, ◌∙◌, arith, ◌==◌, false,
}
use ntm_os.Prelude.Int.{pos}
use ntm_os.Prelude.Memory.{Memory, write, in_range}
use ntm_os.Prelude.Run.{Run, done, undefined, out_of_fuel, panic, ◌>>=◌}
use ntm_os.KString.Reverse.{k_memrev_mirrors}
use ntm_os.KString.Text.{CString}
use ntm_os.KString.Number.{digit, finish_number, k_utoa, clamp_base, unsigned_int}
use ntm_os.KString.Number.Digits.{
  digit_value, number, number-mirrored, Digits, DigitsOf, put_digits-Digits,
}

-- The text of a number in `base`: `n` digits at `str`, the first one not '0' unless it is alone.
pub record Printed (base num str n : ℕ) (m : Memory) : Type 0 where
  pub text : CString m str n
  pub value : number base m str n ≡ num
  pub no_zero_in_front : (m str ≡ 48) → num ≡ 0

base_lem : (base : ℕ) → base ≤ 16 → unsigned_int (clamp_base (pos base)) ≡ base
unfolding unsigned_int clamp_base
base_lem base hi = ground arith

-- Digits that are turned round, with a 0 behind them.
pub reversed-Printed :
    (base num str n p : ℕ) (m m' : Memory) (r : ℕ × Memory)
    → 0 < num
    → Digits base num str 0 n m r
    → ((j : ℕ) → j < n → m' (p + j) ≡ r.1 (str + 0 + (n - 1 - j)))
    → m' (p + n) ≡ 0
    → Printed base num p n m'
reversed-Printed base num str n p m m' r some_num d mirror end = record {
  text = record {
    bytes = λ i below. ground (arith, mirror i below, d.digits (str + 0 + (n - 1 - i)));
    end = end;
  };
  value = number-mirrored base n r.1 m' p (str + 0) mirror ∙ d.value;
  no_zero_in_front = λ e. elim d.top [
    | inl (zero_num, zero_n) ↦ zero_num
    | inr (some_n, top) ↦ absurd (top (ground (arith, mirror 0 some_n)))
  ];
}

-- A routine ends, returns `str`, and leaves a text of at most `most` digits, changing nothing
-- outside of the text and its 0.
abbrev pub Prints : ℕ → ℕ → ℕ → ℕ → Memory → Run (ℕ × Memory) → Type 0
Prints base num str most m (done (p, m')) =
    (p ≡ str)
    × ((n : ℕ) × (0 < n)
        × (n ≤ most)
        × Printed base num str n m'
        × ((a : ℕ) → in_range str (n + 1) a ≡ false → m' a ≡ m a))
Prints base num str most m panic = ⊥
Prints base num str most m undefined = ⊥
Prints base num str most m out_of_fuel = ⊥

pub finish_number-Prints :
    (base num str bits : ℕ) (m : Memory) (x : Run (ℕ × Memory))
    → 0 < num
    → 0 < str
    → str + bits < 2 ^ 32
    → DigitsOf base num str 0 bits m x
    → Prints base num str bits m (x >>= finish_number str)
unfolding finish_number write
finish_number-Prints base num str bits m (done (l, m')) some_num not_null fits (n, below, d) =
    let len : l ≡ n = omega (arith, d.count) in
    let fits_l : str + l ≤ 2 ^ 32 = omega arith in
    let turned : (a : ℕ) → _ =
      λ a. (k_memrev_mirrors str l (write m' (str + l) 0) a not_null fits_l).1 in
    (
      refl,
      (
        n,
        ground (arith, d.top),
        below,
        reversed-Printed base num str n str m _ (l, m') some_num d
            (λ j jn. ground (arith, turned (str + j))) (ground (arith, turned (str + n))),
        λ a out. ground (arith, turned a, d.rest a),
      ),
    )
finish_number-Prints base num str bits m panic some_num not_null fits d = d
finish_number-Prints base num str bits m undefined some_num not_null fits d = d
finish_number-Prints base num str bits m out_of_fuel some_num not_null fits d = d

pub zero-Prints :
    (base str most : ℕ) (m : Memory)
    → 0 < most
    → Prints base 0 str most m (done (str, write (write m str (digit 0)) (str + 1) 0))
unfolding write number digit digit_value
zero-Prints base str most m some = (
  refl,
  (
    1,
    omega arith,
    omega arith,
    record {
      text = record { bytes = λ i below. ground arith; end = ground arith };
      value = ground arith;
      no_zero_in_front = λ e. refl;
    },
    λ a out. ground arith,
  ),
)

-- `k_utoa` in a base from 2 to 16 ends, returns the string, and leaves at it the digits of the
-- number, at most 32 of them, without a 0 in front; it changes nothing else.
pub k_utoa-Prints :
    (fuel num str base : ℕ) (m : Memory)
    → num < 2 ^ 32
    → 0 < str
    → str + 32 < 2 ^ 32
    → 2 ≤ base
    → base ≤ 16
    → 32 < fuel
    → Prints base num str 32 m (k_utoa fuel num str (pos base) m)
unfolding k_utoa
k_utoa-Prints fuel zero str base m small not_null fits lo hi enough =
    let some_str : (str == 0) ≡ false = ground arith in
    rw some_str (zero-Prints base str 32 m (omega arith))
k_utoa-Prints fuel (suc num) str base m small not_null fits lo hi enough =
    let base_kept : unsigned_int (clamp_base (pos base)) ≡ base = base_lem base hi in
    let some_str : (str == 0) ≡ false = ground arith in
    let some_num : (suc num == 0) ≡ false = ground arith in
    rw (some_str, some_num, base_kept)
      (finish_number-Prints base (suc num) str 32 m _ (omega arith) not_null fits
        (put_digits-Digits fuel 32 base (suc num) str 0 m lo hi small enough))
