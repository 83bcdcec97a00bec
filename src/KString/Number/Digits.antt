-- ===== src/KString/Number/Digits.antt =====
-- The digits that `k_utoa` writes, and what they stand for.
use ntm_os.Prelude.{
  ℕ, zero, suc, ◌+◌, ◌-◌, ◌*◌, ◌/◌, ◌%◌, ◌≤◌, ◌<◌, ◌≡◌, ◌≢◌, ◌⊎◌, inl, inr, refl, ap, arith, leb,
  ltb, ◌==◌, true, false, if◌then◌else◌, all_below, all_below_sound,
}
use native.Mathlib.Nat.{div-add-mod, mod-lt, mul-le-mul_right}
use ntm_os.Prelude.Memory.{Memory, write, in_range}
use ntm_os.Prelude.Run.{Run, done, undefined, out_of_fuel, panic}
use ntm_os.KString.Number.{digit, put_digits}

-- The value of a digit character.
unfoldable pub digit_value : ℕ → ℕ
digit_value c = if leb 65 c then c - 55 else c - 48

-- The sixteen digits.
digit_table : all_below 16 (λ r. digit r == (if ltb r 10 then 48 + r else 55 + r)) ≡ true
unfolding digit all_below
digit_table = refl

digit_lem : (r : ℕ) → r < 16 → digit r ≡ (if ltb r 10 then 48 + r else 55 + r)
digit_lem r small = ground (arith, all_below_sound 16 _ r digit_table small)

pub digit_value-digit : (r : ℕ) → r < 16 → digit_value (digit r) ≡ r
unfolding digit_value
digit_value-digit r small = ground (arith, digit_lem r small)

pub digit-bounds : (r : ℕ) → r < 16 → (48 ≤ digit r) × (digit r ≤ 70) × (digit r ≡ 48 → r ≡ 0)
digit-bounds r small = (
  ground (arith, digit_lem r small),
  ground (arith, digit_lem r small),
  λ e. ground (arith, digit_lem r small),
)

below_base : (base num : ℕ) → 2 ≤ base → base ≤ 16 → num % base < 16
below_base base num lo hi =
    let some_base : 0 < base = omega arith in omega (arith, mod-lt num some_base)

-- The number that `n` digits from `p` on stand for, the last one or the first one the lowest.
unfoldable pub number : ℕ → Memory → ℕ → ℕ → ℕ
number base m p zero = 0
number base m p (suc n) = number base m p n * base + digit_value (m (p + n))

unfoldable pub number_rev : ℕ → Memory → ℕ → ℕ → ℕ
number_rev base m p zero = 0
number_rev base m p (suc n) = digit_value (m p) + base * number_rev base m (p + 1) n

-- Digits in reverse order.
pub number-mirrored :
    (base n : ℕ) (m m' : Memory) (p q : ℕ)
    → ((j : ℕ) → j < n → m' (p + j) ≡ m (q + (n - 1 - j)))
    → number base m' p n ≡ number_rev base m q n
unfolding number number_rev
number-mirrored base zero m m' p q mirror = refl
number-mirrored base (suc n) m m' p q mirror = ground (
  arith,
  mirror n (omega arith),
  number-mirrored base n m m' p (q + 1) λ j below. ground (arith, mirror j (omega arith)),
)

-- `put_digits` from index `i` on ends with `n` digits from `str + i` on.
pub record Digits (base num str i n : ℕ) (m : Memory) (r : ℕ × Memory) : Type 0 where
  pub count : r.0 ≡ i + n
  pub value : number_rev base r.1 (str + i) n ≡ num
  pub rest : (a : ℕ) → in_range (str + i) n a ≡ false → r.1 a ≡ m a
  pub digits : (a : ℕ) → in_range (str + i) n a ≡ true → (48 ≤ r.1 a) × (r.1 a ≤ 70)
  pub top : ((num ≡ 0) × (n ≡ 0)) ⊎ ((0 < n) × (r.1 (str + i + n - 1) ≢ 48))

abbrev pub DigitsOf : ℕ → ℕ → ℕ → ℕ → ℕ → Memory → Run (ℕ × Memory) → Type 0
DigitsOf base num str i most m (done r) = (n : ℕ) × (n ≤ most) × Digits base num str i n m r
DigitsOf base num str i most m panic = ⊥
DigitsOf base num str i most m undefined = ⊥
DigitsOf base num str i most m out_of_fuel = ⊥

module _ (base num str i n : ℕ) (m m' : Memory) (hi : base ≤ 16) (lo : 2 ≤ base)
    (some_num : 0 < num) where
  -- The digit written last is the top one.
  top_digit :
      m' (str + i) ≡ digit (num % base)
      → ((num / base ≡ 0) × (n ≡ 0)) ⊎ ((0 < n) × (m' (str + (i + 1) + n - 1) ≢ 48))
      → m' (str + i + suc n - 1) ≢ 48
  top_digit first (inl (none_left, zero_n)) =
      let low : num % base < 16 = below_base base num lo hi in
      let same : num % base ≡ num =
        omega (arith, div-add-mod num base, ap (λ k. base * k) none_left) in
      λ e. absurd (ground (arith, (digit-bounds (num % base) low).2 (ground arith)))
  top_digit first (inr (some_n, top)) = ground (arith, top)

  Digits-suc :
      (l : ℕ)
      → Digits base (num / base) str (i + 1) n (write m (str + i) (digit (num % base))) (l, m')
      → Digits base num str i (suc n) m (l, m')
  unfolding write number_rev
  Digits-suc l d =
      let first : m' (str + i) ≡ digit (num % base) = ground (arith, d.rest (str + i)) in
      let low : num % base < 16 = below_base base num lo hi in
      let moved : str + (i + 1) ≡ str + i + 1 = omega arith in
      record {
        count = omega (arith, d.count);
        value =
            ground
              (arith, first, digit_value-digit (num % base) low, d.value, div-add-mod num base);
        rest = λ a out. ground (arith, d.rest a);
        digits = λ a inside. ground (arith, d.digits a, digit-bounds (num % base) low);
        top = inr (omega arith, top_digit first d.top);
      }

digits_step :
    (x : Run (ℕ × Memory)) (base num str i most : ℕ) (m : Memory)
    → 2 ≤ base
    → base ≤ 16
    → 0 < num
    → DigitsOf base (num / base) str (i + 1) most (write m (str + i) (digit (num % base))) x
    → DigitsOf base num str i (suc most) m x
digits_step (done (l, m')) base num str i most m lo hi some_num (n, below, d) =
    (suc n, omega arith, Digits-suc base num str i n m m' hi lo some_num l d)
digits_step panic base num str i most m lo hi some_num d = d
digits_step undefined base num str i most m lo hi some_num d = d
digits_step out_of_fuel base num str i most m lo hi some_num d = d

abbrev pow2 : ℕ → ℕ
pow2 zero = 1
pow2 (suc b) = 2 * pow2 b

two_le_mul : (a b : ℕ) → 2 ≤ a → 2 * b ≤ a * b
two_le_mul a b lo = mul-le-mul_right b lo

pub put_digits-Digits :
    (fuel bits base num str i : ℕ) (m : Memory)
    → 2 ≤ base
    → base ≤ 16
    → num < pow2 bits
    → bits < fuel
    → DigitsOf base num str i bits m (put_digits fuel num base str i m)
unfolding put_digits number_rev
put_digits-Digits zero bits base num str i m lo hi small enough = absurd (omega arith)
put_digits-Digits (suc fuel) bits base zero str i m lo hi small enough = (
  0,
  omega arith,
  record {
    count = ground arith;
    value = refl;
    rest = λ a out. refl;
    digits = λ a inside. ground arith;
    top = inl (refl, refl);
  },
)
put_digits-Digits (suc fuel) zero base (suc num) str i m lo hi small enough = absurd (omega arith)
put_digits-Digits (suc fuel) (suc bits) base (suc num) str i m lo hi small enough =
    let low : suc num % base < 16 = below_base base (suc num) lo hi in
    let in_map : ltb 16 (suc num % base) ≡ false = ground arith in
    let some_base : (base == 0) ≡ false = ground arith in
    let left : suc num / base < pow2 bits =
      ground (arith, div-add-mod (suc num) base, two_le_mul base (suc num / base) lo) in
    let not_zero : (suc num == 0) ≡ false = ground arith in
    rw (not_zero, in_map, some_base)
      (digits_step _ base (suc num) str i bits m lo hi (omega arith)
        (put_digits-Digits fuel bits base (suc num / base) str (i + 1) _ lo hi left (omega arith)))
