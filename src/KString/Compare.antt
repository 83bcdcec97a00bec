-- ===== src/KString/Compare.antt =====
-- `k_memcmp` and `k_memchr`.
use ntm_os.Prelude.{
  ℕ, zero, suc, ◌+◌, ◌<◌, ◌≡◌, ◌≢◌, ◌⊎◌, inl, inr, refl, arith, true, false, Bool-cases,
}
use ntm_os.Prelude.Int.{ℤ, pos, eqb_ℤ, signed_char, signed_char_injective, -ℤ_self, eq_of_-ℤ}
use ntm_os.Prelude.Memory.{Memory}
use ntm_os.KString.{difference, k_memcmp, k_memchr}

-- Every cell holds a byte.
abbrev pub IsBytes : Memory → Type 0
IsBytes m = (a : ℕ) → m a < 256

pub eqb_ℤ_eq : (a b : ℤ) → eqb_ℤ a b ≡ true → a ≡ b
eqb_ℤ_eq a b h = ground arith

pub eqb_ℤ_ne : (a b : ℤ) → eqb_ℤ a b ≡ false → a ≢ b
eqb_ℤ_ne a b h e = ground arith

pub difference-zero : (m : Memory) (p q : ℕ) → IsBytes m → difference m p q ≡ pos 0 → m p ≡ m q
unfolding difference
difference-zero m p q bytes e =
    signed_char_injective (m p) (m q) (bytes p) (bytes q) (eq_of_-ℤ _ _ e)

pub difference-same : (m : Memory) (p q : ℕ) → m p ≡ m q → difference m p q ≡ pos 0
unfolding difference
difference-same m p q e = rw e (-ℤ_self (signed_char (m q)))

-- `k_memcmp` finds a first difference, and returns it, or finds none, and returns 0.
abbrev pub Compared : Memory → ℕ → ℕ → ℕ → ℤ → Type 0
Compared m p q n r =
    ((r ≡ pos 0) × ((i : ℕ) → i < n → m (p + i) ≡ m (q + i)))
    ⊎ ((k : ℕ) × (k < n)
        × ((i : ℕ) → i < k → m (p + i) ≡ m (q + i))
        × (m (p + k) ≢ m (q + k))
        × (r ≡ difference m (p + k) (q + k)))

suc_shift : (p i : ℕ) → p + suc i ≡ p + 1 + i
suc_shift p i = omega arith

add_zero : (p : ℕ) → p + 0 ≡ p
add_zero p = omega arith

-- A property of a first offset and of those behind it.
pub below_suc {ℓ} :
    (P : ℕ → Type ℓ) (n : ℕ) → P 0 → ((i : ℕ) → i < n → P (suc i)) → (i : ℕ) → i < suc n → P i
below_suc P n first later zero below = first
below_suc P n first later (suc i) below = later i (omega arith)

Compared-suc :
    (m : Memory) (p q n : ℕ) (r : ℤ)
    → m p ≡ m q
    → Compared m (p + 1) (q + 1) n r
    → Compared m p q (suc n) r
Compared-suc m p q n r e (inl (zero_r, same)) = inl (
  zero_r,
  below_suc (λ i. m (p + i) ≡ m (q + i)) n (ground arith) λ i below. ground (arith, same i below),
)
Compared-suc m p q n r e (inr (k, below, same, differ, value)) = inr (
  suc k,
  omega arith,
  below_suc (λ i. m (p + i) ≡ m (q + i)) k (ground arith) (λ i ik. ground (arith, same i ik)),
  rw (suc_shift p k, suc_shift q k) differ,
  rw (suc_shift p k, suc_shift q k) value,
)

-- `k_memcmp` on a memory of bytes returns the difference, as signed bytes, of the first two bytes
-- that differ, and 0 if none do.
pub k_memcmp-Compared : (m : Memory) (p q n : ℕ) → IsBytes m → Compared m p q n (k_memcmp m p q n)
unfolding k_memcmp
k_memcmp-Compared m p q zero bytes = inl (refl, λ i below. absurd (omega arith))
k_memcmp-Compared m p q (suc n) bytes = elim (Bool-cases (eqb_ℤ (difference m p q) (pos 0))) [
  | inl same ↦ rw same (
      Compared-suc m p q n _ (difference-zero m p q bytes (eqb_ℤ_eq _ _ same))
        (k_memcmp-Compared m (p + 1) (q + 1) n bytes))
  | inr differ ↦ rw differ (
      inr (
        0,
        omega arith,
        (λ i below. absurd (omega arith)),
        (λ e. eqb_ℤ_ne _ _ differ (difference-same m p q (ground arith))),
        ground arith,
      ))
]

-- `k_memchr` returns 0 if no byte has the value, as signed bytes, and otherwise the address of the
-- first that does.
pub k_memchr_first :
    (m : Memory) (p : ℕ) (value : ℤ) (n : ℕ)
    → ((k_memchr m p value n ≡ 0) × ((i : ℕ) → i < n → signed_char (m (p + i)) ≢ value))
      ⊎ ((k : ℕ) × (k < n)
          × (k_memchr m p value n ≡ p + k)
          × (signed_char (m (p + k)) ≡ value)
          × ((i : ℕ) → i < k → signed_char (m (p + i)) ≢ value))
unfolding k_memchr
k_memchr_first m p value zero = inl (refl, λ i below. absurd (omega arith))
k_memchr_first m p value (suc n) = elim (Bool-cases (eqb_ℤ (signed_char (m p)) value)) [
  | inl same ↦ rw same (
      inr (
        0,
        omega arith,
        ground arith,
        rw (add_zero p) (eqb_ℤ_eq _ _ same),
        λ i below. absurd (omega arith),
      ))
  | inr differ ↦ rw differ (elim (k_memchr_first m (p + 1) value n) [
    | inl (none_found, never) ↦ inl (
      none_found,
      below_suc (λ i. signed_char (m (p + i)) ≢ value) n (rw (add_zero p) (eqb_ℤ_ne _ _ differ))
          λ i below. rw (suc_shift p i) (never i below),
    )
    | inr (k, below, value_at, same, never) ↦ inr (
      suc k,
      omega arith,
      ground arith,
      rw (suc_shift p k) same,
      below_suc (λ i. signed_char (m (p + i)) ≢ value) k (rw (add_zero p) (eqb_ℤ_ne _ _ differ))
          λ i ik. rw (suc_shift p i) (never i ik),
    )
  ])
]
