-- ===== src/KString/Text/Order.antt =====
-- What the comparing string routines answer.
use ntm_os.Prelude.{
  ℕ, zero, suc, ◌+◌, ◌<◌, ◌≡◌, ◌≢◌, ◌⊎◌, ◌↔◌, inl, inr, refl, arith, Option, none, some,
}
use ntm_os.Prelude.Int.{ℤ, pos}
use ntm_os.Prelude.Memory.{Memory}
use ntm_os.KString.{difference}
use ntm_os.KString.Compare.{IsBytes, difference-zero, difference-same, below_suc}
use ntm_os.KString.Text.{CString, k_strcmp, k_strncmp}
use ntm_os.KString.Text.Contents.{CString-tail, first_byte, last_byte}

-- `k_strncmp` of at least one byte ignores the limit: it is `k_strcmp`.
pub k_strncmp-k_strcmp :
    (fuel : ℕ) (m : Memory) (p q n : ℕ) → 0 < n → k_strncmp fuel m p q n 0 ≡ k_strcmp fuel m p q
unfolding k_strncmp k_strcmp
k_strncmp-k_strcmp zero m p q n some_bytes = refl
k_strncmp-k_strcmp (suc fuel) m p q n some_bytes =
    ground (arith, k_strncmp-k_strcmp fuel m (p + 1) (q + 1) n some_bytes)

-- The strings at `p` and `q` are equal.
abbrev pub SameString : Memory → ℕ → ℕ → ℕ → ℕ → Type 0
SameString m p n q k = (n ≡ k) × ((i : ℕ) → i < n → m (p + i) ≡ m (q + i))

-- The answer of a comparison is 0 exactly for equal strings.
abbrev pub Decides : Option ℤ → Type 0 → Type 0
Decides none P = ⊥
Decides (some r) P = (r ≡ pos 0) ↔ P

same_or_not : (a b : ℕ) → (a ≡ b) ⊎ (a ≢ b)
same_or_not a b = ground arith

-- The three ways of a round.
k_strcmp_stop :
    (fuel : ℕ) (m : Memory) (p q : ℕ)
    → (m p ≡ 0) ⊎ (m q ≡ 0)
    → k_strcmp (suc fuel) m p q ≡ some (difference m p q)
unfolding k_strcmp
k_strcmp_stop fuel m p q stop = ground arith

k_strcmp_step :
    (fuel : ℕ) (m : Memory) (p q : ℕ)
    → m p ≢ 0
    → m p ≡ m q
    → k_strcmp (suc fuel) m p q ≡ k_strcmp fuel m (p + 1) (q + 1)
unfolding k_strcmp
k_strcmp_step fuel m p q here same = ground (arith, difference-same m p q same)

k_strcmp_differ :
    (fuel : ℕ) (m : Memory) (p q : ℕ)
    → IsBytes m
    → m p ≢ m q
    → k_strcmp (suc fuel) m p q ≡ some (difference m p q)
unfolding k_strcmp
k_strcmp_differ fuel m p q bytes differ =
    let different : difference m p q ≢ pos 0 = λ e. differ (difference-zero m p q bytes e) in
    ground arith

decides_no :
    (m : Memory) (p n q k : ℕ)
    → IsBytes m
    → m p ≢ m q
    → ¬ SameString m p n q k
    → Decides (some (difference m p q)) (SameString m p n q k)
decides_no m p n q k bytes differ other =
    (λ e. absurd (differ (difference-zero m p q bytes e)), λ same. absurd (other same))

decides_step :
    (r : Option ℤ) (m : Memory) (p n q k : ℕ)
    → m p ≡ m q
    → Decides r (SameString m (p + 1) n (q + 1) k)
    → Decides r (SameString m p (suc n) q (suc k))
decides_step none m p n q k e never = never
decides_step (some r) m p n q k e (to, from) = (
  λ zero_r.
      let (len, same) = to zero_r in
      (
        ground arith,
        below_suc (λ i. m (p + i) ≡ m (q + i)) n (ground arith)
            λ i below. ground (arith, same i below),
      ),
  λ (len, same). from (ground arith, λ i below. ground (arith, same (suc i) (omega arith))),
)

-- `k_strcmp` of two strings of bytes ends, and answers 0 exactly if they are equal.
pub k_strcmp-Decides :
    (fuel : ℕ) (m : Memory) (p n q k : ℕ)
    → IsBytes m
    → CString m p n
    → CString m q k
    → n < fuel
    → Decides (k_strcmp fuel m p q) (SameString m p n q k)
k_strcmp-Decides zero m p n q k bytes left right enough = absurd (omega arith)
k_strcmp-Decides (suc fuel) m p zero q zero bytes left right enough =
    let same : m p ≡ m q = ground (arith, last_byte m p left, last_byte m q right) in
    rw (k_strcmp_stop fuel m p q (inl (last_byte m p left)))
      (λ _. (refl, λ i below. absurd (omega arith)), λ _. difference-same m p q same)
k_strcmp-Decides (suc fuel) m p zero q (suc k) bytes left right enough =
    rw (k_strcmp_stop fuel m p q (inl (last_byte m p left))) (
      decides_no m p 0 q (suc k) bytes (ground (arith, last_byte m p left, first_byte m q k right))
        (λ same. omega (arith, same.0)))
k_strcmp-Decides (suc fuel) m p (suc n) q zero bytes left right enough =
    rw (k_strcmp_stop fuel m p q (inr (last_byte m q right))) (
      decides_no m p (suc n) q 0 bytes (ground (arith, first_byte m p n left, last_byte m q right))
        (λ same. omega (arith, same.0)))
k_strcmp-Decides (suc fuel) m p (suc n) q (suc k) bytes left right enough =
    elim (same_or_not (m p) (m q)) [
      | inl same ↦ rw (k_strcmp_step fuel m p q (first_byte m p n left) same) (
          decides_step _ m p n q k same (
            k_strcmp-Decides fuel m (p + 1) n (q + 1) k bytes (CString-tail m p n left)
              (CString-tail m q k right) (omega arith)))
      | inr differ ↦ rw (k_strcmp_differ fuel m p q bytes differ) (
          decides_no m p (suc n) q (suc k) bytes differ
            (λ (len, same). differ (ground (arith, same 0 (omega arith)))))
    ]
