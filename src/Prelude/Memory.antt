-- ===== src/Prelude/Memory.antt =====
-- The machine's memory: one byte at each address. Pointers are addresses. Little-endian 32-bit
-- words, and a run of equal writes.
use ntm_os.Prelude.Tests.{◌==◌, leb, ltb, if◌then◌else◌}
use Prim.Native.Nat.{ℕ, zero, suc, ◌+◌, ◌*◌, ◌/◌, ◌%◌, ◌^◌, ◌<◌, ◌≤◌}
use mathlib.Core.Path.{◌≡◌}
use mathlib.Core.Logic.{◌≢◌, ◌⊎◌}
use mathlib.Core.Bool.{Bool, ◌&&◌}
use mathlib.Core.List.{List, [], ◌∷◌}
use native.Mathlib.Omega.{arith}

abbrev pub Memory : Type 0
Memory = ℕ → ℕ

-- `*p = v`
unfoldable pub write : Memory → ℕ → ℕ → Memory
write m p v a = if a == p then v else m a

pub write_self : (m : Memory) (p v a : ℕ) → a ≡ p → write m p v a ≡ v
unfolding write
write_self m p v a e = ground arith

pub write_other : (m : Memory) (p v a : ℕ) → a ≢ p → write m p v a ≡ m a
unfolding write
write_other m p v a e = ground arith

-- An assignment to one element of an array of any type.
unfoldable pub update {ℓ} : {A : Type ℓ} → (ℕ → A) → ℕ → A → ℕ → A
update f p v a = if a == p then v else f a

pub update_self {ℓ} : {A : Type ℓ} (f : ℕ → A) (p : ℕ) (v : A) → update f p v p ≡ v
unfolding update
update_self f p v = ground arith

pub update_other {ℓ} :
    {A : Type ℓ} (f : ℕ → A) (p : ℕ) (v : A) (a : ℕ) → a ≢ p → update f p v a ≡ f a
unfolding update
update_other f p v a e = ground arith

-- Address `a` lies in the `n` cells from `p`.
abbrev pub in_range : ℕ → ℕ → ℕ → Bool
in_range p n a = leb p a && ltb a (p + n)

-- `for (k = p; k < p + n; k++) m[k] = v;`
unfoldable pub fill : ℕ → ℕ → ℕ → Memory → Memory
fill zero p v m = m
fill (suc n) p v m = fill n (p + 1) v (write m p v)

pub fill_lem :
    (n p v : ℕ) (m : Memory) (a : ℕ) → fill n p v m a ≡ (if in_range p n a then v else m a)
unfolding fill write
fill_lem zero p v m a = ground arith
fill_lem (suc n) p v m a = ground (arith, fill_lem n (p + 1) v (write m p v) a)

-- The bytes of an array, copied to `p`.
unfoldable pub store_bytes : ℕ → List ℕ → Memory → Memory
store_bytes p [] m = m
store_bytes p (b ∷ bs) m = store_bytes (p + 1) bs (write m p b)

-- `*(unsigned short *)p = v`
unfoldable pub write_half : Memory → ℕ → ℕ → Memory
write_half m p v = write (write m p (v % 256)) (p + 1) (v / 256 % 256)

-- `*(unsigned int *)p`
unfoldable pub read_word : Memory → ℕ → ℕ
read_word m p = m p + 256 * m (p + 1) + 65536 * m (p + 2) + 16777216 * m (p + 3)

-- `*(unsigned int *)p = v`
unfoldable pub write_word : Memory → ℕ → ℕ → Memory
write_word m p v =
    write (write (write (write m p (v % 256)) (p + 1) (v / 256 % 256)) (p + 2) (v / 65536 % 256))
      (p + 3) (v / 16777216 % 256)

pub read_word-write_word : (m : Memory) (p v : ℕ) → v < 2 ^ 32 → read_word (write_word m p v) p ≡ v
unfolding read_word write_word write
read_word-write_word m p v h = ground arith

pub write_word_other :
    (m : Memory) (p v a : ℕ) → in_range p 4 a ≡ Bool.false → write_word m p v a ≡ m a
unfolding write_word write
write_word_other m p v a h = ground arith

pub read_word-write_word_other :
    (m : Memory) (p v q : ℕ)
    → (p + 4 ≤ q) ⊎ (q + 4 ≤ p)
    → read_word (write_word m p v) q ≡ read_word m q
unfolding read_word
read_word-write_word_other m p v q apart = omega (
  arith,
  write_word_other m p v q (ground arith),
  write_word_other m p v (q + 1) (ground arith),
  write_word_other m p v (q + 2) (ground arith),
  write_word_other m p v (q + 3) (ground arith),
)
