-- ===== src/Prelude/Chain.antt =====
-- Linked lists through `next` cells. A pointer is a number and null is 0. Cell 0 is the list's head
-- variable and cell `p` is `p->next`, so that a `T **` of the C code is the number of a cell.
use ntm_os.Prelude.Tests.{◌==◌}
use ntm_os.Prelude.Memory.{write, write_self, write_other}
use Prim.Native.Nat.{ℕ}
use mathlib.Core.Path.{◌≡◌, refl, sym, ap₂, ◌∙◌}
use mathlib.Core.Logic.{◌≢◌}
use mathlib.Core.Bool.{Bool, true, false, ◌||◌}
use mathlib.Core.List.{List, [], ◌∷◌, ◌++◌}
use native.Mathlib.Omega.{arith}

abbrev pub Cells : Type 0
Cells = ℕ → ℕ

abbrev pub has : ℕ → List ℕ → Bool
has a [] = false
has a (x ∷ xs) = a == x || has a xs

-- From cell `l` the cells lead through the distinct nodes `xs` to null.
abbrev pub From : Cells → ℕ → List ℕ → Type 0
From cells l [] = cells l ≡ 0
From cells l (x ∷ xs) = (cells l ≡ x) × (x ≢ 0) × (has x xs ≡ false) × From cells x xs

-- The cell in which the list from `l` ends.
abbrev pub last : ℕ → List ℕ → ℕ
last l [] = l
last l (x ∷ xs) = last x xs

pub has-append : (a : ℕ) (xs ys : List ℕ) → has a (xs ++ ys) ≡ (has a xs || has a ys)
has-append a [] ys = refl
has-append a (x ∷ xs) ys = ground (arith, has-append a xs ys)

pub zero-not-has : (cells : Cells) (l : ℕ) (xs : List ℕ) → From cells l xs → has 0 xs ≡ false
zero-not-has cells l [] f = refl
zero-not-has cells l (x ∷ xs) (_, ne, _, rest) = ground (arith, zero-not-has cells x xs rest)

-- A write to a cell outside a list leaves the list.
pub From-write :
    (cells : Cells) (l a v : ℕ) (xs : List ℕ)
    → a ≢ l
    → has a xs ≡ false
    → From cells l xs
    → From (write cells a v) l xs
From-write cells l a v [] ne out f = write_other cells a v l (λ e. ne (omega arith)) ∙ f
From-write cells l a v (x ∷ xs) ne out (e, nz, apart, rest) = (
  write_other cells a v l (λ q. ne (omega arith)) ∙ e,
  nz,
  apart,
  From-write cells x a v xs (ground arith) (ground arith) rest,
)

pub last-has : (x : ℕ) (xs : List ℕ) → has (last x xs) (x ∷ xs) ≡ true
last-has x [] = ground arith
last-has x (y ∷ ys) = ground (arith, last-has y ys)

-- `*tail = t`, where `tail` is the cell in which the list ends and `t->next` is null.
pub From-snoc :
    (cells : Cells) (l t : ℕ) (xs : List ℕ)
    → t ≢ 0
    → t ≢ l
    → has l xs ≡ false
    → has t xs ≡ false
    → cells t ≡ 0
    → From cells l xs
    → From (write cells (last l xs) t) l (xs ++ (t ∷ []))
From-snoc cells l t [] nz ne self out end f =
    (write_self cells l t l refl, nz, refl, write_other cells l t t ne ∙ end)
From-snoc cells l t (x ∷ xs) nz ne self out end (e, xnz, apart, rest) = (
  write_other cells (last x xs) t l (λ q. ground (arith, last-has x xs)) ∙ e,
  xnz,
  ground (arith, has-append x xs (t ∷ [])),
  From-snoc cells x t xs nz (ground arith) apart (ground arith) end rest,
)

pub last-snoc : (l t : ℕ) (xs : List ℕ) → last l (xs ++ (t ∷ [])) ≡ t
last-snoc l t [] = refl
last-snoc l t (x ∷ xs) = last-snoc x t xs

pub has-last : (l a : ℕ) (xs : List ℕ) → a ≢ l → has a xs ≡ false → a ≢ last l xs
has-last l a [] ne out = ne
has-last l a (x ∷ xs) ne out = has-last x a xs (ground arith) (ground arith)

-- The cells determine the list.
pub From-unique :
    (cells : Cells) (l : ℕ) (xs ys : List ℕ) → From cells l xs → From cells l ys → xs ≡ ys
From-unique cells l [] [] f g = refl
From-unique cells l [] (y ∷ ys) f (e, nz, _, _) = absurd (nz (sym e ∙ f))
From-unique cells l (x ∷ xs) [] (e, nz, _, _) g = absurd (nz (sym e ∙ g))
From-unique cells l (x ∷ xs) (y ∷ ys) (e, nz, _, rest) (e', nz', _, rest') =
    let same : x ≡ y = sym e ∙ e' in ap₂ ◌∷◌ same (From-unique cells x xs ys rest (rw same rest'))
