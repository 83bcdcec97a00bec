-- ===== src/KHeap/Scan.antt =====
-- The search of `k_malloc` ends, and finds the first run of free pages.
use ntm_os.Prelude.{
  ℕ, zero, suc, ◌+◌, ◌-◌, ◌≤◌, ◌<◌, ◌≡◌, ◌≢◌, none, some, arith, inl, inr, Bool-cases, leb, ltb,
  tests, Option-cases,
}
use ntm_os.KHeap.{heap_bitmap_size, first_used, Found, found, not_found, out_of_fuel, scan}

-- The `pages` pages from `i` on are free.
abbrev pub FreeRun : (ℕ → ℕ) → ℕ → ℕ → Type 0
FreeRun alloc i pages = (k : ℕ) → i ≤ k → k < i + pages → alloc k ≡ 0

first_used-none :
    (alloc : ℕ → ℕ) (i n j k : ℕ)
    → first_used alloc i n j ≡ none
    → i + j ≤ k
    → k < i + j + n
    → alloc k ≡ 0
unfolding first_used
first_used-none alloc i zero j k h lo hi = absurd (omega arith)
first_used-none alloc i (suc n) j k h lo hi = ground (arith, first_used-none alloc i n (j + 1) k)

first_used-some :
    (alloc : ℕ → ℕ) (i n j k : ℕ)
    → first_used alloc i n j ≡ some k
    → (j ≤ k) × (k < j + n) × (alloc (i + k) ≢ 0)
unfolding first_used
first_used-some alloc i zero j k h = cc
first_used-some alloc i (suc n) j k h = ground (arith, first_used-some alloc i n (j + 1) k)

-- What a finished search says of the pages from `i` on.
abbrev pub Searched : (ℕ → ℕ) → ℕ → ℕ → Found → Type 0
Searched alloc pages i (found k) =
    (i ≤ k)
    × (k + pages < heap_bitmap_size)
    × FreeRun alloc k pages
    × ((l : ℕ) → i ≤ l → l < k → ¬ FreeRun alloc l pages)
Searched alloc pages i not_found =
    (l : ℕ) → i ≤ l → l + pages < heap_bitmap_size → ¬ FreeRun alloc l pages
Searched alloc pages i out_of_fuel = ⊥

-- A page in use at `u` rules out every run that starts at most `pages` before it.
Searched-skip :
    (alloc : ℕ → ℕ) (pages i u : ℕ) (r : Found)
    → i ≤ u
    → u < i + pages
    → alloc u ≢ 0
    → Searched alloc pages (suc u) r
    → Searched alloc pages i r
Searched-skip alloc pages i u (found k) lo hi used (past, fits, free, first) = (
  omega arith,
  fits,
  free,
  λ l il lk run. elim (Bool-cases (leb l u)) [
    | inl before ↦ used (run u (omega tests) (omega tests))
    | inr after ↦ first l (ground arith) lk run
  ],
)
Searched-skip alloc pages i u not_found lo hi used none_later = λ l il fits run.
    elim (Bool-cases (leb l u)) [
      | inl before ↦ used (run u (omega tests) (omega tests))
      | inr after ↦ none_later l (ground arith) fits run
    ]
Searched-skip alloc pages i u out_of_fuel lo hi used never = never

-- The search with enough fuel for the pages left is complete.
pub scan-Searched :
    (fuel : ℕ) (alloc : ℕ → ℕ) (pages i : ℕ)
    → i ≤ heap_bitmap_size
    → heap_bitmap_size < fuel + i
    → Searched alloc pages i (scan fuel alloc pages i)
unfolding scan
scan-Searched zero alloc pages i inside enough = absurd (omega arith)
scan-Searched (suc fuel) alloc pages i inside enough =
    elim (Bool-cases (ltb i (heap_bitmap_size - pages))) [
      | inr out ↦ rw out λ l lo hi free. omega tests
      | inl more ↦ rw more (elim (Option-cases (first_used alloc i pages 0)) [
        | inl clear ↦ rw clear (
          omega arith,
          omega tests,
          λ k lo hi. first_used-none alloc i pages 0 k clear (omega arith) (omega arith),
          λ l il li run. omega arith,
        )
        | inr (j, used) ↦ rw used (
            let (_, below, ne) = first_used-some alloc i pages 0 j used in
            Searched-skip alloc pages i (i + j) (scan fuel alloc pages (i + (j + 1))) (omega arith)
              (omega arith) ne
              (let e : i + (j + 1) ≡ suc (i + j) = omega arith in
                rw e (scan-Searched fuel alloc pages (suc (i + j)) (omega tests) (omega arith))))
      ])
    ]
