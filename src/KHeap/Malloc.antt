-- ===== src/KHeap/Malloc.antt =====
-- What `k_malloc` returns and changes, on every branch.
use ntm_os.Prelude.{
  ℕ, ◌+◌, ◌*◌, ◌^◌, ◌≤◌, ◌<◌, ◌≡◌, arith, false, inl, inr, Bool-cases, leb, tests, leb→lt, ◌==◌,
}
use ntm_os.KHeap.{
  Heap, heap_bitmap_size, heap_size, heap_page_size, Found, found, not_found, out_of_fuel,
  real_size, pages_for, take_block, block_address, Result, address, finish, k_malloc,
}
use ntm_os.KHeap.Scan.{FreeRun, Searched, scan-Searched}

-- `i` is the first page of the lowest run of `pages` free pages, and the run ends before the last
-- page of the heap.
pub record FirstFit (h : Heap) (pages i : ℕ) : Type 0 where
  pub free : FreeRun h.alloc i pages
  pub fits : i + pages < heap_bitmap_size
  pub lowest : (l : ℕ) → l < i → ¬ FreeRun h.alloc l pages

-- A request for `size` bytes ends in one of three ways: it is too large, no run of free pages ends
-- before the last page, or the first fit is taken.
pub data Outcome (h : Heap) (size : ℕ) : Result → Type 0 where
  too_large : heap_size ≤ size + 4 → Outcome h size (address 0 h)
  exhausted :
      size + 4 < heap_size
      → ((l : ℕ) → l + pages_for size < heap_bitmap_size → ¬ FreeRun h.alloc l (pages_for size))
      → Outcome h size (address 0 h)
  taken :
      (i : ℕ)
      → size + 4 < heap_size
      → FirstFit h (pages_for size) i
      → Outcome h size (address (block_address i) (take_block h (pages_for size) i))

pub pages-bounds :
    (size : ℕ)
    → size + 4 < heap_size
    → (0 < pages_for size)
      × (pages_for size ≤ heap_bitmap_size)
      × (size + 4 ≤ pages_for size * heap_page_size)
unfolding pages_for real_size
pages-bounds size h = ground arith

finish-Outcome :
    (h : Heap) (size : ℕ) (r : Found)
    → size + 4 < heap_size
    → Searched h.alloc (pages_for size) 0 r
    → Outcome h size (finish h (pages_for size) r)
unfolding finish
finish-Outcome h size (found i) below (lo, fits, free, first) =
    taken i below (record { free = free; fits = fits; lowest = λ l li. first l (omega arith) li })
finish-Outcome h size not_found below never = exhausted below λ l fits. never l (omega arith) fits
finish-Outcome h size out_of_fuel below never = absurd never

real_size-add : (size : ℕ) → size + 4 < 2 ^ 32 → real_size size ≡ size + 4
unfolding real_size
real_size-add size h = omega arith

-- k_malloc ends for every request whose size does not wrap with its header. It refuses a request
-- that is too large. Otherwise it takes the lowest run of enough free pages that ends before the
-- last page of the heap, and refuses the request if there is none, even where a run that reaches
-- to the last page is free.
pub k_malloc-Outcome : (h : Heap) (size : ℕ) → size + 4 < 2 ^ 32 → Outcome h size (k_malloc h size)
unfolding k_malloc
k_malloc-Outcome h size small = elim (Bool-cases (leb heap_size (real_size size))) [
  | inl big ↦ rw big (too_large (omega (tests, real_size-add size small)))
  | inr fits ↦
      let below : size + 4 < heap_size = omega (leb→lt, arith, real_size-add size small) in
      let some_pages : (pages_for size == 0) ≡ false = omega (tests, pages-bounds size below) in
      rw (fits, some_pages)
        (finish-Outcome h size _ below (
          scan-Searched (heap_bitmap_size + 1) h.alloc (pages_for size) 0 (omega arith)
            (omega arith)))
]
