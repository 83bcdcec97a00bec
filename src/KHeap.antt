-- ===== src/KHeap.antt =====
-- The kernel heap of k_heap.c: `k_malloc` and `k_free` over a bitmap of 512-byte pages.
-- `heap_alloc` is an `int` for each page. The first word of a block holds its number of pages.
-- The addresses are those of kern_basic.h. Where the C code has no defined behaviour (the flag
-- `found` is read before it is set) the result is `undefined`.
pub mod Scan
pub mod Malloc
pub mod Free
mod Tests
use ntm_os.Prelude.{
  ℕ, zero, suc, ◌+◌, ◌-◌, ◌*◌, ◌/◌, ◌%◌, ◌^◌, ◌≡◌, Option, none, some, nonzero, ltb, leb, ◌==◌,
  if◌then◌else◌,
}
use ntm_os.Prelude.Memory.{Memory, fill, read_word, write_word}

abbrev pub heap_page_size : ℕ
heap_page_size = 512

abbrev pub heap_bitmap_size : ℕ
heap_bitmap_size = 1048576

abbrev pub heap_size : ℕ
heap_size = heap_page_size * heap_bitmap_size

-- `KERNEL_HEAP_START_ADDR + sizeof(int) * HEAP_BITMAP_SIZE`
abbrev pub heap_base : ℕ
heap_base = 0x80000000 + 0xC00000 + 4 * heap_bitmap_size

pub record Heap : Type 0 where
  pub alloc : ℕ → ℕ
  pub bytes : Memory

-- The inner loop over `j`, with the rounds left: where it breaks, or `none` with `found == 1`.
unfoldable pub first_used : (ℕ → ℕ) → ℕ → ℕ → ℕ → Option ℕ
first_used alloc i zero j = none
first_used alloc i (suc n) j =
    let rest = first_used alloc i n (j + 1) in if nonzero (alloc (i + j)) then some j else rest

pub data Found : Type 0 where
  found : ℕ → Found
  not_found : Found
  out_of_fuel : Found

-- The outer loop over `i`, below `HEAP_BITMAP_SIZE - pages`.
unfoldable pub scan : ℕ → (ℕ → ℕ) → ℕ → ℕ → Found
scan zero alloc pages i = out_of_fuel
scan (suc fuel) alloc pages i =
    let rest : Found = elim (first_used alloc i pages 0) [
      | none ↦ found i
      | some j ↦ scan fuel alloc pages (i + (j + 1))
    ] in
    if ltb i (heap_bitmap_size - pages) then rest else not_found

-- `real_size` and `pages` of `k_malloc`.
unfoldable pub real_size : ℕ → ℕ
real_size size = (size + 4) % 2 ^ 32

unfoldable pub pages_for : ℕ → ℕ
pages_for size =
    real_size size / heap_page_size + (if real_size size % heap_page_size == 0 then 0 else 1)

-- The page index becomes the block's address; the header and the bitmap are written.
unfoldable pub take_block : Heap → ℕ → ℕ → Heap
take_block h pages i = record h {
  bytes = write_word h.bytes (heap_base + i * heap_page_size) pages;
  alloc = fill pages i 1 h.alloc;
}

unfoldable pub block_address : ℕ → ℕ
block_address i = heap_base + i * heap_page_size + 4

pub data Result : Type 0 where
  address : ℕ → Heap → Result
  undefined : Result

unfoldable pub finish : Heap → ℕ → Found → Result
finish h pages (found i) = address (block_address i) (take_block h pages i)
finish h pages not_found = address 0 h
finish h pages out_of_fuel = undefined

unfoldable pub k_malloc : Heap → ℕ → Result
k_malloc h size =
    if leb heap_size (real_size size)
    then address 0 h
    else if pages_for size == 0
    then undefined
    else finish h (pages_for size) (scan (heap_bitmap_size + 1) h.alloc (pages_for size) 0)

unfoldable pub k_free : Heap → ℕ → Heap
k_free h ptr =
    let p = (ptr + 2 ^ 32 - 4) % 2 ^ 32 in
    let pages = read_word h.bytes p in
    if ltb p heap_base
    then h
    else if ltb heap_bitmap_size pages
    then h
    else record h { alloc = fill pages ((p - heap_base) / heap_page_size) 0 h.alloc }
