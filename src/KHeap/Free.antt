-- ===== src/KHeap/Free.antt =====
-- The blocks in use: disjoint runs of pages that the bitmap marks exactly. `k_malloc` adds a
-- block, and `k_free` of a block removes that block and no other.
use ntm_os.Prelude.{
  ℕ, ◌+◌, ◌-◌, ◌*◌, ◌/◌, ◌%◌, ◌^◌, ◌≤◌, ◌<◌, ◌≡◌, ◌≢◌, ◌⊎◌, refl, arith, true, false, inl, inr,
  Bool, ◌||◌, List, [], ◌∷◌, ◌++◌, tests, ltb, if◌then◌else◌, ap, ◌∙◌,
}
use ntm_os.Prelude.Memory.{
  Memory, in_range, fill, fill_lem, read_word, write_word, read_word-write_word,
  read_word-write_word_other,
}
use ntm_os.KHeap.{
  Heap, heap_bitmap_size, heap_page_size, heap_base, pages_for, take_block, block_address, Result,
  address, k_malloc, k_free,
}
use ntm_os.KHeap.Malloc.{
  FirstFit, Outcome, too_large, exhausted, taken, pages-bounds, k_malloc-Outcome,
}

-- A block: its first page and its number of pages.
abbrev pub Block : Type 0
Block = ℕ × ℕ

abbrev pub covered : List Block → ℕ → Bool
covered [] k = false
covered ((i, n) ∷ bs) k = in_range i n k || covered bs k

-- The blocks have headers, fit in the heap and do not meet.
abbrev pub Blocks : Memory → List Block → Type 0
Blocks bytes [] = Unit
Blocks bytes ((i, n) ∷ bs) =
    (0 < n)
    × (i + n < heap_bitmap_size)
    × (read_word bytes (heap_base + i * heap_page_size) ≡ n)
    × ((k : ℕ) → in_range i n k ≡ true → covered bs k ≡ false)
    × Blocks bytes bs

pub record IsHeap (h : Heap) (bs : List Block) : Type 0 where
  pub bits : (k : ℕ) → h.alloc k ≡ (if covered bs k then 1 else 0)
  pub blocks : Blocks h.bytes bs

read_word_other :
    (m : Memory) (i l v : ℕ)
    → i ≢ l
    → read_word (write_word m (heap_base + i * heap_page_size) v) (heap_base + l * heap_page_size)
      ≡ read_word m (heap_base + l * heap_page_size)
read_word_other m i l v ne = read_word-write_word_other m _ v _ (omega arith)

-- A header written at a free page leaves the other blocks as they are.
Blocks-write :
    (m : Memory) (i v : ℕ) (bs : List Block)
    → covered bs i ≡ false
    → Blocks m bs
    → Blocks (write_word m (heap_base + i * heap_page_size) v) bs
Blocks-write m i v [] out b = tt
Blocks-write m i v ((l, n) ∷ bs) out (some_pages, fits, header, apart, rest) = (
  some_pages,
  fits,
  read_word_other m i l v (ground arith) ∙ header,
  apart,
  Blocks-write m i v bs (ground arith) rest,
)

-- Taking a free run adds a block.
take_block-IsHeap :
    {h : Heap} {bs : List Block} (n i : ℕ)
    → 0 < n
    → n ≤ heap_bitmap_size
    → FirstFit h n i
    → IsHeap h bs
    → IsHeap (take_block h n i) ((i, n) ∷ bs)
unfolding take_block
take_block-IsHeap {h} {bs} n i some_pages small fit is = record {
  bits = λ k. ground (arith, fill_lem n i 1 h.alloc k, is.bits k);
  blocks = (
    some_pages,
    fit.fits,
    read_word-write_word h.bytes (heap_base + i * heap_page_size) n (omega arith),
    apart,
    Blocks-write h.bytes i n bs (apart i (ground arith)) is.blocks,
  );
}
  where
    apart : (k : ℕ) → in_range i n k ≡ true → covered bs k ≡ false
    apart k inside = ground (arith, is.bits k, fit.free k)

-- Nothing is allocated and the heap is as before, or a block is added that holds the header and
-- the `size` bytes.
abbrev pub Allocates : Heap → List Block → ℕ → Result → Type 0
Allocates h bs size r =
    (r ≡ address 0 h)
    ⊎ ((i : ℕ) × (h' : Heap) × (r ≡ address (block_address i) h')
        × IsHeap h' ((i, pages_for size) ∷ bs)
        × (size + 4 ≤ pages_for size * heap_page_size))

Outcome-Allocates :
    {h : Heap} {bs : List Block} {size : ℕ} {r : Result}
    → IsHeap h bs
    → Outcome h size r
    → Allocates h bs size r
Outcome-Allocates is (too_large _) = inl refl
Outcome-Allocates is (exhausted _ _) = inl refl
Outcome-Allocates {h} {size} is (taken i below fit) =
    let (some_pages, at_most, room) = pages-bounds size below in
    inr (
      i,
      take_block h (pages_for size) i,
      refl,
      take_block-IsHeap (pages_for size) i some_pages at_most fit is,
      room,
    )

-- If the size does not wrap, `k_malloc` either returns 0 and changes nothing, or returns the
-- address of a new block which is disjoint from the blocks in use, which the bitmap marks beside
-- exactly those, and which has room for the header and the size.
pub k_malloc-IsHeap :
    {h : Heap} {bs : List Block} (size : ℕ)
    → size + 4 < 2 ^ 32
    → IsHeap h bs
    → Allocates h bs size (k_malloc h size)
k_malloc-IsHeap {h} size small is = Outcome-Allocates is (k_malloc-Outcome h size small)

covered-append :
    (xs ys : List Block) (k : ℕ) → covered (xs ++ ys) k ≡ (covered xs k || covered ys k)
covered-append [] ys k = refl
covered-append ((i, n) ∷ xs) ys k = ground (arith, covered-append xs ys k)

-- The block between `xs` and `ys` can be read off, and the others are blocks without it.
Blocks-middle :
    (m : Memory) (xs ys : List Block) (i n : ℕ)
    → Blocks m (xs ++ ((i, n) ∷ ys))
    → (i + n < heap_bitmap_size)
      × (read_word m (heap_base + i * heap_page_size) ≡ n)
      × ((k : ℕ) → in_range i n k ≡ true → covered (xs ++ ys) k ≡ false)
      × Blocks m (xs ++ ys)
Blocks-middle m [] ys i n (some_pages, fits, header, apart, rest) = (fits, header, apart, rest)
Blocks-middle m ((l, w) ∷ xs) ys i n (some_pages, fits, header, apart, rest) =
    let (fits', header', apart', rest') = Blocks-middle m xs ys i n rest in
    (
      fits',
      header',
      λ k inside. ground (arith, apart k, apart' k inside, covered-append xs ((i, n) ∷ ys) k),
      (
        some_pages,
        fits,
        header,
        λ k inside.
            ground
              (arith, apart k inside, covered-append xs ((i, n) ∷ ys) k, covered-append xs ys k),
        rest',
      ),
    )

block_address-header :
    (i : ℕ)
    → i < heap_bitmap_size
    → (block_address i + 2 ^ 32 - 4) % 2 ^ 32 ≡ heap_base + i * heap_page_size
unfolding block_address
block_address-header i h = omega arith

k_free-block :
    (h : Heap) (i n : ℕ)
    → i + n < heap_bitmap_size
    → read_word h.bytes (heap_base + i * heap_page_size) ≡ n
    → k_free h (block_address i) ≡ record h { alloc = fill n i 0 h.alloc }
unfolding k_free
k_free-block h i n fits header =
    rw (block_address-header i (omega arith), header, above, small)
      (ap (λ k. record h { alloc = fill n k 0 h.alloc }) index)
  where
    above : ltb (heap_base + i * heap_page_size) heap_base ≡ false
    above = omega tests

    small : ltb heap_bitmap_size n ≡ false
    small = omega tests

    index : (heap_base + i * heap_page_size - heap_base) / heap_page_size ≡ i
    index = omega arith

-- `k_free` of the address of a block in use removes that block from the blocks in use, which the
-- bitmap still marks exactly, and keeps every other one.
pub k_free-IsHeap :
    {h : Heap} (xs ys : List Block) (i n : ℕ)
    → IsHeap h (xs ++ ((i, n) ∷ ys))
    → IsHeap (k_free h (block_address i)) (xs ++ ys)
k_free-IsHeap {h} xs ys i n is =
    let (fits, header, apart, rest) = Blocks-middle h.bytes xs ys i n is.blocks in
    rw (k_free-block h i n fits header) (record {
      bits = λ k. ground (
        arith,
        fill_lem n i 0 h.alloc k,
        is.bits k,
        apart k,
        covered-append xs ys k,
        covered-append xs ((i, n) ∷ ys) k,
      );
      blocks = rest;
    })
