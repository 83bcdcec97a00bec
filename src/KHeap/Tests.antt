-- ===== src/KHeap/Tests.antt =====
-- The heap at concrete requests.
use ntm_os.Prelude.{◌+◌, ◌*◌, ◌≡◌, refl, arith, [], ◌∷◌, ◌||◌, if◌then◌else◌}
use ntm_os.Prelude.Memory.{in_range, write, write_word, read_word}
use ntm_os.KHeap.{
  Heap, address, undefined, first_used, scan, real_size, pages_for, take_block, block_address,
  finish, k_malloc, k_free, heap_base,
}
use ntm_os.KHeap.Malloc.{Outcome, k_malloc-Outcome}
use ntm_os.KHeap.Free.{IsHeap, Allocates, k_malloc-IsHeap, k_free-IsHeap}

abbrev fresh : Heap
fresh = record { alloc = λ k. 0; bytes = λ a. 0 }

k_malloc-fresh : k_malloc fresh 100 ≡ address 0x8100_0004 (take_block fresh 1 0)
unfolding k_malloc scan first_used real_size pages_for finish block_address
k_malloc-fresh = refl

-- A size that wraps with its header to 0 reads `found` before it is set.
k_malloc_wraps : k_malloc fresh 0xffff_fffc ≡ undefined
unfolding k_malloc real_size pages_for
k_malloc_wraps = refl

fresh-IsHeap : IsHeap fresh []
fresh-IsHeap = record { bits = λ k. refl; blocks = tt }

k_malloc-Outcome_example : Outcome fresh 700 (k_malloc fresh 700)
k_malloc-Outcome_example = k_malloc-Outcome fresh 700 (omega arith)

k_malloc-IsHeap_example : Allocates fresh [] 700 (k_malloc fresh 700)
k_malloc-IsHeap_example = k_malloc-IsHeap 700 (omega arith) fresh-IsHeap

-- Pages 3 and 4 are one block, page 7 another.
abbrev busy : Heap
busy = record {
  alloc = λ k. if in_range 3 2 k || in_range 7 1 k then 1 else 0;
  bytes = write_word (write_word (λ a. 0) (heap_base + 3 * 512) 2) (heap_base + 7 * 512) 1;
}

busy-IsHeap : IsHeap busy ((3, 2) ∷ (7, 1) ∷ [])
unfolding read_word write_word write
busy-IsHeap = record {
  bits = λ k. ground arith;
  blocks = (
    omega arith,
    omega arith,
    refl,
    λ k inside. ground arith,
    (omega arith, omega arith, refl, λ k inside. refl, tt),
  );
}

k_free-IsHeap_example : IsHeap (k_free busy (block_address 7)) ((3, 2) ∷ [])
k_free-IsHeap_example = k_free-IsHeap ((3, 2) ∷ []) [] 7 1 busy-IsHeap
