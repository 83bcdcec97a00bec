-- ===== src/Mm/UserSlots.antt =====
-- The user memory slots: their address ranges, and what the slot calls do.
use ntm_os.Prelude.{ℕ, ◌+◌, ◌≤◌, ◌<◌, ◌≡◌, ◌⊎◌, inl, inr, arith, zero, suc, ◌==◌, Bool-cases}
use ntm_os.Prelude.Int.{ℤ, pos, negsuc}
use ntm_os.Prelude.Memory.{Memory}
use ntm_os.Prelude.Run.{done, panic}
use ntm_os.Mm.{
  n_max_process_mem_slots, find_slot, proc_umem_alloc, proc_umem_free, get_proc_umem_start_address,
  get_proc_umem_end_address,
}

-- The ranges of two slots lie in the 64 MB from 64 MB on, have 1 MB each, and meet only if the
-- slots are the same.
pub umem_ranges :
    (i j : ℤ) {s e s' e' : ℕ}
    → get_proc_umem_start_address i ≡ done s
    → get_proc_umem_end_address i ≡ done e
    → get_proc_umem_start_address j ≡ done s'
    → get_proc_umem_end_address j ≡ done e'
    → (0x4000000 ≤ s) × (e ≤ 0x8000000) × (e ≡ s + 0x100000) × ((i ≡ j) ⊎ ((e ≤ s') ⊎ (e' ≤ s)))
unfolding get_proc_umem_start_address get_proc_umem_end_address
umem_ranges (negsuc n) j a b c d = cc
umem_ranges (pos i) (negsuc n) a b c d = cc
umem_ranges (pos i) (pos j) a b c d = ground arith

-- Both addresses are given for the slots 0 to 63, and any other slot panics.
pub umem_address_panics :
    (i : ℕ)
    → n_max_process_mem_slots ≤ i
    → (get_proc_umem_start_address (pos i) ≡ panic) × (get_proc_umem_end_address (pos i) ≡ panic)
unfolding get_proc_umem_start_address get_proc_umem_end_address
umem_address_panics i h = ground arith

find_slot-free :
    (n : ℕ) (slots : Memory) (k i : ℕ)
    → find_slot n slots k ≡ pos i
    → (k ≤ i) × (i < k + n) × (slots i ≡ 0)
unfolding find_slot
find_slot-free zero slots k i e = cc
find_slot-free (suc n) slots k i e = elim (Bool-cases (slots k == 0)) [
  | inl free ↦ ground arith
  | inr used ↦ ground (arith, find_slot-free n slots (k + 1) i)
]

-- The slot that `proc_umem_alloc` returns is in range but still counts as unused: freeing it
-- panics, and the next call returns it again.
pub proc_umem_alloc_unmarked :
    (slots : Memory) {i : ℕ}
    → (proc_umem_alloc slots).0 ≡ pos i
    → let slots' = (proc_umem_alloc slots).1 in
      (i < n_max_process_mem_slots)
      × (proc_umem_free slots' (pos i) ≡ panic)
      × ((proc_umem_alloc slots').0 ≡ pos i)
unfolding proc_umem_alloc proc_umem_free
proc_umem_alloc_unmarked slots {i} e =
    let (_, below, free) = find_slot-free n_max_process_mem_slots slots 0 i e in
    (omega arith, ground arith, e)
