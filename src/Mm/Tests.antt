-- ===== src/Mm/Tests.antt =====
-- The memory managers at concrete states.
use ntm_os.Prelude.{◌≡◌, refl, arith, [], ◌∷◌, if◌then◌else◌, ◌==◌}
use ntm_os.Prelude.Int.{pos}
use ntm_os.Prelude.Memory.{Memory}
use ntm_os.Prelude.Run.{done, panic}
use ntm_os.Mm.{get_proc_umem_start_address, get_proc_umem_end_address}
use ntm_os.Mm.Frames.{alloc, free, calls, palloc_hands_out_zero}
use ntm_os.Mm.UserSlots.{umem_address_panics}

abbrev unused : Memory
unused = λ i. 0

abbrev first_two_used : Memory
first_two_used = λ i. if i == 0 then 1 else if i == 1 then 1 else 0

palloc_hands_out_zero_example : calls unused (alloc ∷ free 0 ∷ alloc ∷ []) ≡ done (0 ∷ 0 ∷ [])
palloc_hands_out_zero_example =
    palloc_hands_out_zero (alloc ∷ free 0 ∷ alloc ∷ []) unused (λ i. refl)

umem_address_panics_example :
    (get_proc_umem_start_address (pos 64) ≡ panic) × (get_proc_umem_end_address (pos 64) ≡ panic)
umem_address_panics_example = umem_address_panics 64 (omega arith)
