-- ===== src/EventQueue/Tests.antt =====
-- The event queue at a concrete state.
use ntm_os.Prelude.{ℕ, ◌≡◌, refl, arith, [], ◌∷◌, replicate, length-replicate}
use ntm_os.Prelude.Int.{pos, negsuc}
use ntm_os.EventQueue.{
  EventQueue, n_nodes, put, get, status, node, run, enqueue, dequeue, store_node, advance,
}
use ntm_os.EventQueue.Inv.{IsValid}
use ntm_os.EventQueue.Fifo.{run_fifo}
use ntm_os.EventQueue.Refine.{contents, run_refines}

-- Empty, just before the end of the array.
abbrev empty : EventQueue
empty = record { head = 1023; tail = 1023; full = 0; nodes = replicate n_nodes 0 }

empty-IsValid : IsValid empty
empty-IsValid = record {
  size = length-replicate {A = ℕ} n_nodes 0;
  head_in = omega arith;
  tail_in = omega arith;
  full_meets = λ ne. refl;
}

run_refines_example :
    run empty (put 7 ∷ put 8 ∷ put 0 ∷ get ∷ get ∷ get ∷ [])
    ≡ run_fifo (contents empty) (put 7 ∷ put 8 ∷ put 0 ∷ get ∷ get ∷ get ∷ [])
run_refines_example = run_refines (put 7 ∷ put 8 ∷ put 0 ∷ get ∷ get ∷ get ∷ []) empty-IsValid

run-empty :
    run empty (put 7 ∷ put 8 ∷ put 0 ∷ get ∷ get ∷ get ∷ [])
    ≡ status (pos 0) ∷ status (pos 0) ∷ status (negsuc 0) ∷ node 7 ∷ node 8 ∷ node 0 ∷ []
unfolding run enqueue dequeue store_node advance
run-empty = refl
