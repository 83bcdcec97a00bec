-- ===== src/EventQueue/Fifo.antt =====
-- What a task's event queue promises: a first-in first-out queue of at most `n_nodes` pointers.
use ntm_os.Prelude.{ℕ, List, [], ◌∷◌, ◌++◌, leb, ◌==◌, if◌then◌else◌, length}
use ntm_os.Prelude.Int.{ℤ, pos, negsuc}
use ntm_os.EventQueue.{n_nodes, Op, put, get, Reply, status, node}

unfoldable pub push : List ℕ → ℕ → ℤ × List ℕ
push q p =
    if p == 0
    then (negsuc 0, q)
    else if leb n_nodes (length q)
    then (negsuc 0, q)
    else (pos 0, q ++ (p ∷ []))

unfoldable pub pop : List ℕ → ℕ × List ℕ
pop [] = (0, [])
pop (p ∷ q) = (p, q)

unfoldable pub run_fifo : List ℕ → List Op → List Reply
run_fifo q [] = []
run_fifo q (put p ∷ ops) = let (r, q') = push q p in status r ∷ run_fifo q' ops
run_fifo q (get ∷ ops) = let (p, q') = pop q in node p ∷ run_fifo q' ops
