-- ===== src/EventQueue/Inv.antt =====
-- The invariant of the event queue, kept by every operation.
use ntm_os.Prelude.{ℕ, ◌+◌, ◌%◌, ◌<◌, ◌≡◌, ◌≢◌, arith, length, length-set}
use ntm_os.EventQueue.{EventQueue, n_nodes, initial_queue, advance, store_node, enqueue, dequeue}

pub record IsValid (q : EventQueue) : Type 0 where
  pub size : length q.nodes ≡ n_nodes
  pub head_in : q.head < n_nodes
  pub tail_in : q.tail < n_nodes
  pub full_meets : q.full ≢ 0 → q.head ≡ q.tail

pub advance-mod : (i : ℕ) → i < n_nodes → advance i ≡ (i + 1) % n_nodes
unfolding advance
advance-mod i h = ground arith

pub advance-lt : (i : ℕ) → advance i < n_nodes
unfolding advance
advance-lt i = ground arith

pub initial-IsValid : (q : EventQueue) → length q.nodes ≡ n_nodes → IsValid (initial_queue q)
unfolding initial_queue
initial-IsValid q h = ground arith

pub store-IsValid : {q : EventQueue} (p : ℕ) → IsValid q → q.full ≡ 0 → IsValid (store_node q p)
unfolding store_node
store-IsValid {q} p v e = record {
  size = ground (arith, length-set q.nodes q.tail p, v.size);
  head_in = v.head_in;
  tail_in = advance-lt q.tail;
  full_meets = λ ne. ground arith;
}

pub enqueue-IsValid : {q : EventQueue} (p : ℕ) → IsValid q → IsValid (enqueue q p).1
unfolding enqueue
enqueue-IsValid {q} p v = ground (arith, store-IsValid p v)

pub dequeue-IsValid : {q : EventQueue} → IsValid q → IsValid (dequeue q).1
unfolding dequeue
dequeue-IsValid {q} v = ground (arith, advance-lt q.head)
