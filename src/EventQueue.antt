-- ===== src/EventQueue.antt =====
-- The per-task event queue: `initial_task_event_queue`, `enqueue_event_queue` and
-- `dequeue_event_queue` of tasks.c over `simple_interrupt_event_queue_t` of kernel_inits.h.
-- The queue stores pointers to event nodes; a null pointer is 0. `none` is a null queue pointer.
pub mod Fifo
pub mod Inv
pub mod Refine
mod Tests
use ntm_os.Prelude.{
  ℕ, ◌+◌, nonzero, ◌&&◌, Option, none, some, List, leb, ◌==◌, if◌then◌else◌, get_or, set, [], ◌∷◌,
}
use ntm_os.Prelude.Int.{ℤ, pos, negsuc}

abbrev pub n_nodes : ℕ
n_nodes = 1024

pub record EventQueue : Type 0 where
  pub head : ℕ
  pub tail : ℕ
  pub full : ℕ
  pub nodes : List ℕ

pub initial_queue : EventQueue → EventQueue
initial_queue q = record q { head = 0; tail = 0; full = 0 }

pub initial_task_event_queue : Option EventQueue → Option EventQueue
unfolding initial_queue
initial_task_event_queue none = none
initial_task_event_queue (some q) = some (initial_queue q)

-- `i++; if (i >= sizeof nodes / sizeof nodes[0]) i = 0;`
unfoldable pub advance : ℕ → ℕ
advance i = if leb n_nodes (i + 1) then 0 else i + 1

-- The store, the advance of `tail` and the test that sets `full`.
unfoldable pub store_node : EventQueue → ℕ → EventQueue
store_node q p =
    let tail' = advance q.tail in
    record q {
      nodes = set q.nodes q.tail p;
      tail = tail';
      full = if q.head == tail' then 1 else q.full;
    }

-- `enqueue_event_queue` at a queue that is not null.
unfoldable pub enqueue : EventQueue → ℕ → ℤ × EventQueue
enqueue q p =
    if p == 0
    then (negsuc 0, q)
    else if nonzero q.full
    then (negsuc 0, q)
    else (pos 0, store_node q p)

pub enqueue_event_queue : Option EventQueue → ℕ → ℤ × Option EventQueue
unfolding enqueue
enqueue_event_queue none p = (negsuc 0, none)
enqueue_event_queue (some q) p = let (r, q') = enqueue q p in (r, some q')

-- `dequeue_event_queue` at a queue that is not null: the node pointer, or 0.
unfoldable pub dequeue : EventQueue → ℕ × EventQueue
dequeue q =
    if (q.head == q.tail) && (q.full == 0)
    then (0, q)
    else (get_or q.nodes q.head 0, record q { head = advance q.head; full = 0 })

pub dequeue_event_queue : Option EventQueue → ℕ × Option EventQueue
unfolding dequeue
dequeue_event_queue none = (0, none)
dequeue_event_queue (some q) = let (p, q') = dequeue q in (p, some q')

pub data Op : Type 0 where
  put : ℕ → Op
  get : Op

-- A sequence of calls by the interrupt handlers and by the task, with what each call returns.
pub data Reply : Type 0 where
  status : ℤ → Reply
  node : ℕ → Reply

pub run : EventQueue → List Op → List Reply
run q [] = []
run q (put p ∷ ops) = let (r, q') = enqueue q p in status r ∷ (run q' ops)
run q (get ∷ ops) = let (p, q') = dequeue q in node p ∷ (run q' ops)
