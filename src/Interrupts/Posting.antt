-- ===== src/Interrupts/Posting.antt =====
-- What posting an event keeps, whatever the heap and the queue hold.
use ntm_os.Prelude.{ℕ, ◌≡◌, ◌≢◌, ◌⊎◌, inl, inr, refl, arith, Bool, true, false, ◌==◌, ne→==}
use ntm_os.Prelude.Run.{done}
use ntm_os.KHeap.{take_block, pages_for, Result, address, block_address, k_malloc}
use ntm_os.KHeap.Malloc.{Outcome, too_large, exhausted, taken, k_malloc-Outcome}
use ntm_os.Tasks.{TaskState}
use ntm_os.Interrupts.{post_node, post_event, enqueue_current, fill_node, node_size}

-- What posting an event keeps.
pub record SameTimers (s s' : TaskState) : Type 0 where
  pub timers : s'.timers ≡ s.timers
  pub current : s'.current_task ≡ s.current_task
  pub switch_timer : s'.task_switch_timer ≡ s.task_switch_timer

abbrev pub NoMemory : TaskState → Type 0
NoMemory s = k_malloc s.heap node_size ≡ address 0 s.heap

block-pos : (i : ℕ) → (block_address i == 0) ≡ false
unfolding block_address
block-pos i = ground arith

-- Posting an event ends, with or without memory.
post_node_ends :
    (s : TaskState) (type value : ℕ) (r : Result)
    → k_malloc s.heap node_size ≡ r
    → s.current_task ≢ 0
    → Outcome s.heap node_size r
    → (t : TaskState × Bool) × (post_node s type value r ≡ done t)
      × SameTimers s t.0
      × ((t.1 ≡ true) ⊎ ((t.1 ≡ false) × NoMemory t.0))
unfolding post_node enqueue_current
post_node_ends s type value r at task (too_large _) = (
  (s, false),
  refl,
  record { timers = refl; current = refl; switch_timer = refl },
  inr (refl, at),
)
post_node_ends s type value r at task (exhausted _ _) = (
  (s, false),
  refl,
  record { timers = refl; current = refl; switch_timer = refl },
  inr (refl, at),
)
post_node_ends s type value r at task (taken i _ _) = (
  (
    enqueue_current
        (record s {
          heap = fill_node (take_block s.heap (pages_for node_size) i) (block_address i) type value;
        })
        (block_address i),
    true,
  ),
  rw (block-pos i, ne→== s.current_task 0 task) refl,
  record { timers = refl; current = refl; switch_timer = refl },
  inl refl,
)

pub post_event_ends :
    (s : TaskState) (type value : ℕ)
    → s.current_task ≢ 0
    → (t : TaskState × Bool) × (post_event s type value ≡ done t)
      × SameTimers s t.0
      × ((t.1 ≡ true) ⊎ ((t.1 ≡ false) × NoMemory t.0))
unfolding post_event
post_event_ends s type value task =
    post_node_ends s type value (k_malloc s.heap node_size) refl task
      (k_malloc-Outcome s.heap node_size (omega arith))
