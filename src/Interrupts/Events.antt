-- ===== src/Interrupts/Events.antt =====
-- An event reaches the queue of the running task.
use ntm_os.Prelude.{
  ℕ, ◌+◌, ◌*◌, ◌%◌, ◌^◌, ◌≤◌, ◌<◌, ◌≡◌, ◌≢◌, inl, inr, refl, ap, leb, arith, Bool, true, false,
  List, [], ◌∷◌, ◌∙◌, ne→==, if◌then◌else◌,
}
use mathlib.Core.Path.{subst}
use ntm_os.Prelude.Memory.{
  Memory, read_word, write_word, read_word-write_word, read_word-write_word_other, update_self,
}
use ntm_os.Prelude.Run.{done}
use ntm_os.KHeap.{
  Heap, heap_base, heap_page_size, Result, address, block_address, k_malloc, pages_for, real_size,
}
use ntm_os.KHeap.Free.{Block, Blocks, IsHeap, Allocates, k_malloc-IsHeap}
use ntm_os.EventQueue.Fifo.{push}
use ntm_os.EventQueue.Inv.{IsValid}
use ntm_os.EventQueue.Refine.{contents, enqueue_refines}
use ntm_os.Keyboard.{entry, event_char}
use ntm_os.Tasks.{TaskState}
use ntm_os.Interrupts.{
  fill_node, enqueue_current, post_node, post_event, node_size, keyboard_event, int21h_handler,
  Ports,
}

-- A word in the room of a block behind its header leaves every header.
Blocks-room :
    (m : Memory) (i k a v : ℕ) (bs : List Block)
    → a ≡ heap_base + i * heap_page_size + k
    → 4 ≤ k
    → k + 4 ≤ heap_page_size
    → Blocks m bs
    → Blocks (write_word m a v) bs
Blocks-room m i k a v [] at behind inside b = tt
Blocks-room m i k a v ((l, n) ∷ bs) at behind inside (some_pages, fits, header, apart, rest) = (
  some_pages,
  fits,
  read_word-write_word_other m a v (heap_base + l * heap_page_size) (ground arith) ∙ header,
  apart,
  Blocks-room m i k a v bs at behind inside rest,
)

fill_node-IsHeap :
    (h : Heap) (i type value : ℕ) (bs : List Block)
    → IsHeap h bs
    → IsHeap (fill_node h (block_address i) type value) bs
unfolding fill_node block_address
fill_node-IsHeap h i type value bs is = record {
  bits = is.bits;
  blocks =
      Blocks-room _ i 8 (block_address i + 4) value bs (omega arith) (omega arith) (omega arith) (
        Blocks-room h.bytes i 4 (block_address i) type bs (omega arith) (omega arith) (omega arith)
          is.blocks);
}

fill_node_lem :
    (h : Heap) (p type value : ℕ)
    → type < 2 ^ 32
    → value < 2 ^ 32
    → (read_word (fill_node h p type value).bytes p ≡ type)
      × (read_word (fill_node h p type value).bytes (p + 4) ≡ value)
unfolding fill_node
fill_node_lem h p type value small_type small_value = (
  read_word-write_word_other (write_word h.bytes p type) (p + 4) value p (inr (omega arith))
      ∙ read_word-write_word h.bytes p type small_type,
  read_word-write_word (write_word h.bytes p type) (p + 4) value small_value,
)

-- The event is in a new block, at the end of the queue of the current task.
pub record Delivered (s : TaskState) (bs : List Block) (type value i : ℕ) (s' : TaskState)
    : Type 0 where
  pub heap : IsHeap s'.heap ((i, 1) ∷ bs)
  pub type_stored : read_word s'.heap.bytes (block_address i) ≡ type
  pub value_stored : read_word s'.heap.bytes (block_address i + 4) ≡ value
  pub queued :
      contents (s'.event_queue s.current_task)
      ≡ (push (contents (s.event_queue s.current_task)) (block_address i)).1
  pub same_timers : s'.timers ≡ s.timers
  pub same_task : s'.current_task ≡ s.current_task

abbrev pub Posted : TaskState → List Block → ℕ → ℕ → TaskState × Bool → Type 0
Posted s bs type value (s', false) = (s' ≡ s) × (k_malloc s.heap node_size ≡ address 0 s.heap)
Posted s bs type value (s', true) = (i : ℕ) × Delivered s bs type value i s'

one_page : pages_for node_size ≡ 1
unfolding pages_for real_size
one_page = refl

block_address-pos : (i : ℕ) → block_address i ≢ 0
unfolding block_address
block_address-pos i e = omega arith

post_node-Posted :
    (s : TaskState) (bs : List Block) (type value : ℕ) (r : Result)
    → k_malloc s.heap node_size ≡ r
    → IsValid (s.event_queue s.current_task)
    → s.current_task ≢ 0
    → type < 2 ^ 32
    → value < 2 ^ 32
    → Allocates s.heap bs node_size r
    → (t : TaskState × Bool) × (post_node s type value r ≡ done t) × Posted s bs type value t
unfolding post_node enqueue_current
post_node-Posted s bs type value r at valid task small_type small_value (inl e) =
    ((s, false), rw e refl, (refl, at ∙ e))
post_node-Posted s bs type value r at valid task small_type small_value (inr (i, h', e, is, room)) =
    let p = block_address i in
    let s' = enqueue_current (record s { heap = fill_node h' p type value }) p in
    let (t, v) = fill_node_lem h' p type value small_type small_value in
    (
      (s', true),
      rw (e, ne→== p 0 (block_address-pos i), ne→== s.current_task 0 task) refl,
      (
        i,
        record {
          heap =
              fill_node-IsHeap h' i type value ((i, 1) ∷ bs)
                (subst (λ n. IsHeap h' ((i, n) ∷ bs)) one_page is);
          type_stored = t;
          value_stored = v;
          queued =
              ap contents (update_self s.event_queue s.current_task _)
              ∙ ap (λ t. t.1) (enqueue_refines p valid);
          same_timers = refl;
          same_task = refl;
        },
      ),
    )

pub post_event-Posted :
    (s : TaskState) (bs : List Block) (type value : ℕ)
    → IsHeap s.heap bs
    → IsValid (s.event_queue s.current_task)
    → s.current_task ≢ 0
    → type < 2 ^ 32
    → value < 2 ^ 32
    → (t : TaskState × Bool) × (post_event s type value ≡ done t) × Posted s bs type value t
unfolding post_event
post_event-Posted s bs type value is valid task small_type small_value =
    post_node-Posted s bs type value (k_malloc s.heap node_size) refl valid task small_type
      small_value (k_malloc-IsHeap node_size (omega arith) is)

either_small : (table : Bool) (x code : ℕ) → code < 256 → (if table then x % 256 else code) < 2 ^ 32
either_small table x code small = ground arith

event_char-small : (code : ℕ) → code < 256 → event_char code < 2 ^ 32
unfolding event_char
event_char-small code small = either_small (leb code 0xd8) (entry code).keychar code small

-- With a heap whose blocks are well-formed and a current task whose event queue is valid,
-- `int21h_handler` of a byte returns and acknowledges the interrupt. It changes nothing else if the
-- heap has no memory; otherwise the character of the scan code is in a keyboard event in a new
-- block, at the end of the queue of the current task, unless the queue is full.
pub int21h_handler-Posted :
    (code : ℕ) (s : TaskState) (ports : Ports) (bs : List Block)
    → code < 256
    → IsHeap s.heap bs
    → IsValid (s.event_queue s.current_task)
    → s.current_task ≢ 0
    → (t : TaskState × Bool) × (int21h_handler code s ports ≡ done (t.0, (0x20, 0x61) ∷ ports))
      × Posted s bs keyboard_event (event_char code) t
unfolding int21h_handler
int21h_handler-Posted code s ports bs small is valid task =
    let (t, e, posted) =
      post_event-Posted s bs keyboard_event (event_char code) is valid task (omega arith)
        (event_char-small code small) in
    (t, rw e refl, posted)
