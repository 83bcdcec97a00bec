-- ===== src/Tasks/Lifecycle.antt =====
-- The life of a process in tasks.c: `task_alloc`, `task_free`, `task_init`, `start_task`, and the
-- idle and the default task. The address of a slot of `s_processes` is a parameter, since the
-- linker chooses it.
pub mod Slots
pub mod Stack
pub mod Spawn
use ntm_os.Prelude.{
  ℕ, zero, suc, ◌+◌, ◌-◌, ◌*◌, ◌%◌, ◌^◌, Bool, true, false, ◌||◌, Option, none, some, List, [], ◌∷◌,
  ◌==◌, if◌then◌else◌, not,
}
use ntm_os.Prelude.Int.{ℤ, pos}
use ntm_os.Prelude.Memory.{Memory, write, update, write_word, store_bytes}
use ntm_os.Prelude.Search.{find_first}
use ntm_os.Prelude.Run.{Run, done, panic, undefined, ◌>>=◌}
use ntm_os.KHeap.{Heap, Result, k_malloc, k_free}
use ntm_os.EventQueue.{EventQueue, initial_queue}
use ntm_os.Mm.{get_proc_umem_start_address}
use ntm_os.Tasks.{
  TaskState, Tss, Status, n_max_processes, n_ldt_seg_start_slot_in_gdt, n_tss_start_slot_in_gdt,
}
use ntm_os.Tasks.Scheduler.{put_task_to_ready}

abbrev pub is_unused : Status → Bool
is_unused Status.unused = true
is_unused _ = false

abbrev pub is_alloc : Status → Bool
is_alloc Status.alloc = true
is_alloc _ = false

abbrev pub is_init : Status → Bool
is_init Status.init = true
is_init _ = false

-- `atom_inc(g_next_task_id)`
unfoldable pub next_id : ℕ → ℕ
next_id n = (n + 1) % 2 ^ 32

-- What `task_alloc` does with the slot found.
unfoldable pub claim : TaskState → ℕ → ℕ × TaskState
claim s p = if p == 0 then (0, s) else (
  p,
  record s {
    status = update s.status p Status.alloc;
    pid = write s.pid p s.next_task_id;
    next_task_id = next_id s.next_task_id;
  },
)

unfoldable pub task_alloc : TaskState → ℕ × TaskState
task_alloc s = claim s (find_first (λ q. is_unused (s.status q)) n_max_processes 1)

-- `if (0 != ptr) k_free(ptr);`
unfoldable pub free_stack : Heap → ℕ → Heap
free_stack h ptr = if ptr == 0 then h else k_free h ptr

-- The fields that `task_free` resets, and the stacks that it frees.
unfoldable pub release : TaskState → ℕ → TaskState
release s p = record s {
  pid = write s.pid p 0;
  status = update s.status p Status.unused;
  heap = free_stack (free_stack s.heap (s.kern_stack p)) (s.data_stack p);
}

unfoldable pub task_free : TaskState → ℕ → Run TaskState
task_free s p = if p == 0 then panic else if s.pid p == 0 then panic else done (release s p)

-- `k_malloc`, as a call that may have no defined behaviour.
abbrev pub malloc : Heap → ℕ → Run (ℕ × Heap)
malloc h size = elim (k_malloc h size) [
  | Result.address p h' ↦ done (p, h')
  | Result.undefined ↦ undefined
]

abbrev pub gpt_table_phy_start_addr : ℕ
gpt_table_phy_start_addr = 0x08000000 + 0x400000

-- The selectors and registers that `task_init` and `initial_default_task` set in the TSS.
-- `iopb_offset` has 16 bits and `0x40000000` becomes 0.
unfoldable pub set_registers : Tss → ℕ → ℕ → Tss
set_registers t stack size = record t {
  iopb_offset = 0x40000000 % 2 ^ 16;
  eflags = 0x202;
  eax = 0;
  ebx = 0;
  ecx = 0;
  edx = 0;
  ebp = 0;
  esi = 0;
  edi = 0;
  cs = 1 * 8;
  ds = 2 * 8;
  ss = 2 * 8;
  es = 2 * 8;
  fs = 2 * 8;
  gs = 2 * 8;
  cr3 = gpt_table_phy_start_addr;
  esp = (stack + size + 2 ^ 32 - 4) % 2 ^ 32;
  eip = 0;
  ss0 = 2 * 8;
}

abbrev pub simpleapp_data : List ℕ
simpleapp_data =
    0x31 ∷ 0xdb ∷ 0x43 ∷ 0xb8 ∷ 0x01 ∷ 0x00 ∷ 0x00 ∷ 0x00 ∷ 0xcd ∷ 0x80 ∷ 0xeb ∷ 0xf4 ∷ []

unfoldable pub store_app : TaskState → ℕ → TaskState
store_app s a = record s {
  heap = record (s.heap) { bytes = store_bytes a simpleapp_data s.heap.bytes };
}

-- `k_memcpy` of the sample program to the start of the slot's user memory.
unfoldable pub copy_app : TaskState → ℕ → Run TaskState
copy_app s p = do a ← get_proc_umem_start_address (pos (s.tss_entry_id p)); done (store_app s a)

-- The fields that `task_init` sets once the stack is allocated.
unfoldable pub init_fields : TaskState → ℕ → ℕ → ℕ → TaskState
init_fields s p stack size = record s {
  kern_stack = write s.kern_stack p stack;
  kern_stack_size = write s.kern_stack_size p size;
  pid = write s.pid p s.next_task_id;
  next_task_id = next_id s.next_task_id;
  console = write s.console p 0;
  next = write s.next p 0;
  event_queue = update s.event_queue p (initial_queue (s.event_queue p));
  tss = update s.tss p (record (set_registers (s.tss p) stack size) { esp0 = 1 * 8 });
  ppid =
      write s.ppid p
        (if s.current_task == 0 then 0 else write s.pid p s.next_task_id s.current_task);
  status = update s.status p Status.init;
}

unfoldable pub task_init : TaskState → ℕ → ℕ → ℕ → Run TaskState
task_init s p data_size size =
    if p == 0
    then done s
    else if is_alloc (s.status p)
    then (do
      (stack, h) ← malloc s.heap size
      copy_app (init_fields (record s { heap = h }) p stack size) p)
    else done s

-- `task->tss.esp -= 4; *(unsigned int *)task->tss.esp = v;`
unfoldable pub push_word : TaskState → ℕ → ℕ → TaskState
push_word s p v =
    let esp' = ((s.tss p).esp + 2 ^ 32 - 4) % 2 ^ 32 in
    record s {
      tss = update s.tss p (record (s.tss p) { esp = esp' });
      heap = record (s.heap) { bytes = write_word s.heap.bytes esp' v };
    }

unfoldable pub set_eip : TaskState → ℕ → ℕ → TaskState
set_eip s p a = record s { tss = update s.tss p (record (s.tss p) { eip = a }) }

module _ (address_of : ℕ → ℕ) where
  unfoldable pub start_task : TaskState → ℕ → ℕ → TaskState
  start_task s p start_addr =
      if p == 0 || start_addr == 0
      then s
      else if is_init (s.status p)
      then put_task_to_ready (set_eip (push_word (push_word s p (address_of p)) p 0) p start_addr) p
      else s

unfoldable pub initial_idle_task : TaskState → ℕ → Run TaskState
initial_idle_task s idle_task_main =
    let (p, s₁) = task_alloc s in
    if p == 0 then panic else do
      s₂ ← task_init s₁ p (64 * 1024) (64 * 1024)
      done (
          set_eip (record s₂ { idle_task = p; status = update s₂.status p Status.ready }) p
            idle_task_main)

-- The current task, with the GDT slot of its TSS. The LDT register is loaded with the second part
-- of the result.
unfoldable pub initial_default_task : TaskState → Run (TaskState × ℕ × ℕ)
initial_default_task s =
    let (p, s₁) = task_alloc s in
    if p == 0 then panic else do
      (stack, h) ← malloc s₁.heap 8192
      let s₂ = init_fields (record s₁ { heap = h }) p stack 8192
      s₃ ←
          copy_app
            (record s₂ {
              tss = update s₂.tss p (record (s₂.tss p) { esp0 = (s₂.tss p).esp });
              ppid = write s₂.ppid p 0;
              status = update s₂.status p Status.running;
              current_task = p;
            })
            p
      done (
        s₃,
        n_tss_start_slot_in_gdt + s₃.tss_entry_id p,
        (n_ldt_seg_start_slot_in_gdt + s₃.tss_entry_id p) * 8 % 2 ^ 16,
      )

-- The new task of `kernel_main`: allocated, initialised and started.
module _ (address_of : ℕ → ℕ) where
  unfoldable pub spawn : TaskState → ℕ → Run TaskState
  spawn s task_main =
      let (p, s₁) = task_alloc s in
      do s₂ ← task_init s₁ p 8192 (8192 * 2); done (start_task address_of s₂ p task_main)
