-- ===== src/Tasks/Lifecycle/Spawn.antt =====
-- A new process on its way into the ready queue: `task_alloc`, `task_init`, `start_task`.
use ntm_os.Prelude.{
  ℕ, ◌+◌, ◌*◌, ◌^◌, ◌≤◌, ◌<◌, ◌≡◌, ◌≢◌, ◌⊎◌, refl, sym, ap, ◌∙◌, inl, inr, false, arith, List, [],
  ◌∷◌, ◌++◌, ne→==, leb,
}
use ntm_os.Prelude.Chain.{has, From-write}
use ntm_os.Prelude.Run.{done, ◌>>=◌}
use ntm_os.Prelude.Memory.{write, update, write_self, write_other, update_self, update_other}
use ntm_os.KHeap.{Heap, block_address, k_malloc, Result, address}
use ntm_os.KHeap.Malloc.{Outcome, too_large, exhausted, taken, k_malloc-Outcome}
use ntm_os.Mm.{get_proc_umem_start_address, n_max_process_mem_slots}
use ntm_os.Tasks.{TaskState, Status, n_max_processes}
use ntm_os.Tasks.Scheduler.{put_task_to_ready, push_ready}
use ntm_os.Tasks.Scheduler.ReadyQueue.{IsScheduled, put_task_to_ready-IsScheduled}
use ntm_os.Tasks.Lifecycle.{
  malloc, init_fields, store_app, copy_app, task_init, push_word, set_eip, start_task, next_id,
  spawn,
}
use ntm_os.Tasks.Lifecycle.Stack.{
  Registers, init_fields-Registers, frame-Registers, Prepared, start_task-Prepared,
}
use ntm_os.Tasks.Lifecycle.Slots.{Claimed, task_alloc-Claimed}

-- `IsScheduled` depends on the cells, the tail, the statuses and the current task alone.
frame-IsScheduled :
    {s t : TaskState} {xs : List ℕ}
    → IsScheduled s xs
    → t.next ≡ s.next
    → t.tail ≡ s.tail
    → t.status ≡ s.status
    → t.current_task ≡ s.current_task
    → IsScheduled t xs
frame-IsScheduled {s} {t} {xs} is n tl st c = record {
  queue = record {
    chain = rw n is.queue.chain;
    end = tl ∙ is.queue.end;
    all_ready = λ p h. rw st (is.queue.all_ready p h);
  };
  some_task = rw c is.some_task;
  is_running = rw (st, c) is.is_running;
  apart = rw c is.apart;
  unlinked = rw (n, c) is.unlinked;
}

-- A task outside the queue that is not the running one may change its status.
mark-IsScheduled :
    {s t : TaskState} {xs : List ℕ} (p : ℕ) (v : Status)
    → IsScheduled s xs
    → has p xs ≡ false
    → p ≢ s.current_task
    → t.next ≡ s.next
    → t.tail ≡ s.tail
    → t.status ≡ update s.status p v
    → t.current_task ≡ s.current_task
    → IsScheduled t xs
mark-IsScheduled {s} {t} {xs} p v is out ne n tl st c = record {
  queue = record {
    chain = rw n is.queue.chain;
    end = tl ∙ is.queue.end;
    all_ready =
        λ q h. rw st (update_other s.status p v q (λ e. ground arith) ∙ is.queue.all_ready q h);
  };
  some_task = rw c is.some_task;
  is_running =
      rw (st, c) (update_other s.status p v s.current_task (λ e. ne (sym e)) ∙ is.is_running);
  apart = rw c is.apart;
  unlinked = rw (n, c) is.unlinked;
}

unlink-IsScheduled :
    {s : TaskState} {xs : List ℕ} (p : ℕ)
    → IsScheduled s xs
    → p ≢ 0
    → has p xs ≡ false
    → p ≢ s.current_task
    → IsScheduled (record s { next = write s.next p 0 }) xs
unlink-IsScheduled {s} {xs} p is nz out ne = record {
  queue = record {
    chain = From-write s.next 0 p 0 xs nz out is.queue.chain;
    end = is.queue.end;
    all_ready = is.queue.all_ready;
  };
  some_task = is.some_task;
  is_running = is.is_running;
  apart = is.apart;
  unlinked = write_other s.next p 0 s.current_task (λ e. ne (sym e)) ∙ is.unlinked;
}

init_fields-IsScheduled :
    {s : TaskState} {xs : List ℕ} (p stack size : ℕ)
    → IsScheduled s xs
    → p ≢ 0
    → has p xs ≡ false
    → p ≢ s.current_task
    → IsScheduled (init_fields s p stack size) xs
unfolding init_fields
init_fields-IsScheduled p stack size is nz out ne =
    mark-IsScheduled p Status.init (unlink-IsScheduled p is nz out ne) out ne refl refl refl refl

start_task-IsScheduled :
    (address_of : ℕ → ℕ) {s : TaskState} {xs : List ℕ} (p a : ℕ)
    → IsScheduled s xs
    → p ≢ 0
    → a ≢ 0
    → has p xs ≡ false
    → p ≢ s.current_task
    → s.next p ≡ 0
    → s.status p ≡ Status.init
    → IsScheduled (start_task address_of s p a) (xs ++ (p ∷ []))
unfolding start_task set_eip push_word
start_task-IsScheduled address_of {s} {xs} p a is nz some_code out ne end st =
    rw (ne→== p 0 nz, ne→== a 0 some_code, st)
      (put_task_to_ready-IsScheduled p (frame-IsScheduled is refl refl refl refl) nz out ne end)

Outcome-address :
    {h : Heap} {size : ℕ} {r : Result}
    → Outcome h size r
    → (p : ℕ) × (h' : Heap) × (r ≡ address p h') × (p < 2 ^ 31 + 2 ^ 30)
unfolding block_address
Outcome-address {h} (too_large _) = (0, h, refl, omega arith)
Outcome-address {h} (exhausted _ _) = (0, h, refl, omega arith)
Outcome-address (taken i _ fit) = (_, _, refl, omega (arith, fit.fits))

malloc-address :
    (h : Heap) (size p : ℕ) (h' : Heap)
    → k_malloc h size ≡ address p h'
    → malloc h size ≡ done (p, h')
malloc-address h size p h' e = rw (e, malloc)

malloc-done :
    (h : Heap) (size : ℕ)
    → size + 4 < 2 ^ 32
    → (p : ℕ) × (h' : Heap) × (malloc h size ≡ done (p, h')) × (p < 2 ^ 31 + 2 ^ 30)
malloc-done h size small =
    let (p, h', e, low) = Outcome-address (k_malloc-Outcome h size small) in
    (p, h', malloc-address h size p h' e, low)

-- The sample program fits, so that only the memory changes.
copy_app-IsScheduled :
    {s : TaskState} {xs : List ℕ} (p : ℕ)
    → s.tss_entry_id p < n_max_processes
    → IsScheduled s xs
    → (t : TaskState) × (copy_app s p ≡ done t)
      × IsScheduled t xs
      × (t.status ≡ s.status)
      × (t.next ≡ s.next)
      × (t.current_task ≡ s.current_task)
      × (t.pid ≡ s.pid)
      × (t.tss ≡ s.tss)
      × (t.kern_stack ≡ s.kern_stack)
unfolding copy_app get_proc_umem_start_address store_app
copy_app-IsScheduled {s} p small is =
    let inside : leb n_max_process_mem_slots (s.tss_entry_id p) ≡ false = ground arith in
    (
      store_app s (0x4000000 + s.tss_entry_id p * 2 ^ 20),
      rw inside refl,
      frame-IsScheduled is refl refl refl refl,
      refl,
      refl,
      refl,
      refl,
      refl,
      refl,
    )

-- `task_init` of a task that is allocated, and neither queued nor running.
task_init-IsScheduled :
    {s : TaskState} {xs : List ℕ} (p data_size size : ℕ)
    → IsScheduled s xs
    → 4 ≤ size
    → size < 2 ^ 30
    → s.tss_entry_id p < n_max_processes
    → p ≢ 0
    → has p xs ≡ false
    → p ≢ s.current_task
    → s.status p ≡ Status.alloc
    → (t : TaskState) × (task_init s p data_size size ≡ done t)
      × IsScheduled t xs
      × (t.status p ≡ Status.init)
      × (t.next p ≡ 0)
      × (t.current_task ≡ s.current_task)
      × (t.pid p ≡ s.next_task_id)
      × Registers t p size
unfolding task_init init_fields
task_init-IsScheduled {s} p data_size size is some_size small id nz out ne st =
    let (stack, h, got, low) = malloc-done s.heap size (omega arith) in
    let s₁ : TaskState = record s { heap = h } in
    let is₁ : IsScheduled s₁ _ = frame-IsScheduled is refl refl refl refl in
    let (t, ran, is₂, a, b, c, d, same_tss, same_stack) =
      copy_app-IsScheduled {s = init_fields s₁ p stack size} p id
        (init_fields-IsScheduled p stack size is₁ nz out ne) in
    (
      t,
      rw (ne→== p 0 nz, st, got) ran,
      is₂,
      rw a (update_self s.status p Status.init),
      rw b (write_self s.next p 0 p refl),
      c,
      rw d (write_self s.pid p s.next_task_id p refl),
      frame-Registers (init_fields s₁ p stack size) t p size same_tss same_stack
          (init_fields-Registers s₁ p stack size low some_size small),
    )

-- What `spawn` comes to, by the slot that was found.
abbrev pub Spawned : (ℕ → ℕ) → TaskState → List ℕ → ℕ → TaskState → Type 0
Spawned address_of s xs task_main s' =
    ((s' ≡ s) × ((q : ℕ) → 1 ≤ q → q < 1 + n_max_processes → s.status q ≢ Status.unused))
    ⊎ ((p : ℕ) × (1 ≤ p)
        × (p < 1 + n_max_processes)
        × (s.status p ≡ Status.unused)
        × IsScheduled s' (xs ++ (p ∷ []))
        × (s'.pid p ≡ next_id s.next_task_id)
        × Prepared s' p task_main (address_of p))

pid-start :
    (address_of : ℕ → ℕ) (s : TaskState) (p a : ℕ) → (start_task address_of s p a).pid p ≡ s.pid p
unfolding start_task set_eip push_word put_task_to_ready push_ready
pid-start address_of s p a = ground arith

-- An unused slot is neither queued nor running.
unused-apart :
    {s : TaskState} {xs : List ℕ} (p : ℕ)
    → IsScheduled s xs
    → s.status p ≡ Status.unused
    → (has p xs ≡ false) × (p ≢ s.current_task)
unused-apart {s} {xs} p is free =
    (ground (arith, is.queue.all_ready p), λ e. ground (arith, is.is_running))

module _ (address_of : ℕ → ℕ) where
  init-null : (s : TaskState) (d size : ℕ) → task_init s 0 d size ≡ done s
  unfolding task_init
  init-null s d size = refl

  start-null : (s : TaskState) (a : ℕ) → start_task address_of s 0 a ≡ s
  unfolding start_task
  start-null s a = refl

  spawn-Claimed :
      (s : TaskState) (xs : List ℕ) (task_main p : ℕ) (s₁ : TaskState)
      → Claimed s (p, s₁)
      → IsScheduled s xs
      → ((q : ℕ) → 1 ≤ q → q < 1 + n_max_processes → s.tss_entry_id q < n_max_processes)
      → ((q : ℕ) → 1 ≤ q → q < 1 + n_max_processes → address_of q < 2 ^ 32)
      → task_main ≢ 0
      → (s' : TaskState) × ((task_init s₁ p 8192 (8192 * 2) >>= λ s₂.
            done (start_task address_of s₂ p task_main))
          ≡ done s')
        × Spawned address_of s xs task_main s'
  spawn-Claimed s xs task_main p s₁ (inl (e, same, all_used)) is ids small code = (
    s,
    rw (e, same, init-null s 8192 (8192 * 2)) (ap done (start-null s task_main)),
    inl (refl, all_used),
  )
  spawn-Claimed s xs task_main p s₁ (inr (ge, lt, free, first, e)) is ids small code =
      let nz : p ≢ 0 = omega arith in
      let (out, ne) = unused-apart p is free in
      let claimed : TaskState = record s {
        status = update s.status p Status.alloc;
        pid = write s.pid p s.next_task_id;
        next_task_id = next_id s.next_task_id;
      } in
      let is₁ : IsScheduled claimed xs =
        mark-IsScheduled p Status.alloc is out ne refl refl refl refl in
      let (s₂, ran, is₂, st, unlinked, current, number, registers) =
        task_init-IsScheduled {s = claimed} p 8192 (8192 * 2) is₁ (omega arith) (omega arith)
          (ids p ge lt) nz out ne (update_self s.status p Status.alloc) in
      (
        start_task address_of s₂ p task_main,
        rw (e, ran) refl,
        inr (
          p,
          ge,
          lt,
          free,
          start_task-IsScheduled address_of p task_main is₂ nz code out (rw current ne) unlinked st,
          pid-start address_of s₂ p task_main ∙ number,
          start_task-Prepared address_of s₂ p task_main nz code st (small p ge lt) registers,
        ),
      )

  -- If the running task and the ready queue are in order, every slot has a number below the number
  -- of slots, every slot's address has 32 bits, and the start address is not 0, allocating,
  -- initialising and starting the new task of kernel_main returns. With no slot unused nothing
  -- changes. Otherwise an unused slot becomes the last task of the ready queue, with the process
  -- number after the one that task_alloc took. Its registers start it at that address with the
  -- kernel's segments and with interrupts enabled, and on top of its stack are a return address 0
  -- and the address of its slot.
  pub spawn-Spawned :
      (s : TaskState) (xs : List ℕ) (task_main : ℕ)
      → IsScheduled s xs
      → ((q : ℕ) → 1 ≤ q → q < 1 + n_max_processes → s.tss_entry_id q < n_max_processes)
      → ((q : ℕ) → 1 ≤ q → q < 1 + n_max_processes → address_of q < 2 ^ 32)
      → task_main ≢ 0
      → (s' : TaskState) × (spawn address_of s task_main ≡ done s')
        × Spawned address_of s xs task_main s'
  unfolding spawn
  spawn-Spawned s xs task_main is ids small code =
      spawn-Claimed s xs task_main _ _ (task_alloc-Claimed s) is ids small code
