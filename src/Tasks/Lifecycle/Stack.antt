-- ===== src/Tasks/Lifecycle/Stack.antt =====
-- The registers and the stack with which a new process starts.
use ntm_os.Prelude.{
  ℕ, ◌+◌, ◌-◌, ◌%◌, ◌^◌, ◌≤◌, ◌<◌, ◌≡◌, ◌≢◌, refl, sym, ap, ap₂, ◌∙◌, inl, arith, ne→==,
}
use mathlib.Core.Path.{subst}
use ntm_os.Prelude.Memory.{
  read_word, write_word, read_word-write_word, read_word-write_word_other, write_self, update_self,
}
use ntm_os.Tasks.{Tss, TaskState, Status}
use ntm_os.Tasks.Scheduler.{put_task_to_ready, push_ready}
use ntm_os.Tasks.Lifecycle.{set_registers, init_fields, push_word, set_eip, start_task}

-- The registers and the stack that `task_init` leaves, for a stack of `size` bytes.
pub record Registers (s : TaskState) (p size : ℕ) : Type 0 where
  code : (s.tss p).cs ≡ 8
  stack : (s.tss p).ss ≡ 16
  data_segment : (s.tss p).ds ≡ 16
  flags : (s.tss p).eflags ≡ 0x202
  top : (s.tss p).esp + 4 ≡ s.kern_stack p + size
  low : s.kern_stack p < 2 ^ 31 + 2 ^ 30

pub init_fields-Registers :
    (s : TaskState) (p stack size : ℕ)
    → stack < 2 ^ 31 + 2 ^ 30
    → 4 ≤ size
    → size < 2 ^ 30
    → Registers (init_fields s p stack size) p size
unfolding init_fields set_registers
init_fields-Registers s p stack size low some_size small =
    let top : (stack + size + 2 ^ 32 - 4) % 2 ^ 32 + 4 ≡ stack + size = omega arith in
    let self = update_self s.tss p _ in
    let at = write_self s.kern_stack p stack p refl in
    record {
      code = ap (λ t. t.cs) self;
      stack = ap (λ t. t.ss) self;
      data_segment = ap (λ t. t.ds) self;
      flags = ap (λ t. t.eflags) self;
      top = ap (λ t. t.esp + 4) self ∙ top ∙ ap (λ n. n + size) (sym at);
      low = subst (λ n. n < 2 ^ 31 + 2 ^ 30) (sym at) low;
    }

pub frame-Registers :
    (s t : TaskState) (p size : ℕ)
    → t.tss ≡ s.tss
    → t.kern_stack ≡ s.kern_stack
    → Registers s p size
    → Registers t p size
frame-Registers s t p size same_tss same_stack is = record {
  code = rw same_tss is.code;
  stack = rw same_tss is.stack;
  data_segment = rw same_tss is.data_segment;
  flags = rw same_tss is.flags;
  top = rw (same_tss, same_stack) is.top;
  low = rw same_stack is.low;
}

-- Task `p` starts at `task_main` with the kernel's segments and interrupts enabled, and finds on its
-- stack of 16384 bytes a return address 0 and the argument.
pub record Prepared (s : TaskState) (p task_main argument : ℕ) : Type 0 where
  pub eip : (s.tss p).eip ≡ task_main
  pub code : (s.tss p).cs ≡ 8
  pub stack : (s.tss p).ss ≡ 16
  pub data_segment : (s.tss p).ds ≡ 16
  pub flags : (s.tss p).eflags ≡ 0x202
  pub top : (s.tss p).esp + 12 ≡ s.kern_stack p + 16384
  pub return_address : read_word s.heap.bytes (s.tss p).esp ≡ 0
  pub argument_pushed : read_word s.heap.bytes ((s.tss p).esp + 4) ≡ argument

-- The stack pointer after a push, if it does not wrap.
push_word-esp :
    (s : TaskState) (p v : ℕ)
    → 4 ≤ (s.tss p).esp
    → (s.tss p).esp < 2 ^ 32
    → (push_word s p v).tss p ≡ record (s.tss p) { esp = (s.tss p).esp - 4 }
unfolding push_word
push_word-esp s p v some_room small =
    let at : ((s.tss p).esp + 2 ^ 32 - 4) % 2 ^ 32 ≡ (s.tss p).esp - 4 = omega arith in
    update_self s.tss p _ ∙ ap {A = ℕ} (λ e. record (s.tss p) { esp = e }) at

pushed :
    (s : TaskState) (p v : ℕ)
    → 4 ≤ (s.tss p).esp
    → (s.tss p).esp < 2 ^ 32
    → (push_word s p v).heap.bytes ≡ write_word s.heap.bytes ((s.tss p).esp - 4) v
unfolding push_word
pushed s p v some_room small =
    let at : ((s.tss p).esp + 2 ^ 32 - 4) % 2 ^ 32 ≡ (s.tss p).esp - 4 = omega arith in
    ap (λ e. write_word s.heap.bytes e v) at

-- The stack of a task that gets its argument, a return address and its start.
abbrev stacked : TaskState → ℕ → ℕ → ℕ → TaskState
stacked s p argument task_main = set_eip (push_word (push_word s p argument) p 0) p task_main

stacked-tss :
    (s : TaskState) (p argument task_main : ℕ)
    → 8 ≤ (s.tss p).esp
    → (s.tss p).esp < 2 ^ 32
    → (stacked s p argument task_main).tss p
      ≡ record (s.tss p) { esp = (s.tss p).esp - 8; eip = task_main }
unfolding set_eip
stacked-tss s p argument task_main room fits =
    let esp = (s.tss p).esp in
    let s₁ = push_word s p argument in
    let first = push_word-esp s p argument (omega arith) fits in
    let esp₁ : (s₁.tss p).esp ≡ esp - 4 = ap (λ t. t.esp) first in
    let second = push_word-esp s₁ p 0 (omega arith) (omega arith) in
    let esp₂ : (s₁.tss p).esp - 4 ≡ esp - 8 = omega arith in
    update_self (push_word s₁ p 0).tss p _
    ∙ ap {A = Tss} (λ t. record t { eip = task_main }) second
    ∙ ap {A = ℕ} (λ e. record (s₁.tss p) { esp = e; eip = task_main }) esp₂
    ∙ ap {A = Tss} (λ t. record t { esp = esp - 8; eip = task_main }) first

stacked-bytes :
    (s : TaskState) (p argument task_main : ℕ)
    → 8 ≤ (s.tss p).esp
    → (s.tss p).esp < 2 ^ 32
    → (stacked s p argument task_main).heap.bytes
      ≡ write_word (write_word s.heap.bytes ((s.tss p).esp - 4) argument) ((s.tss p).esp - 8) 0
unfolding set_eip
stacked-bytes s p argument task_main room fits =
    let s₁ = push_word s p argument in
    let esp₁ : (s₁.tss p).esp ≡ (s.tss p).esp - 4 =
      ap (λ t. t.esp) (push_word-esp s p argument (omega arith) fits) in
    let esp₂ : (s₁.tss p).esp - 4 ≡ (s.tss p).esp - 8 = omega arith in
    pushed s₁ p 0 (omega arith) (omega arith)
    ∙ ap (λ e. write_word s₁.heap.bytes e 0) esp₂
    ∙ ap (λ m. write_word m ((s.tss p).esp - 8) 0) (pushed s p argument (omega arith) fits)

stacked-Prepared :
    (s : TaskState) (p argument task_main : ℕ)
    → argument < 2 ^ 32
    → Registers s p 16384
    → Prepared (stacked s p argument task_main) p task_main argument
unfolding set_eip push_word
stacked-Prepared s p argument task_main small is =
    let esp = (s.tss p).esp in
    let room : 8 ≤ esp = omega (arith, is.top) in
    let fits : esp < 2 ^ 32 = omega (arith, is.top, is.low) in
    let below : esp - 8 + 12 ≡ s.kern_stack p + 16384 = omega (arith, is.top) in
    let above : esp - 8 + 4 ≡ esp - 4 = omega arith in
    let apart : esp - 8 + 4 ≤ esp - 4 = omega arith in
    let tss = stacked-tss s p argument task_main room fits in
    let bytes = stacked-bytes s p argument task_main room fits in
    let m = write_word s.heap.bytes (esp - 4) argument in
    record {
      eip = ap (λ t. t.eip) tss;
      code = ap (λ t. t.cs) tss ∙ is.code;
      stack = ap (λ t. t.ss) tss ∙ is.stack;
      data_segment = ap (λ t. t.ds) tss ∙ is.data_segment;
      flags = ap (λ t. t.eflags) tss ∙ is.flags;
      top = ap (λ t. t.esp + 12) tss ∙ below;
      return_address =
          ap₂ (λ m t. read_word m (t.esp)) bytes tss
          ∙ read_word-write_word m (esp - 8) 0 (omega arith);
      argument_pushed =
          ap₂ (λ m t. read_word m (t.esp + 4)) bytes tss
          ∙ ap (read_word (write_word m (esp - 8) 0)) above
          ∙ read_word-write_word_other m (esp - 8) 0 (esp - 4) (inl apart)
          ∙ read_word-write_word s.heap.bytes (esp - 4) argument small;
    }

pub start_task-Prepared :
    (address_of : ℕ → ℕ) (s : TaskState) (p task_main : ℕ)
    → p ≢ 0
    → task_main ≢ 0
    → s.status p ≡ Status.init
    → address_of p < 2 ^ 32
    → Registers s p 16384
    → Prepared (start_task address_of s p task_main) p task_main (address_of p)
unfolding start_task put_task_to_ready push_ready
start_task-Prepared address_of s p task_main nz some_code st small is =
    let ready_to_go : Prepared (stacked s p (address_of p) task_main) p task_main (address_of p) =
      stacked-Prepared s p (address_of p) task_main small is in
    rw (ne→== p 0 nz, ne→== task_main 0 some_code, st)
      (record {
        eip = ready_to_go.eip;
        code = ready_to_go.code;
        stack = ready_to_go.stack;
        data_segment = ready_to_go.data_segment;
        flags = ready_to_go.flags;
        top = ready_to_go.top;
        return_address = ready_to_go.return_address;
        argument_pushed = ready_to_go.argument_pushed;
      })
