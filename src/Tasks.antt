-- ===== src/Tasks.antt =====
-- The processes of tasks.c and tasks.h: the process slots, the ready queue and the state that
-- the task functions share. A pointer to slot `i` of `s_processes` is the number `i + 1`, and null
-- is 0; the fields of the slots are kept field by field. Cell 0 of `next` is
-- `g_ready_task_queue_head`, cell `p` is `p->next`, and `tail` is the cell that
-- `g_ready_task_queue_tail_pointer` points to. The messages printed on the way, and the saving of
-- the interrupt flag, are left out.
pub mod Lifecycle
pub mod Scheduler
pub mod Tables
mod Tests
use ntm_os.Prelude.{ℕ}
use ntm_os.Prelude.Chain.{Cells}
use ntm_os.KHeap.{Heap}
use ntm_os.EventQueue.{EventQueue}
use ntm_os.KTimer.{TimerControl}

abbrev pub n_max_processes : ℕ
n_max_processes = 64

abbrev pub n_tss_start_slot_in_gdt : ℕ
n_tss_start_slot_in_gdt = 16

abbrev pub n_ldt_seg_start_slot_in_gdt : ℕ
n_ldt_seg_start_slot_in_gdt = 80

-- `process_status_t`
pub data Status : Type 0 where
  unused alloc init ready running block zombie : Status

-- The fields of `tss_t` that the kernel writes.
pub record Tss : Type 0 where
  pub esp0 : ℕ
  pub ss0 : ℕ
  pub cr3 : ℕ
  pub eip : ℕ
  pub eflags : ℕ
  pub eax : ℕ
  pub ecx : ℕ
  pub edx : ℕ
  pub ebx : ℕ
  pub esp : ℕ
  pub ebp : ℕ
  pub esi : ℕ
  pub edi : ℕ
  pub es : ℕ
  pub cs : ℕ
  pub ss : ℕ
  pub ds : ℕ
  pub fs : ℕ
  pub gs : ℕ
  pub ldtr : ℕ
  pub iopb_offset : ℕ

pub record TaskState : Type 0 where
  pub heap : Heap
  pub timers : TimerControl
  pub pid : ℕ → ℕ
  pub ppid : ℕ → ℕ
  pub tss_entry_id : ℕ → ℕ
  pub status : ℕ → Status
  pub tss : ℕ → Tss
  pub event_queue : ℕ → EventQueue
  pub kern_stack : ℕ → ℕ
  pub kern_stack_size : ℕ → ℕ
  pub data_stack : ℕ → ℕ
  pub console : ℕ → ℕ
  pub next : Cells
  pub tail : ℕ
  pub current_task : ℕ
  pub idle_task : ℕ
  pub task_switch_timer : ℕ
  pub next_task_id : ℕ
