-- ===== src/Tasks/Tables.antt =====
-- `init_process_management` of tasks.c: the slots of the processes, and the descriptors of their
-- task state segments and local tables. `process i` is `&s_processes[i]`. The memory holds the global table
-- and the `ldt` of each slot; the other fields of a slot are in the task state.
pub mod Described
pub mod Slots
pub mod Loop
use ntm_os.Prelude.{ℕ, zero, suc, ◌+◌, ◌-◌, ◌*◌, ◌%◌, ◌^◌, true, false}
use ntm_os.Prelude.Memory.{Memory, update}
use ntm_os.Prelude.Run.{Run, done, ◌>>=◌}
use ntm_os.Segments.{install_tss_to_gdt, install_ldt_to_gdt, install_seg_to_ldt}
use ntm_os.Tasks.{
  TaskState, unused, n_max_processes, n_tss_start_slot_in_gdt, n_ldt_seg_start_slot_in_gdt,
}

abbrev pub ldt_offset : ℕ
ldt_offset = 0x0c

abbrev pub tss_offset : ℕ
tss_offset = 0x1c

-- `sizeof(tss_t)` and `sizeof` of the two entries of `ldt`.
abbrev pub tss_size : ℕ
tss_size = 104

abbrev pub ldt_size : ℕ
ldt_size = 16

-- Where the user memory of process `i` is.
unfoldable pub user_base : ℕ → ℕ
user_base i = 0x4000000 + i * 0x100000

-- The fields of slot `i`.
unfoldable pub reset_slot : ℕ → TaskState → TaskState
reset_slot i s = record s {
  tss_entry_id = update s.tss_entry_id (i + 1) i;
  status = update s.status (i + 1) unused;
  tss =
      update s.tss (i + 1)
        (record (s.tss (i + 1)) { ldtr = (n_ldt_seg_start_slot_in_gdt + i) * 8 % 2 ^ 16 });
}

module _ (process : ℕ → ℕ) where
  -- The four descriptors of slot `i`.
  unfoldable pub install_slot : ℕ → Memory → Run Memory
  install_slot i m =
      install_tss_to_gdt (n_tss_start_slot_in_gdt + i) (process i + tss_offset) tss_size m
      >>= install_ldt_to_gdt (n_ldt_seg_start_slot_in_gdt + i) (process i + ldt_offset) ldt_size
      >>= install_seg_to_ldt (process i + ldt_offset) 0 (user_base i) (0x100000 - 1) true
      >>= install_seg_to_ldt (process i + ldt_offset) 1 (user_base i) (0x100000 - 1) false

  -- `for (int i = 0; i < N_MAX_PROCESSES; i++)`, with the rounds left.
  unfoldable pub init_slots : ℕ → ℕ → TaskState → Memory → Run (TaskState × Memory)
  init_slots zero i s m = done (s, m)
  init_slots (suc n) i s m = install_slot i m >>= init_slots n (i + 1) (reset_slot i s)

  unfoldable pub init_process_management : TaskState → Memory → Run (TaskState × Memory)
  init_process_management s m = init_slots n_max_processes 0 s m
