-- ===== src/Mm.antt =====
-- The page frames and the user memory slots of mm.c.
pub mod Frames
pub mod UserSlots
mod Tests
use ntm_os.Prelude.{
  ℕ, zero, suc, ◌+◌, ◌-◌, ◌*◌, ◌/◌, ◌%◌, ◌^◌, ◌||◌, nonzero, ltb, leb, ◌==◌, if◌then◌else◌,
}
use ntm_os.Prelude.Int.{ℤ, pos, negsuc}
use ntm_os.Prelude.Memory.{Memory, write}
use ntm_os.Prelude.Run.{Run, done, panic}

abbrev pub low_mem : ℕ
low_mem = 0x4000000

abbrev pub high_mem : ℕ
high_mem = 0x10000000

abbrev pub page_size : ℕ
page_size = 0x1000

abbrev pub n_pages : ℕ
n_pages = (high_mem - low_mem) / page_size

-- The loop of `palloc`, with the rounds left. `page_frame_map[i] == 1;` has no effect.
unfoldable pub find_frame : ℕ → Memory → ℕ → ℕ
find_frame zero frames i = 0
find_frame (suc n) frames i =
    let rest = find_frame n frames (i + 1) in if frames i == 0 then i * page_size else rest

unfoldable pub palloc : Memory → ℕ × Memory
palloc frames = (find_frame n_pages frames 0, frames)

-- `if (page_frame_map[addr]--) return;` on an `unsigned char`, then the reset and the panic.
unfoldable pub pfree : Memory → ℕ → Run Memory
pfree frames addr =
    let i = (addr - low_mem) / page_size in
    if ltb addr low_mem
    then done frames
    else if leb high_mem addr
    then panic
    else if nonzero (frames i)
    then done (write frames i (frames i - 1))
    else panic

abbrev pub n_max_process_mem_slots : ℕ
n_max_process_mem_slots = 64

-- The loop of `proc_umem_alloc`: it returns the index and marks nothing.
unfoldable pub find_slot : ℕ → Memory → ℕ → ℤ
find_slot zero slots i = negsuc 0
find_slot (suc n) slots i =
    let rest = find_slot n slots (i + 1) in if slots i == 0 then pos i else rest

unfoldable pub proc_umem_alloc : Memory → ℤ × Memory
proc_umem_alloc slots = (find_slot n_max_process_mem_slots slots 0, slots)

unfoldable pub proc_umem_free : Memory → ℤ → Run Memory
proc_umem_free slots (negsuc n) = panic
proc_umem_free slots (pos i) =
    if leb n_max_process_mem_slots i
    then panic
    else if slots i == 0
    then panic
    else done (write slots i 0)

unfoldable pub get_proc_umem_start_address : ℤ → Run ℕ
get_proc_umem_start_address (negsuc n) = panic
get_proc_umem_start_address (pos i) =
    if leb n_max_process_mem_slots i then panic else done (0x4000000 + i * 2 ^ 20)

unfoldable pub get_proc_umem_end_address : ℤ → Run ℕ
get_proc_umem_end_address (negsuc n) = panic
get_proc_umem_end_address (pos i) =
    if leb n_max_process_mem_slots i then panic else done (0x4000000 + i * 2 ^ 20 + 0x100000)
