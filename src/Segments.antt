-- ===== src/Segments.antt =====
-- The segment descriptors of segments.c and segments.h, as the eight bytes of an entry in memory.
-- `_panic` is `panic`.
pub mod Descriptor
pub mod Flat
mod Tests
use ntm_os.Prelude.{
  ℕ, zero, suc, ◌+◌, ◌-◌, ◌*◌, ◌/◌, ◌%◌, ◌^◌, ◌||◌, Bool, leb, ◌==◌, if◌then◌else◌,
}
use ntm_os.Prelude.Memory.{Memory, write, write_half, write_word}
use ntm_os.Prelude.Run.{Run, done, panic}

abbrev pub n_gdt_entries : ℕ
n_gdt_entries = 8192

abbrev pub n_ldt_entries : ℕ
n_ldt_entries = 2

abbrev pub gdt_table_start_addr : ℕ
gdt_table_start_addr = 0x80000000 + 0x10000

-- A bit-field of `width` bits from bit `low` on, assigned in byte `b`.
unfoldable pub with_bits : ℕ → ℕ → ℕ → ℕ → ℕ
with_bits low width v b =
    b % 2 ^ low + v % 2 ^ width * 2 ^ low + b / 2 ^ (low + width) * 2 ^ (low + width)

-- The entry at `e` gets its base and its limit.
unfoldable pub set_base_limit : ℕ → ℕ → ℕ → Memory → Memory
set_base_limit e base limit m =
    let m1 = write_half m (e + 2) (base % 2 ^ 16) in
    let m2 = write m1 (e + 4) (base / 2 ^ 16 % 256) in
    let m3 = write m2 (e + 7) (base / 2 ^ 24 % 256) in
    let m4 = write_half m3 e (limit % 2 ^ 16) in
    write m4 (e + 6) (with_bits 0 4 (limit / 2 ^ 16 % 16) (m4 (e + 6)))

-- The bit-fields of the access byte: ac, rw, dc, ex, S, DPL and P.
unfoldable pub access : ℕ → ℕ → ℕ → ℕ → ℕ → ℕ → ℕ → ℕ → ℕ
access ac rw dc ex s dpl p b = with_bits 7 1 p (
    with_bits 5 2 dpl (
      with_bits 3 1 ex
        (with_bits 2 1 dc (with_bits 1 1 rw (with_bits 0 1 ac (with_bits 4 1 s b))))))

-- `G = 0` and `DB = 1`
unfoldable pub granularity : ℕ → ℕ
granularity b = with_bits 6 1 1 (with_bits 7 1 0 b)

unfoldable pub set_flags : ℕ → ℕ → Memory → Memory
set_flags e a m = let m' = write m (e + 5) a in write m' (e + 6) (granularity (m' (e + 6)))

unfoldable pub entry_address : ℕ → ℕ
entry_address slot = gdt_table_start_addr + slot * 8

unfoldable pub install_tss_to_gdt : ℕ → ℕ → ℕ → Memory → Run Memory
install_tss_to_gdt slot base limit m =
    let e = entry_address slot in
    if slot == 0 || leb n_gdt_entries slot
    then panic
    else done (set_flags e 0x89 (set_base_limit e base limit m))

unfoldable pub install_ldt_to_gdt : ℕ → ℕ → ℕ → Memory → Run Memory
install_ldt_to_gdt slot base limit m =
    let e = entry_address slot in
    if slot == 0 || leb n_gdt_entries slot
    then panic
    else done (set_flags e (access 0 1 0 0 0 3 1 (m (e + 5))) (set_base_limit e base limit m))

unfoldable pub uninstall_gdt_entry : ℕ → Memory → Run Memory
uninstall_gdt_entry slot m =
    let e = entry_address slot in
    if slot == 0 || leb n_gdt_entries slot
    then panic
    else done (write m (e + 5) (with_bits 7 1 0 (m (e + 5))))

unfoldable pub install_seg_to_ldt : ℕ → ℕ → ℕ → ℕ → Bool → Memory → Run Memory
install_seg_to_ldt ldt slot base limit is_code m =
    let e = ldt + slot * 8 in
    let a = access 1 1 0 (if is_code then 1 else 0) 1 3 1 (m (e + 5)) in
    if leb n_ldt_entries slot then panic else done (set_flags e a (set_base_limit e base limit m))

-- `for (int i = 3; i < N_GDT_ENTRIES; i++)`, with the rounds left.
unfoldable pub clear_entries : ℕ → ℕ → Memory → Memory
clear_entries zero i m = m
clear_entries (suc n) i m =
    clear_entries n (i + 1) (write_word (write_word m (entry_address i) 0) (entry_address i + 4) 0)

-- The memory, and the limit and the address that `load_gdt` is called with.
unfoldable pub initial_gdt : Memory → Memory × ℕ × ℕ
initial_gdt m =
    let e = gdt_table_start_addr in
    let m0 = write_word (write_word m e 0) (e + 4) 0 in
    let m1 = write_word (write_word m0 (e + 8) 0x0000ffff) (e + 12) 0x00cf9a00 in
    let m2 = write_word (write_word m1 (e + 16) 0x0000ffff) (e + 20) 0x00cf9200 in
    (clear_entries (n_gdt_entries - 3) 3 m2, n_gdt_entries * 8 - 1, gdt_table_start_addr)
