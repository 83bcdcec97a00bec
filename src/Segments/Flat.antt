-- ===== src/Segments/Flat.antt =====
-- The table that `initial_gdt` leaves.
use ntm_os.Prelude.{
  ℕ, zero, suc, ◌+◌, ◌-◌, ◌*◌, ◌/◌, ◌^◌, ◌<◌, ◌≡◌, refl, arith, ◌||◌, ◌==◌, if◌then◌else◌,
}
use ntm_os.Prelude.Memory.{Memory, write, write_word, in_range}
use ntm_os.Segments.{n_gdt_entries, gdt_table_start_addr, entry_address, clear_entries, initial_gdt}
use ntm_os.Segments.Descriptor.{entry_base, entry_limit}

clear_entries_lem :
    (n i : ℕ) (m : Memory) (a : ℕ)
    → clear_entries n i m a ≡ (if in_range (entry_address i) (n * 8) a then 0 else m a)
unfolding clear_entries write_word write entry_address
clear_entries_lem zero i m a = ground arith
clear_entries_lem (suc n) i m a = ground (
  arith,
  clear_entries_lem n (i + 1)
      (write_word (write_word m (entry_address i) 0) (entry_address i + 4) 0) a,
)

-- The byte at offset `a` of the table.
abbrev flat : ℕ → ℕ
flat a =
    if (a == 8) || (a == 9) || (a == 16) || (a == 17)
    then 0xff
    else if (a == 14) || (a == 22)
    then 0xcf
    else if a == 13
    then 0x9a
    else if a == 21
    then 0x92
    else 0

initial_gdt-flat :
    (m : Memory) (a : ℕ)
    → a < n_gdt_entries * 8
    → (initial_gdt m).0 (gdt_table_start_addr + a) ≡ flat a
unfolding initial_gdt write_word write entry_address
initial_gdt-flat m a inside = ground (
  arith,
  clear_entries_lem (n_gdt_entries - 3) 3
      (write_word
        (write_word
          (write_word
            (write_word
              (write_word (write_word m gdt_table_start_addr 0) (gdt_table_start_addr + 4) 0)
              (gdt_table_start_addr + 8) 0x0000ffff)
            (gdt_table_start_addr + 12) 0x00cf9a00)
          (gdt_table_start_addr + 16) 0x0000ffff)
        (gdt_table_start_addr + 20) 0x00cf9200)
      (gdt_table_start_addr + a),
)

table_end :
    (m : Memory) → (initial_gdt m).2 + (initial_gdt m).1 ≡ entry_address (n_gdt_entries - 1) + 7
unfolding initial_gdt entry_address
table_end m = refl

-- The last offset of the segment that the entry at `e` describes: with the granularity bit set, the
-- limit counts pages.
unfoldable pub last_offset : Memory → ℕ → ℕ
last_offset m e = if m (e + 6) / 128 == 1 then entry_limit m e * 4096 + 4095 else entry_limit m e

-- After `initial_gdt` every entry has base 0. Entries 1 and 2 reach over the whole address space:
-- their last offset, by their limit and granularity bit, is 2^32 - 1. They have the access bytes of
-- kernel code and of kernel data and are 32-bit segments; every other entry has limit 0, access byte
-- 0 and no flags. The limit that is loaded with the table is its last byte.
pub initial_gdt_lem :
    (m : Memory) (slot : ℕ)
    → slot < n_gdt_entries
    → let (m', limit, base) = initial_gdt m in
      let e = entry_address slot in
      (entry_base m' e ≡ 0)
      × (last_offset m' e ≡ (if (slot == 1) || (slot == 2) then 2 ^ 32 - 1 else 0))
      × (m' (e + 5) ≡ (if slot == 1 then 0x9a else if slot == 2 then 0x92 else 0))
      × (m' (e + 6) / 16 ≡ (if (slot == 1) || (slot == 2) then 0xc else 0))
      × (base + limit ≡ entry_address (n_gdt_entries - 1) + 7)
unfolding entry_address entry_base entry_limit last_offset
initial_gdt_lem m slot inside =
    let at : (k : ℕ)
        → k < 8
        → (initial_gdt m).0 (gdt_table_start_addr + (slot * 8 + k)) ≡ flat (slot * 8 + k) =
      λ k below. initial_gdt-flat m (slot * 8 + k) (omega arith) in
    let byte_6 : (initial_gdt m).0 (gdt_table_start_addr + slot * 8 + 6)
        ≡ (if (slot == 1) || (slot == 2) then 0xcf else 0) =
      ground (arith, at 6 (omega arith)) in
    (
      ground
          (arith, at 2 (omega arith), at 3 (omega arith), at 4 (omega arith), at 7 (omega arith)),
      ground (arith, at 0 (omega arith), at 1 (omega arith), byte_6),
      ground (arith, at 5 (omega arith)),
      ground (arith, byte_6),
      table_end m,
    )
