-- ===== src/Segments/Tests.antt =====
-- The descriptors in an empty memory.
use ntm_os.Prelude.{◌+◌, ◌-◌, ◌/◌, ◌≡◌, arith}
use ntm_os.Prelude.Memory.{Memory}
use ntm_os.Segments.{n_gdt_entries, entry_address, initial_gdt}
use ntm_os.Segments.Descriptor.{entry_base}
use ntm_os.Segments.Flat.{last_offset, initial_gdt_lem}

abbrev cleared : Memory
cleared = λ a. 0

initial_gdt_lem_example :
    let (m', limit, base) = initial_gdt cleared in
    let e = entry_address 1 in
    (entry_base m' e ≡ 0)
    × (last_offset m' e ≡ 0xffffffff)
    × (m' (e + 5) ≡ 0x9a)
    × (m' (e + 6) / 16 ≡ 0xc)
    × (base + limit ≡ entry_address (n_gdt_entries - 1) + 7)
initial_gdt_lem_example = initial_gdt_lem cleared 1 (omega arith)
