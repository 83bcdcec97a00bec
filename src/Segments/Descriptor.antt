-- ===== src/Segments/Descriptor.antt =====
-- What the processor reads from the entries that are installed.
use ntm_os.Prelude.{
  ℕ, ◌+◌, ◌*◌, ◌/◌, ◌%◌, ◌^◌, ◌<◌, ◌≡◌, inl, inr, refl, arith, Bool-cases, Bool, true, false, ◌||◌,
  ◌&&◌, leb, ltb, ◌==◌, if◌then◌else◌,
}
use ntm_os.Prelude.Memory.{Memory, write, write_half, in_range}
use ntm_os.Prelude.Run.{Run, done, panic}
use ntm_os.Segments.{
  n_gdt_entries, n_ldt_entries, with_bits, set_base_limit, access, granularity, set_flags,
  entry_address, install_tss_to_gdt, install_ldt_to_gdt, install_seg_to_ldt,
}

-- The base, the limit, the access byte and the granularity of the entry at `e`.
unfoldable pub entry_base : Memory → ℕ → ℕ
entry_base m e = m (e + 2) + 256 * m (e + 3) + 65536 * m (e + 4) + 16777216 * m (e + 7)

unfoldable pub entry_limit : Memory → ℕ → ℕ
entry_limit m e = m e + 256 * m (e + 1) + 65536 * (m (e + 6) % 16)

abbrev pub IsByte : ℕ → Type 0
IsByte b = b < 256

-- The entry at `e` describes a segment of `limit + 1` bytes at `base`, and no other memory changes.
pub record Describes (m' m : Memory) (e base limit a : ℕ) : Type 0 where
  pub base_read : entry_base m' e ≡ base
  pub limit_read : entry_limit m' e ≡ limit
  pub access_read : m' (e + 5) ≡ a
  pub byte_granular : m' (e + 6) / 128 ≡ 0
  pub other : (x : ℕ) → in_range e 8 x ≡ false → m' x ≡ m x

pub set_entry-Describes :
    (e base limit a : ℕ) (m : Memory)
    → base < 2 ^ 32
    → limit < 2 ^ 20
    → IsByte (m (e + 6))
    → Describes (set_flags e a (set_base_limit e base limit m)) m e base limit a
unfolding set_flags set_base_limit granularity with_bits write_half entry_base entry_limit write
set_entry-Describes e base limit a m small_base small_limit byte = record {
  base_read = ground arith;
  limit_read = ground arith;
  access_read = ground arith;
  byte_granular = ground arith;
  other = λ x out. ground arith;
}

pub access-ldt : (b : ℕ) → IsByte b → access 0 1 0 0 0 3 1 b ≡ 0xe2
unfolding access with_bits
access-ldt b byte = ground arith

pub access-code : (b : ℕ) → IsByte b → access 1 1 0 1 1 3 1 b ≡ 0xfb
unfolding access with_bits
access-code b byte = ground arith

pub access-data : (b : ℕ) → IsByte b → access 1 1 0 0 1 3 1 b ≡ 0xf3
unfolding access with_bits
access-data b byte = ground arith

-- The slot is in the table and the call returns a memory, or it panics.
abbrev pub InstallsIf : Bool → Run Memory → (Memory → Type 0) → Type 0
InstallsIf true r P = (m' : Memory) × (r ≡ done m') × P m'
InstallsIf false r P = r ≡ panic

abbrev pub in_gdt : ℕ → Bool
in_gdt slot = ltb 0 slot && ltb slot n_gdt_entries

-- `install_tss_to_gdt` and `install_ldt_to_gdt` of slot 0 or a slot outside of the table panic. In
-- any other slot they describe the segment with the given base and limit, if these have 32 and 20
-- bits: a present TSS with access byte 0x89 and a present LDT with access byte 0xe2. They change no
-- other memory.
pub install_gdt-Describes :
    (slot base limit : ℕ) (m : Memory)
    → base < 2 ^ 32
    → limit < 2 ^ 20
    → ((x : ℕ) → IsByte (m x))
    → InstallsIf
        (in_gdt slot)
        (install_tss_to_gdt slot base limit m)
        (λ m'. Describes m' m (entry_address slot) base limit 0x89)
      × InstallsIf
          (in_gdt slot)
          (install_ldt_to_gdt slot base limit m)
          (λ m'. Describes m' m (entry_address slot) base limit 0xe2)
unfolding install_tss_to_gdt install_ldt_to_gdt
install_gdt-Describes slot base limit m small_base small_limit bytes =
    elim (Bool-cases (in_gdt slot)) [
      | inl good ↦
          let inside : ((slot == 0) || leb n_gdt_entries slot) ≡ false = ground arith in
          rw good (
            (
              _,
              rw inside refl,
              set_entry-Describes (entry_address slot) base limit 0x89 m small_base small_limit
                  (bytes _),
            ),
            (
              _,
              rw (inside, access-ldt (m (entry_address slot + 5)) (bytes _)) refl,
              set_entry-Describes (entry_address slot) base limit 0xe2 m small_base small_limit
                  (bytes _),
            ),
          )
      | inr bad ↦
          let outside : ((slot == 0) || leb n_gdt_entries slot) ≡ true = ground arith in
          rw bad (rw outside refl, rw outside refl)
    ]

segment_access :
    (is_code : Bool) (b : ℕ)
    → IsByte b
    → access 1 1 0 (if is_code then 1 else 0) 1 3 1 b ≡ (if is_code then 0xfb else 0xf3)
segment_access true b byte = access-code b byte
segment_access false b byte = access-data b byte

-- `install_seg_to_ldt` of a slot above 1 panics. In slots 0 and 1 it describes a present segment of
-- privilege level 3 with the given base and limit, if these have 32 and 20 bits, for code with
-- access byte 0xfb, or for data with access byte 0xf3. It changes no other memory.
pub install_seg_to_ldt-Describes :
    (ldt slot base limit : ℕ) (is_code : Bool) (m : Memory)
    → base < 2 ^ 32
    → limit < 2 ^ 20
    → ((x : ℕ) → IsByte (m x))
    → InstallsIf
        (ltb slot n_ldt_entries)
        (install_seg_to_ldt ldt slot base limit is_code m)
        (λ m'. Describes m' m (ldt + slot * 8) base limit (if is_code then 0xfb else 0xf3))
unfolding install_seg_to_ldt
install_seg_to_ldt-Describes ldt slot base limit is_code m small_base small_limit bytes =
    elim (Bool-cases (ltb slot n_ldt_entries)) [
      | inl good ↦
          let inside : leb n_ldt_entries slot ≡ false = ground arith in
          rw good (
            _,
            rw (inside, segment_access is_code (m (ldt + slot * 8 + 5)) (bytes _)) refl,
            set_entry-Describes (ldt + slot * 8) base limit _ m small_base small_limit (bytes _),
          )
      | inr bad ↦
          let outside : leb n_ldt_entries slot ≡ true = ground arith in rw (bad, outside) refl
    ]
