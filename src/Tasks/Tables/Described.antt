-- ===== src/Tasks/Tables/Described.antt =====
-- What the processor reads from the descriptors of the processes.
use ntm_os.Prelude.{ℕ, ◌+◌, ◌*◌, ◌/◌, ◌^◌, ◌<◌, ◌≡◌, refl, ◌∙◌, arith, true, false, ◌||◌, leb, ◌==◌}
use ntm_os.Prelude.Memory.{Memory, write, write_half, in_range}
use ntm_os.Prelude.Run.{Run, done}
use ntm_os.Segments.{
  with_bits, set_base_limit, granularity, set_flags, entry_address, install_tss_to_gdt,
  install_ldt_to_gdt, install_seg_to_ldt,
}
use ntm_os.Segments.Descriptor.{
  entry_base, entry_limit, IsByte, set_entry-Describes, access-ldt, access-code, access-data,
}

abbrev pub AreBytes : Memory → Type 0
AreBytes m = (x : ℕ) → IsByte (m x)

-- The entry at `e` is of a segment of `limit + 1` bytes at `base` with the access byte `a`.
pub record Entry (m : Memory) (e base limit a : ℕ) : Type 0 where
  pub base_read : entry_base m e ≡ base
  pub limit_read : entry_limit m e ≡ limit
  pub access_read : m (e + 5) ≡ a
  pub byte_granular : m (e + 6) / 128 ≡ 0

pub Entry-stays :
    (m m' : Memory) (e base limit a : ℕ)
    → ((k : ℕ) → k < 8 → m' (e + k) ≡ m (e + k))
    → m' e ≡ m e
    → Entry m e base limit a
    → Entry m' e base limit a
unfolding entry_base entry_limit
Entry-stays m m' e base limit a same first entry =
    let s1 : m' (e + 1) ≡ m (e + 1) = same 1 (omega arith) in
    let s2 : m' (e + 2) ≡ m (e + 2) = same 2 (omega arith) in
    let s3 : m' (e + 3) ≡ m (e + 3) = same 3 (omega arith) in
    let s4 : m' (e + 4) ≡ m (e + 4) = same 4 (omega arith) in
    let s5 : m' (e + 5) ≡ m (e + 5) = same 5 (omega arith) in
    let s6 : m' (e + 6) ≡ m (e + 6) = same 6 (omega arith) in
    let s7 : m' (e + 7) ≡ m (e + 7) = same 7 (omega arith) in
    record {
      base_read = (rw (s2, s3, s4, s7) entry.base_read);
      limit_read = (rw (first, s1, s6) entry.limit_read);
      access_read = s5 ∙ entry.access_read;
      byte_granular = (rw s6 entry.byte_granular);
    }

set_entry_bytes :
    (e base limit a : ℕ) (m : Memory)
    → base < 2 ^ 32
    → IsByte a
    → AreBytes m
    → AreBytes (set_flags e a (set_base_limit e base limit m))
unfolding set_flags set_base_limit granularity with_bits write_half write
set_entry_bytes e base limit a m small_base small bytes x =
    let byte_x = bytes x in let byte_6 = bytes (e + 6) in ground arith

-- An entry is installed: nothing else changes.
pub record Installs (r : Run Memory) (m : Memory) (e base limit a : ℕ) : Type 0 where
  pub after : Memory
  pub run : r ≡ done after
  pub bytes : AreBytes after
  pub entry : Entry after e base limit a
  pub other : (x : ℕ) → in_range e 8 x ≡ false → after x ≡ m x

installs :
    (r : Run Memory) (m : Memory) (e base limit a : ℕ)
    → AreBytes m
    → base < 2 ^ 32
    → limit < 2 ^ 20
    → IsByte a
    → r ≡ done (set_flags e a (set_base_limit e base limit m))
    → Installs r m e base limit a
installs r m e base limit a bytes small_base small_limit small run =
    let d = set_entry-Describes e base limit a m small_base small_limit (bytes (e + 6)) in
    record {
      after = set_flags e a (set_base_limit e base limit m);
      run = run;
      bytes = set_entry_bytes e base limit a m small_base small bytes;
      entry = record {
        base_read = d.base_read;
        limit_read = d.limit_read;
        access_read = d.access_read;
        byte_granular = d.byte_granular;
      };
      other = d.other;
    }

pub tss-Installs :
    (slot base limit : ℕ) (m : Memory)
    → AreBytes m
    → base < 2 ^ 32
    → limit < 2 ^ 20
    → 0 < slot
    → slot < 8192
    → Installs (install_tss_to_gdt slot base limit m) m (entry_address slot) base limit 0x89
unfolding install_tss_to_gdt
tss-Installs slot base limit m bytes small_base small_limit some_slot inside =
    let good : ((slot == 0) || leb 8192 slot) ≡ false = ground arith in
    installs _ m (entry_address slot) base limit 0x89 bytes small_base small_limit (omega arith)
      (rw good refl)

pub ldt-Installs :
    (slot base limit : ℕ) (m : Memory)
    → AreBytes m
    → base < 2 ^ 32
    → limit < 2 ^ 20
    → 0 < slot
    → slot < 8192
    → Installs (install_ldt_to_gdt slot base limit m) m (entry_address slot) base limit 0xe2
unfolding install_ldt_to_gdt
ldt-Installs slot base limit m bytes small_base small_limit some_slot inside =
    let good : ((slot == 0) || leb 8192 slot) ≡ false = ground arith in
    installs _ m (entry_address slot) base limit 0xe2 bytes small_base small_limit (omega arith)
      (rw (good, access-ldt (m (entry_address slot + 5)) (bytes _)) refl)

pub code-Installs :
    (ldt base limit : ℕ) (m : Memory)
    → AreBytes m
    → base < 2 ^ 32
    → limit < 2 ^ 20
    → Installs (install_seg_to_ldt ldt 0 base limit true m) m (ldt + 0 * 8) base limit 0xfb
unfolding install_seg_to_ldt
code-Installs ldt base limit m bytes small_base small_limit =
    installs _ m (ldt + 0 * 8) base limit 0xfb bytes small_base small_limit (omega arith)
      (rw (access-code (m (ldt + 0 * 8 + 5)) (bytes _)) refl)

pub data-Installs :
    (ldt base limit : ℕ) (m : Memory)
    → AreBytes m
    → base < 2 ^ 32
    → limit < 2 ^ 20
    → Installs (install_seg_to_ldt ldt 1 base limit false m) m (ldt + 1 * 8) base limit 0xf3
unfolding install_seg_to_ldt
data-Installs ldt base limit m bytes small_base small_limit =
    installs _ m (ldt + 1 * 8) base limit 0xf3 bytes small_base small_limit (omega arith)
      (rw (access-data (m (ldt + 1 * 8 + 5)) (bytes _)) refl)
