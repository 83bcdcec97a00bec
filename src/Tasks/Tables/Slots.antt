-- ===== src/Tasks/Tables/Slots.antt =====
-- The descriptors of all the processes after the loop of init_process_management.
use ntm_os.Prelude.{
  ℕ, ◌+◌, ◌-◌, ◌*◌, ◌^◌, ◌<◌, ◌≤◌, ◌≡◌, ◌⊎◌, inl, inr, ap, ◌∙◌, arith, Bool, true, false, ◌||◌,
}
use mathlib.Core.Path.{subst}
use ntm_os.Prelude.Memory.{Memory, in_range}
use ntm_os.Prelude.Run.{done, ◌>>=◌}
use ntm_os.Segments.{gdt_table_start_addr, entry_address, install_ldt_to_gdt, install_seg_to_ldt}
use ntm_os.Tasks.Tables.{user_base, install_slot}
use ntm_os.Tasks.Tables.Described.{
  AreBytes, Entry, Entry-stays, tss-Installs, ldt-Installs, code-Installs, data-Installs,
}

-- The slots lie behind each other, below 2^32, and apart from the global table.
pub record Placed (process : ℕ → ℕ) : Type 0 where
  pub below : (i : ℕ) → i < 64 → process i + 132 ≤ 2 ^ 32
  pub ordered : (i j : ℕ) → i < j → j < 64 → process i + 132 ≤ process j
  pub outside :
      (i : ℕ)
      → i < 64
      → (process i + 28 ≤ gdt_table_start_addr) ⊎ (gdt_table_start_addr + 65536 ≤ process i)

module _ (process : ℕ → ℕ) where
  -- Slot `i` has a task state segment and a local table in the global table, and in its local table
  -- the code and the data of the user memory `i`, of 1 MB.
  pub record Slot (i : ℕ) (m : Memory) : Type 0 where
    pub tss : Entry m (entry_address (16 + i)) (process i + 28) 104 0x89
    pub ldt : Entry m (entry_address (80 + i)) (process i + 12) 16 0xe2
    pub user_code : Entry m (process i + 12) (0x4000000 + i * 2 ^ 20) (2 ^ 20 - 1) 0xfb
    pub user_data : Entry m (process i + 20) (0x4000000 + i * 2 ^ 20) (2 ^ 20 - 1) 0xf3

  -- Slot `i` is written at `x`.
  abbrev pub written : ℕ → ℕ → Bool
  written i x =
      (in_range (gdt_table_start_addr + (16 + i) * 8) 8 x
        || in_range (gdt_table_start_addr + (80 + i) * 8) 8 x)
      || in_range (process i + 12) 16 x

  pub Slot-stays :
      (i : ℕ) (m m' : Memory) → ((x : ℕ) → written i x ≡ true → m' x ≡ m x) → Slot i m → Slot i m'
  unfolding entry_address
  Slot-stays i m m' same slot =
      let kept : (e base limit a : ℕ)
          → ((k : ℕ) → k < 8 → written i (e + k) ≡ true)
          → written i e ≡ true
          → Entry m e base limit a
          → Entry m' e base limit a =
        λ e base limit a inside first entry.
          Entry-stays m m' e base limit a (λ k less. same (e + k) (inside k less)) (same e first)
            entry in
      record {
        tss = kept _ _ _ _ (λ k less. ground arith) (ground arith) slot.tss;
        ldt = kept _ _ _ _ (λ k less. ground arith) (ground arith) slot.ldt;
        user_code = kept _ _ _ _ (λ k less. ground arith) (ground arith) slot.user_code;
        user_data = kept _ _ _ _ (λ k less. ground arith) (ground arith) slot.user_data;
      }

  pub written_apart :
      (placed : Placed process) (i j x : ℕ)
      → i < j
      → j < 64
      → written i x ≡ true
      → written j x ≡ false
  written_apart placed i j x less small w =
      let after = placed.ordered i j less small in
      elim (placed.outside i (omega arith)) [
        | inl below_i ↦ elim (placed.outside j small) [
          | inl below_j ↦ ground arith
          | inr above_j ↦ ground arith
        ]
        | inr above_i ↦ elim (placed.outside j small) [
          | inl below_j ↦ ground arith
          | inr above_j ↦ ground arith
        ]
      ]

  gdt_apart :
      (placed : Placed process) (i s t x : ℕ)
      → i < 64
      → s < 8192
      → t ≤ 8
      → in_range (gdt_table_start_addr + s * 8) 8 x ≡ true
      → in_range (process i + 12 + t) 8 x ≡ false
  gdt_apart placed i s t x small inside short at = elim (placed.outside i small) [
    | inl below ↦ ground arith
    | inr above ↦ ground arith
  ]

  gdt_entry_kept :
      (placed : Placed process) (i s t base limit a : ℕ) (m m' : Memory)
      → i < 64
      → s < 8192
      → t ≤ 8
      → ((x : ℕ) → in_range (process i + 12 + t) 8 x ≡ false → m' x ≡ m x)
      → Entry m (entry_address s) base limit a
      → Entry m' (entry_address s) base limit a
  unfolding entry_address
  gdt_entry_kept placed i s t base limit a m m' small inside short other entry =
      let e = gdt_table_start_addr + s * 8 in
      let same : (x : ℕ) → in_range e 8 x ≡ true → m' x ≡ m x =
        λ x at. other x (gdt_apart placed i s t x small inside short at) in
      Entry-stays m m' e base limit a (λ k less. same (e + k) (ground arith))
        (same e (ground arith)) entry

  other_entry_kept :
      (e f base limit a : ℕ) (m m' : Memory)
      → (e + 8 ≤ f) ⊎ (f + 8 ≤ e)
      → ((x : ℕ) → in_range f 8 x ≡ false → m' x ≡ m x)
      → Entry m e base limit a
      → Entry m' e base limit a
  other_entry_kept e f base limit a m m' apart other entry =
      let out : (k : ℕ) → k < 8 → in_range f 8 (e + k) ≡ false =
        λ k less. elim apart [ inl before ↦ ground arith | inr behind ↦ ground arith ] in
      let first : in_range f 8 e ≡ false = elim apart [
        | inl before ↦ ground arith
        | inr behind ↦ ground arith
      ] in
      Entry-stays m m' e base limit a (λ k less. other (e + k) (out k less)) (other e first) entry

  pub install_slot-Slot :
      (placed : Placed process) (i : ℕ) (m : Memory)
      → i < 64
      → AreBytes m
      → (m' : Memory) × (install_slot process i m ≡ done m')
        × AreBytes m'
        × Slot i m'
        × ((x : ℕ) → written i x ≡ false → m' x ≡ m x)
  unfolding install_slot user_base entry_address
  install_slot-Slot placed i m small bytes =
      let p = process i in
      let fits = placed.below i small in
      let base = 0x4000000 + i * 0x100000 in
      let low : base < 2 ^ 32 = omega arith in
      let limit : 0x100000 - 1 < 2 ^ 20 = omega arith in
      let r1 =
        tss-Installs (16 + i) (p + 28) 104 m bytes (omega arith) (omega arith) (omega arith)
          (omega arith) in
      let r2 =
        ldt-Installs (80 + i) (p + 12) 16 r1.after r1.bytes (omega arith) (omega arith)
          (omega arith) (omega arith) in
      let r3 = code-Installs (p + 12) base (0x100000 - 1) r2.after r2.bytes low limit in
      let r4 = data-Installs (p + 12) base (0x100000 - 1) r3.after r3.bytes low limit in
      let m1 = r1.after in
      let m2 = r2.after in
      let m3 = r3.after in
      let m4 = r4.after in
      let second = install_ldt_to_gdt (80 + i) (p + 12) 16 in
      let third = install_seg_to_ldt (p + 12) 0 base (0x100000 - 1) true in
      let fourth = install_seg_to_ldt (p + 12) 1 base (0x100000 - 1) false in
      let code_at : p + 12 + 0 * 8 ≡ p + 12 = omega arith in
      let data_at : p + 12 + 1 * 8 ≡ p + 20 = omega arith in
      let e1 = other_entry_kept _ _ _ _ _ m1 m2 (inl (omega arith)) r2.other r1.entry in
      (
        m4,
        ap (λ r. r >>= second >>= third >>= fourth) r1.run
            ∙ ap (λ r. r >>= third >>= fourth) r2.run
            ∙ ap (λ r. r >>= fourth) r3.run
            ∙ r4.run,
        r4.bytes,
        record {
          tss =
              gdt_entry_kept placed i (16 + i) 8 _ _ _ m3 m4 small (omega arith) (omega arith)
                r4.other
                (gdt_entry_kept placed i (16 + i) 0 _ _ _ m2 m3 small (omega arith) (omega arith)
                  r3.other e1);
          ldt =
              gdt_entry_kept placed i (80 + i) 8 _ _ _ m3 m4 small (omega arith) (omega arith)
                r4.other
                (gdt_entry_kept placed i (80 + i) 0 _ _ _ m2 m3 small (omega arith) (omega arith)
                  r3.other r2.entry);
          user_code =
              subst (λ e. Entry m4 e base (2 ^ 20 - 1) 0xfb) code_at
                (other_entry_kept _ _ _ _ _ m3 m4 (inl (omega arith)) r4.other r3.entry);
          user_data = subst (λ e. Entry m4 e base (2 ^ 20 - 1) 0xf3) data_at r4.entry;
        },
        λ x out.
            r4.other x (ground arith)
            ∙ r3.other x (ground arith)
            ∙ r2.other x (ground arith)
            ∙ r1.other x (ground arith),
      )
