-- ===== src/Tasks/Tables/Loop.antt =====
-- The loop of init_process_management over the slots.
use ntm_os.Prelude.{
  ℕ, zero, suc, ◌+◌, ◌*◌, ◌<◌, ◌≤◌, ◌≡◌, inl, inr, refl, ap, ◌∙◌, arith, Bool-cases, true, false,
  ◌==◌,
}
use mathlib.Core.Path.{subst}
use ntm_os.Prelude.Memory.{Memory, update_self, update_other}
use ntm_os.Prelude.Run.{done, ◌>>=◌}
use ntm_os.Tasks.{TaskState, unused}
use ntm_os.Tasks.Tables.{reset_slot, init_slots, init_process_management}
use ntm_os.Tasks.Tables.Described.{AreBytes}
use ntm_os.Tasks.Tables.Slots.{Placed, Slot, written, Slot-stays, written_apart, install_slot-Slot}

-- Slot `i` is unused, and has its number and the selector of its local table.
pub record IsReset (i : ℕ) (s : TaskState) : Type 0 where
  pub is_unused : s.status (i + 1) ≡ unused
  pub number : s.tss_entry_id (i + 1) ≡ i
  pub selector : (s.tss (i + 1)).ldtr ≡ (80 + i) * 8

reset_slot-IsReset : (i : ℕ) (s : TaskState) → i < 64 → IsReset i (reset_slot i s)
unfolding reset_slot
reset_slot-IsReset i s small = record {
  is_unused = update_self s.status (i + 1) unused;
  number = update_self s.tss_entry_id (i + 1) i;
  selector = ap (λ t. t.ldtr) (update_self s.tss (i + 1) _) ∙ omega arith;
}

IsReset-stays : (i j : ℕ) (s : TaskState) → i < j → IsReset i s → IsReset i (reset_slot j s)
unfolding reset_slot
IsReset-stays i j s less is = record {
  is_unused = update_other s.status (j + 1) unused (i + 1) (omega arith) ∙ is.is_unused;
  number = update_other s.tss_entry_id (j + 1) j (i + 1) (omega arith) ∙ is.number;
  selector = ap (λ t. t.ldtr) (update_other s.tss (j + 1) _ (i + 1) (omega arith)) ∙ is.selector;
}

module _ (process : ℕ → ℕ) (placed : Placed process) where
  -- Slot `i` is ready for use.
  abbrev pub Fresh : ℕ → TaskState → Memory → Type 0
  Fresh i s m = IsReset i s × Slot process i m

  init_slots-Fresh :
      (n i : ℕ) (s : TaskState) (m : Memory)
      → i + n ≤ 64
      → AreBytes m
      → (s' : TaskState) × (m' : Memory) × (init_slots process n i s m ≡ done (s', m'))
        × ((j : ℕ) → i ≤ j → j < i + n → Fresh j s' m')
        × ((j : ℕ) → j < i → IsReset j s → IsReset j s')
        × ((x : ℕ) → ((j : ℕ) → i ≤ j → j < i + n → written process j x ≡ false) → m' x ≡ m x)
  unfolding init_slots
  init_slots-Fresh zero i s m small bytes =
      (s, m, refl, λ j from to. absurd (omega arith), λ j before is. is, λ x out. refl)
  init_slots-Fresh (suc n) i s m small bytes =
      let (m1, run, bytes1, slot, other1) =
        install_slot-Slot process placed i m (omega arith) bytes in
      let (s', m', rest, fresh, kept, other) =
        init_slots-Fresh n (i + 1) (reset_slot i s) m1 (omega arith) bytes1 in
      let is_reset = kept i (omega arith) (reset_slot-IsReset i s (omega arith)) in
      let same : (x : ℕ) → written process i x ≡ true → m' x ≡ m1 x = λ x w.
        other x (λ j from to. written_apart process placed i j x (omega arith) (omega arith) w) in
      let first : Fresh i s' m' = (is_reset, Slot-stays process i m1 m' same slot) in
      (
        s',
        m',
        ap (λ r. r >>= init_slots process n (i + 1) (reset_slot i s)) run ∙ rest,
        λ j from to. elim (Bool-cases (i == j)) [
          | inl here ↦
              let is_here : i ≡ j = ground arith in subst (λ j. Fresh j s' m') is_here first
          | inr later ↦ fresh j (ground arith) (omega arith)
        ],
        λ j before is. kept j (omega arith) (IsReset-stays j i s before is),
        λ x out.
            other x (λ j from to. out j (omega arith) (omega arith))
            ∙ other1 x (out i (omega arith) (omega arith)),
      )

-- If the slots of the processes lie behind each other, below 2^32, and apart from the global
-- table, and memory holds bytes, init_process_management returns. Every slot is then unused, has
-- its number, and the selector of its own local table. The global table has at the entries 16 + i
-- and 80 + i the task state segment and the local table of slot i, and that local table a code and
-- a data segment of privilege level 3 for the 1 MB of user memory from 0x4000000 + i * 2^20 on.
-- Memory that none of these descriptors takes is as before.
pub init_process_management-Fresh :
    (process : ℕ → ℕ) (s : TaskState) (m : Memory)
    → (placed : Placed process) → AreBytes m
    → (s' : TaskState) × (m' : Memory) × (init_process_management process s m ≡ done (s', m'))
      × ((i : ℕ) → i < 64 → Fresh process placed i s' m')
      × ((x : ℕ) → ((i : ℕ) → i < 64 → written process i x ≡ false) → m' x ≡ m x)
unfolding init_process_management
init_process_management-Fresh process s m placed bytes =
    let (s', m', run, fresh, kept, other) =
      init_slots-Fresh process placed 64 0 s m (omega arith) bytes in
    (
      s',
      m',
      run,
      λ i less. fresh i (omega arith) (omega arith),
      λ x out. other x (λ j from to. out j (omega arith)),
    )
