-- ===== src/Startup/Gates.antt =====
-- What the processor reads from the interrupt descriptor table.
use ntm_os.Prelude.{
  ℕ, zero, suc, ◌+◌, ◌*◌, ◌/◌, ◌%◌, ◌^◌, ◌<◌, ◌≡◌, ◌≢◌, sym, ap, ◌∙◌, arith, Bool, Bool-cases, true,
  false, ◌||◌, ◌&&◌, inl, inr, ==→eq, ==→ne, List, [], ◌∷◌, nonzero, leb, ltb, ◌==◌, if◌then◌else◌,
}
use mathlib.Core.Path.{subst}
use ntm_os.Prelude.Memory.{Memory, write, write_half}
use ntm_os.Segments.{with_bits}
use ntm_os.Startup.{
  gate_address, gate_attr, set_interrupt, clear_gate, clear_gates, Stubs, handlers, install_all,
  initial_idt, n_idt_entries,
}

-- A gate: the address of the handler, the selector and the attributes.
pub record Gate : Type 0 where
  pub offset : ℕ
  pub selector : ℕ
  pub attr : ℕ

-- The gate of interrupt `id`.
unfoldable pub gate_of : Memory → ℕ → Gate
gate_of m id =
    let e = gate_address id in
    record {
      offset = m e + 256 * m (e + 1) + 65536 * m (e + 6) + 16777216 * m (e + 7);
      selector = m (e + 2) + 256 * m (e + 3);
      attr = m (e + 5);
    }

gate_attr_lem :
    (gate_type priv_level : ℕ) (on : Bool) (b : ℕ)
    → gate_type < 16
    → priv_level < 4
    → b < 256
    → gate_attr gate_type priv_level on b ≡ gate_type + 32 * priv_level + (if on then 128 else 0)
unfolding gate_attr with_bits
gate_attr_lem gate_type priv_level true b ht hp hb = ground arith
gate_attr_lem gate_type priv_level false b ht hp hb = ground arith

-- The gate that a call of `set_interrupt` is for.
abbrev pub gate_for : ℕ → ℕ → ℕ → Gate
gate_for handler gate_type priv_level = record {
  offset = handler;
  selector = 8;
  attr = gate_type + 32 * priv_level + (if nonzero handler then 128 else 0);
}

Gate-ext : (g h : Gate) → g.offset ≡ h.offset → g.selector ≡ h.selector → g.attr ≡ h.attr → g ≡ h
Gate-ext g h e f k =
    ap (λ o. record { offset = o; selector = g.selector; attr = g.attr }) e
    ∙ ap (λ s. record { offset = h.offset; selector = s; attr = g.attr }) f
    ∙ ap (λ a. record { offset = h.offset; selector = h.selector; attr = a }) k

-- The stores of `set_interrupt`, when its guards let it pass.
abbrev stores : ℕ → ℕ → ℕ → Memory → Memory
stores e handler attr m =
    write_half
      (write (write_half (write_half m e (handler % 2 ^ 16)) (e + 6) (handler / 2 ^ 16 % 2 ^ 16))
        (e + 5) attr)
      (e + 2) 8

stores_same :
    (id handler attr : ℕ) (m : Memory)
    → handler < 2 ^ 32
    → gate_of (stores (gate_address id) handler attr m) id
      ≡ record { offset = handler; selector = 8; attr = attr }
unfolding gate_of write_half write
stores_same id handler attr m small =
    Gate-ext (gate_of (stores (gate_address id) handler attr m) id)
      (record { offset = handler; selector = 8; attr = attr }) (ground arith) (ground arith)
      (ground arith)

stores_other :
    (id handler attr j : ℕ) (m : Memory)
    → j ≢ id
    → gate_of (stores (gate_address id) handler attr m) j ≡ gate_of m j
unfolding gate_of write_half write gate_address
stores_other id handler attr j m ne =
    Gate-ext (gate_of (stores (gate_address id) handler attr m) j) (gate_of m j) (ground arith)
      (ground arith) (ground arith)

-- In range, `set_interrupt` stores what the gate should hold.
set_interrupt-stores :
    (id handler gate_type priv_level : ℕ) (m : Memory)
    → id < 256
    → gate_type < 16
    → priv_level < 4
    → (gate_of m id).attr < 256
    → set_interrupt id 1 handler gate_type priv_level true m
      ≡ stores (gate_address id) handler (gate_for handler gate_type priv_level).attr m
unfolding set_interrupt gate_of write_half write
set_interrupt-stores id handler gate_type priv_level m hid ht hp hb =
    let e = gate_address id in
    let on = nonzero handler && true in
    let passes : (leb 256 id || leb 4 priv_level) ≡ false = ground arith in
    let old : ℕ =
      write_half (write_half m e (handler % 2 ^ 16)) (e + 6) (handler / 2 ^ 16 % 2 ^ 16) (e + 5) in
    let kept : old ≡ m (e + 5) = ground arith in
    let attr : gate_attr gate_type priv_level on old
        ≡ (gate_for handler gate_type priv_level).attr =
      ap (gate_attr gate_type priv_level on) kept
      ∙ gate_attr_lem gate_type priv_level on (m (e + 5)) ht hp hb
      ∙ ground arith in
    ap (λ b. if b then m else stores e handler (gate_attr gate_type priv_level on old) m) passes
    ∙ ap (λ a. stores e handler a m) attr

set_interrupt-gate_of :
    (id handler gate_type priv_level : ℕ) (m : Memory) (j : ℕ)
    → id < 256
    → handler < 2 ^ 32
    → gate_type < 16
    → priv_level < 4
    → (gate_of m id).attr < 256
    → gate_of (set_interrupt id 1 handler gate_type priv_level true m) j
      ≡ (if j == id then gate_for handler gate_type priv_level else gate_of m j)
set_interrupt-gate_of id handler gate_type priv_level m j hid hh ht hp hb =
    let g = gate_for handler gate_type priv_level in
    ap (λ m. gate_of m j) (set_interrupt-stores id handler gate_type priv_level m hid ht hp hb)
    ∙ elim (Bool-cases (j == id)) [
      | inl here ↦
          ap (gate_of (stores (gate_address id) handler g.attr m)) (==→eq j id here)
          ∙ stores_same id handler g.attr m hh
          ∙ ap (λ b. if b then g else gate_of m j) (sym here)
      | inr other ↦
          stores_other id handler g.attr j m (==→ne j id other)
          ∙ ap (λ b. if b then g else gate_of m j) (sym other)
    ]

-- The gates after some calls of `set_interrupt`.
abbrev gates_after : List (ℕ × ℕ × ℕ × ℕ) → (ℕ → Gate) → ℕ → Gate
gates_after [] gates j = gates j
gates_after ((id, handler, gate_type, priv_level) ∷ more) gates j =
    gates_after more (λ j. if j == id then gate_for handler gate_type priv_level else gates j) j

-- The arguments of the calls are in range.
abbrev InRange : List (ℕ × ℕ × ℕ × ℕ) → Type 0
InRange [] = Unit
InRange ((id, handler, gate_type, priv_level) ∷ more) =
    (id < 256) × (handler < 2 ^ 32) × (gate_type < 16) × (priv_level < 4) × InRange more

install_all-gates_after :
    (calls : List (ℕ × ℕ × ℕ × ℕ)) (m : Memory) (gates : ℕ → Gate) (j : ℕ)
    → InRange calls
    → ((j : ℕ) → j < 256 → gate_of m j ≡ gates j)
    → ((j : ℕ) → (gates j).attr < 256)
    → j < 256
    → gate_of (install_all calls m) j ≡ gates_after calls gates j
install_all-gates_after [] m gates j ok before bytes hj = before j hj
install_all-gates_after ((id, handler, gate_type, priv_level) ∷ more) m gates j
      (hid, hh, ht, hp, ok) before bytes hj =
    let g = gate_for handler gate_type priv_level in
    let small : g.attr < 256 = ground arith in
    install_all-gates_after more (set_interrupt id 1 handler gate_type priv_level true m)
      (λ j. if j == id then g else gates j) j ok
      (λ j hj.
        set_interrupt-gate_of id handler gate_type priv_level m j hid hh ht hp
          (subst (λ g. g.attr < 256) (sym (before id hid)) (bytes id))
        ∙ ap (λ h. if j == id then g else h) (before j hj))
      (λ j. elim (j == id) as (λ b. (if b then g else gates j).attr < 256) [
        | true ↦ small
        | false ↦ bytes j
      ])
      hj

clear_gates_lem :
    (n i : ℕ) (m : Memory) (a : ℕ)
    → clear_gates n i m a
      ≡ (if leb (gate_address i) a && ltb a (gate_address (i + n)) then 0 else m a)
unfolding clear_gates clear_gate write_half write gate_address
clear_gates_lem zero i m a = ground arith
clear_gates_lem (suc n) i m a =
    ground (arith, clear_gates_lem n (i + 1) (clear_gate (gate_address i) m) a)

-- The handler of every interrupt.
abbrev pub gate_expected : Stubs → ℕ → Gate
gate_expected stubs j =
    if j == 0x80
    then gate_for stubs.int80h 0xf 3
    else if j == 0x2c
    then gate_for stubs.int2ch 0xe 0
    else if j == 0x27
    then gate_for stubs.int27h 0xe 0
    else if j == 0x24
    then gate_for stubs.int24h 0xe 0
    else if j == 0x21
    then gate_for stubs.int21h 0xe 0
    else if j == 0x20
    then gate_for stubs.int20h 0xe 0
    else record { offset = 0; selector = 0; attr = 0 }

-- The stubs are 32-bit addresses.
pub record Are32Bit (stubs : Stubs) : Type 0 where
  pub int20h : stubs.int20h < 2 ^ 32
  pub int21h : stubs.int21h < 2 ^ 32
  pub int24h : stubs.int24h < 2 ^ 32
  pub int27h : stubs.int27h < 2 ^ 32
  pub int2ch : stubs.int2ch < 2 ^ 32
  pub int80h : stubs.int80h < 2 ^ 32

cleared-gate_of :
    (m : Memory) (j : ℕ)
    → j < 256
    → gate_of (clear_gates n_idt_entries 0 m) j ≡ record { offset = 0; selector = 0; attr = 0 }
unfolding gate_of gate_address
cleared-gate_of m j hj =
    let at = gate_address j in
    let m' = clear_gates n_idt_entries 0 m in
    let zero_at : (k : ℕ) → k < 8 → m' (at + k) ≡ 0 =
      λ k hk. ground (arith, clear_gates_lem n_idt_entries 0 m (at + k)) in
    let first : m' at ≡ 0 = ground (arith, clear_gates_lem n_idt_entries 0 m at) in
    Gate-ext (gate_of m' j) (record { offset = 0; selector = 0; attr = 0 })
      (omega
        (arith, first, zero_at 1 (omega arith), zero_at 6 (omega arith), zero_at 7 (omega arith)))
      (omega (arith, zero_at 2 (omega arith), zero_at 3 (omega arith))) (zero_at 5 (omega arith))

-- After initial_idt every interrupt has the gate that is meant for it: the timer, the keyboard, the
-- serial port, the printer and the mouse an interrupt gate of privilege level 0 with the kernel's
-- code segment, the system call a trap gate of level 3, each present if its stub is not at address
-- 0, and every other interrupt has none. The stubs are 32-bit addresses.
pub initial_idt-gate_of :
    (stubs : Stubs) (m : Memory) (j : ℕ)
    → Are32Bit stubs
    → j < 256
    → gate_of (initial_idt stubs m).0 j ≡ gate_expected stubs j
unfolding initial_idt handlers
initial_idt-gate_of stubs m j small hj =
    install_all-gates_after (handlers stubs) (clear_gates n_idt_entries 0 m)
      (λ j. record { offset = 0; selector = 0; attr = 0 }) j
      ((
        omega arith,
        small.int20h,
        omega arith,
        omega arith,
        (
          omega arith,
          small.int21h,
          omega arith,
          omega arith,
          (
            omega arith,
            small.int24h,
            omega arith,
            omega arith,
            (
              omega arith,
              small.int27h,
              omega arith,
              omega arith,
              (
                omega arith,
                small.int2ch,
                omega arith,
                omega arith,
                (omega arith, small.int80h, omega arith, omega arith, tt),
              ),
            ),
          ),
        ),
      ))
      (cleared-gate_of m) (λ j. omega arith) hj
