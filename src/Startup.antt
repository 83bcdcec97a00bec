-- ===== src/Startup.antt =====
-- What kernel_inits.c and kernel_main of kernel.c set up before the first task runs: the page
-- tables, the interrupt gates, the interrupt controllers, the timer chip, the keyboard and the
-- mouse. The stubs of the handlers, which are assembly, are known by their addresses.
pub mod Gates
pub mod Pages
pub mod Machine
pub mod Pics
mod Tests
use ntm_os.Prelude.{
  ℕ, zero, suc, ◌+◌, ◌-◌, ◌*◌, ◌/◌, ◌%◌, ◌^◌, Bool, true, false, ◌||◌, ◌&&◌, List, [], ◌∷◌, nonzero,
  ltb, leb, ◌==◌, if◌then◌else◌,
}
use ntm_os.Prelude.Memory.{Memory, write, write_half, write_word, update}
use ntm_os.Prelude.Run.{Run, done, ◌>>=◌}
use ntm_os.Serial.{com1_port, initial_serial}
use ntm_os.Prelude.Device.{Device, out_all, poll_while}
use ntm_os.KTimer.{TimerControl}
use ntm_os.Segments.{with_bits}

abbrev pub idt_table_start_addr : ℕ
idt_table_start_addr = 0x80000000

abbrev pub gpt_table_start_addr : ℕ
gpt_table_start_addr = 0x80000000 + 0x400000

abbrev pub kern_base_phy_addr : ℕ
kern_base_phy_addr = 0x08000000

abbrev pub page_size : ℕ
page_size = 4096

abbrev pub n_idt_entries : ℕ
n_idt_entries = 256

abbrev pub idt_interrupt_gate : ℕ
idt_interrupt_gate = 0xe

abbrev pub idt_trap_gate : ℕ
idt_trap_gate = 0xf

unfoldable pub gate_address : ℕ → ℕ
gate_address id = idt_table_start_addr + id * 8

-- The bit-fields of `attr`, in the order of the assignments.
unfoldable pub gate_attr : ℕ → ℕ → Bool → ℕ → ℕ
gate_attr gate_type priv_level enabled b =
    with_bits 7 1 (if enabled then 1 else 0)
      (with_bits 4 1 0 (with_bits 5 2 priv_level (with_bits 0 4 gate_type b)))

-- `interrupt_id` and `priv_level` are not negative.
unfoldable pub set_interrupt : ℕ → ℕ → ℕ → ℕ → ℕ → Bool → Memory → Memory
set_interrupt id code_seg_selector p_handler gate_type priv_level enabled m =
    let e = gate_address id in
    let on = nonzero p_handler && enabled in
    let m1 = write_half m e (p_handler % 2 ^ 16) in
    let m2 = write_half m1 (e + 6) (p_handler / 2 ^ 16 % 2 ^ 16) in
    let m3 = write m2 (e + 5) (gate_attr gate_type priv_level on (m2 (e + 5))) in
    if leb 256 id || leb 4 priv_level
    then m
    else write_half m3 (e + 2) (code_seg_selector * 8 % 2 ^ 16)

-- The assignments of a round of the loop of `initial_idt`.
unfoldable pub clear_gate : ℕ → Memory → Memory
clear_gate e m =
    write (write (write_half (write_half (write_half m e 0) (e + 6) 0) (e + 2) 0) (e + 4) 0) (e + 5)
      0

-- The loop, with the rounds left.
unfoldable pub clear_gates : ℕ → ℕ → Memory → Memory
clear_gates zero i m = m
clear_gates (suc n) i m = clear_gates n (i + 1) (clear_gate (gate_address i) m)

-- The stubs of the handlers.
pub record Stubs : Type 0 where
  pub int20h : ℕ
  pub int21h : ℕ
  pub int24h : ℕ
  pub int27h : ℕ
  pub int2ch : ℕ
  pub int80h : ℕ

-- The calls of `set_interrupt`: the interrupt, the handler, the type and the privilege level.
unfoldable pub handlers : Stubs → List (ℕ × ℕ × ℕ × ℕ)
handlers stubs =
    (0x20, stubs.int20h, idt_interrupt_gate, 0)
    ∷ (0x21, stubs.int21h, idt_interrupt_gate, 0)
    ∷ (0x24, stubs.int24h, idt_interrupt_gate, 0)
    ∷ (0x27, stubs.int27h, idt_interrupt_gate, 0)
    ∷ (0x2c, stubs.int2ch, idt_interrupt_gate, 0)
    ∷ (0x80, stubs.int80h, idt_trap_gate, 3)
    ∷ []

abbrev pub install_all : List (ℕ × ℕ × ℕ × ℕ) → Memory → Memory
install_all [] m = m
install_all ((id, handler, gate_type, priv_level) ∷ more) m =
    install_all more (set_interrupt id 1 handler gate_type priv_level true m)

-- The memory, and the limit and the address that `load_idt` is called with.
unfoldable pub initial_idt : Stubs → Memory → Memory × ℕ × ℕ
initial_idt stubs m = (
  install_all (handlers stubs) (clear_gates n_idt_entries 0 m),
  n_idt_entries * 8,
  idt_table_start_addr,
)

-- `v | 1`
unfoldable pub or_present : ℕ → ℕ
or_present v = v / 2 * 2 + 1

-- A loop that fills a table at `p` from its entry `i` on, with the rounds left.
unfoldable pub fill_entries : ℕ → ℕ → ℕ → Memory → Memory
fill_entries zero p addr m = m
fill_entries (suc n) p addr m =
    fill_entries n (p + 4) ((addr + page_size) % 2 ^ 32) (write_word m p (or_present addr))

abbrev pub pt_start_addr : ℕ
pt_start_addr = gpt_table_start_addr + 4096

abbrev pub pde_phy_start_addr : ℕ
pde_phy_start_addr = kern_base_phy_addr + gpt_table_start_addr

-- `pt_phy_start_addr`
abbrev pub pt_phy_start_addr : ℕ
pt_phy_start_addr = pde_phy_start_addr + page_size

-- The memory, and the address that `_load_page_table` is called with.
unfoldable pub initial_global_page_table : Memory → Memory × ℕ
initial_global_page_table m =
    let m1 = fill_entries 0x40 gpt_table_start_addr pt_phy_start_addr m in
    let m2 = fill_entries (0x40 * 1024) pt_start_addr 0 m1 in
    let m3 = fill_entries 32 (gpt_table_start_addr + 512 * 4) (pt_phy_start_addr + 512 * 4) m2 in
    let m4 = fill_entries (32 * 1024) (pt_start_addr + 512 * 1024 * 4) 0x08000000 m3 in
    (m4, pde_phy_start_addr)

-- The bytes that `initial_pic` sends, with their ports.
unfoldable pub initial_pic : List (ℕ × ℕ)
initial_pic =
    (0x21, 0xff)
    ∷ (0xa1, 0xff)
    ∷ (0x20, 0x11)
    ∷ (0x21, 0x20)
    ∷ (0x21, 4)
    ∷ (0x21, 0x01)
    ∷ (0xa0, 0x11)
    ∷ (0xa1, 0x28)
    ∷ (0xa1, 0x02)
    ∷ (0xa1, 0x01)
    ∷ (0x21, 0xfb)
    ∷ (0xa1, 0xff)
    ∷ []

-- The bytes that `initial_pit` sends.
unfoldable pub pit_ports : List (ℕ × ℕ)
pit_ports = (0x43, 0x34) ∷ (0x40, 0x9c) ∷ (0x40, 0x2e) ∷ []

-- The timers that `initial_pit` leaves: the loop clears the flags of the first one, each time.
unfoldable pub initial_pit : TimerControl → TimerControl
initial_pit c = record c { tick = 0; flags = update c.flags 1 0 }

module _ (D : Device) where
  unfoldable pub wait_keyboard_send_ready : ℕ → D.State → Run D.State
  wait_keyboard_send_ready fuel d = poll_while D (λ v. v / 2 % 2 == 1) fuel 0x64 d

  -- Two bytes for the keyboard controller, each when it is ready.
  unfoldable pub send_keyboard : ℕ → ℕ → ℕ → D.State → Run D.State
  send_keyboard fuel command v d = wait_keyboard_send_ready fuel d >>= (λ d1.
      wait_keyboard_send_ready fuel (D.out8 0x64 command d1) >>= (λ d2. done (D.out8 0x60 v d2)))

  unfoldable pub initial_keyboard : ℕ → D.State → Run D.State
  initial_keyboard fuel d =
      send_keyboard fuel 0x60 0x47 (out_all D ((0x21, 0xf9) ∷ (0xa1, 0xef) ∷ []) d)

  unfoldable pub initial_mouse : ℕ → D.State → Run D.State
  initial_mouse fuel d = send_keyboard fuel 0xd4 0xf4 d

  -- The part of `kernel_main` that programs the interrupt controllers and what stands behind them.
  unfoldable pub start_devices : ℕ → D.State → Run D.State
  start_devices fuel d = initial_keyboard fuel (out_all D initial_pic d) >>= (λ d1.
      let d2 = out_all D ((0x21, 0xf8) ∷ []) (out_all D pit_ports d1) in
      let d2 = (initial_serial D com1_port d2).1 in
      initial_mouse fuel d2 >>= (λ d3. done (out_all D ((0xa1, 0xef) ∷ []) d3)))
