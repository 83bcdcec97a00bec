-- ===== src/Startup/Machine.antt =====
-- What the start relies on of the interrupt controllers and the keyboard controller, from their data
-- sheets.
use ntm_os.Prelude.{
  ℕ, true, ◌-◌, ◌≤◌, ◌++◌, ◌||◌, ◌+◌, ◌/◌, ◌%◌, ◌≡◌, Bool, false, List, [], ◌∷◌, ◌==◌,
  if◌then◌else◌,
}
use ntm_os.Prelude.Device.{Device}

-- An 8259 controller: the vector of its first line, the mask, and the command word that its data
-- port waits for, from 2 to 4, or 0 for the mask.
pub record Pic : Type 0 where
  pub base : ℕ
  pub mask : ℕ
  pub waits_for : ℕ

abbrev pub pic_command : ℕ → Pic → Pic
pic_command v p = if v / 16 % 2 == 1 then record p { waits_for = 2 } else p

-- A cascade, with a fourth command word.
abbrev pub pic_data : ℕ → Pic → Pic
pic_data v p =
    if p.waits_for == 2
    then record p { base = v; waits_for = 3 }
    else if p.waits_for == 3
    then record p { waits_for = 4 }
    else if p.waits_for == 4
    then record p { waits_for = 0 }
    else record p { mask = v }

-- What a controller at the ports `command` and `command + 1` makes of a byte that is sent.
abbrev pub pic_out : ℕ → ℕ → ℕ → Pic → Pic
pic_out command port v p =
    if port == command then pic_command v p else if port == command + 1 then pic_data v p else p

-- The two ports of the keyboard controller.
abbrev pub is_keyboard : ℕ → Bool
is_keyboard port = (port == 0x60) || (port == 0x64)

-- What the data sheets say of the two controllers and of the keyboard controller, in so far as the
-- code relies on it: reading a port does not change the interrupt controllers. The keyboard controller
-- is not ready for a byte for the next `busy` looks at its status, which bit 1 of the status says. A
-- byte that it gets when it is ready is one that it has `heard`, and it is then not ready for at most
-- `longest` looks.
pub record Machine (D : Device) : Type 0 where
  pub pic0 : D.State → Pic
  pub pic1 : D.State → Pic
  pub heard : D.State → List (ℕ × ℕ)
  pub busy : D.State → ℕ
  pub longest : ℕ
  pub out0 : (port v : ℕ) (d : D.State) → pic0 (D.out8 port v d) ≡ pic_out 0x20 port v (pic0 d)
  pub out1 : (port v : ℕ) (d : D.State) → pic1 (D.out8 port v d) ≡ pic_out 0xa0 port v (pic1 d)
  pub in0 : (port : ℕ) (d : D.State) → pic0 (D.in8 port d).1 ≡ pic0 d
  pub in1 : (port : ℕ) (d : D.State) → pic1 (D.in8 port d).1 ≡ pic1 d
  pub look :
      (d : D.State)
      → let (v, d') = D.in8 0x64 d in
        (v / 2 % 2 ≡ (if busy d == 0 then 0 else 1)) × (heard d' ≡ heard d) × (busy d' ≡ busy d - 1)
  pub accepts :
      (port v : ℕ) (d : D.State)
      → is_keyboard port ≡ true
      → busy d ≡ 0
      → (heard (D.out8 port v d) ≡ heard d ++ ((port, v) ∷ [])) × (busy (D.out8 port v d) ≤ longest)
  pub other_out :
      (port v : ℕ) (d : D.State)
      → is_keyboard port ≡ false
      → (heard (D.out8 port v d) ≡ heard d) × (busy (D.out8 port v d) ≡ busy d)
  pub other_in :
      (port : ℕ) (d : D.State)
      → is_keyboard port ≡ false
      → (heard (D.in8 port d).1 ≡ heard d) × (busy (D.in8 port d).1 ≡ busy d)
