-- ===== src/Console/OnScreen.antt =====
-- The cursor stays on the screen, and output stays in the text buffer.
use ntm_os.Prelude.{
  ℕ, zero, suc, ◌+◌, ◌*◌, ◌/◌, ◌%◌, ◌≤◌, ◌<◌, ◌≡◌, ◌⊎◌, inl, inr, refl, ap₂, arith, some, ◌∷◌, leb,
  ◌==◌, Bool, true, false, Bool-cases,
}
use ntm_os.Prelude.Memory.{write, in_range}
use ntm_os.KString.Text.{CString}
use ntm_os.KString.Text.Contents.{CString-tail, first_byte, last_byte}
use ntm_os.Console.{
  Tui, text_vbuf, row_bytes, tui_lines, tui_columns, scroll_if_below, wrap_line, put_cell,
  print_char, print_loop, end_line, k_printf, tui_putchar, tui_move_cursor, tui_update_cursor,
  cursor_offset, tui_get_cursor_position,
}
use ntm_os.Console.Scroll.{scroll_up_tui_console_lem}

pub record OnScreen (t : Tui) : Type 0 where
  pub column : t.cursor_x < tui_columns
  pub line : t.cursor_y < tui_lines

abbrev pub in_text : ℕ → Bool
in_text a = in_range text_vbuf (tui_lines * row_bytes) a

-- Only the text buffer changes.
abbrev pub Outside : Tui → Tui → Type 0
Outside t t' = (a : ℕ) → in_text a ≡ false → t'.memory a ≡ t.memory a

abbrev pub Output : Tui → Tui → Type 0
Output t t' = OnScreen t' × Outside t t'

scroll_if_below-Output :
    (t : Tui) → t.cursor_x < tui_columns → t.cursor_y ≤ tui_lines → Output t (scroll_if_below t)
unfolding scroll_if_below
scroll_if_below-Output t column line = elim (Bool-cases (leb tui_lines t.cursor_y)) [
  | inl below ↦ rw below (
    record {
      column = ground (arith, scroll_up_tui_console_lem 1 t 0 (omega arith) (omega arith));
      line = ground (arith, scroll_up_tui_console_lem 1 t 0 (omega arith) (omega arith));
    },
    λ a out. ground (arith, scroll_up_tui_console_lem 1 t a (omega arith) (omega arith)),
  )
  | inr above ↦ rw above (record { column = column; line = ground arith }, λ a out. refl)
]

wrap_line-bounds :
    (t : Tui)
    → (t.cursor_x ≤ tui_columns) × (t.cursor_y < tui_lines)
      ⊎ (t.cursor_x < tui_columns) × (t.cursor_y ≤ tui_lines)
    → ((wrap_line t).cursor_x < tui_columns)
      × ((wrap_line t).cursor_y ≤ tui_lines)
      × ((wrap_line t).memory ≡ t.memory)
unfolding wrap_line
wrap_line-bounds t cursor = (ground arith, ground arith, ground arith)

advance-Output :
    (t t' : Tui)
    → Outside t t'
    → (t'.cursor_x ≤ tui_columns) × (t'.cursor_y < tui_lines)
      ⊎ (t'.cursor_x < tui_columns) × (t'.cursor_y ≤ tui_lines)
    → Output t (scroll_if_below (wrap_line t'))
advance-Output t t' outside cursor =
    let (x, y, same) = wrap_line-bounds t' cursor in
    let (on, kept) = scroll_if_below-Output (wrap_line t') x y in
    (on, λ a out. ground (arith, kept a out, outside a out))

put_cell_lem :
    (ch : ℕ) (t : Tui)
    → OnScreen t
    → Outside t (put_cell ch t)
      × ((put_cell ch t).cursor_x ≡ t.cursor_x)
      × ((put_cell ch t).cursor_y ≡ t.cursor_y)
unfolding put_cell write
put_cell_lem ch t on = (λ a out. ground (arith, on.column, on.line), refl, refl)

pub print_char-Output : (ch : ℕ) (t : Tui) → OnScreen t → Output t (print_char ch t)
unfolding print_char
print_char-Output ch t on = elim (Bool-cases (ch == 0x0a)) [
  | inl feed ↦ rw feed (record { column = omega arith; line = on.line }, λ a out. refl)
  | inr no_feed ↦ elim (Bool-cases (ch == 0x0d)) [
    | inl return ↦
        rw (no_feed, return)
          (scroll_if_below-Output (record t { cursor_y = t.cursor_y + 1 }) on.column
            (omega (arith, on.line)))
    | inr no_return ↦
        let (outside, x, y) = put_cell_lem ch t on in
        rw (no_feed, no_return)
          (advance-Output t (record (put_cell ch t) { cursor_x = t.cursor_x + 1 }) outside
            (inl (omega (arith, on.column), ground (arith, on.line))))
  ]
]

-- `tui_putchar` keeps the cursor on the screen and writes only into the text buffer.
pub tui_putchar-OnScreen : (ch : ℕ) (t : Tui) → OnScreen t → Output t (tui_putchar ch t)
unfolding tui_putchar
tui_putchar-OnScreen ch t on = elim (Bool-cases (ch == 0x0a)) [
  | inl feed ↦
      rw feed
        (advance-Output t (record t { cursor_x = 0 }) (λ a out. refl) (inl (omega arith, on.line)))
  | inr no_feed ↦ elim (Bool-cases (ch == 0x0d)) [
    | inl return ↦
        rw (no_feed, return)
          (advance-Output t (record t { cursor_y = t.cursor_y + 1 }) (λ a out. refl)
            (inr (on.column, omega (arith, on.line))))
    | inr no_return ↦
        let (outside, x, y) = put_cell_lem ch t on in
        rw (no_feed, no_return)
          (advance-Output t (record (put_cell ch t) { cursor_x = t.cursor_x + 1 }) outside
            (inl (omega (arith, on.column), ground (arith, on.line))))
  ]
]

-- A string that does not lie in the text buffer.
abbrev pub Apart : ℕ → ℕ → Type 0
Apart str n = (str + n < text_vbuf) ⊎ (text_vbuf + tui_lines * row_bytes ≤ str)

CString-kept :
    (t t' : Tui) (str n : ℕ)
    → Outside t t'
    → Apart str n
    → CString t.memory str n
    → CString t'.memory str n
CString-kept t t' str n outside apart text = record {
  bytes = λ i below e. text.bytes i below (ground (arith, outside (str + i)));
  end = ground (arith, outside (str + n), text.end);
}

print_loop-Output :
    (fuel str n : ℕ) (t : Tui)
    → OnScreen t
    → CString t.memory str n
    → Apart str n
    → n < fuel
    → (t' : Tui) × (print_loop fuel str t ≡ some t') × Output t t'
unfolding print_loop
print_loop-Output zero str n t on text apart enough = absurd (omega arith)
print_loop-Output (suc fuel) str zero t on text apart enough =
    let stop : (t.memory str == 0) ≡ true = ground (arith, last_byte t.memory str text) in
    (t, rw stop refl, (on, λ a out. refl))
print_loop-Output (suc fuel) str (suc n) t on text apart enough =
    let go : (t.memory str == 0) ≡ false = ground (arith, first_byte t.memory str n text) in
    let (on1, kept1) = print_char-Output (t.memory str) t on in
    let (t', result, (on2, kept2)) =
      print_loop-Output fuel (str + 1) n (print_char (t.memory str) t) on1
        (CString-kept t (print_char (t.memory str) t) (str + 1) n kept1 (ground arith)
          (CString-tail t.memory str n text))
        (ground arith) (omega arith) in
    (t', rw go result, (on2, λ a out. ground (arith, kept2 a out, kept1 a out)))

-- `k_printf` of a string that does not lie in the text buffer ends, keeps the cursor on the screen
-- and writes only into the text buffer.
pub k_printf-OnScreen :
    (fuel str n : ℕ) (t : Tui)
    → OnScreen t
    → CString t.memory str n
    → Apart str n
    → n < fuel
    → (t' : Tui) × (k_printf fuel str t ≡ some t') × Output t t'
unfolding k_printf end_line tui_update_cursor
k_printf-OnScreen fuel str n t on text apart enough =
    let (t1, result, (on1, kept1)) = print_loop-Output fuel str n t on text apart enough in
    let (on2, kept2) =
      scroll_if_below-Output (record t1 { cursor_x = 0; cursor_y = t1.cursor_y + 1 }) (omega arith)
        (omega (arith, on1.line)) in
    (
      end_line t1,
      rw result refl,
      (
        record { column = on2.column; line = on2.line },
        λ a out. ground (arith, kept2 a out, kept1 a out),
      ),
    )

-- The position that `tui_get_cursor_position` makes of the bytes that `tui_update_cursor` sends is
-- the one that was given, moved to the edge where it lies outside of the screen, which is where
-- `tui_move_cursor` puts the cursor.
pub tui_get_cursor_position-tui_update_cursor :
    (x y : ℕ) (t : Tui)
    → (low : ℕ) × (high : ℕ) × ((tui_update_cursor x y t).ports
        ≡ (0x3d5, high) ∷ (0x3d4, 0x0e) ∷ (0x3d5, low) ∷ (0x3d4, 0x0f) ∷ t.ports)
      × (tui_get_cursor_position low high
          ≡ ((tui_move_cursor x y t).cursor_x, (tui_move_cursor x y t).cursor_y))
      × OnScreen (tui_move_cursor x y t)
unfolding tui_update_cursor tui_get_cursor_position cursor_offset tui_move_cursor
tui_get_cursor_position-tui_update_cursor x y t = (
  cursor_offset x y % 256,
  cursor_offset x y / 256 % 256,
  refl,
  ap₂ (λ a b. (a, b)) (ground arith) (ground arith),
  record { column = ground arith; line = ground arith },
)
