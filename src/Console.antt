-- ===== src/Console.antt =====
-- The text console of gui.c: the cursor, `k_printf`, `tui_putchar` and the scrolling of the text
-- buffer. `ports` holds the bytes that `_io_out8` sent, the last one first.
pub mod Scroll
pub mod OnScreen
mod Tests
use ntm_os.Prelude.{
  ℕ, zero, suc, ◌+◌, ◌-◌, ◌*◌, ◌/◌, ◌%◌, ◌^◌, Option, none, some, List, [], ◌∷◌, leb, ltb, ◌==◌,
  if◌then◌else◌,
}
use ntm_os.Prelude.Int.{ℤ, pos, pos_part, ltb_ℤ}
use ntm_os.Prelude.Memory.{Memory, write}
use ntm_os.KString.{k_memcpy, k_memset}

abbrev pub text_vbuf : ℕ
text_vbuf = 0xb8000

abbrev pub tui_columns : ℕ
tui_columns = 80

abbrev pub tui_lines : ℕ
tui_lines = 25

-- `TUI_COLUMNS * TUI_BYTES_PER_CHAR_IN_VRAM`
abbrev pub row_bytes : ℕ
row_bytes = tui_columns * 2

pub record Tui : Type 0 where
  pub cursor_x : ℕ
  pub cursor_y : ℕ
  pub memory : Memory
  pub ports : List (ℕ × ℕ)

unfoldable pub tui_move_cursor : ℕ → ℕ → Tui → Tui
tui_move_cursor x y t = record t {
  cursor_x = if leb tui_columns x then tui_columns - 1 else x;
  cursor_y = if leb tui_lines y then tui_lines - 1 else y;
}

-- The position as the video card counts it, in 16 bits.
unfoldable pub cursor_offset : ℕ → ℕ → ℕ
cursor_offset x y =
    let x' = if leb tui_columns x then tui_columns - 1 else x in
    let y' = if leb tui_lines y then tui_lines - 1 else y in (y' * tui_columns + x') % 2 ^ 16

unfoldable pub tui_update_cursor : ℕ → ℕ → Tui → Tui
tui_update_cursor x y t =
    let p = cursor_offset x y in
    record t {
      ports = (0x3d5, p / 256 % 256) ∷ (0x3d4, 0x0e) ∷ (0x3d5, p % 256) ∷ (0x3d4, 0x0f) ∷ t.ports;
    }

-- The position from the two bytes that the video card answers, the low one first.
unfoldable pub tui_get_cursor_position : ℕ → ℕ → ℕ × ℕ
tui_get_cursor_position low high =
    let p = (low % 256 + high % 256 * 256) % 2 ^ 16 in (p % tui_columns, p / tui_columns)

-- The loop that shifts the rows, with the rounds left.
unfoldable pub shift_rows : ℕ → ℕ → ℕ → Memory → Memory
shift_rows zero dest source m = m
shift_rows (suc n) dest source m =
    shift_rows n (dest + row_bytes) (source + row_bytes) (k_memcpy dest source row_bytes m).1

-- The loop that clears the last rows, with the rounds left.
unfoldable pub clear_rows : ℕ → ℕ → Memory → Memory
clear_rows zero i m = m
clear_rows (suc n) i m = clear_rows n (i + 1) (k_memset (text_vbuf + i * row_bytes) 0 row_bytes m).1

unfoldable pub scroll_rows : ℕ → Tui → Tui
scroll_rows n t =
    let shifted = shift_rows (tui_lines - n) text_vbuf (text_vbuf + n * row_bytes) t.memory in
    let cleared = record t {
      memory = clear_rows n (tui_lines - n) shifted;
      cursor_y = tui_lines - n;
    } in
    tui_update_cursor cleared.cursor_x cleared.cursor_y cleared

unfoldable pub scroll_up_tui_console : ℤ → Tui → Tui
scroll_up_tui_console nlines t =
    if ltb_ℤ (pos 0) nlines
    then scroll_rows (if leb (pos_part nlines) tui_lines then pos_part nlines else tui_lines) t
    else t

-- `if (cursor_y >= TUI_LINES) { scroll_up_tui_console(1); }`
unfoldable pub scroll_if_below : Tui → Tui
scroll_if_below t = if leb tui_lines t.cursor_y then scroll_up_tui_console (pos 1) t else t

-- The character and its colour at the cursor.
unfoldable pub put_cell : ℕ → Tui → Tui
put_cell ch t =
    let p = text_vbuf + (t.cursor_y * tui_columns + t.cursor_x) * 2 in
    record t { memory = write (write t.memory p ch) (p + 1) 0x0b }

-- `if (cursor_x >= TUI_COLUMNS) { cursor_x = 0, cursor_y++; }`
unfoldable pub wrap_line : Tui → Tui
wrap_line t =
    if leb tui_columns t.cursor_x then record t { cursor_x = 0; cursor_y = t.cursor_y + 1 } else t

-- A round of the loop of `k_printf`.
unfoldable pub print_char : ℕ → Tui → Tui
print_char ch t =
    if ch == 0x0a
    then record t { cursor_x = 0 }
    else if ch == 0x0d
    then scroll_if_below (record t { cursor_y = t.cursor_y + 1 })
    else scroll_if_below (wrap_line (record (put_cell ch t) { cursor_x = t.cursor_x + 1 }))

-- `while ((ch = *str++) != 0)`
unfoldable pub print_loop : ℕ → ℕ → Tui → Option Tui
print_loop zero str t = none
print_loop (suc fuel) str t =
    let rest = print_loop fuel (str + 1) (print_char (t.memory str) t) in
    if t.memory str == 0 then some t else rest

-- The new line at the end of `k_printf`.
unfoldable pub end_line : Tui → Tui
end_line t =
    let scrolled = scroll_if_below (record t { cursor_x = 0; cursor_y = t.cursor_y + 1 }) in
    tui_update_cursor scrolled.cursor_x scrolled.cursor_y scrolled

abbrev pub then_end : Option Tui → Option Tui
then_end none = none
then_end (some t) = some (end_line t)

unfoldable pub k_printf : ℕ → ℕ → Tui → Option Tui
k_printf fuel str t = then_end (print_loop fuel str t)

unfoldable pub tui_putchar : ℕ → Tui → Tui
tui_putchar ch t =
    let moved =
      if ch == 0x0a
      then record t { cursor_x = 0 }
      else if ch == 0x0d
      then record t { cursor_y = t.cursor_y + 1 }
      else record (put_cell ch t) { cursor_x = t.cursor_x + 1 } in
    scroll_if_below (wrap_line moved)
