-- ===== src/Console/Tests.antt =====
-- The console at concrete screens.
use ntm_os.Prelude.{◌+◌, ◌-◌, ◌*◌, ◌≡◌, refl, arith, inl, some, ℕ, [], ◌∷◌, ◌==◌, if◌then◌else◌}
use ntm_os.Prelude.Int.{pos}
use ntm_os.Prelude.Memory.{in_range}
use ntm_os.KString.Text.{CString}
use ntm_os.Console.{
  Tui, text_vbuf, row_bytes, tui_lines, scroll_up_tui_console, k_printf, tui_move_cursor,
  tui_update_cursor, tui_get_cursor_position,
}
use ntm_os.Console.Scroll.{scroll_up_tui_console_lem}
use ntm_os.Console.OnScreen.{
  OnScreen, Output, k_printf-OnScreen, tui_get_cursor_position-tui_update_cursor,
}

-- The cursor at the end of the last line, and the text "hi" at 100.
abbrev last_cell : Tui
last_cell = record {
  cursor_x = 79;
  cursor_y = 24;
  memory = λ a. if a == 100 then 104 else if a == 101 then 105 else 0;
  ports = [];
}

last_cell-OnScreen : OnScreen last_cell
last_cell-OnScreen = record { column = omega arith; line = omega arith }

hi : CString last_cell.memory 100 2
hi = record { bytes = λ i below. ground arith; end = refl }

k_printf-OnScreen_example : (t' : Tui) × (k_printf 5 100 last_cell ≡ some t') × Output last_cell t'
k_printf-OnScreen_example =
    k_printf-OnScreen 5 100 2 last_cell last_cell-OnScreen hi (inl (omega arith)) (omega arith)

scroll_up_tui_console_lem_example :
    let t' = scroll_up_tui_console (pos 2) last_cell in
    (t'.cursor_x ≡ 79)
    × (t'.cursor_y ≡ 23)
    × (t'.memory 100 ≡ (
        if in_range text_vbuf ((tui_lines - 2) * row_bytes) 100
        then last_cell.memory (100 + 2 * row_bytes)
        else if in_range text_vbuf (tui_lines * row_bytes) 100
        then 0
        else last_cell.memory 100))
scroll_up_tui_console_lem_example =
    scroll_up_tui_console_lem 2 last_cell 100 (omega arith) (omega arith)

tui_get_cursor_position-tui_update_cursor_example :
    (low : ℕ) × (high : ℕ) × ((tui_update_cursor 90 7 last_cell).ports
      ≡ (0x3d5, high) ∷ (0x3d4, 0x0e) ∷ (0x3d5, low) ∷ (0x3d4, 0x0f) ∷ [])
    × (tui_get_cursor_position low high ≡ (79, 7))
    × OnScreen (tui_move_cursor 90 7 last_cell)
unfolding tui_move_cursor
tui_get_cursor_position-tui_update_cursor_example =
    tui_get_cursor_position-tui_update_cursor 90 7 last_cell
