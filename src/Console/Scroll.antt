-- ===== src/Console/Scroll.antt =====
-- What scrolling does to the text buffer.
use ntm_os.Prelude.{ℕ, zero, suc, ◌+◌, ◌-◌, ◌*◌, ◌≤◌, ◌<◌, ◌≡◌, inl, arith, if◌then◌else◌}
use ntm_os.Prelude.Int.{pos}
use ntm_os.Prelude.Memory.{Memory, in_range}
use ntm_os.KString.{k_memcpy, k_memset}
use ntm_os.KString.Copy.{k_memcpy-Copied, k_memset_lem}
use ntm_os.Console.{
  Tui, text_vbuf, row_bytes, tui_lines, shift_rows, clear_rows, scroll_rows, scroll_up_tui_console,
  tui_update_cursor,
}

shift_rows_lem :
    (n dest source : ℕ) (m : Memory) (a : ℕ)
    → dest ≤ source
    → shift_rows n dest source m a
      ≡ (if in_range dest (n * 160) a then m (source + (a - dest)) else m a)
unfolding shift_rows
shift_rows_lem zero dest source m a apart = ground arith
shift_rows_lem (suc n) dest source m a apart =
    let m' : Memory = (k_memcpy dest source 160 m).1 in
    ground (
      arith,
      shift_rows_lem n (dest + 160) (source + 160) m' a,
      (k_memcpy-Copied dest source 160 m (inl apart)).1 a,
      (k_memcpy-Copied dest source 160 m (inl apart)).1 (source + 160 + (a - (dest + 160))),
    )

clear_rows_lem :
    (n i : ℕ) (m : Memory) (a : ℕ)
    → clear_rows n i m a ≡ (if in_range (text_vbuf + i * 160) (n * 160) a then 0 else m a)
unfolding clear_rows
clear_rows_lem zero i m a = ground arith
clear_rows_lem (suc n) i m a =
    let m' : Memory = (k_memset (text_vbuf + i * 160) 0 160 m).1 in
    ground (arith, clear_rows_lem n (i + 1) m' a, k_memset_lem (text_vbuf + i * 160) 0 160 m a)

-- Scrolling by `n` lines, at least one, and at most a screen, moves the text up by these lines,
-- clears the lines below it, sets the cursor to the first of them, and changes no other memory.
pub scroll_up_tui_console_lem :
    (n : ℕ) (t : Tui) (a : ℕ)
    → 0 < n
    → n ≤ tui_lines
    → let t' = scroll_up_tui_console (pos n) t in
      (t'.cursor_x ≡ t.cursor_x)
      × (t'.cursor_y ≡ tui_lines - n)
      × (t'.memory a ≡ (
          if in_range text_vbuf ((tui_lines - n) * row_bytes) a
          then t.memory (a + n * row_bytes)
          else if in_range text_vbuf (tui_lines * row_bytes) a
          then 0
          else t.memory a))
unfolding scroll_up_tui_console scroll_rows tui_update_cursor
scroll_up_tui_console_lem n t a some_lines few = (
  ground arith,
  ground arith,
  ground (
    arith,
    clear_rows_lem n (tui_lines - n)
        (shift_rows (tui_lines - n) text_vbuf (text_vbuf + n * row_bytes) t.memory) a,
    shift_rows_lem (tui_lines - n) text_vbuf (text_vbuf + n * row_bytes) t.memory a (omega arith),
  ),
)
