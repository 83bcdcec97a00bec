-- ===== src/Layers.antt =====
-- The window layers of gui.c. A pointer to `g_screen_info.layers[i]` is `i + 1`, and null is 0. A
-- cell of `layer_stack` holds such a pointer, or a number that the code stored in place of one:
-- behind that there is no layer, and using it has no meaning. `top` is `z_top + 1`, the number of
-- layers that are shown, and `level` of a layer is `z + 1`. The sizes and positions are 32-bit
-- words.
pub mod Stack
pub mod Refresh
pub mod Reorder
pub mod Moves
pub mod Moved
pub mod Depth
pub mod Blit
pub mod Pixels
mod Tests
use ntm_os.Prelude.{
  ℕ, zero, suc, ◌+◌, ◌-◌, ◌*◌, ◌/◌, ◌%◌, ◌^◌, Bool, true, false, ◌||◌, ◌&&◌, Option, none, some,
  ltb, leb, ◌==◌, if◌then◌else◌, min, List, [], ◌∷◌,
}
use ntm_os.Prelude.Int.{ℤ, pos, negsuc}
use ntm_os.Prelude.Memory.{Memory, write, update}
use ntm_os.Prelude.Run.{Run, done, undefined, ◌>>=◌}
use ntm_os.Prelude.Search.{find_first}
use ntm_os.Prelude.Word.{int_leb, int_ltb, int_sub, rounds_below}
use ntm_os.Drawing.{Layer, pixel, boxfill8, drawstring}

abbrev pub layer_stack_size : ℕ
layer_stack_size = 256

pub data Cell : Type 0 where
  layer : ℕ → Cell
  raw : ℕ → Cell

-- `screen_info_t`, the position of the mouse, and the memory of the pixels.
pub record Screen : Type 0 where
  pub width : ℕ
  pub height : ℕ
  pub pvram : ℕ
  pub top : ℕ
  pub stack : ℕ → Cell
  pub layers : ℕ → Layer
  pub mouse_x : ℕ
  pub mouse_y : ℕ
  pub memory : Memory

-- The loop clears the flags of the first layer, as often as there are layers.
unfoldable pub initial_layers : Screen → Screen
initial_layers s = record s {
  top = 0;
  layers = update s.layers 1 (record (s.layers 1) { flags = 0 });
}

unfoldable pub alloc_layer : Screen → ℕ × Screen
alloc_layer s =
    let p = find_first (λ q. (s.layers q).flags == 0) layer_stack_size 1 in
    if p == 0
    then (0, s)
    else (p, record s { layers = update s.layers p (record (s.layers p) { flags = 1; level = 0 }) })

-- The loop over a row of a layer, with the rounds left. `c != layer->col_inv` compares ints.
unfoldable pub blit_row : ℕ → Layer → ℕ → ℕ → ℕ → ℕ → Memory → Memory
blit_row zero l pvram width bx by m = m
blit_row (suc n) l pvram width bx by m =
    let c = m (pixel l.vbuf l.width bx by) in
    blit_row n l pvram width (bx + 1) by
      (if c == l.col_inv then m else write m (pixel pvram width (l.x + bx) (l.y + by)) c)

unfoldable pub blit_rows : ℕ → Layer → ℕ → ℕ → ℕ → Memory → Memory
blit_rows zero l pvram width by m = m
blit_rows (suc n) l pvram width by m =
    blit_rows n l pvram width (by + 1) (blit_row (rounds_below 0 l.width) l pvram width 0 by m)

-- The loop over the stack, with the rounds left.
unfoldable pub refresh_loop : ℕ → ℕ → Screen → Run Screen
refresh_loop zero z s = done s
refresh_loop (suc n) z s = elim (s.stack z) [
  | layer p ↦
      let l = s.layers p in
      refresh_loop n (z + 1)
        (record s { memory = blit_rows (rounds_below 0 l.height) l s.pvram s.width 0 s.memory })
  | raw v ↦ undefined
]

unfoldable pub refresh_screen : Screen → Run Screen
refresh_screen s = refresh_loop s.top 0 s

-- `g_screen_info.layer_stack[z] = cell`
unfoldable pub put : ℕ → Cell → Screen → Screen
put z cell s = record s { stack = update s.stack z cell }

-- `p->z = level - 1`
unfoldable pub with_level : ℕ → ℕ → Screen → Screen
with_level p level s = record s {
  layers = update s.layers p (record (s.layers p) { level = level });
}

-- `layer_stack[z] = cell; layer_stack[z]->z = z;`
unfoldable pub place : ℕ → Cell → Screen → Run Screen
place z (layer p) s = done (with_level p (z + 1) (put z (layer p) s))
place z (raw v) s = undefined

-- `for (; z > nz; z--)`, with the rounds left.
unfoldable pub shift_up : ℕ → ℕ → Screen → Run Screen
shift_up zero z s = done s
shift_up (suc n) z s = place z (s.stack (z - 1)) s >>= λ s'. shift_up n (z - 1) s'

-- `for (; z < nz; z++)`, with the rounds left.
unfoldable pub shift_down : ℕ → ℕ → Screen → Run Screen
shift_down zero z s = done s
shift_down (suc n) z s = place z (s.stack (z + 1)) s >>= λ s'. shift_down n (z + 1) s'

-- `for (; z >= nz; z--)`, with the rounds left: the second assignment overwrites the first.
unfoldable pub open_gap : ℕ → ℕ → Screen → Screen
open_gap zero z s = s
open_gap (suc n) z s = open_gap n (z - 1) (put (z + 1) (raw (z + 1)) (put (z + 1) (s.stack z) s))

-- The new level: `nz + 1` between 0 and `z_top + 2`.
unfoldable pub new_level : ℤ → ℕ → ℕ
new_level (pos n) top = min (n + 1) (top + 1)
new_level (negsuc n) top = 0

-- The layer at `p` moves down, to level `new`, or away.
unfoldable pub lower : ℕ → ℕ → ℕ → Screen → Run Screen
lower p old new s =
    if new == 0
    then shift_down (s.top - old) (old - 1) s >>= (λ s'. done (record s' { top = s'.top - 1 }))
    else shift_up (old - new) (old - 1) s >>= (λ s'. done (put (new - 1) (layer p) s'))

-- The layer at `p` moves up, or appears.
unfoldable pub raise : ℕ → ℕ → ℕ → Screen → Run Screen
raise p old new s =
    let s' = put (new - 1) (layer p) (open_gap (s.top + 1 - new) (s.top - 1) s) in
    if old == 0
    then done (record s' { top = s'.top + 1 })
    else shift_down (new - old) (old - 1) s >>= (λ s'. done (put (new - 1) (layer p) s'))

-- The layer at `p` goes from level `old` to level `new`. `p->z` is set already.
unfoldable pub move_level : ℕ → ℕ → ℕ → Screen → Run Screen
move_level p old new s =
    if ltb new old then lower p old new s else if ltb old new then raise p old new s else done s

unfoldable pub mov_layer_z : ℕ → ℤ → Screen → Run Screen
mov_layer_z p nz s =
    let new = new_level nz s.top in
    let moved = move_level p (s.layers p).level new (with_level p new s) >>= refresh_screen in
    if p == 0 then done s else moved

unfoldable pub mov_layer : ℕ → ℕ → ℕ → Screen → Run Screen
mov_layer p vx0 vy0 s =
    let s' = record s { layers = update s.layers p (record (s.layers p) { x = vx0; y = vy0 }) } in
    if p == 0 then done s else if (s'.layers p).level == 0 then done s' else refresh_screen s'

unfoldable pub clear_flags : ℕ → Screen → Screen
clear_flags p s = record s { layers = update s.layers p (record (s.layers p) { flags = 0 }) }

unfoldable pub free_layer : ℕ → Screen → Run Screen
free_layer p s =
    if p == 0
    then done s
    else if (s.layers p).level == 0
    then done (clear_flags p s)
    else mov_layer_z p (negsuc 0) s >>= λ s'. done (clear_flags p s')

unfoldable pub set_layer_vbuf : ℕ → ℕ → ℕ → ℕ → ℕ → Screen → Screen
set_layer_vbuf p vbuf width height col_inv s = record s {
  layers =
      update s.layers p
        (record (s.layers p) { vbuf = vbuf; width = width; height = height; col_inv = col_inv });
}

-- The boxes of `render_ui`: the colour, the first corner and the second one. `w` and `h` are the
-- width and the height of the layer.
unfoldable pub ui_boxes : ℕ → ℕ → List (ℕ × ℕ × ℕ × ℕ × ℕ)
ui_boxes w h =
    (14, 0, 0, int_sub w 1, int_sub h 29)
    ∷ (8, 0, int_sub h 28, int_sub w 1, int_sub h 28)
    ∷ (7, 0, int_sub h 27, int_sub w 1, int_sub h 27)
    ∷ (8, 0, int_sub h 26, int_sub w 1, int_sub h 1)
    ∷ (7, 3, int_sub h 24, 59, int_sub h 24)
    ∷ (7, 2, int_sub h 24, 2, int_sub h 4)
    ∷ (15, 3, int_sub h 4, 59, int_sub h 4)
    ∷ (15, 59, int_sub h 23, 59, int_sub h 5)
    ∷ (0, 2, int_sub h 3, 59, int_sub h 3)
    ∷ (0, 60, int_sub h 24, 60, int_sub h 3)
    ∷ (15, int_sub w 47, int_sub h 24, int_sub w 4, int_sub h 24)
    ∷ (15, int_sub w 47, int_sub h 23, int_sub w 47, int_sub h 4)
    ∷ (7, int_sub w 47, int_sub h 3, int_sub w 4, int_sub h 3)
    ∷ (7, int_sub w 3, int_sub h 24, int_sub w 3, int_sub h 3)
    ∷ []

abbrev pub fill_boxes : ℕ → ℕ → List (ℕ × ℕ × ℕ × ℕ × ℕ) → Memory → Memory
fill_boxes vram xsize [] m = m
fill_boxes vram xsize ((c, x0, y0, x1, y1) ∷ boxes) m =
    fill_boxes vram xsize boxes (boxfill8 vram xsize c x0 y0 x1 y1 m)

-- `text` is the address of the string that is shown.
unfoldable pub render_ui : (ℕ → ℕ) → ℕ → ℕ → ℕ → Screen → Run Screen
render_ui font fuel text bg_window s =
    let l = s.layers bg_window in
    let filled = fill_boxes l.vbuf l.width (ui_boxes l.width l.height) s.memory in
    let drawn =
      drawstring font fuel (some l) 0 0 text filled
      >>= (λ m. refresh_screen (record s { memory = m })) in
    if (bg_window == 0) || (l.vbuf == 0) then done s else drawn

-- A coordinate of the mouse, kept between 0 and `limit`.
unfoldable pub clamp : ℕ → ℕ → ℕ
clamp v limit = let v' = if int_ltb v 0 then 0 else v in if int_ltb limit v' then limit else v'

unfoldable pub move_mouse : ℕ → ℕ → Screen → Run Screen
move_mouse dx dy s = refresh_screen s >>= (λ s'.
    let x = clamp ((s'.mouse_x + dx) % 2 ^ 32) s'.width in
    let y = clamp ((s'.mouse_y + dy) % 2 ^ 32) s'.height in
    done (record s' {
      mouse_x = x;
      mouse_y = y;
      memory = boxfill8 s'.pvram s'.width 4 x y ((x + 4) % 2 ^ 32) ((y + 4) % 2 ^ 32) s'.memory;
    }))
