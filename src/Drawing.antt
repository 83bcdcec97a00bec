-- ===== src/Drawing.antt =====
-- The pixel drawing of gui.c, into the memory that a layer or the screen has for its pixels. An
-- `int` is a 32-bit word, and an address is taken modulo 2^32. The glyphs of font8x8_basic.h are a
-- parameter: `font ch` is the address of the 8 bytes of a character below 128.
pub mod Boxes
pub mod Glyphs
use ntm_os.Prelude.{
  ℕ, zero, suc, ◌+◌, ◌-◌, ◌*◌, ◌/◌, ◌%◌, ◌^◌, Bool, true, false, ◌||◌, ◌&&◌, Option, none, some,
  ltb, leb, ◌==◌, if◌then◌else◌,
}
use ntm_os.Prelude.Memory.{Memory, write}
use ntm_os.Prelude.Run.{Run, done, undefined, out_of_fuel}
use ntm_os.Prelude.Word.{int_leb, int_ltb, int_sub, rounds_to}

-- `layer_t`. `level` is `z + 1`: 0 for a layer that is not shown.
pub record Layer : Type 0 where
  pub vbuf : ℕ
  pub x : ℕ
  pub y : ℕ
  pub width : ℕ
  pub height : ℕ
  pub level : ℕ
  pub col_inv : ℕ
  pub flags : ℕ

-- `&base[y * xsize + x]`
unfoldable pub pixel : ℕ → ℕ → ℕ → ℕ → ℕ
pixel base xsize x y = (base + y * xsize + x) % 2 ^ 32

-- The inner loop of `boxfill8`, with the rounds left.
unfoldable pub box_row : ℕ → ℕ → ℕ → ℕ → ℕ → ℕ → Memory → Memory
box_row zero vram xsize c x y m = m
box_row (suc n) vram xsize c x y m =
    box_row n vram xsize c (x + 1) y (write m (pixel vram xsize x y) c)

-- The outer loop.
unfoldable pub box_rows : ℕ → ℕ → ℕ → ℕ → ℕ → ℕ → ℕ → Memory → Memory
box_rows zero vram xsize c x0 x1 y m = m
box_rows (suc n) vram xsize c x0 x1 y m =
    box_rows n vram xsize c x0 x1 (y + 1) (box_row (rounds_to x0 x1) vram xsize c x0 y m)

unfoldable pub boxfill8 : ℕ → ℕ → ℕ → ℕ → ℕ → ℕ → ℕ → Memory → Memory
boxfill8 vram xsize c x0 y0 x1 y1 m = box_rows (rounds_to y0 y1) vram xsize c x0 x1 y0 m

unfoldable pub boxfill8_ds : ℕ → ℕ → ℕ → ℕ → ℕ → ℕ → ℕ → Memory → Memory
boxfill8_ds pvram xsize c x0 y0 x1 y1 m =
    if pvram == 0 then m else box_rows (rounds_to y0 y1) pvram xsize c x0 x1 y0 m

-- `(d & (1 << k)) != 0`
unfoldable pub has_bit : ℕ → ℕ → Bool
has_bit d k = d / 2 ^ k % 2 == 1

-- The pixels of a row of a glyph, from `p[n - 1]` down to `p[0]`.
unfoldable pub glyph_row : ℕ → ℕ → ℕ → ℕ → Memory → Memory
glyph_row zero p c d m = m
glyph_row (suc n) p c d m =
    glyph_row n p c d (write m ((p + n) % 2 ^ 32) (if has_bit d n then c else 0))

-- The rows of a glyph at `font`, with the rows left; `i` is the row.
unfoldable pub glyph_rows : ℕ → ℕ → ℕ → ℕ → ℕ → ℕ → ℕ → ℕ → Memory → Memory
glyph_rows zero i base xsize x y c font m = m
glyph_rows (suc n) i base xsize x y c font m =
    glyph_rows n (i + 1) base xsize x y c font
      (glyph_row 8 (pixel base xsize x (y + i)) c (m (font + i)) m)

-- A null pointer to a layer is `none`.
unfoldable pub drawfont8 : Option Layer → ℕ → ℕ → ℕ → ℕ → Memory → Memory
drawfont8 none x y c font m = m
drawfont8 (some l) x y c font m =
    if l.vbuf == 0 then m else glyph_rows 8 0 l.vbuf l.width x y c font m

-- A pixel of the row of `drawchar`: the first bit that is set, and no other. `k` is the column,
-- with the columns left.
unfoldable pub first_bit : ℕ → ℕ → ℕ → ℕ → ℕ → Memory → Memory
first_bit zero k p c d m = m
first_bit (suc n) k p c d m =
    let rest = first_bit n (k + 1) p c d m in
    if has_bit d (7 - k) then write m ((p + k) % 2 ^ 32) (c % 256) else rest

unfoldable pub char_rows : ℕ → ℕ → Layer → ℕ → ℕ → ℕ → ℕ → Memory → Memory
char_rows zero i l x y c font m = m
char_rows (suc n) i l x y c font m =
    char_rows n (i + 1) l x y c font
      (first_bit 8 0 (pixel l.vbuf l.width x (y + i)) c (m (font + i)) m)

-- `font` is `pfont`, the address of the glyph of the character.
unfoldable pub drawchar : Option Layer → ℕ → ℕ → ℕ → ℕ → Memory → Memory
drawchar none x y font palette_id m = m
drawchar (some l) x y font palette_id m =
    if int_ltb x 0 || int_leb (int_sub l.width l.width) x
    then m
    else if int_ltb y 0 || int_leb (int_sub l.height 8) y
    then m
    else char_rows 8 0 l x y palette_id font m

module _ (font : ℕ → ℕ) where
  -- A `char` from 128 on is a negative index of the font.
  unfoldable pub string_loop : ℕ → Layer → ℕ → ℕ → ℕ → Memory → Run Memory
  string_loop zero l x y str m = out_of_fuel
  string_loop (suc fuel) l x y str m =
      let ch = m str in
      let rest =
        string_loop fuel l ((x + 8) % 2 ^ 32) y (str + 1) (drawfont8 (some l) x y 7 (font ch) m) in
      if ch == 0 then done m else if ltb ch 128 then rest else undefined

  unfoldable pub drawstring : ℕ → Option Layer → ℕ → ℕ → ℕ → Memory → Run Memory
  drawstring fuel none x y str m = done m
  drawstring fuel (some l) x y str m = string_loop fuel l x y str m

  unfoldable pub digit_loop : ℕ → Layer → ℕ → ℕ → ℕ → Memory → Run Memory
  digit_loop zero l x y n m = out_of_fuel
  digit_loop (suc fuel) l x y n m =
      let rest =
        digit_loop fuel l ((x + 8) % 2 ^ 32) y (n / 10)
          (drawfont8 (some l) x y 7 (font (48 + n % 10)) m) in
      if n == 0 then done m else rest

  unfoldable pub drawuint32 : ℕ → Option Layer → ℕ → ℕ → ℕ → Memory → Run Memory
  drawuint32 fuel none x y n m = done m
  drawuint32 fuel (some l) x y n m =
      let m' = if n == 0 then drawfont8 (some l) x y 7 (font 48) m else m in
      let drawn = digit_loop fuel l x y n m' in if l.vbuf == 0 then done m else drawn

  unfoldable pub drawpointer : ℕ → Option Layer → ℕ → ℕ → ℕ → Memory → Run Memory
  drawpointer fuel pscreen x y p m = drawuint32 fuel pscreen x y p m

  unfoldable pub drawfont8_scr : ℕ → ℕ → ℕ → ℕ → ℕ → ℕ → Memory → Memory
  drawfont8_scr pvram width x y c ch m =
      if pvram == 0 then m else glyph_rows 8 0 pvram width x y c (font ch) m

  -- The digits that are left; the digit drawn is that of `16 ^ k`.
  unfoldable pub hex_loop : ℕ → ℕ → ℕ → ℕ → ℕ → ℕ → ℕ → Memory → Memory
  hex_loop zero pvram width x y c n m = m
  hex_loop (suc k) pvram width x y c n m =
      let a = n / 16 ^ k % 16 in
      hex_loop k pvram width ((x + 8) % 2 ^ 32) y c n
        (drawfont8_scr pvram width x y c (if leb a 9 then 48 + a else a - 10 + 65) m)

  unfoldable pub draw_uint_hex_scr : ℕ → ℕ → ℕ → ℕ → ℕ → ℕ → Memory → Memory
  draw_uint_hex_scr pvram width x y c n m = hex_loop 8 pvram width x y c n m
