-- ===== src/Drawing/Glyphs.antt =====
-- Glyphs of characters.
use ntm_os.Prelude.{
  ℕ, zero, suc, ◌+◌, ◌-◌, ◌*◌, ◌%◌, ◌^◌, ◌≤◌, ◌<◌, ◌≡◌, ◌≢◌, ◌⊎◌, refl, ap, ◌∙◌, arith, ◌&&◌,
  Option, none, some, leb, ltb, ◌==◌, if◌then◌else◌,
}
use native.Mathlib.Nat.{mul-le-mul_right}
use ntm_os.Prelude.Memory.{Memory, write, in_range}
use ntm_os.Prelude.Word.{int_leb, int_ltb, int_sub}
use ntm_os.Drawing.{Layer, pixel, has_bit, glyph_row, glyph_rows, drawfont8, drawchar}
use ntm_os.Drawing.Boxes.{row_below}

glyph_row_lem :
    (n p c d : ℕ) (m : Memory) (a : ℕ)
    → p + n ≤ 2 ^ 32
    → glyph_row n p c d m a ≡ (if in_range p n a then if has_bit d (a - p) then c else 0 else m a)
unfolding glyph_row write
glyph_row_lem zero p c d m a low = ground arith
glyph_row_lem (suc n) p c d m a low =
    let last : p + n - p ≡ n = omega arith in
    let at : (p + n) % 2 ^ 32 ≡ p + n = omega arith in
    ground
      (arith, glyph_row_lem n p c d (write m ((p + n) % 2 ^ 32) (if has_bit d n then c else 0)) a)

-- Row `y` of a glyph, in the coordinates of the picture.
glyph_row-pixel :
    (base xsize x y c d : ℕ) (m : Memory) (px py : ℕ)
    → x + 8 ≤ xsize
    → px < xsize
    → base + suc y * xsize ≤ 2 ^ 32
    → glyph_row 8 (pixel base xsize x y) c d m (base + py * xsize + px) ≡ (
        if (py == y) && leb x px && ltb px (x + 8)
        then if has_bit d (px - x) then c else 0
        else m (base + py * xsize + px))
unfolding pixel
glyph_row-pixel base xsize x y c d m px py fits h low =
    let at : (base + y * xsize + x) % 2 ^ 32 ≡ base + y * xsize + x = omega arith in
    let before : py < y → py * xsize + px < y * xsize = row_below xsize px py y h in
    let behind : y < py → y * xsize + (x + 7) < py * xsize =
      row_below xsize (x + 7) y py (omega arith) in
    let same : py ≡ y → py * xsize ≡ y * xsize = ap (λ r. r * xsize) in
    let column : py * xsize ≡ y * xsize → base + py * xsize + px - (base + y * xsize + x) ≡ px - x =
      λ e. omega arith in
    ap (λ p. glyph_row 8 p c d m (base + py * xsize + px)) at
    ∙ glyph_row_lem 8 (base + y * xsize + x) c d m (base + py * xsize + px) (omega arith)
    ∙ ground arith

-- The glyph at `font` is apart from the picture.
abbrev pub Apart : ℕ → ℕ → ℕ → ℕ → Type 0
Apart font base xsize height = (font + 8 ≤ base) ⊎ (base + height * xsize ≤ font)

glyph_row_font :
    (base xsize height x y c d : ℕ) (m : Memory) (font j : ℕ)
    → x + 8 ≤ xsize
    → y < height
    → base + height * xsize ≤ 2 ^ 32
    → Apart font base xsize height
    → j < 8
    → glyph_row 8 (pixel base xsize x y) c d m (font + j) ≡ m (font + j)
unfolding pixel
glyph_row_font base xsize height x y c d m font j fits in_y low apart small =
    let row : suc y * xsize ≤ height * xsize =
      mul-le-mul_right {m = suc y} {n = height} xsize in_y in
    let at : (base + y * xsize + x) % 2 ^ 32 ≡ base + y * xsize + x = omega arith in
    ap (λ p. glyph_row 8 p c d m (font + j)) at
    ∙ glyph_row_lem 8 (base + y * xsize + x) c d m (font + j) (omega arith)
    ∙ ground arith

-- The picture of a glyph with the rows `rows`.
abbrev pub glyph_pixel : (ℕ → ℕ) → ℕ → ℕ → ℕ → ℕ → ℕ → ℕ
glyph_pixel rows c x y px py = if has_bit (rows (py - y)) (px - x) then c else 0

glyph_rows_lem :
    (n i base xsize height x y c font : ℕ) (rows : ℕ → ℕ) (m : Memory) (px py : ℕ)
    → ((j : ℕ) → j < 8 → m (font + j) ≡ rows j)
    → Apart font base xsize height
    → n + i ≤ 8
    → x + 8 ≤ xsize
    → y + 8 ≤ height
    → px < xsize
    → base + height * xsize ≤ 2 ^ 32
    → glyph_rows n i base xsize x y c font m (base + py * xsize + px) ≡ (
        if leb x px && ltb px (x + 8) && leb (y + i) py && ltb py (y + i + n)
        then glyph_pixel rows c x y px py
        else m (base + py * xsize + px))
unfolding glyph_rows
glyph_rows_lem zero i base xsize height x y c font rows m px py glyph apart few in_x in_y h low =
    ground arith
glyph_rows_lem (suc n) i base xsize height x y c font rows m px py glyph apart few in_x in_y h low =
    let m' = glyph_row 8 (pixel base xsize x (y + i)) c (m (font + i)) m in
    let row : suc (y + i) * xsize ≤ height * xsize =
      mul-le-mul_right {m = suc (y + i)} {n = height} xsize (omega arith) in
    let glyph' : (j : ℕ) → j < 8 → m' (font + j) ≡ rows j = λ j small.
      glyph_row_font base xsize height x (y + i) c (m (font + i)) m font j in_x (omega arith) low
        apart small
      ∙ glyph j small in
    let this_row : py ≡ y + i → has_bit (m (font + i)) (px - x) ≡ has_bit (rows (py - y)) (px - x) =
      λ e. ap (λ r. has_bit r (px - x)) (glyph i (omega arith) ∙ ap rows (omega arith)) in
    glyph_rows_lem n (i + 1) base xsize height x y c font rows m' px py glyph' apart (omega arith)
      in_x in_y h low
    ∙ ap
        (λ v.
          if leb x px && ltb px (x + 8) && leb (y + (i + 1)) py && ltb py (y + (i + 1) + n)
          then glyph_pixel rows c x y px py
          else v)
        (glyph_row-pixel base xsize x (y + i) c (m (font + i)) m px py in_x h (omega arith))
    ∙ ground arith

-- drawfont8 on a layer that has memory for its pixels draws a glyph that lies inside of the layer:
-- column k of its row j has the colour if bit k of byte j of the glyph is set, and is black if not.
-- It leaves the other pixels of the layer as they were. The glyph lies apart from the pixels.
pub drawfont8_draws :
    (l : Layer) (x y c font : ℕ) (rows : ℕ → ℕ) (m : Memory) (px py : ℕ)
    → l.vbuf ≢ 0
    → ((j : ℕ) → j < 8 → m (font + j) ≡ rows j)
    → Apart font l.vbuf l.width l.height
    → x + 8 ≤ l.width
    → y + 8 ≤ l.height
    → px < l.width
    → l.vbuf + l.height * l.width ≤ 2 ^ 32
    → drawfont8 (some l) x y c font m (l.vbuf + py * l.width + px) ≡ (
        if leb x px && ltb px (x + 8) && leb y py && ltb py (y + 8)
        then glyph_pixel rows c x y px py
        else m (l.vbuf + py * l.width + px))
unfolding drawfont8
drawfont8_draws l x y c font rows m px py some_vbuf glyph apart in_x in_y h low = ground (
  arith,
  glyph_rows_lem 8 0 l.vbuf l.width l.height x y c font rows m px py glyph apart (omega arith) in_x
      in_y h low,
)

-- drawchar never draws: its test on the column compares with the width less the width.
pub drawchar_nothing :
    (pscreen : Option Layer) (x y font palette_id : ℕ) (m : Memory)
    → drawchar pscreen x y font palette_id m ≡ m
unfolding drawchar int_ltb int_leb int_sub
drawchar_nothing none x y font palette_id m = refl
drawchar_nothing (some l) x y font palette_id m =
    let no_width : (l.width + 2 ^ 32 - l.width) % 2 ^ 32 ≡ 0 = omega arith in ground arith
