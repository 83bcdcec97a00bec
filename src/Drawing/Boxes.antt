-- ===== src/Drawing/Boxes.antt =====
-- Filled rectangles.
use ntm_os.Prelude.{
  ℕ, zero, suc, ◌+◌, ◌*◌, ◌%◌, ◌^◌, ◌≤◌, ◌<◌, ◌≡◌, ap, ◌∙◌, arith, Bool, ◌&&◌, leb, ltb, ◌==◌,
  if◌then◌else◌,
}
use native.Mathlib.Nat.{mul-le-mul_right}
use ntm_os.Prelude.Memory.{Memory, write}
use ntm_os.Prelude.Word.{rounds_to, rounds_to_lem}
use ntm_os.Drawing.{pixel, box_row, box_rows, boxfill8}

-- The pixel at column `x` and row `y` lies in the rectangle.
abbrev pub in_box : ℕ → ℕ → ℕ → ℕ → ℕ → ℕ → Bool
in_box x0 y0 x1 y1 x y = leb x0 x && leb x x1 && leb y0 y && leb y y1

-- Rows do not meet.
pub row_below : (xsize x y y' : ℕ) → x < xsize → y < y' → y * xsize + x < y' * xsize
row_below xsize x y y' h lt = omega (arith, mul-le-mul_right {m = suc y} {n = y'} xsize lt)

pub write-pixel :
    (vram xsize c x y : ℕ) (m : Memory) (px py : ℕ)
    → x < xsize
    → px < xsize
    → vram + suc y * xsize ≤ 2 ^ 32
    → write m (pixel vram xsize x y) c (vram + py * xsize + px)
      ≡ (if (py == y) && (px == x) then c else m (vram + py * xsize + px))
unfolding write pixel
write-pixel vram xsize c x y m px py inside h low =
    let at : (vram + y * xsize + x) % 2 ^ 32 ≡ vram + y * xsize + x = omega arith in
    let before : py < y → py * xsize + px < y * xsize = row_below xsize px py y h in
    let behind : y < py → y * xsize + x < py * xsize = row_below xsize x y py inside in
    let same : py ≡ y → py * xsize ≡ y * xsize = ap (λ r. r * xsize) in ground arith

box_row_lem :
    (n vram xsize c x y : ℕ) (m : Memory) (px py : ℕ)
    → x + n ≤ xsize
    → px < xsize
    → vram + suc y * xsize ≤ 2 ^ 32
    → box_row n vram xsize c x y m (vram + py * xsize + px)
      ≡ (if (py == y) && leb x px && ltb px (x + n) then c else m (vram + py * xsize + px))
unfolding box_row
box_row_lem zero vram xsize c x y m px py fits h low = ground arith
box_row_lem (suc n) vram xsize c x y m px py fits h low =
    let m' = write m (pixel vram xsize x y) c in
    box_row_lem n vram xsize c (x + 1) y m' px py (omega arith) h low
    ∙ ap (λ v. if (py == y) && leb (x + 1) px && ltb px (x + 1 + n) then c else v)
        (write-pixel vram xsize c x y m px py (omega arith) h low)
    ∙ ground arith

box_rows_lem :
    (n vram xsize c x0 x1 y : ℕ) (m : Memory) (px py : ℕ)
    → x0 ≤ x1
    → x1 < xsize
    → xsize < 2 ^ 31
    → px < xsize
    → vram + (y + n) * xsize ≤ 2 ^ 32
    → box_rows n vram xsize c x0 x1 y m (vram + py * xsize + px) ≡ (
        if leb x0 px && leb px x1 && leb y py && ltb py (y + n)
        then c
        else m (vram + py * xsize + px))
unfolding box_rows
box_rows_lem zero vram xsize c x0 x1 y m px py le inside small h low = ground arith
box_rows_lem (suc n) vram xsize c x0 x1 y m px py le inside small h low =
    let m' = box_row (rounds_to x0 x1) vram xsize c x0 y m in
    let wide = rounds_to_lem x0 x1 le (omega arith) in
    let row_fits : suc y * xsize ≤ (y + suc n) * xsize =
      mul-le-mul_right {m = suc y} {n = y + suc n} xsize (omega arith) in
    let same_rows : (y + 1 + n) * xsize ≡ (y + suc n) * xsize = ap (λ r. r * xsize) (omega arith) in
    box_rows_lem n vram xsize c x0 x1 (y + 1) m' px py le inside small h (omega arith)
    ∙ ap (λ v. if leb x0 px && leb px x1 && leb (y + 1) py && ltb py (y + 1 + n) then c else v)
        (box_row_lem (rounds_to x0 x1) vram xsize c x0 y m px py (omega arith) h (omega arith))
    ∙ ground arith

-- In a picture of `height` rows of `xsize` pixels at `vram`, boxfill8 with corners inside of the
-- picture, the first no further right or down than the second, gives every pixel of the rectangle,
-- its corners included, the colour, and leaves every other pixel as it was.
pub boxfill8_fills :
    (vram xsize height c x0 y0 x1 y1 : ℕ) (m : Memory) (px py : ℕ)
    → vram + height * xsize ≤ 2 ^ 32
    → xsize < 2 ^ 31
    → height < 2 ^ 31
    → x0 ≤ x1
    → x1 < xsize
    → y0 ≤ y1
    → y1 < height
    → px < xsize
    → boxfill8 vram xsize c x0 y0 x1 y1 m (vram + py * xsize + px)
      ≡ (if in_box x0 y0 x1 y1 px py then c else m (vram + py * xsize + px))
unfolding boxfill8
boxfill8_fills vram xsize height c x0 y0 x1 y1 m px py fits wide tall le_x in_x le_y in_y h =
    let rows = rounds_to_lem y0 y1 le_y (omega arith) in
    let low : (y0 + rounds_to y0 y1) * xsize ≤ height * xsize =
      mul-le-mul_right {m = y0 + rounds_to y0 y1} {n = height} xsize (omega arith) in
    box_rows_lem (rounds_to y0 y1) vram xsize c x0 x1 y0 m px py le_x in_x wide h (omega arith)
    ∙ ground arith
