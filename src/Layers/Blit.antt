-- ===== src/Layers/Blit.antt =====
-- The pixels that `refresh_screen` draws of one layer.
use ntm_os.Prelude.{
  ℕ, zero, suc, ◌+◌, ◌-◌, ◌*◌, ◌^◌, ◌≤◌, ◌<◌, ◌≡◌, ◌≢◌, refl, sym, ap, ap₂, ◌∙◌, arith, Bool, true,
  false, ◌&&◌, leb, ltb, ◌==◌, inl, inr, ◌⊎◌, if◌then◌else◌,
}
use native.Mathlib.Nat.{mul-le-mul_right}
use ntm_os.Prelude.Memory.{Memory, write, in_range, write_other}
use ntm_os.Prelude.Word.{rounds_below, rounds_below_lem}
use ntm_os.Drawing.{Layer, pixel}
use ntm_os.Drawing.Boxes.{write-pixel}
use ntm_os.Layers.{blit_row, blit_rows}

-- The layer lies inside of a screen of `height` rows of `width` pixels at `pvram`, and its own
-- pixels are in memory of their own.
pub record Fits (l : Layer) (pvram width height : ℕ) : Type 0 where
  pub in_x : l.x + l.width ≤ width
  pub in_y : l.y + l.height ≤ height
  pub small : (l.width < 2 ^ 31) × (l.height < 2 ^ 31)
  pub low : l.vbuf + l.height * l.width ≤ 2 ^ 32
  pub apart : (l.vbuf + l.height * l.width ≤ pvram) ⊎ (pvram + height * width ≤ l.vbuf)

-- The colour that a layer gives to the pixel at column `px` and row `py`, over `under`.
abbrev pub over : Layer → Memory → ℕ → ℕ → ℕ → ℕ
over l m px py under =
    let c = m (l.vbuf + (py - l.y) * l.width + (px - l.x)) in
    if leb l.x px && ltb px (l.x + l.width) && leb l.y py && ltb py (l.y + l.height)
    then if c == l.col_inv then under else c
    else under

-- The addresses of the screen.
abbrev pub on_screen : ℕ → ℕ → ℕ → ℕ → Bool
on_screen pvram width height a = in_range pvram (height * width) a

-- The colour of the layer at a pixel, and what it makes of the colour under it.
abbrev pub colour : Layer → Memory → ℕ → ℕ → ℕ
colour l m px py = m (l.vbuf + (py - l.y) * l.width + (px - l.x))

abbrev pub shown_over : Layer → ℕ → ℕ → ℕ
shown_over l c under = if c == l.col_inv then under else c

-- A pixel of a row, and then the `n` pixels behind it.
add_pixel :
    (x bx n px py row colour later c under drawn inv : ℕ)
    → drawn ≡ (if (py == row) && (px == x + bx) then if c == inv then under else c else under)
    → (py ≡ row → px ≡ x + bx → c ≡ colour)
    → (py ≡ row → x + bx < px → px < x + (bx + 1) + n → later ≡ colour)
    → (if (py == row) && leb (x + (bx + 1)) px && ltb px (x + (bx + 1) + n)
        then if later == inv then drawn else later
        else drawn)
      ≡ (if (py == row) && leb (x + bx) px && ltb px (x + bx + suc n)
          then if colour == inv then under else colour
          else under)
add_pixel x bx n px py row colour later c under drawn inv e here still = ground arith

-- A row of a layer, and then the `n` rows below it.
add_row :
    (x w y by n px py colour later under drawn inv : ℕ)
    → drawn ≡ (
        if (py == y + by) && leb (x + 0) px && ltb px (x + 0 + w)
        then if colour == inv then under else colour
        else under)
    → (x ≤ px → px < x + w → y + by < py → py < y + (by + 1) + n → later ≡ colour)
    → (if leb x px && ltb px (x + w) && leb (y + (by + 1)) py && ltb py (y + (by + 1) + n)
        then if later == inv then drawn else later
        else drawn)
      ≡ (if leb x px && ltb px (x + w) && leb (y + by) py && ltb py (y + by + suc n)
          then if colour == inv then under else colour
          else under)
add_row x w y by n px py colour later under drawn inv e still = ground arith

module _ (l : Layer) (pvram width height : ℕ) (low : pvram + height * width ≤ 2 ^ 32)
    (fits : Fits l pvram width height) where
  -- The layer's own pixels are not on the screen.
  source_pixel :
      (bx by : ℕ)
      → bx < l.width
      → by < l.height
      → (pixel l.vbuf l.width bx by ≡ l.vbuf + by * l.width + bx)
        × (on_screen pvram width height (l.vbuf + by * l.width + bx) ≡ false)
  unfolding pixel
  source_pixel bx by hx hy =
      let row : suc by * l.width ≤ l.height * l.width =
        mul-le-mul_right {m = suc by} {n = l.height} l.width hy in
      (
        omega (arith, fits.low),
        elim fits.apart [ inl before ↦ ground arith | inr behind ↦ ground arith ],
      )

  screen_pixel :
      (x y : ℕ)
      → x < width
      → y < height
      → (pvram + suc y * width ≤ 2 ^ 32)
        × (pixel pvram width x y ≡ pvram + y * width + x)
        × (on_screen pvram width height (pvram + y * width + x) ≡ true)
  unfolding pixel
  screen_pixel x y hx hy =
      let row : suc y * width ≤ height * width =
        mul-le-mul_right {m = suc y} {n = height} width hy in
      (omega arith, omega arith, ground arith)

  blit_row_other :
      (n bx by : ℕ) (m : Memory) (a : ℕ)
      → bx + n ≤ l.width
      → by < l.height
      → on_screen pvram width height a ≡ false
      → blit_row n l pvram width bx by m a ≡ m a
  unfolding blit_row
  blit_row_other zero bx by m a hx hy out = refl
  blit_row_other (suc n) bx by m a hx hy out =
      let (_, at, inside) =
        screen_pixel (l.x + bx) (l.y + by) (omega (arith, fits.in_x)) (omega (arith, fits.in_y)) in
      let c = m (pixel l.vbuf l.width bx by) in
      let p = pixel pvram width (l.x + bx) (l.y + by) in
      let ne : a ≢ p = λ e.
        let clash : false ≡ true = sym out ∙ ap (on_screen pvram width height) (e ∙ at) ∙ inside in
        ground arith in
      blit_row_other n (bx + 1) by (if c == l.col_inv then m else write m p c) a (omega arith) hy
        out
      ∙ elim (c == l.col_inv) as (λ b. (if b then m else write m p c) a ≡ m a) [
        | true ↦ refl
        | false ↦ write_other m p c a ne
      ]

  -- One pixel of the layer.
  blit_pixel :
      (bx by : ℕ) (m : Memory) (px py : ℕ)
      → bx < l.width
      → by < l.height
      → px < width
      → let c = m (pixel l.vbuf l.width bx by) in
        (if c == l.col_inv then m else write m (pixel pvram width (l.x + bx) (l.y + by)) c)
          (pvram + py * width + px)
        ≡ (if (py == l.y + by) && (px == l.x + bx)
            then shown_over l c (m (pvram + py * width + px))
            else m (pvram + py * width + px))
  blit_pixel bx by m px py hx hy hp =
      let c = m (pixel l.vbuf l.width bx by) in
      let p = pixel pvram width (l.x + bx) (l.y + by) in
      let under = m (pvram + py * width + px) in
      let here = (py == l.y + by) && (px == l.x + bx) in
      let (row, _, _) =
        screen_pixel (l.x + bx) (l.y + by) (omega (arith, fits.in_x)) (omega (arith, fits.in_y)) in
      let drawn =
        write-pixel pvram width c (l.x + bx) (l.y + by) m px py (omega (arith, fits.in_x)) hp row in
      elim (c == l.col_inv)
        as (λ b.
          (if b then m else write m p c) (pvram + py * width + px)
          ≡ (if here then if b then under else c else under)) [
            | true ↦ ground arith
            | false ↦ drawn
          ]

  -- The colours of the layer stay when the screen is drawn on.
  pub colour_kept :
      (m m' : Memory) (px py : ℕ)
      → ((a : ℕ) → on_screen pvram width height a ≡ false → m' a ≡ m a)
      → l.x ≤ px
      → px < l.x + l.width
      → l.y ≤ py
      → py < l.y + l.height
      → colour l m' px py ≡ colour l m px py
  colour_kept m m' px py same ge lt ge' lt' =
      same (l.vbuf + (py - l.y) * l.width + (px - l.x))
        (source_pixel (px - l.x) (py - l.y) (omega arith) (omega arith)).1

  blit_row_pixel :
      (n bx by : ℕ) (m : Memory) (px py : ℕ)
      → bx + n ≤ l.width
      → by < l.height
      → px < width
      → blit_row n l pvram width bx by m (pvram + py * width + px) ≡ (
          if (py == l.y + by) && leb (l.x + bx) px && ltb px (l.x + bx + n)
          then shown_over l (colour l m px py) (m (pvram + py * width + px))
          else m (pvram + py * width + px))
  unfolding blit_row
  blit_row_pixel zero bx by m px py hx hy hp = ground arith
  blit_row_pixel (suc n) bx by m px py hx hy hp =
      let c = m (pixel l.vbuf l.width bx by) in
      let m1 : Memory =
        if c == l.col_inv then m else write m (pixel pvram width (l.x + bx) (l.y + by)) c in
      let under = m (pvram + py * width + px) in
      let kept : (a : ℕ) → on_screen pvram width height a ≡ false → m1 a ≡ m a =
        λ a out. blit_row_other 1 bx by m a (omega arith) hy out in
      let same_colour : py ≡ l.y + by → px ≡ l.x + bx → c ≡ colour l m px py = λ e f. ap m (
        (source_pixel bx by (omega arith) hy).0
        ∙ ap₂ (λ r k. l.vbuf + r * l.width + k) (omega arith) (omega arith)) in
      let still : py ≡ l.y + by
          → l.x + bx < px
          → px < l.x + (bx + 1) + n
          → colour l m1 px py ≡ colour l m px py =
        λ e ge lt.
          colour_kept m m1 px py kept (omega arith) (omega arith) (omega arith) (omega arith) in
      blit_row_pixel n (bx + 1) by m1 px py (omega arith) hy hp
      ∙ add_pixel l.x bx n px py (l.y + by) (colour l m px py) (colour l m1 px py) c under
          (m1 (pvram + py * width + px)) l.col_inv (blit_pixel bx by m px py (omega arith) hy hp)
          same_colour still

  pub blit_rows_other :
      (n by : ℕ) (m : Memory) (a : ℕ)
      → by + n ≤ l.height
      → on_screen pvram width height a ≡ false
      → blit_rows n l pvram width by m a ≡ m a
  unfolding blit_rows
  blit_rows_other zero by m a hy out = refl
  blit_rows_other (suc n) by m a hy out =
      let wide : rounds_below 0 l.width ≡ l.width = rounds_below_lem l.width fits.small.0 in
      blit_rows_other n (by + 1) (blit_row (rounds_below 0 l.width) l pvram width 0 by m) a
        (omega arith) out
      ∙ blit_row_other (rounds_below 0 l.width) 0 by m a (omega arith) (omega arith) out

  pub blit_rows_pixel :
      (n by : ℕ) (m : Memory) (px py : ℕ)
      → by + n ≤ l.height
      → px < width
      → blit_rows n l pvram width by m (pvram + py * width + px) ≡ (
          if leb l.x px && ltb px (l.x + l.width) && leb (l.y + by) py && ltb py (l.y + by + n)
          then shown_over l (colour l m px py) (m (pvram + py * width + px))
          else m (pvram + py * width + px))
  unfolding blit_rows
  blit_rows_pixel zero by m px py hy hp = ground arith
  blit_rows_pixel (suc n) by m px py hy hp =
      let wide : rounds_below 0 l.width ≡ l.width = rounds_below_lem l.width fits.small.0 in
      let m1 = blit_row (rounds_below 0 l.width) l pvram width 0 by m in
      let kept : (a : ℕ) → on_screen pvram width height a ≡ false → m1 a ≡ m a =
        λ a out. blit_row_other (rounds_below 0 l.width) 0 by m a (omega arith) (omega arith) out in
      let under = m (pvram + py * width + px) in
      let row =
        blit_row_pixel (rounds_below 0 l.width) 0 by m px py (omega arith) (omega arith) hp
        ∙ ap
            (λ w.
              if (py == l.y + by) && leb (l.x + 0) px && ltb px (l.x + 0 + w)
              then shown_over l (colour l m px py) under
              else under)
            wide in
      blit_rows_pixel n (by + 1) m1 px py (omega arith) hp
      ∙ add_row l.x l.width l.y by n px py (colour l m px py) (colour l m1 px py) under
          (m1 (pvram + py * width + px)) l.col_inv row
          (λ ge lt ge' lt'. colour_kept m m1 px py kept ge lt (omega arith) (omega arith))
