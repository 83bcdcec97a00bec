-- ===== src/Layers/Tests.antt =====
-- A small screen with two layers that are shown and one that is not, and runs on it.
use ntm_os.Prelude.{
  ℕ, ◌+◌, ◌*◌, ◌%◌, ◌<◌, ◌≡◌, refl, inl, inr, arith, ◌==◌, leb, ltb, ◌&&◌, if◌then◌else◌, some,
}
use ntm_os.Prelude.Int.{pos}
use ntm_os.Prelude.Memory.{Memory}
use ntm_os.Prelude.Run.{done, undefined}
use ntm_os.Drawing.{Layer, boxfill8, drawfont8}
use ntm_os.Drawing.Boxes.{in_box, boxfill8_fills}
use ntm_os.Drawing.Glyphs.{glyph_pixel, drawfont8_draws}
use ntm_os.Layers.{layer, raw, Screen, refresh_screen, new_level, mov_layer_z}
use ntm_os.Layers.Stack.{Shows}
use ntm_os.Layers.Refresh.{with_memory}
use ntm_os.Layers.Moved.{Possible, after}
use ntm_os.Layers.Depth.{mov_layer_z-Shows, mov_layer_z_below}
use ntm_os.Layers.Blit.{Fits}
use ntm_os.Layers.Pixels.{stacked, refresh_screen-stacked}

-- Layer 1 covers the screen, layer 2 two pixels of it; layer 3 is hidden.
abbrev test_layers : ℕ → Layer
test_layers p = record {
  vbuf = if p == 1 then 2000 else 3000;
  x = if p == 1 then 0 else 1;
  y = if p == 1 then 0 else 1;
  width = if p == 1 then 4 else 2;
  height = if p == 1 then 3 else 1;
  level = if p == 1 then 1 else if p == 2 then 2 else 0;
  col_inv = if p == 1 then 0xffffffff else 99;
  flags = if leb 1 p && leb p 3 then 1 else 0;
}

abbrev test_screen : Screen
test_screen = record {
  width = 4;
  height = 3;
  pvram = 1000;
  top = 2;
  stack = λ z. if ltb z 2 then layer (z + 1) else raw 0;
  layers = test_layers;
  mouse_x = 0;
  mouse_y = 0;
  memory = λ a. a % 256;
}

test_screen-Shows : Shows test_screen (λ z. z + 1)
test_screen-Shows = record {
  cells = λ z lt. ground arith;
  level_at = λ z lt. ground arith;
  in_use = λ z lt e. ground arith;
  shown = λ q used level. (ground arith, ground arith);
}

test_screen-Fits : (j : ℕ) → j < 2 → Fits (test_layers (j + 1)) 1000 4 3
test_screen-Fits j lt = record {
  in_x = ground arith;
  in_y = ground arith;
  small = (ground arith, ground arith);
  low = ground arith;
  apart = inr (ground arith);
}

refresh_screen-stacked_example :
    (m' : Memory) × (refresh_screen test_screen ≡ done (with_memory test_screen m'))
    × ((px py : ℕ)
        → px < 4
        → m' (1000 + py * 4 + px)
          ≡ stacked
              (λ j. test_layers (j + 1))
              2
              0
              (λ a. a % 256)
              px
              py
              ((1000 + py * 4 + px) % 256))
refresh_screen-stacked_example =
    refresh_screen-stacked test_screen (λ z. z + 1) 3 (omega arith) test_screen-Shows
      test_screen-Fits

bottom_to_top : Possible 1 2 2
unfolding Possible
bottom_to_top = inl (omega arith, omega arith)

-- The layer at the bottom goes to the top.
mov_layer_z-Shows_example :
    (s' : Screen) × (mov_layer_z 1 (pos 1) test_screen ≡ done s')
    × Shows s' (after 1 1 2 2 (λ z. z + 1))
    × (s'.top ≡ 2)
unfolding new_level
mov_layer_z-Shows_example =
    mov_layer_z-Shows test_screen (λ z. z + 1) test_screen-Shows 1 (pos 1) (omega arith)
      (omega arith) bottom_to_top

-- The hidden layer goes to the bottom.
mov_layer_z_below_example : mov_layer_z 3 (pos 0) test_screen ≡ undefined
unfolding new_level
mov_layer_z_below_example =
    mov_layer_z_below test_screen (λ z. z + 1) test_screen-Shows 3 (pos 0) (omega arith) refl
      (omega arith) (omega arith)

boxfill8_fills_example :
    boxfill8 1000 4 9 1 1 2 2 (λ a. 0) (1000 + 2 * 4 + 1) ≡ (if in_box 1 1 2 2 1 2 then 9 else 0)
boxfill8_fills_example =
    boxfill8_fills 1000 4 3 9 1 1 2 2 (λ a. 0) 1 2 (omega arith) (omega arith) (omega arith)
      (omega arith) (omega arith) (omega arith) (omega arith) (omega arith)

-- A layer of 10 by 9 pixels.
abbrev letter_layer : Layer
letter_layer = record {
  vbuf = 2000;
  x = 0;
  y = 0;
  width = 10;
  height = 9;
  level = 0;
  col_inv = 99;
  flags = 1;
}

-- Every row of the glyph has the bits 0 and 2.
drawfont8_draws_example :
    drawfont8 (some letter_layer) 1 1 7 500 (λ a. 5) (2000 + 4 * 10 + 3)
    ≡ (if leb 1 3 && ltb 3 9 && leb 1 4 && ltb 4 9 then glyph_pixel (λ j. 5) 7 1 1 3 4 else 5)
drawfont8_draws_example =
    drawfont8_draws letter_layer 1 1 7 500 (λ j. 5) (λ a. 5) 3 4 (omega arith) (λ j small. refl)
      (inl (omega arith)) (omega arith) (omega arith) (omega arith) (omega arith)
