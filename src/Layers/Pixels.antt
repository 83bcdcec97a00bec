-- ===== src/Layers/Pixels.antt =====
-- `refresh_screen`: the pixels that it draws.
use ntm_os.Prelude.{
  ℕ, zero, suc, ◌+◌, ◌*◌, ◌^◌, ◌≤◌, ◌<◌, ◌≡◌, refl, ap, ◌∙◌, arith, false, ◌&&◌, leb, ltb,
  if◌then◌else◌,
}
use ntm_os.Prelude.Memory.{Memory}
use ntm_os.Prelude.Run.{done}
use ntm_os.Prelude.Word.{rounds_below, rounds_below_lem}
use ntm_os.Drawing.{Layer}
use ntm_os.Layers.{layer, Screen, blit_rows, refresh_loop, refresh_screen}
use ntm_os.Layers.Stack.{Shows}
use ntm_os.Layers.Refresh.{with_memory, refresh_step}
use ntm_os.Layers.Blit.{
  Fits, over, on_screen, colour, shown_over, colour_kept, blit_rows_other, blit_rows_pixel,
}

whole_layer :
    (l : Layer) (n : ℕ) (m : Memory) (px py under : ℕ)
    → n ≡ l.height
    → (if leb l.x px && ltb px (l.x + l.width) && leb (l.y + 0) py && ltb py (l.y + 0 + n)
        then shown_over l (colour l m px py) under
        else under)
      ≡ over l m px py under
whole_layer l n m px py under e = ground arith

-- The colour that the layers at positions from `z` on, `n` of them, give to a pixel, one over the
-- other, over `under`.
abbrev pub stacked : (ℕ → Layer) → ℕ → ℕ → Memory → ℕ → ℕ → ℕ → ℕ
stacked shown zero z m px py under = under
stacked shown (suc n) z m px py under =
    stacked shown n (z + 1) m px py (over (shown z) m px py under)

module _ (s : Screen) (at : ℕ → ℕ) (height : ℕ) (low : s.pvram + height * s.width ≤ 2 ^ 32) where
  -- Colours that are not on the screen are all that matters of the memory.
  over_kept :
      (l : Layer) (m m' : Memory) (px py under : ℕ)
      → Fits l s.pvram s.width height
      → ((a : ℕ) → on_screen s.pvram s.width height a ≡ false → m' a ≡ m a)
      → over l m' px py under ≡ over l m px py under
  over_kept l m m' px py under fits same =
      let kept = colour_kept l s.pvram s.width height low fits m m' px py same in ground arith

  stacked_kept :
      (n z : ℕ) (m m' : Memory) (px py under : ℕ)
      → ((j : ℕ) → z ≤ j → j < z + n → Fits (s.layers (at j)) s.pvram s.width height)
      → ((a : ℕ) → on_screen s.pvram s.width height a ≡ false → m' a ≡ m a)
      → stacked (λ j. s.layers (at j)) n z m' px py under
        ≡ stacked (λ j. s.layers (at j)) n z m px py under
  stacked_kept zero z m m' px py under fits same = refl
  stacked_kept (suc n) z m m' px py under fits same =
      let shown : ℕ → Layer = λ j. s.layers (at j) in
      ap (stacked shown n (z + 1) m' px py)
        (over_kept (shown z) m m' px py under (fits z (omega arith) (omega arith)) same)
      ∙ stacked_kept n (z + 1) m m' px py (over (shown z) m px py under)
          (λ j ge lt. fits j (omega arith) (omega arith)) same

  refresh_loop_pixels :
      (n z : ℕ) (m : Memory)
      → ((j : ℕ) → z ≤ j → j < z + n → s.stack j ≡ layer (at j))
      → ((j : ℕ) → z ≤ j → j < z + n → Fits (s.layers (at j)) s.pvram s.width height)
      → (m' : Memory) × (refresh_loop n z (with_memory s m) ≡ done (with_memory s m'))
        × ((px py : ℕ)
            → px < s.width
            → m' (s.pvram + py * s.width + px)
              ≡ stacked (λ j. s.layers (at j)) n z m px py (m (s.pvram + py * s.width + px)))
  unfolding refresh_loop
  refresh_loop_pixels zero z m cells fits = (m, refl, λ px py hp. refl)
  refresh_loop_pixels (suc n) z m cells fits =
      let l = s.layers (at z) in
      let fit = fits z (omega arith) (omega arith) in
      let tall : rounds_below 0 l.height ≡ l.height = rounds_below_lem l.height fit.small.1 in
      let m1 = blit_rows (rounds_below 0 l.height) l s.pvram s.width 0 m in
      let kept : (a : ℕ) → on_screen s.pvram s.width height a ≡ false → m1 a ≡ m a = λ a out.
        blit_rows_other l s.pvram s.width height low fit (rounds_below 0 l.height) 0 m a
          (omega arith) out in
      let later : (j : ℕ)
          → z + 1 ≤ j
          → j < z + 1 + n
          → Fits (s.layers (at j)) s.pvram s.width height =
        λ j ge lt. fits j (omega arith) (omega arith) in
      let (m', e, pixels) =
        refresh_loop_pixels n (z + 1) m1 (λ j ge lt. cells j (omega arith) (omega arith)) later in
      (
        m',
        refresh_step n z (with_memory s m) (layer (at z)) (cells z (omega arith) (omega arith)) ∙ e,
        λ px py hp.
            pixels px py hp
            ∙ stacked_kept n (z + 1) m m1 px py (m1 (s.pvram + py * s.width + px)) later kept
            ∙ ap (stacked (λ j. s.layers (at j)) n (z + 1) m px py) (
                blit_rows_pixel l s.pvram s.width height low fit (rounds_below 0 l.height) 0 m px py
                  (omega arith) hp
                ∙ whole_layer l (rounds_below 0 l.height) m px py (m (s.pvram + py * s.width + px))
                    tall),
      )

-- On a screen that shows some layers, all of them inside of the screen and with pixels of their own
-- in memory, refresh_screen returns, and changes nothing but memory. Every pixel of the screen then
-- has the colour of the topmost layer that covers it with a colour that is not the transparent one,
-- and the colour that it had if there is none.
pub refresh_screen-stacked :
    (s : Screen) (at : ℕ → ℕ) (height : ℕ)
    → s.pvram + height * s.width ≤ 2 ^ 32
    → Shows s at
    → ((j : ℕ) → j < s.top → Fits (s.layers (at j)) s.pvram s.width height)
    → (m' : Memory) × (refresh_screen s ≡ done (with_memory s m'))
      × ((px py : ℕ)
          → px < s.width
          → m' (s.pvram + py * s.width + px)
            ≡ stacked
                (λ j. s.layers (at j))
                s.top
                0
                s.memory
                px
                py
                (s.memory (s.pvram + py * s.width + px)))
unfolding refresh_screen
refresh_screen-stacked s at height low shows fits =
    refresh_loop_pixels s at height low s.top 0 s.memory (λ j ge lt. shows.cells j (omega arith))
      (λ j ge lt. fits j (omega arith))
