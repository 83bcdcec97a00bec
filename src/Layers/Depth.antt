-- ===== src/Layers/Depth.antt =====
-- `mov_layer_z`: what it makes of the layers that are shown.
use ntm_os.Prelude.{
  ℕ, ◌+◌, ◌-◌, ◌≤◌, ◌<◌, ◌≡◌, ◌≢◌, ap, ◌∙◌, arith, Bool-cases, true, false, ◌&&◌, leb, ◌==◌, ==→eq,
  ==→ne, inl, inr, if◌then◌else◌,
}
use ntm_os.Prelude.Int.{ℤ}
use ntm_os.Prelude.Memory.{update, update_self, update_other}
use ntm_os.Prelude.Run.{done, undefined, ◌>>=◌}
use ntm_os.Layers.{
  layer, raw, Screen, put, with_level, open_gap, refresh_screen, new_level, raise, move_level,
  mov_layer_z,
}
use ntm_os.Layers.Stack.{Shows}
use ntm_os.Layers.Refresh.{
  with_memory, refresh_screen-done, refresh_screen-undefined, Shows-with_memory, open_gap_lem,
}
use ntm_os.Layers.Moved.{after, top_after, Possible, Moved, move_level_branch, Possible-Moved}

module _ (s : Screen) (at : ℕ → ℕ) (shows : Shows s at) where
  -- On a screen that shows some layers, mov_layer_z of a layer in use returns, if the layer is shown
  -- and stays among the shown positions, or is hidden and is put on top, or is taken away. The
  -- screen then shows the same layers in the order that is meant: without the layer, or with it at
  -- its new position, where the order of the others is kept.
  pub mov_layer_z-Shows :
      (p : ℕ) (nz : ℤ)
      → p ≢ 0
      → (s.layers p).flags ≢ 0
      → Possible (s.layers p).level (new_level nz s.top) s.top
      → let old = (s.layers p).level in
        let new = new_level nz s.top in
        (s' : Screen) × (mov_layer_z p nz s ≡ done s')
        × Shows s' (after p old new s.top at)
        × (s'.top ≡ top_after old new s.top)
  unfolding mov_layer_z Moved
  mov_layer_z-Shows p nz some_layer used possible =
      let old = (s.layers p).level in
      let new = new_level nz s.top in
      let (s', e, shows', top) = Possible-Moved s at shows p new used possible in
      let (m, drawn) = refresh_screen-done s' (after p old new s.top at) shows' in
      let there : (p == 0) ≡ false = ground arith in
      (
        with_memory s' m,
        ap (λ b. if b then done s else move_level p old new (with_level p new s) >>= refresh_screen)
              there
            ∙ ap (λ r. r >>= refresh_screen) e
            ∙ drawn,
        Shows-with_memory s' (after p old new s.top at) m shows',
        top,
      )

  -- mov_layer_z of a hidden layer to a position where another one is shown stores numbers in place
  -- of pointers, and has no meaning once it refreshes the screen.
  pub mov_layer_z_below :
      (p : ℕ) (nz : ℤ)
      → p ≢ 0
      → (s.layers p).level ≡ 0
      → new_level nz s.top ≢ 0
      → new_level nz s.top ≤ s.top
      → mov_layer_z p nz s ≡ undefined
  unfolding mov_layer_z raise put with_level update
  mov_layer_z_below p nz some_layer hidden shown below =
      let new = new_level nz s.top in
      let s1 = with_level p new s in
      let n = s.top + 1 - new in
      let gap = open_gap n (s.top - 1) s1 in
      let lifted = put (new - 1) (layer p) gap in
      let s' : Screen = record lifted { top = lifted.top + 1 } in
      let at' : ℕ → ℕ = λ j. if j == new - 1 then p else at j in
      let there : (p == 0) ≡ false = ground arith in
      let gap_at : (j : ℕ)
          → gap.stack j
            ≡ (if leb (s.top - 1 + 2 - n) j && leb j (s.top - 1 + 1) then raw j else s.stack j) =
        λ j. (open_gap_lem n (s.top - 1) s1 j (omega arith)).0 in
      let same_top : gap.top ≡ s.top = (open_gap_lem n (s.top - 1) s1 0 (omega arith)).1 in
      let cells : (j : ℕ) → j < new → s'.stack j ≡ layer (at' j) = λ j lt.
        elim (Bool-cases (j == new - 1)) [
          | inl here ↦
              let e : j ≡ new - 1 = ==→eq j (new - 1) here in
              ap (update gap.stack (new - 1) (layer p)) e
              ∙ update_self gap.stack (new - 1) (layer p)
              ∙ ap layer (ground arith)
          | inr other ↦
              let ne : j ≢ new - 1 = ==→ne j (new - 1) other in
              let in_stack : (if leb (s.top - 1 + 2 - n) j && leb j (s.top - 1 + 1)
                    then raw j
                    else s.stack j)
                  ≡ s.stack j =
                ground arith in
              update_other gap.stack (new - 1) (layer p) j ne
              ∙ gap_at j
              ∙ in_stack
              ∙ shows.cells j (omega arith)
              ∙ ap layer (ground arith)
        ] in
      let bad : s'.stack new ≡ raw new =
        update_other gap.stack (new - 1) (layer p) new (omega arith) ∙ gap_at new ∙ ground arith in
      ap (λ b. if b then done s else move_level p (s.layers p).level new s1 >>= refresh_screen)
        there
      ∙ ap (λ o. move_level p o new s1 >>= refresh_screen) hidden
      ∙ ap (λ r. r >>= refresh_screen)
          (move_level_branch p 0 new s1 false true (ground arith) (ground arith))
      ∙ refresh_screen-undefined new new s' at' (omega arith) cells bad
