-- ===== src/Layers/Refresh.antt =====
-- `refresh_screen` on a stack of layers, and on a stack with a cell that is no pointer to a layer.
use ntm_os.Prelude.{
  ℕ, zero, suc, ◌+◌, ◌-◌, ◌≤◌, ◌<◌, ◌≡◌, ◌≢◌, refl, ap, ◌∙◌, arith, Bool-cases, ◌==◌, ==→eq, ==→ne,
  inl, inr, ◌&&◌, leb, if◌then◌else◌,
}
use ntm_os.Prelude.Memory.{Memory, update}
use ntm_os.Prelude.Run.{Run, done, undefined}
use ntm_os.Prelude.Word.{rounds_below}
use ntm_os.Layers.{Cell, layer, raw, Screen, put, open_gap, blit_rows, refresh_loop, refresh_screen}
use ntm_os.Layers.Stack.{Shows}

abbrev pub with_memory : Screen → Memory → Screen
with_memory s m = record s { memory = m }

-- A round at a cell that is known.
pub refresh_step :
    (n z : ℕ) (s : Screen) (cell : Cell)
    → s.stack z ≡ cell
    → refresh_loop (suc n) z s ≡ (elim cell as (λ c. Run Screen) [
      | layer p ↦ refresh_loop n (z + 1) (record s {
        memory =
            blit_rows (rounds_below 0 (s.layers p).height) (s.layers p) s.pvram s.width 0 s.memory;
      })
      | raw v ↦ undefined
    ])
unfolding refresh_loop
refresh_step n z s cell e =
    ap
      (λ c. elim c as (λ c. Run Screen) [
        | layer p ↦ refresh_loop n (z + 1) (record s {
          memory =
              blit_rows (rounds_below 0 (s.layers p).height) (s.layers p) s.pvram s.width 0
                s.memory;
        })
        | raw v ↦ undefined
      ])
      e

refresh_loop-done :
    (n z : ℕ) (s : Screen) (at : ℕ → ℕ) (m : Memory)
    → ((j : ℕ) → z ≤ j → j < z + n → s.stack j ≡ layer (at j))
    → (m' : Memory) × (refresh_loop n z (with_memory s m) ≡ done (with_memory s m'))
unfolding refresh_loop
refresh_loop-done zero z s at m cells = (m, refl)
refresh_loop-done (suc n) z s at m cells =
    let l = s.layers (at z) in
    let (m', e) =
      refresh_loop-done n (z + 1) s at (blit_rows (rounds_below 0 l.height) l s.pvram s.width 0 m)
        (λ j ge lt. cells j (omega arith) (omega arith)) in
    (
      m',
      refresh_step n z (with_memory s m) (layer (at z)) (cells z (omega arith) (omega arith)) ∙ e,
    )

pub refresh_screen-done :
    (s : Screen) (at : ℕ → ℕ)
    → Shows s at
    → (m' : Memory) × (refresh_screen s ≡ done (with_memory s m'))
unfolding refresh_screen
refresh_screen-done s at shows =
    refresh_loop-done s.top 0 s at s.memory (λ j ge lt. shows.cells j (omega arith))

-- The screen that is shown does not depend on the pixels.
pub Shows-with_memory :
    (s : Screen) (at : ℕ → ℕ) (m : Memory) → Shows s at → Shows (with_memory s m) at
Shows-with_memory s at m shows = record {
  cells = shows.cells;
  level_at = shows.level_at;
  in_use = shows.in_use;
  shown = shows.shown;
}

-- A cell that is no pointer to a layer, above cells that are, has no meaning.
refresh_loop-undefined :
    (n z bad v : ℕ) (s : Screen) (at : ℕ → ℕ)
    → z ≤ bad
    → bad < z + n
    → ((j : ℕ) → z ≤ j → j < bad → s.stack j ≡ layer (at j))
    → s.stack bad ≡ raw v
    → refresh_loop n z s ≡ undefined
refresh_loop-undefined zero z bad v s at ge lt cells at_bad = absurd (omega arith)
refresh_loop-undefined (suc n) z bad v s at ge lt cells at_bad = elim (Bool-cases (z == bad)) [
  | inl here ↦ refresh_step n z s (raw v) (ap s.stack (==→eq z bad here) ∙ at_bad)
  | inr other ↦
      let l = s.layers (at z) in
      let ne : z ≢ bad = ==→ne z bad other in
      refresh_step n z s (layer (at z)) (cells z (omega arith) (omega arith))
      ∙ refresh_loop-undefined n (z + 1) bad v
          (record s { memory = blit_rows (rounds_below 0 l.height) l s.pvram s.width 0 s.memory })
          at (omega arith) (omega arith) (λ j ge lt. cells j (omega arith) lt) at_bad
]

pub refresh_screen-undefined :
    (bad v : ℕ) (s : Screen) (at : ℕ → ℕ)
    → bad < s.top
    → ((j : ℕ) → j < bad → s.stack j ≡ layer (at j))
    → s.stack bad ≡ raw v
    → refresh_screen s ≡ undefined
unfolding refresh_screen
refresh_screen-undefined bad v s at lt cells at_bad =
    refresh_loop-undefined s.top 0 bad v s at (omega arith) (omega arith) (λ j ge lt. cells j lt)
      at_bad

gap_step :
    (n z j : ℕ) (cell : Cell) (stack : ℕ → Cell)
    → suc n ≤ z + 1
    → (if leb (z - 1 + 2 - n) j && leb j (z - 1 + 1)
        then raw j
        else update (update stack (z + 1) cell) (z + 1) (raw (z + 1)) j)
      ≡ (if leb (z + 2 - suc n) j && leb j (z + 1) then raw j else stack j)
unfolding update
gap_step n z j cell stack fits = elim (Bool-cases (j == z + 1)) [
  | inl here ↦ let e : j ≡ z + 1 = ==→eq j (z + 1) here in ground arith
  | inr other ↦ let ne : j ≢ z + 1 = ==→ne j (z + 1) other in ground arith
]

-- The loop that should make room leaves numbers in the cells above the new layer.
pub open_gap_lem :
    (n z : ℕ) (s : Screen) (j : ℕ)
    → n ≤ z + 1
    → ((open_gap n z s).stack j ≡ (if leb (z + 2 - n) j && leb j (z + 1) then raw j else s.stack j))
      × ((open_gap n z s).top ≡ s.top)
unfolding open_gap put update
open_gap_lem zero z s j fits = (ground arith, refl)
open_gap_lem (suc n) z s j fits =
    let s' = put (z + 1) (raw (z + 1)) (put (z + 1) (s.stack z) s) in
    let (e, same_top) = open_gap_lem n (z - 1) s' j (omega arith) in
    (e ∙ gap_step n z j (s.stack z) s.stack fits, same_top)
