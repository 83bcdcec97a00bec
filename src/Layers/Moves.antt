-- ===== src/Layers/Moves.antt =====
-- The moves of a layer that is shown: down, up, and away.
use ntm_os.Prelude.{
  ℕ, ◌+◌, ◌-◌, ◌≤◌, ◌<◌, ◌≡◌, ◌≢◌, refl, sym, ap, ◌∙◌, arith, Bool, Bool-cases, true, false, leb,
  ◌==◌, ==→eq, ==→ne, inl, inr, if◌then◌else◌,
}
use mathlib.Core.Path.{subst}
use ntm_os.Prelude.Run.{Run, done, ◌>>=◌}
use ntm_os.Layers.{layer, Screen, put, with_level, shift_up, shift_down, lower, raise}
use ntm_os.Layers.Stack.{
  Shows, Shifted, level-with_level, flags-with_level, other_level, shift_up-Shifted,
  shift_down-Shifted,
}
use ntm_os.Layers.Reorder.{
  source, source_below, source_injective, own_level, at_injective, hidden_apart, place_of,
  Shows-after, reposition,
}

-- The branches of `lower` and `raise`, by positions.
lower_run :
    (p k i : ℕ) (s : Screen)
    → lower p (k + 1) (i + 1) s ≡ (shift_up (k - i) k s >>= λ s'. done (put i (layer p) s'))
unfolding lower
lower_run p k i s =
    let rounds : k + 1 - (i + 1) ≡ k - i = omega arith in
    let from : k + 1 - 1 ≡ k = omega arith in
    let to : i + 1 - 1 ≡ i = omega arith in
    let stays : (i + 1 == 0) ≡ false = ground arith in rw (stays, rounds, from, to) refl

raise_run :
    (p k i : ℕ) (s : Screen)
    → raise p (k + 1) (i + 1) s ≡ (shift_down (i - k) k s >>= λ s'. done (put i (layer p) s'))
unfolding raise
raise_run p k i s =
    let rounds : i + 1 - (k + 1) ≡ i - k = omega arith in
    let from : k + 1 - 1 ≡ k = omega arith in
    let to : i + 1 - 1 ≡ i = omega arith in
    let shown : (k + 1 == 0) ≡ false = ground arith in rw (shown, rounds, from, to) refl

hide_run :
    (p k : ℕ) (s : Screen)
    → lower p (k + 1) 0 s
      ≡ (shift_down (s.top - (k + 1)) k s >>= λ s'. done (record s' { top = s'.top - 1 }))
unfolding lower
hide_run p k s = let from : k + 1 - 1 ≡ k = omega arith in rw from refl

module _ (s : Screen) (at : ℕ → ℕ) (shows : Shows s at) where
  pub lower-Shows :
      (k i : ℕ)
      → k < s.top
      → i < k
      → (s' : Screen) × (lower (at k) (k + 1) (i + 1) (with_level (at k) (i + 1) s) ≡ done s')
        × Shows s' (λ j. at (source k i j))
        × (s'.top ≡ s.top)
  unfolding lower put with_level
  lower-Shows k i hk below =
      let s1 = with_level (at k) (i + 1) s in
      let into : ℕ → ℕ = λ j. at (source k i j) in
      let n = k - i in
      let one_below : (j : ℕ) → i < j → j ≤ k → source k i j ≡ j - 1 = λ j lt le. ground arith in
      let region : k + 1 - n ≡ i + 1 = omega arith in
      let shifted : Shifted s1 into (i + 1) n (shift_up n k s1) =
        subst (λ z. Shifted s1 into z n (shift_up n k s1)) region
          (shift_up-Shifted n k s1 into (omega arith)
            (λ j ge le.
              shows.cells (j - 1) (omega arith)
              ∙ ap (λ a. layer (at a)) (sym (one_below j (omega arith) le)))
            (λ a b ge lt ge' lt' e. source_injective k i a b (
              at_injective s at shows (source k i a) (source k i b)
                (source_below k i s.top a hk (omega arith) (omega arith))
                (source_below k i s.top b hk (omega arith) (omega arith)) e))) in
      (
        put i (layer (at k)) (record s { stack = shifted.stack; layers = shifted.layers }),
        lower_run (at k) k i s1 ∙ ap (λ r. r >>= λ s'. done (put i (layer (at k)) s')) shifted.run,
        reposition s at shows k i (i + 1) n (shift_up n k s1) hk (omega arith) (ground arith)
            (omega arith) (λ j ne out. ground arith) shifted,
        refl,
      )

  pub raise-Shows :
      (k i : ℕ)
      → k < i
      → i < s.top
      → (s' : Screen) × (raise (at k) (k + 1) (i + 1) (with_level (at k) (i + 1) s) ≡ done s')
        × Shows s' (λ j. at (source k i j))
        × (s'.top ≡ s.top)
  unfolding raise put with_level
  raise-Shows k i above hi =
      let s1 = with_level (at k) (i + 1) s in
      let into : ℕ → ℕ = λ j. at (source k i j) in
      let n = i - k in
      let one_above : (j : ℕ) → k ≤ j → j < i → source k i j ≡ j + 1 = λ j le lt. ground arith in
      let shifted =
        shift_down-Shifted n k s1 into
          (λ j ge lt.
            shows.cells (j + 1) (omega arith)
            ∙ ap (λ a. layer (at a)) (sym (one_above j ge (omega arith))))
          (λ a b ge lt ge' lt' e. source_injective k i a b (
            at_injective s at shows (source k i a) (source k i b)
              (source_below k i s.top a (omega arith) hi (omega arith))
              (source_below k i s.top b (omega arith) hi (omega arith)) e)) in
      (
        put i (layer (at k)) (record s { stack = shifted.stack; layers = shifted.layers }),
        raise_run (at k) k i s1 ∙ ap (λ r. r >>= λ s'. done (put i (layer (at k)) s')) shifted.run,
        reposition s at shows k i k n (shift_down n k s1) (omega arith) hi (ground arith)
            (omega arith) (λ j ne out. ground arith) shifted,
        refl,
      )

  -- The layer at position `k` is taken away.
  pub hide-Shows :
      (k : ℕ)
      → k < s.top
      → (s' : Screen) × (lower (at k) (k + 1) 0 (with_level (at k) 0 s) ≡ done s')
        × Shows s' (λ j. at (if leb k j then j + 1 else j))
        × (s'.top ≡ s.top - 1)
  unfolding lower with_level
  hide-Shows k hk =
      let s1 = with_level (at k) 0 s in
      let from : ℕ → ℕ = λ j. if leb k j then j + 1 else j in
      let at' : ℕ → ℕ = λ j. at (from j) in
      let n = s.top - (k + 1) in
      let above : (j : ℕ) → k ≤ j → from j ≡ j + 1 = λ j le. ground arith in
      let from_injective : (a b : ℕ) → from a ≡ from b → a ≡ b = λ a b e. ground arith in
      let from_below : (a : ℕ) → a < s.top - 1 → from a < s.top = λ a lt. ground arith in
      let from_other : (a : ℕ) → from a ≢ k = λ a. ground arith in
      let shifted =
        shift_down-Shifted n k s1 at'
          (λ j ge lt. shows.cells (j + 1) (omega arith) ∙ ap (λ a. layer (at a)) (sym (above j ge)))
          (λ a b ge lt ge' lt' e. from_injective a b (
            at_injective s at shows (from a) (from b) (from_below a (omega arith))
              (from_below b (omega arith)) e)) in
      let s' = record s { stack = shifted.stack; layers = shifted.layers; top = s.top - 1 } in
      let gone : (q : ℕ)
          → ((j : ℕ) → j < s.top → j ≢ k → at j ≢ q)
          → (shifted.layers q).level ≡ (s1.layers q).level =
        λ q apart.
          shifted.same_level q
            (λ j ge lt e. apart (from j) (from_below j (omega arith)) (from_other j) e) in
      let cell : (j : ℕ)
          → j < s.top - 1
          → (b : Bool) → leb k j ≡ b
          → shifted.stack j ≡ layer (at' j) =
        λ j hj b e.
          elim b as (λ b. leb k j ≡ b → shifted.stack j ≡ layer (at' j)) [
            | true ↦ λ e. shifted.moved j (ground arith) (omega arith)
            | false ↦ λ e.
                shifted.same_cell j (ground arith)
                ∙ shows.cells j (omega arith)
                ∙ ap (λ a. layer (at a)) (ground arith)
          ]
            e in
      let level : (j : ℕ)
          → j < s.top - 1
          → (b : Bool) → leb k j ≡ b
          → (shifted.layers (at' j)).level ≡ j + 1 =
        λ j hj b e.
          elim b as (λ b. leb k j ≡ b → (shifted.layers (at' j)).level ≡ j + 1) [
            | true ↦ λ e. shifted.level_moved j (ground arith) (omega arith)
            | false ↦ λ e.
                let here : j ≡ from j = ground arith in
                ap (λ a. (shifted.layers (at a)).level) (sym here)
                ∙ shifted.same_level (at j) (λ a ge lt e.
                  let same : from a ≡ j =
                    at_injective s at shows (from a) j (from_below a (omega arith)) (omega arith)
                      e in
                  ground arith)
                ∙ level-with_level (at k) 0 s (at j)
                ∙ other_level (at k) (at j) 0 (s.layers (at j)).level (λ same.
                  let same' : k ≡ j = at_injective s at shows k j hk (omega arith) same in
                  ground arith)
                ∙ shows.level_at j (omega arith)
          ]
            e in
      (
        s',
        hide_run (at k) k s1
            ∙ ap {A = Run Screen} (λ r. r >>= λ s'. done (record s' { top = s'.top - 1 }))
                shifted.run,
        Shows-after s at shows s' at' (λ q. shifted.same_flags q ∙ flags-with_level (at k) 0 s q)
            (λ j hj. cell j hj (leb k j) refl) (λ j hj. level j hj (leb k j) refl)
            (λ j hj. shows.in_use (from j) (from_below j hj))
            (λ q used. elim (place_of s at shows q used) [
              | inl hidden ↦ inl (
                  gone q (λ j lt ne. hidden_apart s at shows q j hidden lt)
                  ∙ level-with_level (at k) 0 s q
                  ∙ other_level (at k) q 0 (s.layers q).level
                      (hidden_apart s at shows q k hidden hk)
                  ∙ hidden)
              | inr (a, ha, e, level) ↦ elim (Bool-cases (a == k)) [
                | inl here ↦ inl (
                    gone q (λ j lt ne same.
                      ne
                        (at_injective s at shows j k lt hk (same ∙ sym e ∙ ap at (==→eq a k here))))
                    ∙ level-with_level (at k) 0 s q
                    ∙ own_level q (at k) 0 (s.layers q).level (sym e ∙ ap at (==→eq a k here)))
                | inr other ↦
                    let ne : a ≢ k = ==→ne a k other in
                    let back : from (if leb k a then a - 1 else a) ≡ a = ground arith in
                    inr (if leb k a then a - 1 else a, ground arith, ap at back ∙ e)
              ]
            ]),
        refl,
      )
