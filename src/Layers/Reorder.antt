-- ===== src/Layers/Reorder.antt =====
-- The order of the layers that are shown, and what makes a screen show another order.
use ntm_os.Prelude.{
  ℕ, ◌+◌, ◌-◌, ◌≤◌, ◌<◌, ◌≡◌, ◌≢◌, refl, sym, ap, ◌∙◌, arith, Bool, Bool-cases, true, false, ◌&&◌,
  leb, ltb, ◌==◌, ==→eq, ==→ne, inl, inr, ◌⊎◌, if◌then◌else◌,
}
use ntm_os.Prelude.Memory.{update, update_self, update_other, in_range}
use ntm_os.Prelude.Run.{Run}
use ntm_os.Layers.{layer, Screen, put, with_level}
use ntm_os.Layers.Stack.{Shows, Shifted, level-with_level, flags-with_level, other_level}

-- Where the layer at position `j` was, when the one at position `k` has moved to position `i`.
abbrev pub source : ℕ → ℕ → ℕ → ℕ
source k i j =
    if j == i
    then k
    else if ltb i j && leb j k
    then j - 1
    else if leb k j && ltb j i
    then j + 1
    else j

source_back : (k i j : ℕ) → source k i (source i k j) ≡ j
source_back k i j = ground arith

pub source_below : (k i n j : ℕ) → k < n → i < n → j < n → source k i j < n
source_below k i n j hk hi hj = ground arith

source_at : (k i : ℕ) → source k i i ≡ k
source_at k i = ground arith

pub source_injective : (k i a b : ℕ) → source k i a ≡ source k i b → a ≡ b
source_injective k i a b e = sym (source_back i k a) ∙ ap (source i k) e ∙ source_back i k b

pub own_level : (q p new old : ℕ) → q ≡ p → (if q == p then new else old) ≡ new
own_level q p new old e = ground arith

module _ (s : Screen) (at : ℕ → ℕ) (shows : Shows s at) where
  pub at_injective : (i j : ℕ) → i < s.top → j < s.top → at i ≡ at j → i ≡ j
  at_injective i j hi hj e =
      let same : i + 1 ≡ j + 1 =
        sym (shows.level_at i hi) ∙ ap (λ q. (s.layers q).level) e ∙ shows.level_at j hj in
      omega arith

  pub hidden_apart : (q j : ℕ) → (s.layers q).level ≡ 0 → j < s.top → at j ≢ q
  hidden_apart q j hidden hj e =
      let level : j + 1 ≡ 0 = sym (shows.level_at j hj) ∙ ap (λ r. (s.layers r).level) e ∙ hidden in
      absurd (omega arith)

  -- A layer in use is hidden, or shown somewhere.
  pub place_of :
      (q : ℕ)
      → (s.layers q).flags ≢ 0
      → ((s.layers q).level ≡ 0)
        ⊎ ((i : ℕ) × (i < s.top) × (at i ≡ q) × ((s.layers q).level ≡ i + 1))
  place_of q used = elim (Bool-cases ((s.layers q).level == 0)) [
    | inl hidden ↦ inl (==→eq (s.layers q).level 0 hidden)
    | inr level ↦
        let (le, e) = shows.shown q used (==→ne (s.layers q).level 0 level) in
        let some_level : (s.layers q).level ≢ 0 = ==→ne (s.layers q).level 0 level in
        inr ((s.layers q).level - 1, omega arith, e, omega arith)
  ]

  -- What makes a screen show `at'`, when the layers in use are those of `s`.
  pub Shows-after :
      (s' : Screen) (at' : ℕ → ℕ)
      → ((q : ℕ) → (s'.layers q).flags ≡ (s.layers q).flags)
      → ((z : ℕ) → z < s'.top → s'.stack z ≡ layer (at' z))
      → ((z : ℕ) → z < s'.top → (s'.layers (at' z)).level ≡ z + 1)
      → ((z : ℕ) → z < s'.top → (s.layers (at' z)).flags ≢ 0)
      → ((q : ℕ)
          → (s.layers q).flags ≢ 0
          → ((s'.layers q).level ≡ 0) ⊎ ((i : ℕ) × (i < s'.top) × (at' i ≡ q)))
      → Shows s' at'
  Shows-after s' at' flags cells levels used place' = record {
    cells = cells;
    level_at = levels;
    in_use = λ z lt e. used z lt (sym (flags (at' z)) ∙ e);
    shown = λ q used_q level. elim (place' q (λ e. used_q (flags q ∙ e))) [
      | inl hidden ↦ absurd (level hidden)
      | inr (i, lt, e) ↦
          let at_i : (s'.layers q).level ≡ i + 1 =
            ap (λ r. (s'.layers r).level) (sym e) ∙ levels i lt in
          (omega arith, ap (λ k. at' (k - 1)) at_i ∙ ap at' (omega arith) ∙ e)
    ];
  }

  -- After the cells between the two positions have been shifted.
  pub reposition :
      (k i z n : ℕ) (r : Run Screen)
      → k < s.top
      → i < s.top
      → in_range z n i ≡ false
      → z + n ≤ s.top
      → ((j : ℕ) → j ≢ i → in_range z n j ≡ false → source k i j ≡ j)
      → (shifted : Shifted (with_level (at k) (i + 1) s) (λ j. at (source k i j)) z n r)
      → Shows
          (put i (layer (at k)) (record s { stack = shifted.stack; layers = shifted.layers }))
          (λ j. at (source k i j))
  unfolding put with_level
  reposition k i z n r hk hi out fits fixed shifted =
      let p = at k in
      let at' : ℕ → ℕ = λ j. at (source k i j) in
      let flags : (q : ℕ) → (shifted.layers q).flags ≡ (s.layers q).flags =
        λ q. shifted.same_flags q ∙ flags-with_level p (i + 1) s q in
      let at_i : at' i ≡ p = ap at (source_at k i) in
      let apart : (a b : ℕ) → a < s.top → b < s.top → at' a ≡ at' b → a ≡ b = λ a b ha hb e.
        source_injective k i a b (
          at_injective (source k i a) (source k i b) (source_below k i s.top a hk hi ha)
            (source_below k i s.top b hk hi hb) e) in
      let still : (j : ℕ)
          → j < s.top
          → in_range z n j ≡ false
          → (shifted.layers (at' j)).level ≡ ((with_level p (i + 1) s).layers (at' j)).level =
        λ j hj outside.
          shifted.same_level (at' j)
            (λ a ge lt e. let same : a ≡ j = apart a j (omega arith) hj e in ground arith) in
      let cell : (j : ℕ)
          → j < s.top
          → j ≢ i
          → (b : Bool) → in_range z n j ≡ b
          → shifted.stack j ≡ layer (at' j) =
        λ j hj ne b e.
          elim b as (λ b. in_range z n j ≡ b → shifted.stack j ≡ layer (at' j)) [
            | true ↦ λ e. shifted.moved j (ground arith) (ground arith)
            | false ↦ λ e.
                shifted.same_cell j e
                ∙ shows.cells j hj
                ∙ ap (λ a. layer (at a)) (sym (fixed j ne e))
          ]
            e in
      let level : (j : ℕ)
          → j < s.top
          → j ≢ i
          → (b : Bool) → in_range z n j ≡ b
          → (shifted.layers (at' j)).level ≡ j + 1 =
        λ j hj ne b e.
          elim b as (λ b. in_range z n j ≡ b → (shifted.layers (at' j)).level ≡ j + 1) [
            | true ↦ λ e. shifted.level_moved j (ground arith) (ground arith)
            | false ↦ λ e.
                still j hj e
                ∙ level-with_level p (i + 1) s (at' j)
                ∙ other_level p (at' j) (i + 1) (s.layers (at' j)).level
                    (λ same. ne (sym (apart i j hi hj (at_i ∙ same))))
                ∙ ap (λ a. (s.layers (at a)).level) (fixed j ne e)
                ∙ shows.level_at j hj
          ]
            e in
      let s' = put i (layer p) (record s { stack = shifted.stack; layers = shifted.layers }) in
      Shows-after s' at' flags
        (λ j hj. elim (Bool-cases (j == i)) [
          | inl here ↦
              ap (update shifted.stack i (layer p)) (==→eq j i here)
              ∙ update_self shifted.stack i (layer p)
              ∙ ap layer (sym at_i ∙ ap at' (sym (==→eq j i here)))
          | inr other ↦
              update_other shifted.stack i (layer p) j (==→ne j i other)
              ∙ cell j hj (==→ne j i other) (in_range z n j) refl
        ])
        (λ j hj. elim (Bool-cases (j == i)) [
          | inl here ↦
              let own : (shifted.layers (at' i)).level ≡ i + 1 =
                still i hi out
                ∙ level-with_level p (i + 1) s (at' i)
                ∙ own_level (at' i) p (i + 1) (s.layers (at' i)).level at_i in
              ap (λ a. (shifted.layers (at' a)).level) (==→eq j i here)
              ∙ own
              ∙ ap (λ a. a + 1) (sym (==→eq j i here))
          | inr other ↦ level j hj (==→ne j i other) (in_range z n j) refl
        ])
        (λ j hj. shows.in_use (source k i j) (source_below k i s.top j hk hi hj))
        (λ q used. elim (place_of q used) [
          | inl hidden ↦ inl (
              shifted.same_level q (λ j ge lt e.
                hidden_apart q (source k i j) hidden (source_below k i s.top j hk hi (omega arith))
                  e)
              ∙ level-with_level p (i + 1) s q
              ∙ other_level p q (i + 1) (s.layers q).level (hidden_apart q k hidden hk)
              ∙ hidden)
          | inr (a, ha, e, level) ↦
              inr (source i k a, source_below i k s.top a hi hk ha, ap at (source_back k i a) ∙ e)
        ])
