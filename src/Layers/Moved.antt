-- ===== src/Layers/Moved.antt =====
-- What a move makes of the layers that are shown.
use ntm_os.Prelude.{
  ℕ, ◌+◌, ◌-◌, ◌≤◌, ◌<◌, ◌≡◌, ◌≢◌, refl, sym, ap, ap₂, ◌∙◌, arith, Bool, Bool-cases, true, false,
  ◌&&◌, leb, ltb, ◌==◌, ==→eq, ==→ne, ne→==, inl, inr, ◌⊎◌, if◌then◌else◌,
}
use mathlib.Core.Path.{subst}
use ntm_os.Prelude.Memory.{update, update_self, update_other}
use ntm_os.Prelude.Run.{Run, done}
use ntm_os.Layers.{layer, Screen, put, with_level, open_gap, lower, raise, move_level}
use ntm_os.Layers.Stack.{Shows, level-with_level, flags-with_level, other_level}
use ntm_os.Layers.Reorder.{source, own_level, hidden_apart, place_of, Shows-after}
use ntm_os.Layers.Moves.{lower-Shows, raise-Shows, hide-Shows}

-- The layers that are shown after the layer `p` has gone from level `old` to level `new`, of `top`
-- layers `at` from the bottom to the top: it is added at the top, taken out, or put elsewhere.
abbrev pub after : ℕ → ℕ → ℕ → ℕ → (ℕ → ℕ) → ℕ → ℕ
after p old new top at j =
    if old == 0
    then if (new == top + 1) && (j == top) then p else at j
    else if new == 0
    then at (if leb (old - 1) j then j + 1 else j)
    else at (source (old - 1) (new - 1) j)

abbrev pub top_after : ℕ → ℕ → ℕ → ℕ
top_after old new top =
    if old == 0 then if new == 0 then top else top + 1 else if new == 0 then top - 1 else top

Shows-ext :
    (s : Screen) (at at' : ℕ → ℕ) → ((j : ℕ) → j < s.top → at j ≡ at' j) → Shows s at → Shows s at'
Shows-ext s at at' same shows = record {
  cells = λ z lt. shows.cells z lt ∙ ap layer (same z lt);
  level_at = λ z lt. ap (λ q. (s.layers q).level) (sym (same z lt)) ∙ shows.level_at z lt;
  in_use = λ z lt e. shows.in_use z lt (ap (λ q. (s.layers q).flags) (same z lt) ∙ e);
  shown = λ q used level.
      let (le, e) = shows.shown q used level in
      (le, sym (same ((s.layers q).level - 1) (omega arith)) ∙ e);
}

pub move_level_branch :
    (p old new : ℕ) (s : Screen) (a b : Bool)
    → ltb new old ≡ a
    → ltb old new ≡ b
    → move_level p old new s
      ≡ (if a then lower p old new s else if b then raise p old new s else done s)
unfolding move_level
move_level_branch p old new s a b e f =
    ap₂ (λ a b. if a then lower p old new s else if b then raise p old new s else done s) e f

after_hide :
    (p k top : ℕ) (at : ℕ → ℕ) (j : ℕ)
    → after p (k + 1) 0 top at j ≡ at (if leb k j then j + 1 else j)
after_hide p k top at j =
    let shown : (k + 1 == 0) ≡ false = ground arith in
    let back : k + 1 - 1 ≡ k = omega arith in rw (shown, back) refl

after_move :
    (p k i top : ℕ) (at : ℕ → ℕ) (j : ℕ) → after p (k + 1) (i + 1) top at j ≡ at (source k i j)
after_move p k i top at j =
    let shown : (k + 1 == 0) ≡ false = ground arith in
    let stays : (i + 1 == 0) ≡ false = ground arith in
    let from : k + 1 - 1 ≡ k = omega arith in
    let to : i + 1 - 1 ≡ i = omega arith in rw (shown, stays, from, to) refl

-- The moves that the code makes: between shown positions, to the top, and away.
unfoldable pub Possible : ℕ → ℕ → ℕ → Type 0
Possible old new top = ((old ≢ 0) × (new ≤ top)) ⊎ ((old ≡ 0) × ((new ≡ 0) ⊎ (new ≡ top + 1)))

module _ (s : Screen) (at : ℕ → ℕ) (shows : Shows s at) where
  -- `Moved p old new`: the move returns, and the screen shows what it should.
  unfoldable pub Moved : ℕ → ℕ → ℕ → Type 0
  Moved p old new =
      (s' : Screen) × (move_level p old new (with_level p new s) ≡ done s')
      × Shows s' (after p old new s.top at)
      × (s'.top ≡ top_after old new s.top)

  -- A hidden layer appears at the top.
  show-Shows :
      (p : ℕ)
      → (s.layers p).flags ≢ 0
      → (s.layers p).level ≡ 0
      → (s' : Screen) × (raise p 0 (s.top + 1) (with_level p (s.top + 1) s) ≡ done s')
        × Shows s' (λ j. if j == s.top then p else at j)
        × (s'.top ≡ s.top + 1)
  unfolding raise put with_level open_gap
  show-Shows p used hidden =
      let s1 = with_level p (s.top + 1) s in
      let at' : ℕ → ℕ = λ j. if j == s.top then p else at j in
      let lift : Screen = put s.top (layer p) s1 in
      let s' : Screen = record lift { top = s.top + 1 } in
      let at_here : (z : ℕ) → z ≡ s.top → at' z ≡ p = λ z e. ground arith in
      let at_other : (z : ℕ) → z ≢ s.top → at' z ≡ at z = λ z ne. ground arith in
      let level_of : (q : ℕ)
          → (s1.layers q).level ≡ (if q == p then s.top + 1 else (s.layers q).level) =
        level-with_level p (s.top + 1) s in
      let no_rounds : s.top + 1 - (s.top + 1) ≡ 0 = omega arith in
      let at_top : s.top + 1 - 1 ≡ s.top = omega arith in
      (
        s',
        ap₂
            (λ z n.
              let s2 = put z (layer p) (open_gap n (s.top - 1) s1) in
              done (record s2 { top = s2.top + 1 }))
            at_top no_rounds,
        Shows-after s at shows s' at' (flags-with_level p (s.top + 1) s)
            (λ z lt. elim (Bool-cases (z == s.top)) [
              | inl here ↦
                  ap (update s.stack s.top (layer p)) (==→eq z s.top here)
                  ∙ update_self s.stack s.top (layer p)
                  ∙ ap layer (sym (at_here z (==→eq z s.top here)))
              | inr other ↦
                  let ne : z ≢ s.top = ==→ne z s.top other in
                  update_other s.stack s.top (layer p) z ne
                  ∙ shows.cells z (omega arith)
                  ∙ ap layer (sym (at_other z ne))
            ])
            (λ z lt. elim (Bool-cases (z == s.top)) [
              | inl here ↦
                  ap (λ q. (s1.layers q).level) (at_here z (==→eq z s.top here))
                  ∙ level_of p
                  ∙ own_level p p (s.top + 1) (s.layers p).level refl
                  ∙ ap (λ a. a + 1) (sym (==→eq z s.top here))
              | inr other ↦
                  let ne : z ≢ s.top = ==→ne z s.top other in
                  ap (λ q. (s1.layers q).level) (at_other z ne)
                  ∙ level_of (at z)
                  ∙ other_level p (at z) (s.top + 1) (s.layers (at z)).level
                      (λ e. hidden_apart s at shows p z hidden (omega arith) (sym e))
                  ∙ shows.level_at z (omega arith)
            ])
            (λ z lt. elim (Bool-cases (z == s.top)) [
              | inl here ↦ λ e.
                  used (ap (λ q. (s.layers q).flags) (sym (at_here z (==→eq z s.top here))) ∙ e)
              | inr other ↦
                  let ne : z ≢ s.top = ==→ne z s.top other in
                  λ e.
                    shows.in_use z (omega arith)
                      (ap (λ q. (s.layers q).flags) (sym (at_other z ne)) ∙ e)
            ])
            (λ q used_q. elim (place_of s at shows q used_q) [
              | inl away ↦ elim (Bool-cases (q == p)) [
                | inl same ↦ inr (s.top, omega arith, at_here s.top refl ∙ sym (==→eq q p same))
                | inr other ↦ inl (
                    level_of q
                    ∙ other_level p q (s.top + 1) (s.layers q).level (λ e. ==→ne q p other (sym e))
                    ∙ away)
              ]
              | inr (a, ha, e, level) ↦ inr (
                a,
                omega arith,
                ap (λ b. if b then p else at a) (ne→== a s.top (omega arith)) ∙ e,
              )
            ]),
        refl,
      )

  hide-Moved : (k : ℕ) → k < s.top → Moved (at k) (k + 1) 0
  unfolding move_level Moved
  hide-Moved k hk =
      let (s', e, shows', top) = hide-Shows s at shows k hk in
      let s1 = with_level (at k) 0 s in
      let down : ltb 0 (k + 1) ≡ true = ground arith in
      let shown : (k + 1 == 0) ≡ false = ground arith in
      (
        s',
        ap
              (λ b.
                if b
                then lower (at k) (k + 1) 0 s1
                else if ltb (k + 1) 0
                then raise (at k) (k + 1) 0 s1
                else done s1)
              down
            ∙ e,
        Shows-ext s' (λ j. at (if leb k j then j + 1 else j)) (after (at k) (k + 1) 0 s.top at)
            (λ j lt. sym (after_hide (at k) k s.top at j)) shows',
        top ∙ sym (ap (λ b. if b then s.top else s.top - 1) shown),
      )

  -- From a level to another one, by the move `r`.
  to-Moved :
      (k i : ℕ) (r : Run Screen)
      → move_level (at k) (k + 1) (i + 1) (with_level (at k) (i + 1) s) ≡ r
      → (s' : Screen) × (r ≡ done s') × Shows s' (λ j. at (source k i j)) × (s'.top ≡ s.top)
      → Moved (at k) (k + 1) (i + 1)
  unfolding Moved
  to-Moved k i r branch (s', e, shows', top) = (
    s',
    branch ∙ e,
    Shows-ext s' (λ j. at (source k i j)) (after (at k) (k + 1) (i + 1) s.top at)
        (λ j lt. sym (after_move (at k) k i s.top at j)) shows',
    top ∙ ground arith,
  )

  -- To the level that the layer has.
  keep-Shows : (p level : ℕ) → (s.layers p).level ≡ level → Shows (with_level p level s) at
  unfolding with_level
  keep-Shows p level is =
      let s' = with_level p level s in
      let same : (q : ℕ) → (s'.layers q).level ≡ (s.layers q).level = λ q.
        level-with_level p level s q ∙ elim (Bool-cases (q == p)) [
          | inl here ↦
              own_level q p level (s.layers q).level (==→eq q p here)
              ∙ sym (ap (λ q. (s.layers q).level) (==→eq q p here) ∙ is)
          | inr other ↦ ap (λ b. if b then level else (s.layers q).level) other
        ] in
      Shows-after s at shows s' at (flags-with_level p level s) shows.cells
        (λ z lt. same (at z) ∙ shows.level_at z lt) shows.in_use
        (λ q used. elim (place_of s at shows q used) [
          | inl away ↦ inl (same q ∙ away)
          | inr (a, ha, e, _) ↦ inr (a, ha, e)
        ])

  move-Moved : (k i : ℕ) → k < s.top → i < s.top → Moved (at k) (k + 1) (i + 1)
  unfolding with_level
  move-Moved k i hk hi =
      let s1 = with_level (at k) (i + 1) s in
      let branch = move_level_branch (at k) (k + 1) (i + 1) s1 in
      elim (Bool-cases (ltb i k)) [
        | inl below ↦
            to-Moved k i (lower (at k) (k + 1) (i + 1) s1)
              (branch true false (ground arith) (ground arith))
              (lower-Shows s at shows k i hk (ground arith))
        | inr not_below ↦ elim (Bool-cases (ltb k i)) [
          | inl above ↦
              to-Moved k i (raise (at k) (k + 1) (i + 1) s1)
                (branch false true (ground arith) (ground arith))
                (raise-Shows s at shows k i (ground arith) hi)
          | inr not_above ↦
              let same : i ≡ k = ground arith in
              let level : (s.layers (at k)).level ≡ i + 1 =
                shows.level_at k hk ∙ ap (λ a. a + 1) (sym same) in
              to-Moved k i (done s1) (branch false false (ground arith) (ground arith)) (
                s1,
                refl,
                Shows-ext s1 at (λ j. at (source k i j)) (λ j lt. ap at (ground arith))
                    (keep-Shows (at k) (i + 1) level),
                refl,
              )
        ]
      ]

  away-Moved : (p : ℕ) → (s.layers p).level ≡ 0 → Moved p 0 0
  unfolding move_level Moved with_level
  away-Moved p hidden = (
    with_level p 0 s,
    refl,
    Shows-ext (with_level p 0 s) at (after p 0 0 s.top at) (λ j lt. ground arith)
        (keep-Shows p 0 hidden),
    refl,
  )

  show-Moved : (p : ℕ) → (s.layers p).flags ≢ 0 → (s.layers p).level ≡ 0 → Moved p 0 (s.top + 1)
  unfolding Moved
  show-Moved p used hidden =
      let (s', e, shows', top) = show-Shows p used hidden in
      (
        s',
        move_level_branch p 0 (s.top + 1) (with_level p (s.top + 1) s) false true (ground arith)
              (ground arith)
            ∙ e,
        Shows-ext s' (λ j. if j == s.top then p else at j) (after p 0 (s.top + 1) s.top at)
            (λ j lt. ground arith) shows',
        top ∙ ground arith,
      )

  pub Possible-Moved :
      (p new : ℕ)
      → (s.layers p).flags ≢ 0
      → Possible (s.layers p).level new s.top
      → Moved p (s.layers p).level new
  unfolding Possible
  Possible-Moved p new used (inr (hidden, inl gone)) =
      subst (λ n. Moved p (s.layers p).level n) (sym gone)
        (subst (λ o. Moved p o 0) (sym hidden) (away-Moved p hidden))
  Possible-Moved p new used (inr (hidden, inr top)) =
      subst (λ n. Moved p (s.layers p).level n) (sym top)
        (subst (λ o. Moved p o (s.top + 1)) (sym hidden) (show-Moved p used hidden))
  Possible-Moved p new used (inl (shown, le)) = elim (place_of s at shows p used) [
    | inl hidden ↦ absurd (shown hidden)
    | inr (k, hk, e, level) ↦
        let from : Moved (at k) (k + 1) new = elim (Bool-cases (new == 0)) [
          | inl gone ↦
              subst (λ n. Moved (at k) (k + 1) n) (sym (==→eq new 0 gone)) (hide-Moved k hk)
          | inr some ↦
              let ne : new ≢ 0 = ==→ne new 0 some in
              let back : new - 1 + 1 ≡ new = omega arith in
              subst (λ n. Moved (at k) (k + 1) n) back (move-Moved k (new - 1) hk (omega arith))
        ] in
        subst (λ o. Moved p o new) (sym level) (subst (λ q. Moved q (k + 1) new) e from)
  ]
