-- ===== src/Layers/Stack.antt =====
-- The stack of layers, and the loops that shift it.
use ntm_os.Prelude.{
  ℕ, zero, suc, ◌+◌, ◌-◌, ◌≤◌, ◌<◌, ◌≡◌, ◌≢◌, refl, sym, ap, ◌∙◌, arith, Bool, Bool-cases, true,
  false, ◌==◌, ==→eq, ==→ne, inl, inr, ◌⊎◌, if◌then◌else◌,
}
use mathlib.Core.Path.{subst}
use ntm_os.Prelude.Memory.{update, update_self, update_other, in_range}
use ntm_os.Prelude.Run.{Run, done, ◌>>=◌}
use ntm_os.Drawing.{Layer}
use ntm_os.Layers.{Cell, layer, Screen, put, with_level, place, shift_up, shift_down}

-- `Shows s at`: the layers that are shown are `at 0`, ..., `at (top - 1)`, from the bottom to the
-- top. The stack and the levels of the layers in use say so.
pub record Shows (s : Screen) (at : ℕ → ℕ) : Type 0 where
  pub cells : (z : ℕ) → z < s.top → s.stack z ≡ layer (at z)
  pub level_at : (z : ℕ) → z < s.top → (s.layers (at z)).level ≡ z + 1
  pub in_use : (z : ℕ) → z < s.top → (s.layers (at z)).flags ≢ 0
  pub shown :
      (q : ℕ)
      → (s.layers q).flags ≢ 0
      → (s.layers q).level ≢ 0
      → ((s.layers q).level ≤ s.top) × (at ((s.layers q).level - 1) ≡ q)

-- `Shifted s at into n z r`: the `n` cells from `z` hold the layers `into`, whose levels say so,
-- and nothing else has changed.
pub record Shifted (s : Screen) (into : ℕ → ℕ) (z n : ℕ) (r : Run Screen) : Type 0 where
  pub stack : ℕ → Cell
  pub layers : ℕ → Layer
  pub run : r ≡ done (record s { stack = stack; layers = layers })
  pub moved : (j : ℕ) → z ≤ j → j < z + n → stack j ≡ layer (into j)
  pub same_cell : (j : ℕ) → in_range z n j ≡ false → stack j ≡ s.stack j
  pub level_moved : (j : ℕ) → z ≤ j → j < z + n → (layers (into j)).level ≡ j + 1
  pub same_level :
      (q : ℕ) → ((j : ℕ) → z ≤ j → j < z + n → into j ≢ q) → (layers q).level ≡ (s.layers q).level
  pub same_flags : (q : ℕ) → (layers q).flags ≡ (s.layers q).flags

field_if {ℓ} :
    {A : Type ℓ} (field : Layer → A) (b : Bool) (l k : Layer)
    → field (if b then l else k) ≡ (if b then field l else field k)
field_if field true l k = refl
field_if field false l k = refl

pub level-with_level :
    (p level : ℕ) (s : Screen) (q : ℕ)
    → ((with_level p level s).layers q).level ≡ (if q == p then level else (s.layers q).level)
unfolding with_level update
level-with_level p level s q =
    field_if (λ l. l.level) (q == p) (record (s.layers p) { level = level }) (s.layers q)

same_if : (f : ℕ → ℕ) (p q : ℕ) → (if q == p then f p else f q) ≡ f q
same_if f p q = elim (Bool-cases (q == p)) [
  | inl same ↦ rw same (ap f (sym (==→eq q p same)))
  | inr other ↦ rw other refl
]

pub flags-with_level :
    (p level : ℕ) (s : Screen) (q : ℕ)
    → ((with_level p level s).layers q).flags ≡ (s.layers q).flags
unfolding with_level update
flags-with_level p level s q =
    field_if (λ l. l.flags) (q == p) (record (s.layers p) { level = level }) (s.layers q)
    ∙ same_if (λ r. (s.layers r).flags) p q

pub other_level : (p q new old : ℕ) → p ≢ q → (if q == p then new else old) ≡ old
other_level p q new old ne = ground arith

-- The cell `i` is at one end of the `n + 1` cells from `z`, and the `n` cells from `from` are the
-- others.
pub AtEnd : ℕ → ℕ → ℕ → ℕ → Type 0
AtEnd i from z n = ((i ≡ z) × (from ≡ z + 1)) ⊎ ((i ≡ z + n) × (from ≡ z))

-- After the cell at one end, the others.
place-Shifted :
    (s : Screen) (into : ℕ → ℕ) (i from z n : ℕ) (r : Run Screen)
    → AtEnd i from z n
    → ((j : ℕ) → from ≤ j → j < from + n → into j ≢ into i)
    → Shifted (with_level (into i) (i + 1) (put i (layer (into i)) s)) into from n r
    → Shifted s into z (suc n) r
unfolding put with_level AtEnd
place-Shifted s into i from z n r end apart rest =
    let others : (j : ℕ) → z ≤ j → j < z + suc n → j ≢ i → (from ≤ j) × (j < from + n) =
      λ j ge lt ne. elim end [
        | inl (e, f) ↦ (ground arith, ground arith)
        | inr (e, f) ↦ (ground arith, ground arith)
      ] in
    let inside : in_range from n i ≡ false = elim end [
      | inl (e, f) ↦ ground arith
      | inr (e, f) ↦ ground arith
    ] in
    let covers : (j : ℕ) → in_range z (suc n) j ≡ false → (in_range from n j ≡ false) × (j ≢ i) =
      λ j out. elim end [
        | inl (e, f) ↦ (ground arith, ground arith)
        | inr (e, f) ↦ (ground arith, ground arith)
      ] in
    let own : (z ≤ i)
        × (i < z + suc n)
        × ((j : ℕ) → from ≤ j → j < from + n → (z ≤ j) × (j < z + suc n)) =
      elim end [
        | inl (e, f) ↦ (ground arith, ground arith, λ j ge lt. (ground arith, ground arith))
        | inr (e, f) ↦ (ground arith, ground arith, λ j ge lt. (ground arith, ground arith))
      ] in
    let placed : rest.stack i ≡ layer (into i) =
      rest.same_cell i inside ∙ update_self s.stack i (layer (into i)) in
    let s' = put i (layer (into i)) s in
    let leveled : (rest.layers (into i)).level ≡ i + 1 =
      rest.same_level (into i) apart
      ∙ level-with_level (into i) (i + 1) s' (into i)
      ∙ ground arith in
    record {
      stack = rest.stack;
      layers = rest.layers;
      run = rest.run;
      moved = λ j ge lt. elim (Bool-cases (j == i)) [
        | inl same ↦ subst (λ k. rest.stack k ≡ layer (into k)) (sym (==→eq j i same)) placed
        | inr other ↦
            rest.moved j (others j ge lt (==→ne j i other)).0 (others j ge lt (==→ne j i other)).1
      ];
      same_cell = λ j out.
          rest.same_cell j (covers j out).0
          ∙ update_other s.stack i (layer (into i)) j (covers j out).1;
      level_moved = λ j ge lt. elim (Bool-cases (j == i)) [
        | inl same ↦
            subst (λ k. (rest.layers (into k)).level ≡ k + 1) (sym (==→eq j i same)) leveled
        | inr other ↦
            rest.level_moved j (others j ge lt (==→ne j i other)).0
              (others j ge lt (==→ne j i other)).1
      ];
      same_level = λ q none.
          rest.same_level q (λ j ge lt. none j (own.2 j ge lt).0 (own.2 j ge lt).1)
          ∙ level-with_level (into i) (i + 1) s' q
          ∙ other_level (into i) q (i + 1) (s.layers q).level (none i own.0 own.1);
      same_flags = λ q. rest.same_flags q ∙ flags-with_level (into i) (i + 1) s' q;
    }

none-Shifted : (s : Screen) (into : ℕ → ℕ) (z : ℕ) → Shifted s into z 0 (done s)
none-Shifted s into z = record {
  stack = s.stack;
  layers = s.layers;
  run = refl;
  moved = λ j ge lt. absurd (omega arith);
  same_cell = λ j out. refl;
  level_moved = λ j ge lt. absurd (omega arith);
  same_level = λ q none. refl;
  same_flags = λ q. refl;
}

-- Distinct layers in the `n` cells from `z`.
abbrev pub Distinct : (ℕ → ℕ) → ℕ → ℕ → Type 0
Distinct into z n = (i j : ℕ) → z ≤ i → i < z + n → z ≤ j → j < z + n → into i ≡ into j → i ≡ j

-- The loop `for (; z < nz; z++)` moves the cells above down.
pub shift_down-Shifted :
    (n z : ℕ) (s : Screen) (into : ℕ → ℕ)
    → ((j : ℕ) → z ≤ j → j < z + n → s.stack (j + 1) ≡ layer (into j))
    → Distinct into z n
    → Shifted s into z n (shift_down n z s)
unfolding shift_down place put with_level AtEnd
shift_down-Shifted zero z s into cells distinct = none-Shifted s into z
shift_down-Shifted (suc n) z s into cells distinct =
    let s' = with_level (into z) (z + 1) (put z (layer (into z)) s) in
    let first =
      ap (λ c. place z c s >>= λ s'. shift_down n (z + 1) s')
        (cells z (omega arith) (omega arith)) in
    subst (Shifted s into z (suc n)) (sym first) (
      place-Shifted s into z (z + 1) z n (shift_down n (z + 1) s') (inl (refl, refl))
        (λ j ge lt e.
          let same : j ≡ z =
            distinct j z (omega arith) (omega arith) (omega arith) (omega arith) e in
          absurd (omega arith))
        (shift_down-Shifted n (z + 1) s' into
          (λ j ge lt.
            update_other s.stack z (layer (into z)) (j + 1) (omega arith)
            ∙ cells j (omega arith) (omega arith))
          (λ i j a b c d e.
            distinct i j (omega arith) (omega arith) (omega arith) (omega arith) e)))

-- The loop `for (; z > nz; z--)` moves the cells below up.
pub shift_up-Shifted :
    (n z : ℕ) (s : Screen) (into : ℕ → ℕ)
    → n ≤ z
    → ((j : ℕ) → z + 1 - n ≤ j → j ≤ z → s.stack (j - 1) ≡ layer (into j))
    → Distinct into (z + 1 - n) n
    → Shifted s into (z + 1 - n) n (shift_up n z s)
unfolding shift_up place put with_level AtEnd
shift_up-Shifted zero z s into fits cells distinct = none-Shifted s into (z + 1 - 0)
shift_up-Shifted (suc n) z s into fits cells distinct =
    let s' = with_level (into z) (z + 1) (put z (layer (into z)) s) in
    let first =
      ap (λ c. place z c s >>= λ s'. shift_up n (z - 1) s') (cells z (omega arith) (omega arith)) in
    let same_start : z - 1 + 1 - n ≡ z + 1 - suc n = omega arith in
    subst (Shifted s into (z + 1 - suc n) (suc n)) (sym first) (
      place-Shifted s into z (z + 1 - suc n) (z + 1 - suc n) n (shift_up n (z - 1) s')
        (inr (omega arith, refl))
        (λ j ge lt e.
          let same : j ≡ z =
            distinct j z (omega arith) (omega arith) (omega arith) (omega arith) e in
          absurd (omega arith))
        (subst (λ from. Shifted s' into from n (shift_up n (z - 1) s')) same_start
          (shift_up-Shifted n (z - 1) s' into (omega arith)
            (λ j ge lt.
              update_other s.stack z (layer (into z)) (j - 1) (omega arith)
              ∙ cells j (omega arith) (omega arith))
            (λ i j a b c d e.
              distinct i j (omega arith) (omega arith) (omega arith) (omega arith) e))))
