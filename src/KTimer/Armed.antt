-- ===== src/KTimer/Armed.antt =====
-- The armed timers: a list from `g_timer_control.next`, in the order of their deadlines.
use ntm_os.Prelude.{
  ℕ, zero, suc, ◌+◌, ◌%◌, ◌^◌, ◌≤◌, ◌<◌, ◌≡◌, ◌≢◌, refl, sym, ◌∙◌, inl, inr, Bool-cases, true,
  false, ◌||◌, List, [], ◌∷◌, some, arith, ltb, ◌==◌, ne→==, if◌then◌else◌, length,
}
use ntm_os.Prelude.Memory.{write, write_self, write_other}
use ntm_os.Prelude.Chain.{Cells, has, From, From-write, zero-not-has}
use ntm_os.KTimer.{
  TimerControl, walk, with_deadline, link_at, k_set_timer_time, max_timers, timer_using,
}

-- Where a timer with deadline `d` belongs: before the first that is due no earlier.
unfoldable pub place : (ℕ → ℕ) → ℕ → ℕ → List ℕ → List ℕ
place timeout d t [] = t ∷ []
place timeout d t (x ∷ xs) = if ltb (timeout x) d then x ∷ place timeout d t xs else t ∷ x ∷ xs

abbrev pub Sorted : (ℕ → ℕ) → List ℕ → Type 0
Sorted timeout [] = Unit
Sorted timeout (x ∷ []) = Unit
Sorted timeout (x ∷ y ∷ xs) = (timeout x ≤ timeout y) × Sorted timeout (y ∷ xs)

has-place :
    (timeout : ℕ → ℕ) (d t a : ℕ) (xs : List ℕ)
    → has a (place timeout d t xs) ≡ (a == t || has a xs)
unfolding place
has-place timeout d t a [] = refl
has-place timeout d t a (x ∷ xs) = ground (arith, has-place timeout d t a xs)

-- Linking `t` at the cell `l` in front of `xs`.
link-From :
    (next : Cells) (t l : ℕ) (xs : List ℕ)
    → t ≢ 0
    → t ≢ l
    → has l xs ≡ false
    → has t xs ≡ false
    → From next l xs
    → From (write (write next t (next l)) l t) l (t ∷ xs)
link-From next t l [] nz ne self out f = (
  write_self _ l t l refl,
  nz,
  refl,
  write_other _ l t t ne ∙ write_self next t (next l) t refl ∙ f,
)
link-From next t l (x ∷ xs) nz ne self out (e, xnz, apart, rest) = (
  write_self _ l t l refl,
  nz,
  out,
  (
    write_other _ l t t ne ∙ write_self next t (next l) t refl ∙ e,
    xnz,
    apart,
    From-write _ x l t xs (ground arith) (ground arith)
        (From-write next x t (next l) xs (ground arith) (ground arith) rest),
  ),
)

-- A walk from cell `l` ends in a cell of the list, and linking `t` there places it.
walk-place :
    (fuel : ℕ) (next : Cells) (timeout : ℕ → ℕ) (d t l : ℕ) (xs : List ℕ)
    → length xs < fuel
    → t ≢ 0
    → t ≢ l
    → has l xs ≡ false
    → has t xs ≡ false
    → From next l xs
    → (e : ℕ) × (walk fuel next timeout d l ≡ some e)
      × (has e (l ∷ xs) ≡ true)
      × From (write (write next t (next e)) e t) l (place timeout d t xs)
unfolding walk place
walk-place zero next timeout d t l xs fuel nz ne self out f = absurd (omega arith)
walk-place (suc n) next timeout d t l [] fuel nz ne self out f =
    (l, rw f, ground arith, link-From next t l [] nz ne self out f)
walk-place (suc n) next timeout d t l (x ∷ xs) fuel nz ne self out (e, xnz, apart, rest) =
    elim (Bool-cases (ltb (timeout x) d)) [
      | inr stop ↦ (
        l,
        rw (e, stop) (ground arith),
        ground arith,
        rw stop (link-From next t l (x ∷ xs) nz ne self out (e, xnz, apart, rest)),
      )
      | inl later ↦
          let (c, w, inside, chain) =
            walk-place n next timeout d t x xs (omega arith) nz (ground arith) apart (ground arith)
              rest in
          (
            c,
            ground (arith, w),
            ground arith,
            rw later (
              write_other _ c t l (ground arith)
                  ∙ write_other next t (next c) l (λ q. ne (sym q))
                  ∙ e,
              xnz,
              ground (arith, has-place timeout d t x xs),
              chain,
            ),
          )
    ]

Sorted-write :
    (timeout : ℕ → ℕ) (t d : ℕ) (xs : List ℕ)
    → has t xs ≡ false
    → Sorted timeout xs
    → Sorted (write timeout t d) xs
Sorted-write timeout t d [] out s = tt
Sorted-write timeout t d (x ∷ []) out s = tt
Sorted-write timeout t d (x ∷ y ∷ xs) out (le, s) = (
  omega (arith, write_other timeout t d x (ground arith), write_other timeout t d y (ground arith)),
  Sorted-write timeout t d (y ∷ xs) (ground arith) s,
)

Sorted-place :
    (timeout : ℕ → ℕ) (d t : ℕ) (xs : List ℕ)
    → timeout t ≡ d
    → Sorted timeout xs
    → Sorted timeout (place timeout d t xs)
unfolding place
Sorted-place timeout d t [] e s = tt
Sorted-place timeout d t (x ∷ []) e s = ground arith
Sorted-place timeout d t (x ∷ y ∷ xs) e (le, s) =
    ground (arith, Sorted-place timeout d t (y ∷ xs) e s)

length-place :
    (timeout : ℕ → ℕ) (d t : ℕ) (xs : List ℕ) → length (place timeout d t xs) ≡ suc (length xs)
unfolding place
length-place timeout d t [] = refl
length-place timeout d t (x ∷ xs) = ground (arith, length-place timeout d t xs)

pub record IsArmed (c : TimerControl) (xs : List ℕ) : Type 0 where
  pub chain : From c.next 0 xs
  pub sorted : Sorted c.timeout xs
  pub few : length xs ≤ max_timers

-- The deadline that `k_set_timer_time` sets.
abbrev pub deadline : TimerControl → ℕ → ℕ
deadline c t = (t + c.tick) % 2 ^ 32

-- What setting timer `p` to `t` leaves: the new state, with the timer placed by its deadline.
pub record Set (c : TimerControl) (p t : ℕ) (xs : List ℕ) (c' : TimerControl) : Type 0 where
  pub armed : IsArmed c' (place c'.timeout (deadline c t) p xs)
  pub timeouts : c'.timeout ≡ write c.timeout p (deadline c t)
  pub flag : c'.flags ≡ write c.flags p timer_using
  pub same_tick : c'.tick ≡ c.tick

-- `k_set_timer_time` at a timer that is not armed ends, and puts it into the list of armed timers
-- where its deadline belongs; the list stays in order, and no other timeout or flag changes.
pub k_set_timer_time-Set :
    (fuel : ℕ) (c : TimerControl) (p t : ℕ) (xs : List ℕ)
    → max_timers < fuel
    → IsArmed c xs
    → length xs < max_timers
    → p ≢ 0
    → has p xs ≡ false
    → (c' : TimerControl) × (k_set_timer_time fuel c p t ≡ some c') × Set c p t xs c'
unfolding k_set_timer_time with_deadline link_at
k_set_timer_time-Set fuel c p t xs enough armed room nz out =
    let d = deadline c t in
    let timeout' = write c.timeout p d in
    let (e, w, _, chain) =
      walk-place fuel c.next timeout' d p 0 xs (omega arith) nz nz
        (zero-not-has c.next 0 xs armed.chain) out armed.chain in
    (
      link_at (with_deadline c p d) p e,
      rw (ne→== p 0 nz, w),
      record {
        armed = record {
          chain = chain;
          sorted =
              Sorted-place timeout' d p xs (write_self c.timeout p d p refl)
                (Sorted-write c.timeout p d xs out armed.sorted);
          few = omega (arith, length-place timeout' d p xs);
        };
        timeouts = refl;
        flag = refl;
        same_tick = refl;
      },
    )

-- No list at all starts at `g_timer_control.next` once a node points to itself there.
loop-not-From :
    (next : Cells) (p : ℕ) (ys : List ℕ) → next 0 ≡ p → next p ≡ p → p ≢ 0 → ¬ From next 0 ys
loop-not-From next p [] e f nz q = nz (sym e ∙ q)
loop-not-From next p (y ∷ []) e f nz (a, _, _, b) = ground arith
loop-not-From next p (y ∷ z ∷ ys) e f nz (a, _, out, (b, _, _, _)) = ground arith

-- Setting the timer that is first in the list again ends, and makes it its own successor:
-- afterwards no list of timers that ends starts at `g_timer_control.next`.
pub k_set_timer_time_rearmed :
    (fuel : ℕ) (c : TimerControl) (p t : ℕ) (xs : List ℕ)
    → 0 < fuel
    → IsArmed c (p ∷ xs)
    → (c' : TimerControl) × (k_set_timer_time fuel c p t ≡ some c')
      × ((ys : List ℕ) → ¬ From c'.next 0 ys)
unfolding k_set_timer_time with_deadline link_at walk
k_set_timer_time_rearmed zero c p t xs enough armed = absurd (omega arith)
k_set_timer_time_rearmed (suc fuel) c p t xs enough armed =
    let d = deadline c t in
    let (first, nz, _, _) = armed.chain in
    let stop : ltb (write c.timeout p d p) d ≡ false = ground (arith, write_self c.timeout p d p) in
    (
      link_at (with_deadline c p d) p 0,
      rw (ne→== p 0 nz, first, stop) (ground arith),
      λ ys.
          loop-not-From _ p ys (write_self _ 0 p 0 refl)
            (write_other _ 0 p p nz ∙ write_self c.next p (c.next 0) p refl ∙ first) nz,
    )
