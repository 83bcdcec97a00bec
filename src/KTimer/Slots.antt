-- ===== src/KTimer/Slots.antt =====
-- The slots of the timer array: `k_timer_alloc` and `k_timer_free`.
use ntm_os.Prelude.{
  ℕ, ◌+◌, ◌*◌, ◌≤◌, ◌<◌, ◌≡◌, ◌≢◌, ◌⊎◌, refl, inl, inr, arith, eq→==, ne→==, ==→eq, ==→ne, ap, ◌==◌,
}
use ntm_os.Prelude.Memory.{write}
use ntm_os.Prelude.Search.{First, find_first-First}
use Prim.Native.Nat.{bit_or}
use ntm_os.KTimer.{TimerControl, max_timers, timer_alloc, hand_out, k_timer_alloc, k_timer_free}

-- The outcomes of an allocation.
abbrev pub Allocated : TimerControl → ℕ × TimerControl → Type 0
Allocated c (p, c') =
    ((p ≡ 0) × (c' ≡ c) × ((q : ℕ) → 1 ≤ q → q < 1 + max_timers → c.flags q ≢ 0))
    ⊎ ((1 ≤ p)
        × (p < 1 + max_timers)
        × (c.flags p ≡ 0)
        × ((q : ℕ) → 1 ≤ q → q < p → c.flags q ≢ 0)
        × (c' ≡ record c { flags = write c.flags p timer_alloc }))

hand_out-Allocated :
    (c : TimerControl) (p : ℕ)
    → First (λ q. c.flags q == 0) 1 max_timers p
    → Allocated c (hand_out c p)
unfolding hand_out
hand_out-Allocated c p (inl (e, all_used)) =
    rw (eq→== p 0 e) (inl (refl, refl, λ q le lt. ==→ne (c.flags q) 0 (all_used q le lt)))
hand_out-Allocated c p (inr (ge, lt, free, first)) =
    let unused = ==→eq (c.flags p) 0 free in
    rw (ne→== p 0 (omega arith)) (
      inr (
        ge,
        lt,
        unused,
        λ q le lt. ==→ne (c.flags q) 0 (first q le lt),
        ap (λ v. record c { flags = write c.flags p (bit_or v timer_alloc) }) unused,
      ))

-- `k_timer_alloc` returns 0 and changes nothing only if every slot has flags; otherwise it returns
-- the first slot without, and sets that slot's flags to `TIMER_ALLOC` and no other.
pub k_timer_alloc-Allocated : (c : TimerControl) → Allocated c (k_timer_alloc c)
unfolding k_timer_alloc
k_timer_alloc-Allocated c =
    hand_out-Allocated c _ (find_first-First (λ q. c.flags q == 0) max_timers 1)

-- `k_timer_free` clears the flags at every pointer from the first slot on up to `MAX_TIMERS` times
-- the size of the array: also past the array's end.
pub k_timer_free_past_end :
    (c : TimerControl) (p : ℕ)
    → max_timers < p
    → p ≤ max_timers * max_timers
    → (k_timer_free c p).flags p ≡ 0
unfolding k_timer_free write
k_timer_free_past_end c p past below = ground arith

free-Allocated :
    (c : TimerControl) (p : ℕ) (c' : TimerControl) (q : ℕ)
    → Allocated c (p, c')
    → p ≢ 0
    → (k_timer_free c' p).flags q ≡ c.flags q
unfolding k_timer_free write
free-Allocated c p c' q (inl (e, _, _)) nz = absurd (nz e)
free-Allocated c p c' q (inr (ge, lt, free, first, e)) nz = rw e (ground arith)

-- Freeing what `k_timer_alloc` returned gives back the flags as they were.
pub k_timer_free-k_timer_alloc :
    (c : TimerControl) (q : ℕ)
    → let (p, c') = k_timer_alloc c in p ≢ 0 → (k_timer_free c' p).flags q ≡ c.flags q
k_timer_free-k_timer_alloc c q =
    free-Allocated c (k_timer_alloc c).0 (k_timer_alloc c).1 q (k_timer_alloc-Allocated c)
