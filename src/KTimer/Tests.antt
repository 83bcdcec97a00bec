-- ===== src/KTimer/Tests.antt =====
-- The timers at concrete states.
use ntm_os.Prelude.{ℕ, ◌≡◌, refl, arith, some, [], ◌∷◌, ◌==◌, if◌then◌else◌, List}
use ntm_os.Prelude.Chain.{From}
use ntm_os.KTimer.{TimerControl, k_set_timer_time}
use ntm_os.KTimer.Armed.{IsArmed, Set, place, k_set_timer_time-Set, k_set_timer_time_rearmed}

-- Timer 3 is due at 20 and timer 1 at 50.
abbrev two_armed : TimerControl
two_armed = record {
  tick = 10;
  next = λ l. if l == 0 then 3 else if l == 3 then 1 else 0;
  timeout = λ p. if p == 3 then 20 else 50;
  user_data = λ p. 0;
  flags = λ p. if p == 3 then 2 else if p == 1 then 2 else 0;
  pf = λ p. 0;
}

two_armed-IsArmed : IsArmed two_armed (3 ∷ 1 ∷ [])
two_armed-IsArmed = record {
  chain = (refl, (omega arith), refl, (refl, (omega arith), refl, refl));
  sorted = (omega arith, tt);
  few = omega arith;
}

k_set_timer_time-Set_example :
    (c' : TimerControl) × (k_set_timer_time 1000 two_armed 2 25 ≡ some c')
    × Set two_armed 2 25 (3 ∷ 1 ∷ []) c'
k_set_timer_time-Set_example =
    k_set_timer_time-Set 1000 two_armed 2 25 (3 ∷ 1 ∷ []) (omega arith) two_armed-IsArmed
      (omega arith) (omega arith) refl

placed_between : place two_armed.timeout 35 2 (3 ∷ 1 ∷ []) ≡ 3 ∷ 2 ∷ 1 ∷ []
unfolding place
placed_between = refl

k_set_timer_time_rearmed_example :
    (c' : TimerControl) × (k_set_timer_time 1000 two_armed 3 5 ≡ some c')
    × ((ys : List ℕ) → ¬ From c'.next 0 ys)
k_set_timer_time_rearmed_example =
    k_set_timer_time_rearmed 1000 two_armed 3 5 (1 ∷ []) (omega arith) two_armed-IsArmed
