-- ===== src/Interrupts/Tick.antt =====
-- The whole timer interrupt.
use ntm_os.Prelude.{
  ℕ, ◌<◌, ◌≡◌, ◌≢◌, ◌⊎◌, inl, inr, refl, ap, arith, Bool, Bool-cases, true, false, ◌||◌, List, [],
  ◌∷◌, ◌++◌, Option, none, length, length-append, ltb, ◌==◌, ◌∙◌, if◌then◌else◌,
}
use mathlib.Core.Path.{subst}
use ntm_os.Prelude.Chain.{has, has-append, From}
use ntm_os.Prelude.Run.{done}
use ntm_os.KTimer.{TimerControl, max_timers, k_set_timer_time}
use ntm_os.KTimer.Armed.{IsArmed, k_set_timer_time-Set}
use ntm_os.Tasks.{TaskState}
use ntm_os.Tasks.Scheduler.{switch_task, reschedule, tss_selector}
use ntm_os.Tasks.Scheduler.RoundRobin.{rearm-done, timers-reschedule}
use ntm_os.Interrupts.{Ports, call_pf, count_tick, int20h_handler}
use ntm_os.Interrupts.Due.{Expired, Expired-none}
use ntm_os.Interrupts.Expiry.{expire-Expired}

-- The timers that have left are not among those that are left.
gone-left :
    (cells : ℕ → ℕ) (l x : ℕ) (gone left : List ℕ)
    → From cells l (gone ++ left)
    → has x gone ≡ true
    → has x left ≡ false
gone-left cells l x [] left f h = ground arith
gone-left cells l x (y ∷ ys) left (e, nz, out, rest) h =
    ground (arith, gone-left cells y x ys left rest, has-append y ys left)

some-gone : (x : ℕ) (gone : List ℕ) → has x gone ≡ true → 0 < length gone
some-gone x [] h = ground arith
some-gone x (y ∷ ys) h = omega arith

-- With a timer that is not armed, `switch_task` ends.
switch_task_ends :
    (fuel : ℕ) (s : TaskState) (timer : ℕ) (ts : List ℕ)
    → max_timers < fuel
    → IsArmed s.timers ts
    → length ts < max_timers
    → timer ≢ 0
    → has timer ts ≡ false
    → (u : TaskState × Option ℕ) × (switch_task fuel s timer ≡ done u)
unfolding switch_task
switch_task_ends fuel s timer ts enough armed room nz out =
    let (t, e, set) = k_set_timer_time-Set fuel s.timers timer 1000 ts enough armed room nz out in
    elim (Bool-cases (s.next 0 == 0)) [
      | inl empty ↦ ((record s { timers = t }, none), rw (empty, rearm-done fuel s timer t e) refl)
      | inr some ↦
          let e' : k_set_timer_time fuel (reschedule s (s.next 0)).timers timer 1000
              ≡ Option.some t =
            rw (timers-reschedule s (s.next 0)) e in
          let s' = record (reschedule s (s.next 0)) { timers = t } in
          (
            (s', Option.some (tss_selector s')),
            rw (some, rearm-done fuel (reschedule s (s.next 0)) timer t e') refl,
          )
    ]

call_pf_ends :
    (fuel address : ℕ) (c : TimerControl) (timer : ℕ) (ts : List ℕ) (t : TaskState × Bool)
    → max_timers < fuel
    → IsArmed c ts
    → timer ≢ 0
    → c.pf timer ≡ address
    → Expired c timer ts false t
    → t.1 ≡ true
    → (u : TaskState × Option ℕ) × (call_pf fuel address t.0 ≡ done u)
      × (switch_task fuel t.0 timer ≡ done u)
unfolding call_pf
call_pf_ends fuel address c timer ts t enough armed nz pf e asked =
    let gone : has timer e.gone ≡ true = ground (arith, e.switch) in
    let out : has timer e.left ≡ false =
      gone-left c.next 0 timer e.gone e.left (subst (λ ys. From c.next 0 ys) e.split armed.chain)
        gone in
    let room : length e.left < max_timers = omega (
      arith,
      armed.few,
      length-append e.gone e.left,
      some-gone timer e.gone gone,
      ap length e.split,
    ) in
    let (u, ends) = switch_task_ends fuel t.0 timer e.left enough e.armed room nz out in
    let called : t.0.timers.pf t.0.task_switch_timer ≡ address =
      ap t.0.timers.pf e.same_timer ∙ ap (λ f. f timer) e.pointers ∙ pf in
    let test : (t.0.timers.pf t.0.task_switch_timer == address) ≡ true = ground arith in
    let step : call_pf fuel address t.0 ≡ switch_task fuel t.0 t.0.task_switch_timer =
      rw test refl in
    (u, step ∙ (ap (switch_task fuel t.0) e.same_timer ∙ ends), ends)

-- What the interrupt comes to: no task switch is asked for, or `switch_task` is called.
abbrev pub Switches : ℕ → ℕ → TaskState × Bool → TaskState × Option ℕ → Type 0
Switches fuel timer t u =
    ((t.1 ≡ false) × (u ≡ (t.0, none))) ⊎ ((t.1 ≡ true) × (switch_task fuel t.0 timer ≡ done u))

switch_or_not :
    (fuel address : ℕ) (c : TimerControl) (timer : ℕ) (ts : List ℕ) (t : TaskState × Bool)
    → max_timers < fuel
    → IsArmed c ts
    → timer ≢ 0
    → c.pf timer ≡ address
    → Expired c timer ts false t
    → (u : TaskState × Option ℕ) × ((if t.1 then call_pf fuel address t.0 else done (t.0, none))
        ≡ done u)
      × Switches fuel timer t u
switch_or_not fuel address c timer ts t enough armed nz pf e = elim (Bool-cases t.1) [
  | inl asked ↦
      let (u, called, ends) = call_pf_ends fuel address c timer ts t enough armed nz pf e asked in
      (u, rw asked called, inr (asked, ends))
  | inr not_asked ↦ ((t.0, none), rw not_asked refl, inl (not_asked, refl))
]

ticked : (s : TaskState) (ts : List ℕ) → IsArmed s.timers ts → IsArmed (count_tick s).timers ts
unfolding count_tick
ticked s ts armed = record { chain = armed.chain; sorted = armed.sorted; few = armed.few }

-- No timer is due.
abbrev idle : TaskState → Bool
idle s =
    ((count_tick s).timers.next 0 == 0)
    || ltb (count_tick s).timers.tick ((count_tick s).timers.timeout ((count_tick s).timers.next 0))

idle-stopped :
    (s : TaskState) (ts : List ℕ)
    → IsArmed (count_tick s).timers ts
    → idle s ≡ true
    → (ts ≡ [])
      ⊎ ((x : ℕ) × (xs : List ℕ) × (ts ≡ x ∷ xs)
          × ((count_tick s).timers.tick < (count_tick s).timers.timeout x))
idle-stopped s [] armed h = inl refl
idle-stopped s (x ∷ xs) armed h =
    let (first, nz, _, _) = armed.chain in inr (x, xs, refl, ground arith)

-- With the armed timers in order, a current task, a task switch timer that calls `switch_task`, and
-- fuel above MAX_TIMERS, the timer interrupt returns and acknowledges itself. The timers up to the
-- first that is not due at the new tick have left the list in their order, with their flags reset
-- and linked to nothing, all of them due, and the others are armed as before, unless the heap has
-- no memory for an event. If the task switch timer is among those that left, `switch_task` has
-- returned last; otherwise no task is switched.
pub int20h_handler-Expired :
    (fuel address : ℕ) (s : TaskState) (ports : Ports) (ts : List ℕ)
    → max_timers < fuel
    → IsArmed s.timers ts
    → s.current_task ≢ 0
    → s.task_switch_timer ≢ 0
    → s.timers.pf s.task_switch_timer ≡ address
    → (t : TaskState × Bool) × (u : TaskState × Option ℕ) × (int20h_handler fuel address s ports
        ≡ done (u, (0x20, 0x60) ∷ ports))
      × Expired (count_tick s).timers s.task_switch_timer ts false t
      × Switches fuel s.task_switch_timer t u
unfolding int20h_handler count_tick
int20h_handler-Expired fuel address s ports ts enough armed task nz pf =
    elim (Bool-cases (idle s)) [
      | inl none_due ↦ (
        (count_tick s, false),
        (count_tick s, none),
        rw none_due refl,
        Expired-none (count_tick s).timers s.task_switch_timer ts false (count_tick s) refl refl
            (ticked s ts armed) (inr (idle-stopped s ts (ticked s ts armed) none_due)),
        inl (refl, refl),
      )
      | inr some_due ↦
          let (t, ended, expired) =
            expire-Expired fuel (count_tick s) ts false (omega (arith, armed.few))
              (ticked s ts armed) task in
          let (u, called, switches) =
            switch_or_not fuel address (count_tick s).timers s.task_switch_timer ts t enough
              (ticked s ts armed) nz pf expired in
          (t, u, rw (some_due, ended, called) refl, expired, switches)
    ]
