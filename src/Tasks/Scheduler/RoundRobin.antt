-- ===== src/Tasks/Scheduler/RoundRobin.antt =====
-- `switch_task` schedules the ready tasks in turn.
use ntm_os.Prelude.{
  ℕ, ◌+◌, ◌*◌, ◌<◌, ◌≡◌, ◌≢◌, refl, ap, false, arith, List, [], ◌∷◌, Option, none, some, length,
  ne→==,
}
use ntm_os.Prelude.Chain.{has}
use ntm_os.Prelude.Run.{done}
use ntm_os.KTimer.{TimerControl, max_timers, k_set_timer_time}
use ntm_os.KTimer.Armed.{IsArmed, deadline, place, k_set_timer_time-Set}
use ntm_os.Tasks.{TaskState, n_tss_start_slot_in_gdt}
use ntm_os.Tasks.Scheduler.{
  pop_ready, yield_current, push_ready, run_task, reschedule, tss_selector, rearm, switch_task,
}
use ntm_os.Tasks.Scheduler.ReadyQueue.{
  IsScheduled, requeued, reschedule-IsScheduled, timers-IsScheduled,
}

pub current-reschedule : (s : TaskState) (y : ℕ) → (reschedule s y).current_task ≡ y
unfolding reschedule run_task
current-reschedule s y = refl

id-reschedule : (s : TaskState) (y : ℕ) → (reschedule s y).tss_entry_id ≡ s.tss_entry_id
unfolding reschedule run_task yield_current push_ready pop_ready
id-reschedule s y = ground arith

pub timers-reschedule : (s : TaskState) (y : ℕ) → (reschedule s y).timers ≡ s.timers
unfolding reschedule run_task yield_current push_ready pop_ready
timers-reschedule s y = ground arith

-- What `switch_task` comes to, by the queue it starts from.
abbrev pub Switched : TaskState → List ℕ → TaskState × Option ℕ → Type 0
Switched s [] (s', out) = IsScheduled s' [] × (s'.current_task ≡ s.current_task) × (out ≡ none)
Switched s (y ∷ ys) (s', out) =
    IsScheduled s' (requeued s ys)
    × (s'.current_task ≡ y)
    × (out ≡ some ((n_tss_start_slot_in_gdt + s.tss_entry_id y) * 8))

pub rearm-done :
    (fuel : ℕ) (s : TaskState) (timer : ℕ) (t : TimerControl)
    → k_set_timer_time fuel s.timers timer 1000 ≡ some t
    → rearm fuel s timer ≡ done (record s { timers = t })
unfolding rearm
rearm-done fuel s timer t e = rw e

selector-reschedule :
    (s : TaskState) (y : ℕ)
    → (n_tss_start_slot_in_gdt + (reschedule s y).tss_entry_id (reschedule s y).current_task) * 8
      ≡ (n_tss_start_slot_in_gdt + s.tss_entry_id y) * 8
selector-reschedule s y = rw (current-reschedule s y, id-reschedule s y)

-- With the timers in order and the task switch timer not armed, `switch_task` returns, and arms
-- that timer 1000 ticks ahead. With no ready task the current one goes on. Otherwise the first
-- ready task runs, with its TSS selector, and the one that ran is the last of the queue, unless it
-- is the idle task.
pub switch_task-Switched :
    (fuel : ℕ) (s : TaskState) (timer : ℕ) (xs ts : List ℕ)
    → IsScheduled s xs
    → max_timers < fuel
    → IsArmed s.timers ts
    → length ts < max_timers
    → timer ≢ 0
    → has timer ts ≡ false
    → (s' : TaskState) × (out : Option ℕ) × (switch_task fuel s timer ≡ done (s', out))
      × Switched s xs (s', out)
      × IsArmed s'.timers (place s'.timers.timeout (deadline s.timers 1000) timer ts)
unfolding switch_task tss_selector
switch_task-Switched fuel s timer [] ts is enough armed room nz out =
    let (t, e, set) = k_set_timer_time-Set fuel s.timers timer 1000 ts enough armed room nz out in
    (
      record s { timers = t },
      none,
      rw (is.queue.chain, rearm-done fuel s timer t e) refl,
      (timers-IsScheduled t is, refl, refl),
      set.armed,
    )
switch_task-Switched fuel s timer (y ∷ ys) ts is enough armed room nz out =
    let (t, e, set) = k_set_timer_time-Set fuel s.timers timer 1000 ts enough armed room nz out in
    let (first, ynz, _, _) = is.queue.chain in
    let e' : k_set_timer_time fuel (reschedule s y).timers timer 1000 ≡ some t =
      rw (timers-reschedule s y) e in
    (
      record (reschedule s y) { timers = t },
      some _,
      rw (first, ne→== y 0 ynz, rearm-done fuel (reschedule s y) timer t e') refl,
      (
        timers-IsScheduled t (reschedule-IsScheduled is),
        current-reschedule s y,
        ap some (selector-reschedule s y),
      ),
      set.armed,
    )
