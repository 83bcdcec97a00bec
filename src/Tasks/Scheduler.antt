-- ===== src/Tasks/Scheduler.antt =====
-- `put_task_to_ready` and `switch_task` of tasks.c.
pub mod ReadyQueue
pub mod RoundRobin
pub mod Fairness
use ntm_os.Prelude.{ℕ, ◌+◌, ◌*◌, Option, none, some, ◌==◌, if◌then◌else◌}
use ntm_os.Prelude.Memory.{write, update}
use ntm_os.Prelude.Run.{Run, done, ◌>>=◌, from_loop}
use ntm_os.KTimer.{k_set_timer_time}
use ntm_os.Tasks.{TaskState, Status, ready, running, n_tss_start_slot_in_gdt}

-- `*g_ready_task_queue_tail_pointer = task; g_ready_task_queue_tail_pointer = &task->next;`
unfoldable pub push_ready : TaskState → ℕ → TaskState
push_ready s p = record s { next = write s.next s.tail p; tail = p }

unfoldable pub put_task_to_ready : TaskState → ℕ → TaskState
put_task_to_ready s p =
    if p == 0 then s else push_ready (record s { status = update s.status p ready }) p

-- The first ready task leaves the queue.
unfoldable pub pop_ready : TaskState → ℕ → TaskState
pop_ready s p = record s {
  next = write s.next 0 (s.next p);
  tail = if s.next p == 0 then 0 else s.tail;
}

-- The current task goes back to the queue, unless it is the idle task.
unfoldable pub yield_current : TaskState → TaskState
yield_current s =
    let s' = record s { status = update s.status s.current_task ready } in
    if s.current_task == s.idle_task then s' else push_ready s' s.current_task

-- The task `p` becomes the running one.
unfoldable pub run_task : TaskState → ℕ → TaskState
run_task s p = record s {
  status = update s.status p running;
  next = write s.next p 0;
  current_task = p;
}

-- From the choice of the task to `g_current_task = sched_task`.
unfoldable pub reschedule : TaskState → ℕ → TaskState
reschedule s p = run_task (yield_current (pop_ready s p)) p

-- `(N_TSS_START_SLOT_IN_GDT + g_current_task->tss_entry_id) << 3`
unfoldable pub tss_selector : TaskState → ℕ
tss_selector s = (n_tss_start_slot_in_gdt + s.tss_entry_id s.current_task) * 8

-- `k_set_timer_time(timer, 1000)`, with the fuel of the walk over the armed timers.
unfoldable pub rearm : ℕ → TaskState → ℕ → Run TaskState
rearm fuel s timer = do
  timers' ← from_loop (k_set_timer_time fuel s.timers timer 1000)
  done (record s { timers = timers' })

-- The new state, and the TSS selector that `_switch_task` is called with, if it is.
unfoldable pub switch_task : ℕ → TaskState → ℕ → Run (TaskState × Option ℕ)
switch_task fuel s timer =
    let p = s.next 0 in
    if p == 0
    then (do s' ← rearm fuel s timer; done (s', none))
    else (do s' ← rearm fuel (reschedule s p) timer; done (s', some (tss_selector s')))
