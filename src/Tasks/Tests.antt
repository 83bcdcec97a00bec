-- ===== src/Tasks/Tests.antt =====
-- The tasks at a concrete state.
use ntm_os.Prelude.{
  ℕ, ◌+◌, ◌*◌, ◌≡◌, ◌<◌, inr, false, refl, arith, Option, some, [], ◌∷◌, ◌==◌, if◌then◌else◌, leb,
  ◌-◌,
}
use ntm_os.Prelude.Memory.{Memory, write}
use ntm_os.Prelude.Run.{done}
use ntm_os.KTimer.{TimerControl, k_set_timer_time, walk, with_deadline, link_at}
use ntm_os.KTimer.Armed.{IsArmed, place}
use ntm_os.Tasks.{TaskState, Tss, Status}
use ntm_os.Tasks.Scheduler.{
  switch_task, rearm, reschedule, run_task, yield_current, pop_ready, push_ready, tss_selector,
}
use ntm_os.Tasks.Scheduler.ReadyQueue.{IsScheduled}
use ntm_os.Tasks.Scheduler.RoundRobin.{Switched, switch_task-Switched}
use ntm_os.Tasks.Scheduler.Fairness.{start, switch, switch_task_fair}
use ntm_os.Tasks.Tables.{init_process_management}
use ntm_os.Tasks.Tables.Slots.{Placed, written}
use ntm_os.Tasks.Tables.Loop.{Fresh, init_process_management-Fresh}
use ntm_os.Tasks.Lifecycle.{task_alloc, spawn}
use ntm_os.Tasks.Lifecycle.Slots.{Claimed, task_alloc-Claimed}
use ntm_os.Tasks.Lifecycle.Spawn.{Spawned, spawn-Spawned}

abbrev no_tss : Tss
no_tss = record {
  esp0 = 0;
  ss0 = 0;
  cr3 = 0;
  eip = 0;
  eflags = 0;
  eax = 0;
  ecx = 0;
  edx = 0;
  ebx = 0;
  esp = 0;
  ebp = 0;
  esi = 0;
  edi = 0;
  es = 0;
  cs = 0;
  ss = 0;
  ds = 0;
  fs = 0;
  gs = 0;
  ldtr = 0;
  iopb_offset = 0;
}

-- No timer is armed; the tick is 5.
abbrev idle_timers : TimerControl
idle_timers = record {
  tick = 5;
  next = λ l. 0;
  timeout = λ p. 0;
  user_data = λ p. 0;
  flags = λ p. 0;
  pf = λ p. 0;
}

-- Task 1 runs, tasks 2 and 3 are ready, task 4 is the idle task, and the other slots are unused.
abbrev three_tasks : TaskState
three_tasks = record {
  heap = record { alloc = λ k. 0; bytes = λ a. 0 };
  timers = idle_timers;
  pid = λ p. p;
  ppid = λ p. 0;
  tss_entry_id = λ p. p - 1;
  status = λ p. if p == 1 then Status.running else if leb p 4 then Status.ready else Status.unused;
  tss = λ p. no_tss;
  event_queue = λ p. record { head = 0; tail = 0; full = 0; nodes = [] };
  kern_stack = λ p. 0;
  kern_stack_size = λ p. 0;
  data_stack = λ p. 0;
  console = λ p. 0;
  next = λ l. if l == 0 then 2 else if l == 2 then 3 else 0;
  tail = 3;
  current_task = 1;
  idle_task = 4;
  task_switch_timer = 1;
  next_task_id = 9;
}

three_tasks-IsScheduled : IsScheduled three_tasks (2 ∷ 3 ∷ [])
three_tasks-IsScheduled = record {
  queue = record {
    chain = (refl, omega arith, refl, (refl, omega arith, refl, refl));
    end = refl;
    all_ready = λ p h. ground arith;
  };
  some_task = omega arith;
  is_running = refl;
  apart = refl;
  unlinked = refl;
}

idle_timers-IsArmed : IsArmed idle_timers []
idle_timers-IsArmed = record { chain = refl; sorted = tt; few = omega arith }

switch_task-Switched_example :
    (s' : TaskState) × (out : Option ℕ) × (switch_task 1000 three_tasks 1 ≡ done (s', out))
    × Switched three_tasks (2 ∷ 3 ∷ []) (s', out)
    × IsArmed s'.timers (place s'.timers.timeout 1005 1 [])
switch_task-Switched_example =
    switch_task-Switched 1000 three_tasks 1 (2 ∷ 3 ∷ []) [] three_tasks-IsScheduled (omega arith)
      idle_timers-IsArmed (omega arith) (omega arith) refl

-- With the switch timer armed once, a second switch finds it first in the list.
abbrev rearmed : ℕ → TimerControl
rearmed k = record idle_timers {
  timeout = write (λ p. 0) 1 1005;
  flags = write (λ p. 0) 1 2;
  next = write (write (λ l. 0) 1 0) 0 k;
}

abbrev switched : TaskState
switched = record (reschedule three_tasks 2) { timers = rearmed 1 }

first_switch : switch_task 1000 three_tasks 1 ≡ done (switched, some 136)
unfolding switch_task rearm k_set_timer_time walk with_deadline link_at reschedule run_task
    yield_current pop_ready push_ready tss_selector
first_switch = refl

second_switch : (u : TaskState) × (out : Option ℕ) × (switch_task 1000 switched 2 ≡ done (u, out))
unfolding switch_task rearm k_set_timer_time walk with_deadline link_at reschedule run_task
    yield_current pop_ready push_ready tss_selector write
second_switch = (_, _, refl)

switch_task_fair_example : second_switch.0.current_task ≡ 3
switch_task_fair_example =
    switch_task_fair (2 ∷ []) 3 [] 2 second_switch.1 three_tasks-IsScheduled
      (switch 1 (some 136) start first_switch) second_switch.2

task_alloc-Claimed_example : Claimed three_tasks (task_alloc three_tasks)
task_alloc-Claimed_example = task_alloc-Claimed three_tasks

-- A pointer to a process slot.
abbrev test_address : ℕ → ℕ
test_address p = 0x80180000 + p * 8192

spawn-Spawned_example :
    (s' : TaskState) × (spawn test_address three_tasks 0x80110000 ≡ done s')
    × Spawned test_address three_tasks (2 ∷ 3 ∷ []) 0x80110000 s'
spawn-Spawned_example =
    spawn-Spawned test_address three_tasks (2 ∷ 3 ∷ []) 0x80110000 three_tasks-IsScheduled
      (λ q lo hi. omega arith) (λ q lo hi. omega arith) (omega arith)

abbrev test_slots : ℕ → ℕ
test_slots i = 0x80200000 + i * 9000

test_slots-Placed : Placed test_slots
test_slots-Placed = record {
  below = λ i small. omega arith;
  ordered = λ i j less small. omega arith;
  outside = λ i small. inr (omega arith);
}

init_process_management-Fresh_example :
    (s' : TaskState) × (m' : Memory) × (init_process_management test_slots three_tasks (λ a. 0)
      ≡ done (s', m'))
    × ((i : ℕ) → i < 64 → Fresh test_slots test_slots-Placed i s' m')
    × ((x : ℕ) → ((i : ℕ) → i < 64 → written test_slots i x ≡ false) → m' x ≡ 0)
init_process_management-Fresh_example =
    init_process_management-Fresh test_slots three_tasks (λ a. 0) test_slots-Placed
      (λ x. omega arith)
