-- ===== src/Interrupts/Tests.antt =====
-- The interrupts at a concrete state.
use ntm_os.Prelude.{
  ℕ, ◌-◌, ◌≡◌, ◌≢◌, refl, arith, Bool, false, Option, [], ◌∷◌, replicate, length-replicate, ◌==◌,
  if◌then◌else◌,
}
use ntm_os.Prelude.Run.{done}
use ntm_os.KHeap.Free.{IsHeap}
use ntm_os.EventQueue.{n_nodes}
use ntm_os.EventQueue.Inv.{IsValid}
use ntm_os.KTimer.Armed.{IsArmed}
use ntm_os.Keyboard.{event_char}
use ntm_os.Tasks.{TaskState, Tss, Status}
use ntm_os.Interrupts.{count_tick, int20h_handler, int21h_handler, keyboard_event}
use ntm_os.Interrupts.Events.{Posted, int21h_handler-Posted}
use ntm_os.Interrupts.Due.{Expired}
use ntm_os.Interrupts.Tick.{Switches, int20h_handler-Expired}

abbrev no_tss : Tss
no_tss = record {
  esp0 = 0;
  ss0 = 0;
  cr3 = 0;
  eip = 0;
  eflags = 0;
  eax = 0;
  ecx = 0;
  edx = 0;
  ebx = 0;
  esp = 0;
  ebp = 0;
  esi = 0;
  edi = 0;
  es = 0;
  cs = 0;
  ss = 0;
  ds = 0;
  fs = 0;
  gs = 0;
  ldtr = 0;
  iopb_offset = 0;
}

-- Task 1 runs. Timers 3 and 1 are due at 20 and 50, and the tick is 30; timer 5 switches tasks, and 77 stands for
-- the function `switch_task`.
abbrev running_task : TaskState
running_task = record {
  heap = record { alloc = λ k. 0; bytes = λ a. 0 };
  timers = record {
    tick = 30;
    next = λ l. if l == 0 then 3 else if l == 3 then 1 else 0;
    timeout = λ p. if p == 3 then 20 else 50;
    user_data = λ p. 0;
    flags = λ p. if p == 3 then 2 else if p == 1 then 2 else 0;
    pf = λ p. 77;
  };
  pid = λ p. p;
  ppid = λ p. 0;
  tss_entry_id = λ p. p - 1;
  status = λ p. if p == 1 then Status.running else Status.unused;
  tss = λ p. no_tss;
  event_queue = λ p. record { head = 0; tail = 0; full = 0; nodes = replicate n_nodes 0 };
  kern_stack = λ p. 0;
  kern_stack_size = λ p. 0;
  data_stack = λ p. 0;
  console = λ p. 0;
  next = λ l. 0;
  tail = 0;
  current_task = 1;
  idle_task = 4;
  task_switch_timer = 5;
  next_task_id = 2;
}

armed : IsArmed running_task.timers (3 ∷ 1 ∷ [])
armed = record {
  chain = (refl, (omega arith), refl, (refl, (omega arith), refl, refl));
  sorted = (omega arith, tt);
  few = omega arith;
}

no_blocks : IsHeap running_task.heap []
no_blocks = record { bits = λ k. refl; blocks = tt }

empty_queue : IsValid (running_task.event_queue running_task.current_task)
empty_queue = record {
  size = length-replicate {A = ℕ} n_nodes 0;
  head_in = omega arith;
  tail_in = omega arith;
  full_meets = λ ne. refl;
}

some_task : running_task.current_task ≢ 0
some_task e = omega arith

int20h_handler-Expired_example :
    (t : TaskState × Bool) × (u : TaskState × Option ℕ) × (int20h_handler 1000 77 running_task []
      ≡ done (u, (0x20, 0x60) ∷ []))
    × Expired (count_tick running_task).timers 5 (3 ∷ 1 ∷ []) false t
    × Switches 1000 5 t u
int20h_handler-Expired_example =
    int20h_handler-Expired 1000 77 running_task [] (3 ∷ 1 ∷ []) (omega arith) armed some_task
      (omega arith) refl

int21h_handler-Posted_example :
    (t : TaskState × Bool) × (int21h_handler 0x1e running_task [] ≡ done (t.0, (0x20, 0x61) ∷ []))
    × Posted running_task [] keyboard_event (event_char 0x1e) t
int21h_handler-Posted_example =
    int21h_handler-Posted 0x1e running_task [] [] (omega arith) no_blocks empty_queue some_task
