-- ===== src/Interrupts.antt =====
-- The interrupt handlers of interrupt_handlers.c. `ports` holds the bytes that the handlers send,
-- the last one first; a byte that a handler reads is an argument. `switch_address` is the value
-- of the function pointer `switch_task`. A handler that finds no current task is undefined. The
-- message about a failed allocation is left out. An event stores a timer by its number.
pub mod Events
pub mod Posting
pub mod Due
pub mod Expiry
pub mod Tick
mod Tests
use ntm_os.Prelude.{
  ℕ, zero, suc, ◌+◌, ◌/◌, ◌%◌, ◌^◌, Bool, true, false, ◌||◌, Option, none, some, List, [], ◌∷◌, ltb,
  ◌==◌, if◌then◌else◌,
}
use ntm_os.Prelude.Memory.{write, update, write_word}
use ntm_os.Prelude.Run.{Run, done, undefined, out_of_fuel, ◌>>=◌}
use ntm_os.KHeap.{Heap, Result, address, undefined, k_malloc}
use ntm_os.KTimer.{TimerControl, timer_alloc}
use ntm_os.EventQueue.{EventQueue, enqueue}
use ntm_os.Keyboard.{event_char}
use ntm_os.Tasks.{TaskState}
use ntm_os.Tasks.Scheduler.{switch_task}

abbrev pub keyboard_event : ℕ
keyboard_event = 1

abbrev pub mouse_event : ℕ
mouse_event = 2

abbrev pub timer_event : ℕ
timer_event = 3

-- `sizeof (simple_interrupt_event_node_t)`
abbrev pub node_size : ℕ
node_size = 8

abbrev pub Ports : Type 0
Ports = List (ℕ × ℕ)

-- `p_node->type = type, p_node->data = value;`
unfoldable pub fill_node : Heap → ℕ → ℕ → ℕ → Heap
fill_node h p type value = record h { bytes = write_word (write_word h.bytes p type) (p + 4) value }

-- `enqueue_event_queue(&g_current_task->event_queue, p_node)`
unfoldable pub enqueue_current : TaskState → ℕ → TaskState
enqueue_current s p = record s {
  event_queue = update s.event_queue s.current_task (enqueue (s.event_queue s.current_task) p).1;
}

-- The rest of a handler after `k_malloc`: the new state, and whether there was memory.
unfoldable pub post_node : TaskState → ℕ → ℕ → Result → Run (TaskState × Bool)
post_node s type value undefined = undefined
post_node s type value (address p h) =
    if p == 0
    then done (record s { heap = h }, false)
    else if s.current_task == 0
    then undefined
    else done (enqueue_current (record s { heap = fill_node h p type value }) p, true)

unfoldable pub post_event : TaskState → ℕ → ℕ → Run (TaskState × Bool)
post_event s type value = post_node s type value (k_malloc s.heap node_size)

-- The first armed timer leaves the list.
unfoldable pub pop_timer : TimerControl → ℕ → TimerControl
pop_timer c p = record c {
  next = write (write c.next 0 (c.next p)) p 0;
  flags = write c.flags p timer_alloc;
}

-- The loop over the timers that are due, with `time_to_switch_task`.
unfoldable pub expire : ℕ → TaskState → Bool → Run (TaskState × Bool)
expire zero s switching = out_of_fuel
expire (suc fuel) s switching =
    let p = s.timers.next 0 in
    let popped = record s { timers = pop_timer s.timers p } in
    let on_switch = expire fuel popped true in
    let on_event = post_event popped timer_event p >>= λ r. elim r.1 [
      | true ↦ expire fuel r.0 switching
      | false ↦ done (r.0, switching)
    ] in
    if (p == 0) || ltb s.timers.tick (s.timers.timeout p)
    then done (s, switching)
    else if p == s.task_switch_timer
    then on_switch
    else on_event

-- `g_task_switch_timer->pf(g_task_switch_timer)`
unfoldable pub call_pf : ℕ → ℕ → TaskState → Run (TaskState × Option ℕ)
call_pf fuel switch_address s =
    if s.timers.pf s.task_switch_timer == switch_address
    then switch_task fuel s s.task_switch_timer
    else undefined

unfoldable pub count_tick : TaskState → TaskState
count_tick s = record s { timers = record s.timers { tick = (s.timers.tick + 1) % 2 ^ 32 } }

-- The state after the interrupt, the selector of the task switched to, if any, and the ports.
unfoldable pub int20h_handler : ℕ → ℕ → TaskState → Ports → Run ((TaskState × Option ℕ) × Ports)
int20h_handler fuel switch_address s ports =
    let ports' = (0x20, 0x60) ∷ ports in
    let s' = count_tick s in
    let first = s'.timers.next 0 in
    if (first == 0) || ltb s'.timers.tick (s'.timers.timeout first)
    then done ((s', none), ports')
    else expire fuel s' false >>= λ r.
        (if r.1 then call_pf fuel switch_address r.0 else done (r.0, none)) >>= λ t.
        done (t, ports')

unfoldable pub int21h_handler : ℕ → TaskState → Ports → Run (TaskState × Ports)
int21h_handler value s ports =
    post_event s keyboard_event (event_char value) >>= λ r. done (r.0, (0x20, 0x61) ∷ ports)

-- `while (is_transmit_empty(port) == 0);`, with the line states that the port answers in turn.
unfoldable pub wait_transmit : List ℕ → Option (List ℕ)
wait_transmit [] = none
wait_transmit (status ∷ more) =
    let rest = wait_transmit more in if status / 32 % 2 == 0 then rest else some more

abbrev pub then_send : ℕ → ℕ → Ports → Option (List ℕ) → Run (Ports × List ℕ)
then_send port value ports none = out_of_fuel
then_send port value ports (some more) = done ((port, value % 256) ∷ ports, more)

unfoldable pub write_serial : List ℕ → ℕ → ℕ → Ports → Run (Ports × List ℕ)
write_serial line port value ports = then_send port value ports (wait_transmit line)

-- The mouse byte is also sent to the port COM1, if there was memory.
unfoldable pub int2ch_handler : List ℕ → ℕ → TaskState → Ports → Run (TaskState × Ports)
int2ch_handler line value s ports =
    let ports' = (0x20, 0x62) ∷ (0xa0, 0x64) ∷ ports in
    post_event s mouse_event value >>= λ r.
    (if r.1
      then (write_serial line 0x3f8 value ports' >>= λ t. done (r.0, t.0))
      else done (r.0, ports'))

unfoldable pub int27h_handler : Ports → Ports
int27h_handler ports = (0x20, 0x67) ∷ ports
