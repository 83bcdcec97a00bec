-- ===== src/KTimer.antt =====
-- The kernel timers of k_timer.c, over `timer_control_t` of k_timer.h. A pointer to timer slot `i`
-- is the number `i + 1`, and null is 0; the fields of the timers are kept field by field. Cell 0 of
-- `next` is `g_timer_control.next`, cell `p` is `p->next`.
pub mod Armed
pub mod Slots
mod Tests
use ntm_os.Prelude.{
  ℕ, zero, suc, ◌+◌, ◌-◌, ◌*◌, ◌%◌, ◌^◌, ◌&&◌, ◌||◌, Option, none, some, nonzero, ltb, leb, ◌==◌,
  if◌then◌else◌,
}
use ntm_os.Prelude.Memory.{write}
use ntm_os.Prelude.Chain.{Cells}
use ntm_os.Prelude.Search.{find_first}
use Prim.Native.Nat.{bit_or}
use mathlib.Core.Option

abbrev pub max_timers : ℕ
max_timers = 0x256

abbrev pub timer_alloc : ℕ
timer_alloc = 1

abbrev pub timer_using : ℕ
timer_using = 2

pub record TimerControl : Type 0 where
  pub tick : ℕ
  pub next : Cells
  pub timeout : ℕ → ℕ
  pub user_data : ℕ → ℕ
  pub flags : ℕ → ℕ
  pub pf : ℕ → ℕ

-- What `k_timer_alloc` does with the pointer that its loop has found.
unfoldable pub hand_out : TimerControl → ℕ → ℕ × TimerControl
hand_out c p =
    if p == 0
    then (0, c)
    else (p, record c { flags = write c.flags p (bit_or (c.flags p) timer_alloc) })

unfoldable pub k_timer_alloc : TimerControl → ℕ × TimerControl
k_timer_alloc c = hand_out c (find_first (λ q. c.flags q == 0) max_timers 1)

-- `&g_timer_control.timers + MAX_TIMERS` counts whole arrays, so the upper test allows
-- `MAX_TIMERS * MAX_TIMERS` slots.
unfoldable pub k_timer_free : TimerControl → ℕ → TimerControl
k_timer_free c p =
    if ltb p 1 || leb (1 + max_timers * max_timers) p
    then c
    else record c { flags = write c.flags p 0 }

unfoldable pub k_init_timer : TimerControl → ℕ → ℕ → ℕ → TimerControl
k_init_timer c p f d =
    if p == 0 then c else record c { user_data = write c.user_data p d; pf = write c.pf p f }

-- `while (*pp_next != 0 && (*pp_next)->timeout < timer->timeout) pp_next = &(*pp_next)->next;`
unfoldable pub walk : ℕ → Cells → (ℕ → ℕ) → ℕ → ℕ → Option ℕ
walk zero next timeout deadline l = none
walk (suc fuel) next timeout deadline l =
    let rest = walk fuel next timeout deadline (next l) in
    if nonzero (next l) && ltb (timeout (next l)) deadline then rest else some l

unfoldable pub with_deadline : TimerControl → ℕ → ℕ → TimerControl
with_deadline c p d = record c {
  timeout = write c.timeout p d;
  flags = write c.flags p timer_using;
}

-- `timer->next = *pp_next; *pp_next = timer;`
unfoldable pub link_at : TimerControl → ℕ → ℕ → TimerControl
link_at c p l = record c { next = write (write c.next p (c.next l)) l p }

-- `unsigned long` has 32 bits. `none` is a walk that does not end within the fuel.
unfoldable pub k_set_timer_time : ℕ → TimerControl → ℕ → ℕ → Option TimerControl
k_set_timer_time fuel c p t =
    let d = (t + c.tick) % 2 ^ 32 in
    let c' = with_deadline c p d in
    if p == 0 then some c else Option.map (link_at c' p) (walk fuel c'.next c'.timeout d 0)
