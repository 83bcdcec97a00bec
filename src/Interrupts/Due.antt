-- ===== src/Interrupts/Due.antt =====
-- The timers that have left the list of armed timers, and those that are still in it.
use ntm_os.Prelude.{
  ℕ, ◌≤◌, ◌<◌, ◌≡◌, ◌≢◌, ◌⊎◌, refl, ap, arith, Bool, true, false, ◌||◌, List, [], ◌∷◌, ◌++◌, ◌==◌,
  ◌∙◌,
}
use ntm_os.Prelude.Memory.{write, write_self}
use ntm_os.Prelude.Chain.{has, From, From-write, zero-not-has, has-append}
use ntm_os.KTimer.{TimerControl, timer_alloc}
use ntm_os.KTimer.Armed.{IsArmed, Sorted}
use ntm_os.Tasks.{TaskState}
use ntm_os.Interrupts.{pop_timer}
use ntm_os.Interrupts.Posting.{NoMemory}

-- Of the timers `ts`, those up to the first that is not due have left the list, each with its flags
-- reset and linked to nothing, and the others are armed as before. It may be fewer only where
-- there is no memory for an event.
pub record Expired (c : TimerControl) (timer : ℕ) (ts : List ℕ) (switching : Bool)
    (t : TaskState × Bool) : Type 0 where
  pub gone : List ℕ
  pub left : List ℕ
  pub split : ts ≡ gone ++ left
  pub due : (x : ℕ) → has x gone ≡ true → c.timeout x ≤ c.tick
  pub armed : IsArmed t.0.timers left
  pub cleared :
      (x : ℕ) → has x gone ≡ true → (t.0.timers.flags x ≡ timer_alloc) × (t.0.timers.next x ≡ 0)
  pub kept : (x : ℕ) → has x gone ≡ false → t.0.timers.flags x ≡ c.flags x
  pub cells : (x : ℕ) → x ≢ 0 → has x gone ≡ false → t.0.timers.next x ≡ c.next x
  pub pointers : t.0.timers.pf ≡ c.pf
  pub same_timer : t.0.task_switch_timer ≡ timer
  pub switch : t.1 ≡ (switching || has timer gone)
  pub stopped :
      NoMemory t.0
      ⊎ ((left ≡ []) ⊎ ((x : ℕ) × (xs : List ℕ) × (left ≡ x ∷ xs) × (c.tick < c.timeout x)))

rebase-From :
    (next : ℕ → ℕ) (x : ℕ) (xs : List ℕ)
    → has 0 xs ≡ false
    → From next x xs
    → From (write next 0 (next x)) 0 xs
rebase-From next x [] no_zero f = write_self next 0 (next x) 0 refl ∙ f
rebase-From next x (y ∷ ys) no_zero (e, nz, out, rest) = (
  write_self next 0 (next x) 0 refl ∙ e,
  nz,
  out,
  From-write next y 0 (next x) ys (ground arith) (ground arith) rest,
)

Sorted-tail : (timeout : ℕ → ℕ) (x : ℕ) (xs : List ℕ) → Sorted timeout (x ∷ xs) → Sorted timeout xs
Sorted-tail timeout x [] sorted = tt
Sorted-tail timeout x (y ∷ ys) (_, sorted) = sorted

-- The first armed timer leaves the list.
pub pop_timer-IsArmed :
    (c : TimerControl) (x : ℕ) (xs : List ℕ) → IsArmed c (x ∷ xs) → IsArmed (pop_timer c x) xs
unfolding pop_timer
pop_timer-IsArmed c x xs armed =
    let (first, nz, out, rest) = armed.chain in
    record {
      chain =
          From-write (write c.next 0 (c.next x)) 0 x 0 xs nz out
            (rebase-From c.next x xs (zero-not-has c.next x xs rest) rest);
      sorted = Sorted-tail c.timeout x xs armed.sorted;
      few = omega (arith, armed.few);
    }

gone-out :
    (a : ℕ) (ts gone left : List ℕ) → ts ≡ gone ++ left → has a ts ≡ false → has a gone ≡ false
gone-out a ts gone left split out = ground (arith, has-append a gone left, ap (has a) split)

-- A timer that has left, in front of those that leave after it.
pub Expired-cons :
    (c : TimerControl) (timer x : ℕ) (xs : List ℕ) (switching later : Bool) (t : TaskState × Bool)
    → IsArmed c (x ∷ xs)
    → c.timeout x ≤ c.tick
    → later ≡ (switching || (timer == x))
    → Expired (pop_timer c x) timer xs later t
    → Expired c timer (x ∷ xs) switching t
unfolding pop_timer write
Expired-cons c timer x xs switching later t armed due now e =
    let (first, nz, out, rest) = armed.chain in
    let x_out : has x e.gone ≡ false = gone-out x xs e.gone e.left e.split out in
    record {
      gone = x ∷ e.gone;
      left = e.left;
      split = ap (λ ys. x ∷ ys) e.split;
      due = λ a h. ground (arith, e.due a);
      armed = e.armed;
      cleared = λ a h. ground (arith, e.cleared a, e.kept a, e.cells a);
      kept = λ a h. ground (arith, e.kept a);
      cells = λ a some h. ground (arith, e.cells a);
      pointers = e.pointers;
      same_timer = e.same_timer;
      switch = ground (arith, e.switch);
      stopped = e.stopped;
    }

pub Expired-none :
    (c : TimerControl) (timer : ℕ) (ts : List ℕ) (switching : Bool) (s : TaskState)
    → s.timers ≡ c
    → s.task_switch_timer ≡ timer
    → IsArmed c ts
    → NoMemory s ⊎ ((ts ≡ []) ⊎ ((x : ℕ) × (xs : List ℕ) × (ts ≡ x ∷ xs) × (c.tick < c.timeout x)))
    → Expired c timer ts switching (s, switching)
Expired-none c timer ts switching s same same_timer armed stopped = record {
  gone = [];
  left = ts;
  split = refl;
  due = λ x h. ground arith;
  armed = rw same armed;
  cleared = λ x h. ground arith;
  kept = λ x h. rw same refl;
  cells = λ x some h. rw same refl;
  pointers = rw same refl;
  same_timer = same_timer;
  switch = ground arith;
  stopped = stopped;
}
