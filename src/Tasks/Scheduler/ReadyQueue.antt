-- ===== src/Tasks/Scheduler/ReadyQueue.antt =====
-- The ready queue: a list of distinct ready tasks with its end at hand, and the running task apart.
use ntm_os.Prelude.{
  ℕ, ◌≡◌, ◌≢◌, refl, sym, ◌∙◌, true, false, inl, inr, Bool-cases, arith, List, [], ◌∷◌, ◌++◌, ◌==◌,
  if◌then◌else◌, ◌⊎◌, ne→==,
}
use ntm_os.Prelude.Memory.{write, write_self, write_other, update, update_self, update_other}
use ntm_os.Prelude.Chain.{
  Cells, has, From, From-write, From-snoc, last, last-snoc, has-append, has-last, zero-not-has,
}
use ntm_os.KTimer.{TimerControl}
use ntm_os.Tasks.{TaskState, Status, ready, running}
use ntm_os.Tasks.Scheduler.{
  push_ready, put_task_to_ready, pop_ready, yield_current, run_task, reschedule,
}

pub record IsQueue (s : TaskState) (xs : List ℕ) : Type 0 where
  pub chain : From s.next 0 xs
  pub end : s.tail ≡ last 0 xs
  pub all_ready : (p : ℕ) → has p xs ≡ true → s.status p ≡ ready

-- A queue, and a running task outside it.
pub record IsScheduled (s : TaskState) (xs : List ℕ) : Type 0 where
  pub queue : IsQueue s xs
  pub some_task : s.current_task ≢ 0
  pub is_running : s.status s.current_task ≡ running
  pub apart : has s.current_task xs ≡ false
  pub unlinked : s.next s.current_task ≡ 0

-- Appending a task that is ready, in no queue and linked to nothing.
push_ready-IsQueue :
    {s : TaskState} {xs : List ℕ} (p : ℕ)
    → IsQueue s xs
    → p ≢ 0
    → has p xs ≡ false
    → s.next p ≡ 0
    → s.status p ≡ ready
    → IsQueue (push_ready s p) (xs ++ (p ∷ []))
unfolding push_ready
push_ready-IsQueue {s} {xs} p q nz out end is_ready = record {
  chain =
      rw q.end (From-snoc s.next 0 p xs nz nz (zero-not-has s.next 0 xs q.chain) out end q.chain);
  end = sym (last-snoc 0 p xs);
  all_ready = λ a h. ground (arith, has-append a xs (p ∷ []), q.all_ready a);
}

-- Marking a task ready, or one that is not queued anything else, leaves the queue.
status-IsQueue :
    {s : TaskState} {xs : List ℕ} (p : ℕ) (v : Status)
    → IsQueue s xs
    → (v ≡ ready) ⊎ (has p xs ≡ false)
    → IsQueue (record s { status = update s.status p v }) xs
unfolding update
status-IsQueue {s} {xs} p v q fine = record {
  chain = q.chain;
  end = q.end;
  all_ready = λ a h. ground (arith, q.all_ready a h);
}

-- `put_task_to_ready` appends a task that is not queued to the ready queue.
pub put_task_to_ready-IsQueue :
    {s : TaskState} {xs : List ℕ} (p : ℕ)
    → IsQueue s xs
    → p ≢ 0
    → has p xs ≡ false
    → s.next p ≡ 0
    → IsQueue (put_task_to_ready s p) (xs ++ (p ∷ []))
unfolding put_task_to_ready
put_task_to_ready-IsQueue {s} {xs} p q nz out end = rw (ne→== p 0 nz) (
    push_ready-IsQueue p (status-IsQueue p ready q (inl refl)) nz out end
      (update_self s.status p ready))

pop-From :
    (next : Cells) (y : ℕ) (ys : List ℕ) → From next 0 (y ∷ ys) → From (write next 0 (next y)) 0 ys
pop-From next y [] (e, nz, out, f) = write_self next 0 (next y) 0 refl ∙ f
pop-From next y (z ∷ zs) (e, nz, out, (f, znz, zout, rest)) = (
  write_self next 0 (next y) 0 refl ∙ f,
  znz,
  zout,
  From-write next z 0 (next y) zs (λ q. znz (sym q)) (zero-not-has next z zs rest) rest,
)

pop-end :
    (next : Cells) (y : ℕ) (ys : List ℕ)
    → From next 0 (y ∷ ys)
    → (if next y == 0 then 0 else last y ys) ≡ last 0 ys
pop-end next y [] (e, nz, out, f) = rw f
pop-end next y (z ∷ zs) (e, nz, out, (f, znz, zout, rest)) =
    rw (ne→== (next y) 0 (λ q. znz (sym f ∙ q)))

pop_ready-IsQueue :
    {s : TaskState} (y : ℕ) (ys : List ℕ) → IsQueue s (y ∷ ys) → IsQueue (pop_ready s y) ys
unfolding pop_ready
pop_ready-IsQueue {s} y ys q = record {
  chain = pop-From s.next y ys q.chain;
  end = rw q.end (pop-end s.next y ys q.chain);
  all_ready = λ a h. q.all_ready a (ground arith);
}

-- The queue once the current task has given way.
abbrev pub requeued : TaskState → List ℕ → List ℕ
requeued s ys = if s.current_task == s.idle_task then ys else ys ++ (s.current_task ∷ [])

yield_current-IsQueue :
    {s : TaskState} {ys : List ℕ}
    → IsQueue s ys
    → s.current_task ≢ 0
    → has s.current_task ys ≡ false
    → s.next s.current_task ≡ 0
    → IsQueue (yield_current s) (requeued s ys)
unfolding yield_current
yield_current-IsQueue {s} {ys} q nz out end = elim (Bool-cases (s.current_task == s.idle_task)) [
  | inl idle ↦ rw idle (status-IsQueue s.current_task ready q (inl refl))
  | inr busy ↦ rw busy (
      push_ready-IsQueue s.current_task (status-IsQueue s.current_task ready q (inl refl)) nz out
        end (update_self s.status s.current_task ready))
]

run_task-IsScheduled :
    {s : TaskState} {xs : List ℕ} (p : ℕ)
    → IsQueue s xs
    → p ≢ 0
    → has p xs ≡ false
    → IsScheduled (run_task s p) xs
unfolding run_task
run_task-IsScheduled {s} {xs} p q nz out = record {
  queue = record {
    chain = From-write s.next 0 p 0 xs nz out q.chain;
    end = q.end;
    all_ready = (status-IsQueue p running q (inr out)).all_ready;
  };
  some_task = nz;
  is_running = update_self s.status p running;
  apart = out;
  unlinked = write_self s.next p 0 p refl;
}

has-requeued :
    (s : TaskState) (y : ℕ) (ys : List ℕ)
    → has y ys ≡ false
    → y ≢ s.current_task
    → has y (requeued s ys) ≡ false
has-requeued s y ys out ne = ground (arith, has-append y ys (s.current_task ∷ []))

-- Rescheduling takes the first task from the queue and appends the one that ran.
pub reschedule-IsScheduled :
    {s : TaskState} {y : ℕ} {ys : List ℕ}
    → IsScheduled s (y ∷ ys)
    → IsScheduled (reschedule s y) (requeued s ys)
unfolding reschedule pop_ready
reschedule-IsScheduled {s} {y} {ys} is =
    let (_, nz, out, _) = is.queue.chain in
    run_task-IsScheduled y
      (yield_current-IsQueue (pop_ready-IsQueue y ys is.queue) is.some_task
        (ground (arith, is.apart))
        (write_other s.next 0 (s.next y) s.current_task is.some_task ∙ is.unlinked))
      nz (has-requeued s y ys out (ground (arith, is.apart)))

-- The timers play no part in the queue.
pub timers-IsScheduled :
    {s : TaskState} {xs : List ℕ} (t : TimerControl)
    → IsScheduled s xs
    → IsScheduled (record s { timers = t }) xs
timers-IsScheduled t is = record {
  queue = record { chain = is.queue.chain; end = is.queue.end; all_ready = is.queue.all_ready };
  some_task = is.some_task;
  is_running = is.is_running;
  apart = is.apart;
  unlinked = is.unlinked;
}

-- `put_task_to_ready` of another task than the running one keeps the running task apart.
pub put_task_to_ready-IsScheduled :
    {s : TaskState} {xs : List ℕ} (p : ℕ)
    → IsScheduled s xs
    → p ≢ 0
    → has p xs ≡ false
    → p ≢ s.current_task
    → s.next p ≡ 0
    → IsScheduled (put_task_to_ready s p) (xs ++ (p ∷ []))
unfolding put_task_to_ready push_ready
put_task_to_ready-IsScheduled {s} {xs} p is nz out ne end = rw (ne→== p 0 nz) (record {
  queue =
      push_ready-IsQueue p (status-IsQueue p ready is.queue (inl refl)) nz out end
        (update_self s.status p ready);
  some_task = is.some_task;
  is_running = update_other s.status p ready s.current_task (λ q. ne (sym q)) ∙ is.is_running;
  apart = ground (arith, has-append s.current_task xs (p ∷ []), is.apart);
  unlinked =
      write_other s.next s.tail p s.current_task
        (λ q. has-last 0 s.current_task xs is.some_task is.apart (q ∙ is.queue.end))
      ∙ is.unlinked;
})
