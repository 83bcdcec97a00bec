-- ===== src/Tasks/Scheduler/Fairness.antt =====
-- No ready task waits for ever: the calls of `switch_task` and `put_task_to_ready` in any order.
use ntm_os.Prelude.{
  ℕ, zero, suc, ◌≤◌, ◌<◌, ◌≡◌, ◌≢◌, refl, false, inl, inr, Bool-cases, arith, List, [], ◌∷◌, ◌++◌,
  append_assoc, Option, none, some, length, drop, ◌==◌, ne→==,
}
use ntm_os.Prelude.Chain.{has, From-unique}
use ntm_os.Prelude.Run.{done, ◌>>=◌, from_loop}
use ntm_os.KTimer.{TimerControl}
use ntm_os.Tasks.{TaskState}
use ntm_os.Tasks.Scheduler.{put_task_to_ready, reschedule, tss_selector, rearm, switch_task}
use ntm_os.Tasks.Scheduler.RoundRobin.{current-reschedule}
use ntm_os.Tasks.Scheduler.ReadyQueue.{
  IsScheduled, requeued, reschedule-IsScheduled, put_task_to_ready-IsScheduled, timers-IsScheduled,
}

rearm-inversion :
    (s s' : TaskState) (out : Option ℕ) (f : TaskState → Option ℕ) (o : Option TimerControl)
    → ◌>>=◌ {B = TaskState × Option ℕ}
        (from_loop o >>= λ t. done (record s { timers = t }))
        (λ r. done (r, f r))
      ≡ done (s', out)
    → (t : TimerControl) × (s' ≡ record s { timers = t })
rearm-inversion s s' out f none e = cc
rearm-inversion s s' out f (some t) e = (t, ground arith)

-- A call of `switch_task` that returned, with a task `y` at the head of the queue, ran `reschedule`.
switch_task-inversion :
    (fuel : ℕ) (s : TaskState) (timer : ℕ) (y : ℕ) (s' : TaskState) (out : Option ℕ)
    → s.next 0 ≡ y
    → y ≢ 0
    → switch_task fuel s timer ≡ done (s', out)
    → (t : TimerControl) × (s' ≡ record (reschedule s y) { timers = t })
unfolding switch_task rearm
switch_task-inversion fuel s timer y s' out first nz e =
    rearm-inversion (reschedule s y) s' out (λ r. some (tss_selector r)) _
      (rw (first, ne→== y 0 nz) at e)

-- `n` calls of `switch_task`, and calls of `put_task_to_ready` for tasks that are not queued.
pub data Schedule (fuel : ℕ) (s : TaskState) : ℕ → TaskState → Type 0 where
  start : Schedule fuel s 0 s
  switch :
      {n : ℕ} {t u : TaskState} (timer : ℕ) (out : Option ℕ)
      → Schedule fuel s n t
      → switch_task fuel t timer ≡ done (u, out)
      → Schedule fuel s (suc n) u
  admit :
      {n : ℕ} {t : TaskState} (zs : List ℕ) (p : ℕ)
      → Schedule fuel s n t
      → IsScheduled t zs
      → p ≢ 0
      → has p zs ≡ false
      → p ≢ t.current_task
      → t.next p ≡ 0
      → Schedule fuel s n (put_task_to_ready t p)

drop-cons : (n : ℕ) (xs : List ℕ) → n < length xs → (x : ℕ) × (drop n xs ≡ x ∷ drop (suc n) xs)
drop-cons n [] h = absurd (omega arith)
drop-cons zero (x ∷ xs) h = (x, refl)
drop-cons (suc n) (x ∷ xs) h = drop-cons n xs (omega arith)

drop-length : (xs : List ℕ) → drop (length xs) xs ≡ []
drop-length [] = refl
drop-length (x ∷ xs) = drop-length xs

requeued-cons :
    (t : TaskState) (xs : List ℕ) (y : ℕ) (zs : List ℕ)
    → (ws : List ℕ) × (requeued t (xs ++ (y ∷ zs)) ≡ xs ++ (y ∷ ws))
requeued-cons t xs y zs = elim (Bool-cases (t.current_task == t.idle_task)) [
  | inl idle ↦ (zs, rw idle)
  | inr busy ↦
      (zs ++ (t.current_task ∷ []), rw busy (append_assoc xs (y ∷ zs) (t.current_task ∷ [])))
]

-- Each switch takes one task from in front of `y`; new tasks stand behind it.
waiting :
    {fuel : ℕ} {s : TaskState} (xs : List ℕ) (y : ℕ) (ys : List ℕ) {n : ℕ} {t : TaskState}
    → IsScheduled s (xs ++ (y ∷ ys))
    → Schedule fuel s n t
    → n ≤ length xs
    → (zs : List ℕ) × IsScheduled t (drop n xs ++ (y ∷ zs))
waiting xs y ys is start h = (ys, is)
waiting {fuel} xs y ys is (switch {n = m} {t} {u} timer out r e) h =
    let (zs, before) = waiting xs y ys is r (omega arith) in
    let (x, front) = drop-cons m xs (omega arith) in
    let at_head : IsScheduled t (x ∷ (drop (suc m) xs ++ (y ∷ zs))) = rw front at before in
    let (first, nz, _, _) = at_head.queue.chain in
    let (timers, ran) = switch_task-inversion fuel t timer x u out first nz e in
    let (ws, behind) = requeued-cons t (drop (suc m) xs) y zs in
    let after : IsScheduled (reschedule t x) (drop (suc m) xs ++ (y ∷ ws)) =
      rw behind at (reschedule-IsScheduled at_head) in
    (ws, rw ran (timers-IsScheduled timers after))
waiting xs y ys is (admit {n} {t} ws p r here nz out ne end) h =
    let (zs, before) = waiting xs y ys is r h in
    let same : ws ≡ drop n xs ++ (y ∷ zs) =
      From-unique t.next 0 ws _ here.queue.chain before.queue.chain in
    let outside : has p (drop n xs ++ (y ∷ zs)) ≡ false = rw same at out in
    let after : IsScheduled (put_task_to_ready t p) (drop n xs ++ ((y ∷ zs) ++ (p ∷ []))) =
      rw (append_assoc (drop n xs) (y ∷ zs) (p ∷ [])) at
        (put_task_to_ready-IsScheduled p before nz outside ne end) in
    (zs ++ (p ∷ []), after)

-- A task `y` that waits behind the tasks `xs` runs at the next `switch_task` after `length xs`
-- of them have returned, whatever tasks are made ready in between.
pub switch_task_fair :
    {fuel : ℕ} {s : TaskState} (xs : List ℕ) (y : ℕ) (ys : List ℕ) {t u : TaskState} (timer : ℕ)
    (out : Option ℕ)
    → IsScheduled s (xs ++ (y ∷ ys))
    → Schedule fuel s (length xs) t
    → switch_task fuel t timer ≡ done (u, out)
    → u.current_task ≡ y
switch_task_fair {fuel} xs y ys {t} {u} timer out is r e =
    let (zs, before) = waiting xs y ys is r (omega arith) in
    let at_head : IsScheduled t (y ∷ zs) = rw (drop-length xs) at before in
    let (first, nz, _, _) = at_head.queue.chain in
    let (timers, ran) = switch_task-inversion fuel t timer y u out first nz e in
    rw ran (current-reschedule t y)
