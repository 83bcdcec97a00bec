-- ===== src/Interrupts/Expiry.antt =====
-- The timer interrupt takes the timers that are due out of the list of armed timers.
use ntm_os.Prelude.{
  ℕ, zero, suc, ◌<◌, ◌≡◌, ◌≢◌, ◌⊎◌, inl, inr, refl, sym, arith, Bool, Bool-cases, true, false, List,
  [], ◌∷◌, length, ltb, ◌==◌, ne→==, ◌∙◌,
}
use mathlib.Core.Path.{subst}
use ntm_os.Prelude.Run.{Run, done, ◌>>=◌}
use ntm_os.KTimer.Armed.{IsArmed}
use ntm_os.Tasks.{TaskState}
use ntm_os.Interrupts.{pop_timer, post_event, timer_event, expire}
use ntm_os.Interrupts.Posting.{NoMemory, SameTimers, post_event_ends}
use ntm_os.Interrupts.Due.{Expired, Expired-cons, Expired-none, pop_timer-IsArmed}

expire_none :
    (fuel : ℕ) (s : TaskState) (switching : Bool)
    → s.timers.next 0 ≡ 0
    → expire (suc fuel) s switching ≡ done (s, switching)
unfolding expire
expire_none fuel s switching e = rw e refl

abbrev popped : TaskState → ℕ → TaskState
popped s x = record s { timers = pop_timer s.timers x }

abbrev after_event : ℕ → Bool → TaskState × Bool → Run (TaskState × Bool)
after_event fuel switching r = elim r.1 [
  | true ↦ expire fuel r.0 switching
  | false ↦ done (r.0, switching)
]

module _ (fuel : ℕ) (s : TaskState) (x : ℕ) (switching : Bool) (first : s.timers.next 0 ≡ x) where
  expire_later :
      ltb s.timers.tick (s.timers.timeout x) ≡ true
      → expire (suc fuel) s switching ≡ done (s, switching)
  unfolding expire
  expire_later later = elim (Bool-cases (x == 0)) [
    | inl null ↦ rw (first, null) refl
    | inr not_null ↦ rw (first, not_null, later) refl
  ]

  expire_switch :
      x ≢ 0
      → ltb s.timers.tick (s.timers.timeout x) ≡ false
      → (x == s.task_switch_timer) ≡ true
      → expire (suc fuel) s switching ≡ expire fuel (popped s x) true
  unfolding expire
  expire_switch nz now switch = rw (first, ne→== x 0 nz, now, switch) refl

  expire_event :
      x ≢ 0
      → ltb s.timers.tick (s.timers.timeout x) ≡ false
      → (x == s.task_switch_timer) ≡ false
      → expire (suc fuel) s switching
        ≡ (post_event (popped s x) timer_event x >>= after_event fuel switching)
  unfolding expire
  expire_event nz now other = rw (first, ne→== x 0 nz, now, other) refl

-- The result of a loop that goes on in state `s'`, where the timers `ts` are armed.
abbrev Ends : ℕ → TaskState → List ℕ → Bool → Type 0
Ends fuel s ts switching =
    (t : TaskState × Bool) × (expire fuel s switching ≡ done t)
    × Expired s.timers s.task_switch_timer ts switching t

after_event-Ends :
    (fuel : ℕ) (s : TaskState) (xs : List ℕ) (switching : Bool) (r : TaskState × Bool)
    → IsArmed s.timers xs
    → SameTimers s r.0
    → (r.1 ≡ true) ⊎ ((r.1 ≡ false) × NoMemory r.0)
    → Ends fuel r.0 xs switching
    → (t : TaskState × Bool) × (after_event fuel switching r ≡ done t)
      × Expired s.timers s.task_switch_timer xs switching t
after_event-Ends fuel s xs switching r armed same (inl more) (t, e, expired) = (
  t,
  rw more e,
  subst (λ c. Expired c s.task_switch_timer xs switching t) same.timers
      (subst (λ k. Expired r.0.timers k xs switching t) same.switch_timer expired),
)
after_event-Ends fuel s xs switching r armed same (inr (no_memory, full)) ends = (
  (r.0, switching),
  rw no_memory refl,
  Expired-none s.timers s.task_switch_timer xs switching r.0 same.timers same.switch_timer armed
      (inl full),
)

-- The loop over the armed timers, with a current task and more fuel than there are timers.
pub expire-Expired :
    (fuel : ℕ) (s : TaskState) (ts : List ℕ) (switching : Bool)
    → length ts < fuel
    → IsArmed s.timers ts
    → s.current_task ≢ 0
    → Ends fuel s ts switching
expire-Expired zero s ts switching enough armed task = absurd (omega arith)
expire-Expired (suc fuel) s [] switching enough armed task = (
  (s, switching),
  expire_none fuel s switching armed.chain,
  Expired-none s.timers s.task_switch_timer [] switching s refl refl armed (inr (inl refl)),
)
expire-Expired (suc fuel) s (x ∷ xs) switching enough armed task =
    let (first, nz, out, rest) = armed.chain in
    let armed' : IsArmed (popped s x).timers xs = pop_timer-IsArmed s.timers x xs armed in
    elim (Bool-cases (ltb s.timers.tick (s.timers.timeout x))) [
      | inl later ↦ (
        (s, switching),
        expire_later fuel s x switching first later,
        Expired-none s.timers s.task_switch_timer (x ∷ xs) switching s refl refl armed
            (inr (inr (x, xs, refl, ground arith))),
      )
      | inr now ↦ elim (Bool-cases (x == s.task_switch_timer)) [
        | inl switch ↦
            let (t, e, expired) =
              expire-Expired fuel (popped s x) xs true (omega arith) armed' task in
            (
              t,
              expire_switch fuel s x switching first nz now switch ∙ e,
              Expired-cons s.timers s.task_switch_timer x xs switching true t armed (ground arith)
                  (ground arith) expired,
            )
        | inr other ↦
            let (r, posted, same, memory) = post_event_ends (popped s x) timer_event x task in
            let (t, e, expired) =
              after_event-Ends fuel (popped s x) xs switching r armed' same memory (
                expire-Expired fuel r.0 xs switching (omega arith)
                  (subst (λ c. IsArmed c xs) (sym same.timers) armed')
                  (λ z. task (sym same.current ∙ z))) in
            (
              t,
              expire_event fuel s x switching first nz now other ∙ rw posted e,
              Expired-cons s.timers s.task_switch_timer x xs switching switching t armed
                  (ground arith) (ground arith) expired,
            )
      ]
    ]
