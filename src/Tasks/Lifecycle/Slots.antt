-- ===== src/Tasks/Lifecycle/Slots.antt =====
-- The process slots: which slot `task_alloc` takes, and what `task_free` undoes.
use ntm_os.Prelude.{
  ℕ, ◌+◌, ◌≤◌, ◌<◌, ◌≡◌, ◌≢◌, ◌⊎◌, refl, sym, ◌∙◌, inl, inr, true, false, arith, eq→==, ne→==,
}
use ntm_os.Prelude.Memory.{write, write_self, update}
use ntm_os.Prelude.Search.{First, find_first-First}
use ntm_os.Prelude.Run.{done}
use ntm_os.Tasks.{TaskState, Status, n_max_processes}
use ntm_os.Tasks.Lifecycle.{is_unused, next_id, claim, task_alloc, task_free, release}

-- The outcomes of `task_alloc`.
abbrev pub Claimed : TaskState → ℕ × TaskState → Type 0
Claimed s (p, s') =
    ((p ≡ 0) × (s' ≡ s) × ((q : ℕ) → 1 ≤ q → q < 1 + n_max_processes → s.status q ≢ Status.unused))
    ⊎ ((1 ≤ p)
        × (p < 1 + n_max_processes)
        × (s.status p ≡ Status.unused)
        × ((q : ℕ) → 1 ≤ q → q < p → s.status q ≢ Status.unused)
        × (s' ≡ record s {
          status = update s.status p Status.alloc;
          pid = write s.pid p s.next_task_id;
          next_task_id = next_id s.next_task_id;
        }))

unused_of : (v : Status) → is_unused v ≡ true → v ≡ Status.unused
unused_of Status.unused h = refl
unused_of Status.alloc h = cc
unused_of _ h = cc

not_unused_of : (v : Status) → is_unused v ≡ false → v ≢ Status.unused
not_unused_of v h e = ground arith

claim-Claimed :
    (s : TaskState) (p : ℕ)
    → First (λ q. is_unused (s.status q)) 1 n_max_processes p
    → Claimed s (claim s p)
unfolding claim
claim-Claimed s p (inl (e, all_used)) =
    rw (eq→== p 0 e) (inl (refl, refl, λ q le lt. not_unused_of (s.status q) (all_used q le lt)))
claim-Claimed s p (inr (ge, lt, free, first)) = rw (ne→== p 0 (omega arith)) (
    inr (
      ge,
      lt,
      unused_of (s.status p) free,
      λ q le lt. not_unused_of (s.status q) (first q le lt),
      refl,
    ))

-- `task_alloc` returns null and changes nothing only if no slot is unused; otherwise it takes the
-- first unused slot, marks it allocated and gives it the next process number.
pub task_alloc-Claimed : (s : TaskState) → Claimed s (task_alloc s)
unfolding task_alloc
task_alloc-Claimed s =
    claim-Claimed s _ (find_first-First (λ q. is_unused (s.status q)) n_max_processes 1)

-- The number that a slot has after `claim` passes the test of `task_free`.
task_free-done : (s : TaskState) (p : ℕ) → p ≢ 0 → s.pid p ≢ 0 → task_free s p ≡ done (release s p)
unfolding task_free
task_free-done s p nz numbered = rw (ne→== p 0 nz, ne→== (s.pid p) 0 numbered)

free-Claimed :
    (s : TaskState) (p : ℕ) (s' : TaskState)
    → Claimed s (p, s')
    → p ≢ 0
    → s.next_task_id ≢ 0
    → (task_free s' p ≡ done (release s' p)) × ((q : ℕ) → (release s' p).status q ≡ s.status q)
unfolding release update
free-Claimed s p s' (inl (e, _, _)) nz id = absurd (nz e)
free-Claimed s p s' (inr (ge, lt, free, first, e)) nz id = (
  task_free-done s' p nz (rw e (λ z. id (sym (write_self s.pid p s.next_task_id p refl) ∙ z))),
  λ q. rw e (ground arith),
)

-- `task_free` of a slot that `task_alloc` has just returned does not panic, and gives every slot
-- the status that it had.
pub task_free-task_alloc :
    (s : TaskState)
    → let (p, s') = task_alloc s in
      p ≢ 0
      → s.next_task_id ≢ 0
      → (task_free s' p ≡ done (release s' p)) × ((q : ℕ) → (release s' p).status q ≡ s.status q)
task_free-task_alloc s = free-Claimed s _ _ (task_alloc-Claimed s)
