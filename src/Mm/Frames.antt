-- ===== src/Mm/Frames.antt =====
-- The page frames: a sequence of calls of `palloc` and `pfree` from the initial map.
use ntm_os.Prelude.{
  ℕ, suc, ◌-◌, ◌*◌, ◌/◌, ◌≡◌, refl, ap, arith, List, [], ◌∷◌, Bool, true, false, ◌||◌, leb,
  replicate, if◌then◌else◌, Bool-cases, inl, inr,
}
use ntm_os.Prelude.Memory.{Memory}
use ntm_os.Prelude.Run.{Run, done, panic, ◌>>=◌}
use ntm_os.Mm.{low_mem, page_size, find_frame, palloc, pfree}

pub data Op : Type 0 where
  alloc : Op
  free : ℕ → Op

-- The answers of `palloc` in a sequence of calls, up to its end.
unfoldable pub calls : Memory → List Op → Run (List ℕ)
calls frames [] = done []
calls frames (alloc ∷ ops) =
    let (a, frames') = palloc frames in do rest ← calls frames' ops; done (a ∷ rest)
calls frames (free a ∷ ops) = do frames' ← pfree frames a; calls frames' ops

abbrev pub Unused : Memory → Type 0
Unused frames = (i : ℕ) → frames i ≡ 0

-- Some call frees an address that is not below the managed memory.
abbrev pub frees_managed : List Op → Bool
frees_managed [] = false
frees_managed (alloc ∷ ops) = frees_managed ops
frees_managed (free a ∷ ops) = leb low_mem a || frees_managed ops

abbrev pub allocs : List Op → ℕ
allocs [] = 0
allocs (alloc ∷ ops) = suc (allocs ops)
allocs (free a ∷ ops) = allocs ops

find_frame-first :
    (n : ℕ) (frames : Memory) (i : ℕ) → frames i ≡ 0 → find_frame (suc n) frames i ≡ i * page_size
unfolding find_frame
find_frame-first n frames i e = ground arith

palloc-Unused : (frames : Memory) → Unused frames → palloc frames ≡ (0, frames)
unfolding palloc
palloc-Unused frames unused = ap (λ a. (a, frames)) (find_frame-first 49151 frames 0 (unused 0))

pfree-managed :
    (frames : Memory) (a : ℕ) → Unused frames → leb low_mem a ≡ true → pfree frames a ≡ panic
unfolding pfree
pfree-managed frames a unused h = ground (arith, unused ((a - low_mem) / page_size))

pfree-low : (frames : Memory) (a : ℕ) → leb low_mem a ≡ false → pfree frames a ≡ done frames
unfolding pfree
pfree-low frames a h = ground arith

-- From a map with no frame in use, `palloc` answers 0 to every call and no frame is ever marked:
-- a sequence of calls panics if one of them frees an address in or above the managed memory, and
-- otherwise returns 0 for each `palloc`.
pub palloc_hands_out_zero :
    (ops : List Op) (frames : Memory)
    → Unused frames
    → calls frames ops ≡ (if frees_managed ops then panic else done (replicate (allocs ops) 0))
unfolding calls
palloc_hands_out_zero [] frames unused = refl
palloc_hands_out_zero (alloc ∷ ops) frames unused =
    rw (palloc-Unused frames unused, palloc_hands_out_zero ops frames unused) (ground arith)
palloc_hands_out_zero (free a ∷ ops) frames unused = elim (Bool-cases (leb low_mem a)) [
  | inl managed ↦ rw (managed, pfree-managed frames a unused managed) refl
  | inr low ↦ rw (low, pfree-low frames a low) (palloc_hands_out_zero ops frames unused)
]
