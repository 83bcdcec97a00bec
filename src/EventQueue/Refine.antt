-- ===== src/EventQueue/Refine.antt =====
-- A valid event queue behaves as the FIFO of the pointers that it holds.
use ntm_os.Prelude.{
  ℕ, zero, suc, ◌+◌, ◌-◌, ◌%◌, ◌<◌, ◌≡◌, ◌≢◌, ◌↔◌, refl, ap, ap₂, ◌∙◌, List, [], ◌∷◌, ◌++◌, arith,
  ◌==◌, if◌then◌else◌, length, get_or, set, get_or-set_self, get_or-set_ne, Bool-cases, inl, inr,
  true, false, ◌&&◌, ==→eq,
}
use ntm_os.EventQueue.{
  EventQueue, n_nodes, advance, store_node, enqueue, dequeue, Op, put, get, run,
}
use ntm_os.EventQueue.Fifo.{push, pop, run_fifo}
use ntm_os.EventQueue.Inv.{IsValid, advance-mod, advance-lt, enqueue-IsValid, dequeue-IsValid}

-- The `n` pointers from slot `h` on, going round at the end of the array.
abbrev pub window : List ℕ → ℕ → ℕ → List ℕ
window b h zero = []
window b h (suc n) = get_or b h 0 ∷ window b (advance h) n

-- How many pointers the queue holds: the distance from `head` to `tail`, or all slots.
unfoldable pub count : EventQueue → ℕ
count q = if q.full == 0 then (q.tail + n_nodes - q.head) % n_nodes else n_nodes

abbrev pub contents : EventQueue → List ℕ
contents q = window q.nodes q.head (count q)

length-window : (b : List ℕ) (h n : ℕ) → length (window b h n) ≡ n
length-window b h zero = refl
length-window b h (suc n) = ap suc (length-window b (advance h) n)

-- Writing the slot just past a window extends it.
window-set :
    (b : List ℕ) (n h i p : ℕ)
    → length b ≡ n_nodes
    → h < n_nodes
    → n < n_nodes
    → i ≡ (h + n) % n_nodes
    → window (set b i p) h (suc n) ≡ window b h n ++ (p ∷ [])
window-set b zero h i p hb hh hn e =
    let e' : h ≡ i = omega arith in
    ap₂ ◌∷◌ (ap (λ k. get_or (set b i p) k 0) e' ∙ get_or-set_self b i p 0 (omega arith)) refl
window-set b (suc n) h i p hb hh hn e = ap₂ ◌∷◌ (get_or-set_ne b i h p 0 (omega arith)) (
    window-set b n (advance h) i p hb (advance-lt h) (omega arith)
      (omega (arith, advance-mod h hh)))

count-lt : {q : EventQueue} → IsValid q → q.full ≡ 0 → count q < n_nodes
unfolding count
count-lt {q} v e = ground arith

count-zero : {q : EventQueue} → IsValid q → q.full ≡ 0 → (count q ≡ 0) ↔ (q.head ≡ q.tail)
unfolding count
count-zero {q} v e = (λ h. ground arith, λ h. ground arith)

tail-eq : {q : EventQueue} → IsValid q → q.full ≡ 0 → q.tail ≡ (q.head + count q) % n_nodes
unfolding count
tail-eq {q} v e = ground arith

count-store :
    {q : EventQueue} (p : ℕ) → IsValid q → q.full ≡ 0 → count (store_node q p) ≡ suc (count q)
unfolding store_node advance count
count-store {q} p v e = ground arith

store-contents :
    {q : EventQueue} (p : ℕ)
    → IsValid q
    → q.full ≡ 0
    → contents (store_node q p) ≡ contents q ++ (p ∷ [])
store-contents {q} p v e =
    ap (window (store_node q p).nodes (store_node q p).head) (count-store p v e) ∙ opened
  where
    opened :
        window (store_node q p).nodes (store_node q p).head (suc (count q)) ≡ contents q ++ (p ∷ [])
    opened =
        unfold store_node in
        window-set q.nodes (count q) q.head q.tail p v.size v.head_in (count-lt v e) (tail-eq v e)

-- `enqueue_event_queue` returns what the bounded FIFO returns and leaves its contents.
pub enqueue_refines :
    {q : EventQueue} (p : ℕ)
    → IsValid q
    → let (r, q') = enqueue q p in (r, contents q') ≡ push (contents q) p
unfolding enqueue push
enqueue_refines {q} p v = elim (Bool-cases (q.full == 0)) [
  | inl e ↦ ground (
    arith,
    store-contents p v,
    length-window q.nodes q.head (count q),
    count-lt v (==→eq q.full 0 e),
  )
  | inr ne ↦ ground (arith, length-window q.nodes q.head (count q), full-count)
]
  where
    full-count : q.full ≢ 0 → count q ≡ n_nodes
    full-count ne = unfold count in ground arith

-- `window` matches on `suc`; the code tests `head == tail`.
window_of_ne_zero :
    (b : List ℕ) (h n : ℕ) → n ≢ 0 → window b h n ≡ get_or b h 0 ∷ window b (advance h) (n - 1)
window_of_ne_zero b h zero ne = absurd (ne refl)
window_of_ne_zero b h (suc n) ne = ap (λ k. window b h (suc k)) (omega arith)

count-dequeue : {q : EventQueue} → IsValid q → count q ≢ 0 → count (dequeue q).1 ≡ count q - 1
unfolding count dequeue advance
count-dequeue {q} v ne = ground arith

count-empty :
    {q : EventQueue} → IsValid q → ((q.head == q.tail) && (q.full == 0)) ≡ true → count q ≡ 0
unfolding count
count-empty {q} v h = ground arith

count-nonempty :
    {q : EventQueue} → IsValid q → ((q.head == q.tail) && (q.full == 0)) ≡ false → count q ≢ 0
unfolding count
count-nonempty {q} v h = ground arith

-- `dequeue_event_queue` returns the oldest pointer, or 0, and leaves the rest.
pub dequeue_refines :
    {q : EventQueue} → IsValid q → let (p, q') = dequeue q in (p, contents q') ≡ pop (contents q)
unfolding dequeue pop
dequeue_refines {q} v = elim (Bool-cases ((q.head == q.tail) && (q.full == 0))) [
  | inl e ↦ rw (e, count-empty v e) refl
  | inr ne ↦
      ground (arith, count-dequeue v, count-nonempty v, window_of_ne_zero q.nodes q.head (count q))
]

-- No sequence of calls tells a valid event queue from the FIFO of its contents.
pub run_refines :
    (ops : List Op) {q : EventQueue} → IsValid q → run q ops ≡ run_fifo (contents q) ops
unfolding run run_fifo
run_refines [] v = refl
run_refines (put p ∷ ops) v = rw (run_refines ops (enqueue-IsValid p v), ← enqueue_refines p v)
run_refines (get ∷ ops) v = rw (run_refines ops (dequeue-IsValid v), ← dequeue_refines v)
