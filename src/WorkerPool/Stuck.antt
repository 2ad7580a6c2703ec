-- ===== src/WorkerPool/Stuck.antt =====
-- No state of src/ml_worker_pool.c with a job to do is stuck.
use monolinux_c_library.Prelude.{
  ℕ, zero, suc, ◌≡◌, ◌≤◌, ◌<◌, refl, List, [], ◌∷◌, some, get_elem?, arith, length, ◌⊎◌, inl, inr,
}
use monolinux_c_library.Queue.Ring.{Queue, Attempt, waits, fault, done, get}
use monolinux_c_library.Queue.Refine.{IsValid, contents, get_refines, put_refines}
use monolinux_c_library.Queue.Fifo.{fifo_put, fifo_get}
use monolinux_c_library.WorkerPool.Pool.{
  Worker, getting, calling, freeing, Pool, count, spawn_put, worker_step,
}
use monolinux_c_library.WorkerPool.Held.{total, to_call, uncalled}
use monolinux_c_library.WorkerPool.Moves.{IsHeld}
use monolinux_c_library.WorkerPool.Safe.{Safely, spawn_put-IsHeld, worker_step-IsHeld}
use monolinux_c_library.WorkerPool.Progress.{Works, rests, puts_next, works_next, to_do, steps_left}

-- A step of a thread that has a message to put, or of a worker.
abbrev pub Proceeds : Pool → Type 0
Proceeds s = (t : Pool) × Works s 1 t

step_of :
    (P : Pool → Type 0) (i : ℕ) (s : Pool) (a : Attempt Pool)
    → worker_step i s ≡ a
    → Safely P a
    → Proceeds s ⊎ (worker_step i s ≡ waits)
step_of P i s waits e h = inr e
step_of P i s fault e h = absurd (omega arith)
step_of P i s (done t) e h = inl (t, works_next i rests e)

put_of :
    (P : Pool → Type 0) (p : ℕ) (s : Pool) (a : Attempt Pool)
    → 1 ≤ count p s.pending
    → spawn_put p s ≡ a
    → Safely P a
    → Proceeds s ⊎ (spawn_put p s ≡ waits)
put_of P p s waits c e h = inr e
put_of P p s fault c e h = absurd (omega arith)
put_of P p s (done t) c e h = inl (t, puts_next p rests c e)

waits-get :
    (i : ℕ) (s : Pool) (w : Worker)
    → get_elem? s.workers i ≡ some w
    → worker_step i s ≡ waits
    → (to_do w ≡ 0) × (get s.jobs ≡ waits)
unfolding worker_step
waits-get i s getting hw e = ground arith
waits-get i s (calling p) hw e = ground arith
waits-get i s (freeing p) hw e = ground arith

get_waits-contents : (q : Queue) → IsValid q → get q ≡ waits → contents q ≡ []
unfolding fifo_get
get_waits-contents q v e = ground (arith, get_refines q v)

put_proceeds :
    (p : ℕ) (s : Pool)
    → IsValid s.jobs
    → 1 < s.jobs.length
    → contents s.jobs ≡ []
    → spawn_put p s ≡ waits
    → 1 ≤ zero
unfolding spawn_put fifo_put
put_proceeds p s v h hc e = ground (arith, put_refines s.jobs p v)

-- The workers are at rest, or one of them is not.
busy :
    (ws : List Worker)
    → (total to_do ws ≡ 0) ⊎ ((i : ℕ) × (w : Worker) × (get_elem? ws i ≡ some w) × (1 ≤ to_do w))
busy [] = inl refl
busy (calling p ∷ ws) = inr (0, calling p, refl, omega arith)
busy (freeing p ∷ ws) = inr (0, freeing p, refl, omega arith)
busy (getting ∷ ws) = elim (busy ws) [
  | inl h ↦ inl (omega (arith, h))
  | inr (i, w, e, h) ↦ inr (suc i, w, e, h)
]

first : (ws : List Worker) → 1 ≤ length ws → (w : Worker) × (get_elem? ws 0 ≡ some w)
first [] h = absurd (omega arith)
first (w ∷ ws) h = (w, refl)

-- Where the first worker waits, the queue is empty, and a pending message can be put.
stuck :
    (n : ℕ) (s : Pool) (w : Worker) (pending : List ℕ)
    → 1 ≤ n
    → IsHeld n s
    → get_elem? s.workers 0 ≡ some w
    → s.pending ≡ pending
    → worker_step 0 s ≡ waits
    → Proceeds s ⊎ ((s.pending ≡ []) × (contents s.jobs ≡ []))
stuck n s w [] hn f hw hp e = inr (hp, get_waits-contents s.jobs f.valid (waits-get 0 s w hw e).1)
stuck n s w (p ∷ ps) hn f hw hp e =
    let pends : 1 ≤ count p s.pending = ground (arith, hp) in
    let empty = get_waits-contents s.jobs f.valid (waits-get 0 s w hw e).1 in
    elim (put_of (IsHeld n) p s (spawn_put p s) pends refl (spawn_put-IsHeld n p s pends f)) [
      | inl t ↦ inl t
      | inr ew ↦
          absurd (omega (arith, put_proceeds p s f.valid (omega (arith, f.size, hn)) empty ew))
    ]

pub never_stuck :
    (n : ℕ) (s : Pool) → 1 ≤ n → 1 ≤ length s.workers → IsHeld n s → Proceeds s ⊎ (steps_left s ≡ 0)
never_stuck n s hn hl f = elim (busy s.workers) [
  | inr (i, w, hw, h) ↦
      elim (step_of (IsHeld n) i s (worker_step i s) refl (worker_step-IsHeld n i s f)) [
        | inl t ↦ inl t
        | inr e ↦ absurd (omega (arith, (waits-get i s w hw e).0, h))
      ]
  | inl rest ↦
      let (w, hw) = first s.workers hl in
      elim (step_of (IsHeld n) 0 s (worker_step 0 s) refl (worker_step-IsHeld n 0 s f)) [
        | inl t ↦ inl t
        | inr e ↦ elim (stuck n s w s.pending hn f hw refl e) [
          | inl t ↦ inl t
          | inr (p, c) ↦ inr (ground (arith, p, c, rest))
        ]
      ]
]

-- Where no step is left, no job waits for its call.
uncalled_ends : (p : ℕ) (ws : List Worker) → total to_do ws ≡ 0 → total (to_call p) ws ≡ 0
uncalled_ends p [] h = refl
uncalled_ends p (getting ∷ ws) h = omega (arith, uncalled_ends p ws (omega (arith, h)))
uncalled_ends p (calling q ∷ ws) h = absurd (omega (arith, h))
uncalled_ends p (freeing q ∷ ws) h = absurd (omega (arith, h))

count-le : (p : ℕ) (qs : List ℕ) → count p qs ≤ length qs
count-le p [] = omega arith
count-le p (q ∷ qs) = ground (arith, count-le p qs)

pub no_uncalled : (p : ℕ) (s : Pool) → steps_left s ≡ 0 → uncalled p s ≡ 0
no_uncalled p s h = omega (
  arith,
  count-le p s.pending,
  count-le p (contents s.jobs),
  uncalled_ends p s.workers (omega (arith, h)),
)
