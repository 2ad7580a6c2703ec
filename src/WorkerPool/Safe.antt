-- ===== src/WorkerPool/Safe.antt =====
-- The steps of src/ml_worker_pool.c do not fault.
use monolinux_c_library.Prelude.{
  ℕ, zero, ◌+◌, ◌≡◌, ◌≤◌, refl, List, [], ◌∷◌, Option, none, some, get_elem?, arith, length, ap,
}
use monolinux_c_library.Queue.Ring.{Queue, Attempt, waits, fault, done, get, put}
use monolinux_c_library.Queue.Refine.{contents, init-IsValid, get_refines, put_refines}
use monolinux_c_library.Queue.Fifo.{fifo_put, fifo_get}
use monolinux_c_library.WorkerPool.Pool.{
  Job, Worker, getting, calling, freeing, Pool, pool_init, count, spawn_put, spawned_put,
  worker_step, worker_does, worker_got, worker_call, worker_free, Step, allocates, puts, works,
  Reach, here, next,
}
use monolinux_c_library.WorkerPool.Held.{to_call, to_free, total-ge, total-replicate}
use monolinux_c_library.WorkerPool.Moves.{
  IsHeld, alloc-IsHeld, put-IsHeld, got-IsHeld, call-IsHeld, free-IsHeld,
}

-- A step leads to what holds, and does not fault.
abbrev pub Safely : (Pool → Type 0) → Attempt Pool → Type 0
Safely P waits = Unit
Safely P fault = 1 ≤ zero
Safely P (done t) = P t

fifo_get-safe : (ms : List ℕ) → (fifo_get ms ≡ fault) → 1 ≤ zero
unfolding fifo_get
fifo_get-safe [] h = ground arith
fifo_get-safe (m ∷ ms) h = ground arith

put-Safely :
    (n p : ℕ) (s : Pool) (a : Attempt (Queue × Option (ℕ × ℕ)))
    → 1 ≤ count p s.pending
    → IsHeld n s
    → put s.jobs p ≡ a
    → Safely (IsHeld n) (spawned_put p s a)
unfolding fifo_put
put-Safely n p s waits h f e = tt
put-Safely n p s fault h f e = ground (arith, put_refines s.jobs p f.valid)
put-Safely n p s (done (q, on_put)) h f e = put-IsHeld n p s h e f

pub spawn_put-IsHeld :
    (n p : ℕ) (s : Pool) → 1 ≤ count p s.pending → IsHeld n s → Safely (IsHeld n) (spawn_put p s)
unfolding spawn_put
spawn_put-IsHeld n p s h f = put-Safely n p s (put s.jobs p) h f refl

got-Safely :
    (n i : ℕ) (s : Pool) (a : Attempt (ℕ × Queue))
    → get_elem? s.workers i ≡ some getting
    → IsHeld n s
    → get s.jobs ≡ a
    → Safely (IsHeld n) (worker_got i s a)
got-Safely n i s waits hw f e = tt
got-Safely n i s fault hw f e =
    ground (arith, get_refines s.jobs f.valid, fifo_get-safe (contents s.jobs))
got-Safely n i s (done (p, q)) hw f e = got-IsHeld n i p s hw e f

call-Safely :
    (n i p : ℕ) (s : Pool) (o : Option Job)
    → get_elem? s.workers i ≡ some (calling p)
    → IsHeld n s
    → s.message p ≡ o
    → Safely (IsHeld n) (worker_call i p s o)
call-Safely n i p s none hw f e =
    ground (arith, f.held p, total-ge (to_call p) s.workers i (calling p) hw)
call-Safely n i p s (some job) hw f e = call-IsHeld n i p s hw e f

free-Safely :
    (n i p : ℕ) (s : Pool) (o : Option Job)
    → get_elem? s.workers i ≡ some (freeing p)
    → IsHeld n s
    → s.message p ≡ o
    → Safely (IsHeld n) (worker_free i p s o)
free-Safely n i p s none hw f e =
    ground (arith, f.held p, total-ge (to_free p) s.workers i (freeing p) hw)
free-Safely n i p s (some job) hw f e = free-IsHeld n i p s hw f

worker-Safely :
    (n i : ℕ) (s : Pool) (o : Option Worker)
    → get_elem? s.workers i ≡ o
    → IsHeld n s
    → Safely (IsHeld n) (worker_does i s o)
worker-Safely n i s none e f = tt
worker-Safely n i s (some getting) e f = got-Safely n i s (get s.jobs) e f refl
worker-Safely n i s (some (calling p)) e f = call-Safely n i p s (s.message p) e f refl
worker-Safely n i s (some (freeing p)) e f = free-Safely n i p s (s.message p) e f refl

pub worker_step-IsHeld : (n i : ℕ) (s : Pool) → IsHeld n s → Safely (IsHeld n) (worker_step i s)
unfolding worker_step
worker_step-IsHeld n i s f = worker-Safely n i s (get_elem? s.workers i) refl f

pub Step-IsHeld : (n : ℕ) {s t : Pool} → Step s t → IsHeld n s → IsHeld n t
Step-IsHeld n {s = s} (allocates p job h) f = alloc-IsHeld n p job s h f
Step-IsHeld n {s = s} (puts p h e) f = rw e at (spawn_put-IsHeld n p s h f)
Step-IsHeld n {s = s} (works i e) f = rw e at (worker_step-IsHeld n i s f)

pub Reach-IsHeld : (n : ℕ) {s t : Pool} → IsHeld n s → Reach s t → IsHeld n t
Reach-IsHeld n f here = f
Reach-IsHeld n f (next r st) = Step-IsHeld n st (Reach-IsHeld n f r)

pub init-IsHeld :
    (storage : List ℕ) (workers n : ℕ)
    → n + 1 ≤ length storage
    → IsHeld n (pool_init storage workers n)
unfolding pool_init
init-IsHeld storage workers n h =
    let (v, e, l, c) = init-IsValid storage n h in
    record {
      valid = v;
      size = l;
      held = λ p. ground (
        arith,
        ap (count p) e,
        total-replicate (to_call p) workers refl,
        total-replicate (to_free p) workers refl,
      );
      once = λ p job. omega arith;
    }
