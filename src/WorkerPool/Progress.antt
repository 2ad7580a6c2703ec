-- ===== src/WorkerPool/Progress.antt =====
-- How far the threads of src/ml_worker_pool.c still have to go.
use monolinux_c_library.Prelude.{
  ℕ, suc, ◌+◌, ◌*◌, ◌≡◌, ◌≤◌, refl, ◌∙◌, List, [], ◌∷◌, Option, none, some, get_elem?, arith,
  length, length-append, length-set, length-replicate,
}
use monolinux_c_library.Queue.Ring.{Queue, Attempt, waits, fault, done, get, put}
use monolinux_c_library.Queue.Refine.{IsValid, contents, get_refines, put_refines}
use monolinux_c_library.Queue.Fifo.{fifo_put, fifo_get}
use monolinux_c_library.WorkerPool.Pool.{
  Job, Worker, getting, calling, freeing, Pool, pool_init, count, erase, spawned_put, spawn_put,
  worker_got, worker_call, worker_free, worker_does, worker_step, spawn_alloc, Step, allocates,
  puts, works, Reach, here, next,
}
use monolinux_c_library.WorkerPool.Held.{total, total-set}

-- Steps of threads that have messages to put and of workers, and how many there were.
pub data Works (s : Pool) : ℕ → Pool → Type 0 where
  rests : Works s 0 s
  puts_next :
      {t u : Pool} {k : ℕ} (p : ℕ)
      → Works s k t
      → 1 ≤ count p t.pending
      → spawn_put p t ≡ done u
      → Works s (suc k) u
  works_next :
      {t u : Pool} {k : ℕ} (i : ℕ) → Works s k t → worker_step i t ≡ done u → Works s (suc k) u

-- A job is put, got, called and freed.
abbrev pub to_do : Worker → ℕ
to_do getting = 0
to_do (calling p) = 2
to_do (freeing p) = 1

abbrev pub steps_left : Pool → ℕ
steps_left s = 4 * length s.pending + 3 * length (contents s.jobs) + total to_do s.workers

-- A step leaves one step less, the jobs that were spawned, and the number of workers.
pub record Advances (s t : Pool) : Type 0 where
  pub fewer : steps_left s ≡ suc (steps_left t)
  pub spawned : t.spawned ≡ s.spawned
  pub workers : length t.workers ≡ length s.workers

length-erase : (p : ℕ) (qs : List ℕ) → 1 ≤ count p qs → suc (length (erase p qs)) ≡ length qs
length-erase p [] h = absurd (omega arith)
length-erase p (q ∷ qs) h = ground (arith, length-erase p qs)

put_longer :
    (q q' : Queue) (p : ℕ) (on_put : Option (ℕ × ℕ))
    → IsValid q
    → put q p ≡ done (q', on_put)
    → length (contents q') ≡ suc (length (contents q))
unfolding fifo_put
put_longer q q' p on_put v e =
    ground (arith, put_refines q p v, length-append (contents q) (p ∷ []))

get_shorter :
    (q q' : Queue) (p : ℕ)
    → IsValid q
    → get q ≡ done (p, q')
    → length (contents q) ≡ suc (length (contents q'))
unfolding fifo_get
get_shorter q q' p v e = ground (arith, get_refines q v)

-- Of the state after a step that is done.
abbrev Whenever : (Pool → Type 0) → Attempt Pool → Type 0
Whenever P waits = Unit
Whenever P fault = Unit
Whenever P (done t) = P t

put-Advances :
    (p : ℕ) (s : Pool) (a : Attempt (Queue × Option (ℕ × ℕ)))
    → IsValid s.jobs
    → 1 ≤ count p s.pending
    → put s.jobs p ≡ a
    → Whenever (Advances s) (spawned_put p s a)
put-Advances p s waits v c h = tt
put-Advances p s fault v c h = tt
put-Advances p s (done (q, on_put)) v c h = record {
  fewer = omega (arith, length-erase p s.pending c, put_longer s.jobs q p on_put v h);
  spawned = refl;
  workers = refl;
}

spawn_put-Advances :
    (p : ℕ) (s : Pool)
    → IsValid s.jobs
    → 1 ≤ count p s.pending
    → Whenever (Advances s) (spawn_put p s)
unfolding spawn_put
spawn_put-Advances p s v c = put-Advances p s (put s.jobs p) v c refl

got-Advances :
    (i : ℕ) (s : Pool) (a : Attempt (ℕ × Queue))
    → IsValid s.jobs
    → get_elem? s.workers i ≡ some getting
    → get s.jobs ≡ a
    → Whenever (Advances s) (worker_got i s a)
got-Advances i s waits v w h = tt
got-Advances i s fault v w h = tt
got-Advances i s (done (p, q)) v w h = record {
  fewer =
      omega (arith, get_shorter s.jobs q p v h, total-set to_do s.workers i getting (calling p) w);
  spawned = refl;
  workers = length-set s.workers i (calling p);
}

call-Advances :
    (i p : ℕ) (s : Pool) (o : Option Job)
    → get_elem? s.workers i ≡ some (calling p)
    → Whenever (Advances s) (worker_call i p s o)
call-Advances i p s none w = tt
call-Advances i p s (some job) w = record {
  fewer = omega (arith, total-set to_do s.workers i (calling p) (freeing p) w);
  spawned = refl;
  workers = length-set s.workers i (freeing p);
}

free-Advances :
    (i p : ℕ) (s : Pool) (o : Option Job)
    → get_elem? s.workers i ≡ some (freeing p)
    → Whenever (Advances s) (worker_free i p s o)
free-Advances i p s none w = tt
free-Advances i p s (some job) w = record {
  fewer = omega (arith, total-set to_do s.workers i (freeing p) getting w);
  spawned = refl;
  workers = length-set s.workers i getting;
}

does-Advances :
    (i : ℕ) (s : Pool) (o : Option Worker)
    → IsValid s.jobs
    → get_elem? s.workers i ≡ o
    → Whenever (Advances s) (worker_does i s o)
does-Advances i s none v w = tt
does-Advances i s (some getting) v w = got-Advances i s (get s.jobs) v w refl
does-Advances i s (some (calling p)) v w = call-Advances i p s (s.message p) w
does-Advances i s (some (freeing p)) v w = free-Advances i p s (s.message p) w

worker_step-Advances : (i : ℕ) (s : Pool) → IsValid s.jobs → Whenever (Advances s) (worker_step i s)
unfolding worker_step
worker_step-Advances i s v = does-Advances i s (get_elem? s.workers i) v refl

happens : (P : Pool → Type 0) (a : Attempt Pool) (t : Pool) → Whenever P a → a ≡ done t → P t
happens P a t h e = rw e at h

-- Each step advances, where the queue is valid.
pub after_put :
    (p : ℕ) (s t : Pool)
    → IsValid s.jobs
    → 1 ≤ count p s.pending
    → spawn_put p s ≡ done t
    → Advances s t
after_put p s t v c e = happens (Advances s) (spawn_put p s) t (spawn_put-Advances p s v c) e

pub after_work : (i : ℕ) (s t : Pool) → IsValid s.jobs → worker_step i s ≡ done t → Advances s t
after_work i s t v e = happens (Advances s) (worker_step i s) t (worker_step-Advances i s v) e

length-init :
    (storage : List ℕ) (workers n : ℕ) → length (pool_init storage workers n).workers ≡ workers
unfolding pool_init
length-init storage workers n = length-replicate workers getting

length-alloc :
    (p : ℕ) (job : Job) (s : Pool) → length (spawn_alloc p job s).workers ≡ length s.workers
unfolding spawn_alloc
length-alloc p job s = refl

length-Step : {s t : Pool} → IsValid s.jobs → Step s t → length t.workers ≡ length s.workers
length-Step {s} v (allocates p job e) = length-alloc p job s
length-Step {s} v (puts p c e) = (after_put p s _ v c e).workers
length-Step {s} v (works i e) = (after_work i s _ v e).workers

-- The pool keeps its workers.
pub length-workers :
    (storage : List ℕ) (workers n : ℕ) {s : Pool}
    → ((t : Pool) → Reach (pool_init storage workers n) t → IsValid t.jobs)
    → Reach (pool_init storage workers n) s
    → length s.workers ≡ workers
length-workers storage workers n v here = length-init storage workers n
length-workers storage workers n v (next {t} r e) =
    length-Step (v t r) e ∙ length-workers storage workers n v r
