-- ===== src/WorkerPool/Tests.antt =====
-- One worker, and a queue for two jobs, of which one is spawned.
use monolinux_c_library.Prelude.{ℕ, ◌+◌, ◌≡◌, refl, [], ◌∷◌, ◌⊎◌, replicate, arith}
use monolinux_c_library.Queue.Ring.{Attempt, waits, fault, done}
use monolinux_c_library.WorkerPool.Pool.{
  Job, Pool, pool_init, spawn_alloc, spawn_put, worker_step, allocates, puts, works, Reach, here,
  next,
}
use monolinux_c_library.WorkerPool.Once.{Promises, pool-Promises, all_called}
use monolinux_c_library.WorkerPool.Stuck.{Proceeds}
use monolinux_c_library.WorkerPool.Held.{times}
use monolinux_c_library.WorkerPool.Progress.{Works, rests, puts_next, works_next, steps_left}

abbrev job : Job
job = record { entry = 1; arg = 2 }

abbrev start : Pool
start = pool_init (replicate 3 0) 1 2

abbrev after : Attempt Pool → Pool
after waits = start
after fault = start
after (done t) = t

abbrev made : Pool
made = spawn_alloc 8 job start

abbrev queued : Pool
queued = after (spawn_put 8 made)

abbrev got : Pool
got = after (worker_step 0 queued)

abbrev has_called : Pool
has_called = after (worker_step 0 got)

abbrev freed : Pool
freed = after (worker_step 0 has_called)

run : Reach start freed
unfolding pool_init spawn_alloc spawn_put worker_step
run =
    next
      (next
        (next (next (next here (allocates 8 job refl)) (puts 8 (omega arith) refl)) (works 0 refl))
        (works 0 refl))
      (works 0 refl)

called_once : freed.called ≡ (8, job) ∷ []
unfolding pool_init spawn_alloc spawn_put worker_step
called_once = refl

pool-Promises_example : Promises 2 freed
pool-Promises_example = pool-Promises (replicate 3 0) 1 2 (omega arith) run

-- The steps after the message was made.
made_reached : Reach start made
unfolding pool_init spawn_alloc
made_reached = next here (allocates 8 job refl)

two_steps : Works made 2 got
unfolding pool_init spawn_alloc spawn_put worker_step
two_steps = works_next 0 (puts_next 8 rests (omega arith) refl) refl

all_called_example :
    (2 + steps_left got ≡ steps_left made)
    × (Proceeds got ⊎ ((p : ℕ) (j : Job) → times p j made.spawned ≡ times p j got.called))
all_called_example =
    all_called (replicate 3 0) 1 2 2 (omega arith) (omega arith) (omega arith) made_reached
      two_steps
