-- ===== src/WorkerPool/Once.antt =====
-- Every job of src/ml_worker_pool.c is called once, and its threads get all jobs done.
use monolinux_c_library.Prelude.{
  ℕ, ◌+◌, ◌≡◌, ◌≤◌, refl, sym, ◌∙◌, Bool, List, if◌then◌else◌, arith, length, ◌⊎◌, inl, inr,
}
use monolinux_c_library.Queue.Ring.{Attempt, waits, fault, done}
use monolinux_c_library.Queue.Refine.{contents}
use monolinux_c_library.Queue.Schedule.{length-contents-le}
use monolinux_c_library.WorkerPool.Pool.{Job, Pool, pool_init, worker_step, puts, works, Reach}
use monolinux_c_library.WorkerPool.Held.{uncalled, is_job, times}
use monolinux_c_library.WorkerPool.Moves.{IsHeld}
use monolinux_c_library.WorkerPool.Safe.{
  Safely, worker_step-IsHeld, Step-IsHeld, Reach-IsHeld, init-IsHeld,
}
use monolinux_c_library.WorkerPool.Progress.{
  Works, rests, puts_next, works_next, steps_left, after_put, after_work, length-workers,
}
use monolinux_c_library.WorkerPool.Stuck.{Proceeds, never_stuck, no_uncalled}

-- What the pool promises in a state: at most `n` jobs wait in the queue; a job was spawned as often as
-- it was called, and once more if its message is held for a call to come, which is so for one job of
-- a message at most; and a step of a worker does not fault.
abbrev pub Promises : ℕ → Pool → Type 0
Promises n s =
    (length (contents s.jobs) ≤ n)
    × ((p : ℕ) (job : Job)
        → times p job s.spawned
          ≡ times p job s.called + (if is_job job (s.message p) then uncalled p s else 0))
    × ((p : ℕ) → uncalled p s ≤ 1)
    × ((i : ℕ) → Safely (λ t. Unit) (worker_step i s))

Safely-any : (P : Pool → Type 0) (a : Attempt Pool) → Safely P a → Safely (λ t. Unit) a
Safely-any P waits h = tt
Safely-any P fault h = h
Safely-any P (done t) h = tt

-- Whatever the order of the steps of the threads that spawn jobs and of the workers: at most `n` jobs
-- wait in the queue; a job is spawned as often as it is called, and once more while its message is
-- held for a call to come, which is so for at most one holder at a time; and no step of a worker
-- touches a message that was freed or reads outside the queue.
pub pool-Promises :
    (storage : List ℕ) (workers n : ℕ) {s : Pool}
    → n + 1 ≤ length storage
    → Reach (pool_init storage workers n) s
    → Promises n s
pool-Promises storage workers n {s} h r =
    let f = Reach-IsHeld n (init-IsHeld storage workers n h) r in
    (
      length-contents-le s.jobs n f.valid f.size,
      f.once,
      λ p. ground (arith, f.held p),
      λ i. Safely-any (IsHeld n) (worker_step i s) (worker_step-IsHeld n i s f),
    )

-- A run of such steps from a state that is held.
run-IsHeld :
    (n : ℕ) {s t : Pool} {k : ℕ}
    → IsHeld n s
    → Works s k t
    → IsHeld n t
      × (k + steps_left t ≡ steps_left s)
      × (t.spawned ≡ s.spawned)
      × (length t.workers ≡ length s.workers)
run-IsHeld n f rests = (f, omega arith, refl, refl)
run-IsHeld n f (puts_next {t} {u} p r c e) =
    let (g, left, spawned, workers) = run-IsHeld n f r in
    let a = after_put p t u g.valid c e in
    (
      Step-IsHeld n (puts p c e) g,
      omega (arith, left, a.fewer),
      a.spawned ∙ spawned,
      a.workers ∙ workers,
    )
run-IsHeld n f (works_next {t} {u} i r e) =
    let (g, left, spawned, workers) = run-IsHeld n f r in
    let a = after_work i t u g.valid e in
    (
      Step-IsHeld n (works i e) g,
      omega (arith, left, a.fewer),
      a.spawned ∙ spawned,
      a.workers ∙ workers,
    )

ended :
    (spawned called uncalled : ℕ) (b : Bool)
    → spawned ≡ called + (if b then uncalled else 0)
    → uncalled ≡ 0
    → spawned ≡ called
ended spawned called uncalled b e h = ground arith

-- A pool with a worker and a queue for at least one job, whose memory has a place more, gets every job
-- done. From any state that its
-- threads came to, let threads that have a message to put and workers make any `k` steps, and none
-- spawn more jobs: each step leaves one step less to do, so that they end; and after them such a step
-- can be done, or each job that was spawned was called as often. A call of a job is taken to return:
-- one that itself waits for room in the queue is not covered.
pub all_called :
    (storage : List ℕ) (workers n k : ℕ) {s t : Pool}
    → n + 1 ≤ length storage
    → 1 ≤ n
    → 1 ≤ workers
    → Reach (pool_init storage workers n) s
    → Works s k t
    → (k + steps_left t ≡ steps_left s)
      × (Proceeds t ⊎ ((p : ℕ) (job : Job) → times p job s.spawned ≡ times p job t.called))
all_called storage workers n k {s} {t} h hn hw r run =
    let i = init-IsHeld storage workers n h in
    let f = Reach-IsHeld n i r in
    let (g, left, spawned, length) = run-IsHeld n f run in
    let many = length-workers storage workers n (λ u r'. (Reach-IsHeld n i r').valid) r in
    (
      left,
      elim (never_stuck n t hn (omega (arith, length, many, hw)) g) [
        | inl u ↦ inl u
        | inr e ↦ inr (λ p job. rw (sym spawned) (
            ended (times p job t.spawned) (times p job t.called) (uncalled p t)
              (is_job job (t.message p)) (g.once p job) (no_uncalled p t e)))
      ],
    )
