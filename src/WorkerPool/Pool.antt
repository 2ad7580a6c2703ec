-- ===== src/WorkerPool/Pool.antt =====
-- The threads of src/ml_worker_pool.c, on the queue of src/ml_queue.c. A job's message is known by the
-- address of its header; a message that was freed is gone.
use monolinux_c_library.Prelude.{
  ℕ, ◌+◌, ◌≡◌, ◌≤◌, List, [], ◌∷◌, Option, none, some, get_elem?, set, replicate, ◌==◌,
  if◌then◌else◌,
}
use monolinux_c_library.Message.{update}
use monolinux_c_library.Queue.Ring.{Queue, Attempt, waits, fault, done, init, get, put}

-- `struct worker_pool_job_message_t`; a function is known by its address.
pub record Job : Type 0 where
  pub entry : ℕ
  pub arg : ℕ

-- What a worker does next: it gets a message, calls the job of the one it has got, or frees it.
pub data Worker : Type 0 where
  getting : Worker
  calling : ℕ → Worker
  freeing : ℕ → Worker

-- `pending` are the messages that ml_worker_pool_spawn() has made and not put yet. `spawned` and
-- `called` are the jobs with their messages, the last one first.
pub record Pool : Type 0 where
  pub jobs : Queue
  pub message : ℕ → Option Job
  pub pending : List ℕ
  pub workers : List Worker
  pub spawned : List (ℕ × Job)
  pub called : List (ℕ × Job)

-- ml_worker_pool_init(), on the memory that ml_queue_init() gets.
unfoldable pub pool_init : List ℕ → ℕ → ℕ → Pool
unfolding init
pool_init storage number_of_workers job_queue_length = record {
  jobs = init storage job_queue_length;
  message = λ p. none;
  pending = [];
  workers = replicate number_of_workers getting;
  spawned = [];
  called = [];
}

-- How often an address is in a list, and the list without the first one.
abbrev pub count : ℕ → List ℕ → ℕ
count p [] = 0
count p (q ∷ qs) = (if p == q then 1 else 0) + count p qs

abbrev pub erase : ℕ → List ℕ → List ℕ
erase p [] = []
erase p (q ∷ qs) = let rest = erase p qs in if p == q then qs else q ∷ rest

-- ml_worker_pool_spawn() makes the message, and puts it, for which it may have to wait.
unfoldable pub spawn_alloc : ℕ → Job → Pool → Pool
spawn_alloc p job pool = record pool {
  message = update pool.message p (some job);
  pending = p ∷ pool.pending;
  spawned = (p, job) ∷ pool.spawned;
}

abbrev pub spawned_put : ℕ → Pool → Attempt (Queue × Option (ℕ × ℕ)) → Attempt Pool
spawned_put p pool waits = waits
spawned_put p pool fault = fault
spawned_put p pool (done (q, on_put)) =
    done (record pool { jobs = q; pending = erase p pool.pending })

unfoldable pub spawn_put : ℕ → Pool → Attempt Pool
unfolding put
spawn_put p pool = spawned_put p pool (put pool.jobs p)

-- One step of the loop of worker_pool_main() in the worker `i`.
abbrev pub worker_got : ℕ → Pool → Attempt (ℕ × Queue) → Attempt Pool
worker_got i pool waits = waits
worker_got i pool fault = fault
worker_got i pool (done (p, q)) =
    done (record pool { jobs = q; workers = set pool.workers i (calling p) })

abbrev pub worker_call : ℕ → ℕ → Pool → Option Job → Attempt Pool
worker_call i p pool none = fault
worker_call i p pool (some job) =
    done (record pool { called = (p, job) ∷ pool.called; workers = set pool.workers i (freeing p) })

abbrev pub worker_free : ℕ → ℕ → Pool → Option Job → Attempt Pool
worker_free i p pool none = fault
worker_free i p pool (some job) =
    done
      (record pool { message = update pool.message p none; workers = set pool.workers i getting })

abbrev pub worker_does : ℕ → Pool → Option Worker → Attempt Pool
worker_does i pool none = waits
worker_does i pool (some getting) = worker_got i pool (get pool.jobs)
worker_does i pool (some (calling p)) = worker_call i p pool (pool.message p)
worker_does i pool (some (freeing p)) = worker_free i p pool (pool.message p)

unfoldable pub worker_step : ℕ → Pool → Attempt Pool
unfolding get
worker_step i pool = worker_does i pool (get_elem? pool.workers i)

-- The threads in any order. An allocation finds an address that is not in use, and what is put is a
-- message that is pending.
pub data Step (s : Pool) : Pool → Type 0 where
  allocates : (p : ℕ) (job : Job) → s.message p ≡ none → Step s (spawn_alloc p job s)
  puts : {t : Pool} (p : ℕ) → 1 ≤ count p s.pending → spawn_put p s ≡ done t → Step s t
  works : {t : Pool} (i : ℕ) → worker_step i s ≡ done t → Step s t

pub data Reach (s : Pool) : Pool → Type 0 where
  here : Reach s s
  next : {t u : Pool} → Reach s t → Step t u → Reach s u
