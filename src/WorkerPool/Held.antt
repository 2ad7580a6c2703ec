-- ===== src/WorkerPool/Held.antt =====
-- Who holds a job of src/ml_worker_pool.c.
use monolinux_c_library.Prelude.{
  ℕ, zero, suc, ◌+◌, ◌≡◌, ◌≤◌, refl, List, [], ◌∷◌, ◌++◌, Option, none, some, Bool, false, ◌&&◌,
  get_elem?, set, replicate, ◌==◌, if◌then◌else◌, arith,
}
use monolinux_c_library.Queue.Refine.{contents}
use monolinux_c_library.WorkerPool.Pool.{Job, Worker, getting, calling, freeing, Pool, count, erase}

-- Whether a worker holds the message, before and after the call.
abbrev pub to_call : ℕ → Worker → ℕ
to_call p getting = 0
to_call p (calling q) = if p == q then 1 else 0
to_call p (freeing q) = 0

abbrev pub to_free : ℕ → Worker → ℕ
to_free p getting = 0
to_free p (calling q) = 0
to_free p (freeing q) = if p == q then 1 else 0

abbrev pub total : (Worker → ℕ) → List Worker → ℕ
total f [] = 0
total f (w ∷ ws) = f w + total f ws

-- The messages whose jobs are not called yet: pending, queued, or with a worker.
abbrev pub uncalled : ℕ → Pool → ℕ
uncalled p s = count p s.pending + count p (contents s.jobs) + total (to_call p) s.workers

abbrev pub present : Option Job → ℕ
present none = 0
present (some job) = 1

abbrev pub same_job : Job → Job → Bool
same_job a b = a.entry == b.entry && a.arg == b.arg

abbrev pub is_job : Job → Option Job → Bool
is_job job none = false
is_job job (some job') = same_job job job'

-- How often a job is in a list with its message.
abbrev pub times : ℕ → Job → List (ℕ × Job) → ℕ
times p job [] = 0
times p job ((q, job') ∷ xs) = (if p == q && same_job job job' then 1 else 0) + times p job xs

pub count-append : (p : ℕ) (qs rs : List ℕ) → count p (qs ++ rs) ≡ count p qs + count p rs
count-append p [] rs = omega arith
count-append p (q ∷ qs) rs = omega (arith, count-append p qs rs)

pub count-erase :
    (p q : ℕ) (qs : List ℕ)
    → 1 ≤ count q qs
    → count p (erase q qs) + (if p == q then 1 else 0) ≡ count p qs
count-erase p q [] h = absurd (omega arith)
count-erase p q (r ∷ qs) h = ground (arith, count-erase p q qs)

pub total-set :
    (f : Worker → ℕ) (ws : List Worker) (i : ℕ) (w w' : Worker)
    → get_elem? ws i ≡ some w
    → total f (set ws i w') + f w ≡ total f ws + f w'
total-set f [] i w w' h = absurd (ground arith)
total-set f (v ∷ ws) zero w w' h = ground arith
total-set f (v ∷ ws) (suc i) w w' h = ground (arith, total-set f ws i w w' h)

pub total-replicate : (f : Worker → ℕ) (n : ℕ) → f getting ≡ 0 → total f (replicate n getting) ≡ 0
total-replicate f zero h = refl
total-replicate f (suc n) h = omega (arith, h, total-replicate f n h)

pub total-ge :
    (f : Worker → ℕ) (ws : List Worker) (i : ℕ) (w : Worker)
    → get_elem? ws i ≡ some w
    → f w ≤ total f ws
total-ge f [] i w h = absurd (ground arith)
total-ge f (v ∷ ws) zero w h = ground arith
total-ge f (v ∷ ws) (suc i) w h = ground (arith, total-ge f ws i w h)
