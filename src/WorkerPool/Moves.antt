-- ===== src/WorkerPool/Moves.antt =====
-- Who holds the messages of src/ml_worker_pool.c, in every state of the pool.
use monolinux_c_library.Prelude.{
  ℕ, ◌+◌, ◌≡◌, ◌≤◌, refl, [], ◌∷◌, Option, none, some, get_elem?, set, if◌then◌else◌, arith,
}
use monolinux_c_library.Message.{update}
use monolinux_c_library.Queue.Ring.{Queue, done, get, put}
use monolinux_c_library.Queue.Refine.{IsValid, contents}
use monolinux_c_library.Queue.Schedule.{put_done, get_done}
use monolinux_c_library.WorkerPool.Pool.{
  Job, getting, calling, freeing, Pool, count, erase, spawn_alloc,
}
use monolinux_c_library.WorkerPool.Held.{
  to_call, to_free, total, uncalled, present, is_job, times, count-append, count-erase, total-set,
  total-ge,
}

-- Each message that is in memory is held once, and each that is not is not held. A job was spawned as
-- often as it was called, and once more as long as its call is to come.
pub record IsHeld (n : ℕ) (s : Pool) : Type 0 where
  pub valid : IsValid s.jobs
  pub size : s.jobs.length ≡ n + 1
  pub held : (p : ℕ) → uncalled p s + total (to_free p) s.workers ≡ present (s.message p)
  pub once :
      (p : ℕ) (job : Job)
      → times p job s.spawned
        ≡ times p job s.called + (if is_job job (s.message p) then uncalled p s else 0)

pub alloc-IsHeld :
    (n p : ℕ) (job : Job) (s : Pool)
    → s.message p ≡ none
    → IsHeld n s
    → IsHeld n (spawn_alloc p job s)
unfolding spawn_alloc
alloc-IsHeld n p job s hp f = record {
  valid = f.valid;
  size = f.size;
  held = λ q. ground (arith, f.held q);
  once = λ q job'. ground (arith, f.held q, f.once q job');
}

pub put-IsHeld :
    (n p : ℕ) (s : Pool) {q : Queue} {on_put : Option (ℕ × ℕ)}
    → 1 ≤ count p s.pending
    → put s.jobs p ≡ done (q, on_put)
    → IsHeld n s
    → IsHeld n (record s { jobs = q; pending = erase p s.pending })
put-IsHeld n p s {q = q} h e f =
    let (ec, v, el) = put_done s.jobs p f.valid e in
    let counted : (r : ℕ) → count r (contents q) ≡ count r (contents s.jobs) + count r (p ∷ []) =
      λ r. rw ec (count-append r (contents s.jobs) (p ∷ [])) in
    record {
      valid = v;
      size = ground (arith, f.size);
      held = λ r. ground (arith, f.held r, counted r, count-erase r p s.pending h);
      once = λ r job. ground (arith, f.once r job, counted r, count-erase r p s.pending h);
    }

pub got-IsHeld :
    (n i p : ℕ) (s : Pool) {q : Queue}
    → get_elem? s.workers i ≡ some getting
    → get s.jobs ≡ done (p, q)
    → IsHeld n s
    → IsHeld n (record s { jobs = q; workers = set s.workers i (calling p) })
got-IsHeld n i p s {q = q} hw e f =
    let (ec, v, el) = get_done s.jobs f.valid e in
    let counted : (r : ℕ) → count r (contents s.jobs) ≡ count r (p ∷ contents q) =
      λ r. rw ec refl in
    let moved = λ (r : ℕ). total-set (to_call r) s.workers i getting (calling p) hw in
    let freed = λ (r : ℕ). total-set (to_free r) s.workers i getting (calling p) hw in
    record {
      valid = v;
      size = ground (arith, f.size);
      held = λ r. ground (arith, f.held r, counted r, moved r, freed r);
      once = λ r job. ground (arith, f.once r job, counted r, moved r);
    }

pub call-IsHeld :
    (n i p : ℕ) (s : Pool) {job : Job}
    → get_elem? s.workers i ≡ some (calling p)
    → s.message p ≡ some job
    → IsHeld n s
    → IsHeld n (record s { called = (p, job) ∷ s.called; workers = set s.workers i (freeing p) })
call-IsHeld n i p s hw e f =
    let moved = λ (r : ℕ). total-set (to_call r) s.workers i (calling p) (freeing p) hw in
    let freed = λ (r : ℕ). total-set (to_free r) s.workers i (calling p) (freeing p) hw in
    record {
      valid = f.valid;
      size = f.size;
      held = λ r. ground (arith, f.held r, moved r, freed r);
      once = λ r job. ground (arith, f.once r job, f.held r, moved r);
    }

pub free-IsHeld :
    (n i p : ℕ) (s : Pool)
    → get_elem? s.workers i ≡ some (freeing p)
    → IsHeld n s
    → IsHeld n (record s { message = update s.message p none; workers = set s.workers i getting })
free-IsHeld n i p s hw f =
    let moved = λ (r : ℕ). total-set (to_call r) s.workers i (freeing p) getting hw in
    let freed = λ (r : ℕ). total-set (to_free r) s.workers i (freeing p) getting hw in
    let holds = λ (r : ℕ). total-ge (to_free r) s.workers i (freeing p) hw in
    record {
      valid = f.valid;
      size = f.size;
      held = λ r. ground (arith, f.held r, moved r, freed r, holds r);
      once = λ r job. ground (arith, f.once r job, f.held r, moved r, holds r);
    }
