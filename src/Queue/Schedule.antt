-- ===== src/Queue/Schedule.antt =====
-- Threads that share one queue: any order of their critical sections is a path of steps.
use monolinux_c_library.Prelude.{
  ℕ, ◌+◌, ◌≤◌, ◌<◌, ◌≡◌, List, [], ◌∷◌, ◌++◌, Option, length, arith, append_assoc, sym, ◌⊎◌, inl,
  inr, Bool-cases, get_or, ◌%◌,
}
use monolinux_c_library.Queue.Ring.{Queue, done, init, get, put, is_empty, push_message}
use monolinux_c_library.Queue.Fifo.{fifo_get, fifo_put}
use monolinux_c_library.Queue.Refine.{
  IsValid, wrap-eq-mod, get_elem?-get_or, contents, length-contents, init-IsValid, put_refines,
  get_refines,
}

-- The queue, and the messages put and got so far, in the order of the critical sections.
pub record System : Type 0 where
  pub queue : Queue
  pub sent : List ℕ
  pub received : List ℕ

abbrev pub start : List ℕ → ℕ → System
start storage n = record { queue = init storage n; sent = []; received = [] }

-- A sleeping thread makes no step.
pub data Step (s : System) : System → Type 0 where
  send :
      {q : Queue} {call : Option (ℕ × ℕ)} (m : ℕ)
      → put s.queue m ≡ done (q, call)
      → Step s (record s { queue = q; sent = s.sent ++ (m ∷ []) })
  receive :
      {q : Queue} {m : ℕ}
      → get s.queue ≡ done (m, q)
      → Step s (record s { queue = q; received = s.received ++ (m ∷ []) })

pub data Reach (s : System) : System → Type 0 where
  here : Reach s s
  next : {t u : System} → Reach s t → Step t u → Reach s u

-- What holds between two critical sections of a queue of capacity `n`.
pub record IsFifo (n : ℕ) (s : System) : Type 0 where
  pub valid : IsValid s.queue
  pub size : s.queue.length ≡ n + 1
  pub order : s.sent ≡ s.received ++ contents s.queue

pub put_done :
    (q : Queue) (m : ℕ) {q' : Queue} {call : Option (ℕ × ℕ)}
    → IsValid q
    → put q m ≡ done (q', call)
    → (contents q' ≡ contents q ++ (m ∷ [])) × IsValid q' × (q'.length ≡ q.length)
unfolding fifo_put
put_done q m v e = ground (arith, put_refines q m v)

pub get_done :
    (q : Queue) {q' : Queue} {m : ℕ}
    → IsValid q
    → get q ≡ done (m, q')
    → (contents q ≡ m ∷ contents q') × IsValid q' × (q'.length ≡ q.length)
unfolding fifo_get
get_done q v e = ground (arith, get_refines q v)

pub Step-IsFifo : {n : ℕ} {s t : System} → Step s t → IsFifo n s → IsFifo n t
Step-IsFifo {s = s} (send {q = q} m e) f =
    ground
      (arith, put_done s.queue m f.valid e, append_assoc s.received (contents s.queue) (m ∷ []))
Step-IsFifo {s = s} (receive {q = q} {m = m} e) f =
    ground (arith, get_done s.queue f.valid e, append_assoc s.received (m ∷ []) (contents q))

Reach-IsFifo : {n : ℕ} {s t : System} → IsFifo n s → Reach s t → IsFifo n t
Reach-IsFifo f here = f
Reach-IsFifo f (next r st) = Step-IsFifo st (Reach-IsFifo f r)

pub length-contents-le :
    (q : Queue) (n : ℕ) → IsValid q → q.length ≡ n + 1 → length (contents q) ≤ n
length-contents-le q n v e = ground (arith, length-contents q)

-- Whatever the order in which threads put and get messages on a queue made for `n` messages: the
-- messages got are a prefix of the messages put, in the same order, the rest is in the queue, and
-- that is at most `n` messages. None is lost, doubled or overtaken.
pub schedule_is_fifo :
    (storage : List ℕ) (n : ℕ) {s : System}
    → n + 1 ≤ length storage
    → Reach (start storage n) s
    → (s.sent ≡ s.received ++ contents s.queue) × (length (contents s.queue) ≤ n)
schedule_is_fifo storage n {s} h r =
    let (v, e, l, c) = init-IsValid storage n h in
    let f = Reach-IsFifo {n = n} (record { valid = v; size = l; order = sym e }) r in
    (f.order, length-contents-le s.queue n f.valid f.size)

-- On a valid queue for at least one message, a thread that puts and one that gets never both
-- sleep: in every state a get proceeds or a put does.
pub never_both_wait :
    (q : Queue) (m : ℕ)
    → IsValid q
    → 1 < q.length
    → ((r : ℕ × Queue) × (get q ≡ done r)) ⊎ ((r : Queue × Option (ℕ × ℕ)) × (put q m ≡ done r))
unfolding get put fifo_get
never_both_wait q m v h = elim (Bool-cases (is_empty q)) [
  | inl e ↦ inr ((push_message q m, q.on_put), ground (arith, wrap-eq-mod q.length q.wrpos))
  | inr e ↦ inl (
    (get_or q.messages q.rdpos 0, record q { rdpos = (q.rdpos + 1) % q.length }),
    ground (arith, get_elem?-get_or q.messages q.rdpos),
  )
]
