-- ===== src/Queue/Refine.antt =====
-- The ring of ml_queue.c holds the list of messages between its two positions.
use native.Mathlib.Nat.{mod-eq_of_lt, mod-eq-sub-mod}
use monolinux_c_library.Prelude.{
  ℕ, zero, suc, ◌+◌, ◌-◌, ◌%◌, ◌≤◌, ◌<◌, ◌≡◌, refl, ap, ap₂, List, [], ◌∷◌, ◌++◌, Option, none,
  some, length, get_elem?, get_or, set, length-set, ltb, ltb→lt, leb, ◌==◌, if◌then◌else◌, arith,
  Bool-cases, inl, inr,
}
use monolinux_c_library.Queue.Ring.{Queue, Attempt, waits, fault, done, init, get, put}
use monolinux_c_library.Queue.Fifo.{fifo_get, fifo_put}

-- Positions stay inside the array, which has room for `length` pointers.
pub record IsValid (q : Queue) : Type 0 where
  pub rd_in : q.rdpos < q.length
  pub wr_in : q.wrpos < q.length
  pub room : q.length ≤ length q.messages

-- One step round the ring, without division.
abbrev pub wrap : ℕ → ℕ → ℕ
wrap len i = if ltb i len then i else i - len

pub wrap-eq-mod : (len i : ℕ) → i < len → (i + 1) % len ≡ wrap len (i + 1)
wrap-eq-mod len i h = elim (Bool-cases (ltb (i + 1) len)) [
  | inl p ↦ rw p (mod-eq_of_lt (ltb→lt _ _ p))
  | inr p ↦ ground (
    arith,
    mod-eq-sub-mod {n = i + 1} {m = len} (ground arith),
    mod-eq_of_lt {n = i + 1 - len} {m = len} (ground arith),
  )
]

-- How many messages are stored.
abbrev pub stored : Queue → ℕ
stored q = if leb q.rdpos q.wrpos then q.wrpos - q.rdpos else q.wrpos + q.length - q.rdpos

-- The `n` messages from position `i` on.
abbrev pub messages_from : List ℕ → ℕ → ℕ → ℕ → List ℕ
messages_from ms len i zero = []
messages_from ms len i (suc n) = get_or ms i 0 ∷ messages_from ms len (wrap len (i + 1)) n

abbrev pub contents : Queue → List ℕ
contents q = messages_from q.messages q.length q.rdpos (stored q)

length-messages_from : (ms : List ℕ) (len i n : ℕ) → length (messages_from ms len i n) ≡ n
length-messages_from ms len i zero = refl
length-messages_from ms len i (suc n) = ap suc (length-messages_from ms len (wrap len (i + 1)) n)

get_or-set :
    (ms : List ℕ) (i j v : ℕ)
    → i < length ms
    → get_or (set ms i v) j 0 ≡ (if i == j then v else get_or ms j 0)
get_or-set [] i j v h = absurd (omega arith)
get_or-set (x ∷ ms) zero zero v h = refl
get_or-set (x ∷ ms) zero (suc j) v h = ground arith
get_or-set (x ∷ ms) (suc i) zero v h = ground arith
get_or-set (x ∷ ms) (suc i) (suc j) v h = ground (arith, get_or-set ms i j v)

pub get_elem?-get_or : (ms : List ℕ) (i : ℕ) → i < length ms → get_elem? ms i ≡ some (get_or ms i 0)
get_elem?-get_or [] i h = absurd (omega arith)
get_elem?-get_or (x ∷ ms) zero h = refl
get_elem?-get_or (x ∷ ms) (suc i) h = get_elem?-get_or ms i (omega arith)

-- A write `n` places behind `i` shows as the last of `n + 1` messages, and changes none before it.
messages_from-set :
    (ms : List ℕ) (len m n i j : ℕ)
    → len ≤ length ms
    → i < len
    → n < len
    → j ≡ wrap len (i + n)
    → messages_from (set ms j m) len i (suc n) ≡ messages_from ms len i n ++ (m ∷ [])
messages_from-set ms len m zero i j r hi hn e = ground (arith, get_or-set ms j i m)
messages_from-set ms len m (suc n) i j r hi hn e = ap₂ ◌∷◌ (ground (arith, get_or-set ms j i m)) (
    messages_from-set ms len m n (wrap len (i + 1)) j r (ground arith) (omega arith) (ground arith))

messages_from-pos :
    (ms : List ℕ) (len i n : ℕ)
    → 0 < n
    → messages_from ms len i n ≡ get_or ms i 0 ∷ messages_from ms len (wrap len (i + 1)) (n - 1)
messages_from-pos ms len i zero h = absurd (omega arith)
messages_from-pos ms len i (suc n) h =
    ap (λ k. get_or ms i 0 ∷ messages_from ms len (wrap len (i + 1)) k) (omega arith)

pub length-contents : (q : Queue) → length (contents q) ≡ stored q
length-contents q = length-messages_from q.messages q.length q.rdpos (stored q)

-- What a critical section leaves behind; one that sleeps leaves all as it was, and none faults.
abbrev pub Leaves {ℓ κ} : {A : Type ℓ} → (A → Type κ) → Attempt A → Type κ
Leaves P waits = Unit
Leaves P fault = Unit
Leaves P (done a) = P a

abbrev pub put_view : Attempt (Queue × Option (ℕ × ℕ)) → Attempt (List ℕ)
put_view waits = waits
put_view fault = fault
put_view (done (q, call)) = done (contents q)

abbrev pub get_view : Attempt (ℕ × Queue) → Attempt (ℕ × List ℕ)
get_view waits = waits
get_view fault = fault
get_view (done (m, q)) = done (m, contents q)

-- A queue made by ml_queue_init for `length` messages is valid and empty, has the capacity
-- `length`, and calls nothing on a put, if the array has room for `length + 1` pointers.
pub init-IsValid :
    (storage : List ℕ) (n : ℕ)
    → n + 1 ≤ length storage
    → IsValid (init storage n)
      × (contents (init storage n) ≡ [])
      × ((init storage n).length ≡ n + 1)
      × ((init storage n).on_put ≡ none)
unfolding init
init-IsValid storage n h = (ground arith, refl, refl, refl)

-- ml_queue_put on a valid queue is the put of a list with the capacity `length - 1`: it sleeps
-- exactly when that many messages are stored, and else appends the message. It leaves the queue
-- valid, with the same length and callback, and it is the registered callback that it calls.
pub put_refines :
    (q : Queue) (m : ℕ)
    → IsValid q
    → (put_view (put q m) ≡ fifo_put (q.length - 1) (contents q) m)
      × Leaves
          (λ r. IsValid r.0 × (r.0.length ≡ q.length) × (r.0.on_put ≡ q.on_put) × (r.1 ≡ q.on_put))
          (put q m)
unfolding put fifo_put
put_refines q m v = ground (
  arith,
  wrap-eq-mod q.length q.wrpos,
  length-contents q,
  length-set q.messages q.wrpos m,
  messages_from-set q.messages q.length m (stored q) q.rdpos q.wrpos,
)

-- ml_queue_get on a valid queue is the get of a list: it sleeps exactly when no message is stored,
-- and else takes the oldest one. It never reads outside the array, and leaves the queue valid,
-- with the same length and callback.
pub get_refines :
    (q : Queue)
    → IsValid q
    → (get_view (get q) ≡ fifo_get (contents q))
      × Leaves (λ r. IsValid r.1 × (r.1.length ≡ q.length) × (r.1.on_put ≡ q.on_put)) (get q)
unfolding get fifo_get
get_refines q v = ground (
  arith,
  wrap-eq-mod q.length q.rdpos,
  get_elem?-get_or q.messages q.rdpos,
  messages_from-pos q.messages q.length q.rdpos (stored q),
)
