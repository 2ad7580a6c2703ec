-- ===== src/Queue/Ring.antt =====
-- The bounded message queue of src/ml_queue.c. A message is the address of its header; the mutex
-- makes each body below atomic, and `waits` is a thread that sleeps on a condition variable.
use monolinux_c_library.Prelude.{
  ℕ, ◌+◌, ◌%◌, List, Option, none, some, Bool, get_elem?, set, ◌==◌, if◌then◌else◌,
}

-- `on_put` is the registered function with its argument, if any. `messages` is the allocated array.
pub record Queue : Type 0 where
  pub on_put : Option (ℕ × ℕ)
  pub rdpos : ℕ
  pub wrpos : ℕ
  pub length : ℕ
  pub messages : List ℕ

-- What a critical section comes to: it sleeps with nothing changed, reads outside the array, or
-- is carried out.
pub data Attempt {ℓ} (A : Type ℓ) : Type ℓ where
  waits : Attempt A
  fault : Attempt A
  done : A → Attempt A

unfoldable pub is_empty : Queue → Bool
is_empty q = q.rdpos == q.wrpos

unfoldable pub is_full : Queue → Bool
is_full q = (q.wrpos + 1) % q.length == q.rdpos

unfoldable pub push_message : Queue → ℕ → Queue
push_message q header = record q {
  messages = set q.messages q.wrpos header;
  wrpos = (q.wrpos + 1) % q.length;
}

unfoldable pub pop_message : Queue → Attempt (ℕ × Queue)
pop_message q = elim (get_elem? q.messages q.rdpos) [
  | none ↦ fault
  | some header ↦ done (header, record q { rdpos = (q.rdpos + 1) % q.length })
]

-- `storage` is what xmalloc returns for `length + 1` pointers, with whatever it holds.
unfoldable pub init : List ℕ → ℕ → Queue
init storage length = record {
  on_put = none;
  rdpos = 0;
  wrpos = 0;
  length = length + 1;
  messages = storage;
}

unfoldable pub set_on_put : Queue → ℕ → ℕ → Queue
set_on_put q func arg = record q { on_put = some (func, arg) }

unfoldable pub get : Queue → Attempt (ℕ × Queue)
unfolding is_empty pop_message
get q = if is_empty q then waits else pop_message q

-- The second part is the call of `on_put.func` that follows the critical section.
unfoldable pub put : Queue → ℕ → Attempt (Queue × Option (ℕ × ℕ))
unfolding is_full push_message
put q header = if is_full q then waits else done (push_message q header, q.on_put)
