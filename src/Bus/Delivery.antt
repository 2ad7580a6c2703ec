-- ===== src/Bus/Delivery.antt =====
-- ml_bus_broadcast of src/ml_bus.c: the bus, the reference counts and the queues together.
use monolinux_c_library.Libc.{Libc}
use monolinux_c_library.Message.{Heap, message_to_header, free, share}
use monolinux_c_library.Prelude.{
  ℕ, List, [], ◌∷◌, ◌++◌, Option, none, some, length, get_elem?, ◌==◌, if◌then◌else◌,
}
use monolinux_c_library.Prelude.Int.{pos, ◌-ℤ◌}
use monolinux_c_library.Queue.Ring.{Queue, Attempt, waits, fault, done, put}
use monolinux_c_library.Bus.Registry.{Elem, Bus, find_element}

-- The heap of messages, the queues by address, and the `on_put` calls made, the last one last.
pub record World : Type 0 where
  pub heap : Heap
  pub queues : ℕ → Queue
  pub called : List (ℕ × ℕ)

abbrev pub call_on_put : Option (ℕ × ℕ) → List (ℕ × ℕ)
call_on_put none = []
call_on_put (some call) = call ∷ []

abbrev pub with_queue : World → ℕ → Queue → Option (ℕ × ℕ) → World
with_queue w p q call = record w {
  queues = λ r. if p == r then q else w.queues r;
  called = w.called ++ call_on_put call;
}

-- The `for` loop of a broadcast over the queues of an element. It `waits` where a queue is full.
unfoldable pub put_all : List ℕ → ℕ → World → Attempt World
put_all [] header w = done w
put_all (p ∷ ps) header w = elim (put (w.queues p) header) [
  | waits ↦ waits
  | fault ↦ fault
  | done (q, call) ↦ put_all ps header (with_queue w p q call)
]

abbrev pub in_world : World → Option (Unit {0} × Heap) → Attempt World
in_world w none = fault
in_world w (some (_, heap)) = done (record w { heap = heap })

abbrev pub then_put_all : List ℕ → ℕ → Attempt World → Attempt World
then_put_all ps header waits = waits
then_put_all ps header fault = fault
then_put_all ps header (done w) = put_all ps header w

-- The two branches, at the element that the lookup found.
unfoldable pub deliver : Option ℕ → Bus → ℕ → World → Attempt World
unfolding put_all
deliver none bus message w = in_world w (free message w.heap)
deliver (some i) bus message w = elim (get_elem? bus i) [
  | none ↦ fault
  | some elem ↦
      then_put_all elem.queues (message_to_header message)
        (in_world w (share message (pos (length elem.queues) -ℤ pos 1) w.heap))
]

module _ (libc : Libc Elem) where
  unfoldable pub broadcast : Bus → ℕ → World → Attempt World
  broadcast bus message w = elim (w.heap.header (message_to_header message)) [
    | none ↦ fault
    | some h ↦ deliver (find_element libc bus h.uid) bus message w
  ]
