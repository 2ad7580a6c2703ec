-- ===== src/Queue/Tests.antt =====
-- The queue on concrete messages.
use monolinux_c_library.Prelude.{ℕ, ◌≡◌, ◌≤◌, refl, List, [], ◌∷◌, ◌++◌, length, none, some, arith}
use monolinux_c_library.Queue.Ring.{Queue, waits, done, init, get, put}
use monolinux_c_library.Queue.Fifo.{fifo_get, fifo_put}
use monolinux_c_library.Queue.Refine.{
  IsValid, Leaves, put_view, get_view, contents, put_refines, get_refines,
}
use monolinux_c_library.Queue.Schedule.{
  System, Reach, start, send, receive, here, next, schedule_is_fifo,
}

-- A queue for two messages, on memory that holds arbitrary values.
abbrev storage : List ℕ
storage = 91 ∷ 92 ∷ 93 ∷ []

-- It wrapped around: 7 is the oldest message, at the end of the array, and 8 the next, at its
-- start.
abbrev wrapped : Queue
wrapped = record {
  on_put = some (40, 41);
  rdpos = 2;
  wrpos = 1;
  length = 3;
  messages = 8 ∷ 6 ∷ 7 ∷ [];
}

abbrev one_message : Queue
one_message = record { on_put = none; rdpos = 2; wrpos = 0; length = 3; messages = 8 ∷ 6 ∷ 7 ∷ [] }

wrapped-IsValid : IsValid wrapped
wrapped-IsValid = ground arith

one_message-IsValid : IsValid one_message
one_message-IsValid = ground arith

wrapped_contents : contents wrapped ≡ 7 ∷ 8 ∷ []
wrapped_contents = refl

full_waits : put wrapped 9 ≡ waits
unfolding put
full_waits = refl

get_oldest : get wrapped ≡ done (7, record wrapped { rdpos = 0 })
unfolding get
get_oldest = refl

put_refines_example :
    (put_view (put one_message 9) ≡ fifo_put 2 (7 ∷ []) 9)
    × Leaves
        (λ r. IsValid r.0 × (r.0.length ≡ 3) × (r.0.on_put ≡ none) × (r.1 ≡ none))
        (put one_message 9)
put_refines_example = put_refines one_message 9 one_message-IsValid

get_refines_example :
    (get_view (get wrapped) ≡ fifo_get (7 ∷ 8 ∷ []))
    × Leaves (λ r. IsValid r.1 × (r.1.length ≡ 3) × (r.1.on_put ≡ some (40, 41))) (get wrapped)
get_refines_example = get_refines wrapped wrapped-IsValid

-- Two messages are put and one is got.
abbrev after_three : System
after_three = record {
  queue = record { on_put = none; rdpos = 1; wrpos = 2; length = 3; messages = 5 ∷ 6 ∷ 93 ∷ [] };
  sent = 5 ∷ 6 ∷ [];
  received = 5 ∷ [];
}

after_three-Reach : Reach (start storage 2) after_three
unfolding init put get
after_three-Reach = next (next (next here (send 5 refl)) (send 6 refl)) (receive refl)

schedule_is_fifo_example :
    (after_three.sent ≡ after_three.received ++ contents after_three.queue)
    × (length (contents after_three.queue) ≤ 2)
schedule_is_fifo_example = schedule_is_fifo storage 2 (omega arith) after_three-Reach
