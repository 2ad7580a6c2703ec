-- ===== src/Message/Tests.antt =====
-- A message at address 124, with its header at address 100.
use monolinux_c_library.Prelude.{◌≡◌, refl, [], ◌∷◌, none, some, ◌==◌, if◌then◌else◌}
use monolinux_c_library.Prelude.Int.{pos}
use monolinux_c_library.Message.{Header, Heap, message_to_header, free, share}
use monolinux_c_library.Message.Counting.{IsHeld, IsReleased, free_times, share-free_times}

abbrev fresh : Header
fresh = record { uid = 7; count = pos 1; on_free = some 55 }

abbrev one_message : Heap
one_message = record { header = λ p. if p == 100 then some fresh else none; released = [] }

abbrev no_messages : Heap
no_messages = record { header = λ p. none; released = [] }

header_before_message : message_to_header 124 ≡ 100
unfolding message_to_header
header_before_message = refl

-- Two references: the second free calls the function.
shared_twice :
    (heap : Heap) × (h2 : Heap) × (share 124 (pos 1) one_message ≡ some (tt, heap))
    × (free_times 2 124 heap ≡ some h2)
    × (h2.released ≡ (55, 124) ∷ [])
unfolding share free_times free
shared_twice = (_, _, refl, refl, refl)

share-free_times_example :
    (shared held gone : Heap) × (share 124 (pos 2) one_message ≡ some (tt, shared))
    × (free_times 2 124 shared ≡ some held)
    × IsHeld 124 fresh one_message held
    × (free_times 3 124 shared ≡ some gone)
    × IsReleased 124 fresh one_message gone
    × (free 124 gone ≡ none)
unfolding message_to_header
share-free_times_example = share-free_times 2 124 one_message fresh refl refl
