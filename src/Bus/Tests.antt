-- ===== src/Bus/Tests.antt =====
-- A bus with two identifiers on concrete queues.
use monolinux_c_library.LibcReference.{reference, search_from, sort}
use monolinux_c_library.Message.{Header, message_to_header}
use monolinux_c_library.Prelude.{ℕ, ◌≡◌, refl, [], ◌∷◌, none, some, arith, ◌==◌, if◌then◌else◌}
use monolinux_c_library.Prelude.Int.{pos}
use monolinux_c_library.Queue.Ring.{Queue, done}
use monolinux_c_library.Bus.Registry.{Bus, subscribe, compare_bsearch, compare_qsort}
use monolinux_c_library.Bus.Table.{IsValid, subscribers}
use monolinux_c_library.Bus.Lookup.{IsSubscribed, subscribe_lem}
use monolinux_c_library.Bus.Delivery.{World, broadcast}
use monolinux_c_library.Bus.Broadcast.{HasRoom, IsBroadcast, broadcast_delivers}

abbrev two_elems : Bus
two_elems = record { uid = 7; queues = 1 ∷ 2 ∷ [] } ∷ record { uid = 9; queues = 1 ∷ [] } ∷ []

two_elems-IsValid : IsValid two_elems
two_elems-IsValid = record { sorted = ground arith; unique = λ uid. ground arith }

-- A new identifier is sorted in between.
subscribe_between :
    subscribe reference two_elems 3 8
    ≡ some (
        record { uid = 7; queues = 1 ∷ 2 ∷ [] }
        ∷ record { uid = 8; queues = 3 ∷ [] }
        ∷ record { uid = 9; queues = 1 ∷ [] }
        ∷ [])
unfolding subscribe search_from sort compare_bsearch compare_qsort
subscribe_between = refl

subscribe_lem_example :
    (bus' : Bus) × (subscribe reference two_elems 3 8 ≡ some bus') × IsSubscribed two_elems 3 8 bus'
subscribe_lem_example = subscribe_lem reference two_elems 3 8 two_elems-IsValid

abbrev empty_queue : Queue
empty_queue = record { on_put = none; rdpos = 2; wrpos = 2; length = 3; messages = 0 ∷ 0 ∷ 0 ∷ [] }

abbrev on : ℕ → Header
on uid = record { uid = uid; count = pos 1; on_free = some 55 }

-- The message at 124 has the given identifier, and all queues are empty.
abbrev world : ℕ → World
world uid = record {
  heap = record { header = λ p. if p == 100 then some (on uid) else none; released = [] };
  queues = λ p. empty_queue;
  called = [];
}

world-HasRoom : HasRoom (subscribers 7 two_elems) (message_to_header 124) (world 7)
unfolding subscribers message_to_header
world-HasRoom = record { valid = λ p. ground arith; room = λ p. ground arith }

broadcast_delivers_example :
    (w' : World) × (broadcast reference two_elems 124 (world 7) ≡ done w')
    × IsBroadcast (subscribers 7 two_elems) 124 (on 7) (world 7) w'
unfolding message_to_header subscribers
broadcast_delivers_example =
    broadcast_delivers reference two_elems 124 (world 7) (on 7) two_elems-IsValid refl refl
      (omega arith) world-HasRoom
