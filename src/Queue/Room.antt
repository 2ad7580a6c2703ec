-- ===== src/Queue/Room.antt =====
-- A put on a queue with room is carried out.
use monolinux_c_library.Prelude.{ℕ, ◌+◌, ◌<◌, ◌≡◌, ap, [], ◌∷◌, ◌++◌, length, length-append, arith}
use monolinux_c_library.Queue.Ring.{Queue, done, push_message, put}
use monolinux_c_library.Queue.Fifo.{fifo_put}
use monolinux_c_library.Queue.Refine.{
  IsValid, wrap-eq-mod, stored, contents, length-contents, put_refines,
}

put_runs :
    (q : Queue) (m : ℕ)
    → IsValid q
    → stored q + 1 < q.length
    → put q m ≡ done (push_message q m, q.on_put)
unfolding put
put_runs q m v r = ground (arith, wrap-eq-mod q.length q.wrpos)

put_appends :
    (q : Queue) (m : ℕ)
    → IsValid q
    → stored q + 1 < q.length
    → (contents (push_message q m) ≡ contents q ++ (m ∷ []))
      × IsValid (push_message q m)
      × ((push_message q m).length ≡ q.length)
unfolding fifo_put
put_appends q m v r = ground (arith, put_runs q m v r, put_refines q m v)

pub put_room :
    (q : Queue) (m : ℕ)
    → IsValid q
    → stored q + 1 < q.length
    → (put q m ≡ done (push_message q m, q.on_put))
      × (contents (push_message q m) ≡ contents q ++ (m ∷ []))
      × IsValid (push_message q m)
      × ((push_message q m).length ≡ q.length)
      × (stored (push_message q m) ≡ stored q + 1)
put_room q m v r =
    let (c, w, l) = put_appends q m v r in
    (
      put_runs q m v r,
      c,
      w,
      l,
      omega (
        arith,
        length-contents q,
        length-contents (push_message q m),
        ap length c,
        length-append {0} (contents q) (m ∷ []),
      ),
    )
