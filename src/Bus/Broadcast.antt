-- ===== src/Bus/Broadcast.antt =====
-- What a broadcast does to the queues and to the message's reference count.
use monolinux_c_library.Libc.{Libc}
use monolinux_c_library.Message.{Header, Heap, message_to_header, update, call_on_free, share}
use monolinux_c_library.Message.Counting.{IsReleased, free_one}
use monolinux_c_library.Prelude.{
  ℕ, ◌+◌, ◌≡◌, ◌≢◌, ◌<◌, ◌∙◌, sym, ap, refl, inl, inr, List, [], ◌∷◌, ◌++◌, none, some, length,
  ◌==◌, if◌then◌else◌, arith, append_assoc, append-nil,
}
use monolinux_c_library.Prelude.Int.{pos, ◌-ℤ◌, ◌+ℤ◌}
use monolinux_c_library.Queue.Ring.{done, push_message}
use monolinux_c_library.Queue.Refine as Ring
use monolinux_c_library.Queue.Refine.{contents, stored, put_refines, length-contents}
use monolinux_c_library.Queue.Room.{put_room}
use monolinux_c_library.Bus.Registry.{Elem, Bus}
use monolinux_c_library.Bus.Table.{IsValid, subscribers, occurrences}
use monolinux_c_library.Bus.Lookup.{find_element_lem, find_element-absent}
use monolinux_c_library.Bus.Delivery.{World, with_queue, put_all, deliver, broadcast}

-- What reaches the queue at `p` of a message put on each queue of a list: one copy for each time
-- that the queue stands in the list.
abbrev pub copies : ℕ → ℕ → List ℕ → List ℕ
copies header p [] = []
copies header p (q ∷ qs) = if q == p then header ∷ copies header p qs else copies header p qs

pub record HasRoom (qs : List ℕ) (header : ℕ) (w : World) : Type 0 where
  pub valid : (p : ℕ) → Ring.IsValid (w.queues p)
  pub room : (p : ℕ) → stored (w.queues p) + length (copies header p qs) < (w.queues p).length

HasRoom-with_queue :
    (p header : ℕ) (ps : List ℕ) (w : World)
    → HasRoom (p ∷ ps) header w
    → (stored (w.queues p) + 1 < (w.queues p).length)
      × HasRoom ps header (with_queue w p (push_message (w.queues p) header) (w.queues p).on_put)
HasRoom-with_queue p header ps w h =
    let fits : stored (w.queues p) + 1 < (w.queues p).length = ground (arith, h.room p) in
    let after = put_room (w.queues p) header (h.valid p) fits in
    (
      fits,
      record {
        valid = λ r. ground (arith, h.valid r, after);
        room = λ r. ground (arith, h.room r, after);
      },
    )

-- The state after a message was put on each queue of a list.
pub record IsDelivered (qs : List ℕ) (header : ℕ) (before after : World) : Type 0 where
  pub heap : after.heap ≡ before.heap
  pub valid : (p : ℕ) → Ring.IsValid (after.queues p)
  pub contents :
      (p : ℕ) → contents (after.queues p) ≡ contents (before.queues p) ++ copies header p qs

put_all_lem :
    (qs : List ℕ) (header : ℕ) (w : World)
    → HasRoom qs header w
    → (w' : World) × (put_all qs header w ≡ done w') × IsDelivered qs header w w'
unfolding put_all
put_all_lem [] header w h = (
  w,
  refl,
  record { heap = refl; valid = h.valid; contents = λ p. sym (append-nil (contents (w.queues p))) },
)
put_all_lem (p ∷ ps) header w h =
    let (fits, h') = HasRoom-with_queue p header ps w h in
    let after = put_room (w.queues p) header (h.valid p) fits in
    let (w', run, d) =
      put_all_lem ps header (with_queue w p (push_message (w.queues p) header) (w.queues p).on_put)
        h' in
    (
      w',
      rw (after.0, put_all) run,
      record {
        heap = d.heap;
        valid = d.valid;
        contents = λ r.
            d.contents r
            ∙ ground (
              arith,
              after.1,
              append_assoc (contents (w.queues p)) (header ∷ []) (copies header p ps),
            );
      },
    )

share_for_all :
    (n message : ℕ) (heap : Heap) (h : Header)
    → heap.header (message_to_header message) ≡ some h
    → h.count ≡ pos 1
    → 0 < n
    → share message (pos n -ℤ pos 1) heap
      ≡ some (
        tt,
        record heap {
          header =
              update heap.header (message_to_header message) (some (record h { count = pos n }));
        },
      )
unfolding share ◌-ℤ◌ ◌+ℤ◌
share_for_all n message heap h e c p = ground arith

-- The state after a broadcast with subscribers.
pub record IsBroadcast (qs : List ℕ) (message : ℕ) (h : Header) (before after : World)
    : Type 0 where
  pub delivered :
      (p : ℕ)
      → contents (after.queues p)
        ≡ contents (before.queues p) ++ copies (message_to_header message) p qs
  pub valid : (p : ℕ) → Ring.IsValid (after.queues p)
  pub references :
      after.heap.header (message_to_header message) ≡ some (record h { count = pos (length qs) })
  pub others : (q : ℕ) → q ≢ message_to_header message → after.heap.header q ≡ before.heap.header q
  pub released : after.heap.released ≡ before.heap.released

module _ (libc : Libc Elem) (bus : Bus) (message : ℕ) (w : World) (h : Header) where
  -- A broadcast of a message with one reference, on an identifier with subscribers whose queues all
  -- have room, completes: each queue receives the message once for each of its subscriptions,
  -- behind what it held, and nothing else, and the message has as many references as deliveries.
  -- No other message is touched.
  pub broadcast_delivers :
      IsValid bus
      → w.heap.header (message_to_header message) ≡ some h
      → h.count ≡ pos 1
      → 0 < length (subscribers h.uid bus)
      → HasRoom (subscribers h.uid bus) (message_to_header message) w
      → (w' : World) × (broadcast libc bus message w ≡ done w')
        × IsBroadcast (subscribers h.uid bus) message h w w'
  unfolding broadcast deliver
  broadcast_delivers v live one some_queue room = elim (find_element_lem libc bus h.uid v) [
    | inl (e, empty) ↦ absurd (omega (arith, ap length empty))
    | inr (i, a, e, at, qs) ↦
        let p = message_to_header message in
        let shared = record w {
          heap = record w.heap {
            header =
                update w.heap.header p
                  (some (record h { count = pos (length (subscribers h.uid bus)) }));
          };
        } in
        let (w', run, d) =
          put_all_lem (subscribers h.uid bus) p shared
            (record { valid = room.valid; room = room.room }) in
        let counted =
          share_for_all (length (subscribers h.uid bus)) message w.heap h live one some_queue in
        (
          w',
          rw (live, broadcast) (rw (e, deliver) (rw (at, deliver) (rw qs (rw counted run)))),
          record {
            delivered = d.contents;
            valid = d.valid;
            references = ap (λ heap. heap.header p) d.heap ∙ ground arith;
            others = λ q ne. ap (λ heap. heap.header q) d.heap ∙ ground arith;
            released = ap (λ heap. heap.released) d.heap;
          },
        )
  ]

  -- A broadcast of a message with one reference on an identifier that nobody subscribes to frees
  -- the message, calls its `on_free` if one is set, and touches no queue.
  pub broadcast_frees :
      IsValid bus
      → w.heap.header (message_to_header message) ≡ some h
      → h.count ≡ pos 1
      → occurrences h.uid bus ≡ 0
      → (w' : World) × (broadcast libc bus message w ≡ done w')
        × IsReleased message h w.heap w'.heap
        × (w'.queues ≡ w.queues)
        × (w'.called ≡ w.called)
  unfolding broadcast deliver
  broadcast_frees v live one absent =
      let p = message_to_header message in
      let heap' : Heap = record {
        header = update w.heap.header p none;
        released = w.heap.released ++ call_on_free h.on_free message;
      } in
      (
        record w { heap = heap' },
        rw (live, broadcast)
            (rw (find_element-absent libc bus h.uid v absent, deliver)
              (rw (free_one message w.heap h live one) refl)),
        record { gone = ground arith; called = refl; others = λ q ne. ground arith },
        refl,
        refl,
      )
