-- ===== src/Message/Counting.antt =====
-- A message lives until it has been freed as often as it is referenced.
use monolinux_c_library.Prelude.{ℕ, zero, suc, ◌≡◌, ◌≢◌, ◌∙◌, refl, ◌++◌, Option, none, some, arith}
use monolinux_c_library.Prelude.Int.{pos, ◌+ℤ◌, ◌-ℤ◌}
use monolinux_c_library.Message.{Header, Heap, message_to_header, update, call_on_free, free, share}

-- ml_message_free called `n` times on the same message.
unfoldable pub free_times : ℕ → ℕ → Heap → Option Heap
free_times zero message heap = some heap
free_times (suc n) message heap = elim (free message heap) [
  | none ↦ none
  | some (_, heap') ↦ free_times n message heap'
]

-- A heap that differs from another by one header at most.
abbrev pub with_header : Heap → ℕ → Option Header → Heap
with_header heap p h = record heap { header = update heap.header p h }

pub free_one :
    (message : ℕ) (heap : Heap) (h : Header)
    → heap.header (message_to_header message) ≡ some h
    → h.count ≡ pos 1
    → free message heap
      ≡ some (
        tt,
        record {
          header = update heap.header (message_to_header message) none;
          released = heap.released ++ call_on_free h.on_free message;
        },
      )
unfolding free ◌-ℤ◌
free_one message heap h e c = ground arith

free_more :
    (message : ℕ) (heap : Heap) (h : Header) (n : ℕ)
    → heap.header (message_to_header message) ≡ some h
    → h.count ≡ pos (suc (suc n))
    → free message heap
      ≡ some (
        tt,
        with_header heap (message_to_header message) (some (record h { count = pos (suc n) })),
      )
unfolding free ◌-ℤ◌
free_more message heap h n e c = ground arith

-- Only the header of `message` may differ, and only `on_free` of it may have been called.
pub record IsReleased (message : ℕ) (h : Header) (before after : Heap) : Type 0 where
  pub gone : after.header (message_to_header message) ≡ none
  pub called : after.released ≡ before.released ++ call_on_free h.on_free message
  pub others : (q : ℕ) → q ≢ message_to_header message → after.header q ≡ before.header q

pub record IsHeld (message : ℕ) (h : Header) (before after : Heap) : Type 0 where
  pub last : after.header (message_to_header message) ≡ some (record h { count = pos 1 })
  pub called : after.released ≡ before.released
  pub others : (q : ℕ) → q ≢ message_to_header message → after.header q ≡ before.header q

IsHeld-before_last :
    (n message : ℕ) (heap : Heap) (h : Header)
    → heap.header (message_to_header message) ≡ some h
    → h.count ≡ pos (suc n)
    → (after : Heap) × (free_times n message heap ≡ some after) × IsHeld message h heap after
unfolding free_times
IsHeld-before_last zero message heap h e c =
    (heap, refl, record { last = ground arith; called = refl; others = λ q ne. refl })
IsHeld-before_last (suc n) message heap h e c =
    let heap' =
      with_header heap (message_to_header message) (some (record h { count = pos (suc n) })) in
    let (after, run, held) =
      IsHeld-before_last n message heap' (record h { count = pos (suc n) }) (ground arith) refl in
    (
      after,
      rw (free_more message heap h n e c, free_times) run,
      record {
        last = held.last;
        called = held.called;
        others = λ q ne. held.others q ne ∙ ground arith;
      },
    )

IsReleased-at_last :
    (n message : ℕ) (heap : Heap) (h : Header)
    → heap.header (message_to_header message) ≡ some h
    → h.count ≡ pos (suc n)
    → (after : Heap) × (free_times (suc n) message heap ≡ some after)
      × IsReleased message h heap after
unfolding free_times
IsReleased-at_last zero message heap h e c = (
  record {
    header = update heap.header (message_to_header message) none;
    released = heap.released ++ call_on_free h.on_free message;
  },
  rw (free_one message heap h e c, free_times),
  record { gone = ground arith; called = refl; others = λ q ne. ground arith },
)
IsReleased-at_last (suc n) message heap h e c =
    let heap' =
      with_header heap (message_to_header message) (some (record h { count = pos (suc n) })) in
    let (after, run, r) =
      IsReleased-at_last n message heap' (record h { count = pos (suc n) }) (ground arith) refl in
    (
      after,
      rw (free_more message heap h n e c, free_times) run,
      record { gone = r.gone; called = r.called; others = λ q ne. r.others q ne ∙ ground arith },
    )

free_gone :
    (message : ℕ) (heap : Heap)
    → heap.header (message_to_header message) ≡ none
    → free message heap ≡ none
unfolding free
free_gone message heap e = ground arith

share_lem :
    (message : ℕ) (heap : Heap) (h : Header) (n : ℕ)
    → heap.header (message_to_header message) ≡ some h
    → h.count ≡ pos 1
    → share message (pos n) heap
      ≡ some (
        tt,
        with_header heap (message_to_header message) (some (record h { count = pos (suc n) })),
      )
unfolding share ◌+ℤ◌
share_lem message heap h n e c = ground arith

-- A message with one reference that is shared for `n` more can be freed `n` times and is still
-- there, with one reference left and its `on_free` not called; the next free removes it and calls
-- `on_free` once, if one is set. No other message is touched, and a further free would be an
-- access to freed memory.
pub share-free_times :
    (n message : ℕ) (heap : Heap) (h : Header)
    → heap.header (message_to_header message) ≡ some h
    → h.count ≡ pos 1
    → (shared held gone : Heap) × (share message (pos n) heap ≡ some (tt, shared))
      × (free_times n message shared ≡ some held)
      × IsHeld message h heap held
      × (free_times (suc n) message shared ≡ some gone)
      × IsReleased message h heap gone
      × (free message gone ≡ none)
share-free_times n message heap h e c =
    let shared =
      with_header heap (message_to_header message) (some (record h { count = pos (suc n) })) in
    let (held, run, i) =
      IsHeld-before_last n message shared (record h { count = pos (suc n) }) (ground arith) refl in
    let (gone, run', r) =
      IsReleased-at_last n message shared (record h { count = pos (suc n) }) (ground arith) refl in
    (
      shared,
      held,
      gone,
      share_lem message heap h n e c,
      run,
      record { last = i.last; called = i.called; others = λ q ne. i.others q ne ∙ ground arith },
      run',
      record { gone = r.gone; called = r.called; others = λ q ne. r.others q ne ∙ ground arith },
      free_gone message gone r.gone,
    )
