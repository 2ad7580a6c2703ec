-- ===== src/Bus/Lookup.antt =====
-- ml_bus_subscribe against a plain map from identifiers to lists of queues.
use monolinux_c_library.Libc.{Libc}
use monolinux_c_library.Prelude.{
  ℕ, zero, suc, ◌+◌, ◌≡◌, ◌≢◌, ◌≤◌, ◌<◌, ◌⊎◌, inl, inr, refl, ◌∙◌, [], ◌∷◌, ◌++◌, none, some,
  get_elem?, set, All, arith, ◌==◌, if◌then◌else◌, Option-cases,
}
use monolinux_c_library.Prelude.Int.{pos}
use monolinux_c_library.Bus.Registry.{
  Elem, Bus, compare_bsearch, compare_qsort, append_queue_at, append_queue_to_element,
  insert_element, find_element, subscribe,
}
use monolinux_c_library.Bus.Table.{
  IsSorted, IsValid, occurrences, subscribers, compare_qsort-IsOrder, IsSorted-Falls,
  Ascends-IsSorted, occurrences-perm, subscribers-perm,
}

found_uid : (uid : ℕ) (a : Elem) → compare_bsearch uid a ≡ pos 0 → a.uid ≡ uid
unfolding compare_bsearch
found_uid uid a e = ground arith

missing_uid :
    (uid : ℕ) (bus : Bus)
    → All (λ a. compare_bsearch uid a ≢ pos 0) bus
    → (occurrences uid bus ≡ 0) × (subscribers uid bus ≡ [])
unfolding compare_bsearch subscribers
missing_uid uid [] h = (refl, refl)
missing_uid uid (a ∷ l) h = ground (arith, missing_uid uid l h.1)

occurrences_pos :
    (uid : ℕ) (bus : Bus) (i : ℕ) {a : Elem}
    → get_elem? bus i ≡ some a
    → a.uid ≡ uid
    → 0 < occurrences uid bus
occurrences_pos uid [] i e u = absurd (ground arith)
occurrences_pos uid (x ∷ l) zero e u = ground arith
occurrences_pos uid (x ∷ l) (suc i) e u = omega (arith, occurrences_pos uid l i e u)

-- Replacing an element by one with the same identifier.
IsSorted-set :
    (bus : Bus) (i : ℕ) (a b : Elem)
    → get_elem? bus i ≡ some a
    → b.uid ≡ a.uid
    → IsSorted bus
    → IsSorted (set bus i b)
IsSorted-set [] i a b e u h = tt
IsSorted-set (x ∷ []) zero a b e u h = tt
IsSorted-set (x ∷ []) (suc i) a b e u h = tt
IsSorted-set (x ∷ y ∷ l) zero a b e u h = ground arith
IsSorted-set (x ∷ y ∷ l) (suc zero) a b e u h =
    ground (arith, IsSorted-set (y ∷ l) zero a b e u h.1)
IsSorted-set (x ∷ y ∷ l) (suc (suc i)) a b e u h = (h.0, IsSorted-set (y ∷ l) (suc i) a b e u h.1)

occurrences-set :
    (uid : ℕ) (bus : Bus) (i : ℕ) (a b : Elem)
    → get_elem? bus i ≡ some a
    → b.uid ≡ a.uid
    → occurrences uid (set bus i b) ≡ occurrences uid bus
occurrences-set uid [] i a b e u = refl
occurrences-set uid (x ∷ l) zero a b e u = ground arith
occurrences-set uid (x ∷ l) (suc i) a b e u = omega (arith, occurrences-set uid l i a b e u)

subscribers-set :
    (uid other : ℕ) (bus : Bus) (i queue : ℕ) (a : Elem)
    → get_elem? bus i ≡ some a
    → a.uid ≡ uid
    → occurrences uid bus ≤ 1
    → subscribers other (set bus i (append_queue_at a queue))
      ≡ (if other == uid then subscribers other bus ++ (queue ∷ []) else subscribers other bus)
unfolding subscribers
subscribers-set uid other [] i queue a e u one = absurd (ground arith)
subscribers-set uid other (x ∷ l) zero queue a e u one = ground arith
subscribers-set uid other (x ∷ l) (suc i) queue a e u one =
    ground (arith, occurrences_pos uid l i e u, subscribers-set uid other l i queue a e u)

subscribers_at :
    (uid : ℕ) (bus : Bus) (i : ℕ) {a : Elem}
    → get_elem? bus i ≡ some a
    → a.uid ≡ uid
    → occurrences uid bus ≤ 1
    → a.queues ≡ subscribers uid bus
unfolding subscribers
subscribers_at uid [] i e u one = absurd (ground arith)
subscribers_at uid (x ∷ l) zero e u one = ground arith
subscribers_at uid (x ∷ l) (suc i) e u one =
    ground (arith, occurrences_pos uid l i e u, subscribers_at uid l i e u)

occurrences-snoc :
    (uid : ℕ) (bus : Bus) (a : Elem)
    → occurrences uid (bus ++ (a ∷ [])) ≡ occurrences uid bus + (if a.uid == uid then 1 else 0)
occurrences-snoc uid [] a = omega arith
occurrences-snoc uid (x ∷ l) a = omega (arith, occurrences-snoc uid l a)

subscribers-snoc :
    (uid other : ℕ) (bus : Bus)
    → subscribers other (bus ++ (record { uid = uid; queues = [] } ∷ [])) ≡ subscribers other bus
unfolding subscribers
subscribers-snoc uid other [] = ground arith
subscribers-snoc uid other (x ∷ l) = ground (arith, subscribers-snoc uid other l)

-- What a subscription of `queue` to `uid` makes of the table.
pub record IsSubscribed (bus : Bus) (queue uid : ℕ) (bus' : Bus) : Type 0 where
  pub valid : IsValid bus'
  pub queues :
      (other : ℕ)
      → subscribers other bus'
        ≡ (if other == uid then subscribers other bus ++ (queue ∷ []) else subscribers other bus)

module _ (libc : Libc Elem) where
  insert_element-IsValid :
      (bus : Bus) (uid : ℕ)
      → IsValid bus
      → occurrences uid bus ≡ 0
      → IsValid (insert_element libc bus uid)
        × (occurrences uid (insert_element libc bus uid) ≡ 1)
        × ((other : ℕ) → subscribers other (insert_element libc bus uid) ≡ subscribers other bus)
  unfolding insert_element
  insert_element-IsValid bus uid v none_yet =
      let new : Elem = record { uid = uid; queues = [] } in
      let more = bus ++ (new ∷ []) in
      let one : (other : ℕ) → occurrences other more ≤ 1 =
        λ other. ground (arith, occurrences-snoc other bus new, v.unique other) in
      let p = libc.qsort_perm compare_qsort more compare_qsort-IsOrder in
      (
        record {
          sorted =
              Ascends-IsSorted (libc.qsort compare_qsort more)
                (libc.qsort_ascends compare_qsort more compare_qsort-IsOrder);
          unique = λ other. omega (arith, occurrences-perm other p, one other);
        },
        ground (arith, occurrences-perm uid p, occurrences-snoc uid bus new),
        λ other. subscribers-perm other p (one other) ∙ subscribers-snoc uid other bus,
      )

  find_element-some :
      (bus : Bus) (uid i : ℕ)
      → IsValid bus
      → find_element libc bus uid ≡ some i
      → (a : Elem) × (get_elem? bus i ≡ some a) × (a.uid ≡ uid)
  unfolding find_element
  find_element-some bus uid i v e =
      let (a, at, c) =
        libc.bsearch_found (compare_bsearch uid) bus (IsSorted-Falls uid bus v.sorted) e in
      (a, at, found_uid uid a c)

  find_element-none :
      (bus : Bus) (uid : ℕ)
      → IsValid bus
      → find_element libc bus uid ≡ none
      → (occurrences uid bus ≡ 0) × (subscribers uid bus ≡ [])
  unfolding find_element
  find_element-none bus uid v e =
      missing_uid uid bus
        (libc.bsearch_missing (compare_bsearch uid) bus (IsSorted-Falls uid bus v.sorted) e)

  -- The lookup of a broadcast finds the subscribers of an identifier, and a null element means that
  -- there are none: on a valid table the binary search agrees with a plain scan.
  pub find_element_lem :
      (bus : Bus) (uid : ℕ)
      → IsValid bus
      → ((find_element libc bus uid ≡ none) × (subscribers uid bus ≡ []))
        ⊎ ((i : ℕ) × (a : Elem) × (find_element libc bus uid ≡ some i)
            × (get_elem? bus i ≡ some a)
            × (a.queues ≡ subscribers uid bus))
  find_element_lem bus uid v = elim (Option-cases (find_element libc bus uid)) [
    | inl e ↦ inl (e, (find_element-none bus uid v e).1)
    | inr (i, e) ↦
        let (a, at, u) = find_element-some bus uid i v e in
        inr (i, a, e, at, subscribers_at uid bus i at u (v.unique uid))
  ]

  append-IsSubscribed :
      (bus : Bus) (queue uid i : ℕ)
      → IsValid bus
      → find_element libc bus uid ≡ some i
      → (bus' : Bus) × (append_queue_to_element bus (find_element libc bus uid) queue ≡ some bus')
        × IsSubscribed bus queue uid bus'
  unfolding append_queue_to_element
  append-IsSubscribed bus queue uid i v e =
      let (a, at, u) = find_element-some bus uid i v e in
      let b = append_queue_at a queue in
      (
        set bus i b,
        rw (e, append_queue_to_element) (rw (at, append_queue_to_element) refl),
        record {
          valid = record {
            sorted = IsSorted-set bus i a b at refl v.sorted;
            unique =
                λ other. omega (arith, occurrences-set other bus i a b at refl, v.unique other);
          };
          queues = λ other. subscribers-set uid other bus i queue a at u (v.unique uid);
        },
      )

  subscribe_new :
      (bus : Bus) (queue uid : ℕ)
      → IsValid bus
      → occurrences uid bus ≡ 0
      → let more = insert_element libc bus uid in
        (bus' : Bus) × (append_queue_to_element more (find_element libc more uid) queue ≡ some bus')
        × IsSubscribed bus queue uid bus'
  subscribe_new bus queue uid v none_yet =
      let more = insert_element libc bus uid in
      let (w, one, same) = insert_element-IsValid bus uid v none_yet in
      elim (Option-cases (find_element libc more uid)) [
        | inl e ↦ absurd (omega (arith, (find_element-none more uid w e).0, one))
        | inr (i, e) ↦
            let (bus', run, s) = append-IsSubscribed more queue uid i w e in
            (
              bus',
              run,
              record { valid = s.valid; queues = λ other. s.queues other ∙ rw (same other) },
            )
      ]

  -- After ml_bus_subscribe the queue is the last one that subscribes to the identifier, and all
  -- else is as before: the table stays sorted with one element for each identifier, no other
  -- identifier's queues change, and the element looked up after an insertion is always found.
  pub subscribe_lem :
      (bus : Bus) (queue uid : ℕ)
      → IsValid bus
      → (bus' : Bus) × (subscribe libc bus queue uid ≡ some bus') × IsSubscribed bus queue uid bus'
  unfolding subscribe
  subscribe_lem bus queue uid v = elim (Option-cases (find_element libc bus uid)) [
    | inr (i, e) ↦
        let (bus', run, s) = append-IsSubscribed bus queue uid i v e in
        (bus', rw (e, subscribe) run, s)
    | inl e ↦
        let (bus', run, s) = subscribe_new bus queue uid v (find_element-none bus uid v e).0 in
        (bus', rw (e, subscribe) run, s)
  ]

  pub find_element-absent :
      (bus : Bus) (uid : ℕ)
      → IsValid bus
      → occurrences uid bus ≡ 0
      → find_element libc bus uid ≡ none
  find_element-absent bus uid v z = elim (Option-cases (find_element libc bus uid)) [
    | inl e ↦ e
    | inr (i, e) ↦
        let (a, at, u) = find_element-some bus uid i v e in
        absurd (omega (arith, occurrences_pos uid bus i at u))
  ]
