-- ===== src/Bus/Registry.antt =====
-- The table of subscriptions of src/ml_bus.c. bsearch() and qsort() come from the C library.
use monolinux_c_library.Libc.{Libc}
use monolinux_c_library.Prelude.{
  ℕ, List, [], ◌∷◌, ◌++◌, Option, none, some, get_elem?, set, ltb, ◌==◌, if◌then◌else◌,
}
use monolinux_c_library.Prelude.Int.{ℤ, pos, negsuc}

-- `struct ml_bus_elem_t`: the address of an identifier, and the queues in the order in which they
-- subscribed; their number is the length of the list.
pub record Elem : Type 0 where
  pub uid : ℕ
  pub queues : List ℕ

-- `struct ml_bus_t`: `number_of_elems` is the length of the list.
abbrev pub Bus : Type 0
Bus = List Elem

unfoldable pub compare_bsearch : ℕ → Elem → ℤ
compare_bsearch uid elem =
    if ltb uid elem.uid then negsuc 0 else if uid == elem.uid then pos 0 else pos 1

unfoldable pub compare_qsort : Elem → Elem → ℤ
compare_qsort lelem relem =
    if ltb lelem.uid relem.uid then negsuc 0 else if lelem.uid == relem.uid then pos 0 else pos 1

unfoldable pub init : Bus
init = []

abbrev pub append_queue_at : Elem → ℕ → Elem
append_queue_at elem queue = record elem { queues = elem.queues ++ (queue ∷ []) }

-- `elem_p` is an index into the table; null, which ml_bus_subscribe never passes, is `none`.
unfoldable pub append_queue_to_element : Bus → Option ℕ → ℕ → Option Bus
append_queue_to_element bus none queue = none
append_queue_to_element bus (some i) queue = elim (get_elem? bus i) [
  | none ↦ none
  | some elem ↦ some (set bus i (append_queue_at elem queue))
]

module _ (libc : Libc Elem) where
  unfoldable pub insert_element : Bus → ℕ → Bus
  insert_element bus uid =
      libc.qsort compare_qsort (bus ++ (record { uid = uid; queues = [] } ∷ []))

  unfoldable pub find_element : Bus → ℕ → Option ℕ
  find_element bus uid = libc.bsearch (compare_bsearch uid) bus

  abbrev pub inserted : Option ℕ → Bus → ℕ → Bus
  inserted none bus uid = insert_element bus uid
  inserted (some i) bus uid = bus

  -- `none` is a null element, or one outside the table, which Table.subscribe_lem rules out.
  unfoldable pub subscribe : Bus → ℕ → ℕ → Option Bus
  unfolding find_element insert_element append_queue_to_element
  subscribe bus queue uid =
      let bus' = inserted (find_element bus uid) bus uid in
      append_queue_to_element bus' (find_element bus' uid) queue
