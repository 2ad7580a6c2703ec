-- ===== src/Timer/Deltas.antt =====
-- The list of active timers of src/ml_timer.c. Each node holds the ticks that it waits longer than
-- the node before it. The tail node, which is never a timer and whose delta is UINT_MAX, is the end
-- of the list.
use monolinux_c_library.Prelude.{ℕ, ◌-◌, ◌^◌, List, [], ◌∷◌, ltb, ◌==◌, if◌then◌else◌}
use monolinux_c_library.Prelude.Words.{add32, sub32}

-- A timer in the list, known by its address, with its `delta`.
pub record Node : Type 0 where
  pub timer : ℕ
  pub delta : ℕ

abbrev pub tail_delta : ℕ
tail_delta = 2 ^ 32 - 1

abbrev pub node : ℕ → ℕ → Node
node timer delta = record { timer = timer; delta = delta }

-- timer_list_insert: `delta` is what is left of the timer's delta. Only the tail stops the search
-- at the end of the list, as its delta is below no other.
unfoldable pub timer_list_insert : ℕ → ℕ → List Node → List Node
timer_list_insert timer delta [] = if ltb tail_delta delta then [] else node timer delta ∷ []
timer_list_insert timer delta (elem ∷ elems) =
    if ltb elem.delta delta
    then elem ∷ timer_list_insert timer (sub32 delta elem.delta) elems
    else node timer delta ∷ record elem { delta = sub32 elem.delta delta } ∷ elems

-- The delta of a removed timer goes to the next timer; the tail gets none.
unfoldable pub add_to_next : ℕ → List Node → List Node
add_to_next delta [] = []
add_to_next delta (elem ∷ elems) = record elem { delta = add32 elem.delta delta } ∷ elems

unfoldable pub timer_list_remove : ℕ → List Node → List Node
unfolding add_to_next
timer_list_remove timer [] = []
timer_list_remove timer (elem ∷ elems) =
    if elem.timer == timer
    then add_to_next elem.delta elems
    else elem ∷ timer_list_remove timer elems
