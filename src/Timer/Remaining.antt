-- ===== src/Timer/Remaining.antt =====
-- The delta list stands for a list of timers with the ticks until each expires.
use monolinux_c_library.Prelude.{
  ℕ, ◌+◌, ◌-◌, ◌^◌, ◌<◌, ◌≡◌, refl, List, [], ◌∷◌, ltb, ◌==◌, if◌then◌else◌, arith, Bool-cases, inl,
  inr, ◌∙◌,
}
use monolinux_c_library.Prelude.Words.{add32, sub32}
use native.Mathlib.Nat.{zero-add}
use monolinux_c_library.Timer.Deltas.{Node, node, timer_list_insert, timer_list_remove, add_to_next}

-- The ticks that the last timer of the list waits.
abbrev pub total : List Node → ℕ
total [] = 0
total (n ∷ ns) = n.delta + total ns

-- The timers with the ticks until each expires, counted from `base` on.
abbrev pub remaining : ℕ → List Node → List Node
remaining base [] = []
remaining base (n ∷ ns) = node n.timer (base + n.delta) ∷ remaining (base + n.delta) ns

-- Insertion into a list sorted by expiry, before the first timer that expires no earlier.
unfoldable pub insert_sorted : Node → List Node → List Node
insert_sorted x [] = x ∷ []
insert_sorted x (n ∷ ns) = if ltb n.delta x.delta then n ∷ insert_sorted x ns else x ∷ n ∷ ns

unfoldable pub without : ℕ → List Node → List Node
without timer [] = []
without timer (n ∷ ns) = if n.timer == timer then ns else n ∷ without timer ns

remaining-insert_from :
    (base timer delta : ℕ) (ns : List Node)
    → delta < 2 ^ 32
    → total ns < 2 ^ 32
    → remaining base (timer_list_insert timer delta ns)
      ≡ insert_sorted (node timer (base + delta)) (remaining base ns)
unfolding timer_list_insert insert_sorted
remaining-insert_from base timer delta [] d t = ground arith
remaining-insert_from base timer delta (n ∷ ns) d t = elim (Bool-cases (ltb n.delta delta)) [
  | inl p ↦
      let less : sub32 delta n.delta ≡ delta - n.delta = ground arith in
      let rest =
        remaining-insert_from (base + n.delta) timer (sub32 delta n.delta) ns (ground arith)
          (omega arith) in
      ground (arith, less, rest)
  | inr p ↦ ground arith
]

remaining-add_to_next :
    (base delta : ℕ) (ns : List Node)
    → delta + total ns < 2 ^ 32
    → remaining base (add_to_next delta ns) ≡ remaining (base + delta) ns
unfolding add_to_next
remaining-add_to_next base delta [] t = refl
remaining-add_to_next base delta (n ∷ ns) t =
    let same : base + add32 n.delta delta ≡ base + delta + n.delta = omega arith in rw same

remaining-remove_from :
    (base timer : ℕ) (ns : List Node)
    → total ns < 2 ^ 32
    → remaining base (timer_list_remove timer ns) ≡ without timer (remaining base ns)
unfolding timer_list_remove without
remaining-remove_from base timer [] t = refl
remaining-remove_from base timer (n ∷ ns) t = ground (
  arith,
  remaining-add_to_next base n.delta ns (omega arith),
  remaining-remove_from (base + n.delta) timer ns (omega arith),
)

-- Where no sum of deltas wraps, inserting a timer is a sorted insertion into the list of timers with
-- the ticks until each expires: those of all other timers stay as they were.
pub remaining-insert :
    (timer delta : ℕ) (ns : List Node)
    → delta < 2 ^ 32
    → total ns < 2 ^ 32
    → remaining 0 (timer_list_insert timer delta ns)
      ≡ insert_sorted (node timer delta) (remaining 0 ns)
remaining-insert timer delta ns d t = remaining-insert_from 0 timer delta ns d t ∙ rw zero-add

-- Where no sum of deltas wraps, removing a timer takes its first occurrence out of the list of
-- timers with the ticks until each expires: those of all other timers stay as they were.
pub remaining-remove :
    (timer : ℕ) (ns : List Node)
    → total ns < 2 ^ 32
    → remaining 0 (timer_list_remove timer ns) ≡ without timer (remaining 0 ns)
remaining-remove timer ns t = remaining-remove_from 0 timer ns t
