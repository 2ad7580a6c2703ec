-- ===== src/Shell/Recall.antt =====
-- What the command history keeps, and what UP, DOWN and the search recall from it.
use monolinux_c_library.Prelude.{
  ℕ, zero, suc, ◌+◌, ◌-◌, ◌≡◌, ◌≤◌, ◌<◌, ◌⊎◌, inl, inr, refl, ap, ◌∙◌, List, [], ◌∷◌, ◌++◌, none,
  some, Bool, true, false, length, get_elem?, drop, All, arith, Bool-cases, length-append,
  if◌then◌else◌,
}
use monolinux_c_library.Prelude.Text.{Text, same, same_refl}
use monolinux_c_library.Shell.History.{
  History, maximum_history_length, is_last, without_head, history_append, first_previous, at_tail,
  behind, history_get_previous_command, history_get_next_command, history_reset_current, contains,
  or_this, history_reverse_search,
}

abbrev pub NoRepeats : List Text → Type 0
NoRepeats [] = Unit {0}
NoRepeats (a ∷ []) = Unit {0}
NoRepeats (a ∷ b ∷ elems) = (same a b ≡ false) × NoRepeats (b ∷ elems)

pub record IsHistory (elems : List Text) : Type 0 where
  pub bounded : length elems ≤ maximum_history_length
  pub fresh : NoRepeats elems

NoRepeats-snoc :
    (elems : List Text) (command : Text)
    → NoRepeats elems
    → is_last elems command ≡ false
    → NoRepeats (elems ++ (command ∷ []))
NoRepeats-snoc [] command n l = tt
NoRepeats-snoc (a ∷ []) command n l = (l, tt)
NoRepeats-snoc (a ∷ b ∷ elems) command n l = (n.0, NoRepeats-snoc (b ∷ elems) command n.1 l)

is_last-snoc :
    (elems : List Text) (command : Text) → is_last (elems ++ (command ∷ [])) command ≡ true
is_last-snoc [] command = same_refl command
is_last-snoc (a ∷ []) command = same_refl command
is_last-snoc (a ∷ b ∷ elems) command = is_last-snoc (b ∷ elems) command

drop_one :
    (elems : List Text) (command : Text)
    → NoRepeats elems
    → is_last elems command ≡ false
    → NoRepeats (drop 1 elems)
      × (is_last (drop 1 elems) command ≡ false)
      × (length (drop 1 elems) ≡ length elems - 1)
drop_one [] command n l = (tt, refl, omega arith)
drop_one (a ∷ []) command n l = (tt, refl, omega arith)
drop_one (a ∷ b ∷ elems) command n l = (n.1, l, omega arith)

without_head_lem :
    (elems : List Text) (command : Text)
    → IsHistory elems
    → is_last elems command ≡ false
    → NoRepeats (without_head elems)
      × (is_last (without_head elems) command ≡ false)
      × (length (without_head elems) < maximum_history_length)
without_head_lem elems command h l =
    ground (arith, drop_one elems command h.fresh l, h.bounded, h.fresh)

-- Appending a command keeps the history within 64 commands, of which no two neighbours are equal;
-- where memory is left, the command then is the last one.
pub history_append_lem :
    (allocated : Bool) (elems : List Text) (command : Text)
    → IsHistory elems
    → IsHistory (history_append allocated elems command)
      × (is_last (history_append true elems command) command ≡ true)
unfolding history_append
history_append_lem allocated elems command h = elim (Bool-cases (is_last elems command)) [
  | inl p ↦ rw p (h, p)
  | inr p ↦
      let (n, l, s) = without_head_lem elems command h p in
      rw p (more allocated n l s, is_last-snoc (without_head elems) command)
]
  where
    more :
        (allocated : Bool)
        → NoRepeats (without_head elems)
        → is_last (without_head elems) command ≡ false
        → length (without_head elems) < maximum_history_length
        → IsHistory (if allocated then without_head elems ++ (command ∷ []) else without_head elems)
    more true n l s = record {
      bounded = omega (arith, length-append {0} (without_head elems) (command ∷ []));
      fresh = NoRepeats-snoc (without_head elems) command n l;
    }
    more false n l s = record { bounded = omega arith; fresh = n }

-- UP pressed a number of times, with the line as it is at each, and DOWN.
unfoldable pub ups : ℕ → History → (ℕ → Text) → History
ups zero h line = h
ups (suc k) h line = (history_get_previous_command (ups k h line) (line k)).0

unfoldable pub downs : ℕ → History → History
downs zero h = h
downs (suc k) h = (history_get_next_command (downs k h)).0

abbrev at : History → ℕ → Text → History
at h i line = record h { current = some i; line = line; line_valid = true }

at_tail-last : (elems : List Text) → 0 < length elems → at_tail elems ≡ some (length elems - 1)
at_tail-last [] h = absurd (omega arith)
at_tail-last (a ∷ elems) h = ap some (omega arith)

first_up :
    (h : History) (line : Text)
    → h.current ≡ none
    → 0 < length h.elems
    → (history_get_previous_command h line).0 ≡ at h (length h.elems - 1) line
unfolding history_get_previous_command
first_up h line c n = simp c (rw (at_tail-last h.elems n, first_previous))

next_up :
    (h : History) (i : ℕ) (line text : Text)
    → 0 < i
    → (history_get_previous_command (at h i line) text).0 ≡ at h (i - 1) line
unfolding history_get_previous_command
next_up h zero line text p = absurd (omega arith)
next_up h (suc i) line text p = let e : suc i - 1 ≡ i = omega arith in rw e refl

ups-at :
    (k : ℕ) (h : History) (lines : ℕ → Text)
    → h.current ≡ none
    → k < length h.elems
    → ups (suc k) h lines ≡ at h (length h.elems - suc k) (lines 0)
unfolding ups
ups-at zero h lines c n = first_up h (lines 0) c (omega arith)
ups-at (suc k) h lines c n =
    ap (λ g. (history_get_previous_command g (lines (suc k))).0) (ups-at k h lines c (omega arith))
    ∙ next_up h (length h.elems - suc k) (lines 0) (lines (suc k)) (omega arith)
    ∙ ap (λ i. at h i (lines 0)) (omega arith)

get_elem?-lt :
    (elems : List Text) (i : ℕ) → i < length elems → (t : Text) × (get_elem? elems i ≡ some t)
get_elem?-lt [] i h = absurd (omega arith)
get_elem?-lt (a ∷ elems) zero h = (a, refl)
get_elem?-lt (a ∷ elems) (suc i) h = get_elem?-lt elems i (omega arith)

get_elem?-ge : (elems : List Text) (i : ℕ) → length elems ≤ i → get_elem? elems i ≡ none
get_elem?-ge [] i h = refl
get_elem?-ge (a ∷ elems) zero h = absurd (omega arith)
get_elem?-ge (a ∷ elems) (suc i) h = get_elem?-ge elems i (omega arith)

next_down :
    (h : History) (i : ℕ) (line : Text)
    → i + 1 < length h.elems
    → (history_get_next_command (at h i line)).0 ≡ at h (i + 1) line
unfolding history_get_next_command
next_down h i line n = let (t, e) = get_elem?-lt h.elems (i + 1) n in rw (e, behind) refl

last_down :
    (h : History) (i : ℕ) (line : Text)
    → length h.elems ≤ i + 1
    → history_get_next_command (at h i line)
      ≡ (record h { current = none; line = line; line_valid = false }, some line)
unfolding history_get_next_command
last_down h i line n = rw (get_elem?-ge h.elems (i + 1) n, behind) refl

downs-at :
    (k : ℕ) (h : History) (i : ℕ) (line : Text)
    → i + k < length h.elems
    → downs k (at h i line) ≡ at h (i + k) line
unfolding downs
downs-at zero h i line n = ap (λ j. at h j line) (omega arith)
downs-at (suc k) h i line n =
    ap (λ g. (history_get_next_command g).0) (downs-at k h i line (omega arith))
    ∙ next_down h (i + k) line (omega arith)
    ∙ ap (λ j. at h j line) (omega arith)

-- As many presses of DOWN as of UP bring the line back that was edited when UP was pressed first,
-- however often, within the history, and leave no element current.
pub ups-downs :
    (k : ℕ) (h : History) (lines : ℕ → Text)
    → h.current ≡ none
    → k < length h.elems
    → history_get_next_command (downs k (ups (suc k) h lines))
      ≡ (record h { current = none; line = lines 0; line_valid = false }, some (lines 0))
ups-downs k h lines c n =
    ap (λ g. history_get_next_command (downs k g)) (ups-at k h lines c n)
    ∙ ap history_get_next_command (downs-at k h (length h.elems - suc k) (lines 0) (omega arith))
    ∙ last_down h (length h.elems - suc k + k) (lines 0) (omega arith)

-- Where UP was pressed and the line was then executed, which makes no element current, DOWN on the
-- next line recalls the line that was edited before UP, whatever was executed and appended.
pub enter-stale :
    (h : History) (line : Text) (elems : List Text)
    → h.current ≡ none
    → 0 < length h.elems
    → let after = record (history_get_previous_command h line).0 { elems = elems } in
      (history_get_next_command (history_reset_current after)).1 ≡ some line
unfolding history_reset_current history_get_next_command
enter-stale h line elems c n =
    ap (λ g. (history_get_next_command (history_reset_current (record g { elems = elems }))).1)
      (first_up h line c n)

-- What the search finds: the last element with the pattern.
pub record IsFound (commands : List Text) (pattern found : Text) : Type 0 where
  pub older : List Text
  pub newer : List Text
  pub elems : commands ≡ older ++ (found ∷ newer)
  pub matches : contains found pattern ≡ true
  pub last : All (λ elem. contains elem pattern ≡ false) newer

-- The search recalls the newest command that holds the pattern, and nothing if none does.
pub history_reverse_search_lem :
    (elems : List Text) (pattern : Text)
    → ((history_reverse_search elems pattern ≡ none)
        × All (λ elem. contains elem pattern ≡ false) elems)
      ⊎ ((found : Text) × (history_reverse_search elems pattern ≡ some found)
          × IsFound elems pattern found)
unfolding history_reverse_search
history_reverse_search_lem [] pattern = inl (refl, tt)
history_reverse_search_lem (a ∷ elems) pattern = elim (history_reverse_search_lem elems pattern) [
  | inr (found, e, f) ↦ inr (
    found,
    rw (e, or_this),
    record {
      older = a ∷ f.older;
      newer = f.newer;
      elems = ap (λ l. a ∷ l) f.elems;
      matches = f.matches;
      last = f.last;
    },
  )
  | inl (e, none_of) ↦ elim (Bool-cases (contains a pattern)) [
    | inl p ↦ inr (
      a,
      rw (e, or_this) (rw p),
      record { older = []; newer = elems; elems = refl; matches = p; last = none_of },
    )
    | inr p ↦ inl (rw (e, or_this) (rw p), (p, none_of))
  ]
]
