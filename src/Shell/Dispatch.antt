-- ===== src/Shell/Dispatch.antt =====
-- What ml_shell_execute_command of src/ml_shell.c runs.
use monolinux_c_library.Libc.{Libc, Ascends}
use monolinux_c_library.Prelude.{
  ℕ, zero, suc, ◌≡◌, ◌≢◌, ◌≤◌, ◌<◌, refl, sym, ap, ◌∙◌, List, [], ◌∷◌, none, some, Option-cases,
  Bool-cases, inl, inr, get_elem?, All, length, true, arith,
}
use monolinux_c_library.Prelude.Int.{ℤ, pos}
use monolinux_c_library.Prelude.Text.{Text, same, same_refl, eq_of_same}
use monolinux_c_library.Shell.Quoting.{command, IsQuotable, parse_command-command}
use monolinux_c_library.Shell.Registry.{
  Command, strcmp, compare_bsearch, compare_qsort, find_command, start, dispatch, execute_parsed,
  execute_command,
}
use monolinux_c_library.Shell.Names.{
  strcmp_refl, strcmp-same, compare_qsort-IsOrder, Ascends-Falls, occurrences, lookup,
  occurrences-perm, lookup-perm,
}

found_same : (name : Text) (a : Command) → compare_bsearch name a ≡ pos 0 → same a.name name ≡ true
unfolding compare_bsearch
found_same name a e = rw (eq_of_same name a.name (strcmp-same name a.name e)) (same_refl a.name)

lookup-none :
    (name : Text) (commands : List Command)
    → All (λ a. compare_bsearch name a ≢ pos 0) commands
    → lookup name commands ≡ none
unfolding lookup compare_bsearch
lookup-none name [] h = refl
lookup-none name (a ∷ l) h = elim (Bool-cases (same a.name name)) [
  | inl p ↦
      let e : strcmp name a.name ≡ pos 0 = rw (eq_of_same a.name name p) (strcmp_refl name) in
      absurd (h.0 e)
  | inr p ↦ rw p (lookup-none name l h.1)
]

occurrences_pos :
    (name : Text) (commands : List Command) (i : ℕ) {a : Command}
    → get_elem? commands i ≡ some a
    → same a.name name ≡ true
    → 0 < occurrences name commands
occurrences_pos name [] i e u = absurd (ground arith)
occurrences_pos name (x ∷ l) zero e u = ground arith
occurrences_pos name (x ∷ l) (suc i) e u = omega (arith, occurrences_pos name l i e u)

lookup_at :
    (name : Text) (commands : List Command) (i : ℕ) {a : Command}
    → get_elem? commands i ≡ some a
    → same a.name name ≡ true
    → occurrences name commands ≤ 1
    → lookup name commands ≡ some a
unfolding lookup
lookup_at name [] i e u one = absurd (ground arith)
lookup_at name (x ∷ l) zero e u one = ground arith
lookup_at name (x ∷ l) (suc i) e u one =
    ground (arith, occurrences_pos name l i e u, lookup_at name l i e u)

-- No two commands have the same name.
abbrev pub IsUnique : List Command → Type 0
IsUnique commands = (name : Text) → occurrences name commands ≤ 1

module _ (libc : Libc Command) where
  found-lookup :
      (commands : List Command) (name : Text) (i : ℕ)
      → Ascends compare_qsort commands
      → occurrences name commands ≤ 1
      → libc.bsearch (compare_bsearch name) commands ≡ some i
      → lookup name commands ≡ get_elem? commands i
  found-lookup commands name i h u e =
      let (a, at, c) =
        libc.bsearch_found (compare_bsearch name) commands (Ascends-Falls name commands h) e in
      lookup_at name commands i at (found_same name a c) u ∙ sym at

  find_command-lookup :
      (commands : List Command) (name : Text)
      → Ascends compare_qsort commands
      → occurrences name commands ≤ 1
      → find_command libc commands name ≡ lookup name commands
  unfolding find_command
  find_command-lookup commands name h u =
      let falls = Ascends-Falls name commands h in
      elim (Option-cases (libc.bsearch (compare_bsearch name) commands)) [
        | inl e ↦ rw e (
            sym (
              lookup-none name commands
                (libc.bsearch_missing (compare_bsearch name) commands falls e)))
        | inr (i, e) ↦ rw e (sym (found-lookup commands name i h u e))
      ]

  -- After ml_shell_start the binary search finds, for every name, the command that was registered
  -- by that name, wherever it stands in the table, and none where there is none.
  pub find_command-start :
      (commands : List Command) (name : Text)
      → IsUnique commands
      → find_command libc (start libc commands) name ≡ lookup name commands
  unfolding start
  find_command-start commands name u =
      let p = libc.qsort_perm compare_qsort commands compare_qsort-IsOrder in
      let h = libc.qsort_ascends compare_qsort commands compare_qsort-IsOrder in
      find_command-lookup (libc.qsort compare_qsort commands) name h
        (omega (arith, occurrences-perm name p, u name))
      ∙ lookup-perm name p (u name)

  module _ {W : Type 0} (call : ℕ → List Text → W → ℤ × W) where
    -- A line of up to 32 quoted arguments runs the callback that was registered by the first one,
    -- once, with just these arguments, and gives its result; if no command has that name, the
    -- result is -EINVAL and nothing is run.
    pub execute_command-command :
        (commands : List Command) (name : Text) (args : List Text) (world : W)
        → IsUnique commands
        → length args < 32
        → All IsQuotable (name ∷ args)
        → execute_command libc call (start libc commands) (command (name ∷ args)) world
          ≡ dispatch libc call (lookup name commands) (name ∷ args) world
    unfolding execute_command
    execute_command-command commands name args world u h q =
        ap (λ p. execute_parsed libc call (start libc commands) p world)
          (parse_command-command name args h q)
        ∙ ap (λ c. dispatch libc call c (name ∷ args) world) (find_command-start commands name u)
