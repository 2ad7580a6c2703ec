-- ===== src/Dhcp/Fuel.antt =====
-- The loop of the option parser ends: one round more than bytes is enough.
use monolinux_c_library.Prelude.{
  ℕ, zero, suc, ◌+◌, ◌≡◌, ◌≤◌, ◌<◌, refl, ap, List, [], ◌∷◌, none, some, length, length-drop, take,
  drop, ltb, ◌==◌, if◌then◌else◌, arith,
}
use monolinux_c_library.Dhcp.Options.{
  Options, no_options, unpack_option, unpack_loop, unpack_all_options, option_end,
}
use monolinux_c_library.Dhcp.Encoding.{then_equal}

unpack_loop-fuel :
    (fuel more : ℕ) (o : Options) (file : List ℕ)
    → length file < fuel
    → fuel ≤ more
    → unpack_loop more o file ≡ unpack_loop fuel o file
unfolding unpack_loop
unpack_loop-fuel zero more o file f m = elim f [ ]
unpack_loop-fuel (suc fuel) zero o file f m = elim m [ ]
unpack_loop-fuel (suc fuel) (suc more) o [] f m = refl
unpack_loop-fuel (suc fuel) (suc more) o (option ∷ []) f m = refl
unpack_loop-fuel (suc fuel) (suc more) o (option ∷ size ∷ file) f m =
    ap
      (λ rest.
        if option == option_end
        then some o
        else if size == 0
        then none
        else if ltb (length file) size
        then none
        else rest)
      (then_equal (unpack_option o option (take size file) size) _ _ (λ o'.
        unpack_loop-fuel fuel more o' (drop size file) (omega (arith, length-drop size file))
          (omega arith)))

-- The parser's loop ends on every file: any greater bound on the rounds gives the same result, so
-- that a failure is one of the code's own.
pub unpack_all_options-fuel :
    (more : ℕ) (file : List ℕ)
    → length file < more
    → unpack_loop more no_options file ≡ unpack_all_options file
unfolding unpack_all_options
unpack_all_options-fuel more file h =
    unpack_loop-fuel (length file + 1) more no_options file (omega arith) (omega arith)
