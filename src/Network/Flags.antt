-- ===== src/Network/Flags.antt =====
-- ml_network_interface_up and _down of src/ml_network.c on a kernel that keeps the flags.
use monolinux_c_library.Prelude.{
  ℕ, ◌/◌, ◌%◌, ◌≡◌, ◌≤◌, [], ◌∷◌, false, ◌&&◌, ◌⊎◌, if◌then◌else◌, arith,
}
use monolinux_c_library.Prelude.Int.{ℤ, pos, is_zero}
use monolinux_c_library.Prelude.Text.{Text, same, same_refl, eq_of_same}
use monolinux_c_library.Network.System.{
  get_flags, set_flags, Member, flags, Ifreq, Call, ioctl, Answer, Trace, new_ifreq, kernel_name,
  call, net_open, net_close,
}
use monolinux_c_library.Network.Interface.{
  with_up, without_up, change_flags, up, down, interface_up, interface_down,
}

-- The flags that `name` has after a call: SIOCSIFFLAGS with the result 0 stores them.
abbrev pub stored : Member → ℕ → ℕ
stored (flags f) old = f
stored _ old = old

abbrev pub flags_after : Call → Answer → Text → ℕ → ℕ
flags_after (ioctl fd set_flags ifreq) a name old =
    if is_zero a.res && same ifreq.name name then stored ifreq.member old else old
flags_after _ a name old = old

-- All flags but IFF_UP, the lowest, are kept.
abbrev pub IsSwitched : ℕ → ℕ → ℕ → Type 0
IsSwitched up old new = (new / 2 ≡ old / 2) × (new % 2 ≡ up)

module _ (initial : Text → ℕ) where
  unfoldable pub flags_of : Text → Trace → ℕ
  flags_of name [] = initial name
  flags_of name ((c, a) ∷ tr) = flags_after c a name (flags_of name tr)

module _ (answer : Trace → Call → Answer) (initial : Text → ℕ) where
  -- SIOCGIFFLAGS finds the flags of the interface, and a call that fails sets `errno`.
  abbrev pub KeepsFlags : Type 0
  KeepsFlags =
      ((tr : Trace) (fd : ℤ) (ifreq : Ifreq)
        → (answer tr (ioctl fd get_flags ifreq)).flags ≡ flags_of initial ifreq.name tr)
      × ((tr : Trace) (c : Call) → 1 ≤ (answer tr c).errno)

  -- What a switch to `up` promises of the interface `name`, and of all others.
  abbrev pub Switches : ℕ → Text → Text → Trace → Trace × ℤ → Type 0
  Switches up name other tr (tr', res) =
      (((res ≡ pos 0)
          × IsSwitched up (flags_of initial (kernel_name name) tr)
              (flags_of initial (kernel_name name) tr'))
        ⊎ ((is_zero res ≡ false)
            × (flags_of initial (kernel_name name) tr' ≡ flags_of initial (kernel_name name) tr)))
      × ((flags_of initial other tr' ≡ flags_of initial other tr) ⊎ (other ≡ kernel_name name))

  change_flags_lem :
      (change : ℕ → ℕ) (b : ℕ)
      → ((f : ℕ) → IsSwitched b f (change f))
      → KeepsFlags
      → (fd : ℤ) (name other : Text) (tr : Trace)
      → Switches b name other tr (change_flags answer change fd (new_ifreq name) tr)
  unfolding change_flags call flags_of new_ifreq
  change_flags_lem change b hc (hf, he) fd name other tr =
      let ifreq = new_ifreq name in
      let c = ioctl fd get_flags ifreq in
      let tr1 = call answer c tr in
      let put = ioctl fd set_flags (record ifreq { member = flags (change (answer tr c).flags) }) in
      ground (
        arith,
        hf tr fd ifreq,
        he tr c,
        he tr1 put,
        hc (flags_of initial (kernel_name name) tr),
        same_refl (kernel_name name),
        eq_of_same (kernel_name name) other,
      )

  up_lem : (f : ℕ) → IsSwitched 1 f (with_up f)
  unfolding with_up
  up_lem f = (omega arith, omega arith)

  down_lem : (f : ℕ) → IsSwitched 0 f (without_up f)
  unfolding without_up
  down_lem f = (omega arith, omega arith)

  -- On a kernel that keeps the flags of its interfaces, and whose failed calls set `errno`:
  -- ml_network_interface_up, when its result is 0, has set IFF_UP of the interface and changed no
  -- other flag of it, ml_network_interface_down has cleared IFF_UP in the same way, and with another
  -- result each has changed none. The flags of another interface stay as they were.
  pub switch_refines :
      KeepsFlags
      → (name other : Text) (tr : Trace)
      → Switches 1 name other tr (interface_up answer name tr)
        × Switches 0 name other tr (interface_down answer name tr)
  unfolding interface_up interface_down up down net_open net_close call flags_of
  switch_refines k name other tr =
      let (tr1, opened) = net_open answer tr in
      (
        ground (arith, change_flags_lem with_up 1 up_lem k opened.res name other tr1),
        ground (arith, change_flags_lem without_up 0 down_lem k opened.res name other tr1),
      )
