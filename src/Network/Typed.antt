-- ===== src/Network/Typed.antt =====
-- A command line of the shell that switches an interface: the shell of src/ml_shell.c runs the commands
-- of src/ml_network.c.
use monolinux_c_library.Libc.{Libc}
use monolinux_c_library.Prelude.{
  ℕ, ◌+◌, ◌≤◌, ◌≡◌, refl, ap, sym, List, [], ◌∷◌, ◌++◌, append_assoc, ◌∙◌, Bool, true, false, some,
  arith,
}
use monolinux_c_library.Prelude.Int.{ℤ}
use monolinux_c_library.Prelude.Text.{Text, codes, same}
use monolinux_c_library.Shell.Quoting.{command, IsQuotable}
use monolinux_c_library.Shell.Registry.{Command, register_command, start, dispatch, execute_command}
use monolinux_c_library.Shell.Names.{occurrences, lookup}
use monolinux_c_library.Shell.Dispatch.{IsUnique, execute_command-command}
use monolinux_c_library.Network.System.{Call, Answer, Trace, Settings}
use monolinux_c_library.Network.Commands.{with_usage, ifconfig, command_ifconfig}
use monolinux_c_library.Network.Init.{
  ifconfig_address, route_address, ethtool_address, network_init, World, callback,
}
use monolinux_c_library.Network.Flags.{KeepsFlags, Switches, switch_refines}

lookup-append :
    (name : Text) (commands more : List Command)
    → occurrences name commands ≡ 0
    → lookup name (commands ++ more) ≡ lookup name more
unfolding lookup
lookup-append name [] more h = refl
lookup-append name (c ∷ commands) more h = ground (arith, lookup-append name commands more)

occurrences-append :
    (name : Text) (commands more : List Command)
    → occurrences name (commands ++ more) ≡ occurrences name commands + occurrences name more
occurrences-append name [] more = omega arith
occurrences-append name (c ∷ commands) more = omega (arith, occurrences-append name commands more)

abbrev ifconfig_command : Command
ifconfig_command = record {
  name = codes "ifconfig";
  description = codes "Network interface management.";
  callback = ifconfig_address;
}

abbrev three_commands : List Command
three_commands =
    ifconfig_command
    ∷ record {
      name = codes "route";
      description = codes "Network routing.";
      callback = route_address;
    }
    ∷ record {
      name = codes "ethtool";
      description = codes "Ethernet link settings.";
      callback = ethtool_address;
    }
    ∷ []

network_init_lem : (commands : List Command) → network_init commands ≡ commands ++ three_commands
unfolding network_init register_command
network_init_lem commands = append_assoc (commands ++ _) _ _ ∙ append_assoc commands _ _

lookup-ifconfig :
    (commands : List Command)
    → IsUnique (network_init commands)
    → lookup (codes "ifconfig") (network_init commands) ≡ some ifconfig_command
unfolding lookup same
lookup-ifconfig commands u =
    let name = codes "ifconfig" in
    let e = network_init_lem commands in
    let once : occurrences name (commands ++ three_commands) ≤ 1 = rw e at (u name) in
    let none_yet : occurrences name commands ≡ 0 =
      omega (arith, once, occurrences-append name commands three_commands) in
    rw e (lookup-append name commands three_commands none_yet)

-- The words of a command line that switches an interface.
abbrev pub switch_word : Bool → Text
switch_word true = codes "up"
switch_word false = codes "down"

abbrev pub switch_flag : Bool → ℕ
switch_flag true = 1
switch_flag false = 0

abbrev pub switch_line : Text → Bool → List Text
switch_line name up = codes "ifconfig" ∷ name ∷ switch_word up ∷ []

ifconfig-IsQuotable : IsQuotable (codes "ifconfig")
ifconfig-IsQuotable = ground arith

word-IsQuotable : (up : Bool) → IsQuotable (switch_word up)
word-IsQuotable true = ground arith
word-IsQuotable false = ground arith

module _ (libc : Libc Command) (answer : Trace → Call → Answer) (initial : Text → ℕ)
    (inet_addr : Text → ℕ) (atoi : Text → ℤ) (stack : Settings)
    (others : ℕ → List Text → World → ℤ × World) where
  -- The trace and the result that a command line leads to.
  abbrev pub traced : ℤ × World → Trace × ℤ
  traced (res, (tr, out)) = (tr, res)

  abbrev pub executed : List Command → List Text → World → Trace × ℤ
  executed commands words world = traced (
      execute_command libc (callback answer inet_addr atoi stack others)
        (start libc (network_init commands)) (command words) world)

  dispatch-ifconfig :
      (argv : List Text) (world : World)
      → let r = command_ifconfig answer inet_addr atoi argv world.0 in
        traced (
          dispatch libc
            (callback answer inet_addr atoi stack others)
            (some ifconfig_command)
            argv
            world)
        ≡ (r.0, r.2)
  unfolding callback
  dispatch-ifconfig argv world = refl

  command_ifconfig-Switches :
      KeepsFlags answer initial
      → (name other : Text) (up : Bool) (tr : Trace)
      → let r = command_ifconfig answer inet_addr atoi (switch_line name up) tr in
        Switches answer initial (switch_flag up) name other tr (r.0, r.2)
  unfolding command_ifconfig with_usage ifconfig same
  command_ifconfig-Switches k name other true tr = (switch_refines answer initial k name other tr).0
  command_ifconfig-Switches k name other false tr =
      (switch_refines answer initial k name other tr).1

  -- With commands registered under names that differ: on a kernel that keeps the flags of its interfaces,
  -- and whose failed calls set `errno`, the shell's command line `ifconfig`, an interface, and `up` or
  -- `down`, when its result is 0, has set or cleared IFF_UP of that interface and changed no other flag
  -- of it; with another result it has changed none. The flags of another interface stay as they were.
  pub executed-Switches :
      KeepsFlags answer initial
      → (commands : List Command) (name other : Text) (up : Bool) (world : World)
      → IsUnique (network_init commands)
      → IsQuotable name
      → Switches answer initial
          (switch_flag up)
          name
          other
          world.0
          (executed commands (switch_line name up) world)
  executed-Switches k commands name other up world u q =
      let run = callback answer inet_addr atoi stack others in
      let words = switch_line name up in
      let e =
        execute_command-command libc run (network_init commands) (codes "ifconfig")
          (name ∷ switch_word up ∷ []) world u (omega arith)
          (ifconfig-IsQuotable, (q, (word-IsQuotable up, tt))) in
      let found = ap (λ c. traced (dispatch libc run c words world)) (lookup-ifconfig commands u) in
      let path = sym (ap traced e ∙ found ∙ dispatch-ifconfig words world) in
      coe 0 1 (i. Switches answer initial (switch_flag up) name other world.0 (path i))
        (command_ifconfig-Switches k name other up world.0)
