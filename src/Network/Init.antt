-- ===== src/Network/Init.antt =====
-- ml_network_init of src/ml_network.c, and what the shell's call of a command comes to. A function is
-- known by its address.
use monolinux_c_library.Prelude.{ℕ, List, ◌++◌, ◌==◌, if◌then◌else◌}
use monolinux_c_library.Prelude.Int.{ℤ}
use monolinux_c_library.Prelude.Text.{Text, codes}
use monolinux_c_library.Shell.Registry.{Command, register_command}
use monolinux_c_library.Network.System.{Call, Answer, Trace, Settings}
use monolinux_c_library.Network.Link.{Printed}
use monolinux_c_library.Network.Commands.{command_ifconfig, command_route, command_ethtool}

-- The addresses of command_ifconfig(), command_route() and command_ethtool().
abbrev pub ifconfig_address : ℕ
ifconfig_address = 1

abbrev pub route_address : ℕ
route_address = 2

abbrev pub ethtool_address : ℕ
ethtool_address = 3

-- ml_network_init().
unfoldable pub network_init : List Command → List Command
unfolding register_command
network_init commands =
    register_command
      (register_command
        (register_command commands (codes "ifconfig") (codes "Network interface management.")
          ifconfig_address)
        (codes "route") (codes "Network routing.") route_address)
      (codes "ethtool") (codes "Ethernet link settings.") ethtool_address

-- The calls made so far, and what was printed.
abbrev pub World : Type 0
World = Trace × List Printed

abbrev pub printed : List Printed → Trace × List Printed × ℤ → ℤ × World
printed out (tr, more, res) = (res, (tr, out ++ more))

-- `others` are the callbacks of the other commands.
module _ (answer : Trace → Call → Answer) (inet_addr : Text → ℕ) (atoi : Text → ℤ)
    (stack : Settings) (others : ℕ → List Text → World → ℤ × World) where
  unfoldable pub callback : ℕ → List Text → World → ℤ × World
  unfolding command_ifconfig command_route command_ethtool
  callback address argv world =
      if address == ifconfig_address
      then printed world.1 (command_ifconfig answer inet_addr atoi argv world.0)
      else if address == route_address
      then printed world.1 (command_route answer inet_addr argv world.0)
      else if address == ethtool_address
      then printed world.1 (command_ethtool answer stack atoi argv world.0)
      else others address argv world
