-- ===== src/Network/Closed.antt =====
-- What the functions and commands for interfaces of src/ml_network.c open, they close.
use monolinux_c_library.Prelude.{ℕ, List, [], ◌∷◌, arith, Option, none, some}
use monolinux_c_library.Prelude.Int.{ℤ}
use monolinux_c_library.Prelude.Text.{Text}
use monolinux_c_library.Network.System.{
  Request, get_address, get_hwaddr, get_mtu, get_index, Ifreq, Call, Answer, Trace, Settings, call,
  net_open, net_close, new_ifreq,
}
use monolinux_c_library.Network.Interface.{
  configure_open, up, down, change_flags, interface_configure, interface_up, interface_down,
  get_ifreq, interface_index, interface_mac_address, interface_ip_address, interface_mtu,
  interface_add_route, set_ip_address, set_netmask_address, set_interface_mtu,
}
use monolinux_c_library.Network.Link.{
  get_settings, put_settings, interface_link_configure, ethtool_print, link_configure_args,
  ethtool_link_configure, speed_arg, duplex_arg, autoneg_arg,
}
use monolinux_c_library.Network.Commands.{
  with_usage, ifconfig_print, ifconfig, command_ifconfig, command_route, command_ethtool,
}
use monolinux_c_library.Network.Balance.{opens, closes, IsBalanced}

module _ (answer : Trace → Call → Answer) (fd : ℤ) where
  change_flags-IsBalanced :
      (change : ℕ → ℕ) (sock : ℤ) (ifreq : Ifreq) (tr : Trace)
      → IsBalanced fd tr (change_flags answer change sock ifreq tr).0
  unfolding change_flags call opens closes
  change_flags-IsBalanced change sock ifreq tr = ground arith

  configure_open-IsBalanced :
      (inet_addr : Text → ℕ) (sock : ℤ) (ifreq : Ifreq) (ip mask : Text) (n : ℤ) (tr : Trace)
      → IsBalanced fd tr (configure_open answer inet_addr sock ifreq ip mask n tr).0
  unfolding configure_open set_ip_address set_netmask_address set_interface_mtu call opens closes
  configure_open-IsBalanced inet_addr sock ifreq ip mask n tr = ground arith

  pub interface_configure-IsBalanced :
      (inet_addr : Text → ℕ) (name ip mask : Text) (n : ℤ) (tr : Trace)
      → IsBalanced fd tr (interface_configure answer inet_addr name ip mask n tr).0
  unfolding interface_configure net_open net_close call opens closes
  interface_configure-IsBalanced inet_addr name ip mask n tr =
      let (tr1, opened) = net_open answer tr in
      ground (arith, configure_open-IsBalanced inet_addr opened.res (new_ifreq name) ip mask n tr1)

  interface_up-IsBalanced :
      (name : Text) (tr : Trace) → IsBalanced fd tr (interface_up answer name tr).0
  unfolding interface_up up net_open net_close call opens closes
  interface_up-IsBalanced name tr = ground (
    arith,
    change_flags-IsBalanced _ (net_open answer tr).1.res (new_ifreq name) (net_open answer tr).0,
  )

  get_ifreq-IsBalanced :
      (name : Text) (request : Request) (tr : Trace)
      → IsBalanced fd tr (get_ifreq answer name request tr).0
  unfolding get_ifreq net_open net_close call opens closes
  get_ifreq-IsBalanced name request tr = ground arith

  interface_add_route-IsBalanced :
      (inet_addr : Text → ℕ) (name ip : Text) (tr : Trace)
      → IsBalanced fd tr (interface_add_route answer inet_addr name ip tr).0
  unfolding interface_add_route net_open net_close call opens closes
  interface_add_route-IsBalanced inet_addr name ip tr = ground arith

  interface_link_configure-IsBalanced :
      (stack : Settings) (name : Text) (s d a : ℤ) (tr : Trace)
      → IsBalanced fd tr (interface_link_configure answer stack name s d a tr).0
  unfolding interface_link_configure get_settings put_settings net_open net_close call opens closes
  interface_link_configure-IsBalanced stack name s d a tr = ground arith

  ethtool_print-IsBalanced :
      (stack : Settings) (name : Text) (tr : Trace)
      → IsBalanced fd tr (ethtool_print answer stack name tr).0
  unfolding ethtool_print get_settings net_open net_close call opens closes
  ethtool_print-IsBalanced stack name tr = ground arith

  interface_down-IsBalanced :
      (name : Text) (tr : Trace) → IsBalanced fd tr (interface_down answer name tr).0
  unfolding interface_down down net_open net_close call opens closes
  interface_down-IsBalanced name tr = ground (
    arith,
    change_flags-IsBalanced _ (net_open answer tr).1.res (new_ifreq name) (net_open answer tr).0,
  )

  ifconfig_print-IsBalanced :
      (name : Text) (tr : Trace) → IsBalanced fd tr (ifconfig_print answer name tr).0
  unfolding ifconfig_print interface_ip_address interface_mac_address interface_mtu interface_index
  ifconfig_print-IsBalanced name tr =
      let tr1 = (get_ifreq answer name get_address tr).0 in
      let tr2 = (get_ifreq answer name get_hwaddr tr1).0 in
      let tr3 = (get_ifreq answer name get_mtu tr2).0 in
      omega (
        arith,
        get_ifreq-IsBalanced name get_address tr,
        get_ifreq-IsBalanced name get_hwaddr tr1,
        get_ifreq-IsBalanced name get_mtu tr2,
        get_ifreq-IsBalanced name get_index tr3,
      )

  ifconfig-IsBalanced :
      (inet_addr : Text → ℕ) (atoi : Text → ℤ) (argv : List Text) (tr : Trace)
      → IsBalanced fd tr (ifconfig answer inet_addr atoi argv tr).0
  unfolding ifconfig
  ifconfig-IsBalanced inet_addr atoi [] tr = omega arith
  ifconfig-IsBalanced inet_addr atoi (a ∷ []) tr = omega arith
  ifconfig-IsBalanced inet_addr atoi (a ∷ name ∷ []) tr = ifconfig_print-IsBalanced name tr
  ifconfig-IsBalanced inet_addr atoi (a ∷ name ∷ arg ∷ []) tr =
      ground (arith, interface_up-IsBalanced name tr, interface_down-IsBalanced name tr)
  ifconfig-IsBalanced inet_addr atoi (a ∷ name ∷ ip ∷ mask ∷ []) tr = omega arith
  ifconfig-IsBalanced inet_addr atoi (a ∷ name ∷ ip ∷ mask ∷ n ∷ []) tr =
      interface_configure-IsBalanced inet_addr name ip mask (atoi n) tr
  ifconfig-IsBalanced inet_addr atoi (a ∷ name ∷ ip ∷ mask ∷ n ∷ b ∷ argv) tr = omega arith

  route-IsBalanced :
      (inet_addr : Text → ℕ) (argv : List Text) (tr : Trace)
      → IsBalanced fd tr (command_route answer inet_addr argv tr).0
  unfolding command_route with_usage
  route-IsBalanced inet_addr [] tr = omega arith
  route-IsBalanced inet_addr (a ∷ []) tr = omega arith
  route-IsBalanced inet_addr (a ∷ name ∷ []) tr = omega arith
  route-IsBalanced inet_addr (a ∷ name ∷ ip ∷ []) tr =
      interface_add_route-IsBalanced inet_addr name ip tr
  route-IsBalanced inet_addr (a ∷ name ∷ ip ∷ b ∷ argv) tr = omega arith

  args-IsBalanced :
      (stack : Settings) (name : Text) (s : ℤ) (d a : Option ℤ) (tr : Trace)
      → IsBalanced fd tr (link_configure_args answer stack name s d a tr).0
  unfolding link_configure_args
  args-IsBalanced stack name s none a tr = omega arith
  args-IsBalanced stack name s (some d) none tr = omega arith
  args-IsBalanced stack name s (some d) (some a) tr =
      interface_link_configure-IsBalanced stack name s d a tr

  ethtool-IsBalanced :
      (stack : Settings) (atoi : Text → ℤ) (argv : List Text) (tr : Trace)
      → IsBalanced fd tr (command_ethtool answer stack atoi argv tr).0
  unfolding command_ethtool ethtool_link_configure with_usage
  ethtool-IsBalanced stack atoi [] tr = omega arith
  ethtool-IsBalanced stack atoi (a ∷ []) tr = omega arith
  ethtool-IsBalanced stack atoi (a ∷ name ∷ []) tr = ethtool_print-IsBalanced stack name tr
  ethtool-IsBalanced stack atoi (a ∷ name ∷ s ∷ []) tr = omega arith
  ethtool-IsBalanced stack atoi (a ∷ name ∷ s ∷ d ∷ []) tr = omega arith
  ethtool-IsBalanced stack atoi (a ∷ name ∷ s ∷ d ∷ n ∷ []) tr =
      args-IsBalanced stack name (speed_arg atoi s) (duplex_arg d) (autoneg_arg n) tr
  ethtool-IsBalanced stack atoi (a ∷ name ∷ s ∷ d ∷ n ∷ b ∷ argv) tr = omega arith

  -- Whatever the arguments and whatever the calls result in, the commands `ifconfig`, `route` and
  -- `ethtool` close each descriptor as often as they open it.
  pub commands-IsBalanced :
      (inet_addr : Text → ℕ) (atoi : Text → ℤ) (stack : Settings) (argv : List Text) (tr : Trace)
      → IsBalanced fd tr (command_ifconfig answer inet_addr atoi argv tr).0
        × IsBalanced fd tr (command_route answer inet_addr argv tr).0
        × IsBalanced fd tr (command_ethtool answer stack atoi argv tr).0
  unfolding command_ifconfig with_usage
  commands-IsBalanced inet_addr atoi stack argv tr = (
    ifconfig-IsBalanced inet_addr atoi argv tr,
    route-IsBalanced inet_addr argv tr,
    ethtool-IsBalanced stack atoi argv tr,
  )
