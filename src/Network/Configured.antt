-- ===== src/Network/Configured.antt =====
-- The order of the steps of ml_network_interface_configure of src/ml_network.c.
use monolinux_c_library.Prelude.{ℕ, ◌≡◌, refl, List, [], ◌∷◌, if◌then◌else◌, arith}
use monolinux_c_library.Prelude.Int.{ℤ, is_failed, minus}
use monolinux_c_library.Prelude.Calls.{until_failure, eq_of_is_zero}
use monolinux_c_library.Prelude.Text.{Text}
use monolinux_c_library.Network.System.{
  Request, set_address, set_netmask, set_mtu, Member, address, mtu, Call, ioctl, Answer, Trace,
  egeneral, call, net_open, net_close, new_ifreq,
}
use monolinux_c_library.Network.Interface.{
  create_address_request, set_ip_address, set_netmask_address, set_interface_mtu, configure_open,
  interface_configure,
}

-- A request on the interface `name`.
abbrev pub request_on : ℤ → Text → Request → Member → Call
request_on fd name request member =
    ioctl fd request (record { name = (new_ifreq name).name; member = member })

module _ (answer : Trace → Call → Answer) where
  -- A socket is opened, the requests are made on it, and it is closed.
  abbrev pub on_socket : (ℤ → List Call) → Trace → Trace × ℤ
  on_socket requests tr =
      let (tr1, opened) = net_open answer tr in
      if is_failed opened.res
      then (tr1, minus egeneral)
      else net_close answer opened.res (until_failure answer (λ a. a.res) (requests opened.res) tr1)

  module _ (inet_addr : Text → ℕ) (name ip mask : Text) (n : ℤ) where
    abbrev pub configure_requests : ℤ → List Call
    configure_requests fd =
        request_on fd name set_address (address (inet_addr ip))
        ∷ request_on fd name set_netmask (address (inet_addr mask))
        ∷ request_on fd name set_mtu (mtu n)
        ∷ []

    configure_open_lem :
        (fd : ℤ) (tr : Trace)
        → configure_open answer inet_addr fd (new_ifreq name) ip mask n tr
          ≡ until_failure answer (λ a. a.res) (configure_requests fd) tr
    unfolding configure_open set_ip_address set_netmask_address set_interface_mtu
        create_address_request until_failure call new_ifreq
    configure_open_lem fd tr =
        let c1 = request_on fd name set_address (address (inet_addr ip)) in
        let c2 = request_on fd name set_netmask (address (inet_addr mask)) in
        let tr2 = call answer c2 (call answer c1 tr) in
        ground (arith, eq_of_is_zero (answer tr2 (request_on fd name set_mtu (mtu n))).res)

    -- ml_network_interface_configure is: open a socket; set the address, the netmask and the MTU of
    -- the interface, in this order and up to the first that fails, whose result it has; close the
    -- socket. Without a socket nothing is set, and the result is an error.
    pub interface_configure_lem :
        (tr : Trace)
        → interface_configure answer inet_addr name ip mask n tr ≡ on_socket configure_requests tr
    unfolding interface_configure
    interface_configure_lem tr =
        rw (configure_open_lem (net_open answer tr).1.res (net_open answer tr).0) refl
