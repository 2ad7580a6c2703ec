-- ===== src/Network/Interface.antt =====
-- The settings of an interface: ml_network_interface_configure, _up, _down, _index, _mac_address,
-- _ip_address, _mtu and _add_route of src/ml_network.c.
use monolinux_c_library.Prelude.{ℕ, ◌+◌, ◌-◌, ◌%◌, List, ◌==◌, if◌then◌else◌, take, not}
use monolinux_c_library.Prelude.Int.{ℤ, pos, is_zero, is_failed, minus}
use monolinux_c_library.Prelude.Text.{Text}
use monolinux_c_library.Network.System.{
  Request, get_flags, set_flags, set_address, set_netmask, set_mtu, get_index, get_hwaddr,
  get_address, get_mtu, Ifreq, flags, mtu, address, Call, ioctl, ioctl_route, Answer, Trace, Route,
  egeneral, eexist, new_ifreq, asked, call, net_open, net_close,
}

-- `flags | IFF_UP` and `flags & ~IFF_UP`, of the lowest bit.
unfoldable pub with_up : ℕ → ℕ
with_up f = f - f % 2 + 1

unfoldable pub without_up : ℕ → ℕ
without_up f = f - f % 2

-- create_address_request(): `inet_addr` is a parameter.
unfoldable pub create_address_request : (Text → ℕ) → Ifreq → Text → Ifreq
create_address_request inet_addr ifreq text = record ifreq { member = address (inet_addr text) }

-- The route of ml_network_interface_add_route(), with the flags RTF_UP | RTF_GATEWAY.
unfoldable pub default_route : (Text → ℕ) → Text → Route
default_route inet_addr text = record { gateway = inet_addr text; dst = 0; genmask = 0; flags = 3 }

module _ (answer : Trace → Call → Answer) where
  -- up() and down(): `change` is what becomes of the flags.
  unfoldable pub change_flags : (ℕ → ℕ) → ℤ → Ifreq → Trace → Trace × ℤ
  unfolding call
  change_flags change fd ifreq tr =
      let got = asked answer (ioctl fd get_flags ifreq) tr in
      let tr1 = call answer (ioctl fd get_flags ifreq) tr in
      let request = ioctl fd set_flags (record ifreq { member = flags (change got.flags) }) in
      let put = asked answer request tr1 in
      if is_zero got.res
      then (call answer request tr1, if is_zero put.res then pos 0 else minus put.errno)
      else (tr1, minus got.errno)

  unfoldable pub up : ℤ → Ifreq → Trace → Trace × ℤ
  unfolding change_flags with_up
  up fd ifreq tr = change_flags with_up fd ifreq tr

  unfoldable pub down : ℤ → Ifreq → Trace → Trace × ℤ
  unfolding change_flags without_up
  down fd ifreq tr = change_flags without_up fd ifreq tr

  unfoldable pub set_ip_address : (Text → ℕ) → ℤ → Ifreq → Text → Trace → Trace × Ifreq × ℤ
  unfolding call create_address_request
  set_ip_address inet_addr fd ifreq text tr =
      let ifreq' = create_address_request inet_addr ifreq text in
      let c = ioctl fd set_address ifreq' in (call answer c tr, ifreq', (asked answer c tr).res)

  unfoldable pub set_netmask_address : (Text → ℕ) → ℤ → Ifreq → Text → Trace → Trace × Ifreq × ℤ
  unfolding call create_address_request
  set_netmask_address inet_addr fd ifreq text tr =
      let ifreq' = create_address_request inet_addr ifreq text in
      let c = ioctl fd set_netmask ifreq' in (call answer c tr, ifreq', (asked answer c tr).res)

  unfoldable pub set_interface_mtu : ℤ → Ifreq → ℤ → Trace → Trace × ℤ
  unfolding call
  set_interface_mtu fd ifreq n tr =
      let c = ioctl fd set_mtu (record ifreq { member = mtu n }) in
      (call answer c tr, (asked answer c tr).res)

  -- The body of ml_network_interface_configure() with the socket open.
  unfoldable pub configure_open : (Text → ℕ) → ℤ → Ifreq → Text → Text → ℤ → Trace → Trace × ℤ
  unfolding set_ip_address set_netmask_address set_interface_mtu
  configure_open inet_addr fd ifreq ip mask n tr =
      let (tr1, ifreq1, res1) = set_ip_address inet_addr fd ifreq ip tr in
      let (tr2, ifreq2, res2) = set_netmask_address inet_addr fd ifreq1 mask tr1 in
      if not (is_zero res1)
      then (tr1, res1)
      else if not (is_zero res2)
      then (tr2, res2)
      else set_interface_mtu fd ifreq2 n tr2

  unfoldable pub interface_configure : (Text → ℕ) → Text → Text → Text → ℤ → Trace → Trace × ℤ
  unfolding net_open net_close configure_open new_ifreq
  interface_configure inet_addr name ip mask n tr =
      let (tr1, opened) = net_open answer tr in
      if is_failed opened.res
      then (tr1, minus egeneral)
      else net_close answer opened.res
          (configure_open inet_addr opened.res (new_ifreq name) ip mask n tr1)

  unfoldable pub interface_up : Text → Trace → Trace × ℤ
  unfolding net_open net_close up new_ifreq
  interface_up name tr =
      let (tr1, opened) = net_open answer tr in
      if is_failed opened.res
      then (tr1, minus egeneral)
      else net_close answer opened.res (up opened.res (new_ifreq name) tr1)

  unfoldable pub interface_down : Text → Trace → Trace × ℤ
  unfolding net_open net_close down new_ifreq
  interface_down name tr =
      let (tr1, opened) = net_open answer tr in
      if is_failed opened.res
      then (tr1, minus egeneral)
      else net_close answer opened.res (down opened.res (new_ifreq name) tr1)

  -- get_ifreq(): the answer is what the kernel left in `ifreq_p`.
  unfoldable pub get_ifreq : Text → Request → Trace → Trace × Answer × ℤ
  unfolding net_open net_close call new_ifreq
  get_ifreq name request tr =
      let (tr1, opened) = net_open answer tr in
      let c = ioctl opened.res request (new_ifreq name) in
      let got = asked answer c tr1 in
      let (tr2, res) = net_close answer opened.res (call answer c tr1, got.res) in
      if is_failed opened.res then (tr1, got, minus egeneral) else (tr2, got, res)

  -- The value behind a pointer argument is set where the result is 0, and else is what it was.
  unfoldable pub interface_index : Text → ℤ → Trace → Trace × ℤ × ℤ
  unfolding get_ifreq
  interface_index name index tr =
      let (tr', got, res) = get_ifreq name get_index tr in
      (tr', if is_zero res then got.index else index, res)

  unfoldable pub interface_mac_address : Text → List ℕ → Trace → Trace × List ℕ × ℤ
  unfolding get_ifreq
  interface_mac_address name mac tr =
      let (tr', got, res) = get_ifreq name get_hwaddr tr in
      (tr', if is_zero res then take 6 got.mac else mac, res)

  unfoldable pub interface_ip_address : Text → ℕ → Trace → Trace × ℕ × ℤ
  unfolding get_ifreq
  interface_ip_address name ip tr =
      let (tr', got, res) = get_ifreq name get_address tr in
      (tr', if is_zero res then got.address else ip, res)

  unfoldable pub interface_mtu : Text → Trace → Trace × ℤ
  unfolding get_ifreq
  interface_mtu name tr =
      let (tr', got, res) = get_ifreq name get_mtu tr in (tr', if is_zero res then got.mtu else res)

  -- A route that exists already is a success.
  unfoldable pub interface_add_route : (Text → ℕ) → Text → Text → Trace → Trace × ℤ
  unfolding net_open net_close call default_route
  interface_add_route inet_addr name text tr =
      let (tr1, opened) = net_open answer tr in
      let c = ioctl_route opened.res (default_route inet_addr text) in
      let got = asked answer c tr1 in
      let res =
        if not (is_failed got.res)
        then got.res
        else if got.errno == eexist
        then pos 0
        else minus got.errno in
      if is_failed opened.res
      then (tr1, minus egeneral)
      else net_close answer opened.res (call answer c tr1, res)
