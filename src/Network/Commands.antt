-- ===== src/Network/Commands.antt =====
-- The shell commands of src/ml_network.c: `ifconfig`, `route` and `ethtool`.
use monolinux_c_library.Prelude.{
  List, [], ◌∷◌, ◌++◌, Bool, false, not, Option, none, some, ◌==◌, if◌then◌else◌, ℕ,
}
use monolinux_c_library.Prelude.Int.{ℤ, pos, negsuc, is_zero, minus}
use monolinux_c_library.Prelude.Text.{Text, codes, same}
use monolinux_c_library.Network.System.{Call, Answer, Trace, Settings, einval}
use monolinux_c_library.Network.Interface.{
  interface_configure, interface_up, interface_down, interface_index, interface_mac_address,
  interface_ip_address, interface_mtu, interface_add_route,
}
use monolinux_c_library.Network.Link.{
  Printed, ip_line, mac_line, mtu_line, index_line, usage, ethtool_print, ethtool_link_configure,
}

abbrev pub is_positive : ℤ → Bool
is_positive (pos n) = not (n == 0)
is_positive (negsuc n) = false

-- A value that is printed as "failure" where the result is not 0.
abbrev pub if_done {ℓ} : {A : Type ℓ} → ℤ → A → Option A
if_done res a = if is_zero res then some a else none

-- What a command prints at its end if its result is not 0.
unfoldable pub with_usage : Text → Trace × List Printed × ℤ → Trace × List Printed × ℤ
with_usage name (tr, out, res) = (tr, if is_zero res then out else out ++ (usage name ∷ []), res)

abbrev pub no_output : Trace × ℤ → Trace × List Printed × ℤ
no_output (tr, res) = (tr, [], res)

module _ (answer : Trace → Call → Answer) where
  unfoldable pub ifconfig_print : Text → Trace → Trace × List Printed × ℤ
  unfolding interface_ip_address interface_mac_address interface_mtu interface_index
  ifconfig_print name tr =
      let (tr1, ip, res1) = interface_ip_address answer name 0 tr in
      let (tr2, mac, res2) = interface_mac_address answer name [] tr1 in
      let (tr3, res3) = interface_mtu answer name tr2 in
      let (tr4, i, res4) = interface_index answer name (pos 0) tr3 in
      let out =
        ip_line (if_done res1 ip)
        ∷ mac_line (if_done res2 mac)
        ∷ mtu_line (if is_positive res3 then some res3 else none)
        ∷ index_line (if_done res4 i)
        ∷ [] in
      (tr4, out, pos 0)

  -- The cases of `argc`; a third argument is `up` or `down`.
  unfoldable pub ifconfig : (Text → ℕ) → (Text → ℤ) → List Text → Trace → Trace × List Printed × ℤ
  unfolding ifconfig_print interface_up interface_down interface_configure same
  ifconfig inet_addr atoi (argv0 ∷ name ∷ []) tr = ifconfig_print name tr
  ifconfig inet_addr atoi (argv0 ∷ name ∷ arg ∷ []) tr =
      if same arg (codes "up")
      then no_output (interface_up answer name tr)
      else if same arg (codes "down")
      then no_output (interface_down answer name tr)
      else (tr, [], minus einval)
  ifconfig inet_addr atoi (argv0 ∷ name ∷ ip ∷ mask ∷ n ∷ []) tr =
      no_output (interface_configure answer inet_addr name ip mask (atoi n) tr)
  ifconfig inet_addr atoi argv tr = (tr, [], minus einval)

  unfoldable pub command_ifconfig :
      (Text → ℕ) → (Text → ℤ) → List Text → Trace → Trace × List Printed × ℤ
  unfolding ifconfig with_usage
  command_ifconfig inet_addr atoi argv tr =
      with_usage (codes "ifconfig") (ifconfig inet_addr atoi argv tr)

  unfoldable pub command_route : (Text → ℕ) → List Text → Trace → Trace × List Printed × ℤ
  unfolding interface_add_route with_usage
  command_route inet_addr (argv0 ∷ name ∷ ip ∷ []) tr =
      with_usage (codes "route") (no_output (interface_add_route answer inet_addr name ip tr))
  command_route inet_addr argv tr = with_usage (codes "route") (tr, [], minus einval)

  unfoldable pub command_ethtool :
      Settings → (Text → ℤ) → List Text → Trace → Trace × List Printed × ℤ
  unfolding ethtool_print ethtool_link_configure with_usage
  command_ethtool stack atoi (argv0 ∷ name ∷ []) tr =
      with_usage (codes "ethtool") (ethtool_print answer stack name tr)
  command_ethtool stack atoi argv tr =
      with_usage (codes "ethtool") (no_output (ethtool_link_configure answer stack atoi argv tr))
