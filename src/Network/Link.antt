-- ===== src/Network/Link.antt =====
-- The settings of an Ethernet link, ml_network_interface_link_configure of src/ml_network.c, and
-- what the command `ethtool` makes of its arguments.
use monolinux_c_library.Prelude.{
  ℕ, ◌-◌, ◌%◌, ◌^◌, List, [], ◌∷◌, Bool, not, Option, none, some, ◌==◌, if◌then◌else◌,
}
use monolinux_c_library.Prelude.Int.{ℤ, pos, negsuc, is_failed, minus}
use monolinux_c_library.Prelude.Text.{Text, codes, same}
use monolinux_c_library.Network.System.{
  Call, ioctl_ethtool, Answer, Trace, Settings, einval, new_ifreq, asked, call, net_open, net_close,
}

abbrev pub ethtool_gset : ℕ
ethtool_gset = 1

abbrev pub ethtool_sset : ℕ
ethtool_sset = 2

-- Conversions to `uint32_t` and `uint8_t`.
abbrev pub u32_of : ℤ → ℕ
u32_of (pos n) = n % 2 ^ 32
u32_of (negsuc n) = 2 ^ 32 - 1 - n % 2 ^ 32

abbrev pub u8_of : ℤ → ℕ
u8_of (pos n) = n % 2 ^ 8
u8_of (negsuc n) = 2 ^ 8 - 1 - n % 2 ^ 8

-- A setting that is -1 is left as it is.
unfoldable pub overwrite : Settings → ℤ → ℤ → ℤ → Settings
overwrite s speed duplex autoneg = record {
  cmd = ethtool_sset;
  speed = if is_failed speed then s.speed else u32_of speed;
  duplex = if is_failed duplex then s.duplex else u8_of duplex;
  autoneg = if is_failed autoneg then s.autoneg else u8_of autoneg;
  rest = s.rest;
}

unfoldable pub is_changed : Text → Bool
unfolding same
is_changed arg = not (same arg (codes "-"))

-- The value of -1, 0 or 1 that an argument stands for, and none for an invalid one.
unfoldable pub duplex_arg : Text → Option ℤ
unfolding is_changed same
duplex_arg arg =
    if not (is_changed arg)
    then some (negsuc 0)
    else if same arg (codes "half")
    then some (pos 0)
    else if same arg (codes "full")
    then some (pos 1)
    else none

unfoldable pub autoneg_arg : Text → Option ℤ
unfolding is_changed same
autoneg_arg arg =
    if not (is_changed arg)
    then some (negsuc 0)
    else if same arg (codes "on")
    then some (pos 1)
    else if same arg (codes "off")
    then some (pos 0)
    else none

unfoldable pub speed_arg : (Text → ℤ) → Text → ℤ
unfolding is_changed
speed_arg atoi arg = if is_changed arg then atoi arg else negsuc 0

unfoldable pub duplex_string : ℕ → Text
duplex_string d =
    if d == 0
    then codes "half"
    else if d == 1
    then codes "full"
    else if d == 255
    then codes "unknown"
    else codes "invalid"

unfoldable pub autoneg_string : ℕ → Text
autoneg_string a = if a == 0 then codes "off" else if a == 1 then codes "on" else codes "invalid"

-- A speed of SPEED_UNKNOWN is printed as `-`.
pub data Printed : Type 0 where
  ip_line : Option ℕ → Printed
  mac_line : Option (List ℕ) → Printed
  mtu_line : Option ℤ → Printed
  index_line : Option ℤ → Printed
  speed_line : Option ℕ → Printed
  duplex_line : Text → Printed
  autoneg_line : Text → Printed
  usage : Text → Printed

unfoldable pub print_settings : Settings → List Printed
unfolding duplex_string autoneg_string
print_settings s =
    speed_line (if s.speed == 2 ^ 32 - 1 then none else some s.speed)
    ∷ duplex_line (duplex_string s.duplex)
    ∷ autoneg_line (autoneg_string s.autoneg)
    ∷ []

-- `stack` is what the uninitialised variable `settings` holds.
module _ (answer : Trace → Call → Answer) (stack : Settings) where
  -- ETHTOOL_GSET on an open socket.
  unfoldable pub get_settings : ℤ → Text → Trace → Trace × Answer
  unfolding call new_ifreq
  get_settings fd name tr =
      let c = ioctl_ethtool fd (new_ifreq name).name (record stack { cmd = ethtool_gset }) in
      (call answer c tr, asked answer c tr)

  unfoldable pub put_settings : ℤ → Text → Settings → Trace → Trace × ℤ
  unfolding call new_ifreq
  put_settings fd name s tr =
      let c = ioctl_ethtool fd (new_ifreq name).name s in
      let a = asked answer c tr in
      (call answer c tr, if is_failed a.res then minus a.errno else pos 0)

  unfoldable pub interface_link_configure : Text → ℤ → ℤ → ℤ → Trace → Trace × ℤ
  unfolding net_open net_close get_settings put_settings overwrite
  interface_link_configure name speed duplex autoneg tr =
      let (tr1, opened) = net_open answer tr in
      let (tr2, got) = get_settings opened.res name tr1 in
      let s = overwrite got.settings speed duplex autoneg in
      if is_failed opened.res
      then (tr1, minus opened.errno)
      else if is_failed got.res
      then net_close answer opened.res (tr2, minus got.errno)
      else net_close answer opened.res (put_settings opened.res name s tr2)

  unfoldable pub ethtool_print : Text → Trace → Trace × List Printed × ℤ
  unfolding net_open net_close get_settings print_settings
  ethtool_print name tr =
      let (tr1, opened) = net_open answer tr in
      let (tr2, got) = get_settings opened.res name tr1 in
      let (tr3, res) = net_close answer opened.res (tr2, minus got.errno) in
      if is_failed opened.res
      then (tr1, [], minus opened.errno)
      else if is_failed got.res
      then (tr3, [], res)
      else (tr3, print_settings got.settings, pos 0)

  unfoldable pub link_configure_args : Text → ℤ → Option ℤ → Option ℤ → Trace → Trace × ℤ
  unfolding interface_link_configure
  link_configure_args name speed (some duplex) (some autoneg) tr =
      interface_link_configure name speed duplex autoneg tr
  link_configure_args name speed none autoneg tr = (tr, minus einval)
  link_configure_args name speed (some duplex) none tr = (tr, minus einval)

  unfoldable pub ethtool_link_configure : (Text → ℤ) → List Text → Trace → Trace × ℤ
  unfolding link_configure_args speed_arg duplex_arg autoneg_arg
  ethtool_link_configure atoi (argv0 ∷ name ∷ s ∷ d ∷ a ∷ []) tr =
      link_configure_args name (speed_arg atoi s) (duplex_arg d) (autoneg_arg a) tr
  ethtool_link_configure atoi argv tr = (tr, minus einval)
