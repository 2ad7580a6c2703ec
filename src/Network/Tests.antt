-- ===== src/Network/Tests.antt =====
-- A kernel that keeps flags, settings and the table, and whose calls succeed.
use monolinux_c_library.Prelude.{
  length, get_or, ℕ, ◌≡◌, refl, List, ◌+◌, ◌^◌, ◌≤◌, ◌==◌, ◌&&◌, if◌then◌else◌, Bool, [], ◌∷◌,
  Option, none, some, true, arith,
}
use monolinux_c_library.Prelude.Int.{ℤ, pos, negsuc}
use monolinux_c_library.Prelude.Text.{Text, codes, same}
use monolinux_c_library.Network.System.{
  Call, socket, ioctl, ioctl_ethtool, malloc, Settings, Entry, Replace, Info, Answer, Trace,
}
use monolinux_c_library.Network.Interface.{interface_configure, interface_up, interface_down}
use monolinux_c_library.Network.Link.{ethtool_link_configure}
use monolinux_c_library.Network.Commands.{command_ifconfig, command_route, command_ethtool}
use monolinux_c_library.LibcReference.{reference}
use monolinux_c_library.Shell.Dispatch.{IsUnique}
use monolinux_c_library.Network.Init.{network_init, World}
use monolinux_c_library.Network.Typed.{switch_line, executed, executed-Switches}
use monolinux_c_library.Network.Filter.{filter_ipv4_accept_all}
use monolinux_c_library.Network.Replace.{Sizes, zero_entry, apply_all_replace}
use monolinux_c_library.Network.Log.{filter_ipv4_log}
use monolinux_c_library.Network.Balance.{IsBalanced}
use monolinux_c_library.Network.Configured.{on_socket, configure_requests, interface_configure_lem}
use monolinux_c_library.Network.Flags.{flags_of, KeepsFlags, Switches}
use monolinux_c_library.Network.Kept.{settings_of, KeepsSettings, Changes, AsAsked, ethtool_refines}
use monolinux_c_library.Network.Closed.{commands-IsBalanced}
use monolinux_c_library.Network.Placed.{
  placed, IsStandard, IsError, end_of, starts, apply_all_replace_lem,
}
use monolinux_c_library.Network.Walks.{all_lines}
use monolinux_c_library.Network.Logged.{
  table_of, KeepsTable, Logs, accept_or_drop, accept_or_drop-Logs,
}

-- The sizes on x86-64.
abbrev sizes : Sizes
sizes = record {
  entry = 112;
  standard_target = 40;
  error_target = 64;
  replace = 96;
  replace_ipv6 = 96;
  get_entries = 40;
}

abbrev gigabit : Settings
gigabit = record { cmd = 1; speed = 1000; duplex = 1; autoneg = 1; rest = 7 ∷ [] }

-- Flags at the start: IFF_BROADCAST.
abbrev flags_found : Trace → Call → ℕ
flags_found tr (ioctl fd request ifreq) = flags_of (λ name. 2) ifreq.name tr
flags_found tr _ = 0

abbrev settings_found : Trace → Call → Settings
settings_found tr (ioctl_ethtool fd name s) = settings_of (λ name. gigabit) name tr
settings_found tr _ = gigabit

abbrev size_found : Option Replace → ℕ
size_found none = 0
size_found (some r) = r.size

abbrev entries_found : Option Replace → ℕ → Entry
entries_found none offset = zero_entry
entries_found (some r) offset = placed sizes r.entries offset

abbrev result_of : Call → ℤ
result_of (socket domain type) = pos 3
result_of (malloc size) = pos 4096
result_of _ = pos 0

abbrev keeps : Trace → Call → Answer
keeps tr c = record {
  res = result_of c;
  errno = 5;
  flags = flags_found tr c;
  index = pos 2;
  mtu = pos 1500;
  address = 16777343;
  mac = 1 ∷ 2 ∷ 3 ∷ 4 ∷ 5 ∷ 6 ∷ [];
  settings = settings_found tr c;
  info = record { num_entries = 4; size = size_found (table_of tr) };
  entry_at = entries_found (table_of tr);
}

abbrev eth0 : Text
eth0 = codes "eth0"

-- Stand-ins for inet_addr() and atoi().
abbrev inet_addr : Text → ℕ
inet_addr text = 42

abbrev atoi : Text → ℤ
atoi text = pos 100

interface_configure_lem_example :
    interface_configure keeps inet_addr eth0 [] [] (pos 1500) []
    ≡ on_socket keeps (configure_requests keeps inet_addr eth0 [] [] (pos 1500)) []
interface_configure_lem_example = interface_configure_lem keeps inet_addr eth0 [] [] (pos 1500) []

keeps-KeepsFlags : KeepsFlags keeps (λ name. 2)
keeps-KeepsFlags = ((λ tr fd ifreq. refl), λ tr c. omega arith)

up_then_down : (interface_down keeps eth0 (interface_up keeps eth0 []).0).1 ≡ pos 0
unfolding interface_up interface_down
up_then_down = refl

keeps-KeepsSettings : KeepsSettings keeps (λ name. gigabit)
keeps-KeepsSettings = ((λ tr fd name s h. (refl, refl, refl, refl)), λ tr c. omega arith)

ethtool_refines_example :
    Changes keeps
      (λ name. gigabit)
      (AsAsked atoi (codes "100") (codes "half") (codes "-"))
      eth0
      (codes "lo")
      []
      (ethtool_link_configure keeps gigabit atoi
        (codes "ethtool" ∷ eth0 ∷ codes "100" ∷ codes "half" ∷ codes "-" ∷ [])
        [])
ethtool_refines_example =
    ethtool_refines keeps (λ name. gigabit) gigabit keeps-KeepsSettings atoi (codes "ethtool") eth0
      (codes "lo") (codes "100") (codes "half") (codes "-") []

commands-IsBalanced_example :
    IsBalanced (pos 3) [] (command_ifconfig keeps inet_addr atoi (eth0 ∷ eth0 ∷ []) []).0
    × IsBalanced (pos 3) [] (command_route keeps inet_addr (eth0 ∷ eth0 ∷ []) []).0
    × IsBalanced (pos 3) [] (command_ethtool keeps gigabit atoi (eth0 ∷ eth0 ∷ []) []).0
commands-IsBalanced_example =
    commands-IsBalanced keeps (pos 3) inet_addr atoi gigabit (eth0 ∷ eth0 ∷ []) []

abbrev four : Info
four = record { num_entries = 4; size = 632 }

keeps-KeepsTable : KeepsTable keeps sizes
keeps-KeepsTable = ((λ tr fd r h. (rw h refl, λ size. rw h refl)), λ tr c. omega arith)

accept_or_drop-Logs_example :
    Logs keeps sizes
      (all_lines (codes "ACCEPT"))
      (accept_or_drop keeps sizes true []).0
      (filter_ipv4_log keeps sizes 4 (codes "filter") (accept_or_drop keeps sizes true []).0)
unfolding filter_ipv4_accept_all
accept_or_drop-Logs_example =
    accept_or_drop-Logs keeps sizes true 0 [] keeps-KeepsTable (omega arith) refl

apply_all_replace_lem_example :
    let r = apply_all_replace sizes four (negsuc 1) in
    let at = placed sizes r.entries in
    let hook = λ (h : ℕ). get_or r.hook_entry h 0 in
    (r.name ≡ codes "filter")
    × (r.num_counters ≡ 4)
    × (r.valid_hooks ≡ 2 ^ 1 + 2 ^ 2 + 2 ^ 3)
    × (length r.entries ≡ r.num_entries)
    × (starts at r.num_entries 0 ≡ hook 1 ∷ hook 2 ∷ hook 3 ∷ end_of at 1 (hook 3) ∷ [])
    × (end_of at r.num_entries 0 ≡ r.size)
    × (r.hook_entry ≡ r.underflow)
    × IsStandard sizes (negsuc 1) (at (hook 1))
    × IsStandard sizes (negsuc 1) (at (hook 2))
    × IsStandard sizes (negsuc 1) (at (hook 3))
    × IsError sizes (at (end_of at 1 (hook 3)))
apply_all_replace_lem_example = apply_all_replace_lem sizes four (negsuc 1) (omega arith)

abbrev silent : ℕ → List Text → World → ℤ × World
silent address argv world = (pos 0, world)

-- Three names with different first letters.
one_at_most :
    (c : ℕ) (x y z : Bool)
    → (if 105 == c && x then 1 else 0)
        + ((if 114 == c && y then 1 else 0) + ((if 101 == c && z then 1 else 0) + 0))
      ≤ 1
one_at_most c x y z = ground arith

three-IsUnique : IsUnique (network_init [])
unfolding network_init same
three-IsUnique [] = omega arith
three-IsUnique (c ∷ name) = one_at_most c _ _ _

executed-Switches_example :
    Switches keeps
      (λ name. 2)
      1
      eth0
      (codes "lo")
      []
      (executed reference keeps
        (λ name. 2)
        inet_addr
        atoi
        gigabit
        silent
        []
        (switch_line eth0 true)
        ([], []))
executed-Switches_example =
    executed-Switches reference keeps (λ name. 2) inet_addr atoi gigabit silent keeps-KeepsFlags []
      eth0 (codes "lo") true ([], []) three-IsUnique (ground arith)
