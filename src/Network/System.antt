-- ===== src/Network/System.antt =====
-- The kernel as src/ml_network.c calls it: a parameter that answers each call from the calls made
-- so far. A structure of the kernel is a record of the members that the code sets or reads.
use monolinux_c_library.Prelude.{ℕ, ◌∷◌, List, take}
use monolinux_c_library.Prelude.Int.{ℤ}
use monolinux_c_library.Prelude.Text.{Text}

-- The requests of ioctl() on a `struct ifreq`.
pub data Request : Type 0 where
  get_flags : Request
  set_flags : Request
  set_address : Request
  set_netmask : Request
  set_mtu : Request
  get_index : Request
  get_hwaddr : Request
  get_address : Request
  get_mtu : Request

-- What was stored in the union of a `struct ifreq`: nothing yet, the flags, the MTU, or an IPv4
-- address as inet_addr() reads it.
pub data Member : Type 0 where
  unset : Member
  flags : ℕ → Member
  mtu : ℤ → Member
  address : ℕ → Member

pub record Ifreq : Type 0 where
  pub name : Text
  pub member : Member

-- `struct ethtool_cmd`, the speed as its two halves together, and `rest` for what the code leaves.
pub record Settings : Type 0 where
  pub cmd : ℕ
  pub speed : ℕ
  pub duplex : ℕ
  pub autoneg : ℕ
  pub rest : List ℕ

-- `struct rtentry`, the addresses as inet_addr() reads them.
pub record Route : Type 0 where
  pub gateway : ℕ
  pub dst : ℕ
  pub genmask : ℕ
  pub flags : ℕ

-- The target of an entry: `verdict` of a standard one, and `errorname` of an error one.
pub record Target : Type 0 where
  pub target_size : ℕ
  pub name : Text
  pub verdict : ℤ
  pub errorname : Text

-- `struct ipt_entry` with its target.
pub record Entry : Type 0 where
  pub src : ℕ
  pub smsk : ℕ
  pub dst : ℕ
  pub dmsk : ℕ
  pub iniface : Text
  pub outiface : Text
  pub proto : ℕ
  pub flags : ℕ
  pub invflags : ℕ
  pub nfcache : ℕ
  pub pcnt : ℕ
  pub bcnt : ℕ
  pub target_offset : ℕ
  pub next_offset : ℕ
  pub target : Target

-- `struct ipt_replace`, with the entries that lie behind it, one after the other.
pub record Replace : Type 0 where
  pub name : Text
  pub valid_hooks : ℕ
  pub num_entries : ℕ
  pub size : ℕ
  pub hook_entry : List ℕ
  pub underflow : List ℕ
  pub num_counters : ℕ
  pub entries : List Entry

-- What ml_network_filter_ipv4_set() and _ipv6_set() are given; of a `struct ip6t_replace` only the
-- size is looked at, and the rest are bytes.
pub data Filter : Type 0 where
  ipv4 : Replace → Filter
  ipv6 : ℕ → List ℕ → Filter

-- `struct ipt_getinfo`.
pub record Info : Type 0 where
  pub num_entries : ℕ
  pub size : ℕ

-- A call with the arguments that matter. A socket has a domain and a type; the options of a
-- filter have the socket's domain, and the size of what goes along or comes back.
pub data Call : Type 0 where
  socket : ℕ → ℕ → Call
  ioctl : ℤ → Request → Ifreq → Call
  ioctl_ethtool : ℤ → Text → Settings → Call
  ioctl_route : ℤ → Route → Call
  set_replace : ℤ → ℕ → Filter → ℕ → Call
  get_info : ℤ → ℕ → Text → Call
  malloc : ℕ → Call
  get_entries : ℤ → ℕ → Text → ℕ → Call
  free : ℤ → Call
  close : ℤ → Call

-- The result, `errno`, and what the kernel left in the member that the code reads afterwards. The
-- entries are those that lie at an offset of the table.
pub record Answer : Type 0 where
  pub res : ℤ
  pub errno : ℕ
  pub flags : ℕ
  pub index : ℤ
  pub mtu : ℤ
  pub address : ℕ
  pub mac : List ℕ
  pub settings : Settings
  pub info : Info
  pub entry_at : ℕ → Entry

abbrev pub Trace : Type 0
Trace = List (Call × Answer)

abbrev pub egeneral : ℕ
egeneral = 1000

abbrev pub einval : ℕ
einval = 22

abbrev pub eexist : ℕ
eexist = 17

abbrev pub af_inet : ℕ
af_inet = 2

abbrev pub af_inet6 : ℕ
af_inet6 = 10

abbrev pub sock_dgram : ℕ
sock_dgram = 2

abbrev pub sock_raw : ℕ
sock_raw = 3

-- What net_open() makes of `ifreq_p`, whose name has room for 16 bytes.
unfoldable pub new_ifreq : Text → Ifreq
new_ifreq name = record { name = take 15 name; member = unset }

-- The name that the kernel is asked for.
abbrev pub kernel_name : Text → Text
kernel_name name = (new_ifreq name).name

module _ (answer : Trace → Call → Answer) where
  -- The answer that `call c tr` gets.
  abbrev pub asked : Call → Trace → Answer
  asked c tr = answer tr c

  unfoldable pub call : Call → Trace → Trace
  call c tr = (c, answer tr c) ∷ tr

  -- The socket of net_open().
  unfoldable pub net_open : Trace → Trace × Answer
  unfolding call
  net_open tr = (call (socket af_inet sock_dgram) tr, asked (socket af_inet sock_dgram) tr)

  unfoldable pub net_close : ℤ → Trace × ℤ → Trace × ℤ
  unfolding call
  net_close fd (tr, res) = (call (close fd) tr, res)
