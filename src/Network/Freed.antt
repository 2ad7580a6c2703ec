-- ===== src/Network/Freed.antt =====
-- What the functions for filters of src/ml_network.c open and allocate, they close and free.
use monolinux_c_library.Prelude.{ℕ, ◌+◌, ◌≡◌, Option, none, some, if◌then◌else◌, arith}
use monolinux_c_library.Prelude.Int.{ℤ, same_fd}
use monolinux_c_library.Prelude.Text.{Text, codes}
use monolinux_c_library.Network.System.{
  Call, get_entries, malloc, Answer, Trace, Filter, af_inet, ipv4, call, net_close,
}
use monolinux_c_library.Network.Replace.{Sizes, apply_all_replace}
use monolinux_c_library.Network.Filter.{
  Table, filter_size, set_filter, get_filter, get_filter_info, filter_ipv4_set, filter_apply_all,
  filter_get,
}
use monolinux_c_library.Network.Log.{filter_ipv4_log}
use monolinux_c_library.Network.Balance.{opens, closes, IsBalanced, allocations, frees, IsFreed}

-- The block of a table, and nothing else, is left to be freed.
abbrev pub held : ℤ → Option Table → ℕ
held block none = 0
held block (some t) = if same_fd t.block block then 1 else 0

module _ (answer : Trace → Call → Answer) where
  module _ (fd : ℤ) where
    set_filter-IsBalanced :
        (domain : ℕ) (filter : Filter) (size : ℕ) (tr : Trace)
        → IsBalanced fd tr (set_filter answer domain filter size tr).0
    unfolding set_filter net_close call opens closes
    set_filter-IsBalanced domain filter size tr = ground arith

    get_info-IsBalanced :
        (domain : ℕ) (table : Text) (tr : Trace)
        → IsBalanced fd tr (get_filter_info answer domain table tr).0
    unfolding get_filter_info get_filter net_close call opens closes
    get_info-IsBalanced domain table tr = ground arith

    get_entries-IsBalanced :
        (domain : ℕ) (table : Text) (size : ℕ) (tr : Trace)
        → IsBalanced fd tr (get_filter answer domain (λ s. get_entries s domain table size) tr).0
    unfolding get_filter net_close call opens closes
    get_entries-IsBalanced domain table size tr = ground arith

    pub apply_all-IsBalanced :
        (sizes : Sizes) (verdict : ℤ) (tr : Trace)
        → IsBalanced fd tr (filter_apply_all answer sizes verdict tr).0
    unfolding filter_apply_all filter_ipv4_set
    apply_all-IsBalanced sizes verdict tr =
        let (tr', info, res) = get_filter_info answer af_inet (codes "filter") tr in
        let replace = apply_all_replace sizes info verdict in
        ground (
          arith,
          get_info-IsBalanced af_inet (codes "filter") tr,
          set_filter-IsBalanced af_inet (ipv4 replace) (filter_size sizes (ipv4 replace)) tr',
        )

    filter_get-IsBalanced :
        (sizes : Sizes) (domain : ℕ) (table : Text) (tr : Trace)
        → IsBalanced fd tr (filter_get answer sizes domain table tr).0
    unfolding filter_get call opens closes
    filter_get-IsBalanced sizes domain table tr =
        let (tr1, info, res) = get_filter_info answer domain table tr in
        let size = sizes.get_entries + info.size in
        ground (
          arith,
          get_info-IsBalanced domain table tr,
          get_entries-IsBalanced domain table size (call answer (malloc size) tr1),
        )

  module _ (block : ℤ) where
    get_info-IsFreed :
        (domain : ℕ) (table : Text) (tr : Trace)
        → IsFreed block tr (get_filter_info answer domain table tr).0
    unfolding get_filter_info get_filter net_close call allocations frees
    get_info-IsFreed domain table tr = ground arith

    get_entries-IsFreed :
        (domain : ℕ) (table : Text) (size : ℕ) (tr : Trace)
        → IsFreed block tr (get_filter answer domain (λ s. get_entries s domain table size) tr).0
    unfolding get_filter net_close call allocations frees
    get_entries-IsFreed domain table size tr = ground arith

    pub filter_get-holds :
        (sizes : Sizes) (domain : ℕ) (table : Text) (tr : Trace)
        → let (tr', found, info) = filter_get answer sizes domain table tr in
          allocations block tr' + frees block tr
          ≡ frees block tr' + allocations block tr + held block found
    unfolding filter_get call allocations frees
    filter_get-holds sizes domain table tr =
        let (tr1, info, res) = get_filter_info answer domain table tr in
        let size = sizes.get_entries + info.size in
        ground (
          arith,
          get_info-IsFreed domain table tr,
          get_entries-IsFreed domain table size (call answer (malloc size) tr1),
        )

  -- ml_network_filter_ipv4_log closes each descriptor as often as it opens it, and frees each block
  -- as often as it allocates it, whichever of the calls fail.
  pub filter_ipv4_log-IsFreed :
      (sizes : Sizes) (fuel : ℕ) (name : Text) (fd block : ℤ) (tr : Trace)
      → let tr' = (filter_ipv4_log answer sizes fuel name tr).0 in
        IsBalanced fd tr tr' × IsFreed block tr tr'
  unfolding filter_ipv4_log call opens closes allocations frees
  filter_ipv4_log-IsFreed sizes fuel name fd block tr = ground (
    arith,
    filter_get-IsBalanced fd sizes af_inet name tr,
    filter_get-holds block sizes af_inet name tr,
  )
