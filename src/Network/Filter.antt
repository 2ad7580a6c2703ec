-- ===== src/Network/Filter.antt =====
-- Packet filters: ml_network_filter_ipv4_set, _get, _accept_all and _drop_all, and the IPv6 ones, of
-- src/ml_network.c.
use monolinux_c_library.Prelude.{ℕ, ◌+◌, List, Option, none, some, not, if◌then◌else◌}
use monolinux_c_library.Prelude.Int.{ℤ, is_zero, is_failed, minus}
use monolinux_c_library.Prelude.Text.{Text, codes}
use monolinux_c_library.Network.System.{
  Call, socket, set_replace, get_info, get_entries, malloc, free, Answer, Trace, Entry, Replace,
  Filter, ipv4, ipv6, Info, egeneral, af_inet, af_inet6, sock_raw, asked, call, net_close,
}
use monolinux_c_library.Network.Replace.{Sizes, verdict_accept, verdict_drop, apply_all_replace}

-- What ml_network_filter_ipv4_get() returns: the block, and the table in it.
pub record Table : Type 0 where
  pub block : ℤ
  pub name : Text
  pub size : ℕ
  pub entry_at : ℕ → Entry

abbrev pub filter_size : Sizes → Filter → ℕ
filter_size sizes (ipv4 replace) = replace.size + sizes.replace
filter_size sizes (ipv6 size bytes) = size + sizes.replace_ipv6

module _ (answer : Trace → Call → Answer) where
  unfoldable pub set_filter : ℕ → Filter → ℕ → Trace → Trace × ℤ
  unfolding call net_close
  set_filter domain filter size tr =
      let opened = asked answer (socket domain sock_raw) tr in
      let tr1 = call answer (socket domain sock_raw) tr in
      let c = set_replace opened.res domain filter size in
      let a = asked answer c tr1 in
      if is_failed opened.res
      then (tr1, minus opened.errno)
      else net_close answer opened.res
          (call answer c tr1, if is_failed a.res then minus a.errno else a.res)

  -- get_filter(): `request` makes the call on a socket.
  unfoldable pub get_filter : ℕ → (ℤ → Call) → Trace → Trace × Answer × ℤ
  unfolding call net_close
  get_filter domain request tr =
      let opened = asked answer (socket domain sock_raw) tr in
      let tr1 = call answer (socket domain sock_raw) tr in
      let a = asked answer (request opened.res) tr1 in
      let (tr2, res) = net_close answer opened.res (call answer (request opened.res) tr1, a.res) in
      if is_failed opened.res then (tr1, a, minus egeneral) else (tr2, a, res)

  -- get_info() and get_info_ipv6().
  unfoldable pub get_filter_info : ℕ → Text → Trace → Trace × Info × ℤ
  unfolding get_filter
  get_filter_info domain table tr =
      let (tr', a, res) = get_filter domain (λ fd. get_info fd domain table) tr in
      (tr', a.info, res)

  module _ (sizes : Sizes) where
    unfoldable pub filter_ipv4_set : Replace → Trace → Trace × ℤ
    unfolding set_filter
    filter_ipv4_set replace tr =
        set_filter af_inet (ipv4 replace) (filter_size sizes (ipv4 replace)) tr

    unfoldable pub filter_ipv6_set : ℕ → List ℕ → Trace → Trace × ℤ
    unfolding set_filter
    filter_ipv6_set size bytes tr =
        set_filter af_inet6 (ipv6 size bytes) (filter_size sizes (ipv6 size bytes)) tr

    unfoldable pub filter_apply_all : ℤ → Trace → Trace × ℤ
    unfolding get_filter_info apply_all_replace filter_ipv4_set
    filter_apply_all verdict tr =
        let (tr', info, res) = get_filter_info af_inet (codes "filter") tr in
        if not (is_zero res)
        then (tr', res)
        else filter_ipv4_set (apply_all_replace sizes info verdict) tr'

    unfoldable pub filter_ipv4_accept_all : Trace → Trace × ℤ
    unfolding filter_apply_all
    filter_ipv4_accept_all tr = filter_apply_all verdict_accept tr

    unfoldable pub filter_ipv4_drop_all : Trace → Trace × ℤ
    unfolding filter_apply_all
    filter_ipv4_drop_all tr = filter_apply_all verdict_drop tr

    -- ml_network_filter_ipv4_get() and _ipv6_get(), which differ in the domain; malloc() returns the
    -- block, or 0. The last part is `info_p`.
    unfoldable pub filter_get : ℕ → Text → Trace → Trace × Option Table × Info
    unfolding get_filter_info get_filter call
    filter_get domain table tr =
        let (tr1, info, res) = get_filter_info domain table tr in
        let size = sizes.get_entries + info.size in
        let block = (asked answer (malloc size) tr1).res in
        let tr2 = call answer (malloc size) tr1 in
        let (tr3, a, res') = get_filter domain (λ fd. get_entries fd domain table size) tr2 in
        let found : Table = record {
          block = block;
          name = table;
          size = info.size;
          entry_at = a.entry_at;
        } in
        if not (is_zero res)
        then (tr1, none, info)
        else if is_zero block
        then (tr2, none, info)
        else if not (is_zero res')
        then (call answer (free block) tr3, none, info)
        else (tr3, some found, info)
