-- ===== src/Network/Logged.antt =====
-- ml_network_filter_ipv4_log of src/ml_network.c shows what ml_network_filter_ipv4_accept_all and
-- _drop_all have set.
use monolinux_c_library.Prelude.{
  ◌∙◌, ℕ, suc, ◌+◌, ◌≤◌, ◌≡◌, refl, List, [], ◌∷◌, Option, none, some, Bool, inl, inr, ◌⊎◌, ◌&&◌,
  true, false, ◌==◌, if◌then◌else◌, arith,
}
use monolinux_c_library.Prelude.Int.{ℤ, pos, is_zero, is_failed}
use monolinux_c_library.Prelude.Text.{Text, codes}
use monolinux_c_library.Network.System.{
  Call, socket, set_replace, get_info, get_entries, malloc, Replace, ipv4, Info, Answer, Trace,
  af_inet, sock_raw, call, net_close,
}
use monolinux_c_library.Network.Replace.{Sizes, verdict_accept, verdict_drop, apply_all_replace}
use monolinux_c_library.Network.Filter.{
  Table, set_filter, get_filter, get_filter_info, filter_ipv4_set, filter_apply_all,
  filter_ipv4_accept_all, filter_ipv4_drop_all, filter_get, filter_size,
}
use monolinux_c_library.Network.Log.{LogLine, verdict_line, verdict_name, logged, filter_ipv4_log}
use monolinux_c_library.Network.Placed.{placed}
use monolinux_c_library.Network.Walks.{all_lines, applied_lines-eq, walk-apply_all}

-- The IPv4 table after a call.
abbrev pub table_after : Call → Answer → Option Replace → Option Replace
table_after (set_replace fd domain (ipv4 r) size) a old =
    if (domain == af_inet) && is_zero a.res then some r else old
table_after _ a old = old

unfoldable pub table_of : Trace → Option Replace
table_of [] = none
table_of ((c, a) ∷ tr) = table_after c a (table_of tr)

-- The calls that failed.
abbrev pub failing : Call → Answer → ℕ
failing (socket domain type) a = if is_failed a.res then 1 else 0
failing (malloc size) a = if is_zero a.res then 1 else 0
failing (get_info fd domain name) a = if is_zero a.res then 0 else 1
failing (get_entries fd domain name size) a = if is_zero a.res then 0 else 1
failing _ a = 0

unfoldable pub failures : Trace → ℕ
failures [] = 0
failures ((c, a) ∷ tr) = failing c a + failures tr

module _ (answer : Trace → Call → Answer) (sizes : Sizes) where
  -- The kernel finds the table that was set, and the entries in it where they lay, and a call that
  -- fails sets `errno`.
  abbrev pub KeepsTable : Type 0
  KeepsTable =
      ((tr : Trace) (fd : ℤ) (r : Replace)
        → table_of tr ≡ some r
        → ((answer tr (get_info fd af_inet (codes "filter"))).info.size ≡ r.size)
          × ((size : ℕ)
              → (answer tr (get_entries fd af_inet (codes "filter") size)).entry_at
                ≡ placed sizes r.entries))
      × ((tr : Trace) (c : Call) → 1 ≤ (answer tr c).errno)

  set_filter-table_of :
      KeepsTable
      → (r : Replace) (size : ℕ) (tr : Trace)
      → (set_filter answer af_inet (ipv4 r) size tr).1 ≡ pos 0
      → table_of (set_filter answer af_inet (ipv4 r) size tr).0 ≡ some r
  unfolding set_filter net_close call table_of
  set_filter-table_of (k, he) r size tr h =
      let c = socket af_inet sock_raw in
      let tr1 = call answer c tr in
      let put = set_replace (answer tr c).res af_inet (ipv4 r) size in
      ground (arith, he tr c, he tr1 put)

  apply_all-table_of :
      KeepsTable
      → (verdict : ℤ) (tr : Trace) → (filter_apply_all answer sizes verdict tr).1 ≡ pos 0
      → let info = (get_filter_info answer af_inet (codes "filter") tr).1 in
        table_of (filter_apply_all answer sizes verdict tr).0
        ≡ some (apply_all_replace sizes info verdict)
  unfolding filter_apply_all filter_ipv4_set
  apply_all-table_of k verdict tr h =
      let (tr', info, res) = get_filter_info answer af_inet (codes "filter") tr in
      let r = apply_all_replace sizes info verdict in
      ground (arith, set_filter-table_of k r (filter_size sizes (ipv4 r)) tr')

  -- What filter_get() finds of the table `r`, and that it finds nothing only if a call fails.
  abbrev Finds : Replace → Trace → Trace × Option Table × Info → Type 0
  Finds r tr (tr', none, info) = failures tr + 1 ≤ failures tr'
  Finds r tr (tr', some t, info) =
      (t.name ≡ codes "filter")
      × (t.size ≡ r.size)
      × (t.entry_at ≡ placed sizes r.entries)
      × (failures tr' ≡ failures tr)

  get_info-table_of :
      (domain : ℕ) (name : Text) (tr : Trace)
      → table_of (get_filter_info answer domain name tr).0 ≡ table_of tr
  unfolding get_filter_info get_filter net_close call table_of
  get_info-table_of domain name tr = ground arith

  filter_get-Finds :
      KeepsTable
      → (r : Replace) (tr : Trace) → table_of tr ≡ some r
      → Finds r tr (filter_get answer sizes af_inet (codes "filter") tr)
  unfolding filter_get get_filter_info get_filter net_close call table_of failures
  filter_get-Finds (k, he) r tr h =
      let name = codes "filter" in
      let c = socket af_inet sock_raw in
      let fd = (answer tr c).res in
      let tr1 = call answer c tr in
      let (tr2, info, res) = get_filter_info answer af_inet name tr in
      let size = sizes.get_entries + info.size in
      let tr3 = call answer (malloc size) tr2 in
      let tr4 = call answer c tr3 in
      ground (
        arith,
        (k tr1 fd r h).0,
        (k tr4 (answer tr3 c).res r (get_info-table_of af_inet name tr ∙ h)).1 size,
      )

  -- What the log of the table `r` is: its lines, unless a call fails.
  abbrev pub Logs : List LogLine → Trace → Trace × Option (List LogLine) → Type 0
  Logs lines tr r =
      ((r.1 ≡ some lines) × (failures r.0 ≡ failures tr))
      ⊎ ((r.1 ≡ some []) × (failures tr + 1 ≤ failures r.0))

  logged-Logs :
      (info : Info) (verdict : ℤ) (name : Text) (fuel : ℕ) (tr : Trace)
      (found : Trace × Option Table × Info)
      → 1 ≤ sizes.entry
      → verdict_line verdict ≡ verdict_name name
      → Finds (apply_all_replace sizes info verdict) tr found
      → Logs (all_lines name) tr (logged answer sizes (suc (suc (suc (suc fuel)))) found.0 found.1)
  unfolding call failures
  logged-Logs info verdict name fuel tr (tr', none, i) hs hv f = inr (refl, f)
  logged-Logs info verdict name fuel tr (tr', some t, i) hs hv (en, es, ee, ef) = inl (
    rw
        (
          en,
          es,
          ee,
          walk-apply_all sizes info verdict fuel hs,
          applied_lines-eq sizes verdict name hv,
        )
        refl,
    omega (arith, ef),
  )

  apply_all-Logs :
      (verdict : ℤ) (name : Text) (fuel : ℕ) (tr : Trace)
      → KeepsTable
      → 1 ≤ sizes.entry
      → verdict_line verdict ≡ verdict_name name
      → (filter_apply_all answer sizes verdict tr).1 ≡ pos 0
      → let tr' = (filter_apply_all answer sizes verdict tr).0 in
        Logs
          (all_lines name)
          tr'
          (filter_ipv4_log answer sizes (suc (suc (suc (suc fuel)))) (codes "filter") tr')
  unfolding filter_ipv4_log
  apply_all-Logs verdict name fuel tr k hs hv h =
      let (tr', res) = filter_apply_all answer sizes verdict tr in
      let info = (get_filter_info answer af_inet (codes "filter") tr).1 in
      let r = apply_all_replace sizes info verdict in
      logged-Logs info verdict name fuel tr' (filter_get answer sizes af_inet (codes "filter") tr')
        hs hv (filter_get-Finds k r tr' (apply_all-table_of k verdict tr h))

  abbrev pub accept_or_drop : Bool → Trace → Trace × ℤ
  accept_or_drop true tr = filter_ipv4_accept_all answer sizes tr
  accept_or_drop false tr = filter_ipv4_drop_all answer sizes tr

  abbrev pub accept_or_drop_name : Bool → Text
  accept_or_drop_name true = codes "ACCEPT"
  accept_or_drop_name false = codes "DROP"

  -- On a kernel that keeps the table it is given, and whose failed calls set `errno`: after
  -- ml_network_filter_ipv4_accept_all or _drop_all with the result 0, ml_network_filter_ipv4_log, with
  -- fuel for four entries or more, logs the table `filter` with three entries of the verdict ACCEPT,
  -- or DROP, and the error entry, or else one of its own calls fails and it logs nothing.
  pub accept_or_drop-Logs :
      (accept : Bool) (fuel : ℕ) (tr : Trace)
      → KeepsTable
      → 1 ≤ sizes.entry
      → (accept_or_drop accept tr).1 ≡ pos 0
      → let tr' = (accept_or_drop accept tr).0 in
        Logs
          (all_lines (accept_or_drop_name accept))
          tr'
          (filter_ipv4_log answer sizes (suc (suc (suc (suc fuel)))) (codes "filter") tr')
  unfolding filter_ipv4_accept_all filter_ipv4_drop_all verdict_line
  accept_or_drop-Logs true fuel tr k hs h =
      apply_all-Logs verdict_accept (codes "ACCEPT") fuel tr k hs refl h
  accept_or_drop-Logs false fuel tr k hs h =
      apply_all-Logs verdict_drop (codes "DROP") fuel tr k hs refl h
