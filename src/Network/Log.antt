-- ===== src/Network/Log.antt =====
-- What ml_network_filter_ipv4_log of src/ml_network.c logs of a table.
use monolinux_c_library.Prelude.{
  ℕ, zero, suc, ◌+◌, ◌%◌, ◌^◌, List, [], ◌∷◌, ◌++◌, ltb, Option, none, some, if◌then◌else◌,
}
use monolinux_c_library.Prelude.Int.{ℤ, pos, negsuc, same_fd}
use monolinux_c_library.Prelude.Text.{Text, codes, same}
use monolinux_c_library.Prelude.Words.{shr}
use monolinux_c_library.Network.System.{Call, free, Answer, Trace, Entry, af_inet, call}
use monolinux_c_library.Network.Replace.{Sizes, verdict_accept, verdict_drop, verdict_queue}
use monolinux_c_library.Network.Filter.{Table, filter_get}

-- One line of the log; an address is the four numbers that are printed.
pub data LogLine : Type 0 where
  table : Text → LogLine
  entry : ℕ → LogLine
  from_ip : List ℕ → List ℕ → LogLine
  to_ip : List ℕ → List ℕ → LogLine
  from_if : Text → LogLine
  to_if : Text → LogLine
  protocol : ℕ → LogLine
  flags : ℕ → LogLine
  invflags : ℕ → LogLine
  packets : ℕ → LogLine
  bytes : ℕ → LogLine
  cache : ℕ → LogLine
  target : Text → LogLine
  verdict_name : Text → LogLine
  verdict_number : ℕ → LogLine
  error : Text → LogLine

unfoldable pub format_ipv4 : ℕ → List ℕ
format_ipv4 a = shr a 24 % 2 ^ 8 ∷ shr a 16 % 2 ^ 8 ∷ shr a 8 % 2 ^ 8 ∷ a % 2 ^ 8 ∷ []

-- XT_RETURN is -5.
unfoldable pub verdict_line : ℤ → LogLine
verdict_line (pos n) = verdict_number n
verdict_line (negsuc n) =
    if same_fd (negsuc n) verdict_accept
    then verdict_name (codes "ACCEPT")
    else if same_fd (negsuc n) verdict_drop
    then verdict_name (codes "DROP")
    else if same_fd (negsuc n) verdict_queue
    then verdict_name (codes "QUEUE")
    else if same_fd (negsuc n) (negsuc 4)
    then verdict_name (codes "RETURN")
    else verdict_name (codes "UNKNOWN")

-- XT_STANDARD_TARGET is the empty name.
unfoldable pub target_lines : Entry → List LogLine
unfolding verdict_line same
target_lines e =
    if same e.target.name []
    then verdict_line e.target.verdict ∷ []
    else if same e.target.name (codes "ERROR")
    then error e.target.errorname ∷ []
    else []

unfoldable pub entry_lines : ℕ → Entry → List LogLine
unfolding format_ipv4 target_lines
entry_lines i e =
    entry i
    ∷ from_ip (format_ipv4 e.src) (format_ipv4 e.smsk)
    ∷ to_ip (format_ipv4 e.dst) (format_ipv4 e.dmsk)
    ∷ from_if e.iniface
    ∷ to_if e.outiface
    ∷ protocol e.proto
    ∷ flags e.flags
    ∷ invflags e.invflags
    ∷ packets e.pcnt
    ∷ bytes e.bcnt
    ∷ cache e.nfcache
    ∷ target e.target.name
    ∷ target_lines e

abbrev pub prepend : List LogLine → Option (List LogLine) → Option (List LogLine)
prepend lines none = none
prepend lines (some rest) = some (lines ++ rest)

-- The loop on fuel; none where the fuel is used up.
unfoldable pub walk : (ℕ → Entry) → ℕ → ℕ → ℕ → ℕ → Option (List LogLine)
unfolding entry_lines
walk entry_at size zero offset i = if ltb offset size then none else some []
walk entry_at size (suc fuel) offset i =
    let e = entry_at offset in
    let rest = walk entry_at size fuel (offset + e.next_offset) (suc i) in
    if ltb offset size then prepend (entry_lines i e) rest else some []

abbrev pub table_log : ℕ → Table → Option (List LogLine)
table_log fuel t = prepend (table t.name ∷ []) (walk t.entry_at t.size fuel 0 1)

module _ (answer : Trace → Call → Answer) (sizes : Sizes) where
  abbrev pub logged : ℕ → Trace → Option Table → Trace × Option (List LogLine)
  logged fuel tr none = (tr, some [])
  logged fuel tr (some t) = (call answer (free t.block) tr, table_log fuel t)

  -- ml_network_filter_ipv4_log().
  unfoldable pub filter_ipv4_log : ℕ → Text → Trace → Trace × Option (List LogLine)
  unfolding filter_get call walk
  filter_ipv4_log fuel name tr =
      let (tr', found, info) = filter_get answer sizes af_inet name tr in logged fuel tr' found
