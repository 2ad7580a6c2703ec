-- ===== src/Network/Walks.antt =====
-- The loop of ml_network_filter_ipv4_log of src/ml_network.c: it ends, and what it logs of the table
-- that filter_apply_all() builds.
use monolinux_c_library.Prelude.{
  ℕ, zero, suc, ◌+◌, ◌≤◌, ◌≡◌, refl, List, [], ◌∷◌, ◌++◌, some, ltb, Bool-cases, inl, inr, arith,
}
use monolinux_c_library.Prelude.Int.{ℤ}
use monolinux_c_library.Prelude.Text.{Text, codes, same}
use monolinux_c_library.Network.System.{Entry, Info}
use monolinux_c_library.Network.Replace.{
  Sizes, standard_size, error_size, fill_standard_entry, fill_error_entry, init_replace,
  apply_all_replace,
}
use monolinux_c_library.Network.Log.{
  LogLine, table, entry, from_ip, to_ip, from_if, to_if, protocol, flags, invflags, packets, bytes,
  cache, target, error, format_ipv4, entry_lines, target_lines, verdict_line, verdict_name, walk,
}
use monolinux_c_library.Network.Placed.{placed}

-- The loop of ml_network_filter_ipv4_log ends within as many rounds as the table has bytes, if no
-- entry has a `next_offset` of 0, and it logs at least the thirteen lines of the first entry of a
-- table that is not empty.
pub walk-fuel :
    (entry_at : ℕ → Entry) (size fuel offset i : ℕ)
    → ((o : ℕ) → 1 ≤ (entry_at o).next_offset)
    → size ≤ offset + fuel
    → (lines : List LogLine) × (walk entry_at size fuel offset i ≡ some lines)
unfolding walk
walk-fuel entry_at size zero offset i h hs = ([], ground arith)
walk-fuel entry_at size (suc fuel) offset i h hs =
    let (lines, e) =
      walk-fuel entry_at size fuel (offset + (entry_at offset).next_offset) (suc i) h
        (ground (arith, h offset)) in
    elim (Bool-cases (ltb offset size)) [
      | inl p ↦ (entry_lines i (entry_at offset) ++ lines, rw (p, e) refl)
      | inr p ↦ ([], rw p refl)
    ]

walk-end :
    (entry_at : ℕ → Entry) (size fuel offset i : ℕ)
    → size ≤ offset
    → walk entry_at size fuel offset i ≡ some []
unfolding walk
walk-end entry_at size zero offset i h = ground arith
walk-end entry_at size (suc fuel) offset i h = ground arith

walk-step :
    (entry_at : ℕ → Entry) (size fuel offset i : ℕ) {offset' : ℕ} {e : Entry} {lines : List LogLine}
    → offset + 1 ≤ size
    → entry_at offset ≡ e
    → offset + e.next_offset ≡ offset'
    → walk entry_at size fuel offset' (suc i) ≡ some lines
    → walk entry_at size (suc fuel) offset i ≡ some (entry_lines i e ++ lines)
unfolding walk
walk-step entry_at size fuel offset i h he ho hl = ground arith

-- Four rounds over the table of filter_apply_all().
abbrev pub applied_lines : Sizes → ℤ → List LogLine
applied_lines sizes verdict =
    let e = fill_standard_entry sizes verdict in
    entry_lines 1 e
    ++ (entry_lines 2 e ++ (entry_lines 3 e ++ (entry_lines 4 (fill_error_entry sizes) ++ [])))

pub walk-apply_all :
    (sizes : Sizes) (info : Info) (verdict : ℤ) (fuel : ℕ)
    → 1 ≤ sizes.entry
    → let r = apply_all_replace sizes info verdict in
      walk (placed sizes r.entries) r.size (suc (suc (suc (suc fuel)))) 0 1
      ≡ some (applied_lines sizes verdict)
unfolding apply_all_replace init_replace fill_standard_entry fill_error_entry placed
walk-apply_all sizes info verdict fuel h =
    let r = apply_all_replace sizes info verdict in
    let at = placed sizes r.entries in
    let s = standard_size sizes in
    walk-step at r.size _ 0 1 (omega arith) (ground arith) (omega arith) (
      walk-step at r.size _ s 2 (omega arith) (ground arith) refl (
        walk-step at r.size _ (s + s) 3 (omega arith) (ground arith) refl (
          walk-step at r.size _ (s + s + s) 4 (omega arith) (ground arith) refl
            (walk-end at r.size fuel (s + s + s + error_size sizes) 5 (omega arith)))))

-- The lines of an entry that is zero but for its target.
abbrev pub lines_of : ℕ → Text → LogLine → List LogLine
lines_of i name last =
    let zeros = 0 ∷ 0 ∷ 0 ∷ 0 ∷ [] in
    entry i
    ∷ from_ip zeros zeros
    ∷ to_ip zeros zeros
    ∷ from_if []
    ∷ to_if []
    ∷ protocol 0
    ∷ flags 0
    ∷ invflags 0
    ∷ packets 0
    ∷ bytes 0
    ∷ cache 0
    ∷ target name
    ∷ last
    ∷ []

-- Three entries with the verdict, and an error entry.
abbrev pub all_lines : Text → List LogLine
all_lines verdict =
    table (codes "filter")
    ∷ (lines_of 1 [] (verdict_name verdict)
        ++ (lines_of 2 [] (verdict_name verdict)
            ++ (lines_of 3 [] (verdict_name verdict)
                ++ lines_of 4 (codes "ERROR") (error (codes "ERROR")))))

pub applied_lines-eq :
    (sizes : Sizes) (verdict : ℤ) (name : Text)
    → verdict_line verdict ≡ verdict_name name
    → table (codes "filter") ∷ applied_lines sizes verdict ≡ all_lines name
unfolding entry_lines format_ipv4 target_lines fill_standard_entry fill_error_entry same
applied_lines-eq sizes verdict name h = rw h refl
