-- ===== src/Network/Placed.antt =====
-- The table that filter_apply_all() of src/ml_network.c builds, as it lies in memory.
use monolinux_c_library.Prelude.{
  ℕ, zero, suc, ◌+◌, ◌-◌, ◌^◌, ◌≤◌, ◌≡◌, List, [], ◌∷◌, length, get_or, ltb, if◌then◌else◌, arith,
}
use monolinux_c_library.Prelude.Int.{ℤ}
use monolinux_c_library.Prelude.Text.{codes}
use monolinux_c_library.Network.System.{Entry, Info}
use monolinux_c_library.Network.Replace.{
  Sizes, zero_entry, standard_size, fill_standard_entry, fill_error_entry, init_replace,
  apply_all_replace,
}

-- What lies at an offset of `struct replace_t` behind its header: standard entries of one size, and
-- the error entry at the end.
unfoldable pub placed : Sizes → List Entry → ℕ → Entry
placed sizes [] offset = zero_entry
placed sizes (e ∷ []) offset = e
placed sizes (e ∷ e' ∷ es) offset =
    let rest = placed sizes (e' ∷ es) (offset - standard_size sizes) in
    if ltb offset (standard_size sizes) then e else rest

-- A standard entry of the verdict, whose target lies behind it and fills it up to the next entry.
abbrev pub IsStandard : Sizes → ℤ → Entry → Type 0
IsStandard sizes verdict e =
    (e.target.name ≡ [])
    × (e.target.verdict ≡ verdict)
    × (e.target_offset ≡ sizes.entry)
    × (e.target_offset + e.target.target_size ≡ e.next_offset)

abbrev pub IsError : Sizes → Entry → Type 0
IsError sizes e =
    (e.target.name ≡ codes "ERROR")
    × (e.target_offset ≡ sizes.entry)
    × (e.target_offset + e.target.target_size ≡ e.next_offset)

-- Going from entry to entry by `next_offset`, `n` of them end at the offset.
unfoldable pub end_of : (ℕ → Entry) → ℕ → ℕ → ℕ
end_of entry_at zero offset = offset
end_of entry_at (suc n) offset = end_of entry_at n (offset + (entry_at offset).next_offset)

-- Where the first `n` of them start.
unfoldable pub starts : (ℕ → Entry) → ℕ → ℕ → List ℕ
starts entry_at zero offset = []
starts entry_at (suc n) offset = offset ∷ starts entry_at n (offset + (entry_at offset).next_offset)

-- Where an entry is not empty, the table of accept_all and drop_all replaces the filter table, with as many counters as that has
-- entries, and is valid for the hooks 1, 2 and 3 of input, forwarding and output. Its entries follow
-- each other by their lengths and end at its size, `num_entries` of them: the first three start at the
-- offsets of the three hooks, which are their underflows as well, and are standard entries with the
-- verdict; the last one, behind that of the output, is the error entry.
pub apply_all_replace_lem :
    (sizes : Sizes) (info : Info) (verdict : ℤ)
    → 1 ≤ sizes.entry
    → let r = apply_all_replace sizes info verdict in
      let at = placed sizes r.entries in
      let hook = λ (h : ℕ). get_or r.hook_entry h 0 in
      (r.name ≡ codes "filter")
      × (r.num_counters ≡ info.num_entries)
      × (r.valid_hooks ≡ 2 ^ 1 + 2 ^ 2 + 2 ^ 3)
      × (length r.entries ≡ r.num_entries)
      × (starts at r.num_entries 0 ≡ hook 1 ∷ hook 2 ∷ hook 3 ∷ end_of at 1 (hook 3) ∷ [])
      × (end_of at r.num_entries 0 ≡ r.size)
      × (r.hook_entry ≡ r.underflow)
      × IsStandard sizes verdict (at (hook 1))
      × IsStandard sizes verdict (at (hook 2))
      × IsStandard sizes verdict (at (hook 3))
      × IsError sizes (at (end_of at 1 (hook 3)))
unfolding apply_all_replace init_replace fill_standard_entry fill_error_entry placed end_of starts
apply_all_replace_lem sizes info verdict h = ground arith
