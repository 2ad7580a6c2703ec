-- ===== src/Network/Replace.antt =====
-- The table that filter_apply_all() of src/ml_network.c builds. The sizes of the kernel's structures
-- are a parameter.
use monolinux_c_library.Prelude.{ℕ, ◌+◌, ◌*◌, List, [], ◌∷◌}
use monolinux_c_library.Prelude.Int.{ℤ, pos, negsuc}
use monolinux_c_library.Prelude.Text.{codes}
use monolinux_c_library.Network.System.{Target, Entry, Replace, Info}

-- The sizes of `struct ipt_entry`, `xt_standard_target`, `xt_error_target`, `ipt_replace`,
-- `ip6t_replace` and `ipt_get_entries`.
pub record Sizes : Type 0 where
  pub entry : ℕ
  pub standard_target : ℕ
  pub error_target : ℕ
  pub replace : ℕ
  pub replace_ipv6 : ℕ
  pub get_entries : ℕ

-- -NF_ACCEPT - 1, -NF_DROP - 1 and -NF_QUEUE - 1.
abbrev pub verdict_accept : ℤ
verdict_accept = negsuc 1

abbrev pub verdict_drop : ℤ
verdict_drop = negsuc 0

abbrev pub verdict_queue : ℤ
verdict_queue = negsuc 3

abbrev pub zero_target : Target
zero_target = record { target_size = 0; name = []; verdict = pos 0; errorname = [] }

abbrev pub zero_entry : Entry
zero_entry = record {
  src = 0;
  smsk = 0;
  dst = 0;
  dmsk = 0;
  iniface = [];
  outiface = [];
  proto = 0;
  flags = 0;
  invflags = 0;
  nfcache = 0;
  pcnt = 0;
  bcnt = 0;
  target_offset = 0;
  next_offset = 0;
  target = zero_target;
}

-- sizeof(struct standard_entry_t) and sizeof(struct error_entry_t).
abbrev pub standard_size : Sizes → ℕ
standard_size sizes = sizes.entry + sizes.standard_target

abbrev pub error_size : Sizes → ℕ
error_size sizes = sizes.entry + sizes.error_target

unfoldable pub fill_standard_entry : Sizes → ℤ → Entry
fill_standard_entry sizes verdict = record zero_entry {
  target_offset = sizes.entry;
  next_offset = standard_size sizes;
  target = record zero_target { target_size = sizes.standard_target; verdict = verdict };
}

unfoldable pub fill_error_entry : Sizes → Entry
fill_error_entry sizes = record zero_entry {
  target_offset = sizes.entry;
  next_offset = error_size sizes;
  target = record zero_target {
    target_size = sizes.error_target;
    name = codes "ERROR";
    errorname = codes "ERROR";
  };
}

-- init_replace(), for the entries that filter_apply_all() fills in. The hooks are those of
-- NF_INET_LOCAL_IN, NF_INET_FORWARD and NF_INET_LOCAL_OUT, at 1, 2 and 3 of 5.
unfoldable pub init_replace : Sizes → Info → List Entry → Replace
init_replace sizes info entries = record {
  name = codes "filter";
  valid_hooks = 2 + 4 + 8;
  num_entries = 4;
  size = 3 * standard_size sizes + error_size sizes;
  hook_entry = 0 ∷ 0 ∷ standard_size sizes ∷ 2 * standard_size sizes ∷ 0 ∷ [];
  underflow = 0 ∷ 0 ∷ standard_size sizes ∷ 2 * standard_size sizes ∷ 0 ∷ [];
  num_counters = info.num_entries;
  entries = entries;
}

-- The table of filter_apply_all().
unfoldable pub apply_all_replace : Sizes → Info → ℤ → Replace
unfolding init_replace fill_standard_entry fill_error_entry
apply_all_replace sizes info verdict =
    let entry = fill_standard_entry sizes verdict in
    init_replace sizes info (entry ∷ entry ∷ entry ∷ fill_error_entry sizes ∷ [])
